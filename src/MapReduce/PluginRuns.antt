-- ===== src/MapReduce/PluginRuns.antt =====
-- src/mrapps: jobs with the plugins at concrete inputs. Each byte of a text is a word.
use mit_distributed_systems.Prelude.{
  ap₂, count, count-Reordered, replicate, Bool, Reordered, swapped, length-Reordered, ℕ, ◌+◌, ◌≡◌,
  refl, ap, Bytes, bytes_eq, List, [], ◌∷◌, ◌++◌, map, arith,
}
use mit_distributed_systems.MapReduce.Worker.{
  KeyValue, perform_map, perform_reduce, input_files, reduce_sorted,
}
use mit_distributed_systems.MapReduce.Places.{indices}
use mit_distributed_systems.MapReduce.Results.{values}
use mit_distributed_systems.MapReduce.Apps.{
  count_words, wc_map, wc_reduce, indexer_map, indexer_reduce,
}
use mit_distributed_systems.MapReduce.Sequential.{IsGrouped, reduce_sorted-perform_reduce}
use mit_distributed_systems.MapReduce.Plugins.{word_count_complete, index_complete}

abbrev letters : Bytes → List Bytes
letters [] = []
letters (b ∷ s) = (b ∷ []) ∷ letters s

abbrev first_letter : Bytes → ℕ
first_letter [] = 0
first_letter (b ∷ s) = b

abbrev digit : ℕ → Bytes
digit n = (b'0' + n) ∷ []

abbrev joined : List Bytes → Bytes
joined [] = []
joined (s ∷ []) = s
joined (s ∷ t ∷ ts) = s ++ b',' ∷ joined (t ∷ ts)

abbrev texts : List (Bytes × Bytes)
texts = (b'x' ∷ [], b'a' ∷ b'b' ∷ b'a' ∷ []) ∷ (b'y' ∷ [], b'c' ∷ b'a' ∷ []) ∷ []

backwards : Reordered (1 ∷ 0 ∷ []) (indices 0 texts)
backwards = swapped 1 0 []

-- Sorting by counting, for the names of these files.
abbrev is_name : Bytes → Bytes → Bool
is_name name s = bytes_eq s name

short_sort : List Bytes → List Bytes
unfolding bytes_eq count
short_sort vs =
    replicate (count (is_name (b'x' ∷ [])) vs) (b'x' ∷ [])
    ++ replicate (count (is_name (b'y' ∷ [])) vs) (b'y' ∷ [])

short_sort-Reordered : (vs ws : List Bytes) → Reordered vs ws → short_sort vs ≡ short_sort ws
unfolding short_sort
short_sort-Reordered vs ws p =
    ap₂ (λ n m. replicate n (b'x' ∷ []) ++ replicate m (b'y' ∷ []))
      (count-Reordered (is_name (b'x' ∷ [])) p) (count-Reordered (is_name (b'y' ∷ [])) p)

word_count_complete_example :
    values (b'a' ∷ []) (
      perform_reduce
        (wc_reduce digit)
        (input_files (1 ∷ 0 ∷ []) 1 (map (perform_map first_letter (wc_map letters) 2) texts)))
    ≡ (b'3' ∷ []) ∷ []
unfolding bytes_eq
word_count_complete_example =
    word_count_complete letters first_letter 2 digit texts (1 ∷ 0 ∷ []) 1 (b'a' ∷ []) (omega arith)
      backwards

index_complete_example :
    values (b'a' ∷ []) (
      perform_reduce
        (indexer_reduce digit short_sort joined)
        (input_files (1 ∷ 0 ∷ []) 1 (map (perform_map first_letter (indexer_map letters) 2) texts)))
    ≡ (b'2' ∷ b' ' ∷ b'x' ∷ b',' ∷ b'y' ∷ []) ∷ []
unfolding bytes_eq short_sort
index_complete_example =
    index_complete letters first_letter 2 digit short_sort joined texts (1 ∷ 0 ∷ []) 1 (b'a' ∷ [])
      short_sort-Reordered (omega arith) backwards

abbrev one : ℕ → KeyValue
one b = record { key = b ∷ []; value = b'1' ∷ [] }

abbrev two_files : List (Bytes × Bytes)
two_files = (b'x' ∷ [], b'b' ∷ []) ∷ (b'y' ∷ [], b'a' ∷ b'b' ∷ []) ∷ []

abbrev in_order : List KeyValue
in_order = one b'a' ∷ one b'b' ∷ one b'b' ∷ []

in_order-IsGrouped : IsGrouped in_order
unfolding bytes_eq
in_order-IsGrouped = (refl, (tt, (tt, tt)))

wc_reduce-Reordered :
    (vs ws : List Bytes)
    → Reordered vs ws
    → wc_reduce digit (b'b' ∷ []) vs ≡ wc_reduce digit (b'b' ∷ []) ws
unfolding wc_reduce
wc_reduce-Reordered vs ws p = ap digit (length-Reordered p)

reduce_sorted-perform_reduce_example :
    values (b'b' ∷ []) (reduce_sorted 3 (wc_reduce digit) in_order)
    ≡ values (b'b' ∷ []) (
        perform_reduce (wc_reduce digit) (
          input_files (1 ∷ 0 ∷ []) 0 (map (perform_map first_letter (wc_map letters) 2) two_files)))
unfolding wc_map count_words
reduce_sorted-perform_reduce_example =
    reduce_sorted-perform_reduce first_letter 2 (wc_map letters) (wc_reduce digit) two_files
      (1 ∷ 0 ∷ []) 3 0 (b'b' ∷ []) in_order (swapped (one b'a') (one b'b') (one b'b' ∷ []))
      in_order-IsGrouped (omega arith) wc_reduce-Reordered (omega arith) refl backwards
