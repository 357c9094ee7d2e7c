-- ===== src/MapReduce/Apps.antt =====
-- src/mrapps/wc.go and indexer.go: the functions of two plugins. `fields` stands for strings.FieldsFunc
-- at what is no letter, `itoa` for strconv.Itoa, `sort_strings` and `join` for sort.Strings and
-- strings.Join with a comma.
use mit_distributed_systems.Prelude.{
  ℕ, Bytes, bytes_eq, List, [], ◌∷◌, ◌++◌, length, Bool, false, ◌||◌, if◌then◌else◌,
}
use mit_distributed_systems.MapReduce.Worker.{KeyValue}

-- wc.go: the loop over the words of `Map`.
unfoldable pub count_words : List Bytes → List KeyValue
count_words [] = []
count_words (w ∷ words) = record { key = w; value = b'1' ∷ [] } ∷ count_words words

-- wc.go: `Map`
unfoldable pub wc_map : (Bytes → List Bytes) → Bytes → Bytes → List KeyValue
unfolding count_words
wc_map fields filename contents = count_words (fields contents)

-- wc.go: `Reduce`
unfoldable pub wc_reduce : (ℕ → Bytes) → Bytes → List Bytes → Bytes
wc_reduce itoa key values = itoa (length values)

abbrev pub is_in : Bytes → List Bytes → Bool
is_in w [] = false
is_in w (v ∷ vs) = bytes_eq v w || is_in w vs

-- indexer.go: the loop that fills the map with the words, `m` those that it has. Go's order of the
-- map's keys is any; here it is that of their first places.
unfoldable pub add_words : List Bytes → List Bytes → List Bytes
add_words m [] = m
add_words m (w ∷ words) = add_words (if is_in w m then m else m ++ w ∷ []) words

-- indexer.go: the loop over the map.
unfoldable pub index_words : Bytes → List Bytes → List KeyValue
index_words document [] = []
index_words document (w ∷ m) = record { key = w; value = document } ∷ index_words document m

-- indexer.go: `Map`
unfoldable pub indexer_map : (Bytes → List Bytes) → Bytes → Bytes → List KeyValue
unfolding add_words index_words
indexer_map fields document value = index_words document (add_words [] (fields value))

-- indexer.go: `Reduce`
unfoldable pub indexer_reduce :
    (ℕ → Bytes) → (List Bytes → List Bytes) → (List Bytes → Bytes) → Bytes → List Bytes → Bytes
indexer_reduce itoa sort_strings join key values =
    itoa (length values) ++ b' ' ∷ join (sort_strings values)
