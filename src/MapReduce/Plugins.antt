-- ===== src/MapReduce/Plugins.antt =====
-- src/mrapps/wc.go and indexer.go: what a job with these plugins writes.
use mit_distributed_systems.Prelude.{
  Reordered, length-Reordered, ap₂, ℕ, ◌+◌, ◌%◌, ◌<◌, ◌≡◌, refl, ap, ◌∙◌, Bytes, bytes_eq,
  bytes_eq-eq, append-nil, subst, sym, List, [], ◌∷◌, ◌++◌, length, map, Bool, true, false, ◌||◌,
  Bool-cases, inl, inr, arith, ◌==◌, if◌then◌else◌, length-append,
}
use mit_distributed_systems.MapReduce.Worker.{perform_map, perform_reduce, input_files, chosen}
use mit_distributed_systems.MapReduce.Places.{indices}
use mit_distributed_systems.MapReduce.Results.{
  values, values-append, reduced, emitted, reduce_output_complete,
}
use mit_distributed_systems.MapReduce.Apps.{
  count_words, wc_map, wc_reduce, is_in, add_words, index_words, indexer_map, indexer_reduce,
}

-- How often a word stands in a list.
abbrev pub count : Bytes → List Bytes → ℕ
count w [] = 0
count w (v ∷ vs) = (if bytes_eq v w then 1 else 0) + count w vs

module _ (fields : Bytes → List Bytes) (ihash : Bytes → ℕ) (n_reduce : ℕ) (itoa : ℕ → Bytes) where
  -- How often a word stands in the files.
  abbrev pub total : Bytes → List (Bytes × Bytes) → ℕ
  total w [] = 0
  total w ((filename, contents) ∷ inputs) = count w (fields contents) + total w inputs

  -- The names of the files that have the word, in order.
  abbrev pub containing : Bytes → List (Bytes × Bytes) → List Bytes
  containing w [] = []
  containing w ((filename, contents) ∷ inputs) =
      if is_in w (fields contents) then filename ∷ containing w inputs else containing w inputs

  length-values-count_words :
      (w : Bytes) (ws : List Bytes) → length (values w (count_words ws)) ≡ count w ws
  unfolding count_words
  length-values-count_words w [] = refl
  length-values-count_words w (v ∷ ws) = ground (arith, length-values-count_words w ws)

  length-values-emitted :
      (w : Bytes) (inputs : List (Bytes × Bytes))
      → length (values w (emitted ihash n_reduce (wc_map fields) inputs)) ≡ total w inputs
  unfolding wc_map
  length-values-emitted w [] = refl
  length-values-emitted w ((filename, contents) ∷ inputs) =
      let here = count_words (fields contents) in
      let later = emitted ihash n_reduce (wc_map fields) inputs in
      ap length (values-append w here later)
      ∙ length-append (values w here) (values w later)
      ∙ omega (arith, length-values-count_words w (fields contents), length-values-emitted w inputs)

  wc_reduced :
      (w : Bytes) (vs : List Bytes) (n : ℕ)
      → length vs ≡ n
      → reduced (wc_reduce itoa) w vs ≡ (if n == 0 then [] else itoa n ∷ [])
  unfolding wc_reduce
  wc_reduced w [] n e = ground (arith, e)
  wc_reduced w (v ∷ vs) n e = ground (arith, e)

  -- With the word count plugin, where Glob finds the files of every map task, each once, reduce task
  -- `i` writes one line for a word of its bucket that stands in the input files, with how often it
  -- does, and no line for another word.
  pub word_count_complete :
      (inputs : List (Bytes × Bytes)) (glob : List ℕ) (i : ℕ) (w : Bytes)
      → i < n_reduce
      → Reordered glob (indices 0 inputs)
      → values w (
          perform_reduce
            (wc_reduce itoa)
            (input_files glob i (map (perform_map ihash (wc_map fields) n_reduce) inputs)))
        ≡ (if ihash w % n_reduce == i
            then (if total w inputs == 0 then [] else itoa (total w inputs) ∷ [])
            else [])
  word_count_complete inputs glob i w h found =
      let (lines, same) =
        reduce_output_complete ihash n_reduce (wc_map fields) (wc_reduce itoa) inputs glob i w h
          found in
      lines
      ∙ ap (λ line. if ihash w % n_reduce == i then line else [])
          (wc_reduced w (values w (emitted ihash n_reduce (wc_map fields) (chosen inputs glob)))
            (total w inputs) (length-Reordered same ∙ length-values-emitted w inputs))

  -- Each word of the list stands there once.
  abbrev Once : List Bytes → Type 0
  Once m =
      (document w : Bytes)
      → values w (index_words document m) ≡ (if is_in w m then document ∷ [] else [])

  is_in-snoc : (w v : Bytes) (m : List Bytes) → is_in w (m ++ v ∷ []) ≡ (is_in w m || bytes_eq v w)
  is_in-snoc w v [] = ground (arith)
  is_in-snoc w v (x ∷ m) = ground (arith, is_in-snoc w v m)

  index_words-snoc :
      (document v : Bytes) (m : List Bytes)
      → index_words document (m ++ v ∷ [])
        ≡ index_words document m ++ record { key = v; value = document } ∷ []
  unfolding index_words
  index_words-snoc document v [] = refl
  index_words-snoc document v (x ∷ m) =
      ap (λ l. record { key = x; value = document } ∷ l) (index_words-snoc document v m)

  Once-snoc : (v : Bytes) (m : List Bytes) → Once m → is_in v m ≡ false → Once (m ++ v ∷ [])
  Once-snoc v m once new document w =
      let split =
        ap (values w) (index_words-snoc document v m)
        ∙ values-append w (index_words document m) (record { key = v; value = document } ∷ []) in
      split ∙ (elim (Bool-cases (bytes_eq v w)) [
        | inl same ↦
            let absent : is_in w m ≡ false =
              subst (λ x. is_in x m ≡ false) (bytes_eq-eq v w same) new in
            ground (arith, same, absent, is_in-snoc w v m, once document w)
        | inr other ↦
            let rest = append-nil (values w (index_words document m)) in
            ground (arith, other, is_in-snoc w v m, once document w, rest)
      ])

  is_in-again :
      (v w : Bytes) (m ws : List Bytes)
      → is_in v m ≡ true
      → (is_in w m || (bytes_eq v w || is_in w ws)) ≡ (is_in w m || is_in w ws)
  is_in-again v w m ws h = elim (Bool-cases (bytes_eq v w)) [
    | inl same ↦
        let there : is_in w m ≡ true = subst (λ x. is_in x m ≡ true) (bytes_eq-eq v w same) h in
        ground (arith, there)
    | inr other ↦ ground (arith, other)
  ]

  or_assoc : (a b c : Bool) → ((a || b) || c) ≡ (a || (b || c))
  or_assoc true b c = refl
  or_assoc false b c = refl

  add_words-Once :
      (m ws : List Bytes)
      → Once m
      → (document w : Bytes)
      → values w (index_words document (add_words m ws))
        ≡ (if is_in w m || is_in w ws then document ∷ [] else [])
  unfolding add_words
  add_words-Once m [] once document w = ground (arith, once document w)
  add_words-Once m (v ∷ ws) once document w = elim (Bool-cases (is_in v m)) [
    | inl old ↦
        ap (λ b. values w (index_words document (add_words (if b then m else m ++ v ∷ []) ws))) old
        ∙ add_words-Once m ws once document w
        ∙ ap (λ b. if b then document ∷ [] else []) (sym (is_in-again v w m ws old))
    | inr new ↦
        ap (λ b. values w (index_words document (add_words (if b then m else m ++ v ∷ []) ws))) new
        ∙ add_words-Once (m ++ v ∷ []) ws (Once-snoc v m once new) document w
        ∙ ap (λ b. if b || is_in w ws then document ∷ [] else []) (is_in-snoc w v m)
        ∙ ap (λ b. if b then document ∷ [] else [])
            (or_assoc (is_in w m) (bytes_eq v w) (is_in w ws))
  ]

  indexer-emitted :
      (w : Bytes) (inputs : List (Bytes × Bytes))
      → values w (emitted ihash n_reduce (indexer_map fields) inputs) ≡ containing w inputs
  unfolding indexer_map index_words
  indexer-emitted w [] = refl
  indexer-emitted w ((filename, contents) ∷ inputs) =
      let here = index_words filename (add_words [] (fields contents)) in
      let later = emitted ihash n_reduce (indexer_map fields) inputs in
      let one = add_words-Once [] (fields contents) (λ d x. refl) filename w in
      values-append w here later ∙ ground (arith, one, indexer-emitted w inputs)

  indexer_reduced :
      (sort_strings : List Bytes → List Bytes) (join : List Bytes → Bytes) (w : Bytes)
      (vs names : List Bytes)
      → Reordered vs names
      → sort_strings vs ≡ sort_strings names
      → reduced (indexer_reduce itoa sort_strings join) w vs ≡ (
          if length names == 0
          then []
          else (itoa (length names) ++ b' ' ∷ join (sort_strings names)) ∷ [])
  unfolding indexer_reduce
  indexer_reduced sort_strings join w [] names p e = ground (arith, length-Reordered p)
  indexer_reduced sort_strings join w (v ∷ vs) names p e =
      let size = length-Reordered p in
      let some_name : (length names == 0) ≡ false = ground (arith, size) in
      rw some_name (ap₂ (λ n l. (itoa n ++ b' ' ∷ join l) ∷ []) size e)

  -- With the indexer plugin, where Glob finds the files of every map task, each once, and the order
  -- that sort.Strings gives does not depend on the one before: reduce task `i` writes for a word of its
  -- bucket one line with the number and the names, sorted, of the input files that have it, each file
  -- once however often the word stands in it, if there is one at all, and it writes no line for another
  -- word.
  pub index_complete :
      (sort_strings : List Bytes → List Bytes) (join : List Bytes → Bytes)
      (inputs : List (Bytes × Bytes)) (glob : List ℕ) (i : ℕ) (w : Bytes)
      → ((vs ws : List Bytes) → Reordered vs ws → sort_strings vs ≡ sort_strings ws)
      → i < n_reduce
      → Reordered glob (indices 0 inputs)
      → values w (
          perform_reduce
            (indexer_reduce itoa sort_strings join)
            (input_files glob i (map (perform_map ihash (indexer_map fields) n_reduce) inputs)))
        ≡ (if ihash w % n_reduce == i
            then (if length (containing w inputs) == 0
                then []
                else (itoa (length (containing w inputs))
                    ++ b' ' ∷ join (sort_strings (containing w inputs)))
                  ∷ [])
            else [])
  index_complete sort_strings join inputs glob i w sorts h found =
      let (lines, same) =
        reduce_output_complete ihash n_reduce (indexer_map fields)
          (indexer_reduce itoa sort_strings join) inputs glob i w h found in
      let given = values w (emitted ihash n_reduce (indexer_map fields) (chosen inputs glob)) in
      let names = subst (Reordered given) (indexer-emitted w inputs) same in
      lines
      ∙ ap (λ line. if ihash w % n_reduce == i then line else [])
          (indexer_reduced sort_strings join w given (containing w inputs) names
            (sorts given (containing w inputs) names))
