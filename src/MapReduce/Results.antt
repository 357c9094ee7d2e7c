-- ===== src/MapReduce/Results.antt =====
-- src/mr/worker.go: what the reduce tasks write, key by key.
use native.Mathlib.Nat.{add-zero, zero-add}
use mit_distributed_systems.Prelude.{
  ap₂, Reordered, empty, kept, swapped, later, unchanged, map, inr, inl, Bool-cases, ℕ, zero, suc,
  ◌+◌, ◌%◌, ◌<◌, ◌≡◌, refl, sym, ap, ◌∙◌, Bytes, bytes_eq, bytes_eq_iff, bytes_eq-eq, List, [], ◌∷◌,
  ◌++◌, some, ◌==◌, if◌then◌else◌, get_elem?, arith, append_assoc, append-nil,
}
use mit_distributed_systems.MapReduce.Places.{
  indices, chosen-map, chosen-all, kept_front, exchanged,
}
use mit_distributed_systems.MapReduce.Worker.{
  perform_map, input_files, KeyValue, bucket, write_map_output, chosen, files_for, add_value,
  collect, collect_files, output_lines, perform_reduce,
}

-- The values that a list of pairs has for a key, in order; in a list of lines, what stands in each line
-- of the key.
abbrev pub values : Bytes → List KeyValue → List Bytes
values k [] = []
values k (kv ∷ kva) = if bytes_eq kv.key k then kv.value ∷ values k kva else values k kva

abbrev pub concat : List (List KeyValue) → List KeyValue
concat [] = []
concat (kva ∷ rest) = kva ++ concat rest

-- The lists of values that the groups have for a key.
abbrev groups_of : Bytes → List (Bytes × List Bytes) → List (List Bytes)
groups_of k [] = []
groups_of k ((j, vs) ∷ groups) =
    if bytes_eq j k then vs ∷ groups_of k groups else groups_of k groups

-- More values for the first list.
abbrev extend : List (List Bytes) → List Bytes → List (List Bytes)
extend [] [] = []
extend [] (v ∷ vs) = (v ∷ vs) ∷ []
extend (ws ∷ rest) vs = (ws ++ vs) ∷ rest

extend_nil : (o : List (List Bytes)) → extend o [] ≡ o
extend_nil [] = refl
extend_nil (ws ∷ rest) = ap (λ l. l ∷ rest) (append-nil ws)

extend_cons :
    (o : List (List Bytes)) (v : Bytes) (vs : List Bytes)
    → extend (extend o (v ∷ [])) vs ≡ extend o (v ∷ vs)
extend_cons [] v vs = refl
extend_cons (ws ∷ rest) v vs = ap (λ l. l ∷ rest) (append_assoc ws (v ∷ []) vs)

groups_of-add_value :
    (groups : List (Bytes × List Bytes)) (kv : KeyValue) (k : Bytes)
    → groups_of k (add_value groups kv) ≡ (
        if bytes_eq kv.key k
        then extend (groups_of k groups) (kv.value ∷ [])
        else groups_of k groups)
unfolding add_value
groups_of-add_value [] kv k = refl
groups_of-add_value ((j, vs) ∷ groups) kv k = ground (
  arith,
  bytes_eq_iff j kv.key,
  bytes_eq_iff j k,
  bytes_eq_iff kv.key k,
  groups_of-add_value groups kv k,
)

groups_of-collect :
    (groups : List (Bytes × List Bytes)) (file : List KeyValue) (k : Bytes)
    → groups_of k (collect groups file) ≡ extend (groups_of k groups) (values k file)
unfolding collect
groups_of-collect groups [] k = sym (extend_nil (groups_of k groups))
groups_of-collect groups (kv ∷ file) k =
    groups_of-collect (add_value groups kv) file k
    ∙ ap (λ o. extend o (values k file)) (groups_of-add_value groups kv k)
    ∙ ground (arith, extend_cons (groups_of k groups) kv.value (values k file))

pub values-append :
    (k : Bytes) (xs ys : List KeyValue) → values k (xs ++ ys) ≡ values k xs ++ values k ys
values-append k [] ys = refl
values-append k (x ∷ xs) ys = ground (arith, values-append k xs ys)

extend_append :
    (o : List (List Bytes)) (vs ws : List Bytes) → extend (extend o vs) ws ≡ extend o (vs ++ ws)
extend_append [] [] ws = refl
extend_append [] (v ∷ vs) ws = refl
extend_append (us ∷ rest) vs ws = ap (λ l. l ∷ rest) (append_assoc us vs ws)

groups_of-collect_files :
    (groups : List (Bytes × List Bytes)) (files : List (List KeyValue)) (k : Bytes)
    → groups_of k (collect_files groups files)
      ≡ extend (groups_of k groups) (values k (concat files))
unfolding collect_files
groups_of-collect_files groups [] k = sym (extend_nil (groups_of k groups))
groups_of-collect_files groups (file ∷ files) k =
    groups_of-collect_files (collect groups file) files k
    ∙ ap (λ o. extend o (values k (concat files))) (groups_of-collect groups file k)
    ∙ extend_append (groups_of k groups) (values k file) (values k (concat files))
    ∙ ap (extend (groups_of k groups)) (sym (values-append k file (concat files)))

-- A key's lines: one with the reduction of its values, if it has any.
abbrev pub reduced : (Bytes → List Bytes → Bytes) → Bytes → List Bytes → List Bytes
reduced reducef k [] = []
reduced reducef k (v ∷ vs) = reducef k (v ∷ vs) ∷ []

values-output_lines :
    (reducef : Bytes → List Bytes → Bytes) (groups : List (Bytes × List Bytes)) (k : Bytes)
    → values k (output_lines reducef groups) ≡ map (reducef k) (groups_of k groups)
unfolding output_lines
values-output_lines reducef [] k = refl
values-output_lines reducef ((j, vs) ∷ groups) k = elim (Bool-cases (bytes_eq j k)) [
  | inl e ↦ rw e (
      ap₂ (λ l ls. l ∷ ls) (ap (λ l. reducef l vs) (bytes_eq-eq j k e))
        (values-output_lines reducef groups k))
  | inr e ↦ rw e (values-output_lines reducef groups k)
]

map-extend :
    (reducef : Bytes → List Bytes → Bytes) (k : Bytes) (vs : List Bytes)
    → map (reducef k) (extend [] vs) ≡ reduced reducef k vs
map-extend reducef k [] = refl
map-extend reducef k (v ∷ vs) = refl

pub values-perform_reduce :
    (reducef : Bytes → List Bytes → Bytes) (files : List (List KeyValue)) (k : Bytes)
    → values k (perform_reduce reducef files) ≡ reduced reducef k (values k (concat files))
unfolding perform_reduce
values-perform_reduce reducef files k =
    values-output_lines reducef (collect_files [] files) k
    ∙ ap (map (reducef k)) (groups_of-collect_files [] files k)
    ∙ map-extend reducef k (values k (concat files))

files_for-found :
    (i : ℕ) (out : List (List KeyValue)) (outs : List (List (List KeyValue))) (file : List KeyValue)
    → get_elem? out i ≡ some file
    → files_for i (out ∷ outs) ≡ file ∷ files_for i outs
unfolding files_for
files_for-found i out outs file e = rw (e, files_for)

values-cons :
    (k : Bytes) (a : KeyValue) (xs ys : List KeyValue)
    → Reordered (values k xs) (values k ys)
    → Reordered (values k (a ∷ xs)) (values k (a ∷ ys))
values-cons k a xs ys p = elim (Bool-cases (bytes_eq a.key k)) [
  | inl same ↦ rw same (kept a.value p)
  | inr other ↦ rw other p
]

values-swap :
    (k : Bytes) (a b : KeyValue) (xs : List KeyValue)
    → Reordered (values k (a ∷ b ∷ xs)) (values k (b ∷ a ∷ xs))
values-swap k a b xs = elim (Bool-cases (bytes_eq a.key k)) [
  | inl p ↦ elim (Bool-cases (bytes_eq b.key k)) [
    | inl q ↦ rw (p, q) (swapped a.value b.value (values k xs))
    | inr q ↦ rw (p, q) (kept a.value (unchanged (values k xs)))
  ]
  | inr p ↦ elim (Bool-cases (bytes_eq b.key k)) [
    | inl q ↦ rw (p, q) (kept b.value (unchanged (values k xs)))
    | inr q ↦ rw (p, q) (unchanged (values k xs))
  ]
]

pub values-Reordered :
    (k : Bytes) {xs ys : List KeyValue} → Reordered xs ys → Reordered (values k xs) (values k ys)
values-Reordered k empty = empty
values-Reordered k (kept a {xs = xs} {ys = ys} p) = values-cons k a xs ys (values-Reordered k p)
values-Reordered k (swapped a b xs) = values-swap k a b xs
values-Reordered k (later p q) = later (values-Reordered k p) (values-Reordered k q)

module _ (ihash : Bytes → ℕ) (n_reduce : ℕ) where
  values-bucket :
      (i : ℕ) (kva : List KeyValue) (k : Bytes)
      → values k (bucket ihash n_reduce i kva)
        ≡ (if ihash k % n_reduce == i then values k kva else [])
  unfolding bucket
  values-bucket i [] k = ground arith
  values-bucket i (kv ∷ kva) k = elim (Bool-cases (bytes_eq kv.key k)) [
    | inl e ↦
        let same : ihash kv.key ≡ ihash k = ap ihash (bytes_eq-eq kv.key k e) in
        ground (arith, e, same, values-bucket i kva k)
    | inr e ↦ ground (arith, e, values-bucket i kva k)
  ]

  get_elem?-write_map_output :
      (left from i : ℕ) (kva : List KeyValue)
      → i < left
      → get_elem? (write_map_output ihash n_reduce left from kva) i
        ≡ some (bucket ihash n_reduce (from + i) kva)
  unfolding write_map_output
  get_elem?-write_map_output zero from i kva h = absurd (omega arith)
  get_elem?-write_map_output (suc left) from zero kva h = rw add-zero
  get_elem?-write_map_output (suc left) from (suc i) kva h =
      get_elem?-write_map_output left (from + 1) i kva (omega arith)
      ∙ ap (λ j. some (bucket ihash n_reduce j kva))
          (let e : from + 1 + i ≡ from + suc i = omega arith in e)

  module _ (mapf : Bytes → Bytes → List KeyValue) where
    -- What the map functions give for all input files.
    abbrev pub emitted : List (Bytes × Bytes) → List KeyValue
    emitted [] = []
    emitted ((filename, contents) ∷ inputs) = mapf filename contents ++ emitted inputs

    values-files_for :
        (inputs : List (Bytes × Bytes)) (i : ℕ) (k : Bytes)
        → i < n_reduce
        → values k (concat (files_for i (map (perform_map ihash mapf n_reduce) inputs)))
          ≡ (if ihash k % n_reduce == i then values k (emitted inputs) else [])
    unfolding files_for perform_map
    values-files_for [] i k h = ground arith
    values-files_for ((filename, contents) ∷ inputs) i k h =
        let kva = mapf filename contents in
        let files = files_for i (map (perform_map ihash mapf n_reduce) inputs) in
        let here : get_elem? (perform_map ihash mapf n_reduce (filename, contents)) i
            ≡ some (bucket ihash n_reduce i kva) =
          get_elem?-write_map_output n_reduce 0 i kva h
          ∙ ap (λ j. some (bucket ihash n_reduce j kva)) (zero-add i) in
        ap (λ fs. values k (concat fs))
          (files_for-found i (perform_map ihash mapf n_reduce (filename, contents))
            (map (perform_map ihash mapf n_reduce) inputs) (bucket ihash n_reduce i kva) here)
        ∙ values-append k (bucket ihash n_reduce i kva) (concat files)
        ∙ ground (
          arith,
          values-bucket i kva k,
          values-files_for inputs i k h,
          values-append k kva (emitted inputs),
        )

    emitted-append : (xs ys : List (Bytes × Bytes)) → emitted (xs ++ ys) ≡ emitted xs ++ emitted ys
    emitted-append [] ys = refl
    emitted-append ((filename, contents) ∷ xs) ys =
        ap (λ l. mapf filename contents ++ l) (emitted-append xs ys)
        ∙ sym (append_assoc (mapf filename contents) (emitted xs) (emitted ys))

    pub emitted-Reordered :
        {xs ys : List (Bytes × Bytes)} → Reordered xs ys → Reordered (emitted xs) (emitted ys)
    emitted-Reordered empty = empty
    emitted-Reordered (kept a p) = kept_front (mapf a.0 a.1) (emitted-Reordered p)
    emitted-Reordered (swapped a b xs) = exchanged (mapf a.0 a.1) (mapf b.0 b.1) (emitted xs)
    emitted-Reordered (later p q) = later (emitted-Reordered p) (emitted-Reordered q)

    -- Every map task's files are found, each once, in any order. What reduce task `i` writes has one line
    -- for the key `k`, with the reduce function's result on the values that the map functions gave for
    -- `k`, over all input files in the order of Glob, if `k` is in the task's bucket and has a value at
    -- all; else it has no line for `k`. These values are all those of `k`, each as often as it was given.
    pub reduce_output_complete :
        (reducef : Bytes → List Bytes → Bytes) (inputs : List (Bytes × Bytes)) (glob : List ℕ)
        (i : ℕ) (k : Bytes)
        → i < n_reduce
        → Reordered glob (indices 0 inputs)
        → (values k (
              perform_reduce reducef
                (input_files glob i (map (perform_map ihash mapf n_reduce) inputs)))
            ≡ (if ihash k % n_reduce == i
                then reduced reducef k (values k (emitted (chosen inputs glob)))
                else []))
          × Reordered (values k (emitted (chosen inputs glob))) (values k (emitted inputs))
    unfolding input_files
    reduce_output_complete reducef inputs glob i k h all = (
      values-perform_reduce reducef
            (files_for i (chosen (map (perform_map ihash mapf n_reduce) inputs) glob)) k
          ∙ ap (λ outs. reduced reducef k (values k (concat (files_for i outs))))
              (chosen-map (perform_map ihash mapf n_reduce) inputs glob)
          ∙ ap (reduced reducef k) (values-files_for (chosen inputs glob) i k h)
          ∙ ground arith,
      values-Reordered k (emitted-Reordered (chosen-all inputs glob all)),
    )
