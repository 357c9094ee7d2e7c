-- ===== src/MapReduce/Sequential.antt =====
-- src/main/mrsequential.go: the sequential program writes, key by key, the lines of a distributed job.
use mit_distributed_systems.Prelude.{
  Reordered, empty, kept, swapped, later, ℕ, zero, suc, ◌%◌, ◌<◌, ◌≤◌, ◌≡◌, refl, sym, ap, subst,
  ◌∙◌, Bytes, bytes_eq, bytes_eq-eq, Bool, List, [], ◌∷◌, length, map, true, false, Bool-cases, inl,
  inr, arith, if◌then◌else◌, ◌==◌,
}
use mit_distributed_systems.MapReduce.Worker.{
  KeyValue, same_key, reduce_sorted, perform_map, perform_reduce, input_files, chosen,
}
use mit_distributed_systems.MapReduce.Places.{indices}
use mit_distributed_systems.MapReduce.Results.{
  values, values-Reordered, reduced, emitted, reduce_output_complete,
}

-- The pairs with the key stand in front.
abbrev pub Run : Bytes → List KeyValue → Type 0
Run k [] = Unit {0}
Run k (kv ∷ kva) = if bytes_eq kv.key k then Run k kva else (values k kva ≡ [])

-- Equal keys stand together, as they do in a sorted list.
abbrev pub IsGrouped : List KeyValue → Type 0
IsGrouped [] = Unit {0}
IsGrouped (kv ∷ kva) = Run kv.key kva × IsGrouped kva

record Parted (k : Bytes) (kva : List KeyValue) : Type 0 where
  taken : (same_key k kva).0 ≡ values k kva
  others : (j : Bytes) → bytes_eq k j ≡ false → values j (same_key k kva).1 ≡ values j kva
  grouped : IsGrouped (same_key k kva).1
  gone : values k (same_key k kva).1 ≡ []
  fewer : length (same_key k kva).1 ≤ length kva

same_key-Parted : (k : Bytes) (kva : List KeyValue) → Run k kva → IsGrouped kva → Parted k kva
unfolding same_key
same_key-Parted k [] run g = record {
  taken = refl;
  others = λ j ne. refl;
  grouped = tt;
  gone = refl;
  fewer = omega arith;
}
same_key-Parted k (kv ∷ kva) run (r, g) = elim (Bool-cases (bytes_eq kv.key k)) [
  | inl same ↦
      let p = same_key-Parted k kva (subst (λ j. Run j kva) (bytes_eq-eq kv.key k same) r) g in
      record {
        taken = ground (arith, same, p.taken);
        others = λ j ne.
            let apart : bytes_eq kv.key j ≡ false = rw (bytes_eq-eq kv.key k same) ne in
            ground (arith, same, apart, p.others j ne);
        grouped =
            subst IsGrouped
              (let e : (same_key k kva).1 ≡ (same_key k (kv ∷ kva)).1 = ground (arith, same) in e)
              p.grouped;
        gone = ground (arith, same, p.gone);
        fewer = ground (arith, same, p.fewer);
      }
  | inr other ↦ record {
    gone =
        ground (arith, other, subst (λ b. if b then Run k kva else (values k kva ≡ [])) other run);
    taken =
        ground (arith, other, subst (λ b. if b then Run k kva else (values k kva ≡ [])) other run);
    others = λ j ne. ground (arith, other);
    grouped =
        subst IsGrouped (let e : kv ∷ kva ≡ (same_key k (kv ∷ kva)).1 = ground (arith, other) in e)
          (r, g);
    fewer = ground (arith, other);
  }
]

reduce_sorted-values :
    (reducef : Bytes → List Bytes → Bytes) (k : Bytes) (fuel : ℕ) (kva : List KeyValue)
    → IsGrouped kva
    → length kva ≤ fuel
    → values k (reduce_sorted fuel reducef kva) ≡ reduced reducef k (values k kva)
unfolding reduce_sorted
reduce_sorted-values reducef k zero [] g h = refl
reduce_sorted-values reducef k zero (kv ∷ kva) g h = absurd (omega (arith, h))
reduce_sorted-values reducef k (suc fuel) [] g h = refl
reduce_sorted-values reducef k (suc fuel) (kv ∷ kva) (r, g) h =
    let p = same_key-Parted kv.key kva r g in
    let others =
      reduce_sorted-values reducef k fuel (same_key kv.key kva).1 p.grouped
        (omega (arith, p.fewer, h)) in
    elim (Bool-cases (bytes_eq kv.key k)) [
      | inl same ↦
          let key = bytes_eq-eq kv.key k same in
          let vals : (same_key kv.key kva).0 ≡ values k kva =
            p.taken ∙ ap (λ j. values j kva) key in
          let line : reducef kv.key (kv.value ∷ (same_key kv.key kva).0)
              ≡ reducef k (kv.value ∷ values k kva) =
            ap (λ j. reducef j (kv.value ∷ (same_key kv.key kva).0)) key
            ∙ ap (λ vs. reducef k (kv.value ∷ vs)) vals in
          let no_more : values k (reduce_sorted fuel reducef (same_key kv.key kva).1) ≡ [] =
            others
            ∙ ap (reduced reducef k)
                (subst (λ j. values j (same_key kv.key kva).1 ≡ []) key p.gone) in
          ground (arith, same, line, no_more)
      | inr other ↦ ground (arith, other, others, p.others k other)
    ]

Reordered-sym : {A : Type 0} {xs ys : List A} → Reordered xs ys → Reordered ys xs
Reordered-sym empty = empty
Reordered-sym (kept a p) = kept a (Reordered-sym p)
Reordered-sym (swapped a b xs) = swapped b a xs
Reordered-sym (later p q) = later (Reordered-sym q) (Reordered-sym p)

abbrev is_nil : List Bytes → Bool
is_nil [] = true
is_nil (v ∷ vs) = false

is_nil-Reordered : {vs ws : List Bytes} → Reordered vs ws → is_nil vs ≡ is_nil ws
is_nil-Reordered empty = refl
is_nil-Reordered (kept a p) = refl
is_nil-Reordered (swapped a b xs) = refl
is_nil-Reordered (later p q) = is_nil-Reordered p ∙ is_nil-Reordered q

reduced-Reordered :
    (reducef : Bytes → List Bytes → Bytes) (k : Bytes) (vs ws : List Bytes)
    → Reordered vs ws
    → (reducef k vs ≡ reducef k ws)
    → reduced reducef k vs ≡ reduced reducef k ws
reduced-Reordered reducef k [] [] p e = refl
reduced-Reordered reducef k [] (w ∷ ws) p e = let h = is_nil-Reordered p in absurd (cc)
reduced-Reordered reducef k (v ∷ vs) [] p e = let h = is_nil-Reordered p in absurd (cc)
reduced-Reordered reducef k (v ∷ vs) (w ∷ ws) p e = ap (λ l. l ∷ []) e

-- With the same plugin and inputs, the lines that mrsequential writes for a key are those that the
-- key's reduce task of a distributed job writes, just as many with just the same text. The sequential
-- program has sorted the pairs, so that equal keys stand together, it has a round for each of them,
-- the reduce function does not depend on the order of its values, and Glob finds the files of every
-- map task, each once.
pub reduce_sorted-perform_reduce :
    (ihash : Bytes → ℕ) (n_reduce : ℕ) (mapf : Bytes → Bytes → List KeyValue)
    (reducef : Bytes → List Bytes → Bytes) (inputs : List (Bytes × Bytes)) (glob : List ℕ)
    (fuel i : ℕ) (k : Bytes) (sorted : List KeyValue)
    → Reordered sorted (emitted ihash n_reduce mapf inputs)
    → IsGrouped sorted
    → length sorted ≤ fuel
    → ((vs ws : List Bytes) → Reordered vs ws → reducef k vs ≡ reducef k ws)
    → i < n_reduce
    → i ≡ ihash k % n_reduce
    → Reordered glob (indices 0 inputs)
    → values k (reduce_sorted fuel reducef sorted)
      ≡ values k (
          perform_reduce reducef
            (input_files glob i (map (perform_map ihash mapf n_reduce) inputs)))
reduce_sorted-perform_reduce ihash n_reduce mapf reducef inputs glob fuel i k sorted p g h any_order
      lt at found =
    let all = emitted ihash n_reduce mapf (chosen inputs glob) in
    let (lines, same_values) =
      reduce_output_complete ihash n_reduce mapf reducef inputs glob i k lt found in
    let same : Reordered (values k sorted) (values k all) =
      later (values-Reordered k p) (Reordered-sym same_values) in
    reduce_sorted-values reducef k fuel sorted g h
    ∙ reduced-Reordered reducef k (values k sorted) (values k all) same
        (any_order (values k sorted) (values k all) same)
    ∙ sym (
        lines
        ∙ ap (λ b. if b then reduced reducef k (values k all) else [])
            (let e : (ihash k % n_reduce == i) ≡ true = ground (arith, at) in e))
