-- ===== src/Porcupine/Sorted.antt =====
-- src/porcupine/checker.go: makeEntries gives every operation its call and, behind it, its return.
use mit_distributed_systems.Prelude.{
  ℕ, suc, ◌+◌, ◌<◌, ◌≤◌, ◌≡◌, refl, sym, ap, subst, ◌∙◌, List, [], ◌∷◌, ◌++◌, length, Bool, true,
  false, ◌&&◌, arith, Every, Every-middle, Every-Reordered, count, count-Reordered, Reordered,
  length-Reordered, some, get_elem?, leb, ltb, if◌then◌else◌, append_assoc,
}
use mit_distributed_systems.Models.Kv.{Operation}
use mit_distributed_systems.Porcupine.History.{
  Entry, call_entry, return_entry, less, entries_from, make_entries,
}
use mit_distributed_systems.Porcupine.Exact.Check.{IsComplete}
use mit_distributed_systems.Porcupine.Complete.{
  calls, call_of, return_at, IsEntries, IsEntries-IsComplete,
}

at_most : (b : Bool) → (if b then 1 else 0) ≤ 1
at_most true = omega arith
at_most false = omega arith

module _ {V : Type 0} where
  -- What sort.Sort does: the same entries, none of which is less than one in front of it.
  pub record IsSort (sort : (Entry V → Entry V → Bool) → List (Entry V) → List (Entry V))
      : Type 0 where
    pub permutes : (es : List (Entry V)) → Reordered es (sort less es)
    pub sorted :
        (es seen : List (Entry V)) (a : Entry V) (mid : List (Entry V)) (b : Entry V)
        (rest : List (Entry V))
        → sort less es ≡ seen ++ a ∷ (mid ++ b ∷ rest)
        → less b a ≡ false

  -- No operation returns before it is called.
  abbrev pub EndsLater : Operation V V → Type 0
  EndsLater op = op.invoked ≤ op.returned

  length-entries_from :
      (k : ℕ) (ops : List (Operation V V)) → length (entries_from k ops) ≡ length ops + length ops
  unfolding entries_from
  length-entries_from k [] = omega arith
  length-entries_from k (o ∷ ops) = omega (arith, length-entries_from (k + 1) ops)

  count-calls :
      (i k : ℕ) (ops : List (Operation V V))
      → count (call_of i) (entries_from k ops)
        ≡ (if leb k i && ltb i (k + length ops) then 1 else 0)
  unfolding entries_from count
  count-calls i k [] = ground arith
  count-calls i k (o ∷ ops) = ground (arith, count-calls i (k + 1) ops)

  count-returns :
      (i k : ℕ) (ops : List (Operation V V))
      → count (return_at i) (entries_from k ops)
        ≡ (if leb k i && ltb i (k + length ops) then 1 else 0)
  unfolding entries_from count
  count-returns i k [] = ground arith
  count-returns i k (o ∷ ops) = ground (arith, count-returns i (k + 1) ops)

  -- The value and the time of the entry are those of its operation.
  abbrev pub Fits : List (Operation V V) → Entry V → Type 0
  Fits ops e =
      (op : Operation V V) × (get_elem? ops e.id ≡ some op)
      × (e.value ≡ (if calls e.kind then op.input else op.output))
      × (e.time ≡ (if calls e.kind then op.invoked else op.returned))
      × EndsLater op

  Every-below :
      (k : ℕ) (ops : List (Operation V V)) → Every (λ e. e.id < k + length ops) (entries_from k ops)
  unfolding entries_from
  Every-below k [] = tt
  Every-below k (o ∷ ops) = (
    omega arith,
    (
      omega arith,
      subst (λ n. Every (λ e. e.id < n) (entries_from (k + 1) ops))
          (let e : k + 1 + length ops ≡ k + suc (length ops) = omega arith in e)
          (Every-below (k + 1) ops),
    ),
  )

  Every-Fits :
      (all : List (Operation V V)) (k : ℕ) (ops : List (Operation V V))
      → ((j : ℕ) (op : Operation V V) → get_elem? ops j ≡ some op → get_elem? all (k + j) ≡ some op)
      → Every EndsLater ops
      → Every (Fits all) (entries_from k ops)
  unfolding entries_from
  Every-Fits all k [] at h = tt
  Every-Fits all k (o ∷ ops) at (ends, h) =
      let here : get_elem? all k ≡ some o =
        ap (get_elem? all) (let e : k ≡ k + 0 = omega arith in e) ∙ at 0 o refl in
      let rest =
        Every-Fits all (k + 1) ops
          (λ j op e.
            ap (get_elem? all) (let s : k + 1 + j ≡ k + suc j = omega arith in s) ∙ at (suc j) op e)
          h in
      ((o, here, refl, refl, ends), ((o, here, refl, refl, ends), rest))

  Fits-less :
      (ops : List (Operation V V)) (r c : Entry V)
      → Fits ops r
      → Fits ops c
      → r.kind ≡ return_entry
      → c.kind ≡ call_entry
      → r.id ≡ c.id
      → less c r ≡ true
  unfolding less
  Fits-less ops r c (op, at, value, time, ends) (op', at', value', time', ends') k k' same =
      let one : some op ≡ some op' = sym at ∙ ap (get_elem? ops) same ∙ at' in
      let op_is : op ≡ op' = cc in
      let r_time : r.time ≡ op'.returned = ground (arith, time, k, ap (λ o. o.returned) op_is) in
      let c_time : c.time ≡ op'.invoked = ground (arith, time', k') in
      ground (arith, r_time, c_time, k, k', ends')

  pub make_entries-Fits :
      (sort : (Entry V → Entry V → Bool) → List (Entry V) → List (Entry V))
      (ops : List (Operation V V))
      → IsSort sort
      → Every EndsLater ops
      → Every (Fits ops) (make_entries sort ops)
  unfolding make_entries
  make_entries-Fits sort ops v ends = Every-Reordered (Fits ops) (v.permutes (entries_from 0 ops)) (
      Every-Fits ops 0 ops (λ j op e. ap (get_elem? ops) (let s : 0 + j ≡ j = omega arith in s) ∙ e)
        ends)

  pub make_entries-IsEntries :
      (sort : (Entry V → Entry V → Bool) → List (Entry V) → List (Entry V))
      (ops : List (Operation V V))
      → IsSort sort
      → Every EndsLater ops
      → IsEntries (length ops) (make_entries sort ops)
  unfolding make_entries
  make_entries-IsEntries sort ops v ends =
      let es = entries_from 0 ops in
      let p = v.permutes es in
      let fits = make_entries-Fits sort ops v ends in
      record {
        size = sym (length-Reordered p) ∙ length-entries_from 0 ops;
        one_call = λ i. omega (
          arith,
          sym (count-Reordered (call_of i) p) ∙ count-calls i 0 ops,
          at_most (leb 0 i && ltb i (0 + length ops)),
        );
        one_return = λ i lt.
            sym (count-Reordered (return_at i) p) ∙ count-returns i 0 ops ∙ ground (arith, lt);
        below =
            Every-Reordered (λ e. e.id < length ops) p
              (subst (λ n. Every (λ e. e.id < n) es)
                (let e : 0 + length ops ≡ length ops = omega arith in e) (Every-below 0 ops));
        in_order = λ seen r mid c rest split k k' same.
            let fits' = subst (Every (Fits ops)) split fits in
            let fit_r = Every-middle (Fits ops) seen r (mid ++ c ∷ rest) fits' in
            let fit_c =
              Every-middle (Fits ops) (seen ++ r ∷ mid) c rest
                (subst (Every (Fits ops)) (sym (append_assoc seen (r ∷ mid) (c ∷ rest))) fits') in
            let ahead = Fits-less ops r c fit_r fit_c k k' same in
            let not_ahead = v.sorted es seen r mid c rest split in cc;
      }

  -- With a sort.Sort that does what it says, and operations that return no earlier than they are
  -- called, the entries of makeEntries are a complete history.
  pub make_entries-IsComplete :
      (sort : (Entry V → Entry V → Bool) → List (Entry V) → List (Entry V))
      (ops : List (Operation V V))
      → IsSort sort
      → Every EndsLater ops
      → IsComplete (length ops) (make_entries sort ops)
  make_entries-IsComplete sort ops v ends =
      IsEntries-IsComplete (length ops) (make_entries sort ops)
        (make_entries-IsEntries sort ops v ends)
