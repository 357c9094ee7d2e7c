-- ===== src/Porcupine/Orders.antt =====
-- Which histories of operations are linearizable, by the operations alone, and that the entries of
-- makeEntries in src/porcupine/checker.go are linearizable exactly if the operations are.
use mit_distributed_systems.Prelude.{
  ℕ, ◌≤◌, ◌≡◌, ◌↔◌, refl, sym, subst, ap, ◌∙◌, List, [], ◌∷◌, ◌++◌, Bool, true, false, some, inl,
  inr, arith, Bool-cases, Every, Every-middle, get_elem?, update, append_assoc, length, ◌==◌,
  if◌then◌else◌,
}
use mit_distributed_systems.Models.Kv.{Operation}
use mit_distributed_systems.Porcupine.History.{
  Entry, EntryKind, call_entry, return_entry, less, entries_from, make_entries,
}
use mit_distributed_systems.Porcupine.Items.{Item, numbered}
use mit_distributed_systems.Porcupine.Links.{Node}
use mit_distributed_systems.Porcupine.Search.{start_links}
use mit_distributed_systems.Porcupine.Reference.{without}
use mit_distributed_systems.Porcupine.Pairs.{IsPaired, IsPaired-without, Pair-left}
use mit_distributed_systems.Porcupine.Complete.{calls}
use mit_distributed_systems.Porcupine.Exact.Check.{start_links-Started, Holds-IsPaired}
use mit_distributed_systems.Porcupine.Sorted.{
  IsSort, EndsLater, Fits, make_entries-Fits, make_entries-IsComplete,
}
use mit_distributed_systems.Porcupine.Linear.{
  AllCalls, Linearizable, nothing_left, comes_first, left_behind,
}
use mit_distributed_systems.Porcupine.Ranked.{
  Any, Any-Reordered, Any-split, Every-behind, Every-front, Is, Any-entry, Any-numbered,
  Every-numbered, InOrder, numbered-InOrder, InOrder-behind, InOrder-front, InOrder-without,
  Any-without,
}

module _ {V S : Type 0} (step : S → V → V → Bool × S) (ops : List (Operation V V)) where
  -- The operations that are `left` can be put in an order: none is, or some operation comes first that
  -- is called no later than any of them returns, the model accepts its input with its output, and the
  -- others can be put in an order from the state behind it.
  pub data Orders : S → (ℕ → Bool) → Type 0 where
    all_placed :
        {st : S} {left : ℕ → Bool}
        → ((i : ℕ) (op : Operation V V) → get_elem? ops i ≡ some op → left i ≡ false)
        → Orders st left
    placed_next :
        {st st' : S} {left : ℕ → Bool} (i : ℕ) (op : Operation V V)
        → get_elem? ops i ≡ some op
        → left i ≡ true
        → ((j : ℕ) (other : Operation V V)
            → get_elem? ops j ≡ some other
            → left j ≡ true
            → op.invoked ≤ other.returned)
        → step st op.input op.output ≡ (true, st')
        → Orders st' (update left i false)
        → Orders st left

-- The entry is of an operation that is left, at its time and with its value.
abbrev Good : {V : Type 0} → List (Operation V V) → (ℕ → Bool) → Entry V → Type 0
Good ops left e = (left e.id ≡ true) × Fits ops e

module _ {V : Type 0} (ops : List (Operation V V)) where
  Good-without :
      (left : ℕ → Bool) (i : ℕ) (items : List (Item V))
      → Every (λ a. Good ops left a.1) items
      → Every (λ a. Good ops (update left i false) a.1) (without i items)
  Good-without left i [] h = tt
  Good-without left i (a ∷ items) ((l, fits), h) = elim (Bool-cases (a.1.id == i)) [
    | inl e ↦ rw e (Good-without left i items h)
    | inr e ↦ rw e ((rw e l, fits), Good-without left i items h)
  ]

  -- A return that does not sort before a call is no earlier.
  bound_of :
      (c r : Entry V) (op other : Operation V V)
      → c.kind ≡ call_entry
      → c.time ≡ op.invoked
      → r.kind ≡ return_entry
      → r.time ≡ other.returned
      → less r c ≡ false
      → op.invoked ≤ other.returned
  unfolding less
  bound_of c r op other k at k' at' h = ground arith

  -- What sorts before a call that is no later than any return is a call.
  front_call :
      (c a : Entry V) (op other : Operation V V)
      → c.kind ≡ call_entry
      → c.time ≡ op.invoked
      → a.time ≡ (if calls a.kind then other.invoked else other.returned)
      → op.invoked ≤ other.returned
      → less c a ≡ false
      → a.kind ≡ call_entry
  unfolding less
  front_call c a op other k at at' b h = ground arith

  -- The entries that are left, in the list's order.
  record Standing (s : ℕ → Node V) (n : ℕ) (left : ℕ → Bool) (items : List (Item V)) : Type 0 where
    good : Every (λ a. Good ops left a.1) items
    has :
        (k : EntryKind) (i : ℕ) (op : Operation V V)
        → get_elem? ops i ≡ some op
        → left i ≡ true
        → Any (λ a. Is k i a.1) items
    in_order : InOrder items
    paired : IsPaired s n items

  Standing-without :
      (s : ℕ → Node V) (n : ℕ) (left : ℕ → Bool) (i : ℕ) (items : List (Item V))
      → Standing s n left items
      → Standing s n (update left i false) (without i items)
  Standing-without s n left i items v = record {
    good = Good-without left i items v.good;
    has = λ k j op at l. elim (Bool-cases (j == i)) [
      | inl e ↦ absurd (ground (arith, e, l))
      | inr e ↦ Any-without k i j items (ground (arith, e)) (v.has k j op at (ground (arith, e, l)))
    ];
    in_order = InOrder-without i items v.in_order;
    paired = IsPaired-without s n i items v.paired;
  }

  behind_calls :
      (j : ℕ) (seen : List (Item V)) (c : Item V) (rest : List (Item V))
      → AllCalls seen
      → c.1.kind ≡ call_entry
      → Any (λ a. Is return_entry j a.1) (seen ++ c ∷ rest)
      → Any (λ a. Is return_entry j a.1) rest
  behind_calls j [] c rest front k (inl h) = absurd (ground (arith, k, h.0))
  behind_calls j [] c rest front k (inr h) = h
  behind_calls j (x ∷ seen) c rest (q, front) k (inl h) = absurd (ground (arith, q, h.0))
  behind_calls j (x ∷ seen) c rest (q, front) k (inr h) = behind_calls j seen c rest front k h

  -- In such a list a call with only calls in front is no later than any return.
  front_bound :
      (left : ℕ → Bool) (seen : List (Item V)) (c : Item V) (rest : List (Item V))
      (op other : Operation V V) (j : ℕ)
      → AllCalls seen
      → c.1.kind ≡ call_entry
      → c.1.time ≡ op.invoked
      → InOrder (seen ++ c ∷ rest)
      → Every (λ a. Good ops left a.1) (seen ++ c ∷ rest)
      → get_elem? ops j ≡ some other
      → Any (λ a. Is return_entry j a.1) (seen ++ c ∷ rest)
      → op.invoked ≤ other.returned
  front_bound left seen c rest op other j front k at sorted good is_other any =
      let later_return = behind_calls j seen c rest front k any in
      bound_at rest later_return (InOrder-behind seen c rest sorted)
        (Every-behind (λ a. Good ops left a.1) seen c rest good)
    where
      bound_at :
          (xs : List (Item V))
          → Any (λ a. Is return_entry j a.1) xs
          → Every (λ b. less b.1 c.1 ≡ false) xs
          → Every (λ a. Good ops left a.1) xs
          → op.invoked ≤ other.returned
      bound_at [] h q g = elim h [ ]
      bound_at (x ∷ xs) (inl (k', id)) (q, qs) ((l, (op', at', value, time, ends)), gs) =
          let one : some op' ≡ some other = sym at' ∙ ap (get_elem? ops) id ∙ is_other in
          let same : op' ≡ other = cc in
          bound_of c.1 x.1 op other k at k' (ground (arith, time, k', ap (λ o. o.returned) same)) q
      bound_at (x ∷ xs) (inr h) (q, qs) (g, gs) = bound_at xs h qs gs

  front_calls :
      (left : ℕ → Bool) (c : Item V) (op : Operation V V) (seen : List (Item V))
      → c.1.kind ≡ call_entry
      → c.1.time ≡ op.invoked
      → ((j : ℕ) (other : Operation V V)
          → get_elem? ops j ≡ some other
          → left j ≡ true
          → op.invoked ≤ other.returned)
      → Every (λ a. less c.1 a.1 ≡ false) seen
      → Every (λ a. Good ops left a.1) seen
      → AllCalls seen
  front_calls left c op [] k at bound sorted good = tt
  front_calls left c op (a ∷ seen) k at bound (q, sorted)
        ((l, (other, at', value, time, ends)), good) =
      (
        front_call c.1 a.1 op other k at time (bound a.1.id other at' l) q,
        front_calls left c op seen k at bound sorted good,
      )

module _ {V S : Type 0} (step : S → V → V → Bool × S) (ops : List (Operation V V)) (s : ℕ → Node V)
    (n : ℕ) where
  Linearizable-Orders :
      (st : S) (left : ℕ → Bool) (items : List (Item V))
      → Standing ops s n left items
      → Linearizable step st items
      → Orders step ops st left
  Linearizable-Orders st left items v nothing_left = all_placed (λ i op at.
      elim (Bool-cases (left i)) [ inl l ↦ absurd (v.has call_entry i op at l) | inr gone ↦ gone ])
  Linearizable-Orders st left items v
        (comes_first {st' = st'} seen c mid r post e front k k' same ok o) =
      let i = c.1.id in
      let good = subst (Every (λ a. Good ops left a.1)) e v.good in
      let (l, (op, at, value, time, ends)) =
        Every-middle (λ a. Good ops left a.1) seen c (mid ++ r ∷ post) good in
      let (l', (op', at', value', time', ends')) =
        Every-middle (λ a. Good ops left a.1) (seen ++ c ∷ mid) r post
          (subst (Every (λ a. Good ops left a.1)) (sym (append_assoc seen (c ∷ mid) (r ∷ post)))
            good) in
      let one : some op' ≡ some op = sym at' ∙ ap (get_elem? ops) same ∙ at in
      let op_is : op' ≡ op = cc in
      let input : c.1.value ≡ op.input = ground (arith, value, k) in
      let output : r.1.value ≡ op.output = ground (arith, value', k', ap (λ o. o.output) op_is) in
      let called : c.1.time ≡ op.invoked = ground (arith, time, k) in
      let rest = left_behind step s n items seen c mid r post v.paired e k same in
      placed_next i op at l
        (λ j other is_other lj.
          front_bound ops left seen c (mid ++ r ∷ post) op other j front k called
            (subst InOrder e v.in_order) good is_other
            (subst (Any (λ a. Is return_entry j a.1)) e (v.has return_entry j other is_other lj)))
        (subst (λ y. step st op.input y ≡ (true, st')) output
          (subst (λ x. step st x r.1.value ≡ (true, st')) input ok))
        (Linearizable-Orders st' (update left i false) (seen ++ (mid ++ post))
          (subst (Standing ops s n (update left i false)) rest
            (Standing-without ops s n left i items v))
          o)

  Orders-Linearizable :
      (st : S) (left : ℕ → Bool) (items : List (Item V))
      → Standing ops s n left items
      → Orders step ops st left
      → Linearizable step st items
  Orders-Linearizable st left [] v (all_placed gone) = nothing_left
  Orders-Linearizable st left (a ∷ items) v (all_placed gone) =
      let (l, (op, at, value, time, ends)) = v.good.0 in
      absurd (ground (arith, l, gone a.1.id op at))
  Orders-Linearizable st left items v (placed_next {st' = st'} i op at l bound ok o) =
      let (seen, c, rest, e, (k, id)) =
        Any-split (λ a. Is call_entry i a.1) items (v.has call_entry i op at l) in
      let p = v.paired.calls seen c rest e k in
      let good = subst (Every (λ a. Good ops left a.1)) e v.good in
      let (lc, (op_c, at_c, value, time, ends)) =
        Every-middle (λ a. Good ops left a.1) seen c rest good in
      let (lr, (op_r, at_r, value', time', ends')) =
        Every-middle (λ a. Good ops left a.1) p.mid p.ret p.post
          (subst (Every (λ a. Good ops left a.1)) p.split
            (Every-behind (λ a. Good ops left a.1) seen c rest good)) in
      let one : some op_c ≡ some op = sym at_c ∙ ap (get_elem? ops) id ∙ at in
      let op_c_is : op_c ≡ op = cc in
      let two : some op_r ≡ some op = sym at_r ∙ ap (get_elem? ops) (p.same ∙ id) ∙ at in
      let op_r_is : op_r ≡ op = cc in
      let input : op.input ≡ c.1.value = ground (arith, value, k, ap (λ o. o.input) op_c_is) in
      let output : op.output ≡ p.ret.1.value =
        (let ends : p.ret.1.kind ≡ return_entry = p.ends in
          ground (arith, value', ends, ap (λ o. o.output) op_r_is)) in
      let called : c.1.time ≡ op.invoked = ground (arith, time, k, ap (λ o. o.invoked) op_c_is) in
      let left_over : without i items ≡ seen ++ (p.mid ++ p.post) =
        subst (λ j. without j items ≡ seen ++ (p.mid ++ p.post)) id
          (ap (without c.1.id) e ∙ Pair-left s n seen c rest p) in
      comes_first seen c p.mid p.ret p.post (e ∙ ap (λ t. seen ++ c ∷ t) p.split)
        (front_calls ops left c op seen k called bound
          (InOrder-front seen c rest (subst InOrder e v.in_order))
          (Every-front (λ a. Good ops left a.1) seen (c ∷ rest) good))
        k p.ends p.same
        (subst (λ y. step st c.1.value y ≡ (true, st')) output
          (subst (λ x. step st x op.output ≡ (true, st')) input ok))
        (subst (Linearizable step st') left_over (
          Orders-Linearizable st' (update left i false) (without i items)
            (Standing-without ops s n left i items v) o))

module _ {V : Type 0} where
  Every-Good :
      (ops : List (Operation V V)) (es : List (Entry V))
      → Every (Fits ops) es
      → Every (Good ops (λ i. true)) es
  Every-Good ops [] h = tt
  Every-Good ops (e ∷ es) (q, h) = ((refl, q), Every-Good ops es h)

  make_entries-Standing :
      (sort : (Entry V → Entry V → Bool) → List (Entry V) → List (Entry V))
      (ops : List (Operation V V))
      → IsSort sort
      → Every EndsLater ops
      → Standing ops
          (start_links (make_entries sort ops)).0
          (length ops)
          (λ i. true)
          (numbered 0 (make_entries sort ops))
  unfolding make_entries
  make_entries-Standing sort ops v ends =
      let es = make_entries sort ops in
      record {
        good =
            Every-numbered (Good ops (λ i. true)) 0 es
              (Every-Good ops es (make_entries-Fits sort ops v ends));
        has = λ k i op at l.
            Any-numbered (Is k i) 0 es
              (Any-Reordered (Is k i) (v.permutes (entries_from 0 ops)) (Any-entry k ops i op at));
        in_order = numbered-InOrder 0 es (v.sorted (entries_from 0 ops));
        paired =
            Holds-IsPaired (length ops) (start_links es).0 es
              (make_entries-IsComplete sort ops v ends) (start_links-Started es).holds;
      }

module _ {V S : Type 0} (step : S → V → V → Bool × S) where
  -- The entries of makeEntries are linearizable exactly if all operations can be put in an order.
  pub make_entries-Orders :
      (sort : (Entry V → Entry V → Bool) → List (Entry V) → List (Entry V))
      (ops : List (Operation V V)) (init : S)
      → IsSort sort
      → Every EndsLater ops
      → Linearizable step init (numbered 0 (make_entries sort ops))
        ↔ Orders step ops init (λ i. true)
  make_entries-Orders sort ops init v ends =
      let es = make_entries sort ops in
      let s = (start_links es).0 in
      let st = make_entries-Standing sort ops v ends in
      (
        Linearizable-Orders step ops s (length ops) init (λ i. true) (numbered 0 es) st,
        Orders-Linearizable step ops s (length ops) init (λ i. true) (numbered 0 es) st,
      )
