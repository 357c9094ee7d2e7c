-- ===== src/Porcupine/Restore.antt =====
-- src/porcupine/checker.go: `unlift` undoes `lift`.
use mit_distributed_systems.Prelude.{ℕ_discrete, none, ◌∙◌, ap, ℕ, ◌<◌, ◌≡◌, ◌≢◌, some, arith}
use mit_distributed_systems.Porcupine.Links.{
  unlift, lift, unlift_match, Node, lift_match, set_next, set_prev,
}

pub rank_ne : (rank : ℕ → ℕ) (a b : ℕ) → rank a < rank b → a ≢ b
rank_ne rank a b h e = let same : rank a ≡ rank b = ap rank e in omega (arith, h)

module _ {V : Type 0} where
  -- A node between two nodes that point at it; `rank` is the position in the list.
  pub record IsBetween (s : ℕ → Node V) (rank : ℕ → ℕ) (p a n : ℕ) : Type 0 where
    pub to_prev : (s a).prev ≡ some p
    pub to_next : (s a).next ≡ some n
    pub from_prev : (s p).next ≡ some a
    pub from_next : (s n).prev ≡ some a
    pub prev_first : rank p < rank a
    pub next_last : rank a < rank n

  -- The two assignments that take a node from between `p` and `n`, and those that put `a` there.
  abbrev pub detach : (ℕ → Node V) → ℕ → ℕ → ℕ → Node V
  detach s p n = set_prev (set_next s p (some n)) n (some p)

  abbrev attach : (ℕ → Node V) → ℕ → ℕ → ℕ → ℕ → Node V
  attach s p a n = set_prev (set_next s p (some a)) n (some a)

  attach-detach :
      (s : ℕ → Node V) (rank : ℕ → ℕ) (p a n : ℕ)
      → IsBetween s rank p a n
      → attach (detach s p n) p a n ≡ s
  attach-detach s rank p a n b =
      let pa = rank_ne rank p a b.prev_first in
      let an = rank_ne rank a n b.next_last in λ i x. at pa an x i
    where
      at : p ≢ a → a ≢ n → (x : ℕ) → attach (detach s p n) p a n x ≡ s x
      at pa an x = ground (arith, b.from_prev, b.from_next)

  pub lift_match-detach :
      (s : ℕ → Node V) (rank : ℕ → ℕ) (q m r : ℕ)
      → IsBetween s rank q m r
      → lift_match s m ≡ some (detach s q r)
  unfolding lift_match
  lift_match-detach s rank q m r b =
      let ne = rank_ne rank q m b.prev_first in ground (arith, b.to_prev, b.to_next, ne)

  pub unlift_match-detach :
      (s : ℕ → Node V) (rank : ℕ → ℕ) (q m r : ℕ)
      → IsBetween s rank q m r
      → unlift_match (detach s q r) m ≡ some s
  unfolding unlift_match
  unlift_match-detach s rank q m r b =
      let qm = rank_ne rank q m b.prev_first in
      let mr = rank_ne rank m r b.next_last in
      let whole : unlift_match (detach s q r) m ≡ some (attach (detach s q r) q m r) =
        ground (arith, b.to_prev, b.to_next, qm, mr) in
      whole ∙ ap some (attach-detach s rank q m r b)

  -- The same for the last node of the list.
  pub record IsLast (s : ℕ → Node V) (rank : ℕ → ℕ) (q m : ℕ) : Type 0 where
    pub to_prev : (s m).prev ≡ some q
    pub to_next : (s m).next ≡ none
    pub from_prev : (s q).next ≡ some m
    pub prev_first : rank q < rank m

  attach-cut :
      (s : ℕ → Node V) (rank : ℕ → ℕ) (q m : ℕ)
      → IsLast s rank q m
      → set_next (set_next s q none) q (some m) ≡ s
  attach-cut s rank q m b = λ i x. at x i
    where
      at : (x : ℕ) → set_next (set_next s q none) q (some m) x ≡ s x
      at x = ground (arith, b.from_prev)

  pub lift_match-cut :
      (s : ℕ → Node V) (rank : ℕ → ℕ) (q m : ℕ)
      → IsLast s rank q m
      → lift_match s m ≡ some (set_next s q none)
  unfolding lift_match
  lift_match-cut s rank q m b =
      let ne = rank_ne rank q m b.prev_first in ground (arith, b.to_prev, b.to_next, ne)

  pub unlift_match-cut :
      (s : ℕ → Node V) (rank : ℕ → ℕ) (q m : ℕ)
      → IsLast s rank q m
      → unlift_match (set_next s q none) m ≡ some s
  unfolding unlift_match
  unlift_match-cut s rank q m b =
      let ne = rank_ne rank q m b.prev_first in
      let whole : unlift_match (set_next s q none) m
          ≡ some (set_next (set_next s q none) q (some m)) =
        ground (arith, b.to_prev, b.to_next, ne) in
      whole ∙ ap some (attach-cut s rank q m b)

  -- A node of the list that is not the first: between two others, or the last.
  pub data InList (s : ℕ → Node V) (rank : ℕ → ℕ) (m : ℕ) : Type 0 where
    inner : (q r : ℕ) → IsBetween s rank q m r → InList s rank m
    last : (q : ℕ) → IsLast s rank q m → InList s rank m

  -- The return taken out: the store then, which still has every node's `match`, and the way back.
  record Lifted (s : ℕ → Node V) (m : ℕ) : Type 0 where
    store : ℕ → Node V
    gone : lift_match s m ≡ some store
    back : unlift_match store m ≡ some s
    same_matching : (x : ℕ) → (store x).matching ≡ (s x).matching

  InList-Lifted : (s : ℕ → Node V) (rank : ℕ → ℕ) (m : ℕ) → InList s rank m → Lifted s m
  InList-Lifted s rank m (inner q r b) = record {
    store = detach s q r;
    gone = lift_match-detach s rank q m r b;
    back = unlift_match-detach s rank q m r b;
    same_matching = λ x. ground arith;
  }
  InList-Lifted s rank m (last q b) = record {
    store = set_next s q none;
    gone = lift_match-cut s rank q m b;
    back = unlift_match-cut s rank q m b;
    same_matching = λ x. ground arith;
  }

  -- A node behind `e` is still in the list when `e` is taken out.
  InList-detach :
      (s : ℕ → Node V) (rank : ℕ → ℕ) (p e n m : ℕ)
      → IsBetween s rank p e n
      → rank e < rank m
      → InList s rank m
      → InList (detach s p n) rank m
  InList-detach s rank p e n m b h (inner q r c) =
      let em = rank_ne rank e m h in
      let pm = rank_ne rank p m (omega (arith, b.prev_first)) in
      let mr = rank_ne rank m r c.next_last in
      elim (ℕ_discrete q e) [
        | yes same ↦
            let nm : n ≡ m = ground (arith, b.to_next, c.from_prev, same) in
            inner p r (record {
              to_prev = ground (arith, nm);
              to_next = ground (arith, nm, pm, c.to_next);
              from_prev = ground (arith, nm, mr, pm);
              from_next = ground (arith, nm, mr, pm, c.from_next);
              prev_first = omega (arith, b.prev_first);
              next_last = c.next_last;
            })
        | no other ↦
            let nm : n ≢ m = λ k. ground (arith, b.from_next, c.to_prev, other, k) in
            let pq : p ≢ q = λ k. ground (arith, b.from_prev, c.from_prev, em, k) in
            let nr : n ≢ r = λ k. ground (arith, b.from_next, c.from_next, em, k) in
            inner q r (record {
              to_prev = ground (arith, nm, pm, c.to_prev);
              to_next = ground (arith, nm, pm, c.to_next);
              from_prev = ground (arith, pq, c.from_prev);
              from_next = ground (arith, nr, c.from_next);
              prev_first = c.prev_first;
              next_last = c.next_last;
            })
      ]
  InList-detach s rank p e n m b h (last q c) =
      let em = rank_ne rank e m h in
      let pm = rank_ne rank p m (omega (arith, b.prev_first)) in
      elim (ℕ_discrete q e) [
        | yes same ↦
            let nm : n ≡ m = ground (arith, b.to_next, c.from_prev, same) in
            last p (record {
              to_prev = ground (arith, nm);
              to_next = ground (arith, nm, pm, c.to_next);
              from_prev = ground (arith, nm, pm);
              prev_first = omega (arith, b.prev_first);
            })
        | no other ↦
            let nm : n ≢ m = λ k. ground (arith, b.from_next, c.to_prev, other, k) in
            let pq : p ≢ q = λ k. ground (arith, b.from_prev, c.from_prev, em, k) in
            last q (record {
              to_prev = ground (arith, nm, pm, c.to_prev);
              to_next = ground (arith, nm, pm, c.to_next);
              from_prev = ground (arith, pq, c.from_prev);
              prev_first = c.prev_first;
            })
      ]

  pub lift-detach :
      (s : ℕ → Node V) (rank : ℕ → ℕ) (p e n m : ℕ)
      → IsBetween s rank p e n
      → (s e).matching ≡ some m
      → lift s e ≡ lift_match (detach s p n) m
  unfolding lift
  lift-detach s rank p e n m b matched =
      let pe = rank_ne rank p e b.prev_first in
      let en = rank_ne rank e n b.next_last in ground (arith, b.to_prev, b.to_next, matched, pe, en)

  pub unlift-attach :
      (s t : ℕ → Node V) (rank : ℕ → ℕ) (p e n m : ℕ)
      → IsBetween s rank p e n
      → (t e).matching ≡ some m
      → unlift_match t m ≡ some (detach s p n)
      → unlift t e ≡ some s
  unfolding unlift
  unlift-attach s t rank p e n m b matched h =
      let pe = rank_ne rank p e b.prev_first in
      let en = rank_ne rank e n b.next_last in
      let whole : unlift t e ≡ some (attach (detach s p n) p e n) =
        ground (arith, b.to_prev, b.to_next, matched, h, pe, en) in
      whole ∙ ap some (attach-detach s rank p e n b)

  -- For a call `e` between two nodes of the list, whose return `m` is in the list behind it, `lift`
  -- does not panic, and `unlift` then brings back the very store that was there before.
  pub unlift-lift :
      (s : ℕ → Node V) (rank : ℕ → ℕ) (p e n m : ℕ)
      → IsBetween s rank p e n
      → (s e).matching ≡ some m
      → rank e < rank m
      → InList s rank m
      → (s' : ℕ → Node V) × (lift s e ≡ some s') × (unlift s' e ≡ some s)
  unlift-lift s rank p e n m b matched h l =
      let out = InList-Lifted (detach s p n) rank m (InList-detach s rank p e n m b h l) in
      let same : (out.store e).matching ≡ some m = out.same_matching e ∙ ground (arith, matched) in
      (
        out.store,
        lift-detach s rank p e n m b matched ∙ out.gone,
        unlift-attach s out.store rank p e n m b same out.back,
      )
