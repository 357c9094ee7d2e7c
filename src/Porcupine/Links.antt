-- ===== src/Porcupine/Links.antt =====
-- src/porcupine/checker.go: the doubly linked list of entries. A pointer is the number of a node, and
-- the store gives the nodes; nil is `none`, and a use of nil panics.
use mit_distributed_systems.Prelude.{
  ℕ, ◌+◌, ℤ, List, [], ◌∷◌, Option, none, some, update, ◌>>=◌, pos,
}
use mit_distributed_systems.Porcupine.History.{Entry, call_entry, return_entry}

pub record Node (V : Type 0) : Type 0 where
  pub value : Option V
  pub matching : Option ℕ  -- `match`
  pub id : ℤ
  pub next : Option ℕ
  pub prev : Option ℕ

module _ {V : Type 0} where
  abbrev pub set_next : (ℕ → Node V) → ℕ → Option ℕ → ℕ → Node V
  set_next s p q = update s p (record (s p) { next = q })

  abbrev pub set_prev : (ℕ → Node V) → ℕ → Option ℕ → ℕ → Node V
  set_prev s p q = update s p (record (s p) { prev = q })

  unfoldable pub insert_before : (ℕ → Node V) → ℕ → Option ℕ → ℕ → Node V
  insert_before s n none = s
  insert_before s n (some mark) =
      let before = (s mark).prev in
      let linked = set_next (set_prev s mark (some n)) n (some mark) in
      elim before [ none ↦ linked | some b ↦ set_next (set_prev linked n (some b)) b (some n) ]

  -- A node for each entry, from the last to the first; the node of the entry at `i` has the number `i`.
  -- It gives the store, the map `match` and the root.
  unfoldable pub make_links :
      (ℕ → Node V) → ℕ → List (Entry V) → (ℕ → Node V) × ((ℕ → Option ℕ) × Option ℕ)
  unfolding insert_before
  make_links s i [] = (s, (λ id. none, none))
  make_links s i (elem ∷ entries) =
      let (s', (matches, root)) = make_links s (i + 1) entries in
      elim elem.kind [
        | return_entry ↦
            let new : Node V = record {
              value = some elem.value;
              matching = none;
              id = pos elem.id;
              next = none;
              prev = none;
            } in
            (insert_before (update s' i new) i root, (update matches elem.id (some i), some i))
        | call_entry ↦
            let new : Node V = record {
              value = some elem.value;
              matching = matches elem.id;
              id = pos elem.id;
              next = none;
              prev = none;
            } in
            (insert_before (update s' i new) i root, (matches, some i))
      ]

  -- `match.prev.next = match.next`, and `match.next.prev = match.prev` unless it is the last.
  unfoldable pub lift_match : (ℕ → Node V) → ℕ → Option (ℕ → Node V)
  lift_match s m = do
    q ← (s m).prev
    let s' = set_next s q (s m).next
    elim (s' m).next [ none ↦ some s' | some r ↦ some (set_prev s' r (s' m).prev) ]

  unfoldable pub lift : (ℕ → Node V) → ℕ → Option (ℕ → Node V)
  unfolding lift_match
  lift s e = do
    p ← (s e).prev
    let s' = set_next s p (s e).next
    n ← (s' e).next
    let s'' = set_prev s' n (s' e).prev
    m ← (s'' e).matching
    lift_match s'' m

  unfoldable pub unlift_match : (ℕ → Node V) → ℕ → Option (ℕ → Node V)
  unlift_match s m = do
    q ← (s m).prev
    let s' = set_next s q (some m)
    elim (s' m).next [ none ↦ some s' | some r ↦ some (set_prev s' r (some m)) ]

  unfoldable pub unlift : (ℕ → Node V) → ℕ → Option (ℕ → Node V)
  unfolding unlift_match
  unlift s e = do
    m ← (s e).matching
    s' ← unlift_match s m
    p ← (s' e).prev
    let s'' = set_next s' p (some e)
    n ← (s'' e).next
    some (set_prev s'' n (some e))
