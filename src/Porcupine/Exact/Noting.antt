-- ===== src/Porcupine/Exact/Noting.antt =====
-- src/porcupine/checker.go: the sequences that checkSingle notes in `longest`.
use mit_distributed_systems.Prelude.{
  suc, ℕ, ◌<◌, ◌≡◌, refl, ap, ◌∙◌, List, [], ◌∷◌, ◌++◌, length, set, set?-eq_some_of_lt, length-set,
  get_elem?-eq_some_of_lt, Bool, Bool-cases, inl, inr, Option, some, ℤ, pos, negsuc, arith,
}
use mit_distributed_systems.Porcupine.Items.{Item}
use mit_distributed_systems.Porcupine.Links.{Node}
use mit_distributed_systems.Porcupine.Search.{CallsEntry, seq_of_calls, note_longest, is_longer}
use mit_distributed_systems.Porcupine.Lifting.{SameNodes}
use mit_distributed_systems.Porcupine.Exact.Defs.{Parent, IsTrail}

-- Identifiers below `n`.
abbrev pub AllBelow : ℕ → List ℤ → Type 0
AllBelow n [] = Unit {0}
AllBelow n (pos i ∷ ids) = (i < n) × AllBelow n ids
AllBelow n (negsuc i ∷ ids) = ⊥

AllBelow-append : (n i : ℕ) (ids : List ℤ) → AllBelow n ids → i < n → AllBelow n (ids ++ pos i ∷ [])
AllBelow-append n i [] h lt = (lt, tt)
AllBelow-append n i (pos j ∷ ids) (k, h) lt = (k, AllBelow-append n i ids h lt)
AllBelow-append n i (negsuc j ∷ ids) h lt = absurd h

pub note_longest_total :
    (n : ℕ) (seq ids : List ℤ) (longest : List (Option (List ℤ)))
    → AllBelow n ids
    → length longest ≡ n
    → (l : List (Option (List ℤ))) × (note_longest seq ids longest ≡ some l) × (length l ≡ n)
unfolding note_longest
note_longest_total n seq [] longest h len = (longest, refl, len)
note_longest_total n seq (negsuc i ∷ ids) longest h len = absurd h
note_longest_total n seq (pos i ∷ ids) longest (lt, h) len =
    let inside : i < length longest = omega arith in
    let (old, got) = get_elem?-eq_some_of_lt longest i inside in
    elim (Bool-cases (is_longer old seq)) [
      | inl e ↦
          let new = set longest i (some seq) in
          let (l, run, size) =
            note_longest_total n seq ids new h (omega (arith, length-set longest i (some seq))) in
          (l, rw (got, e, set?-eq_some_of_lt longest i (some seq) inside) run, size)
      | inr e ↦
          let (l, run, size) = note_longest_total n seq ids longest h len in
          (l, rw (got, e) run, size)
    ]

module _ {V S : Type 0} (step : S → V → V → Bool × S) (eq : S → S → Bool) (rank : ℕ → ℕ) (head : ℕ)
    (s0 : ℕ → Node V) (n : ℕ) (all : List (Item V)) where
  pub seq_of_calls-AllBelow :
      (ps : List (Parent V S)) (calls : List (CallsEntry S)) (s s1 : ℕ → Node V)
      (b1 : List (List Bool)) (left : ℕ) (st1 : S)
      → SameNodes s0 s
      → IsTrail step eq rank head s0 n all ps calls s1 b1 left st1
      → AllBelow n (seq_of_calls s calls)
  unfolding seq_of_calls
  seq_of_calls-AllBelow [] [] s s1 b1 left st1 same t = tt
  seq_of_calls-AllBelow [] (top ∷ calls) s s1 b1 left st1 same t = absurd t
  seq_of_calls-AllBelow (p ∷ ps) [] s s1 b1 left st1 same t = absurd t
  seq_of_calls-AllBelow (p ∷ ps) (top ∷ calls) s s1 b1 left st1 same (v, t) =
      let id : (s top.entry).id ≡ pos p.call.1.id =
        (same top.entry).1 ∙ ap (λ x. (s0 x).id) v.entry_is ∙ v.pair.ident in
      rw id (
        AllBelow-append n p.call.1.id (seq_of_calls s calls)
          (seq_of_calls-AllBelow ps calls s p.links p.bits (suc p.left) p.state same t)
          v.pair.below)
