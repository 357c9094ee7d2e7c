-- ===== src/Porcupine/Chain.antt =====
-- src/porcupine/checker.go: the linked list of a store, as a list of items behind a node `p`.
use mit_distributed_systems.Prelude.{
  ℕ, ◌<◌, ◌≤◌, ◌≡◌, ◌∙◌, List, [], ◌∷◌, ◌++◌, Option, none, some, arith, ◌==◌, if◌then◌else◌,
}
use mit_distributed_systems.Porcupine.Items.{Item}
use mit_distributed_systems.Porcupine.Links.{Node, set_next}
use mit_distributed_systems.Porcupine.Restore.{IsBetween, IsLast, detach, rank_ne}

abbrev pub first : {V : Type 0} → List (Item V) → Option ℕ
first [] = none
first (a ∷ items) = some a.0

-- The number of the last of the items behind `p`.
abbrev pub last : {V : Type 0} → ℕ → List (Item V) → ℕ
last p [] = p
last p (a ∷ items) = last a.0 items

module _ {V : Type 0} where
  detach_next :
      (s : ℕ → Node V) (q b y : ℕ)
      → ((detach s q b) y).next ≡ (if y == q then some b else (s y).next)
  detach_next s q b y = ground arith

  detach_prev :
      (s : ℕ → Node V) (q b y : ℕ)
      → ((detach s q b) y).prev ≡ (if y == b then some q else (s y).prev)
  detach_prev s q b y = ground arith

module _ {V : Type 0} (rank : ℕ → ℕ) where
  abbrev pub Chain : (ℕ → Node V) → ℕ → List (Item V) → Type 0
  Chain s p [] = (s p).next ≡ none
  Chain s p (a ∷ items) =
      ((s p).next ≡ some a.0) × ((s a.0).prev ≡ some p) × (rank p < rank a.0) × Chain s a.0 items

  pub Chain-first :
      (s : ℕ → Node V) (p : ℕ) (items : List (Item V)) → Chain s p items → (s p).next ≡ first items
  Chain-first s p [] h = h
  Chain-first s p (a ∷ items) h = h.0

  pub Chain-behind :
      (s : ℕ → Node V) (p : ℕ) (pre items : List (Item V))
      → Chain s p (pre ++ items)
      → Chain s (last p pre) items × (rank p ≤ rank (last p pre))
  Chain-behind s p [] items h = (h, omega arith)
  Chain-behind s p (a ∷ pre) items h =
      let (c, le) = Chain-behind s a.0 pre items h.3 in (c, omega (arith, h.2, le))

  pub Chain-frame :
      (s s' : ℕ → Node V) (p : ℕ) (items : List (Item V))
      → (s' p).next ≡ (s p).next
      → ((x : ℕ) → rank p < rank x → ((s' x).next ≡ (s x).next) × ((s' x).prev ≡ (s x).prev))
      → Chain s p items
      → Chain s' p items
  Chain-frame s s' p [] e f h = e ∙ h
  Chain-frame s s' p (a ∷ items) e f h =
      let (n, v) = f a.0 h.2 in
      (
        e ∙ h.0,
        v ∙ h.1,
        h.2,
        Chain-frame s s' a.0 items n (λ x lt. f x (omega (arith, h.2, lt))) h.3,
      )

  pub Chain-IsBetween :
      (s : ℕ → Node V) (p : ℕ) (a b : Item V) (post : List (Item V))
      → Chain s p (a ∷ b ∷ post)
      → IsBetween s rank p a.0 b.0
  Chain-IsBetween s p a b post h = record {
    to_prev = h.1;
    to_next = h.3.0;
    from_prev = h.0;
    from_next = h.3.1;
    prev_first = h.2;
    next_last = h.3.2;
  }

  Chain-detach_here :
      (s : ℕ → Node V) (p : ℕ) (a b : Item V) (post : List (Item V))
      → Chain s p (a ∷ b ∷ post)
      → Chain (detach s p b.0) p (b ∷ post)
  Chain-detach_here s p a b post h =
      let lt : rank p < rank b.0 = omega (arith, h.2, h.3.2) in
      let pb = rank_ne rank p b.0 lt in
      (
        ground (arith, detach_next s p b.0 p),
        ground (arith, detach_prev s p b.0 b.0),
        lt,
        Chain-frame s (detach s p b.0) b.0 post (ground (arith, detach_next s p b.0 b.0, pb))
            (λ x more.
              let bx = rank_ne rank b.0 x more in
              let px = rank_ne rank p x (omega (arith, lt, more)) in
              (
                ground (arith, detach_next s p b.0 x, px),
                ground (arith, detach_prev s p b.0 x, bx),
              ))
            h.3.3,
      )

  pub Chain-detach :
      (s : ℕ → Node V) (p : ℕ) (pre : List (Item V)) (a b : Item V) (post : List (Item V))
      → Chain s p (pre ++ a ∷ b ∷ post)
      → Chain (detach s (last p pre) b.0) p (pre ++ b ∷ post)
  Chain-detach s p [] a b post h = Chain-detach_here s p a b post h
  Chain-detach s p (x ∷ pre) a b post h =
      let (behind, le) = Chain-behind s x.0 pre (a ∷ b ∷ post) h.3 in
      let q = last x.0 pre in
      let pq = rank_ne rank p q (omega (arith, h.2, le)) in
      let xb = rank_ne rank x.0 b.0 (omega (arith, le, behind.2, behind.3.2)) in
      (
        ground (arith, detach_next s q b.0 p, pq, h.0),
        ground (arith, detach_prev s q b.0 x.0, xb, h.1),
        h.2,
        Chain-detach s x.0 pre a b post h.3,
      )

  pub Chain-IsLast :
      (s : ℕ → Node V) (p : ℕ) (a : Item V) → Chain s p (a ∷ []) → IsLast s rank p a.0
  Chain-IsLast s p a h = record { to_prev = h.1; to_next = h.3; from_prev = h.0; prev_first = h.2 }

  pub Chain-cut :
      (s : ℕ → Node V) (p : ℕ) (pre : List (Item V)) (a : Item V)
      → Chain s p (pre ++ a ∷ [])
      → Chain (set_next s (last p pre) none) p pre
  Chain-cut s p [] a h = ground arith
  Chain-cut s p (x ∷ pre) a h =
      let (behind, le) = Chain-behind s x.0 pre (a ∷ []) h.3 in
      let q = last x.0 pre in
      let pq = rank_ne rank p q (omega (arith, h.2, le)) in
      (ground (arith, pq, h.0), ground (arith, h.1), h.2, Chain-cut s x.0 pre a h.3)
