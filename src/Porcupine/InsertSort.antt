-- ===== src/Porcupine/InsertSort.antt =====
-- A sort by insertion, for runs of the checker.
use mit_distributed_systems.Prelude.{
  ◌≡◌, List, [], ◌∷◌, ◌++◌, Bool, true, false, arith, Bool-cases, inl, inr, Every, Every-middle,
  Every-Reordered, Reordered, empty, kept, swapped, later, unchanged, if◌then◌else◌, subst,
}
use mit_distributed_systems.Porcupine.History.{Entry, less}
use mit_distributed_systems.Porcupine.Sorted.{IsSort}

module _ {V : Type 0} where
  abbrev put_in : (Entry V → Entry V → Bool) → Entry V → List (Entry V) → List (Entry V)
  put_in lt a [] = a ∷ []
  put_in lt a (b ∷ es) = if lt b a then b ∷ put_in lt a es else a ∷ b ∷ es

  abbrev pub sort : (Entry V → Entry V → Bool) → List (Entry V) → List (Entry V)
  sort lt [] = []
  sort lt (a ∷ es) = put_in lt a (sort lt es)

  put_in-Reordered :
      (lt : Entry V → Entry V → Bool) (a : Entry V) (es : List (Entry V))
      → Reordered (a ∷ es) (put_in lt a es)
  put_in-Reordered lt a [] = unchanged (a ∷ [])
  put_in-Reordered lt a (b ∷ es) = elim (Bool-cases (lt b a)) [
    | inl e ↦ rw e (later (swapped a b es) (kept b (put_in-Reordered lt a es)))
    | inr e ↦ rw e (unchanged (a ∷ b ∷ es))
  ]

  sort-Reordered : (lt : Entry V → Entry V → Bool) (es : List (Entry V)) → Reordered es (sort lt es)
  sort-Reordered lt [] = empty
  sort-Reordered lt (a ∷ es) =
      later (kept a (sort-Reordered lt es)) (put_in-Reordered lt a (sort lt es))

  -- No entry is less than one in front of it.
  abbrev IsAscending : List (Entry V) → Type 0
  IsAscending [] = Unit {0}
  IsAscending (a ∷ es) = Every (λ b. less b a ≡ false) es × IsAscending es

  Every-above :
      (a b : Entry V) (es : List (Entry V))
      → less b a ≡ false
      → Every (λ x. less x b ≡ false) es
      → Every (λ x. less x a ≡ false) es
  unfolding less
  Every-above a b [] h e = tt
  Every-above a b (x ∷ es) h (e, es') = (ground (arith, h, e), Every-above a b es h es')

  less_asym : (a b : Entry V) → less b a ≡ true → less a b ≡ false
  unfolding less
  less_asym a b h = ground (arith, h)

  put_in-IsAscending :
      (a : Entry V) (es : List (Entry V)) → IsAscending es → IsAscending (put_in less a es)
  put_in-IsAscending a [] h = (tt, tt)
  put_in-IsAscending a (b ∷ es) (above, h) = elim (Bool-cases (less b a)) [
    | inl e ↦ rw e (
      Every-Reordered (λ x. less x b ≡ false) (put_in-Reordered less a es) (less_asym a b e, above),
      put_in-IsAscending a es h,
    )
    | inr e ↦ rw e ((e, Every-above a b es e above), (above, h))
  ]

  sort-IsAscending : (es : List (Entry V)) → IsAscending (sort less es)
  sort-IsAscending [] = tt
  sort-IsAscending (a ∷ es) = put_in-IsAscending a (sort less es) (sort-IsAscending es)

  IsAscending-sorted :
      (es seen : List (Entry V)) (a : Entry V) (mid : List (Entry V)) (b : Entry V)
      (rest : List (Entry V))
      → es ≡ seen ++ a ∷ (mid ++ b ∷ rest)
      → IsAscending es
      → less b a ≡ false
  IsAscending-sorted [] [] a mid b rest e h = absurd (ground (arith, e))
  IsAscending-sorted [] (x ∷ seen) a mid b rest e h = absurd (ground (arith, e))
  IsAscending-sorted (y ∷ es) [] a mid b rest e (above, h) =
      let first : y ≡ a = cc in
      let others : es ≡ mid ++ b ∷ rest = cc in
      Every-middle (λ x. less x a ≡ false) mid b rest
        (subst (λ l. Every (λ x. less x a ≡ false) l) others
          (subst (λ z. Every (λ x. less x z ≡ false) es) first above))
  IsAscending-sorted (y ∷ es) (x ∷ seen) a mid b rest e (above, h) =
      IsAscending-sorted es seen a mid b rest
        (let others : es ≡ seen ++ a ∷ (mid ++ b ∷ rest) = cc in others) h

  pub sort-IsSort : IsSort {V = V} sort
  sort-IsSort = record {
    permutes = sort-Reordered less;
    sorted = λ es seen a mid b rest e.
        IsAscending-sorted (sort less es) seen a mid b rest e (sort-IsAscending es);
  }
