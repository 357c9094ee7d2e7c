-- ===== src/Porcupine/Ranked.antt =====
-- Items and entries in the order of their times: what stands where, and what stays when the items of an
-- operation go.
use mit_distributed_systems.Prelude.{
  ℕ, zero, suc, ◌+◌, ◌≡◌, ◌≢◌, ◌⊎◌, refl, sym, subst, ap, ◌∙◌, List, [], ◌∷◌, ◌++◌, false, some,
  inl, inr, arith, Bool-cases, Every, Every-middle, get_elem?, Reordered, empty, kept, swapped,
  later, ==_iff, ◌==◌,
}
use mit_distributed_systems.Models.Kv.{Operation}
use mit_distributed_systems.Porcupine.History.{
  Entry, EntryKind, call_entry, return_entry, less, entries_from,
}
use mit_distributed_systems.Porcupine.Items.{Item, numbered}
use mit_distributed_systems.Porcupine.Reference.{without}

module _ {A : Type 0} where
  -- Some element of a list.
  abbrev pub Any : (A → Type 0) → List A → Type 0
  Any Q [] = ⊥
  Any Q (x ∷ xs) = Q x ⊎ Any Q xs

  pub Any-Reordered : (Q : A → Type 0) {xs ys : List A} → Reordered xs ys → Any Q xs → Any Q ys
  Any-Reordered Q empty h = h
  Any-Reordered Q (kept a p) (inl h) = inl h
  Any-Reordered Q (kept a p) (inr h) = inr (Any-Reordered Q p h)
  Any-Reordered Q (swapped a b xs) (inl h) = inr (inl h)
  Any-Reordered Q (swapped a b xs) (inr (inl h)) = inl h
  Any-Reordered Q (swapped a b xs) (inr (inr h)) = inr (inr h)
  Any-Reordered Q (later p q) h = Any-Reordered Q q (Any-Reordered Q p h)

  pub Any-split :
      (Q : A → Type 0) (xs : List A)
      → Any Q xs
      → (seen : List A) × (a : A) × (rest : List A) × (xs ≡ seen ++ a ∷ rest) × Q a
  Any-split Q [] h = elim h [ ]
  Any-split Q (x ∷ xs) (inl h) = ([], x, xs, refl, h)
  Any-split Q (x ∷ xs) (inr h) =
      let (seen, a, rest, e, q) = Any-split Q xs h in (x ∷ seen, a, rest, ap (λ l. x ∷ l) e, q)

  Every-split :
      (Q : A → Type 0) (xs : List A)
      → ((seen : List A) (a : A) (rest : List A) → xs ≡ seen ++ a ∷ rest → Q a)
      → Every Q xs
  Every-split Q [] h = tt
  Every-split Q (x ∷ xs) h =
      (h [] x xs refl, Every-split Q xs (λ seen a rest e. h (x ∷ seen) a rest (ap (λ l. x ∷ l) e)))

  pub Every-behind :
      (Q : A → Type 0) (seen : List A) (a : A) (rest : List A)
      → Every Q (seen ++ a ∷ rest)
      → Every Q rest
  Every-behind Q [] a rest (q, h) = h
  Every-behind Q (x ∷ seen) a rest (q, h) = Every-behind Q seen a rest h

  pub Every-front : (Q : A → Type 0) (seen rest : List A) → Every Q (seen ++ rest) → Every Q seen
  Every-front Q [] rest h = tt
  Every-front Q (x ∷ seen) rest (q, h) = (q, Every-front Q seen rest h)

module _ {V : Type 0} where
  abbrev pub Is : EntryKind → ℕ → Entry V → Type 0
  Is k i e = (e.kind ≡ k) × (e.id ≡ i)

  Any-call :
      (k : ℕ) (ops : List (Operation V V)) (j : ℕ) (op : Operation V V)
      → get_elem? ops j ≡ some op
      → Any (Is call_entry (k + j)) (entries_from k ops)
  unfolding entries_from
  Any-call k [] j op e = cc
  Any-call k (o ∷ ops) zero op e = inl (refl, omega arith)
  Any-call k (o ∷ ops) (suc j) op e = inr (
      inr (
        subst (λ i. Any (Is call_entry i) (entries_from (k + 1) ops))
          (let s : k + 1 + j ≡ k + suc j = omega arith in s) (Any-call (k + 1) ops j op e)))

  Any-return :
      (k : ℕ) (ops : List (Operation V V)) (j : ℕ) (op : Operation V V)
      → get_elem? ops j ≡ some op
      → Any (Is return_entry (k + j)) (entries_from k ops)
  unfolding entries_from
  Any-return k [] j op e = cc
  Any-return k (o ∷ ops) zero op e = inr (inl (refl, omega arith))
  Any-return k (o ∷ ops) (suc j) op e = inr (
      inr (
        subst (λ i. Any (Is return_entry i) (entries_from (k + 1) ops))
          (let s : k + 1 + j ≡ k + suc j = omega arith in s) (Any-return (k + 1) ops j op e)))

  pub Any-entry :
      (kind : EntryKind) (ops : List (Operation V V)) (j : ℕ) (op : Operation V V)
      → get_elem? ops j ≡ some op
      → Any (Is kind j) (entries_from 0 ops)
  Any-entry call_entry ops j op e =
      subst (λ i. Any (Is call_entry i) (entries_from 0 ops)) (let s : 0 + j ≡ j = omega arith in s)
        (Any-call 0 ops j op e)
  Any-entry return_entry ops j op e =
      subst (λ i. Any (Is return_entry i) (entries_from 0 ops))
        (let s : 0 + j ≡ j = omega arith in s) (Any-return 0 ops j op e)

  pub Any-numbered :
      (Q : Entry V → Type 0) (i : ℕ) (es : List (Entry V))
      → Any Q es
      → Any (λ (a : Item V). Q a.1) (numbered i es)
  Any-numbered Q i [] h = elim h [ ]
  Any-numbered Q i (e ∷ es) (inl h) = inl h
  Any-numbered Q i (e ∷ es) (inr h) = inr (Any-numbered Q (i + 1) es h)

  pub Every-numbered :
      (Q : Entry V → Type 0) (i : ℕ) (es : List (Entry V))
      → Every Q es
      → Every (λ (a : Item V). Q a.1) (numbered i es)
  Every-numbered Q i [] h = tt
  Every-numbered Q i (e ∷ es) (q, h) = (q, Every-numbered Q (i + 1) es h)

  -- No item is less than one in front of it.
  abbrev pub InOrder : List (Item V) → Type 0
  InOrder [] = Unit {0}
  InOrder (a ∷ items) = Every (λ b. less b.1 a.1 ≡ false) items × InOrder items

  pub numbered-InOrder :
      (i : ℕ) (es : List (Entry V))
      → ((seen : List (Entry V)) (a : Entry V) (mid : List (Entry V)) (b : Entry V)
            (rest : List (Entry V))
          → es ≡ seen ++ a ∷ (mid ++ b ∷ rest)
          → less b a ≡ false)
      → InOrder (numbered i es)
  numbered-InOrder i [] h = tt
  numbered-InOrder i (e ∷ es) h = (
    Every-numbered (λ b. less b e ≡ false) (i + 1) es
        (Every-split (λ b. less b e ≡ false) es
          (λ mid b rest s. h [] e mid b rest (ap (λ l. e ∷ l) s))),
    numbered-InOrder (i + 1) es
        (λ seen a mid b rest s. h (e ∷ seen) a mid b rest (ap (λ l. e ∷ l) s)),
  )

  pub InOrder-behind :
      (seen : List (Item V)) (c : Item V) (rest : List (Item V))
      → InOrder (seen ++ c ∷ rest)
      → Every (λ b. less b.1 c.1 ≡ false) rest
  InOrder-behind [] c rest (h, t) = h
  InOrder-behind (x ∷ seen) c rest (h, t) = InOrder-behind seen c rest t

  pub InOrder-front :
      (seen : List (Item V)) (c : Item V) (rest : List (Item V))
      → InOrder (seen ++ c ∷ rest)
      → Every (λ a. less c.1 a.1 ≡ false) seen
  InOrder-front [] c rest h = tt
  InOrder-front (x ∷ seen) c rest (h, t) =
      (Every-middle (λ b. less b.1 x.1 ≡ false) seen c rest h, InOrder-front seen c rest t)

  pub Every-without :
      (Q : Item V → Type 0) (i : ℕ) (items : List (Item V))
      → Every Q items
      → Every Q (without i items)
  Every-without Q i [] h = tt
  Every-without Q i (a ∷ items) (q, h) = elim (Bool-cases (a.1.id == i)) [
    | inl e ↦ rw e (Every-without Q i items h)
    | inr e ↦ rw e (q, Every-without Q i items h)
  ]

  pub InOrder-without : (i : ℕ) (items : List (Item V)) → InOrder items → InOrder (without i items)
  InOrder-without i [] h = tt
  InOrder-without i (a ∷ items) (q, h) = elim (Bool-cases (a.1.id == i)) [
    | inl e ↦ rw e (InOrder-without i items h)
    | inr e ↦ rw e (Every-without (λ b. less b.1 a.1 ≡ false) i items q, InOrder-without i items h)
  ]

  pub Any-without :
      (k : EntryKind) (i j : ℕ) (items : List (Item V))
      → j ≢ i
      → Any (λ a. Is k j a.1) items
      → Any (λ a. Is k j a.1) (without i items)
  Any-without k i j [] ne h = elim h [ ]
  Any-without k i j (a ∷ items) ne h = elim (Bool-cases (a.1.id == i)) [
    | inl e ↦ rw e (elim h [
      | inl here ↦ absurd (ne (sym here.1 ∙ (==_iff a.1.id i).0 e))
      | inr there ↦ Any-without k i j items ne there
    ])
    | inr e ↦
        rw e (elim h [ inl here ↦ inl here | inr there ↦ inr (Any-without k i j items ne there) ])
  ]
