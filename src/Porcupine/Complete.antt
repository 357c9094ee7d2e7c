-- ===== src/Porcupine/Complete.antt =====
-- src/porcupine/checker.go: lists of entries in which every operation has its call and its return.
use mit_distributed_systems.Prelude.{
  ℕ, zero, suc, ◌+◌, ◌<◌, ◌≤◌, ◌≡◌, ◌≢◌, ◌⊎◌, refl, sym, ap, subst, ◌∙◌, List, [], ◌∷◌, ◌++◌,
  length, map, Bool, true, false, ◌&&◌, ◌==◌, arith, inl, inr, if◌then◌else◌, Every, Every-middle,
  count, count-append, count-FirstHit, append_assoc,
}
use mit_distributed_systems.Porcupine.History.{Entry, EntryKind, call_entry, return_entry}
use mit_distributed_systems.Porcupine.Items.{Item, numbered}
use mit_distributed_systems.Porcupine.Reference.{is_return}
use mit_distributed_systems.Porcupine.Pairs.{Clear}
use mit_distributed_systems.Porcupine.Exact.Check.{Twin, IsComplete}

abbrev pub calls : EntryKind → Bool
calls call_entry = true
calls return_entry = false

ℕ-cases : (n : ℕ) → (n ≡ 0) ⊎ ((m : ℕ) × (n ≡ suc m))
ℕ-cases zero = inl refl
ℕ-cases (suc m) = inr (m, refl)

module _ {V : Type 0} where
  abbrev pub call_of : ℕ → Entry V → Bool
  call_of i e = calls e.kind && e.id == i

  abbrev pub return_at : ℕ → Entry V → Bool
  return_at i e = is_return e.kind && e.id == i

  -- Each of `n` operations has one call and one return, and no return stands before its call.
  pub record IsEntries (n : ℕ) (es : List (Entry V)) : Type 0 where
    pub size : length es ≡ n + n
    pub one_call : (i : ℕ) → count (call_of i) es ≤ 1
    pub one_return : (i : ℕ) → i < n → count (return_at i) es ≡ 1
    pub below : Every (λ e. e.id < n) es
    pub in_order :
        (seen : List (Entry V)) (r : Entry V) (mid : List (Entry V)) (c : Entry V)
        (rest : List (Entry V))
        → es ≡ seen ++ r ∷ (mid ++ c ∷ rest)
        → r.kind ≡ return_entry
        → c.kind ≡ call_entry
        → r.id ≢ c.id

  abbrev entries : List (Item V) → List (Entry V)
  entries items = map (λ a. a.1) items

  entries-numbered : (i : ℕ) (es : List (Entry V)) → entries (numbered i es) ≡ es
  entries-numbered i [] = refl
  entries-numbered i (e ∷ es) = ap (λ l. e ∷ l) (entries-numbered (i + 1) es)

  entries-append : (xs ys : List (Item V)) → entries (xs ++ ys) ≡ entries xs ++ entries ys
  entries-append [] ys = refl
  entries-append (x ∷ xs) ys = ap (λ l. x.1 ∷ l) (entries-append xs ys)

  abbrev hits : (Entry V → Bool) → List (Item V) → ℕ
  hits f items = count (λ a. f a.1) items

  hits-entries :
      (f : Entry V → Bool) (items : List (Item V)) → hits f items ≡ count f (entries items)
  unfolding count
  hits-entries f [] = refl
  hits-entries f (a ∷ items) = ground (arith, hits-entries f items)

  hits-cons :
      (f : Entry V → Bool) (a : Item V) (items : List (Item V))
      → hits f (a ∷ items) ≡ (if f a.1 then 1 else 0) + hits f items
  unfolding count
  hits-cons f a items = refl

  -- Every entry is a call or a return.
  Clear-hits :
      (i : ℕ) (xs : List (Item V))
      → hits (call_of i) xs ≡ 0
      → hits (return_at i) xs ≡ 0
      → Clear i xs
  unfolding count
  Clear-hits i [] h k = tt
  Clear-hits i (a ∷ xs) h k =
      (λ e. by_kind a.1.kind refl e, Clear-hits i xs (omega (arith, h)) (omega (arith, k)))
    where
      by_kind : (kind : EntryKind) → a.1.kind ≡ kind → a.1.id ≡ i → ⊥
      by_kind call_entry s e = ground (arith, s, e, h)
      by_kind return_entry s e = ground (arith, s, e, k)

  return_is : (i : ℕ) (e : Entry V) → return_at i e ≡ true → (e.kind ≡ return_entry) × (e.id ≡ i)
  return_is i e h = by_kind e.kind refl
    where
      by_kind : (kind : EntryKind) → e.kind ≡ kind → (e.kind ≡ return_entry) × (e.id ≡ i)
      by_kind call_entry s = absurd (ground (arith, s, h))
      by_kind return_entry s = (s, ground (arith, s, h))

  hits_middle :
      (f : Entry V → Bool) (xs : List (Item V)) (a : Item V) (ys : List (Item V))
      → hits f (xs ++ a ∷ ys) ≡ hits f xs + ((if f a.1 then 1 else 0) + hits f ys)
  hits_middle f xs a ys =
      count-append (λ x. f x.1) xs (a ∷ ys) ∙ ap (λ k. hits f xs + k) (hits-cons f a ys)

  -- The one return stands behind the one call.
  Twin-behind :
      (n : ℕ) (seen : List (Item V)) (c : Item V) (rest : List (Item V))
      → c.1.id < n
      → hits (call_of c.1.id) seen + hits (call_of c.1.id) rest ≡ 0
      → hits (return_at c.1.id) seen ≡ 0
      → hits (return_at c.1.id) rest ≡ 1
      → Twin n seen c rest
  Twin-behind n seen c rest low calls_left no_return one_return =
      let i = c.1.id in
      let f = count-FirstHit (λ a. return_at i a.1) rest 0 one_return in
      let (ends, same) = return_is i f.hit.1 f.passes in
      let in_rest =
        ap (hits (call_of i)) f.split ∙ hits_middle (call_of i) f.before f.hit f.behind in
      let counted =
        ap (hits (return_at i)) f.split ∙ hits_middle (return_at i) f.before f.hit f.behind in
      let passed : ◌≡◌ {A = ℕ} (if return_at i f.hit.1 then 1 else 0) 1 =
        ground (arith, f.passes) in
      record {
        mid = f.before;
        ret = f.hit;
        post = f.behind;
        split = f.split;
        ends = ends;
        same = same;
        clear_seen = Clear-hits i seen (omega (arith, calls_left)) no_return;
        clear_mid = Clear-hits i f.before (omega (arith, calls_left, in_rest)) f.none_before;
        clear_post =
            Clear-hits i f.behind (omega (arith, calls_left, in_rest))
              (omega (arith, one_return, counted, passed));
        below = low;
      }

  return_before :
      (n : ℕ) (es : List (Entry V))
      → IsEntries n es
      → (seen : List (Item V)) (c : Item V) (rest : List (Item V)) → es ≡ entries (seen ++ c ∷ rest)
      → c.1.kind ≡ call_entry
      → (m : ℕ) → hits (return_at c.1.id) seen ≡ suc m
      → ⊥
  return_before n es v seen c rest e k m h =
      let f = count-FirstHit (λ a. return_at c.1.id a.1) seen m h in
      let (ends, same) = return_is c.1.id f.hit.1 f.passes in
      v.in_order (entries f.before) f.hit.1 (entries f.behind) c.1 (entries rest)
        (e
          ∙ entries-append seen (c ∷ rest)
          ∙ ap (λ l. entries l ++ c.1 ∷ entries rest) f.split
          ∙ ap (λ l. l ++ c.1 ∷ entries rest) (entries-append f.before (f.hit ∷ f.behind))
          ∙ append_assoc (entries f.before) (f.hit.1 ∷ entries f.behind) (c.1 ∷ entries rest))
        ends k same

  IsEntries-Twin :
      (n : ℕ) (es : List (Entry V))
      → IsEntries n es
      → (seen : List (Item V)) (c : Item V) (rest : List (Item V))
      → numbered 0 es ≡ seen ++ c ∷ rest
      → c.1.kind ≡ call_entry
      → Twin n seen c rest
  IsEntries-Twin n es v seen c rest e k =
      let i = c.1.id in
      let whole : es ≡ entries (seen ++ c ∷ rest) = sym (entries-numbered 0 es) ∙ ap entries e in
      let low : i < n =
        Every-middle (λ x. x.id < n) (entries seen) c.1 (entries rest)
          (subst (Every (λ x. x.id < n)) (whole ∙ entries-append seen (c ∷ rest)) v.below) in
      let called =
        hits-entries (call_of i) (seen ++ c ∷ rest) ∙ ap (count (call_of i)) (sym whole) in
      let returned =
        hits-entries (return_at i) (seen ++ c ∷ rest) ∙ ap (count (return_at i)) (sym whole) in
      let here : ◌≡◌ {A = ℕ} (if call_of i c.1 then 1 else 0) 1 = ground (arith, k) in
      let not_here : ◌≡◌ {A = ℕ} (if return_at i c.1 then 1 else 0) 0 = ground (arith, k) in
      let calls_left : hits (call_of i) seen + hits (call_of i) rest ≡ 0 =
        omega (arith, called, hits_middle (call_of i) seen c rest, here, v.one_call i) in
      let back : hits (return_at i) seen + hits (return_at i) rest ≡ 1 =
        omega
          (arith, returned, hits_middle (return_at i) seen c rest, not_here, v.one_return i low) in
      elim (ℕ-cases (hits (return_at i) seen)) [
        | inr (m, some_before) ↦ absurd (return_before n es v seen c rest whole k m some_before)
        | inl none_before ↦
            Twin-behind n seen c rest low calls_left none_before (omega (arith, back, none_before))
      ]

  pub IsEntries-IsComplete : (n : ℕ) (es : List (Entry V)) → IsEntries n es → IsComplete n es
  IsEntries-IsComplete n es v = record {
    size = v.size;
    calls = λ seen c rest e k. IsEntries-Twin n es v seen c rest e k;
  }
