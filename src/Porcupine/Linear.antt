-- ===== src/Porcupine/Linear.antt =====
-- Which histories are linearizable, apart from any search.
use mit_distributed_systems.Prelude.{
  append_assoc, ◌↔◌, ℕ, zero, suc, ◌+◌, ◌≡◌, ◌≢◌, ◌⊎◌, refl, sym, subst, ap, ◌∙◌, List, [], ◌∷◌,
  ◌++◌, length, Bool, true, some, inl, inr, Option-cases, arith, Bool-cases,
}
use mit_distributed_systems.Porcupine.History.{EntryKind, call_entry, return_entry}
use mit_distributed_systems.Porcupine.Items.{Item}
use mit_distributed_systems.Porcupine.Links.{Node}
use mit_distributed_systems.Porcupine.Reference.{without, return_of, accept, first_of, linearize}
use mit_distributed_systems.Porcupine.Pairs.{
  Clear, IsPaired, IsPaired-without, Pair-return_of, Pair-left, Pair-length,
}

kind_cases : (k : EntryKind) → (k ≡ call_entry) ⊎ (k ≡ return_entry)
kind_cases call_entry = inl refl
kind_cases return_entry = inr refl

module _ {V : Type 0} where
  abbrev pub AllCalls : List (Item V) → Type 0
  AllCalls [] = Unit {0}
  AllCalls (a ∷ items) = (a.1.kind ≡ call_entry) × AllCalls items

  AllCalls-snoc :
      (xs : List (Item V)) (a : Item V)
      → AllCalls xs
      → a.1.kind ≡ call_entry
      → AllCalls (xs ++ a ∷ [])
  AllCalls-snoc [] a h k = (k, tt)
  AllCalls-snoc (x ∷ xs) a (h, hs) k = (h, AllCalls-snoc xs a hs k)

  Clear-middle :
      (i : ℕ) (xs : List (Item V)) (a : Item V) (ys : List (Item V))
      → Clear i (xs ++ a ∷ ys)
      → a.1.id ≢ i
  Clear-middle i [] a ys (ne, h) = ne
  Clear-middle i (x ∷ xs) a ys (ne, h) = Clear-middle i xs a ys h

  head_is : (x y : Item V) (xs ys : List (Item V)) → x ∷ xs ≡ y ∷ ys → (x ≡ y) × (xs ≡ ys)
  head_is x y xs ys e = (cc, cc)

  -- The only item of an operation stands at one place.
  split_once :
      (i : ℕ) (xs : List (Item V)) (a : Item V) (ys xs' : List (Item V)) (a' : Item V)
      (ys' : List (Item V))
      → xs ++ a ∷ ys ≡ xs' ++ a' ∷ ys'
      → a'.1.id ≡ i
      → a.1.id ≡ i
      → Clear i xs
      → Clear i ys
      → (xs ≡ xs') × (a ≡ a') × (ys ≡ ys')
  split_once i [] a ys [] a' ys' e is' is cx cy = let (h, t) = head_is a a' ys ys' e in (refl, h, t)
  split_once i [] a ys (x' ∷ xs') a' ys' e is' is cx cy =
      let (h, t) = head_is a x' ys (xs' ++ a' ∷ ys') e in
      absurd (Clear-middle i xs' a' ys' (subst (Clear i) t cy) is')
  split_once i (x ∷ xs) a ys [] a' ys' e is' is (ne, cx) cy =
      let (h, t) = head_is x a' (xs ++ a ∷ ys) ys' e in absurd (ne (ap (λ z. z.1.id) h ∙ is'))
  split_once i (x ∷ xs) a ys (x' ∷ xs') a' ys' e is' is (ne, cx) cy =
      let (h, t) = head_is x x' (xs ++ a ∷ ys) (xs' ++ a' ∷ ys') e in
      let (p, q, r) = split_once i xs a ys xs' a' ys' t is' is cx cy in (cc, q, r)

module _ {V S : Type 0} (step : S → V → V → Bool × S) where
  -- The operations can be put in an order that the model accepts from `st` on, and in which an
  -- operation that returned before another was called stands in front of it: no return stands before
  -- the call of the operation that comes first, and what is left is again such a history.
  pub data Linearizable : S → List (Item V) → Type 0 where
    nothing_left : {st : S} → Linearizable st []
    comes_first :
        {st st' : S} {items : List (Item V)} (seen : List (Item V)) (c : Item V)
        (mid : List (Item V)) (r : Item V) (post : List (Item V))
        → items ≡ seen ++ c ∷ (mid ++ r ∷ post)
        → AllCalls seen
        → c.1.kind ≡ call_entry
        → r.1.kind ≡ return_entry
        → r.1.id ≡ c.1.id
        → step st c.1.value r.1.value ≡ (true, st')
        → Linearizable st' (seen ++ (mid ++ post))
        → Linearizable st items

  -- What the search tries.
  record Choice (sub : S → List (Item V) → Bool) (st : S) (items : List (Item V)) : Type 0 where
    seen : List (Item V)
    c : Item V
    rest : List (Item V)
    st' : S
    split : items ≡ seen ++ c ∷ rest
    in_front : AllCalls seen
    is_call : c.1.kind ≡ call_entry
    accepted : accept step st c rest ≡ some st'
    goes_on : sub st' (without c.1.id items) ≡ true

  first_of-Choice :
      (sub : S → List (Item V) → Bool) (st : S) (items seen rest : List (Item V))
      → items ≡ seen ++ rest
      → AllCalls seen
      → first_of step sub st items rest ≡ true
      → Choice sub st items
  first_of-Choice sub st items seen [] e h t = cc
  first_of-Choice sub st items seen (c ∷ rest) e h t = elim (kind_cases c.1.kind) [
    | inr k ↦ absurd (ground (arith, k, t))
    | inl k ↦ elim (Option-cases (accept step st c rest)) [
      | inl eq ↦
          first_of-Choice sub st items (seen ++ c ∷ []) rest
            (e ∙ sym (append_assoc seen (c ∷ []) rest)) (AllCalls-snoc seen c h k)
            (ground (arith, k, t, eq))
      | inr (st', eq) ↦ elim (Bool-cases (sub st' (without c.1.id items))) [
        | inl done ↦ record {
          seen = seen;
          c = c;
          rest = rest;
          st' = st';
          split = e;
          in_front = h;
          is_call = k;
          accepted = eq;
          goes_on = done;
        }
        | inr failed ↦
            first_of-Choice sub st items (seen ++ c ∷ []) rest
              (e ∙ sym (append_assoc seen (c ∷ []) rest)) (AllCalls-snoc seen c h k)
              (ground (arith, k, t, eq, failed))
      ]
    ]
  ]

  first_of-true :
      (sub : S → List (Item V) → Bool) (st : S) (items seen : List (Item V)) (c : Item V)
      (rest : List (Item V)) (st' : S)
      → AllCalls seen
      → c.1.kind ≡ call_entry
      → accept step st c rest ≡ some st'
      → sub st' (without c.1.id items) ≡ true
      → first_of step sub st items (seen ++ c ∷ rest) ≡ true
  first_of-true sub st items [] c rest st' h k a t = ground (arith, k, a, t)
  first_of-true sub st items (x ∷ seen) c rest st' (hx, h) k a t =
      let later = first_of-true sub st items seen c rest st' h k a t in ground (arith, hx, later)

  accept-step :
      (st st' : S) (c r : Item V) (rest : List (Item V))
      → return_of c.1.id rest ≡ some r
      → accept step st c rest ≡ some st'
      → step st c.1.value r.1.value ≡ (true, st')
  accept-step st st' c r rest found a = ground (arith, found, a)

  step-accept :
      (st st' : S) (c r : Item V) (rest : List (Item V))
      → return_of c.1.id rest ≡ some r
      → step st c.1.value r.1.value ≡ (true, st')
      → accept step st c rest ≡ some st'
  step-accept st st' c r rest found a = ground (arith, found, a)

  module _ (s : ℕ → Node V) (n : ℕ) where
    -- What is left behind the first operation.
    pub left_behind :
        (items seen : List (Item V)) (c : Item V) (mid : List (Item V)) (r : Item V)
        (post : List (Item V))
        → IsPaired s n items
        → items ≡ seen ++ c ∷ (mid ++ r ∷ post)
        → c.1.kind ≡ call_entry
        → r.1.id ≡ c.1.id
        → without c.1.id items ≡ seen ++ (mid ++ post)
    left_behind items seen c mid r post v e k same =
        let rest = mid ++ r ∷ post in
        let p = v.calls seen c rest e k in
        let (m, x, q) =
          split_once c.1.id p.mid p.ret p.post mid r post (sym p.split) same p.same p.clear_mid
            p.clear_post in
        ap (without c.1.id) e ∙ Pair-left s n seen c rest p ∙ rw (m, q) refl

    linearize_sound :
        (left : ℕ) (st : S) (items : List (Item V))
        → IsPaired s n items
        → length items ≡ left + left
        → linearize step left st items ≡ true
        → Linearizable st items
    unfolding linearize
    linearize_sound zero st [] v len t = nothing_left
    linearize_sound zero st (a ∷ items) v len t = absurd (omega (arith, len))
    linearize_sound (suc left) st items v len t =
        let ch = first_of-Choice (linearize step left) st items [] items refl tt t in
        let p = v.calls ch.seen ch.c ch.rest ch.split ch.is_call in
        let found = Pair-return_of s n ch.seen ch.c ch.rest p in
        let less : without ch.c.1.id items ≡ ch.seen ++ (p.mid ++ p.post) =
          ap (without ch.c.1.id) ch.split ∙ Pair-left s n ch.seen ch.c ch.rest p in
        let sub =
          linearize_sound left ch.st' (without ch.c.1.id items)
            (IsPaired-without s n ch.c.1.id items v)
            (omega (
              arith,
              ap length less,
              Pair-length s n ch.seen ch.c ch.rest p,
              ap length ch.split,
              len,
            ))
            ch.goes_on in
        comes_first ch.seen ch.c p.mid p.ret p.post
          (ch.split ∙ ap (λ l. ch.seen ++ ch.c ∷ l) p.split) ch.in_front ch.is_call p.ends p.same
          (accept-step st ch.st' ch.c p.ret ch.rest found ch.accepted)
          (subst (Linearizable ch.st') less sub)

    linearize_complete :
        (left : ℕ) (st : S) (items : List (Item V))
        → IsPaired s n items
        → length items ≡ left + left
        → Linearizable st items
        → linearize step left st items ≡ true
    unfolding linearize
    linearize_complete zero st items v len o = refl
    linearize_complete (suc left) st items v len nothing_left = absurd (omega (arith, len))
    linearize_complete (suc left) st items v len
          (comes_first {st' = st'} seen c mid r post e front k k' same ok o) =
        let rest = mid ++ r ∷ post in
        let p = v.calls seen c rest e k in
        let found = Pair-return_of s n seen c rest p in
        let (m, x, q) =
          split_once c.1.id p.mid p.ret p.post mid r post (sym p.split) same p.same p.clear_mid
            p.clear_post in
        let less = left_behind items seen c mid r post v e k same in
        let sub =
          linearize_complete left st' (without c.1.id items) (IsPaired-without s n c.1.id items v)
            (omega (
              arith,
              ap length (Pair-left s n seen c rest p),
              ap (λ l. length (without c.1.id l)) e,
              Pair-length s n seen c rest p,
              ap length e,
              len,
            ))
            (subst (Linearizable st') (sym less) o) in
        rw e (
          first_of-true (linearize step left) st (seen ++ c ∷ rest) seen c rest st' front k
            (step-accept st st' c r rest (found ∙ ap some x) ok)
            (subst (λ l. linearize step left st' (without c.1.id l) ≡ true) e sub))

    pub linearize_iff :
        (left : ℕ) (st : S) (items : List (Item V))
        → IsPaired s n items
        → length items ≡ left + left
        → (linearize step left st items ≡ true) ↔ Linearizable st items
    linearize_iff left st items v len =
        (linearize_sound left st items v len, linearize_complete left st items v len)
