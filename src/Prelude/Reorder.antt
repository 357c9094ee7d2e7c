-- ===== src/Prelude/Reorder.antt =====
-- Lists up to order: predicates on all elements, counting, and rearrangement.
use mathlib.Core.Path.{◌≡◌, refl, subst, ap, ◌∙◌}
use mathlib.Core.Bool.{Bool, true, false}
use mathlib.Core.List.{List, [], ◌∷◌, ◌++◌}
use mathlib.Core.Option.{some}
use mathlib.Core.Logic.{inl, inr}
use Prim.Native.Nat.{ℕ, zero, suc, ◌+◌, ◌<◌}
use native.Mathlib.Omega.{arith}
use mit_distributed_systems.Prelude.Lists.{length, get_elem?}
use mit_distributed_systems.Prelude.Tests.{if◌then◌else◌, Bool-cases, ltb, ◌==◌}

module _ {A : Type 0} where
  -- All of a list.
  abbrev pub Every : (A → Type 0) → List A → Type 0
  Every Q [] = Unit {0}
  Every Q (x ∷ xs) = Q x × Every Q xs

  pub Every-middle :
      (Q : A → Type 0) (xs : List A) (a : A) (ys : List A) → Every Q (xs ++ a ∷ ys) → Q a
  Every-middle Q [] a ys (q, h) = q
  Every-middle Q (x ∷ xs) a ys (q, h) = Every-middle Q xs a ys h

  -- How many elements pass the test.
  unfoldable pub count : (A → Bool) → List A → ℕ
  count f [] = 0
  count f (x ∷ xs) = (if f x then 1 else 0) + count f xs

  pub count-append : (f : A → Bool) (xs ys : List A) → count f (xs ++ ys) ≡ count f xs + count f ys
  unfolding count
  count-append f [] ys = omega arith
  count-append f (x ∷ xs) ys = ground (arith, count-append f xs ys)

  -- The first element that passes the test.
  pub record FirstHit (f : A → Bool) (xs : List A) : Type 0 where
    pub before : List A
    pub hit : A
    pub behind : List A
    pub split : xs ≡ before ++ hit ∷ behind
    pub passes : f hit ≡ true
    pub none_before : count f before ≡ 0

  pub count-FirstHit : (f : A → Bool) (xs : List A) (k : ℕ) → count f xs ≡ suc k → FirstHit f xs
  unfolding count
  count-FirstHit f [] k h = absurd (omega (arith, h))
  count-FirstHit f (x ∷ xs) k h = elim (Bool-cases (f x)) [
    | inl e ↦ record {
      before = [];
      hit = x;
      behind = xs;
      split = refl;
      passes = e;
      none_before = refl;
    }
    | inr e ↦
        let r = count-FirstHit f xs k (ground (arith, e, h)) in
        record {
          before = x ∷ r.before;
          hit = r.hit;
          behind = r.behind;
          split = ap (λ l. x ∷ l) r.split;
          passes = r.passes;
          none_before = ground (arith, e, r.none_before);
        }
  ]

module _ {A : Type 0} where
  pub Every-get :
      (Q : A → Type 0) (xs : List A) (i : ℕ) (a : A) → Every Q xs → get_elem? xs i ≡ some a → Q a
  Every-get Q [] i a h e = cc
  Every-get Q (x ∷ xs) zero a (q, h) e = subst Q (let same : x ≡ a = cc in same) q
  Every-get Q (x ∷ xs) (suc i) a (q, h) e = Every-get Q xs i a h e

  pub get-Every :
      (Q : A → Type 0) (xs : List A)
      → ((i : ℕ) (a : A) → get_elem? xs i ≡ some a → Q a)
      → Every Q xs
  get-Every Q [] h = tt
  get-Every Q (x ∷ xs) h = (h 0 x refl, get-Every Q xs (λ i. h (suc i)))

  pub count-none : (f : A → Bool) (xs : List A) → Every (λ a. f a ≡ false) xs → count f xs ≡ 0
  unfolding count
  count-none f [] h = refl
  count-none f (x ∷ xs) (q, h) = ground (arith, q, count-none f xs h)

  pub Every-zip :
      {P R Q : A → Type 0} (xs : List A)
      → ((a : A) → P a → R a → Q a)
      → Every P xs
      → Every R xs
      → Every Q xs
  Every-zip [] f h k = tt
  Every-zip (x ∷ xs) f (p, h) (r, k) = (f x p r, Every-zip xs f h k)

  count-split :
      (k : A → ℕ) (n : ℕ) (xs : List A)
      → count (λ a. ltb (k a) (suc n)) xs ≡ count (λ a. ltb (k a) n) xs + count (λ a. k a == n) xs
  unfolding count
  count-split k n [] = refl
  count-split k n (x ∷ xs) = ground (arith, count-split k n xs)

  -- As many elements as the numbers below `n` count.
  pub count-below :
      (k : A → ℕ) (n : ℕ) (xs : List A)
      → ((i : ℕ) → i < n → count (λ a. k a == i) xs ≡ 2)
      → count (λ a. ltb (k a) n) xs ≡ n + n
  count-below k zero xs h =
      count-none (λ a. ltb (k a) 0) xs (get-Every _ xs (λ i a e. ground arith))
  count-below k (suc n) xs h = omega (
    arith,
    count-split k n xs,
    h n (omega arith),
    count-below k n xs (λ i lt. h i (omega (arith, lt))),
  )

  pub count-all : (f : A → Bool) (xs : List A) → Every (λ a. f a ≡ true) xs → count f xs ≡ length xs
  unfolding count
  count-all f [] h = refl
  count-all f (x ∷ xs) (q, h) = ground (arith, q, count-all f xs h)

-- The same elements in another order, as swaps of neighbours.
pub data Reordered {A : Type 0} : List A → List A → Type 0 where
  empty : Reordered [] []
  kept : (a : A) {xs ys : List A} → Reordered xs ys → Reordered (a ∷ xs) (a ∷ ys)
  swapped : (a b : A) (xs : List A) → Reordered (a ∷ b ∷ xs) (b ∷ a ∷ xs)
  later : {xs ys zs : List A} → Reordered xs ys → Reordered ys zs → Reordered xs zs

module _ {A : Type 0} where
  pub unchanged : (xs : List A) → Reordered xs xs
  unchanged [] = empty
  unchanged (x ∷ xs) = kept x (unchanged xs)

  pub count-Reordered : (f : A → Bool) {xs ys : List A} → Reordered xs ys → count f xs ≡ count f ys
  unfolding count
  count-Reordered f empty = refl
  count-Reordered f (kept a p) = ground (arith, count-Reordered f p)
  count-Reordered f (swapped a b xs) = ground arith
  count-Reordered f (later p q) = count-Reordered f p ∙ count-Reordered f q

  pub length-Reordered : {xs ys : List A} → Reordered xs ys → length xs ≡ length ys
  length-Reordered empty = refl
  length-Reordered (kept a p) = ap suc (length-Reordered p)
  length-Reordered (swapped a b xs) = refl
  length-Reordered (later p q) = length-Reordered p ∙ length-Reordered q

  pub Every-Reordered :
      (Q : A → Type 0) {xs ys : List A} → Reordered xs ys → Every Q xs → Every Q ys
  Every-Reordered Q empty h = tt
  Every-Reordered Q (kept a p) (q, h) = (q, Every-Reordered Q p h)
  Every-Reordered Q (swapped a b xs) (q, (r, h)) = (r, (q, h))
  Every-Reordered Q (later p q) h = Every-Reordered Q q (Every-Reordered Q p h)
