-- ===== src/MapReduce/Places.antt =====
-- src/mr/worker.go: the files that Glob finds, each once in some order, are all files.
use mathlib.Core.Option
use mit_distributed_systems.Prelude.{
  ap₂, subst, length, length-append, Reordered, empty, kept, swapped, later, unchanged, map, ℕ,
  zero, suc, ◌+◌, ◌≡◌, refl, sym, ap, ◌∙◌, List, [], ◌∷◌, ◌++◌, Option, none, some, get_elem?,
  arith, append_assoc,
}
use mit_distributed_systems.MapReduce.Worker.{prepend, chosen}

-- The places of a list.
abbrev pub indices : {A : Type 0} → ℕ → List A → List ℕ
indices i [] = []
indices i (x ∷ xs) = i ∷ indices (i + 1) xs

module _ {A : Type 0} where
  get_elem?-map :
      {B : Type 0} (f : A → B) (xs : List A) (m : ℕ)
      → get_elem? (map f xs) m ≡ Option.map f (get_elem? xs m)
  get_elem?-map f [] m = refl
  get_elem?-map f (x ∷ xs) zero = refl
  get_elem?-map f (x ∷ xs) (suc m) = get_elem?-map f xs m

  get_elem?-behind :
      (front : List A) (x : A) (xs : List A) → get_elem? (front ++ x ∷ xs) (length front) ≡ some x
  get_elem?-behind [] x xs = refl
  get_elem?-behind (y ∷ front) x xs = get_elem?-behind front x xs

  pub chosen-map :
      {B : Type 0} (f : A → B) (xs : List A) (ms : List ℕ)
      → chosen (map f xs) ms ≡ map f (chosen xs ms)
  unfolding chosen
  chosen-map f xs [] = refl
  chosen-map f xs (m ∷ ms) = ground (arith, get_elem?-map f xs m, chosen-map f xs ms)

  chosen-here :
      (xs : List A) (m : ℕ) (ms : List ℕ) (x : A)
      → get_elem? xs m ≡ some x
      → chosen xs (m ∷ ms) ≡ x ∷ chosen xs ms
  unfolding chosen
  chosen-here xs m ms x e = rw (e, chosen, prepend)

  chosen-indices : (front xs : List A) → chosen (front ++ xs) (indices (length front) xs) ≡ xs
  unfolding chosen
  chosen-indices front [] = refl
  chosen-indices front (x ∷ xs) =
      let moved : front ++ x ∷ xs ≡ (front ++ x ∷ []) ++ xs =
        sym (append_assoc front (x ∷ []) xs) in
      let size : length front + 1 ≡ length (front ++ x ∷ []) =
        omega (arith, length-append front (x ∷ [])) in
      chosen-here (front ++ x ∷ xs) (length front) (indices (length front + 1) xs) x
        (get_elem?-behind front x xs)
      ∙ ap (λ l. x ∷ l)
          (ap₂ (λ l n. chosen l (indices n xs)) moved size ∙ chosen-indices (front ++ x ∷ []) xs)

  prepend-Reordered :
      (o : Option A) {xs ys : List A} → Reordered xs ys → Reordered (prepend o xs) (prepend o ys)
  prepend-Reordered none p = p
  prepend-Reordered (some x) p = kept x p

  prepend-swapped :
      (o o' : Option A) (xs : List A)
      → Reordered (prepend o (prepend o' xs)) (prepend o' (prepend o xs))
  prepend-swapped none o' xs = unchanged (prepend o' xs)
  prepend-swapped (some x) none xs = unchanged (x ∷ xs)
  prepend-swapped (some x) (some y) xs = swapped x y xs

  chosen-Reordered :
      (xs : List A) {ms ns : List ℕ} → Reordered ms ns → Reordered (chosen xs ms) (chosen xs ns)
  unfolding chosen
  chosen-Reordered xs empty = empty
  chosen-Reordered xs (kept m p) = prepend-Reordered (get_elem? xs m) (chosen-Reordered xs p)
  chosen-Reordered xs (swapped m n ms) =
      prepend-swapped (get_elem? xs m) (get_elem? xs n) (chosen xs ms)
  chosen-Reordered xs (later p q) = later (chosen-Reordered xs p) (chosen-Reordered xs q)

  -- Each place once, in any order: the same elements.
  pub chosen-all :
      (xs : List A) (ms : List ℕ) → Reordered ms (indices 0 xs) → Reordered (chosen xs ms) xs
  chosen-all xs ms p =
      subst (Reordered (chosen xs ms)) (chosen-indices [] xs) (chosen-Reordered xs p)

  pub kept_front :
      (front : List A) {xs ys : List A} → Reordered xs ys → Reordered (front ++ xs) (front ++ ys)
  kept_front [] p = p
  kept_front (a ∷ front) p = kept a (kept_front front p)

  moved_back : (a : A) (xs ys : List A) → Reordered (a ∷ (xs ++ ys)) (xs ++ a ∷ ys)
  moved_back a [] ys = unchanged (a ∷ ys)
  moved_back a (x ∷ xs) ys = later (swapped a x (xs ++ ys)) (kept x (moved_back a xs ys))

  pub exchanged : (xs ys zs : List A) → Reordered (xs ++ (ys ++ zs)) (ys ++ (xs ++ zs))
  exchanged [] ys zs = unchanged (ys ++ zs)
  exchanged (x ∷ xs) ys zs = later (kept x (exchanged xs ys zs)) (moved_back x ys (xs ++ zs))
