-- ===== src/Porcupine/Live.antt =====
-- src/porcupine/bitset.go: the operations that a bit set does not have yet, and single bits put back.
use mit_distributed_systems.Prelude.{
  ℕ, zero, suc, ◌+◌, ◌*◌, ◌/◌, ◌%◌, ◌<◌, ◌≤◌, ◌≡◌, refl, sym, ap, ◌∙◌, List, [], ◌∷◌, ◌++◌, length,
  get_elem?, set, replicate, length-replicate, Bool, true, false, Bool-cases, inl, inr, Option,
  Option-cases, none, some, ◌==◌, if◌then◌else◌, ◌>>=◌, arith, get_elem?-eq_some_of_lt,
  get_elem?-lt, get_elem?-set_self, >>=-eq-some,
}
use mit_distributed_systems.Porcupine.Items.{Item}
use mit_distributed_systems.Porcupine.Bitset.{new_bitset, write, get_bit}
use mit_distributed_systems.Porcupine.Bits.{IsWide, minor_lt, in_range}
use mit_distributed_systems.Porcupine.Reference.{without}

abbrev pub is_set : List (List Bool) → ℕ → Bool
is_set b i = elim (get_bit b i) [ none ↦ false | some v ↦ v ]

pub get_bit_total :
    (b : List (List Bool)) (p : ℕ)
    → IsWide b
    → p < length b * 64
    → (v : Bool) × (get_bit b p ≡ some v)
unfolding get_bit
get_bit_total b p wide h =
    let (word, got) = get_elem?-eq_some_of_lt b (p / 64) (in_range p (length b) h) in
    let (v, at) =
      get_elem?-eq_some_of_lt word (p % 64) (omega (arith, wide (p / 64) word got, minor_lt p)) in
    (v, rw got at)

-- An element put back.
set-set {ℓ} :
    {A : Type ℓ} (xs : List A) (i : ℕ) (v w : A)
    → get_elem? xs i ≡ some v
    → set (set xs i w) i v ≡ xs
set-set [] i v w h = refl
set-set (x ∷ xs) zero v w h = ground arith
set-set (x ∷ xs) (suc i) v w h = ap (λ l. x ∷ l) (set-set xs i v w h)

-- `clear` undoes `set` of a bit that was not there.
pub write_back :
    (b b' : List (List Bool)) (p : ℕ)
    → get_bit b p ≡ some false
    → write true b p ≡ some b'
    → write false b' p ≡ some b
unfolding get_bit write
write_back b b' p h w =
    let (word, got, bit) = >>=-eq-some (get_elem? b (p / 64)) (λ w. get_elem? w (p % 64)) h in
    let is : b' ≡ set b (p / 64) (set word (p % 64) true) = ground (arith, w, got) in
    let now : get_elem? b' (p / 64) ≡ some (set word (p % 64) true) =
      ap (λ l. get_elem? l (p / 64)) is
      ∙ get_elem?-set_self b (p / 64) (set word (p % 64) true) (get_elem?-lt b (p / 64) got) in
    let whole : write false b' p
        ≡ some (set b' (p / 64) (set (set word (p % 64) true) (p % 64) false)) =
      rw now in
    whole
    ∙ ap (λ l. some (set b' (p / 64) l)) (set-set word (p % 64) false true bit)
    ∙ ap (λ l. some (set l (p / 64) word)) is
    ∙ ap some (set-set b (p / 64) word (set word (p % 64) true) got)

module _ {V : Type 0} where
  -- The items of the operations that are not in the bit set.
  abbrev pub live : List (List Bool) → List (Item V) → List (Item V)
  live b [] = []
  live b (a ∷ items) = if is_set b a.1.id then live b items else a ∷ live b items

  pub live-without :
      (b b' : List (List Bool)) (p : ℕ) (items : List (Item V))
      → ((q : ℕ) → get_bit b' q ≡ (if p == q then some true else get_bit b q))
      → live b' items ≡ without p (live b items)
  live-without b b' p [] h = refl
  live-without b b' p (a ∷ items) h = ground (arith, h a.1.id, live-without b b' p items h)

  pub live_not-set :
      (b : List (List Bool)) (items pre : List (Item V)) (a : Item V) (post : List (Item V))
      → live b items ≡ pre ++ a ∷ post
      → is_set b a.1.id ≡ false
  live_not-set b [] [] a post h = cc
  live_not-set b [] (y ∷ pre) a post h = cc
  live_not-set b (x ∷ items) [] a post h = elim (Bool-cases (is_set b x.1.id)) [
    | inl e ↦ live_not-set b items [] a post (ground (arith, e, h))
    | inr e ↦ ground (arith, e, h)
  ]
  live_not-set b (x ∷ items) (y ∷ pre) a post h = elim (Bool-cases (is_set b x.1.id)) [
    | inl e ↦ live_not-set b items (y ∷ pre) a post (ground (arith, e, h))
    | inr e ↦ live_not-set b items pre a post (ground (arith, e, h))
  ]

get_elem?-replicate {ℓ} :
    {A : Type ℓ} (n i : ℕ) (v w : A) → get_elem? (replicate n v) i ≡ some w → w ≡ v
get_elem?-replicate zero i v w h = cc
get_elem?-replicate (suc n) zero v w h = ground arith
get_elem?-replicate (suc n) (suc i) v w h = get_elem?-replicate n i v w h

pub new_bitset-IsWide : (n : ℕ) → IsWide (new_bitset n) × (n ≤ length (new_bitset n) * 64)
unfolding new_bitset
new_bitset-IsWide n =
    let chunks = n / 64 + (if n % 64 == 0 then 0 else 1) in
    (
      λ i word h. ap length (get_elem?-replicate chunks i (replicate 64 false) word h),
      ground (arith, length-replicate {A = List Bool} chunks (replicate 64 false)),
    )

bit_at-is_false :
    (o : Option (List Bool)) (i : ℕ)
    → ((word : List Bool) → o ≡ some word → word ≡ replicate 64 false)
    → (elim (o >>= λ word. get_elem? word i) [ none ↦ false | some v ↦ v ]) ≡ false
bit_at-is_false none i h = refl
bit_at-is_false (some word) i h = elim (Option-cases (get_elem? word i)) [
  | inl e ↦ rw e
  | inr (v, e) ↦
      let is : get_elem? (replicate 64 false) i ≡ some v =
        ap (λ l. get_elem? l i) (sym (h word refl)) ∙ e in
      rw e (get_elem?-replicate 64 i false v is)
]

pub new_bitset-is_set : (n i : ℕ) → is_set (new_bitset n) i ≡ false
unfolding new_bitset get_bit
new_bitset-is_set n i =
    let chunks = n / 64 + (if n % 64 == 0 then 0 else 1) in
    bit_at-is_false (get_elem? (new_bitset n) (i / 64)) (i % 64)
      (λ word. get_elem?-replicate chunks (i / 64) (replicate 64 false) word)
