-- ===== src/Porcupine/Bits.antt =====
-- src/porcupine/bitset.go: a bit set as a set of positions.
use mit_distributed_systems.Prelude.{
  ℕ, ◌*◌, ◌/◌, ◌%◌, ◌<◌, ◌≡◌, ◌≢◌, refl, sym, ap, ◌∙◌, List, [], ◌∷◌, Bool, true, some, ◌↔◌, length,
  get_elem?, set, ◌==◌, if◌then◌else◌, arith, length-set, get_elem?-set_self, get_elem?-set_ne,
  get_elem?-lt, get_elem?-eq_some_of_lt, ℕ_discrete,
}
use mit_distributed_systems.Porcupine.Bitset.{write, get_bit, equals, word_eq, words_eq}

-- Every word has 64 bits.
abbrev pub IsWide : List (List Bool) → Type 0
IsWide b = (i : ℕ) (word : List Bool) → get_elem? b i ≡ some word → length word ≡ 64

split : (p q : ℕ) → p / 64 ≡ q / 64 → p % 64 ≡ q % 64 → p ≡ q
split p q h k = omega arith

pub in_range : (p n : ℕ) → p < n * 64 → p / 64 < n
in_range p n h = omega arith

pub minor_lt : (p : ℕ) → p % 64 < 64
minor_lt p = omega arith

get_bit-set :
    (b : List (List Bool)) (p q : ℕ) (word : List Bool) (v : Bool)
    → get_elem? b (p / 64) ≡ some word
    → length word ≡ 64
    → get_bit (set b (p / 64) (set word (p % 64) v)) q ≡ (if p == q then some v else get_bit b q)
unfolding get_bit
get_bit-set b p q word v got wide =
    let lt = get_elem?-lt b (p / 64) got in
    let inside : p % 64 < length word = omega (arith, minor_lt p) in
    elim (ℕ_discrete (p / 64) (q / 64)) [
      | yes major ↦
          let at : get_elem? (set b (p / 64) (set word (p % 64) v)) (q / 64)
              ≡ some (set word (p % 64) v) =
            ap (get_elem? (set b (p / 64) (set word (p % 64) v))) (sym major)
            ∙ get_elem?-set_self b (p / 64) (set word (p % 64) v) lt in
          let was : get_elem? b (q / 64) ≡ some word = ap (get_elem? b) (sym major) ∙ got in
          elim (ℕ_discrete (p % 64) (q % 64)) [
            | yes minor ↦
                let same = split p q major minor in
                let now : get_elem? (set word (p % 64) v) (q % 64) ≡ some v =
                  ap (get_elem? (set word (p % 64) v)) (sym minor)
                  ∙ get_elem?-set_self word (p % 64) v inside in
                rw (at, now) (ground (arith, same))
            | no other ↦
                let ne : p ≢ q = λ e. other (ap (λ x. x % 64) e) in
                rw (at, was, get_elem?-set_ne word (p % 64) (q % 64) v other) (ground (arith, ne))
          ]
      | no other ↦
          let ne : p ≢ q = λ e. other (ap (λ x. x / 64) e) in
          rw (get_elem?-set_ne b (p / 64) (q / 64) (set word (p % 64) v) other) (ground (arith, ne))
    ]

set-IsWide :
    (b : List (List Bool)) (i : ℕ) (word : List Bool)
    → i < length b
    → length word ≡ 64
    → IsWide b
    → IsWide (set b i word)
set-IsWide b i word lt wide all j w h = elim (ℕ_discrete i j) [
  | yes same ↦
      let at : get_elem? (set b i word) j ≡ some word =
        ap (get_elem? (set b i word)) (sym same) ∙ get_elem?-set_self b i word lt in
      ground (arith, at, h, wide)
  | no other ↦ all j w (sym (get_elem?-set_ne b i j word other) ∙ h)
]

-- On words of 64 bits and a position inside them, `set` and `clear` do not panic and give words of 64
-- bits, as many as before; `get` then finds the new bit at that position, and at every other position
-- what it found before.
pub write-get_bit :
    (v : Bool) (b : List (List Bool)) (p : ℕ)
    → IsWide b
    → p < length b * 64
    → (b' : List (List Bool)) × (write v b p ≡ some b')
      × IsWide b'
      × (length b' ≡ length b)
      × ((q : ℕ) → get_bit b' q ≡ (if p == q then some v else get_bit b q))
unfolding write
write-get_bit v b p wide h =
    let lt = in_range p (length b) h in
    let (word, got) = get_elem?-eq_some_of_lt b (p / 64) lt in
    let new = set word (p % 64) v in
    (
      set b (p / 64) new,
      rw got refl,
      set-IsWide b (p / 64) new lt (length-set word (p % 64) v ∙ wide (p / 64) word got) wide,
      length-set b (p / 64) new,
      λ q. get_bit-set b p q word v got (wide (p / 64) word got),
    )

pub word_eq_iff : (v w : List Bool) → (word_eq v w ≡ true) ↔ (v ≡ w)
word_eq_iff [] [] = ground arith
word_eq_iff [] (y ∷ w) = ground arith
word_eq_iff (x ∷ v) [] = ground arith
word_eq_iff (x ∷ v) (y ∷ w) = ground (arith, word_eq_iff v w)

words_eq_iff : (b b2 : List (List Bool)) → (words_eq b b2 ≡ true) ↔ (b ≡ b2)
words_eq_iff [] [] = ground arith
words_eq_iff [] (w ∷ b2) = ground arith
words_eq_iff (v ∷ b) [] = ground arith
words_eq_iff (v ∷ b) (w ∷ b2) = ground (arith, word_eq_iff v w, words_eq_iff b b2)

-- `equals` answers true exactly for equal bit sets.
pub equals_iff : (b b2 : List (List Bool)) → (equals b b2 ≡ true) ↔ (b ≡ b2)
unfolding equals
equals_iff b b2 = ground (arith, words_eq_iff b b2, ap length {x = b} {y = b2})
