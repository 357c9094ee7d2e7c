-- ===== src/Porcupine/Bitset.antt =====
-- src/porcupine/bitset.go. A uint64 is the list of its 64 bits, the lowest first, and math/bits'
-- OnesCount64 the number of ones. An index out of range panics.
use mit_distributed_systems.Prelude.{
  ℕ, zero, suc, ◌+◌, ◌/◌, ◌%◌, List, [], ◌∷◌, Bool, true, false, ◌&&◌, not, Option, some, length,
  get_elem?, set, replicate, ◌==◌, if◌then◌else◌, ◌>>=◌,
}

unfoldable pub new_bitset : ℕ → List (List Bool)
new_bitset bits =
    let extra = if bits % 64 == 0 then 0 else 1 in
    replicate (bits / 64 + extra) (replicate 64 false)

-- The bit at `pos` becomes `v`: for true `|= 1 << minor`, for false `&^= 1 << minor`.
unfoldable pub write : Bool → List (List Bool) → ℕ → Option (List (List Bool))
write v b pos = do word ← get_elem? b (pos / 64); some (set b (pos / 64) (set word (pos % 64) v))

abbrev pub set_bit : List (List Bool) → ℕ → Option (List (List Bool))
set_bit = write true

abbrev pub clear_bit : List (List Bool) → ℕ → Option (List (List Bool))
clear_bit = write false

unfoldable pub get_bit : List (List Bool) → ℕ → Option Bool
get_bit b pos = do word ← get_elem? b (pos / 64); get_elem? word (pos % 64)

abbrev pub ones : List Bool → ℕ
ones [] = 0
ones (bit ∷ word) = if bit then suc (ones word) else ones word

unfoldable pub popcnt : List (List Bool) → ℕ
popcnt [] = 0
popcnt (word ∷ b) = ones word + popcnt b

-- The number as `left` bits.
abbrev pub word_of : ℕ → ℕ → List Bool
word_of zero n = []
word_of (suc left) n = (n % 2 == 1) ∷ word_of left (n / 2)

abbrev pub xor : List Bool → List Bool → List Bool
xor (x ∷ v) (y ∷ w) = (if x then not y else y) ∷ xor v w
xor _ _ = []

unfoldable pub xor_all : List Bool → List (List Bool) → List Bool
xor_all h [] = h
xor_all h (word ∷ b) = xor_all (xor h word) b

unfoldable pub hash : List (List Bool) → List Bool
unfolding popcnt xor_all
hash b = xor_all (word_of 64 (popcnt b)) b

abbrev pub word_eq : List Bool → List Bool → Bool
word_eq [] [] = true
word_eq (x ∷ v) (y ∷ w) = (if x then y else not y) && word_eq v w
word_eq _ _ = false

-- The loop of `equals`.
abbrev pub words_eq : List (List Bool) → List (List Bool) → Bool
words_eq [] [] = true
words_eq (v ∷ b) (w ∷ b2) = word_eq v w && words_eq b b2
words_eq _ _ = false

unfoldable pub equals : List (List Bool) → List (List Bool) → Bool
equals b b2 = length b == length b2 && words_eq b b2
