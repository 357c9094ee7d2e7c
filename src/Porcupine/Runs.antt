-- ===== src/Porcupine/Runs.antt =====
-- src/porcupine/checker.go: checkSingle at concrete histories.
use mit_distributed_systems.Prelude.{
  append_assoc, append-nil, ℕ, ◌+◌, ◌≤◌, ◌≡◌, ◌≢◌, ◌↔◌, refl, sym, subst, List, [], ◌∷◌, ◌++◌, Bool,
  true, false, Option, none, some, ℤ, pos, arith, ◌==◌, ==_iff,
}
use mit_distributed_systems.Porcupine.History.{Entry, EntryKind, call_entry, return_entry}
use mit_distributed_systems.Porcupine.Items.{Item, numbered}
use mit_distributed_systems.Porcupine.Search.{check_single}
use mit_distributed_systems.Porcupine.Bitset.{write, new_bitset, hash}
use mit_distributed_systems.Porcupine.Cache.{cache_contains, cache_add}
use mit_distributed_systems.Porcupine.Links.{lift}
use mit_distributed_systems.Porcupine.Reference.{weight}
use mit_distributed_systems.Porcupine.Linear.{Linearizable}
use mit_distributed_systems.Porcupine.Exact.Check.{Twin, IsComplete, rounds}
use mit_distributed_systems.Porcupine.Exact.Verdict.{check_single-Linearizable}

-- A counter: an operation adds its input and returns what the counter was.
abbrev pub fetch_add : ℕ → ℕ → ℕ → Bool × ℕ
fetch_add st input output = (output == st, st + input)

abbrev at : EntryKind → ℕ → ℕ → ℕ → Entry ℕ
at k i v t = record { kind = k; value = v; id = i; time = t; client_id = 0 }

-- Two operations that overlap. The second to be called came first.
abbrev pub overlapping : List (Entry ℕ)
overlapping =
    at call_entry 0 5 0 ∷ at call_entry 1 7 1 ∷ at return_entry 0 7 2 ∷ at return_entry 1 0 3 ∷ []

-- The first returned before the second was called.
abbrev in_sequence : List (Entry ℕ)
in_sequence =
    at call_entry 0 5 0 ∷ at return_entry 0 7 1 ∷ at call_entry 1 7 2 ∷ at return_entry 1 0 3 ∷ []

overlapping_test :
    check_single fetch_add (λ a b. a == b) 20 0 overlapping true (λ i. false)
    ≡ some (true, some (pos 1 ∷ pos 0 ∷ []) ∷ some (pos 1 ∷ pos 0 ∷ []) ∷ [])
unfolding check_single write new_bitset cache_contains lift cache_add hash
overlapping_test = refl

in_sequence_test :
    check_single fetch_add (λ a b. a == b) 20 0 in_sequence true (λ i. false)
    ≡ some (false, none ∷ none ∷ [])
unfolding check_single write new_bitset cache_contains lift cache_add hash
in_sequence_test = refl

-- The operations from `items` on are complete, behind `front`.
abbrev Twins : ℕ → List (Item ℕ) → List (Item ℕ) → Type 0
Twins n front [] = Unit {0}
Twins n front (a ∷ rest) =
    (a.1.kind ≡ call_entry → Twin n front a rest) × Twins n (front ++ a ∷ []) rest

cons_ne_nil : (xs : List (Item ℕ)) (a : Item ℕ) (ys : List (Item ℕ)) → xs ++ a ∷ ys ≢ []
cons_ne_nil [] a ys e = cc
cons_ne_nil (x ∷ xs) a ys e = cc

Twins-Twin :
    (n : ℕ) (front items seen : List (Item ℕ)) (c : Item ℕ) (rest : List (Item ℕ))
    → Twins n front items
    → items ≡ seen ++ c ∷ rest
    → c.1.kind ≡ call_entry
    → Twin n (front ++ seen) c rest
Twins-Twin n front [] seen c rest t e k = absurd (cons_ne_nil seen c rest (sym e))
Twins-Twin n front (a ∷ items) [] c rest (here, t) e k =
    let first : a ≡ c = cc in
    let others : items ≡ rest = cc in
    subst (λ f. Twin n f c rest) (sym (append-nil front))
      (subst (λ r. Twin n front c r) others
        (subst (λ b. b.1.kind ≡ call_entry → Twin n front b items) first here k))
Twins-Twin n front (a ∷ items) (x ∷ seen) c rest (here, t) e k =
    let first : a ≡ x = cc in
    let others : items ≡ seen ++ c ∷ rest = cc in
    subst (λ f. Twin n f c rest) (append_assoc front (x ∷ []) seen)
      (Twins-Twin n (front ++ x ∷ []) items seen c rest
        (subst (λ b. Twins n (front ++ b ∷ []) items) first t) others k)

overlapping-Twins : Twins 2 [] (numbered 0 overlapping)
overlapping-Twins = (
  λ k. record {
    mid = (1, at call_entry 1 7 1) ∷ [];
    ret = (2, at return_entry 0 7 2);
    post = (3, at return_entry 1 0 3) ∷ [];
    split = refl;
    ends = refl;
    same = refl;
    clear_seen = tt;
    clear_mid = (λ e. omega (arith, e), tt);
    clear_post = (λ e. omega (arith, e), tt);
    below = omega arith;
  },
  (
    λ k. record {
      mid = (2, at return_entry 0 7 2) ∷ [];
      ret = (3, at return_entry 1 0 3);
      post = [];
      split = refl;
      ends = refl;
      same = refl;
      clear_seen = (λ e. omega (arith, e), tt);
      clear_mid = (λ e. omega (arith, e), tt);
      clear_post = tt;
      below = omega arith;
    },
    (λ k. cc, (λ k. cc, tt)),
  ),
)

pub overlapping-IsComplete : IsComplete 2 overlapping
overlapping-IsComplete = record {
  size = refl;
  calls =
      λ seen c rest e k. Twins-Twin 2 [] (numbered 0 overlapping) seen c rest overlapping-Twins e k;
}

pub enough : rounds 2 ≤ 57
unfolding weight
enough = omega arith

check_single-Linearizable_example :
    (ok : Bool) × (l : List (Option (List ℤ))) × (check_single fetch_add
        (λ a b. a == b)
        57
        0
        overlapping
        true
        (λ i. false)
      ≡ some (ok, l))
    × ((ok ≡ true) ↔ Linearizable fetch_add 0 (numbered 0 overlapping))
check_single-Linearizable_example =
    check_single-Linearizable fetch_add (λ a b. a == b) ==_iff 57 2 0 overlapping true (λ i. false)
      overlapping-IsComplete (λ i. refl) enough
