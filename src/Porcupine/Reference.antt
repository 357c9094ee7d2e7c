-- ===== src/Porcupine/Reference.antt =====
-- The search that checkSingle does, with no pointers, bits or cache: which operations of a history can
-- be put in an order that the model accepts.
use mit_distributed_systems.Prelude.{
  ℕ, zero, suc, ◌+◌, ◌*◌, List, [], ◌∷◌, Bool, true, false, ◌&&◌, ◌||◌, Option, none, some, ◌==◌,
  if◌then◌else◌,
}
use mit_distributed_systems.Porcupine.History.{EntryKind, call_entry, return_entry}
use mit_distributed_systems.Porcupine.Items.{Item}

abbrev pub is_return : EntryKind → Bool
is_return call_entry = false
is_return return_entry = true

module _ {V : Type 0} where
  -- The items of the other operations.
  abbrev pub without : ℕ → List (Item V) → List (Item V)
  without i [] = []
  without i (a ∷ items) = if a.1.id == i then without i items else a ∷ without i items

  -- The first return of the operation.
  abbrev pub return_of : ℕ → List (Item V) → Option (Item V)
  return_of i [] = none
  return_of i (a ∷ items) = if is_return a.1.kind && a.1.id == i then some a else return_of i items

module _ {V S : Type 0} (step : S → V → V → Bool × S) where
  -- The model's answer on the operation whose call is `c`, with the return among `rest`.
  abbrev pub accept : S → Item V → List (Item V) → Option S
  accept st c rest = elim (return_of c.1.id rest) [
    | none ↦ none
    | some r ↦ let (ok, st') = step st c.1.value r.1.value in if ok then some st' else none
  ]

  -- One of the calls in front of the first return of `rest` comes first, and `sub` answers for the
  -- operations of `items` that are left.
  abbrev pub first_of : (S → List (Item V) → Bool) → S → List (Item V) → List (Item V) → Bool
  first_of sub st items [] = false
  first_of sub st items (c ∷ rest) = elim c.1.kind [
    | return_entry ↦ false
    | call_entry ↦
        (elim (accept st c rest) [ none ↦ false | some st' ↦ sub st' (without c.1.id items) ])
        || first_of sub st items rest
  ]

  -- Whether the operations of `items`, `left` in number, can be put in order from the state `st`.
  unfoldable pub linearize : ℕ → S → List (Item V) → Bool
  linearize zero st items = true
  linearize (suc left) st items = first_of (linearize left) st items items

-- The rounds for each node that the search passes with `left` operations to go.
unfoldable pub weight : ℕ → ℕ
weight zero = 1
weight (suc left) = 2 + (left + left) * weight left
