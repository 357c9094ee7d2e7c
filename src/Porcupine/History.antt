-- ===== src/Porcupine/History.antt =====
-- src/porcupine/model.go and checker.go: histories of calls and returns, and their entries.
-- `interface{}` values are of the type `V`; times are compared only, so they are natural numbers.
use mit_distributed_systems.Prelude.{
  ℕ, ◌+◌, List, [], ◌∷◌, Bool, true, false, ◌&&◌, not, Option, none, some, update, ltb, ◌==◌,
  if◌then◌else◌,
}
use mit_distributed_systems.Models.Kv.{Operation}

pub data EventKind : Type 0 where
  call_event return_event : EventKind

pub record Event (V : Type 0) : Type 0 where
  pub client_id : ℕ
  pub kind : EventKind
  pub value : V
  pub id : ℕ

pub data EntryKind : Type 0 where
  call_entry return_entry : EntryKind

pub record Entry (V : Type 0) : Type 0 where
  pub kind : EntryKind
  pub value : V
  pub id : ℕ
  pub time : ℕ
  pub client_id : ℕ

abbrev is_call : EntryKind → Bool
is_call call_entry = true
is_call return_entry = false

abbrev pub entry_kind : EventKind → EntryKind
entry_kind call_event = call_entry
entry_kind return_event = return_entry

module _ {V : Type 0} where
  -- `byTime.Less`: at the same time, calls stand before returns.
  unfoldable pub less : Entry V → Entry V → Bool
  less a b = if a.time == b.time then is_call a.kind && not (is_call b.kind) else ltb a.time b.time

  unfoldable pub entries_from : ℕ → List (Operation V V) → List (Entry V)
  entries_from id [] = []
  entries_from id (elem ∷ history) =
      record {
        kind = call_entry;
        value = elem.input;
        id = id;
        time = elem.invoked;
        client_id = elem.client_id;
      }
      ∷ record {
        kind = return_entry;
        value = elem.output;
        id = id;
        time = elem.returned;
        client_id = elem.client_id;
      }
      ∷ entries_from (id + 1) history

  -- `sort` stands for sort.Sort.
  unfoldable pub make_entries :
      ((Entry V → Entry V → Bool) → List (Entry V) → List (Entry V))
      → List (Operation V V)
      → List (Entry V)
  unfolding entries_from
  make_entries sort history = sort less (entries_from 0 history)

  -- The loop of `renumber`, with its map `m` and the next number.
  unfoldable pub renumber_from : (ℕ → Option ℕ) → ℕ → List (Event V) → List (Event V)
  renumber_from m id [] = []
  renumber_from m id (v ∷ events) = elim (m v.id) [
    | some r ↦ record v { id = r } ∷ renumber_from m id events
    | none ↦ record v { id = id } ∷ renumber_from (update m v.id (some id)) (id + 1) events
  ]

  unfoldable pub renumber : List (Event V) → List (Event V)
  unfolding renumber_from
  renumber events = renumber_from (λ i. none) 0 events

  -- The index is the time.
  unfoldable pub convert_from : ℕ → List (Event V) → List (Entry V)
  convert_from i [] = []
  convert_from i (elem ∷ events) =
      record {
        kind = entry_kind elem.kind;
        value = elem.value;
        id = elem.id;
        time = i;
        client_id = elem.client_id;
      }
      ∷ convert_from (i + 1) events

  unfoldable pub convert_entries : List (Event V) → List (Entry V)
  unfolding convert_from
  convert_entries events = convert_from 0 events

  -- One part, for a model that gives no partition.
  unfoldable pub no_partition : List (Operation V V) → List (List (Operation V V))
  no_partition history = history ∷ []

  unfoldable pub no_partition_event : List (Event V) → List (List (Event V))
  no_partition_event history = history ∷ []
