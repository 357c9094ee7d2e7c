-- ===== src/Porcupine/Checks.antt =====
-- src/porcupine/porcupine.go: CheckOperations and CheckEvents at concrete histories.
use mit_distributed_systems.Prelude.{
  Every, ◌<◌, arith, ==_iff, ◌⊎◌, ◌↔◌, refl, ◌≡◌, true, some, ℕ, List, [], ◌∷◌, Bool, none, ◌==◌,
}
use mit_distributed_systems.Models.Kv.{Operation}
use mit_distributed_systems.Porcupine.History.{
  Event, EventKind, call_event, return_event, less, make_entries, no_partition,
}
use mit_distributed_systems.Porcupine.Parallel.{unknown, illegal, time_out, ok, finished, Model}
use mit_distributed_systems.Porcupine.Reference.{weight}
use mit_distributed_systems.Porcupine.InsertSort.{sort, sort-IsSort}
use mit_distributed_systems.Porcupine.Operations.{IsTimed}
use mit_distributed_systems.Porcupine.Parallel
use mit_distributed_systems.Porcupine.Api
use mit_distributed_systems.Porcupine.Bitset.{write, new_bitset, hash}
use mit_distributed_systems.Porcupine.Cache.{cache_contains, cache_add}
use mit_distributed_systems.Porcupine.Links.{lift}
use mit_distributed_systems.Porcupine.Search.{check_single}
use mit_distributed_systems.Porcupine.Operations.{
  check_operations-Decides, check_operations_decides, check_operations_waits, AllLinear,
}
use mit_distributed_systems.Porcupine.Runs.{fetch_add}

abbrev counter : Model ℕ ℕ
counter = record {
  partition = none;
  partition_event = none;
  init = 0;
  step = fetch_add;
  equal = none;
}

abbrev operations : List (Operation ℕ ℕ)
operations =
    record { client_id = 0; input = 5; invoked = 0; output = 7; returned = 2 }
    ∷ record { client_id = 0; input = 7; invoked = 1; output = 0; returned = 3 }
    ∷ []

abbrev at : EventKind → ℕ → ℕ → Event ℕ
at kind id value = record { client_id = 0; kind = kind; value = value; id = id }

abbrev events : List (Event ℕ)
events = at call_event 4 5 ∷ at call_event 9 7 ∷ at return_event 4 7 ∷ at return_event 9 0 ∷ []

operations-IsTimed : Every (IsTimed 57 (λ a b. a == b) counter) (operations ∷ [])
unfolding weight
operations-IsTimed = (((omega arith, (omega arith, tt)), omega arith), tt)

operations_test :
    Parallel.check_operations 57
      (λ a b. a == b)
      sort
      counter
      operations
      true
      3
      (finished 0 ∷ time_out ∷ [])
    ≡ some ok
unfolding Parallel.check_operations no_partition check_single make_entries less write new_bitset
    cache_contains lift cache_add hash
operations_test = refl

check_operations-Decides_example :
    ((ok ≡ ok) × AllLinear 57 (λ a b. a == b) counter operations)
    ⊎ (((ok ≡ illegal) × (¬ (AllLinear 57 (λ a b. a == b) counter operations)))
        ⊎ ((ok ≡ unknown) × (0 < 3)))
unfolding no_partition
check_operations-Decides_example =
    check_operations-Decides 57 (λ a b. a == b) counter sort operations true 3
      (finished 0 ∷ time_out ∷ []) ok sort-IsSort ==_iff operations-IsTimed operations_test

check_operations_decides_example :
    (b : Bool) × (Api.check_operations 57 (λ a b. a == b) sort counter operations (finished 0 ∷ [])
      ≡ some b)
    × ((b ≡ true) ↔ AllLinear 57 (λ a b. a == b) counter operations)
unfolding no_partition
check_operations_decides_example =
    check_operations_decides 57 (λ a b. a == b) counter sort operations (finished 0 ∷ [])
      sort-IsSort ==_iff operations-IsTimed (omega arith) (omega arith, tt)

abbrev no_parts : Model ℕ ℕ
no_parts = record counter { partition = some (λ history. []) }

check_operations_waits_example :
    Parallel.check_operations 57 (λ a b. a == b) sort no_parts operations true 0 (finished 0 ∷ [])
    ≡ none
check_operations_waits_example =
    check_operations_waits 57 (λ a b. a == b) no_parts sort operations true (finished 0 ∷ []) refl
