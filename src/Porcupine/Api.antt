-- ===== src/Porcupine/Api.antt =====
-- src/porcupine/porcupine.go: the functions that programs call, with the first of their results.
use mit_distributed_systems.Prelude.{ℕ, List, Bool, true, false, Option, some, ◌>>=◌}
use mit_distributed_systems.Models.Kv.{Operation}
use mit_distributed_systems.Porcupine.History.{Event, Entry}
use mit_distributed_systems.Porcupine.Parallel.{Model, CheckResult, unknown, ok, illegal, Arrival}
use mit_distributed_systems.Porcupine.Parallel

abbrev pub is_ok : CheckResult → Bool
is_ok unknown = false
is_ok ok = true
is_ok illegal = false

module _ {V S : Type 0} (fuel : ℕ) (shallow_equal : S → S → Bool)
    (sort : (Entry V → Entry V → Bool) → List (Entry V) → List (Entry V)) (model : Model V S) where
  unfoldable pub check_operations : List (Operation V V) → List Arrival → Option Bool
  check_operations history arrivals = do
    res ← Parallel.check_operations fuel shallow_equal sort model history false 0 arrivals
    some (is_ok res)

  unfoldable pub check_operations_timeout :
      List (Operation V V) → ℕ → List Arrival → Option CheckResult
  check_operations_timeout history timeout arrivals =
      Parallel.check_operations fuel shallow_equal sort model history false timeout arrivals

  unfoldable pub check_operations_verbose :
      List (Operation V V) → ℕ → List Arrival → Option CheckResult
  check_operations_verbose history timeout arrivals =
      Parallel.check_operations fuel shallow_equal sort model history true timeout arrivals

module _ {V S : Type 0} (fuel : ℕ) (shallow_equal : S → S → Bool) (model : Model V S) where
  unfoldable pub check_events : List (Event V) → List Arrival → Option Bool
  check_events history arrivals = do
    res ← Parallel.check_events fuel shallow_equal model history false 0 arrivals
    some (is_ok res)

  unfoldable pub check_events_timeout : List (Event V) → ℕ → List Arrival → Option CheckResult
  check_events_timeout history timeout arrivals =
      Parallel.check_events fuel shallow_equal model history false timeout arrivals

  unfoldable pub check_events_verbose : List (Event V) → ℕ → List Arrival → Option CheckResult
  check_events_verbose history timeout arrivals =
      Parallel.check_events fuel shallow_equal model history true timeout arrivals
