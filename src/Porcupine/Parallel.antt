-- ===== src/Porcupine/Parallel.antt =====
-- src/porcupine/checker.go: fillDefault, checkParallel, checkEvents and checkOperations, and the
-- functions of porcupine.go. A goroutine of checkParallel sends one result; the loop takes them in any
-- order. What the loop takes is an argument, and so is the test ShallowEqual, which is Go's ==.
use mit_distributed_systems.Prelude.{
  ℕ, zero, suc, ◌+◌, List, [], ◌∷◌, map, Bool, true, false, ◌&&◌, ◌||◌, not, Option, none, some,
  length, leb, ltb, if◌then◌else◌, ◌>>=◌,
}
use mit_distributed_systems.Models.Kv.{Operation}
use mit_distributed_systems.Porcupine.History.{
  Event, Entry, make_entries, renumber, convert_entries, no_partition, no_partition_event,
}
use mit_distributed_systems.Porcupine.Search.{check_single}

-- Without DescribeOperation and DescribeState, which only the visualization calls. A field that may be
-- nil is an option.
pub record Model (V S : Type 0) : Type 0 where
  pub partition : Option (List (Operation V V) → List (List (Operation V V)))
  pub partition_event : Option (List (Event V) → List (List (Event V)))
  pub init : S
  pub step : S → V → V → Bool × S
  pub equal : Option (S → S → Bool)

pub data CheckResult : Type 0 where
  unknown ok illegal : CheckResult

-- What the select statement takes: the result of the `k`th of the goroutines whose results it has not
-- taken yet, or the time limit.
pub data Arrival : Type 0 where
  finished : ℕ → Arrival
  time_out : Arrival

-- The variables of the loop, and the parts whose goroutines have not been heard.
pub record Loop (V : Type 0) : Type 0 where
  pub all_ok : Bool
  pub timed_out : Bool
  pub count : ℕ
  pub pending : List (List (Entry V))

-- The `k`th of a list, and the others.
unfoldable pub take_at {ℓ} : {A : Type ℓ} → ℕ → List A → Option (A × List A)
take_at k [] = none
take_at zero (x ∷ xs) = some (x, xs)
take_at (suc k) (x ∷ xs) = do (y, ys) ← take_at k xs; some (y, x ∷ ys)

abbrev pub or_default : {A : Type 0} → Option A → A → A
or_default none a = a
or_default (some b) a = b

unfoldable pub verdict : {V : Type 0} → Loop V → CheckResult
verdict st = if not st.all_ok then illegal else (if st.timed_out then unknown else ok)

module _ {V S : Type 0} where
  -- `fillDefault`
  unfoldable pub fill_default : (S → S → Bool) → Model V S → Model V S
  fill_default shallow_equal model = record model {
    partition = some (or_default model.partition no_partition);
    partition_event = some (or_default model.partition_event no_partition_event);
    equal = some (or_default model.equal shallow_equal);
  }

  -- A goroutine that no other stops: the loop sets `kill` only as it ends.
  unfoldable pub check_part : ℕ → Model V S → Bool → List (Entry V) → Option Bool
  check_part fuel model compute_info part = do
    equal ← model.equal
    (answer, l) ← check_single model.step equal fuel model.init part compute_info (λ i. false)
    some answer

  -- The loop of checkParallel over `total` parts. `none` is a loop that waits for more, or that
  -- takes what cannot come: there is no time limit if `timeout` is 0.
  unfoldable pub select_loop :
      ℕ → Model V S → Bool → ℕ → ℕ → List Arrival → Loop V → Option (Loop V)
  unfolding take_at check_part
  select_loop fuel model compute_info timeout total [] st = none
  select_loop fuel model compute_info timeout total (time_out ∷ arrivals) st =
      if ltb 0 timeout then some (record st { timed_out = true }) else none
  select_loop fuel model compute_info timeout total (finished k ∷ arrivals) st = do
    (part, pending) ← take_at k st.pending
    result ← check_part fuel model compute_info part
    let st' = record st { all_ok = st.all_ok && result; count = st.count + 1; pending = pending }
    let rest = select_loop fuel model compute_info timeout total arrivals st'
    if (not st'.all_ok && not compute_info) || leb total st'.count then some st' else rest

  -- The first result of `checkParallel`. The other is for the visualization.
  unfoldable pub check_parallel :
      ℕ → Model V S → List (List (Entry V)) → Bool → ℕ → List Arrival → Option CheckResult
  unfolding select_loop verdict
  check_parallel fuel model history compute_info timeout arrivals = do
    st ←
        select_loop fuel model compute_info timeout (length history) arrivals
          (record { all_ok = true; timed_out = false; count = 0; pending = history })
    some (verdict st)

  unfoldable pub check_events :
      ℕ → (S → S → Bool) → Model V S → List (Event V) → Bool → ℕ → List Arrival → Option CheckResult
  unfolding check_parallel fill_default
  check_events fuel shallow_equal model history verbose timeout arrivals = do
    let filled = fill_default shallow_equal model
    partition_event ← filled.partition_event
    let l = map (λ part. convert_entries (renumber part)) (partition_event history)
    check_parallel fuel filled l verbose timeout arrivals

  -- `sort` stands for sort.Sort.
  unfoldable pub check_operations :
      ℕ
      → (S → S → Bool)
      → ((Entry V → Entry V → Bool) → List (Entry V) → List (Entry V))
      → Model V S
      → List (Operation V V)
      → Bool
      → ℕ
      → List Arrival
      → Option CheckResult
  unfolding check_parallel fill_default
  check_operations fuel shallow_equal sort model history verbose timeout arrivals = do
    let filled = fill_default shallow_equal model
    partition ← filled.partition
    let l = map (make_entries sort) (partition history)
    check_parallel fuel filled l verbose timeout arrivals
