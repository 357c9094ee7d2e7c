-- ===== src/Porcupine/Operations.antt =====
-- src/porcupine/porcupine.go: what the answers of CheckOperations and CheckEvents mean.
use mit_distributed_systems.Prelude.{
  ◌/◌, ◌≤◌, Every, ℕ, suc, ◌<◌, ◌≡◌, ◌↔◌, ◌⊎◌, refl, sym, subst, ap, ◌∙◌, List, [], ◌∷◌, length,
  map, Bool, true, false, none, some, inl, inr, arith, if◌then◌else◌, ◌>>=◌,
}
use mit_distributed_systems.Models.Kv.{Operation}
use mit_distributed_systems.Porcupine.History.{
  Event, Entry, make_entries, renumber, convert_entries, no_partition, no_partition_event,
}
use mit_distributed_systems.Porcupine.Parallel.{
  Model, CheckResult, unknown, ok, illegal, Arrival, or_default, fill_default, check_parallel,
  finished, time_out, select_loop, take_at,
}
use mit_distributed_systems.Porcupine.Exact.Check.{rounds}
use mit_distributed_systems.Porcupine.Sorted.{IsSort, EndsLater, make_entries-IsComplete}
use mit_distributed_systems.Porcupine.Orders.{Orders, make_entries-Orders}
use mit_distributed_systems.Porcupine.Balanced.{IsBalanced}
use mit_distributed_systems.Porcupine.Parallel
use mit_distributed_systems.Porcupine.Api
use mit_distributed_systems.Porcupine.Selecting.{Serves}
use mit_distributed_systems.Porcupine.Verdicts.{
  IsCheckable, equal_of, IsLinear, check_parallel-Decides, check_parallel_answers,
}

length-map : {A B : Type 0} (f : A → B) (xs : List A) → length (map f xs) ≡ length xs
length-map f [] = refl
length-map f (x ∷ xs) = ap (λ n. suc n) (length-map f xs)

module _ {V S : Type 0} (fuel : ℕ) (shallow_equal : S → S → Bool) (model : Model V S) where
  abbrev pub event_parts : List (Event V) → List (List (Entry V))
  event_parts history =
      map (λ part. convert_entries (renumber part))
        (or_default model.partition_event no_partition_event history)

  abbrev operation_parts :
      ((Entry V → Entry V → Bool) → List (Entry V) → List (Entry V))
      → List (Operation V V)
      → List (List (Entry V))
  operation_parts sort history =
      map (make_entries sort) (or_default model.partition no_partition history)

  -- The operations of a part can be put in an order that the model accepts and that keeps each
  -- operation in front of those that are called after its return.
  abbrev pub IsLinearPart : List (Operation V V) → Type 0
  IsLinearPart part = Orders model.step part model.init (λ i. true)

  -- All parts of a history.
  abbrev pub AllLinear : List (Operation V V) → Type 0
  AllLinear history = Every IsLinearPart (or_default model.partition no_partition history)

  -- The partition of a history: each operation of a part returns no earlier than it is called, and
  -- there are enough rounds for the part.
  abbrev pub IsTimed : List (Operation V V) → Type 0
  IsTimed part = Every EndsLater part × (rounds (length part) ≤ fuel)

  Every-IsCheckable :
      (sort : (Entry V → Entry V → Bool) → List (Entry V) → List (Entry V))
      (parts : List (List (Operation V V)))
      → IsSort sort
      → Every IsTimed parts
      → Every (IsCheckable fuel) (map (make_entries sort) parts)
  Every-IsCheckable sort [] v h = tt
  Every-IsCheckable sort (part ∷ parts) v ((ends, enough), h) = (
    record {
      operations = length part;
      complete = make_entries-IsComplete sort part v ends;
      enough = enough;
    },
    Every-IsCheckable sort parts v h,
  )

  -- The like for events: each identifier of a part has one call and then one return.
  abbrev pub IsBalancedPart : List (Event V) → Type 0
  IsBalancedPart part = IsBalanced part × (rounds (length part / 2) ≤ fuel)

  -- The parts' entries are linearizable exactly if their operations are.
  entries-IsLinearPart :
      (sort : (Entry V → Entry V → Bool) → List (Entry V) → List (Entry V))
      (parts : List (List (Operation V V)))
      → IsSort sort
      → Every IsTimed parts
      → Every (IsLinear fuel shallow_equal model) (map (make_entries sort) parts)
        ↔ Every IsLinearPart parts
  entries-IsLinearPart sort [] v h = (λ t. tt, λ t. tt)
  entries-IsLinearPart sort (part ∷ parts) v ((ends, enough), h) =
      let here = make_entries-Orders model.step sort part model.init v ends in
      let there = entries-IsLinearPart sort parts v h in
      (λ t. (here.0 t.0, there.0 t.1), λ t. (here.1 t.0, there.1 t.1))

  -- Whatever the time limit, whatever the order in which the goroutines end and wherever the limit
  -- comes between them, an answer of checkOperations is Ok with the operations of every part of the
  -- history linearizable, or Illegal with those of some part not, or Unknown with a time limit. They are
  -- linearizable if they can be put in an order that the model accepts, each input with its output, in
  -- which each is called no later than any that follows it returns. No operation of a part returns
  -- before it is called, there are enough rounds for each part, sort.Sort permutes the entries so that
  -- none is less than one in front of it, and the model's test of states decides equality.
  pub check_operations-Decides :
      (sort : (Entry V → Entry V → Bool) → List (Entry V) → List (Entry V))
      (history : List (Operation V V)) (verbose : Bool) (timeout : ℕ) (arrivals : List Arrival)
      (r : CheckResult)
      → IsSort sort
      → ((a b : S) → (equal_of fuel shallow_equal model a b ≡ true) ↔ (a ≡ b))
      → Every IsTimed (or_default model.partition no_partition history)
      → Parallel.check_operations fuel shallow_equal sort model history verbose timeout arrivals
        ≡ some r
      → ((r ≡ ok) × AllLinear history)
        ⊎ (((r ≡ illegal) × (¬ (AllLinear history))) ⊎ ((r ≡ unknown) × (0 < timeout)))
  unfolding Parallel.check_operations fill_default
  check_operations-Decides sort history verbose timeout arrivals r sorts eq_iff v e =
      let parts = or_default model.partition no_partition history in
      let same = entries-IsLinearPart sort parts sorts v in
      elim (check_parallel-Decides fuel shallow_equal model eq_iff verbose timeout
        (operation_parts sort history) arrivals r (Every-IsCheckable sort parts sorts v) e) [
          | inl (is, every) ↦ inl (is, same.0 every)
          | inr (inl (is, not_every)) ↦ inr (inl (is, λ every. not_every (same.1 every)))
          | inr (inr limit) ↦ inr (inr limit)
        ]

  decided :
      (parts : List (List (Entry V))) (arrivals : List Arrival)
      → ((a b : S) → (equal_of fuel shallow_equal model a b ≡ true) ↔ (a ≡ b))
      → Every (IsCheckable fuel) parts
      → 0 < length parts
      → Serves (length parts) arrivals
      → (b : Bool) × (check_parallel fuel (fill_default shallow_equal model) parts false 0 arrivals
          ≡ some (if b then ok else illegal))
        × ((b ≡ true) ↔ Every (IsLinear fuel shallow_equal model) parts)
  decided parts arrivals eq_iff v some_part sv =
      let (b, is) =
        check_parallel_answers fuel shallow_equal model eq_iff false 0 parts arrivals v some_part
          sv in
      elim (check_parallel-Decides fuel shallow_equal model eq_iff false 0 parts arrivals
        (if b then ok else illegal) v is) [
          | inl (same, every) ↦
              let good : b ≡ true = ground (arith, same) in (b, is, (λ t. every, λ e. good))
          | inr (inl (same, not_every)) ↦
              let bad : b ≡ false = ground (arith, same) in
              (b, is, (λ t. absurd (ground (arith, t, bad)), λ e. absurd (not_every e)))
          | inr (inr (same, limit)) ↦ absurd (omega (arith, limit))
        ]

  ok_of : (b : Bool) → some (Api.is_ok (if b then ok else illegal)) ≡ some b
  ok_of true = refl
  ok_of false = refl

  -- CheckOperations answers, whatever the order in which the goroutines of its parts end, and it
  -- answers true exactly if the operations of every part of the history are linearizable: they can be
  -- put in an order that the model accepts, each input with its output, in which each is called no later
  -- than any that follows it returns. There is a part, no operation returns before it is called, there
  -- are enough rounds for each part, sort.Sort permutes the entries so that none is less than one in
  -- front of it, and the model's test of states decides equality.
  pub check_operations_decides :
      (sort : (Entry V → Entry V → Bool) → List (Entry V) → List (Entry V))
      (history : List (Operation V V)) (arrivals : List Arrival)
      → IsSort sort
      → ((a b : S) → (equal_of fuel shallow_equal model a b ≡ true) ↔ (a ≡ b))
      → Every IsTimed (or_default model.partition no_partition history)
      → 0 < length (or_default model.partition no_partition history)
      → Serves (length (or_default model.partition no_partition history)) arrivals
      → (b : Bool) × (Api.check_operations fuel shallow_equal sort model history arrivals ≡ some b)
        × ((b ≡ true) ↔ AllLinear history)
  unfolding Api.check_operations Parallel.check_operations fill_default
  check_operations_decides sort history arrivals sorts eq_iff v some_part sv =
      let parts = or_default model.partition no_partition history in
      let size = length-map (make_entries sort) parts in
      let same = entries-IsLinearPart sort parts sorts v in
      let (b, is, means) =
        decided (operation_parts sort history) arrivals eq_iff
          (Every-IsCheckable sort parts sorts v) (subst (λ k. 0 < k) (sym size) some_part)
          (subst (λ k. Serves k arrivals) (sym size) sv) in
      (
        b,
        ap (λ o. o >>= (λ res. some (Api.is_ok res))) is ∙ ok_of b,
        (λ t. same.0 (means.0 t), λ every. means.1 (same.1 every)),
      )

  no_part_waits :
      (verbose : Bool) (arrivals : List Arrival)
      → check_parallel fuel (fill_default shallow_equal model) [] verbose 0 arrivals ≡ none
  unfolding check_parallel select_loop take_at
  no_part_waits verbose [] = refl
  no_part_waits verbose (time_out ∷ arrivals) = refl
  no_part_waits verbose (finished k ∷ arrivals) = refl

  -- With no part to check and no time limit, checkOperations waits for a result that never comes:
  -- nothing that the loop may take makes it answer.
  pub check_operations_waits :
      (sort : (Entry V → Entry V → Bool) → List (Entry V) → List (Entry V))
      (history : List (Operation V V)) (verbose : Bool) (arrivals : List Arrival)
      → or_default model.partition no_partition history ≡ []
      → Parallel.check_operations fuel shallow_equal sort model history verbose 0 arrivals ≡ none
  unfolding Parallel.check_operations fill_default
  check_operations_waits sort history verbose arrivals e =
      subst
        (λ parts.
          check_parallel fuel (fill_default shallow_equal model) (map (make_entries sort) parts)
            verbose 0 arrivals
          ≡ none)
        (sym e) (no_part_waits verbose arrivals)
