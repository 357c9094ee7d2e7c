-- ===== src/Porcupine/Verdicts.antt =====
-- src/porcupine/checker.go and porcupine.go: what the results of the checker mean.
use mit_distributed_systems.Prelude.{
  Every, ℕ, ◌<◌, ◌≤◌, ◌≡◌, ◌↔◌, ◌⊎◌, refl, subst, List, [], ◌∷◌, length, Bool, true, false,
  Bool-cases, some, inl, inr, arith, if◌then◌else◌, >>=-eq-some,
}
use mit_distributed_systems.Porcupine.History.{Entry}
use mit_distributed_systems.Porcupine.Items.{numbered}
use mit_distributed_systems.Porcupine.Linear.{Linearizable}
use mit_distributed_systems.Porcupine.Exact.Check.{IsComplete, rounds}
use mit_distributed_systems.Porcupine.Exact.Verdict.{check_single-Linearizable}
use mit_distributed_systems.Porcupine.Parallel.{
  Model, CheckResult, unknown, ok, illegal, Arrival, Loop, or_default, verdict, check_part,
  fill_default, check_parallel, select_loop,
}
use mit_distributed_systems.Porcupine.Selecting.{
  Serves, Checked, Means, select_loop-Means, select_loop-Ended,
}

-- The histories that the search decides with `fuel` rounds.
pub record IsCheckable {V : Type 0} (fuel : ℕ) (part : List (Entry V)) : Type 0 where
  pub operations : ℕ
  pub complete : IsComplete operations part
  pub enough : rounds operations ≤ fuel

module _ {V S : Type 0} (fuel : ℕ) (shallow_equal : S → S → Bool) (model : Model V S) where
  -- The tests that the checker uses for states, and its parts.
  abbrev pub equal_of : S → S → Bool
  equal_of = or_default model.equal shallow_equal

  abbrev pub IsLinear : List (Entry V) → Type 0
  IsLinear part = Linearizable model.step model.init (numbered 0 part)

  abbrev filled : Model V S
  filled = fill_default shallow_equal model

  module _ (eq_iff : (a b : S) → (equal_of a b ≡ true) ↔ (a ≡ b)) (compute_info : Bool) where
    check_part-Checked :
        (timeout total : ℕ) (part : List (Entry V))
        → IsCheckable fuel part
        → Checked fuel filled compute_info timeout total IsLinear part
    unfolding check_part fill_default
    check_part-Checked timeout total part v =
        let (answer, l, is, means) =
          check_single-Linearizable model.step equal_of eq_iff fuel v.operations model.init part
            compute_info (λ i. false) v.complete (λ i. refl) v.enough in
        record { answer = answer; is = rw is refl; means = means }

    Every-Checked :
        (timeout total : ℕ) (parts : List (List (Entry V)))
        → Every (IsCheckable fuel) parts
        → Every (Checked fuel filled compute_info timeout total IsLinear) parts
    Every-Checked timeout total [] v = tt
    Every-Checked timeout total (p ∷ parts) (here, there) =
        (check_part-Checked timeout total p here, Every-Checked timeout total parts there)

    abbrev first_loop : List (List (Entry V)) → Loop V
    first_loop parts = record { all_ok = true; timed_out = false; count = 0; pending = parts }

    -- What a result says.
    abbrev pub Decides : ℕ → List (List (Entry V)) → CheckResult → Type 0
    Decides timeout parts r =
        ((r ≡ ok) × Every IsLinear parts)
        ⊎ (((r ≡ illegal) × (¬ (Every IsLinear parts))) ⊎ ((r ≡ unknown) × (0 < timeout)))

    verdict-Decides :
        (timeout : ℕ) (parts : List (List (Entry V))) (last : Loop V)
        → Means fuel filled compute_info timeout (length parts) IsLinear (first_loop parts) last
        → Decides timeout parts (verdict last)
    unfolding verdict
    verdict-Decides timeout parts last m = elim (Bool-cases last.all_ok) [
      | inr bad ↦ inr (inl (ground (arith, bad), λ every. m.no bad refl every))
      | inl good ↦ elim (Bool-cases last.timed_out) [
        | inr in_time ↦ inl (ground (arith, good, in_time), (m.yes good in_time).1)
        | inl late ↦ inr (
            inr (ground (arith, good, late), elim (m.late late) [ inl f ↦ cc | inr limit ↦ limit ]))
      ]
    ]

    pub check_parallel-Decides :
        (timeout : ℕ) (parts : List (List (Entry V))) (arrivals : List Arrival) (r : CheckResult)
        → Every (IsCheckable fuel) parts
        → check_parallel fuel filled parts compute_info timeout arrivals ≡ some r
        → Decides timeout parts r
    unfolding check_parallel
    check_parallel-Decides timeout parts arrivals r v e =
        let (last, is, same) =
          >>=-eq-some
            (select_loop fuel filled compute_info timeout (length parts) arrivals
              (first_loop parts))
            (λ st. some (verdict st)) e in
        let here : verdict last ≡ r = cc in
        subst (Decides timeout parts) here (
          verdict-Decides timeout parts last (
            select_loop-Means fuel filled compute_info timeout (length parts) IsLinear arrivals
              (first_loop parts) last (Every-Checked timeout (length parts) parts v) (omega arith)
              is))

    pub check_parallel_answers :
        (timeout : ℕ) (parts : List (List (Entry V))) (arrivals : List Arrival)
        → Every (IsCheckable fuel) parts
        → 0 < length parts
        → Serves (length parts) arrivals
        → (good : Bool) × (check_parallel fuel filled parts compute_info timeout arrivals
            ≡ some (if good then ok else illegal))
    unfolding check_parallel verdict
    check_parallel_answers timeout parts arrivals v some_part sv =
        let s =
          select_loop-Ended fuel filled compute_info timeout (length parts) IsLinear arrivals
            (first_loop parts) (Every-Checked timeout (length parts) parts v) (omega arith)
            some_part sv in
        (s.last.all_ok, rw s.is (ground (arith, s.in_time)))
