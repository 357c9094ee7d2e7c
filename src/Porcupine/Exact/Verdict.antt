-- ===== src/Porcupine/Exact/Verdict.antt =====
-- src/porcupine/checker.go: what the answer of checkSingle means.
use mit_distributed_systems.Prelude.{
  ℕ, ◌≤◌, ◌≡◌, ◌↔◌, ◌∙◌, List, Bool, true, false, Option, some, ℤ,
}
use mit_distributed_systems.Porcupine.History.{Entry}
use mit_distributed_systems.Porcupine.Items.{numbered}
use mit_distributed_systems.Porcupine.Search.{check_single, start_links}
use mit_distributed_systems.Porcupine.Reference.{linearize}
use mit_distributed_systems.Porcupine.Linear.{Linearizable, linearize_iff}
use mit_distributed_systems.Porcupine.Exact.Check.{
  IsComplete, rounds, check_single-linearize, start_links-Started, Holds-IsPaired, length-numbered,
}

module _ {V S : Type 0} (step : S → V → V → Bool × S) (eq : S → S → Bool)
    (eq_iff : (a b : S) → (eq a b ≡ true) ↔ (a ≡ b)) where
  -- On a history of `n` operations, each a call and a return behind it with an identifier of its own
  -- below `n`, with `rounds n` rounds or more and no kill, and with a test `eq` of the model's states
  -- that decides equality, checkSingle does not panic and answers, and it answers true exactly if the
  -- history is linearizable: some operation whose call stands before every return can come first, the
  -- model accepts it, and the rest is linearizable from the state behind it.
  pub check_single-Linearizable :
      (fuel n : ℕ) (init : S) (history : List (Entry V)) (compute : Bool) (kill : ℕ → Bool)
      → IsComplete n history
      → ((i : ℕ) → kill i ≡ false)
      → rounds n ≤ fuel
      → (ok : Bool) × (l : List (Option (List ℤ))) × (check_single step eq fuel init history compute
            kill
          ≡ some (ok, l))
        × ((ok ≡ true) ↔ Linearizable step init (numbered 0 history))
  check_single-Linearizable fuel n init history compute kill v alive h =
      let (l, answer) =
        check_single-linearize step eq eq_iff fuel n init history compute kill v alive h in
      let started = start_links-Started history in
      (
        linearize step n init (numbered 0 history),
        l,
        answer,
        linearize_iff step (start_links history).0 n n init (numbered 0 history)
            (Holds-IsPaired n (start_links history).0 history v started.holds)
            (length-numbered 0 history ∙ v.size),
      )
