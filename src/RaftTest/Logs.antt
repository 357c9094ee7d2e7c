-- ===== src/RaftTest/Logs.antt =====
-- src/raft/config.go: the logs of applied entries that the tests keep for each server. `eq` is Go's ==
-- on commands, and `none` is a fatal error. applyErr is left out: log.Fatalf ends the program before
-- the line that sets it.
use mit_distributed_systems.Prelude.{
  ℕ, zero, suc, ◌+◌, ◌-◌, Bool, true, false, not, ◌&&◌, ◌||◌, Option, none, some, ltb, update,
  if◌then◌else◌, ◌>>=◌,
}
use mit_distributed_systems.Raft.State.{ApplyMsg}

pub record Logs (V : Type 0) : Type 0 where
  pub n : ℕ
  pub logs : ℕ → ℕ → Option V
  pub max_index : ℕ

abbrev pub is_some : {A : Type 0} → Option A → Bool
is_some none = false
is_some (some a) = true

module _ {V : Type 0} (eq : V → V → Bool) where
  -- `old, oldok := ...; oldok && old != v`
  abbrev pub differs : Option V → V → Bool
  differs none v = false
  differs (some old) v = not (eq old v)

  -- The loop of `checkLogs`, over the first `j` servers: whether it sets the error.
  unfoldable pub any_differs : (ℕ → ℕ → Option V) → ℕ → ℕ → V → Bool
  any_differs logs zero index v = false
  any_differs logs (suc j) index v = any_differs logs j index v || differs (logs j index) v

  -- The error is a Boolean. The index -1 has no entry, and nobody asks then.
  unfoldable pub check_logs : Logs V → ℕ → ApplyMsg V → Logs V × (Bool × Bool)
  unfolding any_differs
  check_logs cfg i m =
      let index = m.command_index in
      (
        record cfg {
          logs = update cfg.logs i (update (cfg.logs i) index (some m.command));
          max_index = if ltb cfg.max_index index then index else cfg.max_index;
        },
        (any_differs cfg.logs cfg.n index m.command, is_some (cfg.logs i (index - 1))),
      )

  -- One round of the loop of `applier`.
  unfoldable pub applier : Logs V → ℕ → ApplyMsg V → Option (Logs V)
  unfolding check_logs
  applier cfg i m =
      if not m.command_valid
      then some cfg
      else (let (cfg', (err, prevok)) = check_logs cfg i m in
          if err || (ltb 1 m.command_index && not prevok) then none else some cfg')

  -- One round of the loop of `nCommitted`, with the entry of one server.
  abbrev pub count_entry : ℕ × Option V → Option V → Option (ℕ × Option V)
  count_entry acc none = some acc
  count_entry (count, none) (some cmd1) = some (count + 1, some cmd1)
  count_entry (count, some cmd) (some cmd1) =
      if ltb 0 count && not (eq cmd cmd1) then none else some (count + 1, some cmd1)

  unfoldable pub committed_of : (ℕ → ℕ → Option V) → ℕ → ℕ → Option (ℕ × Option V)
  committed_of logs zero index = some (0, none)
  committed_of logs (suc i) index = do
    acc ← committed_of logs i index
    count_entry acc (logs i index)

  unfoldable pub n_committed : Logs V → ℕ → Option (ℕ × Option V)
  unfolding committed_of
  n_committed cfg index = committed_of cfg.logs cfg.n index
