-- ===== src/Raft/Apply.antt =====
-- src/raft/raft.go: what CommitChecker sends to the service.
use mit_distributed_systems.Prelude.{
  ◌≤◌, ◌-◌, ℕ, zero, suc, ◌+◌, ◌<◌, ◌≡◌, refl, List, [], ◌∷◌, true, Option, some, length, get_elem?,
  arith, get_elem?-eq_some_of_lt, >>=-eq-some,
}
use mit_distributed_systems.Raft.State.{Raft, LogEntry, ApplyMsg}
use mit_distributed_systems.Raft.Replication.{commit_checker, apply_entries}

module _ {Command : Type 0} where
  -- The messages for the entries `i`, `i + 1`, … of a log.
  abbrev pub Announces : List (LogEntry Command) → ℕ → List (ApplyMsg (Option Command)) → Type 0
  Announces log i [] = Unit {0}
  Announces log i (m ∷ msgs) =
      (m.command_valid ≡ true)
      × (m.command_index ≡ i)
      × ((e : LogEntry Command) × (get_elem? log i ≡ some e) × (m.command ≡ e.command))
      × Announces log (i + 1) msgs

  pub apply_entries-frame :
      (left : ℕ) (s : Raft Command) {t : Raft Command} {msgs : List (ApplyMsg (Option Command))}
      → apply_entries left s ≡ some (t, msgs)
      → t ≡ record s { last_applied = s.last_applied + left }
  unfolding apply_entries
  apply_entries-frame zero s h = ground arith
  apply_entries-frame (suc left) s h =
      let (e, at, h') = >>=-eq-some (get_elem? s.log (s.last_applied + 1)) _ h in
      let (r, run, h'') =
        >>=-eq-some (apply_entries left (record s { last_applied = s.last_applied + 1 })) _ h' in
      let ih =
        apply_entries-frame left (record s { last_applied = s.last_applied + 1 }) {t = r.0}
          {msgs = r.1} run in
      ground (arith, ih)

  -- With enough log the loop does not panic, and sends the next `left` entries in order.
  apply_entries_total :
      (left : ℕ) (s : Raft Command)
      → s.last_applied + left < length s.log
      → (msgs : List (ApplyMsg (Option Command))) × (apply_entries left s
          ≡ some (record s { last_applied = s.last_applied + left }, msgs))
        × (length msgs ≡ left)
        × Announces s.log (s.last_applied + 1) msgs
  unfolding apply_entries
  apply_entries_total zero s h = ([], ground arith, refl, tt)
  apply_entries_total (suc left) s h =
      let (e, at) = get_elem?-eq_some_of_lt s.log (s.last_applied + 1) (omega arith) in
      let (msgs, run, size, says) =
        apply_entries_total left (record s { last_applied = s.last_applied + 1 }) (omega arith) in
      (
        record { command_valid = true; command = e.command; command_index = s.last_applied + 1 }
            ∷ msgs,
        ground arith,
        ground arith,
        (refl, refl, (e, at, refl), says),
      )

  pub commit_checker-frame :
      (s : Raft Command) {t : Raft Command} {msgs : List (ApplyMsg (Option Command))}
      → commit_checker s ≡ some (t, msgs)
      → t ≡ record s { last_applied = s.last_applied + (s.commit_index - s.last_applied) }
  unfolding commit_checker
  commit_checker-frame s h = apply_entries-frame (s.commit_index - s.last_applied) s h

  -- With lastApplied ≤ commitIndex < len(log), a round of CommitChecker does not panic, sends one valid
  -- message for each entry behind lastApplied up to commitIndex, in order, with its index and command,
  -- and sets lastApplied to commitIndex.
  pub commit_checker-Announces :
      (s : Raft Command)
      → s.last_applied ≤ s.commit_index
      → s.commit_index < length s.log
      → (msgs : List (ApplyMsg (Option Command))) × (commit_checker s
          ≡ some (record s { last_applied = s.commit_index }, msgs))
        × (length msgs ≡ s.commit_index - s.last_applied)
        × Announces s.log (s.last_applied + 1) msgs
  unfolding commit_checker
  commit_checker-Announces s h k =
      let (msgs, run, size, says) =
        apply_entries_total (s.commit_index - s.last_applied) s (omega arith) in
      (msgs, ground (arith, run), size, says)
