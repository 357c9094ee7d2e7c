-- ===== src/Raft/Copying.antt =====
-- src/raft/raft.go: how a leader's log gets to a follower, and what a repeated message does.
use native.Mathlib.Numerals.{add-one}
use mit_distributed_systems.Prelude.{
  length-append, dec_lt, leb, if◌then◌else◌, ℕ, suc, ◌+◌, ◌-◌, ◌<◌, ◌≤◌, ◌≡◌, ◌≢◌, refl, ap, ◌∙◌,
  ◌⊎◌, inl, inr, List, [], ◌∷◌, ◌++◌, true, none, some, length, take, drop, arith, append-nil,
  take-append-drop, take_of_length_le, Option-cases,
}
use mit_distributed_systems.Raft.State.{
  term_at-eq_some_of_lt, Raft, LogEntry, AppendEntriesArgs, AppendEntriesReply, term_at,
}
use mit_distributed_systems.Raft.Replication.{
  append_entries, append_to_log, conflicts, heart_beat_args,
}

module _ {Command : Type 0} where
  whole :
      (prev : ℕ) (log : List (LogEntry Command))
      → prev < length log
      → take (prev + 1) log ++ (if leb (suc prev) (length log - 1) then drop (suc prev) log else [])
        ≡ log
  whole prev log h = rw add-one (elim (dec_lt (suc prev) (length log)) [
    | yes more ↦ ground (arith, take-append-drop (suc prev) log)
    | no last ↦ ground (arith, take_of_length_le (suc prev) log (omega arith), append-nil log)
  ])

  -- The message carries the leader's log from `next` on.
  abbrev pub Carries : Raft Command → ℕ → AppendEntriesArgs Command → Type 0
  Carries rf prev args =
      (args.term ≡ rf.current_term)
      × (args.prev_log_index ≡ prev)
      × (term_at rf.log prev ≡ some args.prev_log_term)
      × (take (prev + 1) rf.log ++ args.entries ≡ rf.log)

  pub heart_beat_args-lem :
      (rf : Raft Command) (prev : ℕ)
      → prev < length rf.log
      → (args : AppendEntriesArgs Command) × (heart_beat_args rf (suc prev) ≡ some args)
        × Carries rf prev args
  unfolding heart_beat_args
  heart_beat_args-lem rf prev h =
      let (t, at) = term_at-eq_some_of_lt rf.log prev h in
      (
        record {
          term = rf.current_term;
          leader_id = rf.me;
          prev_log_index = prev;
          prev_log_term = t;
          entries = if leb (suc prev) (length rf.log - 1) then drop (suc prev) rf.log else [];
          leader_commit = rf.commit_index;
        },
        rw at,
        (refl, refl, at, whole prev rf.log h),
      )

  -- A follower whose log ends at the previous entry, or conflicts behind it, keeps what is up to it.
  abbrev pub Replaces : List (LogEntry Command) → ℕ → List (LogEntry Command) → Type 0
  Replaces log prev entries = (length log ≡ prev + 1) ⊎ (conflicts log prev entries ≡ true)

  append_to_log-repeated :
      (log : List (LogEntry Command)) (prev : ℕ) (e : LogEntry Command)
      (entries : List (LogEntry Command))
      → term_at log (prev + 1) ≡ some e.term
      → append_to_log log prev (e ∷ entries) ≡ log ++ e ∷ entries
  unfolding append_to_log
  append_to_log-repeated log prev e entries h = ground arith

  append_entries_accepts :
      (now : ℕ) (f : Raft Command) (args : AppendEntriesArgs Command)
      → f.current_term ≤ args.term
      → term_at f.log args.prev_log_index ≡ some args.prev_log_term
      → append_entries now f args ≢ none
  unfolding append_entries
  append_entries_accepts now f args h at = ground arith

  append_entries-log :
      (now : ℕ) (f : Raft Command) (args : AppendEntriesArgs Command)
      → f.current_term ≤ args.term
      → term_at f.log args.prev_log_index ≡ some args.prev_log_term
      → (r : Raft Command × AppendEntriesReply) × (append_entries now f args ≡ some r)
        × (r.0.log ≡ append_to_log f.log args.prev_log_index args.entries)
        × (r.1.success ≡ true)
        × (r.0.current_term ≡ args.term)
  unfolding append_entries
  append_entries-log now f args h at = elim (Option-cases (append_entries now f args)) [
    | inl e ↦ absurd (append_entries_accepts now f args h at e)
    | inr (r, e) ↦ (r, e, ground arith, ground arith, ground arith)
  ]

  -- A message of no earlier term, whose previous entry matches and whose first entry is already in
  -- place, succeeds and appends all its entries once more, so that the log changes.
  pub append_entries-repeated :
      (now : ℕ) (f : Raft Command) (args : AppendEntriesArgs Command) (e : LogEntry Command)
      (rest : List (LogEntry Command))
      → f.current_term ≤ args.term
      → term_at f.log args.prev_log_index ≡ some args.prev_log_term
      → args.entries ≡ e ∷ rest
      → term_at f.log (args.prev_log_index + 1) ≡ some e.term
      → (r : Raft Command × AppendEntriesReply) × (append_entries now f args ≡ some r)
        × (r.1.success ≡ true)
        × (r.0.log ≡ f.log ++ args.entries)
        × (r.0.log ≢ f.log)
  append_entries-repeated now f args e rest term at has there =
      let (r, run, log, ok, _) = append_entries-log now f args term at in
      let doubled : r.0.log ≡ f.log ++ args.entries =
        log ∙ rw has (append_to_log-repeated f.log args.prev_log_index e rest there) in
      (
        r,
        run,
        ok,
        doubled,
        λ same. omega (
          arith,
          ap length doubled,
          ap length same,
          length-append f.log args.entries,
          ap length has,
        ),
      )
