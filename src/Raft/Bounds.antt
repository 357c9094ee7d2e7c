-- ===== src/Raft/Bounds.antt =====
-- src/raft/raft.go: the commit index stays inside the log and above what is applied, as long as no
-- message cuts a committed entry.
use mit_distributed_systems.Prelude.{
  ℕ, ◌+◌, ◌<◌, ◌≤◌, ◌≡◌, List, [], ◌∷◌, true, some, length, take, arith, length-append, length-take,
}
use mit_distributed_systems.Raft.State.{
  Raft, LogEntry, AppendEntriesArgs, AppendEntriesReply, start, kill, convert_to_follower,
}
use mit_distributed_systems.Raft.Election.{
  request_vote, kick_off_election, handle_request_vote, collect_vote,
}
use mit_distributed_systems.Raft.Replication.{
  append_entries, append_to_log, conflicts, handle_append_entries, record_match,
}
use mit_distributed_systems.Raft.Steps.{
  Step, vote_requested, entries_received, election_kicked_off, vote_replied, vote_collected,
  command_started, entries_replied, entries_applied, peer_killed,
}
use mit_distributed_systems.Raft.Commit.{record_match-frame, record_match-MovesUpTo}
use mit_distributed_systems.Raft.Apply.{commit_checker-frame}
use mit_distributed_systems.Raft.Retreat.{retreat-frame}

module _ {Command : Type 0} where
  pub record IsBounded (rf : Raft Command) : Type 0 where
    pub applied : rf.last_applied ≤ rf.commit_index
    pub committed : rf.commit_index < length rf.log

  -- A message that makes the peer cut its log cuts behind the commit index.
  abbrev pub SparesCommitted : Raft Command → AppendEntriesArgs Command → Type 0
  SparesCommitted rf args =
      conflicts rf.log args.prev_log_index args.entries ≡ true
      → rf.commit_index ≤ args.prev_log_index

  length-append_to_log :
      (log : List (LogEntry Command)) (prev : ℕ) (entries : List (LogEntry Command)) (commit : ℕ)
      → commit < length log
      → (conflicts log prev entries ≡ true → commit ≤ prev)
      → commit < length (append_to_log log prev entries)
  unfolding append_to_log
  length-append_to_log log prev entries commit h spares = ground (
    arith,
    length-append (take (prev + 1) log) entries,
    length-append log entries,
    length-take (prev + 1) log,
  )

  append_entries-IsBounded :
      (now : ℕ) (s : Raft Command) (args : AppendEntriesArgs Command) {t : Raft Command}
      {reply : AppendEntriesReply}
      → SparesCommitted s args
      → IsBounded s
      → append_entries now s args ≡ some (t, reply)
      → IsBounded t × (s.commit_index ≤ t.commit_index)
  unfolding append_entries
  append_entries-IsBounded now s args spares v h =
      ground (arith, length-append_to_log s.log args.prev_log_index args.entries s.commit_index)

  record_match-IsBounded :
      (s : Raft Command) (server : ℕ) (args : AppendEntriesArgs Command) {t : Raft Command}
      → IsBounded s
      → record_match s server args ≡ some t
      → IsBounded t × (s.commit_index ≤ t.commit_index)
  record_match-IsBounded s server args {t} v h =
      ground (arith, record_match-frame s server args h, record_match-MovesUpTo s server args h)

  handle_append_entries-IsBounded :
      (now : ℕ) (s : Raft Command) (server : ℕ) (args : AppendEntriesArgs Command)
      (reply : AppendEntriesReply) {t : Raft Command}
      → IsBounded s
      → handle_append_entries now s server args reply ≡ some t
      → IsBounded t × (s.commit_index ≤ t.commit_index)
  unfolding handle_append_entries
  handle_append_entries-IsBounded now s server args reply {t} v h =
      ground
        (arith, record_match-IsBounded s server args {t = t}, retreat-frame s server reply {t = t})

  -- What the step needs of the message that it works on.
  abbrev pub Spares : {s t : Raft Command} → Step s t → Type 0
  Spares (entries_received {rf} now args h) = SparesCommitted rf args
  Spares _ = Unit {0}

  -- A critical section keeps lastApplied ≤ commitIndex < len(log), and does not lower commitIndex, if
  -- an AppendEntries message that makes the peer cut its log does not cut below commitIndex.
  pub Step-IsBounded :
      {s t : Raft Command} (st : Step s t)
      → Spares st
      → IsBounded s
      → IsBounded t × (s.commit_index ≤ t.commit_index)
  Step-IsBounded (vote_requested {rf} now args h) sp v = unfold request_vote in ground arith
  Step-IsBounded (entries_received {rf} now args h) sp v =
      append_entries-IsBounded now rf args sp v h
  Step-IsBounded (election_kicked_off {rf} now h) sp v = unfold kick_off_election in ground arith
  Step-IsBounded (vote_replied rf now args reply) sp v =
      unfold handle_request_vote convert_to_follower in ground arith
  Step-IsBounded (vote_collected rf votes vote) sp v = unfold collect_vote in ground arith
  Step-IsBounded (command_started rf command) sp v =
      unfold start in
      ground (
        arith,
        length-append rf.log
            (record { command = some command; term = rf.current_term; index = 0 } ∷ []),
      )
  Step-IsBounded (entries_replied {rf} now server args reply h) sp v =
      handle_append_entries-IsBounded now rf server args reply v h
  Step-IsBounded (entries_applied {rf} h) sp v =
      let e = commit_checker-frame rf h in
      rw e (record { applied = omega (arith, v.applied); committed = v.committed }, omega arith)
  Step-IsBounded (peer_killed rf) sp v = unfold kill in ground arith
