-- ===== src/Raft/Health.antt =====
-- src/raft/raft.go: what holds of a peer at all times.
use mit_distributed_systems.Prelude.{
  Bool-cases, ℕ, zero, suc, ◌+◌, ◌-◌, ◌≡◌, refl, ◌⊎◌, inl, inr, pos, List, [], ◌∷◌, ◌++◌, Bool,
  true, some, length, take, arith, length-replicate,
}
use mit_distributed_systems.Raft.State.{
  Raft, LogEntry, RequestVoteArgs, RequestVoteReply, AppendEntriesArgs, AppendEntriesReply,
  is_leader, is_candidate, term_at, start, kill, convert_to_follower,
}
use mit_distributed_systems.Raft.Persister.{Persister}
use mit_distributed_systems.Raft.Election.{
  request_vote, kick_off_election, handle_request_vote, collect_vote,
}
use mit_distributed_systems.Raft.Replication.{
  append_entries, append_to_log, conflicts, handle_append_entries,
}
use mit_distributed_systems.Raft.Steps.{
  make_raft, Step, vote_requested, entries_received, election_kicked_off, vote_replied,
  vote_collected, command_started, entries_replied, entries_applied, peer_killed, Reach, here, next,
}
use native.Mathlib.Numerals.{add-one}
use mit_distributed_systems.Raft.Commit.{record_match-frame, record_match-length}
use mit_distributed_systems.Raft.Apply.{commit_checker-frame}
use mit_distributed_systems.Raft.Steps.{make_raft-fresh}
use mit_distributed_systems.Raft.Retreat.{retreat-frame}

module _ {Command : Type 0} where
  -- The log starts with the entry of term 0 that `Make` puts there, the leader's two slices have an
  -- element for each peer, and a candidate or leader has
  -- voted for itself.
  pub record IsHealthy (rf : Raft Command) : Type 0 where
    pub first : term_at rf.log 0 ≡ some 0
    pub nexts : length rf.next_index ≡ rf.peers
    pub matches : length rf.match_index ≡ rf.peers
    pub own_vote :
        (is_candidate rf.state ≡ true) ⊎ (is_leader rf.state ≡ true) → rf.voted_for ≡ pos rf.me

  term_at-append :
      (log entries : List (LogEntry Command)) (i : ℕ) {t : ℕ}
      → term_at log i ≡ some t
      → term_at (log ++ entries) i ≡ some t
  term_at-append [] entries i h = cc
  term_at-append (e ∷ log) entries zero h = h
  term_at-append (e ∷ log) entries (suc i) h = term_at-append log entries i h

  first-take :
      (log : List (LogEntry Command)) (n : ℕ)
      → term_at log 0 ≡ some 0
      → term_at (take (n + 1) log) 0 ≡ some 0
  first-take [] n h = cc
  first-take (e ∷ log) n h = rw add-one h

  first-append :
      (log : List (LogEntry Command)) (prev : ℕ) (entries : List (LogEntry Command))
      → term_at log 0 ≡ some 0
      → term_at (append_to_log log prev entries) 0 ≡ some 0
  unfolding append_to_log
  first-append log prev entries h = elim (Bool-cases (conflicts log prev entries)) [
    | inl cut ↦ rw cut (term_at-append (take (prev + 1) log) entries 0 (first-take log prev h))
    | inr keep ↦ rw keep (term_at-append log entries 0 h)
  ]

  make_raft-IsHealthy :
      (now peers me : ℕ) (persister : Persister)
      → IsHealthy (make_raft {Command = Command} now peers me persister)
  make_raft-IsHealthy now peers me persister = rw (make_raft-fresh now peers me persister) (record {
    first = refl;
    nexts = length-replicate peers 0;
    matches = length-replicate peers 0;
    own_vote = λ p. ground arith;
  })

  request_vote-IsHealthy :
      (now : ℕ) (s : Raft Command) (args : RequestVoteArgs) {t : Raft Command}
      {reply : RequestVoteReply}
      → IsHealthy s
      → request_vote now s args ≡ some (t, reply)
      → IsHealthy t
  unfolding request_vote
  request_vote-IsHealthy now s args v h = ground (arith, v.own_vote)

  handle_request_vote-IsHealthy :
      (now : ℕ) (s : Raft Command) (args : RequestVoteArgs) (reply : RequestVoteReply)
      → IsHealthy s
      → IsHealthy (handle_request_vote now s args reply).0
  unfolding handle_request_vote convert_to_follower
  handle_request_vote-IsHealthy now s args reply v = ground (arith, v.own_vote)

  collect_vote-IsHealthy :
      (s : Raft Command) (votes : ℕ) (vote : Bool)
      → IsHealthy s
      → IsHealthy (collect_vote s votes vote).0
  unfolding collect_vote
  collect_vote-IsHealthy s votes vote v = ground (
    arith,
    v.own_vote,
    length-replicate s.peers (length s.log - 1 + 1),
    length-replicate {A = ℕ} s.peers 0,
  )

  append_entries-IsHealthy :
      (now : ℕ) (s : Raft Command) (args : AppendEntriesArgs Command) {t : Raft Command}
      {reply : AppendEntriesReply}
      → IsHealthy s
      → append_entries now s args ≡ some (t, reply)
      → IsHealthy t
  unfolding append_entries
  append_entries-IsHealthy now s args v h =
      ground (arith, v.own_vote, first-append s.log args.prev_log_index args.entries)

  handle_append_entries-IsHealthy :
      (now : ℕ) (s : Raft Command) (server : ℕ) (args : AppendEntriesArgs Command)
      (reply : AppendEntriesReply) {t : Raft Command}
      → IsHealthy s
      → handle_append_entries now s server args reply ≡ some t
      → IsHealthy t
  unfolding handle_append_entries
  handle_append_entries-IsHealthy now s server args reply {t} v h = ground (
    arith,
    v.own_vote,
    record_match-frame s server args {t = t},
    record_match-length s server args {t = t},
    retreat-frame s server reply {t = t},
  )

  pub Step-IsHealthy : {s t : Raft Command} → Step s t → IsHealthy s → IsHealthy t
  Step-IsHealthy (vote_requested {rf} now args h) v = request_vote-IsHealthy now rf args v h
  Step-IsHealthy (entries_received {rf} now args h) v = append_entries-IsHealthy now rf args v h
  Step-IsHealthy (election_kicked_off {rf} now h) v =
      unfold kick_off_election in ground (arith, v.own_vote)
  Step-IsHealthy (vote_replied rf now args reply) v =
      handle_request_vote-IsHealthy now rf args reply v
  Step-IsHealthy (vote_collected rf votes vote) v = collect_vote-IsHealthy rf votes vote v
  Step-IsHealthy (command_started rf command) v =
      unfold start in
      ground (
        arith,
        v.own_vote,
        term_at-append rf.log
            (record { command = some command; term = rf.current_term; index = 0 } ∷ []) 0 v.first,
      )
  Step-IsHealthy (entries_replied {rf} now server args reply h) v =
      handle_append_entries-IsHealthy now rf server args reply v h
  Step-IsHealthy (entries_applied {rf} h) v =
      let e = commit_checker-frame rf h in
      rw e (record { first = v.first; nexts = v.nexts; matches = v.matches; own_vote = v.own_vote })
  Step-IsHealthy (peer_killed rf) v = unfold kill in ground (arith, v.own_vote)

  -- In every state that a peer reaches from `Make`, the log starts with the entry of term 0, nextIndex
  -- and matchIndex have an element for each peer, and a candidate or leader has voted for itself.
  pub Reach-IsHealthy :
      (now peers me : ℕ) (persister : Persister) {t : Raft Command}
      → Reach (make_raft now peers me persister) t
      → IsHealthy t
  Reach-IsHealthy now peers me persister here = make_raft-IsHealthy now peers me persister
  Reach-IsHealthy now peers me persister (next r st) =
      Step-IsHealthy st (Reach-IsHealthy now peers me persister r)
