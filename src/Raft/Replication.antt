-- ===== src/Raft/Replication.antt =====
-- src/raft/raft.go: AppendEntries, the leader's heartbeats, what it does with the replies, and
-- CommitChecker. Each function is one critical section under `mu`.
use mit_distributed_systems.Prelude.{
  negsuc, ℕ, zero, suc, ◌+◌, ◌-◌, ◌/◌, ℤ, pos, minus_one, ◌==ℤ◌, List, [], ◌∷◌, ◌++◌, Bool, true,
  false, ◌&&◌, not, Option, none, some, length, get_elem?, take, drop, set?, ltb, leb, ◌==◌,
  if◌then◌else◌, ◌>>=◌,
}
use mit_distributed_systems.Raft.State.{
  Raft, LogEntry, AppendEntriesArgs, AppendEntriesReply, ApplyMsg, is_leader, min, term_at,
  get_last_log_index, convert_to_follower,
}
use mit_distributed_systems.Raft.Election.{adopt_term}

module _ {Command : Type 0} where
  -- The loop that sets `ConflictIndex`: down from `i`, the first entry of another term. A reply whose
  -- loop ends without one keeps its 0.
  unfoldable pub conflict_start : List (LogEntry Command) → ℕ → ℕ → Option ℕ
  conflict_start log term zero = do t ← term_at log zero; some (if t == term then 0 else 1)
  conflict_start log term (suc i) = do
    t ← term_at log (suc i)
    if t == term then conflict_start log term i else some (suc i + 1)

  -- The reply to an `AppendEntries` whose previous entry is missing or of another term.
  unfoldable pub decline : Raft Command → ℕ → Option AppendEntriesReply
  unfolding conflict_start
  decline rf prev =
      if leb (length rf.log) prev
      then some (record {
        term = rf.current_term;
        success = false;
        conflict_index = length rf.log;
        conflict_term = minus_one;
      })
      else (do
        t ← term_at rf.log prev
        i ← conflict_start rf.log t prev
        some (record {
          term = rf.current_term;
          success = false;
          conflict_index = i;
          conflict_term = pos t;
        }))

  -- Whether the entry behind `prev` is there and of another term than the first new one.
  unfoldable pub conflicts : List (LogEntry Command) → ℕ → List (LogEntry Command) → Bool
  conflicts log prev [] = false
  conflicts log prev (e ∷ entries) = elim (term_at log (prev + 1)) [
    | none ↦ false
    | some t ↦ not (t == e.term)
  ]

  -- Steps 3 and 4: cut a conflicting tail, then append.
  unfoldable pub append_to_log :
      List (LogEntry Command) → ℕ → List (LogEntry Command) → List (LogEntry Command)
  unfolding conflicts
  append_to_log log prev entries =
      (if conflicts log prev entries then take (prev + 1) log else log) ++ entries

  -- Step 5.
  unfoldable pub follow_commit : Raft Command → ℕ → Raft Command
  unfolding min
  follow_commit rf leader_commit =
      if ltb rf.commit_index leader_commit
      then record rf { commit_index = min leader_commit (get_last_log_index rf) }
      else rf

  -- Whether rf.log[prev].Term is `term`.
  unfoldable pub has_prev : Raft Command → ℕ → ℕ → Bool
  has_prev rf prev term = elim (term_at rf.log prev) [ none ↦ false | some t ↦ t == term ]

  -- The part of `AppendEntries` behind the test for an old term.
  unfoldable pub replicate_entries :
      Raft Command → AppendEntriesArgs Command → Option (Raft Command × AppendEntriesReply)
  unfolding has_prev append_to_log follow_commit decline
  replicate_entries rf args =
      if has_prev rf args.prev_log_index args.prev_log_term
      then some (
        follow_commit (record rf { log = append_to_log rf.log args.prev_log_index args.entries })
            args.leader_commit,
        record {
          term = rf.current_term;
          success = true;
          conflict_index = 0;
          conflict_term = pos 0;
        },
      )
      else (do reply ← decline rf args.prev_log_index; some (rf, reply))

  unfoldable pub append_entries :
      ℕ → Raft Command → AppendEntriesArgs Command → Option (Raft Command × AppendEntriesReply)
  unfolding replicate_entries adopt_term
  append_entries now rf args =
      if ltb args.term rf.current_term
      then some (
        rf,
        record {
          term = rf.current_term;
          success = false;
          conflict_index = 0;
          conflict_term = pos 0;
        },
      )
      else replicate_entries (adopt_term (record rf { last_receive = now }) args.term) args

  -- The inner loop of the commit rule at `n`: `left` peers to go from `i`, `count` peers so far.
  unfoldable pub tally : Raft Command → ℕ → ℕ → ℕ → ℕ → Option Bool
  tally rf n zero i count = some false
  tally rf n (suc left) i count = do
    m ← get_elem? rf.match_index i
    t ← term_at rf.log n
    let hit = leb n m && t == rf.current_term
    let count' = if hit then count + 1 else count
    if hit && ltb (rf.peers / 2) count' then some true else tally rf n left (i + 1) count'

  -- The outer loop: from `n` down to the commit index.
  unfoldable pub advance_commit : Raft Command → ℕ → Option (Raft Command)
  unfolding tally
  advance_commit rf zero = some rf
  advance_commit rf (suc n) =
      if ltb rf.commit_index (suc n)
      then (do
        enough ← tally rf (suc n) rf.peers 0 1
        advance_commit (if enough then record rf { commit_index = suc n } else rf) n)
      else some rf

  -- The search for the leader's last entry of the term `t`, below `n`; -1 if there is none.
  unfoldable pub last_of_term : List (LogEntry Command) → ℤ → ℕ → Option ℤ
  last_of_term log t zero = some minus_one
  last_of_term log t (suc i) = do
    t' ← term_at log i
    if pos t' ==ℤ t then some (pos i) else last_of_term log t i

  -- What a declined peer is sent from next. `i ≢ -1` is one past the entry found.
  unfoldable pub back_up : Raft Command → AppendEntriesReply → Option ℕ
  unfolding last_of_term
  back_up rf reply = if reply.conflict_term ==ℤ pos 0 then some reply.conflict_index else (do
    found ← last_of_term rf.log reply.conflict_term (length rf.log)
    some (elim found [ pos i ↦ i + 1 | negsuc _ ↦ reply.conflict_index ]))

  -- The reply of a peer that appended.
  unfoldable pub record_match : Raft Command → ℕ → AppendEntriesArgs Command → Option (Raft Command)
  unfolding set? advance_commit
  record_match rf server args = do
    let matched = args.prev_log_index + length args.entries
    match_index ← set? rf.match_index server matched
    next_index ← set? rf.next_index server (matched + 1)
    advance_commit (record rf { match_index = match_index; next_index = next_index })
        (get_last_log_index rf)

  -- The reply of a peer that declined.
  unfoldable pub retreat : Raft Command → ℕ → AppendEntriesReply → Option (Raft Command)
  unfolding set? back_up
  retreat rf server reply = do
    next ← back_up rf reply
    next_index ← set? rf.next_index server next
    some (record rf { next_index = next_index })

  -- `handleAppendEntries` with a reply that came.
  unfoldable pub handle_append_entries :
      ℕ → Raft Command → ℕ → AppendEntriesArgs Command → AppendEntriesReply → Option (Raft Command)
  unfolding convert_to_follower
  handle_append_entries now rf server args reply =
      if not (args.term == rf.current_term)
      then some rf
      else if reply.success
      then record_match rf server args
      else if ltb rf.current_term reply.term
      then some (convert_to_follower now reply.term rf)
      else if reply.term == rf.current_term && is_leader rf.state
      then retreat rf server reply
      else some rf

  -- The arguments for a peer whose nextIndex is `next`; `next` 0 would read rf.log[-1].
  unfoldable pub heart_beat_args : Raft Command → ℕ → Option (AppendEntriesArgs Command)
  heart_beat_args rf zero = none
  heart_beat_args rf (suc prev) = do
    t ← term_at rf.log prev
    some (record {
      term = rf.current_term;
      leader_id = rf.me;
      prev_log_index = prev;
      prev_log_term = t;
      entries = if leb (suc prev) (length rf.log - 1) then drop (suc prev) rf.log else [];
      leader_commit = rf.commit_index;
    })

  -- The loop over the peers: `left` to go from `i`.
  unfoldable pub broadcast : Raft Command → ℕ → ℕ → Option (List (ℕ × AppendEntriesArgs Command))
  unfolding heart_beat_args
  broadcast rf zero i = some []
  broadcast rf (suc left) i =
      let rest = broadcast rf left (i + 1) in
      if i == rf.me then rest else (do
        next ← get_elem? rf.next_index i
        args ← heart_beat_args rf next
        sent ← rest
        some ((i, args) ∷ sent))

  -- A round of `SendHeartBeats`: the messages for the peers, none if it returns.
  unfoldable pub send_heart_beats : Raft Command → Option (List (ℕ × AppendEntriesArgs Command))
  unfolding broadcast
  send_heart_beats rf =
      if not rf.killed && is_leader rf.state then broadcast rf rf.peers 0 else some []

  -- The inner loop of `CommitChecker`: the next `left` entries go to `applyCh`.
  unfoldable pub apply_entries :
      ℕ → Raft Command → Option (Raft Command × List (ApplyMsg (Option Command)))
  apply_entries zero rf = some (rf, [])
  apply_entries (suc left) rf = do
    let rf' = record rf { last_applied = rf.last_applied + 1 }
    e ← get_elem? rf'.log rf'.last_applied
    (rf'', msgs) ← apply_entries left rf'
    some (
      rf'',
      record { command_valid = true; command = e.command; command_index = rf'.last_applied } ∷ msgs,
    )

  -- A round of `CommitChecker`, where commitIndex > lastApplied; else it waits.
  unfoldable pub commit_checker :
      Raft Command → Option (Raft Command × List (ApplyMsg (Option Command)))
  unfolding apply_entries
  commit_checker rf = apply_entries (rf.commit_index - rf.last_applied) rf
