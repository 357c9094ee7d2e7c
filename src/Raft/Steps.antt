-- ===== src/Raft/Steps.antt =====
-- src/raft/raft.go: `Make`, and the steps of a running peer. The goroutines and RPC handlers run one
-- critical section at a time, in any order, on any message, vote or clock reading.
use mit_distributed_systems.Prelude.{
  ℕ, minus_one, List, [], ◌∷◌, Bool, false, Option, none, some, replicate, ◌≡◌,
}
use mit_distributed_systems.Raft.State.{
  Raft, RequestVoteArgs, RequestVoteReply, AppendEntriesArgs, AppendEntriesReply, ApplyMsg,
  follower, start, kill, convert_to_follower,
}
use mit_distributed_systems.Raft.Persister.{
  Persister, read_raft_state, read_persist, read_persist_id,
}
use mit_distributed_systems.Raft.Election.{
  request_vote, kick_off_election, handle_request_vote, collect_vote,
}
use mit_distributed_systems.Raft.Replication.{append_entries, handle_append_entries, commit_checker}

module _ {Command : Type 0} where
  -- The zero value of the struct, with its log still empty.
  abbrev pub zero_raft : ℕ → ℕ → Raft Command
  zero_raft peers me = record {
    peers = peers;
    me = me;
    killed = false;
    current_term = 0;
    voted_for = minus_one;
    log = [];
    state = follower;
    commit_index = 0;
    last_applied = 0;
    next_index = replicate peers 0;
    match_index = replicate peers 0;
    last_receive = 0;
  }

  -- `Make` at the time `now`.
  unfoldable pub make_raft : ℕ → ℕ → ℕ → Persister → Raft Command
  unfolding convert_to_follower read_persist read_raft_state
  make_raft now peers me persister =
      read_persist
        (record (convert_to_follower now 0 (zero_raft peers me)) {
          log = record { command = none; term = 0; index = 0 } ∷ [];
        })
        (read_raft_state persister)

  -- The same fresh peer, whatever the persister holds.
  pub make_raft-fresh :
      (now peers me : ℕ) (persister : Persister)
      → make_raft now peers me persister ≡ record (zero_raft peers me) {
        log = record { command = none; term = 0; index = 0 } ∷ [];
        last_receive = now;
      }
  unfolding make_raft
  make_raft-fresh now peers me persister = read_persist_id _ _

  -- One critical section of a peer that does not panic.
  pub data Step : Raft Command → Raft Command → Type 0 where
    vote_requested :
        {rf rf' : Raft Command} {reply : RequestVoteReply} (now : ℕ) (args : RequestVoteArgs)
        → request_vote now rf args ≡ some (rf', reply)
        → Step rf rf'
    entries_received :
        {rf rf' : Raft Command} {reply : AppendEntriesReply} (now : ℕ)
        (args : AppendEntriesArgs Command)
        → append_entries now rf args ≡ some (rf', reply)
        → Step rf rf'
    election_kicked_off :
        {rf rf' : Raft Command} {args : RequestVoteArgs} (now : ℕ)
        → kick_off_election now rf ≡ some (rf', args)
        → Step rf rf'
    vote_replied :
        (rf : Raft Command) (now : ℕ) (args : RequestVoteArgs) (reply : RequestVoteReply)
        → Step rf (handle_request_vote now rf args reply).0
    vote_collected :
        (rf : Raft Command) (votes : ℕ) (vote : Bool) → Step rf (collect_vote rf votes vote).0
    command_started : (rf : Raft Command) (command : Command) → Step rf (start rf command).0
    entries_replied :
        {rf rf' : Raft Command} (now server : ℕ) (args : AppendEntriesArgs Command)
        (reply : AppendEntriesReply)
        → handle_append_entries now rf server args reply ≡ some rf'
        → Step rf rf'
    entries_applied :
        {rf rf' : Raft Command} {msgs : List (ApplyMsg (Option Command))}
        → commit_checker rf ≡ some (rf', msgs)
        → Step rf rf'
    peer_killed : (rf : Raft Command) → Step rf (kill rf)

  pub data Reach (rf : Raft Command) : Raft Command → Type 0 where
    here : Reach rf rf
    next : {s t : Raft Command} → Reach rf s → Step s t → Reach rf t
