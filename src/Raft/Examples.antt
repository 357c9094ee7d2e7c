-- ===== src/Raft/Examples.antt =====
-- src/raft: tests of the handlers on small states, and the theorems at concrete inputs.
use mit_distributed_systems.Prelude.{
  ◌↔◌, ◌≤◌, ℕ, ◌≡◌, ◌≢◌, refl, pos, minus_one, List, [], ◌∷◌, ◌++◌, true, false, none, some, arith,
  length,
}
use mit_distributed_systems.Raft.State.{
  Raft, LogEntry, RequestVoteArgs, RequestVoteReply, AppendEntriesArgs, AppendEntriesReply,
  ApplyMsg, follower, candidate, leader,
}
use mit_distributed_systems.Raft.Persister.{make_persister}
use mit_distributed_systems.Raft.Election.{
  request_vote, kick_off_election, handle_request_vote, collect_vote, collect_votes,
}
use mit_distributed_systems.Raft.Replication.{
  append_entries, record_match, commit_checker, retreat, decline,
}
use mit_distributed_systems.Raft.Steps.{make_raft, here, next, vote_requested}
use mit_distributed_systems.Raft.Terms.{KeepsVote, Reach-KeepsVote, vote-once}
use mit_distributed_systems.Raft.Votes.{
  MayVote, request_vote-granted, collect_votes-majority, stale_votes-elect,
}
use mit_distributed_systems.Raft.Health.{IsHealthy, Reach-IsHealthy}
use mit_distributed_systems.Raft.Bounds.{IsBounded, Step-IsBounded}
use mit_distributed_systems.Raft.Commit.{Commits, matched_state, record_match-Commits}
use mit_distributed_systems.Raft.Apply.{Announces, commit_checker-Announces}
use mit_distributed_systems.Raft.Copying.{append_entries-repeated}
use mit_distributed_systems.Raft.Retreat.{RunStart, decline-mismatch}

abbrev entry : ℕ → ℕ → LogEntry ℕ
entry command term = record { command = some command; term = term; index = 0 }

abbrev first : LogEntry ℕ
first = record { command = none; term = 0; index = 0 }

-- A peer of three, in term 2, with two entries behind the first.
abbrev peer : Raft ℕ
peer = record {
  peers = 3;
  me = 1;
  killed = false;
  current_term = 2;
  voted_for = minus_one;
  log = first ∷ entry 7 1 ∷ entry 8 2 ∷ [];
  state = follower;
  commit_index = 1;
  last_applied = 0;
  next_index = 3 ∷ 3 ∷ 3 ∷ [];
  match_index = 0 ∷ 0 ∷ 0 ∷ [];
  last_receive = 0;
}

abbrev lead : Raft ℕ
lead = record peer { me = 0; voted_for = pos 0; state = leader }

abbrev behind : Raft ℕ
behind = record peer { log = first ∷ entry 7 1 ∷ [] }

abbrev ask : RequestVoteArgs
ask = record { term = 3; candidate_id = 0; last_log_index = 2; last_log_term = 2 }

abbrev voted : Raft ℕ
voted = record peer { current_term = 3; voted_for = pos 0; last_receive = 5 }

abbrev yes_vote : RequestVoteReply
yes_vote = record { term = 3; vote_granted = true }

abbrev sent : AppendEntriesArgs ℕ
sent = record {
  term = 2;
  leader_id = 0;
  prev_log_index = 1;
  prev_log_term = 1;
  entries = entry 8 2 ∷ [];
  leader_commit = 1;
}

request_vote_grants : request_vote 5 peer ask ≡ some (voted, yes_vote)
unfolding request_vote
request_vote_grants = refl

request_vote_again : request_vote 6 voted ask ≡ some (record voted { last_receive = 6 }, yes_vote)
unfolding request_vote
request_vote_again = refl

vote-once_example : ◌≡◌ {A = ℕ} 0 0
vote-once_example =
    vote-once 5 6 peer voted ask ask {v = record voted { last_receive = 6 }} request_vote_grants
      refl here request_vote_again refl refl

Reach-KeepsVote_example : KeepsVote peer voted
Reach-KeepsVote_example = Reach-KeepsVote (next here (vote_requested 5 ask request_vote_grants))

request_vote-granted_example :
    (r : Raft ℕ × RequestVoteReply) × (request_vote 5 peer ask ≡ some r)
    × (r.1.term ≡ r.0.current_term)
    × (2 ≤ r.0.current_term)
    × ((r.1.vote_granted ≡ true) ↔ MayVote peer ask 2)
request_vote-granted_example = request_vote-granted 5 peer ask 2 refl (omega arith)

abbrev runner : Raft ℕ
runner = record peer { state = candidate; current_term = 3; voted_for = pos 1 }

collect_votes-majority_example :
    collect_votes 2 runner 1 (false ∷ true ∷ [])
    ≡ record runner { state = leader; next_index = 3 ∷ 3 ∷ 3 ∷ []; match_index = 0 ∷ 0 ∷ 0 ∷ [] }
collect_votes-majority_example =
    collect_votes-majority 2 1 runner (false ∷ true ∷ []) refl (omega arith)

abbrev first_run : Raft ℕ
first_run = record runner { last_receive = 5 }

abbrev second_run : Raft ℕ
second_run = record runner { current_term = 4; last_receive = 9 }

abbrev ask_again : ℕ → RequestVoteArgs
ask_again term = record { term = term; candidate_id = 1; last_log_index = 2; last_log_term = 2 }

stale_votes-elect_example :
    ((handle_request_vote 5 first_run (ask_again 3) yes_vote).1 ≡ some true)
    × ((collect_vote second_run 1 true).0.state ≡ leader)
    × ((collect_vote second_run 1 true).0.current_term ≡ 4)
unfolding kick_off_election handle_request_vote
stale_votes-elect_example =
    stale_votes-elect 5 9 peer first_run second_run (ask_again 3) (ask_again 4) yes_vote 1 refl refl
      (omega arith) (omega arith) refl

Reach-IsHealthy_example : IsHealthy {Command = ℕ} (make_raft 0 3 1 make_persister)
Reach-IsHealthy_example = Reach-IsHealthy 0 3 1 make_persister here

Step-IsBounded_example : IsBounded voted × (1 ≤ 1)
Step-IsBounded_example =
    Step-IsBounded (vote_requested 5 ask request_vote_grants) tt
      (record { applied = omega arith; committed = omega arith })

record_match-Commits_example :
    (c : ℕ) × (record_match lead 1 sent
      ≡ some (record (matched_state lead 1 2) { commit_index = c }))
    × Commits (matched_state lead 1 2) 2 c
record_match-Commits_example =
    record_match-Commits lead 1 sent (omega arith) refl refl (omega arith)

-- The second entry, now on two of three peers, is committed.
record_match_commits :
    record_match lead 1 sent ≡ some (record (matched_state lead 1 2) { commit_index = 2 })
unfolding record_match
record_match_commits = refl

commit_checker-Announces_example :
    (msgs : List (ApplyMsg _)) × (commit_checker peer
      ≡ some (record peer { last_applied = 1 }, msgs))
    × (length msgs ≡ 1)
    × Announces peer.log 1 msgs
commit_checker-Announces_example = commit_checker-Announces peer (omega arith) (omega arith)

append_entries-repeated_example :
    (r : Raft ℕ × AppendEntriesReply) × (append_entries 5 peer sent ≡ some r)
    × (r.1.success ≡ true)
    × (r.0.log ≡ peer.log ++ entry 8 2 ∷ [])
    × (r.0.log ≢ peer.log)
append_entries-repeated_example =
    append_entries-repeated 5 peer sent (entry 8 2) [] (omega arith) refl refl refl

abbrev declined : AppendEntriesReply
declined = record { term = 2; success = false; conflict_index = 1; conflict_term = pos 1 }

retreat_to_own_entry : retreat lead 2 declined ≡ some (record lead { next_index = 3 ∷ 3 ∷ 2 ∷ [] })
unfolding retreat
retreat_to_own_entry = refl

decline-mismatch_example :
    (k : ℕ) × (decline peer 1
      ≡ some (record { term = 2; success = false; conflict_index = k; conflict_term = pos 1 }))
    × (k ≤ 1)
    × RunStart peer.log 1 1 k
decline-mismatch_example = decline-mismatch peer 1 1 refl
