-- ===== src/Raft/Election.antt =====
-- src/raft/raft.go: RequestVote, the ticker, and the goroutines of an election. Each function is one
-- critical section under `mu`, with the time `now` where the code reads the clock.
use mit_distributed_systems.Prelude.{
  ℕ, zero, suc, ◌+◌, ◌-◌, ◌/◌, pos, minus_one, ◌==ℤ◌, List, [], ◌∷◌, Bool, true, false, ◌&&◌, ◌||◌,
  not, Option, none, some, replicate, ltb, leb, ◌==◌, if◌then◌else◌, ◌>>=◌,
}
use mit_distributed_systems.Raft.State.{
  Raft, RequestVoteArgs, RequestVoteReply, follower, candidate, leader, is_leader, is_candidate,
  get_last_log_index, get_last_log_term, convert_to_follower, elect_time_out_base,
}

-- plusMs + ElectTimeOutBase, where plusMs is drawn below 150
abbrev pub get_random_elect_time_out : ℕ → ℕ
get_random_elect_time_out plus_ms = plus_ms + elect_time_out_base

module _ {Command : Type 0} where
  -- A message of a later term: forget the vote and follow.
  unfoldable pub adopt_term : Raft Command → ℕ → Raft Command
  adopt_term rf term =
      if ltb rf.current_term term
      then record rf { voted_for = minus_one; current_term = term; state = follower }
      else rf

  abbrev pub deny : Raft Command → Raft Command × RequestVoteReply
  deny rf = (rf, record { term = rf.current_term; vote_granted = false })

  abbrev pub grant : ℕ → Raft Command → RequestVoteArgs → Raft Command × RequestVoteReply
  grant now rf args = (
    record rf {
      current_term = args.term;
      voted_for = pos args.candidate_id;
      state = follower;
      last_receive = now;
    },
    record { term = args.term; vote_granted = true },
  )

  -- The part of `RequestVote` behind the test for an old term.
  unfoldable pub consider_vote :
      ℕ → Raft Command → RequestVoteArgs → Option (Raft Command × RequestVoteReply)
  consider_vote now rf args =
      if rf.voted_for ==ℤ minus_one || rf.voted_for ==ℤ pos args.candidate_id
      then (do
        last_term ← get_last_log_term rf
        some (
            if ltb last_term args.last_log_term
              || last_term == args.last_log_term && leb (get_last_log_index rf) args.last_log_index
            then grant now rf args
            else deny rf))
      else some (deny rf)

  unfoldable pub request_vote :
      ℕ → Raft Command → RequestVoteArgs → Option (Raft Command × RequestVoteReply)
  unfolding consider_vote adopt_term
  request_vote now rf args =
      if ltb args.term rf.current_term
      then some (deny rf)
      else consider_vote now (adopt_term rf args.term) args

  -- Whether a round of `ticker` starts `KickOffElection`.
  unfoldable pub ticker : ℕ → ℕ → Raft Command → Bool
  ticker now plus_ms rf =
      not rf.killed
      && (not (is_leader rf.state)
          && ltb (get_random_elect_time_out plus_ms) (now - rf.last_receive))

  -- The first part of `KickOffElection`, with the arguments that its goroutines send.
  unfoldable pub kick_off_election : ℕ → Raft Command → Option (Raft Command × RequestVoteArgs)
  kick_off_election now rf = do
    last_term ← get_last_log_term rf
    some (
      record rf {
        current_term = rf.current_term + 1;
        state = candidate;
        voted_for = pos rf.me;
        last_receive = now;
      },
      record {
        term = rf.current_term + 1;
        candidate_id = rf.me;
        last_log_index = get_last_log_index rf;
        last_log_term = last_term;
      },
    )

  -- `handleRequestVote` with a reply that came: the vote is what it sends on `voteCh`.
  unfoldable pub handle_request_vote :
      ℕ → Raft Command → RequestVoteArgs → RequestVoteReply → Raft Command × Option Bool
  handle_request_vote now rf args reply =
      if not (is_candidate rf.state) || not (rf.current_term == args.term)
      then (rf, none)
      else if ltb rf.current_term reply.term
      then (convert_to_follower now reply.term rf, none)
      else (rf, some reply.vote_granted)

  unfoldable pub convert_to_leader : Raft Command → Raft Command
  convert_to_leader rf = record rf {
    state = leader;
    next_index = replicate rf.peers (get_last_log_index rf + 1);
    match_index = replicate rf.peers 0;
  }

  -- One round of `collectVotes`: the count of votes to go on with, or `none` if it returns.
  unfoldable pub collect_vote : Raft Command → ℕ → Bool → Raft Command × Option ℕ
  unfolding convert_to_leader
  collect_vote rf votes vote =
      let votes' = if vote then votes + 1 else votes in
      if not (is_candidate rf.state)
      then (rf, none)
      else if ltb (rf.peers / 2) votes'
      then (convert_to_leader rf, none)
      else (rf, some votes')

  -- `collectVotes`, with `left` rounds to go, on the votes that come while no other critical section
  -- is in between. It blocks where fewer votes come than rounds are left.
  unfoldable pub collect_votes : ℕ → Raft Command → ℕ → List Bool → Raft Command
  collect_votes zero rf votes voted = rf
  collect_votes (suc left) rf votes [] = rf
  collect_votes (suc left) rf votes (vote ∷ voted) =
      let (rf', next) = collect_vote rf votes vote in
      elim next [ none ↦ rf' | some votes' ↦ collect_votes left rf' votes' voted ]
