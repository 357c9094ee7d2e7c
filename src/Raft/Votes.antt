-- ===== src/Raft/Votes.antt =====
-- src/raft/raft.go: when a peer votes, and when a candidate wins.
use mit_distributed_systems.Prelude.{
  Option-cases, ℕ, zero, suc, ◌+◌, ◌-◌, ◌/◌, ◌<◌, ◌≤◌, ◌≡◌, ◌≢◌, refl, ◌∙◌, ◌⊎◌, inl, inr,
  minus_one, pos, List, [], ◌∷◌, Bool, true, false, none, some, length, ltb, if◌then◌else◌, arith,
  ==ℤ_iff, ◌&&◌, replicate, ◌↔◌,
}
use mit_distributed_systems.Raft.State.{
  Raft, RequestVoteArgs, RequestVoteReply, leader, is_candidate, term_at,
}
use mit_distributed_systems.Raft.Election.{
  request_vote, kick_off_election, handle_request_vote, collect_vote, collect_votes,
  convert_to_leader,
}

-- How many of the votes are for.
abbrev pub granted : List Bool → ℕ
granted [] = 0
granted (vote ∷ voted) = if vote then suc (granted voted) else granted voted

module _ {Command : Type 0} where
  -- Section 5.4.1 of the paper: the later last term, or the same one and a log at least as long.
  abbrev pub UpToDate : Raft Command → RequestVoteArgs → ℕ → Type 0
  UpToDate rf args last_term =
      (last_term < args.last_log_term)
      ⊎ ((last_term ≡ args.last_log_term) × (length rf.log ≤ args.last_log_index + 1))

  -- What it takes to get the vote of a peer whose log ends in `last_term`.
  abbrev pub MayVote : Raft Command → RequestVoteArgs → ℕ → Type 0
  MayVote rf args last_term =
      ((rf.current_term < args.term)
        ⊎ ((rf.current_term ≡ args.term)
            × ((rf.voted_for ≡ minus_one) ⊎ (rf.voted_for ≡ pos args.candidate_id))))
      × UpToDate rf args last_term

  request_vote_total :
      (now : ℕ) (rf : Raft Command) (args : RequestVoteArgs) (last_term : ℕ)
      → term_at rf.log (length rf.log - 1) ≡ some last_term
      → request_vote now rf args ≢ none
  unfolding request_vote
  request_vote_total now rf args last_term h = ground arith

  request_vote_iff :
      (now : ℕ) (rf : Raft Command) (args : RequestVoteArgs) (last_term : ℕ) {t : Raft Command}
      {reply : RequestVoteReply}
      → term_at rf.log (length rf.log - 1) ≡ some last_term
      → 0 < length rf.log
      → request_vote now rf args ≡ some (t, reply)
      → ((reply.vote_granted ≡ true) → MayVote rf args last_term)
        × (MayVote rf args last_term → (reply.vote_granted ≡ true))
  unfolding request_vote
  request_vote_iff now rf args last_term h k e = (
    λ g.
        ground
          (arith, ==ℤ_iff rf.voted_for (pos args.candidate_id), ==ℤ_iff rf.voted_for minus_one),
    λ m.
        ground
          (arith, ==ℤ_iff rf.voted_for (pos args.candidate_id), ==ℤ_iff rf.voted_for minus_one),
  )

  -- On a log that ends in an entry of the term `last_term`, RequestVote returns a reply with the peer's
  -- new term, which is no earlier than the old one, and grants the vote exactly if the candidate's term
  -- is later, or the same with the vote free or its own, and the candidate's log is up to date.
  pub request_vote-granted :
      (now : ℕ) (rf : Raft Command) (args : RequestVoteArgs) (last_term : ℕ)
      → term_at rf.log (length rf.log - 1) ≡ some last_term
      → 0 < length rf.log
      → (r : Raft Command × RequestVoteReply) × (request_vote now rf args ≡ some r)
        × (r.1.term ≡ r.0.current_term)
        × (rf.current_term ≤ r.0.current_term)
        × ((r.1.vote_granted ≡ true) ↔ MayVote rf args last_term)
  request_vote-granted now rf args last h k = elim (Option-cases (request_vote now rf args)) [
    | inl e ↦ absurd (request_vote_total now rf args last h e)
    | inr (r, e) ↦ (
      r,
      e,
      unfold request_vote in ground arith,
      unfold request_vote in ground arith,
      request_vote_iff now rf args last h k e,
    )
  ]

  collect_votes-follower :
      (left votes : ℕ) (rf : Raft Command) (voted : List Bool)
      → is_candidate rf.state ≡ false
      → collect_votes left rf votes voted ≡ rf
  unfolding collect_votes collect_vote
  collect_votes-follower zero votes rf voted h = refl
  collect_votes-follower (suc left) votes rf [] h = refl
  collect_votes-follower (suc left) votes rf (v ∷ voted) h = ground arith

  abbrev winner : Raft Command → Raft Command
  winner rf = record rf {
    state = leader;
    next_index = replicate rf.peers (length rf.log - 1 + 1);
    match_index = replicate rf.peers 0;
  }

  collect_votes-one_more :
      (left votes : ℕ) (rf : Raft Command) (vote : Bool) (more : List Bool) (votes' : ℕ)
      → is_candidate rf.state ≡ true
      → (if vote then votes + 1 else votes) ≡ votes'
      → collect_votes left rf votes' more ≡ (
          if ltb 0 (length more) && ltb (rf.peers / 2) (votes' + granted more)
          then winner rf
          else rf)
      → collect_votes (suc left) rf votes (vote ∷ more)
        ≡ (if ltb (rf.peers / 2) (votes' + granted more) then winner rf else rf)
  unfolding collect_votes collect_vote convert_to_leader
  collect_votes-one_more left votes rf vote [] votes' h same rest = ground arith
  collect_votes-one_more left votes rf vote (v ∷ more) votes' h same rest = ground arith

  -- With no other critical section in between, a candidate that counts `votes`, and gets no more votes
  -- than there are rounds left: if a vote comes at all and those for it make a majority, its state is
  -- Leader, each nextIndex is that behind its last entry, each matchIndex is 0, and the rest stays;
  -- otherwise it stays as it is.
  pub collect_votes-majority :
      (left votes : ℕ) (rf : Raft Command) (voted : List Bool)
      → is_candidate rf.state ≡ true
      → length voted ≤ left
      → collect_votes left rf votes voted ≡ (
          if ltb 0 (length voted) && ltb (rf.peers / 2) (votes + granted voted)
          then record rf {
            state = leader;
            next_index = replicate rf.peers (length rf.log - 1 + 1);
            match_index = replicate rf.peers 0;
          }
          else rf)
  unfolding collect_votes
  collect_votes-majority zero votes rf [] h k = refl
  collect_votes-majority zero votes rf (v ∷ voted) h k = absurd (omega arith)
  collect_votes-majority (suc left) votes rf [] h k = refl
  collect_votes-majority (suc left) votes rf (true ∷ voted) h k =
      let rest = collect_votes-majority left (votes + 1) rf voted h (omega (arith, k)) in
      collect_votes-one_more left votes rf true voted (votes + 1) h refl rest ∙ ground arith
  collect_votes-majority (suc left) votes rf (false ∷ voted) h k =
      let rest = collect_votes-majority left votes rf voted h (omega (arith, k)) in
      collect_votes-one_more left votes rf false voted votes h refl rest ∙ ground arith

  -- A vote granted in one election is sent on, the ticker starts the next election, and the first
  -- election's goroutine then counts the vote: with it past half of the peers, the peer turns leader
  -- of the next term.
  pub stale_votes-elect :
      (now later : ℕ) (rf s t : Raft Command) (args args' : RequestVoteArgs)
      (reply : RequestVoteReply) (votes : ℕ)
      → kick_off_election now rf ≡ some (s, args)
      → reply.vote_granted ≡ true
      → reply.term ≤ args.term
      → rf.peers / 2 ≤ votes
      → kick_off_election later (handle_request_vote now s args reply).0 ≡ some (t, args')
      → ((handle_request_vote now s args reply).1 ≡ some true)
        × ((collect_vote t votes true).0.state ≡ leader)
        × ((collect_vote t votes true).0.current_term ≡ args.term + 1)
  unfolding kick_off_election handle_request_vote collect_vote
  stale_votes-elect now later rf s t args args' reply votes e g h m e' = ground arith
