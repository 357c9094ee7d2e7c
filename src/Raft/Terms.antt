-- ===== src/Raft/Terms.antt =====
-- src/raft/raft.go: terms never go back, and a peer votes for at most one candidate in a term.
use mit_distributed_systems.Prelude.{
  refl, ap, sym, Bool, ℕ, ◌<◌, minus_one, pos, ◌≡◌, ◌⊎◌, inr, some, true, arith, ==ℤ_iff,
}
use mit_distributed_systems.Raft.State.{
  Raft, RequestVoteArgs, RequestVoteReply, AppendEntriesArgs, AppendEntriesReply, start, kill,
  convert_to_follower,
}
use mit_distributed_systems.Raft.Election.{
  request_vote, kick_off_election, handle_request_vote, collect_vote,
}
use mit_distributed_systems.Raft.Replication.{
  append_entries, replicate_entries, handle_append_entries,
}
use mit_distributed_systems.Raft.Commit.{record_match-frame}
use mit_distributed_systems.Raft.Apply.{commit_checker-frame}
use mit_distributed_systems.Raft.Steps.{
  Step, vote_requested, entries_received, election_kicked_off, vote_replied, vote_collected,
  command_started, entries_replied, entries_applied, peer_killed, Reach, here, next,
}
use mit_distributed_systems.Raft.Retreat.{retreat-frame}

module _ {Command : Type 0} where
  -- A later term, or the same one with the vote, once cast, unchanged.
  abbrev pub KeepsVote : Raft Command → Raft Command → Type 0
  KeepsVote s t =
      (s.current_term < t.current_term)
      ⊎ ((s.current_term ≡ t.current_term)
          × ((s.voted_for ≡ minus_one) ⊎ (s.voted_for ≡ t.voted_for)))

  request_vote-KeepsVote :
      (now : ℕ) (s : Raft Command) (args : RequestVoteArgs) {t : Raft Command}
      {reply : RequestVoteReply}
      → request_vote now s args ≡ some (t, reply)
      → KeepsVote s t
  unfolding request_vote
  request_vote-KeepsVote now s args h = ground (arith, ==ℤ_iff s.voted_for (pos args.candidate_id))

  -- Replication leaves the term and the vote.
  abbrev SameVote : Raft Command → Raft Command → Type 0
  SameVote s t = (s.current_term ≡ t.current_term) × (s.voted_for ≡ t.voted_for)

  replicate_entries-SameVote :
      (s : Raft Command) (args : AppendEntriesArgs Command) {t : Raft Command}
      {reply : AppendEntriesReply}
      → replicate_entries s args ≡ some (t, reply)
      → SameVote s t
  unfolding replicate_entries
  replicate_entries-SameVote s args h = ground arith

  append_entries-KeepsVote :
      (now : ℕ) (s : Raft Command) (args : AppendEntriesArgs Command) {t : Raft Command}
      {reply : AppendEntriesReply}
      → append_entries now s args ≡ some (t, reply)
      → KeepsVote s t
  unfolding append_entries
  append_entries-KeepsVote now s args h = ground arith

  kick_off_election-KeepsVote :
      (now : ℕ) (s : Raft Command) {t : Raft Command} {args : RequestVoteArgs}
      → kick_off_election now s ≡ some (t, args)
      → KeepsVote s t
  unfolding kick_off_election
  kick_off_election-KeepsVote now s h = ground arith

  handle_request_vote-KeepsVote :
      (now : ℕ) (s : Raft Command) (args : RequestVoteArgs) (reply : RequestVoteReply)
      → KeepsVote s (handle_request_vote now s args reply).0
  unfolding handle_request_vote convert_to_follower
  handle_request_vote-KeepsVote now s args reply = ground arith

  collect_vote-SameVote :
      (s : Raft Command) (votes : ℕ) (vote : Bool) → SameVote s (collect_vote s votes vote).0
  unfolding collect_vote
  collect_vote-SameVote s votes vote = ground arith

  handle_append_entries-KeepsVote :
      (now : ℕ) (s : Raft Command) (server : ℕ) (args : AppendEntriesArgs Command)
      (reply : AppendEntriesReply) {t : Raft Command}
      → handle_append_entries now s server args reply ≡ some t
      → KeepsVote s t
  unfolding handle_append_entries
  handle_append_entries-KeepsVote now s server args reply {t} h =
      ground (arith, record_match-frame s server args {t = t}, retreat-frame s server reply {t = t})

  -- One critical section, whatever message or vote it works on.
  pub Step-KeepsVote : {s t : Raft Command} → Step s t → KeepsVote s t
  Step-KeepsVote (vote_requested {rf} now args h) = request_vote-KeepsVote now rf args h
  Step-KeepsVote (entries_received {rf} now args h) = append_entries-KeepsVote now rf args h
  Step-KeepsVote (election_kicked_off {rf} now h) = kick_off_election-KeepsVote now rf h
  Step-KeepsVote (vote_replied rf now args reply) = handle_request_vote-KeepsVote now rf args reply
  Step-KeepsVote (vote_collected rf votes vote) =
      let (e, f) = collect_vote-SameVote rf votes vote in inr (e, inr f)
  Step-KeepsVote (command_started rf command) = unfold start in ground arith
  Step-KeepsVote (entries_replied {rf} now server args reply h) =
      handle_append_entries-KeepsVote now rf server args reply h
  Step-KeepsVote (entries_applied {rf} {rf'} h) =
      let e = commit_checker-frame rf h in
      inr (
        ap (λ (r : Raft Command). r.current_term) (sym e),
        inr (ap (λ (r : Raft Command). r.voted_for) (sym e)),
      )
  Step-KeepsVote (peer_killed rf) = unfold kill in ground arith

  KeepsVote-trans : (r s t : Raft Command) → KeepsVote r s → KeepsVote s t → KeepsVote r t
  KeepsVote-trans r s t p q = ground arith

  -- Along any run of a peer, from any state, the term never falls, and while it stays the same a vote
  -- that was cast stays the same.
  pub Reach-KeepsVote : {s t : Raft Command} → Reach s t → KeepsVote s t
  Reach-KeepsVote here = inr (refl, inr refl)
  Reach-KeepsVote {s} {t} (next {s = u} r st) =
      KeepsVote-trans s u t (Reach-KeepsVote r) (Step-KeepsVote st)

  granted-voted :
      (now : ℕ) (s : Raft Command) (args : RequestVoteArgs) {t : Raft Command}
      {reply : RequestVoteReply}
      → request_vote now s args ≡ some (t, reply)
      → reply.vote_granted ≡ true
      → (t.current_term ≡ args.term)
        × (t.voted_for ≡ pos args.candidate_id)
        × ((s.current_term < args.term)
            ⊎ ((s.voted_for ≡ minus_one) ⊎ (s.voted_for ≡ pos args.candidate_id)))
  unfolding request_vote
  granted-voted now s args h =
      ground (arith, ==ℤ_iff s.voted_for (pos args.candidate_id), ==ℤ_iff s.voted_for minus_one)

  -- Between two restarts, two votes that a peer grants in one term are for the same candidate.
  pub vote-once :
      (now later : ℕ) (s u : Raft Command) (args args' : RequestVoteArgs) {t v : Raft Command}
      {reply reply' : RequestVoteReply}
      → request_vote now s args ≡ some (t, reply)
      → reply.vote_granted ≡ true
      → Reach t u
      → request_vote later u args' ≡ some (v, reply')
      → reply'.vote_granted ≡ true
      → args'.term ≡ args.term
      → args'.candidate_id ≡ args.candidate_id
  vote-once now later s u args args' h g r h' g' e =
      let first = granted-voted now s args h g in
      let second = granted-voted later u args' h' g' in
      let kept = Reach-KeepsVote r in
      let stepped = request_vote-KeepsVote later u args' h' in
      ground (arith, first, second, kept, stepped)
