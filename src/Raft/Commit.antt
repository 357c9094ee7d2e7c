-- ===== src/Raft/Commit.antt =====
-- src/raft/raft.go: the rule by which a leader commits, in `handleAppendEntries`.
use mit_distributed_systems.Prelude.{
  length-set?, ap, set?-eq_some_of_lt, ◌∙◌, subst, set, length-set, inr, Bool-cases, refl,
  get_elem?-eq_some_of_lt, true, dec_lt, ◌⊎◌, inl, Bool, ◌≤◌, ltb, ◌-◌, ◌&&◌, set?, ◌==◌,
  >>=-eq-some, length, get_elem?, drop, ℕ, zero, suc, ◌+◌, ◌/◌, ◌<◌, ◌≡◌, List, [], ◌∷◌, some, leb,
  if◌then◌else◌, arith,
}
use mit_distributed_systems.Raft.State.{LogEntry, AppendEntriesArgs, Raft, term_at}
use mit_distributed_systems.Raft.Replication.{tally, record_match, advance_commit}

-- How many of the peers are known to hold the log up to `n`.
abbrev pub replicas : ℕ → List ℕ → ℕ
replicas n [] = 0
replicas n (m ∷ match_index) =
    if leb n m then suc (replicas n match_index) else replicas n match_index

drop-step :
    (i : ℕ) (ms : List ℕ) {m : ℕ} {rest : List ℕ}
    → drop i ms ≡ m ∷ rest
    → (get_elem? ms i ≡ some m) × (drop (i + 1) ms ≡ rest)
drop-step zero [] h = cc
drop-step zero (x ∷ ms) h = (ground arith, ground arith)
drop-step (suc i) [] h = cc
drop-step (suc i) (x ∷ ms) h = ground (arith, drop-step i ms h)

module _ {Command : Type 0} where
  -- The peer itself and at least one other, more than half of all, hold an entry of this term.
  pub record HasQuorum (rf : Raft Command) (n : ℕ) : Type 0 where
    pub own_term : term_at rf.log n ≡ some rf.current_term
    pub others : 0 < replicas n rf.match_index
    pub majority : rf.peers / 2 < 1 + replicas n rf.match_index

  pub advance_commit-frame :
      (n : ℕ) (s : Raft Command) {t : Raft Command}
      → advance_commit s n ≡ some t
      → t ≡ record s { commit_index = t.commit_index }
  unfolding advance_commit
  advance_commit-frame zero s h = ground arith
  advance_commit-frame (suc n) s {t} h = ground (
    arith,
    advance_commit-frame n s {t = t},
    advance_commit-frame n (record s { commit_index = suc n }) {t = t},
  )

  -- A reply changes the leader's indices only.
  pub record_match-frame :
      (s : Raft Command) (server : ℕ) (args : AppendEntriesArgs Command) {t : Raft Command}
      → record_match s server args ≡ some t
      → t ≡ record s {
        commit_index = t.commit_index;
        match_index = t.match_index;
        next_index = t.next_index;
      }
  unfolding record_match
  record_match-frame s server args {t} h =
      let matched = args.prev_log_index + length args.entries in
      let (ms, wrote, h') = >>=-eq-some (set? s.match_index server matched) _ h in
      let (ns, wrote', run) = >>=-eq-some (set? s.next_index server (matched + 1)) _ h' in
      ground (
        arith,
        advance_commit-frame (length s.log - 1) (record s { match_index = ms; next_index = ns })
            run,
      )

  pub record_match-length :
      (s : Raft Command) (server : ℕ) (args : AppendEntriesArgs Command) {t : Raft Command}
      → record_match s server args ≡ some t
      → (length t.match_index ≡ length s.match_index) × (length t.next_index ≡ length s.next_index)
  unfolding record_match
  record_match-length s server args {t} h =
      let matched = args.prev_log_index + length args.entries in
      let (ms, wrote, h') = >>=-eq-some (set? s.match_index server matched) _ h in
      let (ns, wrote', run) = >>=-eq-some (set? s.next_index server (matched + 1)) _ h' in
      let e =
        advance_commit-frame (length s.log - 1) (record s { match_index = ms; next_index = ns })
          run in
      (
        ap (λ (r : Raft Command). length r.match_index) e
            ∙ length-set? s.match_index server matched wrote,
        ap (λ (r : Raft Command). length r.next_index) e
            ∙ length-set? s.next_index server (matched + 1) wrote',
      )

  -- The count of the inner loop, from any peer on.
  tally-eq-replicas :
      (rf : Raft Command) (n left i count : ℕ) (rest : List ℕ)
      → drop i rf.match_index ≡ rest
      → length rest ≡ left
      → (e : LogEntry Command) → get_elem? rf.log n ≡ some e
      → tally rf n left i count
        ≡ some (
            e.term == rf.current_term
            && (ltb 0 (replicas n rest) && ltb (rf.peers / 2) (count + replicas n rest)))
  unfolding tally
  tally-eq-replicas rf n zero i count [] d l e at = ground arith
  tally-eq-replicas rf n zero i count (m ∷ rest) d l e at = absurd (omega arith)
  tally-eq-replicas rf n (suc left) i count [] d l e at = absurd (omega arith)
  tally-eq-replicas rf n (suc left) i count (m ∷ rest) d l e at =
      let (here, next) = drop-step i rf.match_index d in
      let more = tally-eq-replicas rf n left (i + 1) (count + 1) rest next (omega arith) e at in
      let same = tally-eq-replicas rf n left (i + 1) count rest next (omega arith) e at in
      ground (arith, here, more, same)

  tally-true :
      (rf : Raft Command) (n : ℕ)
      → n < length rf.log
      → length rf.match_index ≡ rf.peers
      → (b : Bool) × (tally rf n rf.peers 0 1 ≡ some b)
        × ((b ≡ true → HasQuorum rf n) × (HasQuorum rf n → b ≡ true))
  tally-true rf n h k =
      let (e, at) = get_elem?-eq_some_of_lt rf.log n h in
      (
        _,
        tally-eq-replicas rf n rf.peers 0 1 rf.match_index refl k e at,
        (
          λ q. record {
            own_term = ground (arith, at, q);
            others = ground (arith, q);
            majority = ground (arith, q);
          },
          λ q. ground (arith, at, q.own_term, q.others, q.majority),
        ),
      )

  -- From `n` down, the loop stops at the highest entry with a quorum above the commit index.
  pub record Commits (rf : Raft Command) (n c : ℕ) : Type 0 where
    pub grows : rf.commit_index ≤ c
    pub upto : (c ≡ rf.commit_index) ⊎ (c ≤ n)
    pub safe : rf.commit_index < c → HasQuorum rf c
    pub highest : (k : ℕ) → c < k → k ≤ n → ¬ HasQuorum rf k

  -- Once the commit index is at `n` or above the loop is over.
  advance_commit_done :
      (n : ℕ) (s : Raft Command) → n ≤ s.commit_index → advance_commit s n ≡ some s
  unfolding advance_commit
  advance_commit_done zero s h = refl
  advance_commit_done (suc n) s h = ground arith

  pub advance_commit_total :
      (n : ℕ) (s : Raft Command)
      → n < length s.log
      → length s.match_index ≡ s.peers
      → (c : ℕ) × (advance_commit s n ≡ some (record s { commit_index = c })) × Commits s n c
  unfolding advance_commit
  advance_commit_total zero s h k = (
    s.commit_index,
    refl,
    record {
      grows = omega arith;
      upto = inl refl;
      safe = λ p. absurd (omega arith);
      highest = λ j p q. absurd (omega arith);
    },
  )
  advance_commit_total (suc n) s h k = elim (dec_lt s.commit_index (suc n)) [
    | no over ↦ (
      s.commit_index,
      advance_commit_done (suc n) s (omega arith),
      record {
        grows = omega arith;
        upto = inl refl;
        safe = λ p. absurd (omega arith);
        highest = λ j p q. absurd (omega arith);
      },
    )
    | yes below ↦
        let (b, e, (sound, complete)) = tally-true s (suc n) h k in
        let (c, run, ok) = advance_commit_total n s (omega arith) k in
        let done = advance_commit_done n (record s { commit_index = suc n }) (omega arith) in
        elim (Bool-cases b) [
          | inl enough ↦ (
            suc n,
            ground (arith, e, done),
            record {
              grows = omega arith;
              upto = inr (omega arith);
              safe = λ p. sound enough;
              highest = λ j p q. absurd (omega arith);
            },
          )
          | inr short ↦ (
            c,
            ground (arith, e, run),
            record {
              grows = ok.grows;
              upto = ground (arith, ok.upto);
              safe = ok.safe;
              highest = λ j p q. elim (dec_lt n j) [
                | yes top ↦ λ quorum. cc (
                    complete
                      (subst (HasQuorum s) (let same : j ≡ suc n = omega arith in same) quorum))
                | no lower ↦ ok.highest j p (omega arith)
              ];
            },
          )
        ]
  ]

  -- The leader's state once a peer's reply says that it holds the log up to `matched`.
  abbrev pub matched_state : Raft Command → ℕ → ℕ → Raft Command
  matched_state s server matched = record s {
    match_index = set s.match_index server matched;
    next_index = set s.next_index server (matched + 1);
  }

  -- A peer's success reply sets its two indices and moves commitIndex to the highest entry above it
  -- that has the leader's term and is held by the leader, another peer, and more than half of all; if
  -- there is none, commitIndex stays. Nothing panics for a peer in range and slices of full length.
  pub record_match-Commits :
      (s : Raft Command) (server : ℕ) (args : AppendEntriesArgs Command)
      → server < s.peers
      → length s.match_index ≡ s.peers
      → length s.next_index ≡ s.peers
      → 0 < length s.log
      → let s' = matched_state s server (args.prev_log_index + length args.entries) in
        (c : ℕ) × (record_match s server args ≡ some (record s' { commit_index = c }))
        × Commits s' (length s.log - 1) c
  unfolding record_match
  record_match-Commits s server args h k l m =
      let matched = args.prev_log_index + length args.entries in
      let (c, run, ok) =
        advance_commit_total (length s.log - 1) (matched_state s server matched) (omega arith)
          (length-set s.match_index server matched ∙ k) in
      (
        c,
        rw
            (
              set?-eq_some_of_lt s.match_index server matched (omega arith),
              set?-eq_some_of_lt s.next_index server (matched + 1) (omega arith),
            )
            run,
        ok,
      )

  abbrev pub MovesUpTo : ℕ → Raft Command → Raft Command → Type 0
  MovesUpTo n s t =
      (s.commit_index ≤ t.commit_index) × ((t.commit_index ≡ s.commit_index) ⊎ (t.commit_index ≤ n))

  advance_commit-MovesUpTo :
      (n : ℕ) (s : Raft Command) {t : Raft Command} → advance_commit s n ≡ some t → MovesUpTo n s t
  unfolding advance_commit
  advance_commit-MovesUpTo zero s h = ground arith
  advance_commit-MovesUpTo (suc n) s {t} h = ground (
    arith,
    advance_commit-MovesUpTo n s {t = t},
    advance_commit-MovesUpTo n (record s { commit_index = suc n }) {t = t},
  )

  pub record_match-MovesUpTo :
      (s : Raft Command) (server : ℕ) (args : AppendEntriesArgs Command) {t : Raft Command}
      → record_match s server args ≡ some t
      → MovesUpTo (length s.log - 1) s t
  unfolding record_match
  record_match-MovesUpTo s server args h =
      let matched = args.prev_log_index + length args.entries in
      let (ms, wrote, h') = >>=-eq-some (set? s.match_index server matched) _ h in
      let (ns, wrote', run) = >>=-eq-some (set? s.next_index server (matched + 1)) _ h' in
      advance_commit-MovesUpTo (length s.log - 1) (record s { match_index = ms; next_index = ns })
        run
