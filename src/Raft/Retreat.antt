-- ===== src/Raft/Retreat.antt =====
-- src/raft/raft.go: what a leader does with a declined AppendEntries, and what the peer tells it.
use native.Mathlib.Decide.{dec_le}
use mit_distributed_systems.Prelude.{
  sym, set?-eq_some_of_lt, ℤ, false, inl, ℕ_discrete, inr, dec_lt, ◌-◌, ℕ, zero, suc, ◌+◌, ◌<◌, ◌≤◌,
  ◌≡◌, ◌≢◌, refl, List, some, length, set, set?, pos, negsuc, minus_one, arith, ◌∙◌, ap, ◌⊎◌,
  >>=-eq-some, length-set?,
}
use mit_distributed_systems.Raft.State.{
  term_at-lt, term_at-eq_some_of_lt, Raft, LogEntry, AppendEntriesReply, term_at,
}
use mit_distributed_systems.Raft.Replication.{
  retreat, back_up, last_of_term, conflict_start, decline,
}

module _ {Command : Type 0} where
  pub retreat-frame :
      (s : Raft Command) (server : ℕ) (reply : AppendEntriesReply) {t : Raft Command}
      → retreat s server reply ≡ some t
      → (t ≡ record s { next_index = t.next_index }) × (length t.next_index ≡ length s.next_index)
  unfolding retreat
  retreat-frame s server reply h =
      let (n, found, h') = >>=-eq-some (back_up s reply) _ h in
      let (ns, wrote, e) = >>=-eq-some (set? s.next_index server n) _ h' in
      (ground arith, ground (arith, length-set? s.next_index server n wrote))

  at_or_below :
      (log : List (LogEntry Command)) (term i t : ℕ)
      → term_at log i ≡ some t
      → t ≢ term
      → (j : ℕ) → j < suc i
      → (j < i → term_at log j ≢ some term)
      → term_at log j ≢ some term
  at_or_below log term i t at other j h below = elim (dec_lt j i) [
    | yes lt ↦ below lt
    | no top ↦ let same : j ≡ i = omega arith in λ e. other (cc (ap (term_at log) same))
  ]

  -- The loop finds the last entry of the term, if the log has one below `n`.
  pub last_of_term-lem :
      (log : List (LogEntry Command)) (term n : ℕ)
      → n ≤ length log
      → ((i : ℕ) × (last_of_term log (pos term) n ≡ some (pos i))
          × (i < n)
          × (term_at log i ≡ some term)
          × ((j : ℕ) → i < j → j < n → term_at log j ≢ some term))
        ⊎ ((last_of_term log (pos term) n ≡ some minus_one)
            × ((j : ℕ) → j < n → term_at log j ≢ some term))
  unfolding last_of_term
  last_of_term-lem log term zero h = inr (refl, λ j p. absurd (omega arith))
  last_of_term-lem log term (suc i) h =
      let (t, at) = term_at-eq_some_of_lt log i h in
      elim (ℕ_discrete t term) [
        | yes same ↦
            inl (i, ground arith, omega arith, at ∙ ap some same, λ j p q. absurd (omega arith))
        | no other ↦ elim (last_of_term-lem log term i (omega arith)) [
          | inl (k, found, lt, here, rest) ↦ inl (
            k,
            ground arith,
            omega arith,
            here,
            λ j p q. at_or_below log term i t at other j q (λ r. rest j p r),
          )
          | inr (missing, rest) ↦
              inr (ground arith, λ j q. at_or_below log term i t at other j q (rest j))
        ]
      ]

  -- Where the loop ends: behind it every entry up to `i` is of the term, before it one is not.
  abbrev pub RunStart : List (LogEntry Command) → ℕ → ℕ → ℕ → Type 0
  RunStart log term i k =
      ((j : ℕ) → k ≤ j → j ≤ i → term_at log j ≡ some term)
      × ((k ≡ 0) ⊎ (term_at log (k - 1) ≢ some term))

  last :
      (log : List (LogEntry Command)) (i term k : ℕ)
      → term_at log i ≡ some term
      → k ≤ i + 1
      → (k ≡ 0) ⊎ (term_at log (k - 1) ≢ some term)
      → k ≤ i
  last log i term k at le (inl z) = omega arith
  last log i term k at le (inr no_hit) = elim (dec_le k i) [
    | yes inner ↦ inner
    | no top ↦ let z : k - 1 ≡ i = omega arith in absurd (no_hit (ap (term_at log) z ∙ at))
  ]

  conflict_start-RunStart :
      (log : List (LogEntry Command)) (term i : ℕ)
      → i < length log
      → (k : ℕ) × (conflict_start log term i ≡ some k) × (k ≤ i + 1) × RunStart log term i k
  unfolding conflict_start
  conflict_start-RunStart log term zero h =
      let (t, at) = term_at-eq_some_of_lt log zero h in
      elim (ℕ_discrete t term) [
        | yes same ↦ (
          0,
          ground arith,
          omega arith,
          (
            λ j p q. let z : j ≡ 0 = omega arith in ap (term_at log) z ∙ at ∙ ap some same,
            inl refl,
          ),
        )
        | no other ↦
            (1, ground arith, omega arith, (λ j p q. absurd (omega arith), inr (λ e. other (cc))))
      ]
  conflict_start-RunStart log term (suc i) h =
      let (t, at) = term_at-eq_some_of_lt log (suc i) h in
      elim (ℕ_discrete t term) [
        | yes same ↦
            let (k, run, le, (within, before)) = conflict_start-RunStart log term i (omega arith) in
            (
              k,
              ground arith,
              omega arith,
              (
                λ j p q. elim (dec_le j i) [
                  | yes inner ↦ within j p inner
                  | no top ↦
                      let z : j ≡ suc i = omega arith in ap (term_at log) z ∙ at ∙ ap some same
                ],
                before,
              ),
            )
        | no other ↦ (
          suc i + 1,
          ground arith,
          omega arith,
          (
            λ j p q. absurd (omega arith),
            inr (λ e.
                let z : suc i + 1 - 1 ≡ suc i = omega arith in other (cc (ap (term_at log) z))),
          ),
        )
      ]

  -- If the entry at PrevLogIndex has the wrong term, the reply names that term and an index no higher;
  -- every entry from there to PrevLogIndex has the term, and the one before, if any, has not.
  pub decline-mismatch :
      (rf : Raft Command) (prev term : ℕ)
      → term_at rf.log prev ≡ some term
      → (k : ℕ) × (decline rf prev
          ≡ some (record {
            term = rf.current_term;
            success = false;
            conflict_index = k;
            conflict_term = pos term;
          }))
        × (k ≤ prev)
        × RunStart rf.log term prev k
  unfolding decline
  decline-mismatch rf prev term at =
      let lt = term_at-lt rf.log prev at in
      let (k, run, le, (within, before)) = conflict_start-RunStart rf.log term prev lt in
      (k, ground arith, last rf.log prev term k at le before, (within, before))

  -- The reply to an entry past the end of the log gives the log's length.
  pub decline-short :
      (rf : Raft Command) (prev : ℕ)
      → length rf.log ≤ prev
      → decline rf prev
        ≡ some (record {
          term = rf.current_term;
          success = false;
          conflict_index = length rf.log;
          conflict_term = minus_one;
        })
  unfolding decline
  decline-short rf prev h = ground arith

  -- No entry has a negative term.
  last_of_term-negsuc :
      (log : List (LogEntry Command)) (k n : ℕ)
      → n ≤ length log
      → last_of_term log (negsuc k) n ≡ some minus_one
  unfolding last_of_term
  last_of_term-negsuc log k zero h = refl
  last_of_term-negsuc log k (suc i) h =
      let (t, at) = term_at-eq_some_of_lt log i h in
      ground (arith, at, last_of_term-negsuc log k i (omega arith))

  -- What the leader tries next: one past its own last entry of the term that the peer named, or, if
  -- it has none or the peer named none, the peer's index.
  abbrev pub IsNext : Raft Command → AppendEntriesReply → ℕ → Type 0
  IsNext rf reply n =
      ((n ≡ reply.conflict_index)
        × ((term : ℕ)
            → reply.conflict_term ≡ pos (suc term)
            → (j : ℕ) → j < length rf.log
            → term_at rf.log j ≢ some (suc term)))
      ⊎ ((i : ℕ) × (term : ℕ) × (reply.conflict_term ≡ pos (suc term))
          × (n ≡ i + 1)
          × (term_at rf.log i ≡ some (suc term))
          × ((j : ℕ) → i < j → j < length rf.log → term_at rf.log j ≢ some (suc term)))

  back_up-IsNext :
      (rf : Raft Command) (reply : AppendEntriesReply) (t : ℤ)
      → reply.conflict_term ≡ t
      → (n : ℕ) × (back_up rf reply ≡ some n) × IsNext rf reply n
  unfolding back_up
  back_up-IsNext rf reply (pos zero) e =
      (reply.conflict_index, ground arith, inl (refl, λ term e'. cc))
  back_up-IsNext rf reply (negsuc k) e = (
    reply.conflict_index,
    ground (arith, last_of_term-negsuc rf.log k (length rf.log) (omega arith)),
    inl (refl, λ term e'. cc),
  )
  back_up-IsNext rf reply (pos (suc term)) e =
      elim (last_of_term-lem rf.log (suc term) (length rf.log) (omega arith)) [
        | inl (i, found, lt, here, rest) ↦ (i + 1, ground arith, inr (i, term, e, refl, here, rest))
        | inr (missing, rest) ↦ (
          reply.conflict_index,
          ground arith,
          inl (
            refl,
            λ term' e' j h p.
                let same : suc term ≡ suc term' = cc in rest j h (p ∙ ap some (sym same)),
          ),
        )
      ]

  -- A declined peer in range gets as nextIndex one past the leader's last entry of the term that it
  -- named, or its ConflictIndex if it named no positive term or the leader has no entry of it; nothing
  -- else of the leader changes.
  pub retreat-IsNext :
      (rf : Raft Command) (server : ℕ) (reply : AppendEntriesReply)
      → server < length rf.next_index
      → (n : ℕ) × (retreat rf server reply
          ≡ some (record rf { next_index = set rf.next_index server n }))
        × IsNext rf reply n
  unfolding retreat
  retreat-IsNext rf server reply h =
      let (n, found, ok) = back_up-IsNext rf reply reply.conflict_term refl in
      (n, rw (found, set?-eq_some_of_lt rf.next_index server n h), ok)
