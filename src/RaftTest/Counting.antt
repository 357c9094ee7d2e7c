-- ===== src/RaftTest/Counting.antt =====
-- src/raft/config.go: how many servers have applied an entry.
use mit_distributed_systems.Prelude.{
  ℕ, zero, suc, ◌+◌, ◌<◌, ◌≤◌, ◌≡◌, ◌↔◌, refl, sym, ap, ◌∙◌, Bool, true, Option, none, some, ltb,
  if◌then◌else◌, ◌>>=◌, Option-cases, Bool-cases, inl, inr, arith, dec_lt,
}
use mit_distributed_systems.RaftTest.Logs.{Logs, is_some, count_entry, committed_of, n_committed}
use mit_distributed_systems.RaftTest.Agreement.{AreAgreed}

module _ {V : Type 0} where
  -- How many of the first `k` servers have an entry.
  unfoldable pub holders : (ℕ → ℕ → Option V) → ℕ → ℕ → ℕ
  holders logs zero index = 0
  holders logs (suc k) index = holders logs k index + (if is_some (logs k index) then 1 else 0)

module _ {V : Type 0} (eq : V → V → Bool) (eq_iff : (a b : V) → (eq a b ≡ true) ↔ (a ≡ b)) where
  -- What `nCommitted` has after the first `k` servers.
  record Tally (logs : ℕ → ℕ → Option V) (k index : ℕ) : Type 0 where
    count : ℕ
    command : Option V
    is : committed_of eq logs k index ≡ some (count, command)
    counts : count ≡ holders logs k index
    all : (i : ℕ) (v : V) → i < k → logs i index ≡ some v → command ≡ some v
    from : (w : V) → command ≡ some w → (i : ℕ) × (i < k) × (logs i index ≡ some w)

  count_entry-some :
      (count : ℕ) (o : Option V) (v : V)
      → ((w : V) → o ≡ some w → w ≡ v)
      → count_entry eq (count, o) (some v) ≡ some (count + 1, some v)
  count_entry-some count none v h = refl
  count_entry-some count (some w) v h = elim (Bool-cases (ltb 0 count)) [
    | inl some_so_far ↦ rw ((eq_iff w v).1 (h w refl), some_so_far) refl
    | inr none_so_far ↦ rw ((eq_iff w v).1 (h w refl), none_so_far) refl
  ]

  Tally-none :
      (logs : ℕ → ℕ → Option V) (k index : ℕ)
      → logs k index ≡ none
      → Tally logs k index
      → Tally logs (suc k) index
  unfolding committed_of holders
  Tally-none logs k index e t = record {
    count = t.count;
    command = t.command;
    is = rw (t.is, e, ◌>>=◌) refl;
    counts = rw e (omega (arith, t.counts));
    all = λ i v lt h. elim (dec_lt i k) [
      | yes below ↦ t.all i v below h
      | no last ↦
          let here : i ≡ k = omega (arith, lt, last) in
          let missing = sym h ∙ ap (λ j. logs j index) here ∙ e in cc
    ];
    from = λ w h. let (i, lt, at) = t.from w h in (i, omega (arith, lt), at);
  }

  Tally-some :
      (logs : ℕ → ℕ → Option V) (k index : ℕ) (v : V)
      → ((i : ℕ) (w : V) → i < k → logs i index ≡ some w → w ≡ v)
      → logs k index ≡ some v
      → Tally logs k index
      → Tally logs (suc k) index
  unfolding committed_of holders
  Tally-some logs k index v same e t = record {
    count = t.count + 1;
    command = some v;
    is =
        ap (λ o. o >>= (λ acc. count_entry eq acc (logs k index))) t.is
        ∙ ap (count_entry eq (t.count, t.command)) e
        ∙ count_entry-some t.count t.command v
            (λ w h. let (i, lt, at) = t.from w h in same i w lt at);
    counts = rw e (omega (arith, t.counts));
    all = λ i w lt h. elim (dec_lt i k) [
      | yes below ↦ ap some (sym (same i w below h))
      | no last ↦
          let here : i ≡ k = omega (arith, lt, last) in
          sym e ∙ ap (λ j. logs j index) (sym here) ∙ h
    ];
    from = λ w h. (k, omega arith, e ∙ h);
  }

  agreed-Tally : (cfg : Logs V) (k index : ℕ) → AreAgreed cfg → k ≤ cfg.n → Tally cfg.logs k index
  unfolding committed_of holders
  agreed-Tally cfg zero index v le = record {
    count = 0;
    command = none;
    is = refl;
    counts = refl;
    all = λ i w lt h. absurd (omega (arith, lt));
    from = λ w h. cc;
  }
  agreed-Tally cfg (suc k) index v le =
      let t = agreed-Tally cfg k index v (omega (arith, le)) in
      elim (Option-cases (cfg.logs k index)) [
        | inl e ↦ Tally-none cfg.logs k index e t
        | inr (w, e) ↦
            let same : (i : ℕ) (u : V) → i < k → cfg.logs i index ≡ some u → u ≡ w =
              λ i u lt h. v.same i k index u w (omega (arith, le, lt)) (omega (arith, le)) h e in
            Tally-some cfg.logs k index w same e t
      ]

  -- On logs that agree, `nCommitted` does not fail the test: it gives the number of servers that have
  -- an entry at the index, with the command of all these entries. The comparison of commands decides
  -- equality.
  pub n_committed_counts :
      (cfg : Logs V) (index : ℕ)
      → AreAgreed cfg
      → (command : Option V) × (n_committed eq cfg index
          ≡ some (holders cfg.logs cfg.n index, command))
        × ((i : ℕ) (v : V) → i < cfg.n → cfg.logs i index ≡ some v → command ≡ some v)
  unfolding n_committed
  n_committed_counts cfg index v =
      let t = agreed-Tally cfg cfg.n index v (omega arith) in
      (t.command, t.is ∙ ap (λ c. some (c, t.command)) t.counts, t.all)
