-- ===== src/RaftTest/Agreement.antt =====
-- src/raft/config.go: what the tests find out about the logs of the servers.
use mit_distributed_systems.Prelude.{
  ℕ, zero, suc, ◌-◌, ◌<◌, ◌≡◌, ◌↔◌, ◌⊎◌, refl, sym, ap, ◌∙◌, subst, Bool, true, false, not, ◌&&◌,
  Option, none, some, ltb, update, ◌==◌, ==_iff, Bool-cases, inl, inr, arith, dec_lt,
}
use mit_distributed_systems.Raft.State.{ApplyMsg}
use mit_distributed_systems.RaftTest.Logs.{Logs, is_some, differs, any_differs, check_logs, applier}

module _ {V : Type 0} where
  -- Any two servers have the same entry where both have one, and the logs have no gap.
  pub record AreAgreed (cfg : Logs V) : Type 0 where
    pub same :
        (i j k : ℕ) (v w : V)
        → i < cfg.n
        → j < cfg.n
        → cfg.logs i k ≡ some v
        → cfg.logs j k ≡ some w
        → v ≡ w
    pub no_gap :
        (i k : ℕ)
        → i < cfg.n
        → 1 < k
        → is_some (cfg.logs i k) ≡ true
        → is_some (cfg.logs i (k - 1)) ≡ true

  -- A message fits if no server has another entry at its index, and the server has the one in front.
  pub record Fits (cfg : Logs V) (i : ℕ) (m : ApplyMsg V) : Type 0 where
    pub same_as : (j : ℕ) (w : V) → j < cfg.n → cfg.logs j m.command_index ≡ some w → w ≡ m.command
    pub next : 1 < m.command_index → is_some (cfg.logs i (m.command_index - 1)) ≡ true

  -- The logs after one more entry.
  abbrev pub put_entry : (ℕ → ℕ → Option V) → ℕ → ℕ → V → ℕ → ℕ → Option V
  put_entry logs i index v = update logs i (update (logs i) index (some v))

  some-same : {v w : V} → ◌≡◌ {A = Option V} (some v) (some w) → v ≡ w
  some-same e = cc

  put_entry_here :
      (logs : ℕ → ℕ → Option V) (i index : ℕ) (v : V) → put_entry logs i index v i index ≡ some v
  put_entry_here logs i index v = rw ((==_iff i i).1 refl, (==_iff index index).1 refl) refl

  put_entry-cases :
      (logs : ℕ → ℕ → Option V) (i index : ℕ) (v : V) (a k : ℕ)
      → ((a ≡ i) × (k ≡ index) × (put_entry logs i index v a k ≡ some v))
        ⊎ (put_entry logs i index v a k ≡ logs a k)
  put_entry-cases logs i index v a k = elim (Bool-cases (a == i)) [
    | inr other ↦ inr (rw other refl)
    | inl same ↦ elim (Bool-cases (k == index)) [
      | inl here ↦ inl ((==_iff a i).0 same, (==_iff k index).0 here, rw (same, here) refl)
      | inr there ↦
          let e = (==_iff a i).0 same in inr (rw (same, there) (ap (λ j. logs j k) (sym e)))
    ]
  ]

module _ {V : Type 0} (eq : V → V → Bool) (eq_iff : (a b : V) → (eq a b ≡ true) ↔ (a ≡ b)) where
  differs-same : (o : Option V) (v w : V) → differs eq o v ≡ false → o ≡ some w → w ≡ v
  differs-same none v w h e = cc
  differs-same (some old) v w h e =
      let t : eq old v ≡ true = ground (arith, h) in let o = (eq_iff old v).0 t in cc

  same-differs : (o : Option V) (v : V) → ((w : V) → o ≡ some w → w ≡ v) → differs eq o v ≡ false
  same-differs none v h = refl
  same-differs (some old) v h = rw ((eq_iff old v).1 (h old refl)) refl

  any_differs-same :
      (logs : ℕ → ℕ → Option V) (n index : ℕ) (v : V) (j : ℕ)
      → any_differs eq logs n index v ≡ false
      → j < n
      → differs eq (logs j index) v ≡ false
  unfolding any_differs
  any_differs-same logs zero index v j h lt = absurd (omega (arith, lt))
  any_differs-same logs (suc n) index v j h lt = elim (dec_lt j n) [
    | yes below ↦ any_differs-same logs n index v j (ground (arith, h)) below
    | no last ↦
        let here : n ≡ j = omega (arith, lt, last) in
        subst (λ i. differs eq (logs i index) v ≡ false) here (ground (arith, h))
  ]

  same-any_differs :
      (logs : ℕ → ℕ → Option V) (n index : ℕ) (v : V)
      → ((j : ℕ) → j < n → differs eq (logs j index) v ≡ false)
      → any_differs eq logs n index v ≡ false
  unfolding any_differs
  same-any_differs logs zero index v h = refl
  same-any_differs logs (suc n) index v h =
      ground (
        arith,
        h n (omega arith),
        same-any_differs logs n index v (λ j lt. h j (omega (arith, lt))),
      )

  applied : Logs V → ℕ → ApplyMsg V → Logs V
  applied cfg i m = (check_logs eq cfg i m).0

  kept_before :
      (cfg : Logs V) (i : ℕ) (m : ApplyMsg V)
      → AreAgreed cfg
      → Fits cfg i m
      → (a k : ℕ) → a < cfg.n
      → 1 < k
      → is_some (put_entry cfg.logs i m.command_index m.command a k) ≡ true
      → is_some (cfg.logs a (k - 1)) ≡ true
  kept_before cfg i m old fits a k la gt h =
      elim (put_entry-cases cfg.logs i m.command_index m.command a k) [
        | inl (ai, ki, new) ↦
            let front = fits.next (subst (λ j. 1 < j) ki gt) in
            subst (λ j. is_some (cfg.logs j (k - 1)) ≡ true) (sym ai)
              (subst (λ j. is_some (cfg.logs i (j - 1)) ≡ true) (sym ki) front)
        | inr kept ↦ old.no_gap a k la gt (subst (λ o. is_some o ≡ true) kept h)
      ]

  put_entry-AreAgreed :
      (cfg : Logs V) (i : ℕ) (m : ApplyMsg V)
      → i < cfg.n
      → AreAgreed cfg
      → Fits cfg i m
      → AreAgreed (applied cfg i m)
  unfolding applied check_logs
  put_entry-AreAgreed cfg i m low old fits =
      let index = m.command_index in
      let cases = put_entry-cases cfg.logs i index m.command in
      record {
        same = λ a b k v w la lb h g. elim (cases a k) [
          | inl (ai, ki, new) ↦ elim (cases b k) [
            | inl (bi, kj, new') ↦ some-same (sym h ∙ new) ∙ sym (some-same (sym g ∙ new'))
            | inr kept' ↦
                some-same (sym h ∙ new)
                ∙ sym (fits.same_as b w lb (ap (cfg.logs b) (sym ki) ∙ sym kept' ∙ g))
          ]
          | inr kept ↦ elim (cases b k) [
            | inl (bi, kj, new') ↦
                fits.same_as a v la (ap (cfg.logs a) (sym kj) ∙ sym kept ∙ h)
                ∙ sym (some-same (sym g ∙ new'))
            | inr kept' ↦ old.same a b k v w la lb (sym kept ∙ h) (sym kept' ∙ g)
          ]
        ];
        no_gap = λ a k la gt h.
            let before = kept_before cfg i m old fits a k la gt h in
            elim (cases a (k - 1)) [
              | inl (ai, ki, new) ↦ subst (λ o. is_some o ≡ true) (sym new) refl
              | inr kept ↦ subst (λ o. is_some o ≡ true) (sym kept) before
            ];
      }

  Fits-no_error :
      (cfg : Logs V) (i : ℕ) (m : ApplyMsg V)
      → Fits cfg i m
      → any_differs eq cfg.logs cfg.n m.command_index m.command ≡ false
  Fits-no_error cfg i m fits =
      same-any_differs cfg.logs cfg.n m.command_index m.command
        (λ j lt. same-differs (cfg.logs j m.command_index) m.command (λ w. fits.same_as j w lt))

  -- What `applier` does with a message with a command, on logs that agree and have no gap. If the
  -- message fits, it is stored, and the logs still agree and have no gap. If it does not fit, since a
  -- server has another entry at its index or the server has none in front of it, the test fails. The
  -- comparison of commands decides equality.
  pub applier_detects :
      (cfg : Logs V) (i : ℕ) (m : ApplyMsg V)
      → i < cfg.n
      → AreAgreed cfg
      → m.command_valid ≡ true
      → (Fits cfg i m
          × ((cfg' : Logs V) × (applier eq cfg i m ≡ some cfg')
              × AreAgreed cfg'
              × (cfg'.logs i m.command_index ≡ some m.command)))
        ⊎ ((¬ (Fits cfg i m)) × (applier eq cfg i m ≡ none))
  unfolding applier check_logs applied
  applier_detects cfg i m low old valid =
      let index = m.command_index in
      let err = any_differs eq cfg.logs cfg.n index m.command in
      let prev = is_some (cfg.logs i (index - 1)) in
      elim (Bool-cases err) [
        | inl bad ↦ inr (λ fits. let fine = Fits-no_error cfg i m fits in cc, rw (valid, bad) refl)
        | inr good ↦ elim (Bool-cases (ltb 1 index && not prev)) [
          | inl gap ↦ inr (
            λ fits. let front = fits.next (ground (arith, gap)) in ground (arith, gap, front),
            rw (valid, good, gap) refl,
          )
          | inr no_gap ↦
              let fits : Fits cfg i m = record {
                same_as = λ j w lt e.
                    differs-same (cfg.logs j index) m.command w
                      (any_differs-same cfg.logs cfg.n index m.command j good lt) e;
                next = λ gt. ground (arith, no_gap, gt);
              } in
              inl (
                fits,
                (
                  applied cfg i m,
                  rw (valid, good, no_gap) refl,
                  put_entry-AreAgreed cfg i m low old fits,
                  put_entry_here cfg.logs i index m.command,
                ),
              )
        ]
      ]
