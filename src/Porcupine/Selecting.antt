-- ===== src/Porcupine/Selecting.antt =====
-- src/porcupine/checker.go: what the loop of checkParallel says of the parts.
use mit_distributed_systems.Prelude.{
  Every, subst, ℕ, zero, suc, ◌+◌, ◌<◌, ◌≤◌, Option-cases, subst, ◌≡◌, ◌⊎◌, ◌↔◌, refl, sym, ap, ◌∙◌,
  List, [], ◌∷◌, length, Bool, true, false, ◌&&◌, ◌||◌, not, Bool-cases, none, some, inl, inr,
  arith, leb, ltb, if◌then◌else◌, >>=-eq-some,
}
use mit_distributed_systems.Porcupine.History.{Entry}
use mit_distributed_systems.Porcupine.Parallel.{
  Model, Arrival, finished, time_out, Loop, take_at, check_part, select_loop,
}

-- `n` results come, from whichever goroutines, and the time limit does not.
abbrev pub Serves : ℕ → List Arrival → Type 0
Serves zero arrivals = Unit {0}
Serves (suc n) [] = ⊥
Serves (suc n) (time_out ∷ arrivals) = ⊥
Serves (suc n) (finished k ∷ arrivals) = (k < suc n) × Serves n arrivals

module _ {A : Type 0} where
  record Taken (k : ℕ) (xs : List A) : Type 0 where
    one : A
    others : List A
    is : take_at k xs ≡ some (one, others)

  take_at_total : (k : ℕ) (xs : List A) → k < length xs → Taken k xs
  unfolding take_at
  take_at_total k [] h = absurd (omega arith)
  take_at_total zero (x ∷ xs) h = record { one = x; others = xs; is = refl }
  take_at_total (suc k) (x ∷ xs) h =
      let t = take_at_total k xs (omega arith) in
      record { one = t.one; others = x ∷ t.others; is = rw t.is refl }

  record Splits (Q : A → Type 0) (xs : List A) (y : A) (ys : List A) : Type 0 where
    size : length xs ≡ length ys + 1
    parted : Every Q xs → Q y × Every Q ys
    joined : Q y → Every Q ys → Every Q xs

  take_at-Splits :
      (Q : A → Type 0) (k : ℕ) (xs : List A) (y : A) (ys : List A)
      → take_at k xs ≡ some (y, ys)
      → Splits Q xs y ys
  unfolding take_at
  take_at-Splits Q k [] y ys e = cc
  take_at-Splits Q zero (x ∷ xs) y ys e =
      let one : x ≡ y = cc in
      let others : xs ≡ ys = cc in
      record {
        size = omega (arith, ap length others);
        parted = λ (q, qs). (subst Q one q, subst (Every Q) others qs);
        joined = λ q qs. (subst Q (sym one) q, subst (Every Q) (sym others) qs);
      }
  take_at-Splits Q (suc k) (x ∷ xs) y ys e =
      let ((y', ys'), at, same) = >>=-eq-some (take_at k xs) (λ (y, ys). some (y, x ∷ ys)) e in
      let one : y' ≡ y = cc in
      let others : x ∷ ys' ≡ ys = cc in
      let s = take_at-Splits Q k xs y' ys' at in
      record {
        size = omega (arith, s.size, ap length others);
        parted = λ (q, qs).
            let (here, there) = s.parted qs in
            (subst Q one here, subst (Every Q) others (q, there));
        joined = λ q qs.
            let (here, there) = subst (Every Q) (sym others) qs in
            (here, s.joined (subst Q (sym one) q) there);
      }

length_zero : {A : Type 0} (xs : List A) → length xs ≡ 0 → xs ≡ []
length_zero [] h = refl
length_zero (x ∷ xs) h = absurd (omega (arith, h))

module _ {V S : Type 0} (fuel : ℕ) (model : Model V S) (compute_info : Bool) (timeout total : ℕ)
    (P : List (Entry V) → Type 0) where
  -- The goroutine of the part answers, and says whether `P` holds of it.
  pub record Checked (part : List (Entry V)) : Type 0 where
    pub answer : Bool
    pub is : check_part fuel model compute_info part ≡ some answer
    pub means : (answer ≡ true) ↔ P part

  -- What the variables at the end say of those before.
  pub record Means (st st' : Loop V) : Type 0 where
    pub no : st'.all_ok ≡ false → st.all_ok ≡ true → Every P st.pending → ⊥
    pub yes : st'.all_ok ≡ true → st'.timed_out ≡ false → (st.all_ok ≡ true) × Every P st.pending
    pub late : st'.timed_out ≡ true → (st.timed_out ≡ true) ⊎ (0 < timeout)

  abbrev after : Loop V → Bool → List (List (Entry V)) → Loop V
  after st result pending = record st {
    all_ok = st.all_ok && result;
    count = st.count + 1;
    pending = pending;
  }

  Means-refl : (st : Loop V) → (st.all_ok ≡ false) ⊎ (st.pending ≡ []) → Means st st
  Means-refl st (inl bad) = record { no = λ f t e. cc; yes = λ t f. cc; late = inl }
  Means-refl st (inr nothing) = record {
    no = λ f t e. cc;
    yes = λ t f. (t, subst (Every P) (sym nothing) tt);
    late = inl;
  }

  Means-after :
      (k : ℕ) (st st' : Loop V) (part : List (Entry V)) (pending : List (List (Entry V)))
      → take_at k st.pending ≡ some (part, pending)
      → (c : Checked part) → Means (after st c.answer pending) st'
      → Means st st'
  Means-after k st st' part pending at c m =
      let s = take_at-Splits P k st.pending part pending at in
      record {
        no = λ f t e.
            let (here, there) = s.parted e in
            let good = c.means.1 here in m.no f (ground (arith, t, good)) there;
        yes = λ t f.
            let (both, there) = m.yes t f in
            let good : c.answer ≡ true = ground (arith, both) in
            (ground (arith, both), s.joined (c.means.0 good) there);
        late = m.late;
      }

  -- The loop ends behind these variables.
  abbrev ends : Loop V → Bool
  ends st = (not st.all_ok && not compute_info) || leb total st.count

  select_loop-finished :
      (k : ℕ) (arrivals : List Arrival) (st : Loop V) (part : List (Entry V))
      (pending : List (List (Entry V))) (answer : Bool)
      → take_at k st.pending ≡ some (part, pending)
      → check_part fuel model compute_info part ≡ some answer
      → select_loop fuel model compute_info timeout total (finished k ∷ arrivals) st ≡ (
          if ends (after st answer pending)
          then some (after st answer pending)
          else select_loop fuel model compute_info timeout total arrivals (after st answer pending))
  unfolding select_loop
  select_loop-finished k arrivals st part pending answer at is = rw (at, is) refl

  select_loop-gone :
      (k : ℕ) (arrivals : List Arrival) (st : Loop V)
      → take_at k st.pending ≡ none
      → select_loop fuel model compute_info timeout total (finished k ∷ arrivals) st ≡ none
  unfolding select_loop
  select_loop-gone k arrivals st at = rw at refl

  ends-cases :
      (st : Loop V)
      → st.count + length st.pending ≡ total
      → ends st ≡ true
      → (st.all_ok ≡ false) ⊎ (st.pending ≡ [])
  ends-cases st len t = elim (Bool-cases st.all_ok) [
    | inr f ↦ inl f
    | inl good ↦
        let full : total ≤ st.count = ground (arith, good, t) in
        inr (length_zero st.pending (omega (arith, full, len)))
  ]

  pub select_loop-Means :
      (arrivals : List Arrival) (st st' : Loop V)
      → Every Checked st.pending
      → st.count + length st.pending ≡ total
      → select_loop fuel model compute_info timeout total arrivals st ≡ some st'
      → Means st st'
  unfolding select_loop
  select_loop-Means [] st st' v len e = cc
  select_loop-Means (time_out ∷ arrivals) st st' v len e = elim (Bool-cases (ltb 0 timeout)) [
    | inl limit ↦
        let same : record st { timed_out = true } ≡ st' = ground (arith, limit, e) in
        record {
          no = λ f t x. ground (arith, ap (λ z. z.all_ok) same, f, t);
          yes = λ t f. ground (arith, ap (λ z. z.timed_out) same, f);
          late = λ t. inr (ground (arith, limit));
        }
    | inr without ↦ absurd (ground (arith, without, e))
  ]
  select_loop-Means (finished k ∷ arrivals) st st' v len e =
      elim (Option-cases (take_at k st.pending)) [
        | inl gone ↦ let nothing = sym (select_loop-gone k arrivals st gone) ∙ e in absurd (cc)
        | inr ((part, pending), at) ↦
            let s = take_at-Splits Checked k st.pending part pending at in
            let (c, others) = s.parted v in
            let st1 = after st c.answer pending in
            let next = sym (select_loop-finished k arrivals st part pending c.answer at c.is) ∙ e in
            let len' : st1.count + length st1.pending ≡ total = omega (arith, s.size, len) in
            Means-after k st st' part pending at c (elim (Bool-cases (ends st1)) [
              | inl stop ↦
                  let same : st1 ≡ st' = ground (arith, stop, next) in
                  subst (Means st1) same (Means-refl st1 (ends-cases st1 len' stop))
              | inr more ↦
                  select_loop-Means arrivals st1 st' others len' (ground (arith, more, next))
            ])
      ]

  -- What the loop ends with, and that it ends.
  pub record Ended (arrivals : List Arrival) (st : Loop V) : Type 0 where
    pub last : Loop V
    pub is : select_loop fuel model compute_info timeout total arrivals st ≡ some last
    pub in_time : last.timed_out ≡ st.timed_out

  pub select_loop-Ended :
      (arrivals : List Arrival) (st : Loop V)
      → Every Checked st.pending
      → st.count + length st.pending ≡ total
      → 0 < length st.pending
      → Serves (length st.pending) arrivals
      → Ended arrivals st
  select_loop-Ended arrivals st v len some_left sv =
      go arrivals st v len some_left (length st.pending) refl sv
    where
      go :
          (arrivals : List Arrival) (st : Loop V)
          → Every Checked st.pending
          → st.count + length st.pending ≡ total
          → 0 < length st.pending
          → (n : ℕ) → n ≡ length st.pending
          → Serves n arrivals
          → Ended arrivals st
      go arrivals st v len some_left zero same sv = absurd (omega (arith, same, some_left))
      go [] st v len some_left (suc n) same sv = absurd sv
      go (time_out ∷ arrivals) st v len some_left (suc n) same sv = absurd sv
      go (finished k ∷ arrivals) st v len some_left (suc n) same (lt, sv) =
          let t = take_at_total k st.pending (omega (arith, same, lt)) in
          let s = take_at-Splits Checked k st.pending t.one t.others t.is in
          let (c, others) = s.parted v in
          let st1 = after st c.answer t.others in
          let step = select_loop-finished k arrivals st t.one t.others c.answer t.is c.is in
          elim (Bool-cases (ends st1)) [
            | inl stop ↦ record { last = st1; is = step ∙ ground (arith, stop); in_time = refl }
            | inr more ↦
                let few : st1.count < total = ground (arith, more) in
                let r =
                  go arrivals st1 others (omega (arith, s.size, len))
                    (omega (arith, s.size, len, few)) n (omega (arith, s.size, same)) sv in
                record {
                  last = r.last;
                  is = step ∙ ground (arith, more, r.is);
                  in_time = r.in_time;
                }
          ]
