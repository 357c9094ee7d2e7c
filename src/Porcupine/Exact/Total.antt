-- ===== src/Porcupine/Exact/Total.antt =====
-- src/porcupine/checker.go: every round of checkSingle, and the whole loop.
use mit_distributed_systems.Prelude.{
  ℕ, zero, suc, ◌+◌, ◌<◌, ◌≡◌, ◌↔◌, refl, ap, ◌∙◌, List, [], ◌∷◌, ◌++◌, length, Bool, true, false,
  Option, none, some, inl, inr, Bool-cases, arith, ℤ, length-append,
}
use mit_distributed_systems.Porcupine.History.{EntryKind, call_entry, return_entry}
use mit_distributed_systems.Porcupine.Items.{Item}
use mit_distributed_systems.Porcupine.Links.{Node}
use mit_distributed_systems.Porcupine.Search.{
  Search, CallsEntry, round, run, visit, offered, pop_call,
}
use mit_distributed_systems.Porcupine.Reference.{accept, return_of}
use mit_distributed_systems.Porcupine.Chain.{Chain-first, first}
use mit_distributed_systems.Porcupine.Pairs.{Pair-return_of}
use mit_distributed_systems.Porcupine.Exact.Defs.{
  Parent, View, cost, pending, value, IsTrail, IsState,
}
use mit_distributed_systems.Porcupine.Exact.Rounds.{Rounded, done, more, skip, round-finished}
use mit_distributed_systems.Porcupine.Exact.Pop.{pop_call-above}
use mit_distributed_systems.Porcupine.Exact.Push.{push_call-Rounded}

first-append :
    {V : Type 0} (seen : List (Item V)) (a : Item V) (rest : List (Item V))
    → (x : ℕ) × (first (seen ++ a ∷ rest) ≡ some x)
first-append [] a rest = (a.0, refl)
first-append (b ∷ seen) a rest = (b.0, refl)

positive : (left : ℕ) → 0 < left + left → (l : ℕ) × (left ≡ suc l)
positive zero h = absurd (omega arith)
positive (suc l) h = (l, refl)

module _ {V S : Type 0} (step : S → V → V → Bool × S) (eq : S → S → Bool)
    (eq_iff : (a b : S) → (eq a b ≡ true) ↔ (a ≡ b)) (rank : ℕ → ℕ) (head : ℕ) (s0 : ℕ → Node V)
    (n : ℕ) (all : List (Item V)) where
  pop_call-Rounded :
      (compute : Bool) (st : Search V S) (g : View V S) (ps : List (Parent V S))
      (calls : List (CallsEntry S))
      → g.parents ≡ ps
      → st.calls ≡ calls
      → IsTrail step eq rank head s0 n all ps calls st.links st.linearized g.left st.state
      → IsState step eq rank head s0 n all st g
      → pending step g.left st.state g.items g.rest ≡ false
      → Rounded step eq rank head s0 n all
          (pop_call step eq compute st)
          (value step g st.state)
          (cost g)
  unfolding pop_call
  pop_call-Rounded compute st g [] [] e k t v h = done st.longest (rw (k, h, e, pop_call) refl)
  pop_call-Rounded compute st g [] (top ∷ calls) e k t v h = absurd t
  pop_call-Rounded compute st g (p ∷ ps) [] e k t v h = absurd t
  pop_call-Rounded compute st g (p ∷ ps) (top ∷ calls) e k t v h =
      pop_call-above step eq rank head s0 n all compute st g p ps top calls v e k t h

  -- The call at the cursor, whatever the model says of it.
  offered-Rounded :
      (st : Search V S) (g : View V S) (c : Item V) (rest : List (Item V)) (left : ℕ) (r : Item V)
      → IsState step eq rank head s0 n all st g
      → g.rest ≡ c ∷ rest
      → g.left ≡ suc left
      → c.1.kind ≡ call_entry
      → return_of c.1.id rest ≡ some r
      → Rounded step eq rank head s0 n all
          (offered step eq head st c.0 (step st.state c.1.value r.1.value))
          (value step g st.state)
          (cost g)
  unfolding offered
  offered-Rounded st g c rest left r v at l k ret =
      elim (Bool-cases (step st.state c.1.value r.1.value).0) [
        | inl ok ↦
            let acc : accept step st.state c rest ≡ some (step st.state c.1.value r.1.value).1 =
              ground (arith, ret, ok) in
            rw (ok, offered)
              (push_call-Rounded step eq rank head s0 n all eq_iff st g c rest left
                (step st.state c.1.value r.1.value).1 v at l k acc)
        | inr bad ↦
            let acc : accept step st.state c rest ≡ none = ground (arith, ret, bad) in
            skip step eq rank head s0 n all st g c rest left _ v at l k (rw acc refl)
              (rw (bad, offered) refl)
      ]

  -- A round with the cursor at `a`.
  visit-Rounded :
      (compute : Bool) (st : Search V S) (g : View V S) (a : Item V) (rest : List (Item V))
      (left : ℕ) (kind : EntryKind)
      → a.1.kind ≡ kind
      → IsState step eq rank head s0 n all st g
      → g.rest ≡ a ∷ rest
      → g.left ≡ suc left
      → g.items ≡ g.seen ++ a ∷ rest
      → Rounded step eq rank head s0 n all
          (visit step eq compute head st a.0)
          (value step g st.state)
          (cost g)
  unfolding visit
  visit-Rounded compute st g a rest left call_entry k v at l place =
      let p = v.level.paired.calls g.seen a rest place k in
      let same = v.level.same in
      let matched : (st.links a.0).matching ≡ some p.ret.0 = (same a.0).2 ∙ p.matched in
      let input : (st.links a.0).value ≡ some a.1.value = (same a.0).0 ∙ p.input in
      let output : (st.links p.ret.0).value ≡ some p.ret.1.value = (same p.ret.0).0 ∙ p.output in
      rw (matched, input, output, visit)
        (offered-Rounded st g a rest left p.ret v at l k (Pair-return_of s0 n g.seen a rest p))
  visit-Rounded compute st g a rest left return_entry k v at l place =
      let unmatched : (st.links a.0).matching ≡ none =
        (v.level.same a.0).2 ∙ v.level.paired.returns g.seen a rest place k in
      let over : pending step g.left st.state g.items g.rest ≡ false =
        rw (l, at) (ground (arith, k)) in
      rw (unmatched, visit)
        (pop_call-Rounded compute st g g.parents st.calls refl refl v.trail v over)

  round-at :
      (compute : Bool) (st : Search V S) (g : View V S) (rest : List (Item V))
      → g.rest ≡ rest
      → IsState step eq rank head s0 n all st g
      → Rounded step eq rank head s0 n all
          (round step eq compute head false st)
          (value step g st.state)
          (cost g)
  unfolding round
  round-at compute st g [] at v =
      round-finished step eq rank head s0 n all compute st g v (v.cursor at)
  round-at compute st g (a ∷ rest) at v =
      let place : g.items ≡ g.seen ++ a ∷ rest = v.place ∙ ap (λ r. g.seen ++ r) at in
      let (l, left) =
        positive g.left
          (omega (arith, v.level.size, ap length place, length-append g.seen (a ∷ rest))) in
      let (x, some_x) = first-append g.seen a rest in
      let starts : (st.links head).next ≡ some x =
        Chain-first rank st.links head g.items v.level.chain ∙ ap first place ∙ some_x in
      let entry : st.entry ≡ some a.0 = v.entry_is ∙ ap first at in
      rw (starts, entry, round) (visit-Rounded compute st g a rest l a.1.kind refl v at left place)

  -- With more rounds than the state's cost, the loop answers with its value.
  pub run-value :
      (fuel : ℕ) (compute : Bool) (kill : ℕ → Bool) (st : Search V S) (g : View V S)
      → ((i : ℕ) → kill i ≡ false)
      → IsState step eq rank head s0 n all st g
      → cost g < fuel
      → (l : List (Option (List ℤ))) × (run step eq fuel compute head kill st
          ≡ some (value step g st.state, l))
  unfolding run
  run-value zero compute kill st g alive v h = absurd (omega arith)
  run-value (suc fuel) compute kill st g alive v h = elim (round-at compute st g g.rest refl v) [
    | done l e ↦ (l, rw (alive fuel, e) refl)
    | more st' g' e v' same less ↦
        let (l, r) = run-value fuel compute kill st' g' alive v' (omega arith) in
        (l, rw (alive fuel, e) (r ∙ ap (λ b. some (b, l)) same))
  ]
