-- ===== src/Porcupine/Exact/Rounds.antt =====
-- src/porcupine/checker.go: one round of checkSingle, by what stands at the cursor.
use mit_distributed_systems.Prelude.{
  ℕ, zero, suc, ◌+◌, ◌*◌, ◌<◌, ◌≡◌, refl, sym, subst, ap, ◌∙◌, List, [], ◌∷◌, ◌++◌, append_assoc,
  map, length, Bool, true, false, ◌||◌, Option, none, some, arith, ℤ,
}
use mit_distributed_systems.Porcupine.History.{call_entry}
use mit_distributed_systems.Porcupine.Items.{Item}
use mit_distributed_systems.Porcupine.Links.{Node}
use mit_distributed_systems.Porcupine.Search.{Search, Outcome, going, answered, round, seq_of_calls}
use mit_distributed_systems.Porcupine.Reference.{accept, linearize, weight, without}
use mit_distributed_systems.Porcupine.Chain.{Chain, Chain-first, Chain-behind, first}
use mit_distributed_systems.Porcupine.Pairs.{Pair-ne_nil}
use mit_distributed_systems.Porcupine.Exact.Defs.{View, debt, cost, pending, resume, value, IsState}

weight_pos : (left : ℕ) → 0 < weight left
unfolding weight
weight_pos zero = omega arith
weight_pos (suc left) = omega arith

cheaper : (k w d : ℕ) → 0 < w → k * w + d < suc k * w + d
cheaper k w d h = grind arith

module _ {V S : Type 0} (step : S → V → V → Bool × S) (eq : S → S → Bool) (rank : ℕ → ℕ) (head : ℕ)
    (s0 : ℕ → Node V) (n : ℕ) (all : List (Item V)) where
  -- What a round does: it answers with the value of the state, or goes on with a state of the same
  -- value and a lower cost.
  pub data Rounded (o : Option (Outcome V S)) (v : Bool) (c : ℕ) : Type 0 where
    done : (l : List (Option (List ℤ))) → o ≡ some (answered v l) → Rounded o v c
    more :
        (st : Search V S) (g : View V S)
        → o ≡ some (going st)
        → IsState step eq rank head s0 n all st g
        → value step g st.state ≡ v
        → cost g < c
        → Rounded o v c

  pub round-finished :
      (compute : Bool) (st : Search V S) (g : View V S)
      → IsState step eq rank head s0 n all st g
      → g.items ≡ []
      → Rounded (round step eq compute head false st) (value step g st.state) (cost g)
  unfolding round
  round-finished compute st g v e =
      let nothing : (st.links head).next ≡ none =
        Chain-first rank st.links head g.items v.level.chain ∙ ap first e in
      let none_left : g.left ≡ 0 = ground (arith, v.level.size, e) in
      let wins : value step g st.state ≡ true = rw none_left refl in
      done (map (λ old. some (seq_of_calls st.links st.calls)) st.longest)
        (rw (nothing, wins, round) refl)

  -- The cursor goes on behind the call `c`, which leads nowhere.
  pub skip :
      (st : Search V S) (g : View V S) (c : Item V) (rest : List (Item V)) (left : ℕ)
      (o : Option (Outcome V S))
      → IsState step eq rank head s0 n all st g
      → g.rest ≡ c ∷ rest
      → g.left ≡ suc left
      → c.1.kind ≡ call_entry
      → (elim (accept step st.state c rest) [
        | none ↦ false
        | some st' ↦ linearize step left st' (without c.1.id g.items)
      ])
        ≡ false
      → o ≡ some (going (record st { entry = (st.links c.0).next }))
      → Rounded o (value step g st.state) (cost g)
  skip st g c rest left o v at l k dead e =
      let place : g.items ≡ g.seen ++ c ∷ rest = v.place ∙ ap (λ r. g.seen ++ r) at in
      let pair = v.level.paired.calls g.seen c rest place k in
      let chain : Chain rank st.links head (g.seen ++ c ∷ rest) =
        subst (Chain rank st.links head) place v.level.chain in
      let on =
        Chain-first rank st.links c.0 rest
          (Chain-behind rank st.links head g.seen (c ∷ rest) chain).0.3 in
      let same : pending step g.left st.state g.items g.rest
          ≡ pending step g.left st.state g.items rest =
        rw (l, at) (ground (arith, k, dead)) in
      more (record st { entry = (st.links c.0).next })
        (record g { seen = g.seen ++ c ∷ []; rest = rest }) e
        (record {
          level = v.level;
          place = place ∙ sym (append_assoc g.seen (c ∷ []) rest);
          cursor = λ h. absurd (Pair-ne_nil s0 n g.seen c rest pair h);
          entry_is = on;
          passed = v.passed ∙ same;
          trail = v.trail;
          cached = v.cached;
          noted = v.noted;
        })
        (ap (λ b. b || resume step g.parents) (sym same))
        (rw at (cheaper (length rest) (weight g.left) (debt g.parents) (weight_pos g.left)))
