-- ===== src/Porcupine/Exact/Pop.antt =====
-- src/porcupine/checker.go: the round of checkSingle at a return.
use mit_distributed_systems.Prelude.{
  ℕ, suc, ◌+◌, ◌*◌, ◌<◌, ◌≡◌, refl, sym, subst, ap, ◌∙◌, List, [], ◌∷◌, ◌++◌, append_assoc, length,
  Bool, true, false, Option, some, inl, inr, arith, if◌then◌else◌, ℤ, pos,
}
use mit_distributed_systems.Porcupine.Items.{Item}
use mit_distributed_systems.Porcupine.Links.{Node}
use mit_distributed_systems.Porcupine.Cache.{CacheEntry}
use mit_distributed_systems.Porcupine.Search.{
  Search, CallsEntry, pop_call, seq_of_calls, note_longest,
}
use mit_distributed_systems.Porcupine.Reference.{linearize, weight, without}
use mit_distributed_systems.Porcupine.Chain.{Chain, Chain-first, Chain-behind}
use mit_distributed_systems.Porcupine.Pairs.{Pair-ne_nil}
use mit_distributed_systems.Porcupine.Live.{live, live-without}
use mit_distributed_systems.Porcupine.Exact.Defs.{
  Parent, View, debt, cost, pending, value, IsParent, IsTrail, IsState, Dead, IsCached,
}
use mit_distributed_systems.Porcupine.Exact.Noting.{
  AllBelow, note_longest_total, seq_of_calls-AllBelow,
}
use mit_distributed_systems.Porcupine.Exact.Rounds.{Rounded, more}

dearer : (a b d : ℕ) → a + d < b + (1 + a + d)
dearer a b d = omega arith

module _ {V S : Type 0} (step : S → V → V → Bool × S) (eq : S → S → Bool) (rank : ℕ → ℕ) (head : ℕ)
    (s0 : ℕ → Node V) (n : ℕ) (all : List (Item V)) where
  -- The current level is done with no success: its operations cannot be put in order.
  level-Dead :
      (st : Search V S) (g : View V S)
      → IsState step eq rank head s0 n all st g
      → pending step g.left st.state g.items g.rest ≡ false
      → Dead step eq rank head s0 n all st.linearized st.state
  level-Dead st g v e left size =
      let same : left ≡ g.left = omega (arith, v.level.size, ap length v.level.is_live) in
      rw (same, ← v.level.is_live) (v.passed ∙ e)

  popped-IsCached :
      (cache : List Bool → List (CacheEntry S)) (p : Parent V S) (ps : List (Parent V S))
      (b : List (List Bool)) (st : S)
      → IsCached step eq rank head s0 n all cache (p ∷ ps) b st
      → Dead step eq rank head s0 n all b st
      → IsCached step eq rank head s0 n all cache ps p.bits p.state
  popped-IsCached cache p ps b st v dead b' st' h = elim (v b' st' h) [
    | inl x ↦ inl x
    | inr (inl (sb, sst)) ↦ inl (rw (sb, sst) dead)
    | inr (inr y) ↦ inr y
  ]

  -- Back in the level of `p`, behind its call.
  back_in :
      (st : Search V S) (g : View V S) (p : Parent V S) (ps : List (Parent V S))
      (top : CallsEntry S) (calls : List (CallsEntry S)) (l : List (Option (List ℤ)))
      → IsState step eq rank head s0 n all st g
      → g.parents ≡ p ∷ ps
      → IsParent step eq rank head s0 n all p top st.links st.linearized g.left st.state
      → IsTrail step eq rank head s0 n all ps calls p.links p.bits (suc p.left) p.state
      → Dead step eq rank head s0 n all st.linearized st.state
      → length l ≡ n
      → IsState step eq rank head s0 n all
          (record {
            links = p.links;
            entry = (p.links p.call.0).next;
            linearized = p.bits;
            cache = st.cache;
            calls = calls;
            state = p.state;
            longest = l;
          })
          (record {
            items = p.items;
            seen = p.seen ++ p.call ∷ [];
            rest = p.rest;
            left = suc p.left;
            parents = ps;
          })
  back_in st g p ps top calls l v e up t dead size =
      let chain : Chain rank p.links head (p.seen ++ p.call ∷ p.rest) =
        subst (Chain rank p.links head) up.place up.level.chain in
      let items : live st.linearized all ≡ without p.call.1.id p.items =
        live-without p.bits st.linearized p.call.1.id all up.bits_are
        ∙ ap (without p.call.1.id) (sym up.level.is_live) in
      let few : length (live st.linearized all) ≡ p.left + p.left =
        omega (arith, up.left_is, v.level.size, ap length v.level.is_live) in
      let lost : linearize step p.left st.state (without p.call.1.id p.items) ≡ false =
        sym (ap (linearize step p.left st.state) items) ∙ dead p.left few in
      record {
        level = up.level;
        place = up.place ∙ sym (append_assoc p.seen (p.call ∷ []) p.rest);
        cursor = λ h. absurd (Pair-ne_nil s0 n p.seen p.call p.rest up.pair h);
        entry_is =
            Chain-first rank p.links p.call.0 p.rest
              (Chain-behind rank p.links head p.seen (p.call ∷ p.rest) chain).0.3;
        passed = up.passed ∙ ground (arith, up.is_call, up.accepted, lost);
        trail = t;
        cached =
            popped-IsCached st.cache p ps st.linearized st.state
              (subst
                (λ (q : List (Parent V S)).
                  IsCached step eq rank head s0 n all st.cache q st.linearized st.state)
                e v.cached)
              dead;
        noted = size;
      }

  noting :
      (compute : Bool) (seq : List ℤ) (longest : List (Option (List ℤ)))
      → AllBelow n seq
      → length longest ≡ n
      → (l : List (Option (List ℤ))) × ((if compute
            then note_longest seq seq longest
            else some longest)
          ≡ some l)
        × (length l ≡ n)
  noting true seq longest h len = note_longest_total n seq seq longest h len
  noting false seq longest h len = (longest, refl, len)

  pub pop_call-above :
      (compute : Bool) (st : Search V S) (g : View V S) (p : Parent V S) (ps : List (Parent V S))
      (top : CallsEntry S) (calls : List (CallsEntry S))
      → IsState step eq rank head s0 n all st g
      → g.parents ≡ p ∷ ps
      → st.calls ≡ top ∷ calls
      → IsTrail step eq rank head s0 n all
          (p ∷ ps)
          (top ∷ calls)
          st.links
          st.linearized
          g.left
          st.state
      → pending step g.left st.state g.items g.rest ≡ false
      → Rounded step eq rank head s0 n all
          (pop_call step eq compute st)
          (value step g st.state)
          (cost g)
  unfolding pop_call
  pop_call-above compute st g p ps top calls v e k (up, t) h =
      let dead = level-Dead st g v h in
      let below =
        seq_of_calls-AllBelow step eq rank head s0 n all (p ∷ ps) (top ∷ calls) st.links st.links
          st.linearized g.left st.state v.level.same (up, t) in
      let seq = seq_of_calls st.links (top ∷ calls) in
      let (l, noted, size) = noting compute seq st.longest below v.noted in
      let next : Search V S = record {
        links = p.links;
        entry = (p.links p.call.0).next;
        linearized = p.bits;
        cache = st.cache;
        calls = calls;
        state = p.state;
        longest = l;
      } in
      let id : (st.links p.call.0).id ≡ pos p.call.1.id =
        (v.level.same p.call.0).1 ∙ up.pair.ident in
      more next
        (record {
          items = p.items;
          seen = p.seen ++ p.call ∷ [];
          rest = p.rest;
          left = suc p.left;
          parents = ps;
        })
        (rw (k, noted, up.entry_is, up.state_is, id, up.bits_back, up.back, pop_call) refl)
        (back_in st g p ps top calls l v e up t dead size) (rw (e, h) refl)
        (rw e
          (dearer (length p.rest * weight (suc p.left)) (length g.rest * weight g.left) (debt ps)))
