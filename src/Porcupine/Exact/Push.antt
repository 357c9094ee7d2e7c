-- ===== src/Porcupine/Exact/Push.antt =====
-- src/porcupine/checker.go: the round of checkSingle at a call that the model accepts.
use mit_distributed_systems.Prelude.{
  ℕ, zero, suc, ◌+◌, ◌*◌, ◌<◌, ◌≤◌, ◌≡◌, ◌↔◌, refl, sym, subst, ap, ◌∙◌, List, [], ◌∷◌, ◌++◌,
  length, Bool, true, false, some, inl, inr, Bool-cases, arith, ◌==◌, if◌then◌else◌, pos,
}
use mit_distributed_systems.Porcupine.History.{call_entry}
use mit_distributed_systems.Porcupine.Items.{Item}
use mit_distributed_systems.Porcupine.Links.{Node}
use mit_distributed_systems.Porcupine.Bitset.{write, get_bit}
use mit_distributed_systems.Porcupine.Bits.{IsWide, write-get_bit, equals_iff}
use mit_distributed_systems.Porcupine.Cache.{
  CacheEntry, cache_contains, cache_add, cache_contains-cache_add,
}
use mit_distributed_systems.Porcupine.Search.{Search, CallsEntry, push_call, pushed, take_call}
use mit_distributed_systems.Porcupine.Reference.{accept, linearize, weight, without}
use mit_distributed_systems.Porcupine.Chain.{Chain, Chain-first}
use mit_distributed_systems.Porcupine.Lifting.{Lifted, lift-Lifted, SameNodes-trans}
use mit_distributed_systems.Porcupine.Pairs.{Pair, Pair-left, Pair-length, IsPaired-without}
use mit_distributed_systems.Porcupine.Live.{
  is_set, live, live-without, live_not-set, get_bit_total, write_back,
}
use mit_distributed_systems.Porcupine.Exact.Defs.{
  Parent, View, debt, cost, pending, value, IsLevel, IsTrail, IsState, IsCached, OnTrail,
}
use mit_distributed_systems.Porcupine.Exact.Rounds.{Rounded, more, skip}

deeper : (r k w w' d : ℕ) → w' ≡ 2 + k * w → k * w + (1 + r * w' + d) < suc r * w' + d
deeper r k w w' d e = grind arith

weight-suc : (left : ℕ) → weight (suc left) ≡ 2 + (left + left) * weight left
unfolding weight
weight-suc left = refl

module _ {V S : Type 0} (step : S → V → V → Bool × S) (eq : S → S → Bool) (rank : ℕ → ℕ) (head : ℕ)
    (s0 : ℕ → Node V) (n : ℕ) (all : List (Item V)) where
  pub linearize-pending :
      (left : ℕ) (st : S) (items : List (Item V))
      → linearize step left st items ≡ pending step left st items items
  unfolding linearize
  linearize-pending zero st items = refl
  linearize-pending (suc left) st items = refl

  -- What is not in the bits now was in none of the levels below.
  OnTrail-not-set :
      (ps : List (Parent V S)) (calls : List (CallsEntry S)) (s1 : ℕ → Node V)
      (b1 : List (List Bool)) (left : ℕ) (st1 : S) (q : ℕ) (b' : List (List Bool)) (st' : S)
      → IsTrail step eq rank head s0 n all ps calls s1 b1 left st1
      → is_set b1 q ≡ false
      → OnTrail step eq rank head s0 n all ps b' st'
      → is_set b' q ≡ false
  OnTrail-not-set [] calls s1 b1 left st1 q b' st' t h o = absurd o
  OnTrail-not-set (p ∷ ps) [] s1 b1 left st1 q b' st' t h o = absurd t
  OnTrail-not-set (p ∷ ps) (top ∷ calls) s1 b1 left st1 q b' st' (up, t) h o =
      let free : is_set p.bits q ≡ false = ground (arith, up.bits_are q, h) in
      elim o [
        | inl (e, k) ↦ rw e free
        | inr deeper ↦
            OnTrail-not-set ps calls p.links p.bits (suc p.left) p.state q b' st' t free deeper
      ]

  -- The bits and items after the call `c`.
  record Taken (st : Search V S) (g : View V S) (c : Item V) (rest : List (Item V)) (left : ℕ)
      : Type 0 where
    bits : List (List Bool)
    written : write true st.linearized c.1.id ≡ some bits
    free : get_bit st.linearized c.1.id ≡ some false
    bits_are :
        (q : ℕ) → get_bit bits q ≡ (if c.1.id == q then some true else get_bit st.linearized q)
    wide : IsWide bits
    room : n ≤ length bits * 64
    items : live bits all ≡ without c.1.id g.items
    size : length (without c.1.id g.items) ≡ left + left
    pair : Pair s0 n g.seen c rest
    place : g.items ≡ g.seen ++ c ∷ rest

  take :
      (st : Search V S) (g : View V S) (c : Item V) (rest : List (Item V)) (left : ℕ)
      → IsState step eq rank head s0 n all st g
      → g.rest ≡ c ∷ rest
      → g.left ≡ suc left
      → c.1.kind ≡ call_entry
      → Taken st g c rest left
  take st g c rest left v at l k =
      let place : g.items ≡ g.seen ++ c ∷ rest = v.place ∙ ap (λ r. g.seen ++ r) at in
      let pair = v.level.paired.calls g.seen c rest place k in
      let inside : c.1.id < length st.linearized * 64 = omega (arith, pair.below, v.level.room) in
      let (b1, w, wide, len, bits) = write-get_bit true st.linearized c.1.id v.level.wide inside in
      let unset = live_not-set st.linearized all g.seen c rest (sym v.level.is_live ∙ place) in
      let (old, got) = get_bit_total st.linearized c.1.id v.level.wide inside in
      record {
        bits = b1;
        written = w;
        free = ground (arith, got, unset);
        bits_are = bits;
        wide = wide;
        room = omega (arith, v.level.room, len);
        items =
            live-without st.linearized b1 c.1.id all bits
            ∙ ap (without c.1.id) (sym v.level.is_live);
        size = omega (
          arith,
          Pair-length s0 n g.seen c rest pair,
          ap length (ap (without c.1.id) place ∙ Pair-left s0 n g.seen c rest pair),
          ap length place,
          v.level.size,
          l,
        );
        pair = pair;
        place = place;
      }

  -- An outcome in the cache leads nowhere, as the call is in none of the levels below.
  cached-lost :
      (st : Search V S) (g : View V S) (c : Item V) (rest : List (Item V)) (left : ℕ) (st1 : S)
      → IsState step eq rank head s0 n all st g
      → (t : Taken st g c rest left)
      → cache_contains eq st.cache (record { linearized = t.bits; state = st1 }) ≡ true
      → linearize step left st1 (without c.1.id g.items) ≡ false
  cached-lost st g c rest left st1 v t h =
      let set : is_set t.bits c.1.id ≡ true = ground (arith, t.bits_are c.1.id) in
      let unset : is_set st.linearized c.1.id ≡ false = ground (arith, t.free) in
      elim (v.cached t.bits st1 h) [
        | inl dead ↦
            sym (ap (linearize step left st1) t.items) ∙ dead left (ap length t.items ∙ t.size)
        | inr (inl (e, k)) ↦
            let twice : true ≡ false = sym set ∙ ap (λ x. is_set x c.1.id) e ∙ unset in cc
        | inr (inr o) ↦
            let clear =
              OnTrail-not-set g.parents st.calls st.links st.linearized g.left st.state c.1.id
                t.bits st1 v.trail unset o in
            let twice : true ≡ false = sym set ∙ clear in cc
      ]

  -- The level that is left below a pushed call.
  abbrev parent_of : Search V S → View V S → Item V → List (Item V) → ℕ → Parent V S
  parent_of st g c rest left = record {
    links = st.links;
    bits = st.linearized;
    state = st.state;
    items = g.items;
    seen = g.seen;
    call = c;
    rest = rest;
    left = left;
  }

  module _ (eq_iff : (a b : S) → (eq a b ≡ true) ↔ (a ≡ b)) where
    pushed-IsCached :
        (cache : List Bool → List (CacheEntry S)) (p : Parent V S) (ps : List (Parent V S))
        (b1 : List (List Bool)) (st1 : S)
        → IsCached step eq rank head s0 n all cache ps p.bits p.state
        → IsCached step eq rank head s0 n all
            (cache_add cache (record { linearized = b1; state = st1 }))
            (p ∷ ps)
            b1
            st1
    pushed-IsCached cache p ps b1 st1 v b' st' h =
        let new : CacheEntry S = record { linearized = b1; state = st1 } in
        let entry : CacheEntry S = record { linearized = b'; state = st' } in
        let law = cache_contains-cache_add eq cache new entry in
        elim (Bool-cases (cache_contains eq cache entry)) [
          | inl old ↦ elim (v b' st' old) [
            | inl dead ↦ inl dead
            | inr (inl here) ↦ inr (inr (inl here))
            | inr (inr o) ↦ inr (inr (inr o))
          ]
          | inr fresh ↦ inr (
              inl (
                ground (arith, law, h, fresh, equals_iff b' b1),
                ground (arith, law, h, fresh, eq_iff st' st1),
              ))
        ]

    lifted :
        (st : Search V S) (g : View V S) (c : Item V) (rest : List (Item V)) (left : ℕ)
        → IsState step eq rank head s0 n all st g
        → (t : Taken st g c rest left) → Lifted rank st.links head c.0 (without c.1.id g.items)
    lifted st g c rest left v t =
        let p = t.pair in
        let chain : Chain rank st.links head (g.seen ++ c ∷ (p.mid ++ p.ret ∷ p.post)) =
          subst (Chain rank st.links head) (t.place ∙ ap (λ l. g.seen ++ c ∷ l) p.split)
            v.level.chain in
        subst (Lifted rank st.links head c.0)
          (sym (ap (without c.1.id) t.place ∙ Pair-left s0 n g.seen c rest p))
          (lift-Lifted rank st.links head g.seen c p.mid p.ret p.post
            ((v.level.same c.0).2 ∙ p.matched) chain)

    pushed-IsState :
        (st : Search V S) (g : View V S) (c : Item V) (rest : List (Item V)) (left : ℕ) (st1 : S)
        → IsState step eq rank head s0 n all st g
        → g.rest ≡ c ∷ rest
        → g.left ≡ suc left
        → c.1.kind ≡ call_entry
        → accept step st.state c rest ≡ some st1
        → (t : Taken st g c rest left)
        → (u : Lifted rank st.links head c.0 (without c.1.id g.items))
        → IsState step eq rank head s0 n all
            (record {
              cache = cache_add st.cache (record { linearized = t.bits; state = st1 });
              calls = record { entry = c.0; state = st.state } ∷ st.calls;
              state = st1;
              linearized = t.bits;
              links = u.store;
              entry = (u.store head).next;
              longest = st.longest;
            })
            (record {
              items = without c.1.id g.items;
              seen = [];
              rest = without c.1.id g.items;
              left = left;
              parents = parent_of st g c rest left ∷ g.parents;
            })
    pushed-IsState st g c rest left st1 v at l k acc t u = record {
      level = record {
        chain = u.chain;
        same = SameNodes-trans s0 st.links u.store v.level.same u.same;
        is_live = sym t.items;
        paired = IsPaired-without s0 n c.1.id g.items v.level.paired;
        size = t.size;
        wide = t.wide;
        room = t.room;
      };
      place = refl;
      cursor = λ h. h;
      entry_is = Chain-first rank u.store head (without c.1.id g.items) u.chain;
      passed = linearize-pending left st1 (without c.1.id g.items);
      trail = (
        record {
          left_is = refl;
          level =
              subst (λ m. IsLevel step eq rank head s0 n all st.links st.linearized m g.items) l
                v.level;
          place = t.place;
          pair = t.pair;
          is_call = k;
          accepted = acc;
          passed =
              subst
                (λ m.
                  linearize step m st.state g.items ≡ pending step m st.state g.items (c ∷ rest))
                l (v.passed ∙ ap (pending step g.left st.state g.items) at);
          entry_is = refl;
          state_is = refl;
          back = u.back;
          bits_back = write_back st.linearized t.bits c.1.id t.free t.written;
          bits_are = t.bits_are;
        },
        subst
            (λ m.
              IsTrail step eq rank head s0 n all g.parents st.calls st.links st.linearized m
                st.state)
            l v.trail,
      );
      cached = pushed-IsCached st.cache (parent_of st g c rest left) g.parents t.bits st1 v.cached;
      noted = v.noted;
    }

    pub push_call-Rounded :
        (st : Search V S) (g : View V S) (c : Item V) (rest : List (Item V)) (left : ℕ) (st1 : S)
        → IsState step eq rank head s0 n all st g
        → g.rest ≡ c ∷ rest
        → g.left ≡ suc left
        → c.1.kind ≡ call_entry
        → accept step st.state c rest ≡ some st1
        → Rounded step eq rank head s0 n all
            (push_call step eq head st c.0 st1)
            (value step g st.state)
            (cost g)
    unfolding push_call pushed take_call
    push_call-Rounded st g c rest left st1 v at l k acc =
        let t = take st g c rest left v at l k in
        let id : (st.links c.0).id ≡ pos c.1.id = (v.level.same c.0).1 ∙ t.pair.ident in
        elim (Bool-cases
          (cache_contains eq st.cache (record { linearized = t.bits; state = st1 }))) [
            | inl old ↦
                let lost = cached-lost st g c rest left st1 v t old in
                skip step eq rank head s0 n all st g c rest left (push_call step eq head st c.0 st1)
                  v at l k (rw acc lost) (rw (id, t.written, old, push_call) refl)
            | inr fresh ↦
                let u = lifted st g c rest left v t in
                more _ _ (rw (id, t.written, fresh, u.gone, push_call) refl)
                  (pushed-IsState st g c rest left st1 v at l k acc t u)
                  (rw (l, at, ← linearize-pending left st1 (without c.1.id g.items))
                    (ground (arith, k, acc)))
                  (rw (l, at, t.size)
                    (deeper (length rest) (left + left) (weight left) (weight (suc left))
                      (debt g.parents) (weight-suc left)))
          ]
