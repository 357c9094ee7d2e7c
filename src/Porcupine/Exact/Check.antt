-- ===== src/Porcupine/Exact/Check.antt =====
-- src/porcupine/checker.go: checkSingle on a whole history.
use mit_distributed_systems.Prelude.{
  ℕ, zero, suc, ◌+◌, ◌*◌, ◌/◌, ◌<◌, ◌≤◌, ◌≡◌, ◌↔◌, refl, sym, subst, ap, ◌∙◌, List, [], ◌∷◌, ◌++◌,
  length, Bool, true, false, Option, none, some, arith, if◌then◌else◌, ℤ, ◌==◌, replicate,
  length-replicate,
}
use mit_distributed_systems.Porcupine.History.{Entry, call_entry, return_entry}
use mit_distributed_systems.Porcupine.Items.{Item, numbered}
use mit_distributed_systems.Porcupine.Links.{Node, insert_before, make_links, set_next, set_prev}
use mit_distributed_systems.Porcupine.Restore.{rank_ne}
use mit_distributed_systems.Porcupine.Cache.{cache_contains}
use mit_distributed_systems.Porcupine.Bitset.{new_bitset}
use mit_distributed_systems.Porcupine.Search.{
  Search, run, check_single, start_links, links_length, blank,
}
use mit_distributed_systems.Porcupine.Reference.{linearize, weight, return_of}
use mit_distributed_systems.Porcupine.Chain.{Chain, Chain-first, Chain-frame, first}
use mit_distributed_systems.Porcupine.Lifting.{SameNodes}
use mit_distributed_systems.Porcupine.Pairs.{Clear, IsPaired, return_of-Clear}
use mit_distributed_systems.Porcupine.Live.{live, new_bitset-IsWide, new_bitset-is_set}
use mit_distributed_systems.Porcupine.Exact.Defs.{value, View, IsState}
use mit_distributed_systems.Porcupine.Exact.Push.{linearize-pending}
use mit_distributed_systems.Porcupine.Exact.Total.{run-value}
use mit_distributed_systems.Porcupine.Exact.Start.{
  Holds, Holds-behind, Holds-SameNodes, Front, make_links-Made,
}

-- The place of a node in the list: the head, whose number is `head`, comes first.
abbrev rank : ℕ → ℕ → ℕ
rank head x = if x == head then 0 else suc x

module _ {V : Type 0} where
  -- The return of the call `c`: the only other item of its operation, and behind it.
  pub record Twin (n : ℕ) (seen : List (Item V)) (c : Item V) (rest : List (Item V)) : Type 0 where
    pub mid : List (Item V)
    pub ret : Item V
    pub post : List (Item V)
    pub split : rest ≡ mid ++ ret ∷ post
    pub ends : ret.1.kind ≡ return_entry
    pub same : ret.1.id ≡ c.1.id
    pub clear_seen : Clear c.1.id seen
    pub clear_mid : Clear c.1.id mid
    pub clear_post : Clear c.1.id post
    pub below : c.1.id < n

  -- A history of `n` operations, each a call and a return behind it.
  pub record IsComplete (n : ℕ) (history : List (Entry V)) : Type 0 where
    pub size : length history ≡ n + n
    pub calls :
        (seen : List (Item V)) (c : Item V) (rest : List (Item V))
        → numbered 0 history ≡ seen ++ c ∷ rest
        → c.1.kind ≡ call_entry
        → Twin n seen c rest

  pub length-numbered : (i : ℕ) (es : List (Entry V)) → length (numbered i es) ≡ length es
  length-numbered i [] = refl
  length-numbered i (e ∷ es) = ap suc (length-numbered (i + 1) es)

  pub record Started (history : List (Entry V)) (t : (ℕ → Node V) × Option ℕ) : Type 0 where
    pub root_is : t.1 ≡ first (numbered 0 history)
    pub chain : Chain (rank (length history)) t.0 (length history) (numbered 0 history)
    pub holds : Holds t.0 (numbered 0 history)

  put_head :
      (s : ℕ → Node V) (head : ℕ) (e : Entry V) (es : List (Entry V))
      → 0 < head
      → Front (rank head) s 0 (e ∷ es)
      → Holds s (numbered 0 (e ∷ es))
      → Chain (rank head) (insert_before s head (some 0)) head (numbered 0 (e ∷ es))
        × Holds (insert_before s head (some 0)) (numbered 0 (e ∷ es))
  unfolding insert_before
  put_head s head e es lt (p, c) h =
      let t = set_next (set_prev s 0 (some head)) head (some 0) in
      let is : insert_before s head (some 0) ≡ t = rw (p, insert_before) refl in
      let lower : rank head head < rank head 0 = ground arith in
      let chain : Chain (rank head) t head (numbered 0 (e ∷ es)) = (
        ground arith,
        ground (arith, lt),
        lower,
        Chain-frame (rank head) s t 0 (numbered (0 + 1) es) (ground (arith, lt))
            (λ x more.
              let x0 = rank_ne (rank head) 0 x more in
              let xh = rank_ne (rank head) head x (omega (arith, lower, more)) in
              (ground (arith, x0, xh), ground (arith, x0, xh)))
            c,
      ) in
      let same : SameNodes s t = λ x. (ground arith, ground arith, ground arith) in
      (
        subst (λ u. Chain (rank head) u head (numbered 0 (e ∷ es))) (sym is) chain,
        subst (λ u. Holds u (numbered 0 (e ∷ es))) (sym is)
            (Holds-SameNodes s t (numbered 0 (e ∷ es)) same h),
      )

  pub start_links-Started : (history : List (Entry V)) → Started history (start_links history)
  unfolding start_links make_links insert_before
  start_links-Started [] = record { root_is = refl; chain = refl; holds = tt }
  start_links-Started (e ∷ es) =
      let head = length (e ∷ es) in
      let t = make_links (λ x. blank) 0 (e ∷ es) in
      let m = make_links-Made (rank head) (λ x. blank) 0 (e ∷ es) (λ j le lt. ground (arith, lt)) in
      let put = put_head t.0 head e es (omega arith) m.front m.holds in
      record {
        root_is = m.root_is;
        chain =
            subst (λ r. Chain (rank head) (insert_before t.0 head r) head (numbered 0 (e ∷ es)))
              (sym m.root_is) put.0;
        holds =
            subst (λ r. Holds (insert_before t.0 head r) (numbered 0 (e ∷ es))) (sym m.root_is)
              put.1;
      }

  -- What the list's nodes hold makes pairs of the calls and returns.
  pub Holds-IsPaired :
      (n : ℕ) (s : ℕ → Node V) (history : List (Entry V))
      → IsComplete n history
      → Holds s (numbered 0 history)
      → IsPaired s n (numbered 0 history)
  Holds-IsPaired n s history v h = record {
    calls = λ seen c rest e k.
        let t = v.calls seen c rest e k in
        let (value, id, matching, behind) = Holds-behind s seen (c ∷ rest) (subst (Holds s) e h) in
        let at_ret = Holds-behind s t.mid (t.ret ∷ t.post) (subst (Holds s) t.split behind) in
        let found : return_of c.1.id rest ≡ some t.ret =
          ap (return_of c.1.id) t.split
          ∙ return_of-Clear c.1.id t.mid (t.ret ∷ t.post) t.clear_mid
          ∙ ground (arith, t.same, t.ends) in
        record {
          mid = t.mid;
          ret = t.ret;
          post = t.post;
          split = t.split;
          ends = t.ends;
          same = t.same;
          clear_seen = t.clear_seen;
          clear_mid = t.clear_mid;
          clear_post = t.clear_post;
          matched = matching ∙ ground (arith, k, found);
          input = value;
          output = at_ret.0;
          ident = id;
          below = t.below;
        };
    returns = λ seen r rest e k.
        let (value, id, matching, behind) = Holds-behind s seen (r ∷ rest) (subst (Holds s) e h) in
        matching ∙ ground (arith, k);
  }

  links_length-Chain :
      (rk : ℕ → ℕ) (fuel : ℕ) (s : ℕ → Node V) (p : ℕ) (items : List (Item V))
      → Chain rk s p items
      → length items < fuel
      → links_length fuel s (first items) ≡ some (length items)
  unfolding links_length
  links_length-Chain rk zero s p items c h = absurd (omega arith)
  links_length-Chain rk (suc fuel) s p [] c h = refl
  links_length-Chain rk (suc fuel) s p (a ∷ items) c h =
      let next = Chain-first rk s a.0 items c.3 in
      let rest = links_length-Chain rk fuel s a.0 items c.3 (omega arith) in
      rw (next, rest) (ground arith)

  live-new_bitset : (n : ℕ) (items : List (Item V)) → live (new_bitset n) items ≡ items
  live-new_bitset n [] = refl
  live-new_bitset n (a ∷ items) =
      ground (arith, new_bitset-is_set n a.1.id, live-new_bitset n items)

-- The rounds that are enough for a history of `n` operations.
abbrev pub rounds : ℕ → ℕ
rounds n = (n + n) * weight n + 1

module _ {V S : Type 0} (step : S → V → V → Bool × S) (eq : S → S → Bool)
    (eq_iff : (a b : S) → (eq a b ≡ true) ↔ (a ≡ b)) where
  abbrev first_state : ℕ → S → (ℕ → Node V) × Option ℕ → Search V S
  first_state n init t = record {
    links = t.0;
    entry = t.1;
    linearized = new_bitset n;
    cache = λ h. [];
    calls = [];
    state = init;
    longest = replicate n none;
  }

  abbrev first_view : ℕ → List (Item V) → View V S
  first_view n items = record { items = items; seen = []; rest = items; left = n; parents = [] }

  settled :
      (n : ℕ) (init : S) (items : List (Item V))
      → value step (first_view n items) init ≡ linearize step n init items
  settled n init items =
      ground (arith, linearize-pending step eq (λ x. x) 0 (λ x. blank) n items n init items)

  first-IsState :
      (n : ℕ) (init : S) (history : List (Entry V)) (t : (ℕ → Node V) × Option ℕ)
      → IsComplete n history
      → Started history t
      → IsState step eq
          (rank (length history))
          (length history)
          t.0
          n
          (numbered 0 history)
          (first_state n init t)
          (first_view n (numbered 0 history))
  unfolding cache_contains
  first-IsState n init history t v started =
      let items = numbered 0 history in
      record {
        level = record {
          chain = started.chain;
          same = λ x. (refl, refl, refl);
          is_live = sym (live-new_bitset n items);
          paired = Holds-IsPaired n t.0 history v started.holds;
          size = length-numbered 0 history ∙ v.size;
          wide = (new_bitset-IsWide n).0;
          room = (new_bitset-IsWide n).1;
        };
        place = refl;
        cursor = λ h. h;
        entry_is = started.root_is;
        passed = linearize-pending step eq (λ x. x) 0 (λ x. blank) n items n init items;
        trail = tt;
        cached = λ b' st' h. cc;
        noted = length-replicate n none;
      }

  check_single-run :
      (fuel n : ℕ) (init : S) (history : List (Entry V)) (compute : Bool) (kill : ℕ → Bool)
      → links_length (length history + 1) (start_links history).0 (start_links history).1
        ≡ some (n + n)
      → check_single step eq fuel init history compute kill
        ≡ run step eq fuel compute (length history) kill (first_state n init (start_links history))
  unfolding check_single
  check_single-run fuel n init history compute kill len =
      let half : (n + n) / 2 ≡ n = omega arith in rw (len, half) refl

  -- On a history of `n` operations, each a call and a return behind it with an identifier of its own
  -- below `n`, and with `rounds n` rounds or more and no kill, checkSingle does not panic and answers,
  -- and the answer is that of the plain search for an order of the operations that the model accepts,
  -- where an operation may come first if its call stands before every return that is left.
  pub check_single-linearize :
      (fuel n : ℕ) (init : S) (history : List (Entry V)) (compute : Bool) (kill : ℕ → Bool)
      → IsComplete n history
      → ((i : ℕ) → kill i ≡ false)
      → rounds n ≤ fuel
      → (l : List (Option (List ℤ))) × (check_single step eq fuel init history compute kill
          ≡ some (linearize step n init (numbered 0 history), l))
  check_single-linearize fuel n init history compute kill v alive h =
      let t = start_links history in
      let started = start_links-Started history in
      let items = numbered 0 history in
      let size : length items ≡ n + n = length-numbered 0 history ∙ v.size in
      let len : links_length (length history + 1) t.0 t.1 ≡ some (n + n) =
        ap (links_length (length history + 1) t.0) started.root_is
        ∙ links_length-Chain (rank (length history)) (length history + 1) t.0 (length history) items
            started.chain (omega (arith, length-numbered 0 history))
        ∙ ap some size in
      let (l, r) =
        run-value step eq eq_iff (rank (length history)) (length history) t.0 n items fuel compute
          kill (first_state n init t) (first_view n items) alive
          (first-IsState n init history t v started) (omega (arith, ap (λ k. k * weight n) size)) in
      let same = check_single-run fuel n init history compute kill len in
      (l, same ∙ r ∙ ap (λ b. some (b, l)) (settled n init items))
