-- ===== src/Porcupine/Exact/Start.antt =====
-- src/porcupine/checker.go: the list that makeLinkedEntries builds.
use mit_distributed_systems.Prelude.{
  ℕ, ◌+◌, ◌<◌, ◌≤◌, ◌≡◌, refl, sym, subst, ◌∙◌, List, [], ◌∷◌, ◌++◌, length, Option, none, some,
  arith, pos, update,
}
use mit_distributed_systems.Porcupine.History.{EntryKind, Entry, call_entry, return_entry}
use mit_distributed_systems.Porcupine.Items.{Item, numbered}
use mit_distributed_systems.Porcupine.Links.{make_links, Node, insert_before, set_next, set_prev}
use mit_distributed_systems.Porcupine.Restore.{rank_ne}
use mit_distributed_systems.Porcupine.Reference.{return_of}
use mit_distributed_systems.Porcupine.Chain.{Chain, Chain-frame, first}
use mit_distributed_systems.Porcupine.Lifting.{SameNodes}

module _ {V : Type 0} where
  abbrev pub number : Option (Item V) → Option ℕ
  number none = none
  number (some r) = some r.0

  -- What `match` is for the item `c` with `rest` behind it.
  abbrev pub match_of : Item V → List (Item V) → Option ℕ
  match_of c rest = elim c.1.kind [
    | return_entry ↦ none
    | call_entry ↦ number (return_of c.1.id rest)
  ]

  -- Each item's node holds what its entry says.
  abbrev pub Holds : (ℕ → Node V) → List (Item V) → Type 0
  Holds s [] = Unit {0}
  Holds s (c ∷ rest) =
      ((s c.0).value ≡ some c.1.value)
      × ((s c.0).id ≡ pos c.1.id)
      × ((s c.0).matching ≡ match_of c rest)
      × Holds s rest

  pub Holds-behind :
      (s : ℕ → Node V) (seen : List (Item V)) (items : List (Item V))
      → Holds s (seen ++ items)
      → Holds s items
  Holds-behind s [] items h = h
  Holds-behind s (a ∷ seen) items h = Holds-behind s seen items h.3

  Holds-frame :
      (s s' : ℕ → Node V) (i : ℕ) (es : List (Entry V))
      → ((x : ℕ)
          → i ≤ x
          → ((s' x).value ≡ (s x).value)
            × ((s' x).id ≡ (s x).id)
            × ((s' x).matching ≡ (s x).matching))
      → Holds s (numbered i es)
      → Holds s' (numbered i es)
  Holds-frame s s' i [] f h = tt
  Holds-frame s s' i (e ∷ es) f h =
      let (v, d, m) = f i (omega arith) in
      (v ∙ h.0, d ∙ h.1, m ∙ h.2, Holds-frame s s' (i + 1) es (λ x le. f x (omega arith)) h.3)

  pub Holds-SameNodes :
      (s s' : ℕ → Node V) (items : List (Item V)) → SameNodes s s' → Holds s items → Holds s' items
  Holds-SameNodes s s' [] f h = tt
  Holds-SameNodes s s' (c ∷ rest) f h =
      let (v, d, m) = f c.0 in (v ∙ h.0, d ∙ h.1, m ∙ h.2, Holds-SameNodes s s' rest f h.3)

module _ {V : Type 0} (rank : ℕ → ℕ) where
  -- The list from the node `i` on, with nothing in front.
  abbrev pub Front : (ℕ → Node V) → ℕ → List (Entry V) → Type 0
  Front s i [] = Unit {0}
  Front s i (e ∷ es) = ((s i).prev ≡ none) × Chain rank s i (numbered (i + 1) es)

  pub record Made (i : ℕ) (es : List (Entry V)) (t : (ℕ → Node V) × ((ℕ → Option ℕ) × Option ℕ))
      : Type 0 where
    pub root_is : t.1.1 ≡ first (numbered i es)
    pub front : Front t.0 i es
    pub holds : Holds t.0 (numbered i es)
    pub matches_are : (id : ℕ) → t.1.0 id ≡ number (return_of id (numbered i es))

  abbrev node_of : Entry V → Option ℕ → Node V
  node_of e m = record {
    value = some e.value;
    matching = m;
    id = pos e.id;
    next = none;
    prev = none;
  }

  -- A node in front of the list.
  record InFront (i : ℕ) (e : Entry V) (es : List (Entry V)) (m : Option ℕ) (s : ℕ → Node V)
      : Type 0 where
    front : Front s i (e ∷ es)
    here : ((s i).value ≡ some e.value) × ((s i).id ≡ pos e.id) × ((s i).matching ≡ m)
    behind : Holds s (numbered (i + 1) es)

  insert_before-free :
      (s : ℕ → Node V) (i j : ℕ)
      → (s j).prev ≡ none
      → insert_before s i (some j) ≡ set_next (set_prev s j (some i)) i (some j)
  unfolding insert_before
  insert_before-free s i j h = rw (h, insert_before) refl

  Front-InFront :
      (s : ℕ → Node V) (i : ℕ) (e e' : Entry V) (es : List (Entry V)) (m : Option ℕ)
      → rank i < rank (i + 1)
      → Front s (i + 1) (e' ∷ es)
      → Holds s (numbered (i + 1) (e' ∷ es))
      → InFront i e
          (e' ∷ es)
          m
          (set_next (set_prev (update s i (node_of e m)) (i + 1) (some i)) i (some (i + 1)))
  Front-InFront s i e e' es m lt (p, c) h =
      let t = set_next (set_prev (update s i (node_of e m)) (i + 1) (some i)) i (some (i + 1)) in
      record {
        front = (
          ground arith,
          (
            ground arith,
            ground arith,
            lt,
            Chain-frame rank s t (i + 1) (numbered (i + 1 + 1) es) (ground arith)
                (λ x more.
                  let xi = rank_ne rank i x (omega (arith, lt, more)) in
                  let xj = rank_ne rank (i + 1) x more in
                  (ground (arith, xi, xj), ground (arith, xi, xj)))
                c,
          ),
        );
        here = (ground arith, ground arith, ground arith);
        behind =
            Holds-frame s t (i + 1) (e' ∷ es)
              (λ x le. (ground (arith, le), ground (arith, le), ground (arith, le))) h;
      }

  insert_before-InFront :
      (s : ℕ → Node V) (i : ℕ) (e : Entry V) (es : List (Entry V)) (m : Option ℕ)
      → ((j : ℕ) → i ≤ j → j < i + length es → rank j < rank (j + 1))
      → Front s (i + 1) es
      → Holds s (numbered (i + 1) es)
      → InFront i e es m (insert_before (update s i (node_of e m)) i (first (numbered (i + 1) es)))
  unfolding insert_before
  insert_before-InFront s i e [] m grows f h = record {
    front = (ground arith, ground arith);
    here = (ground arith, ground arith, ground arith);
    behind = tt;
  }
  insert_before-InFront s i e (e' ∷ es) m grows (p, c) h =
      let free : ((update s i (node_of e m)) (i + 1)).prev ≡ none = ground (arith, p) in
      subst (InFront i e (e' ∷ es) m)
        (sym (insert_before-free (update s i (node_of e m)) i (i + 1) free))
        (Front-InFront s i e e' es m (grows i (omega arith) (omega arith)) (p, c) h)

  add_return :
      (i : ℕ) (e : Entry V) (es : List (Entry V)) (t : (ℕ → Node V) × ((ℕ → Option ℕ) × Option ℕ))
      → e.kind ≡ return_entry
      → ((j : ℕ) → i ≤ j → j < i + length es → rank j < rank (j + 1))
      → Made (i + 1) es t
      → Made i (e ∷ es) (
        insert_before (update t.0 i (node_of e none)) i t.1.1,
        (update t.1.0 e.id (some i), some i),
      )
  add_return i e es t k grows m =
      let f =
        subst (λ r. InFront i e es none (insert_before (update t.0 i (node_of e none)) i r))
          (sym m.root_is) (insert_before-InFront t.0 i e es none grows m.front m.holds) in
      record {
        root_is = refl;
        front = f.front;
        holds = (f.here.0, f.here.1, f.here.2 ∙ ground (arith, k), f.behind);
        matches_are = λ id. ground (arith, k, m.matches_are id);
      }

  add_call :
      (i : ℕ) (e : Entry V) (es : List (Entry V)) (t : (ℕ → Node V) × ((ℕ → Option ℕ) × Option ℕ))
      → e.kind ≡ call_entry
      → ((j : ℕ) → i ≤ j → j < i + length es → rank j < rank (j + 1))
      → Made (i + 1) es t
      → Made i
          (e ∷ es)
          (insert_before (update t.0 i (node_of e (t.1.0 e.id))) i t.1.1, (t.1.0, some i))
  add_call i e es t k grows m =
      let o = t.1.0 e.id in
      let f =
        subst (λ r. InFront i e es o (insert_before (update t.0 i (node_of e o)) i r))
          (sym m.root_is) (insert_before-InFront t.0 i e es o grows m.front m.holds) in
      record {
        root_is = refl;
        front = f.front;
        holds = (f.here.0, f.here.1, f.here.2 ∙ ground (arith, k, m.matches_are e.id), f.behind);
        matches_are = λ id. ground (arith, k, m.matches_are id);
      }

  pub make_links-Made :
      (s : ℕ → Node V) (i : ℕ) (es : List (Entry V))
      → ((j : ℕ) → i ≤ j → j + 1 < i + length es → rank j < rank (j + 1))
      → Made i es (make_links s i es)
  unfolding make_links
  make_links-Made s i [] grows = record {
    root_is = refl;
    front = tt;
    holds = tt;
    matches_are = λ id. refl;
  }
  make_links-Made s i (e ∷ es) grows =
      by_kind e.kind refl
        (make_links-Made s (i + 1) es (λ j le lt. grows j (omega arith) (omega arith)))
    where
      by_kind :
          (kind : EntryKind)
          → e.kind ≡ kind
          → Made (i + 1) es (make_links s (i + 1) es)
          → Made i (e ∷ es) (make_links s i (e ∷ es))
      by_kind return_entry k m =
          let t = make_links s (i + 1) es in
          let is : make_links s i (e ∷ es) ≡ (
            insert_before (update t.0 i (node_of e none)) i t.1.1,
            (update t.1.0 e.id (some i), some i),
          ) =
            rw (k, make_links) refl in
          subst (Made i (e ∷ es)) (sym is)
            (add_return i e es t k (λ j le lt. grows j le (omega arith)) m)
      by_kind call_entry k m =
          let t = make_links s (i + 1) es in
          let is : make_links s i (e ∷ es)
              ≡ (insert_before (update t.0 i (node_of e (t.1.0 e.id))) i t.1.1, (t.1.0, some i)) =
            rw (k, make_links) refl in
          subst (Made i (e ∷ es)) (sym is)
            (add_call i e es t k (λ j le lt. grows j le (omega arith)) m)
