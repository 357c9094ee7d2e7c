-- ===== src/Porcupine/Renumber.antt =====
-- src/porcupine/checker.go: what `renumber` does with the identifiers of a history.
use mit_distributed_systems.Prelude.{
  ℕ, ◌+◌, ◌<◌, ◌≤◌, ◌≡◌, refl, List, [], ◌∷◌, Option, none, some, update, arith, get_elem?, length,
  map, dec_lt, ap, ◌∙◌, ◌⊎◌, inl, inr, Option-cases, zero, suc,
}
use mit_distributed_systems.Porcupine.History.{Event, renumber, renumber_from}

-- The numbers so far are below the next one, and no two identifiers have the same.
abbrev pub Inv : (ℕ → Option ℕ) → ℕ → Type 0
Inv m id = ((j r : ℕ) → m j ≡ some r → r < id) × ((j k r : ℕ) → m j ≡ some r → m k ≡ some r → j ≡ k)

Inv-update : (m : ℕ → Option ℕ) (id j : ℕ) → Inv m id → Inv (update m j (some id)) (id + 1)
Inv-update m id j (below, one) = (
  λ k r h. ground (arith, below k r),
  λ k l r h i. ground (arith, below k r, below l r, one k l r),
)

abbrev pub number : Option ℕ → ℕ
number none = 0
number (some r) = r

module _ {V : Type 0} where
  abbrev pub relabel : (ℕ → ℕ) → Event V → Event V
  relabel f v = record v { id = f v.id }

  -- Some identifier of `events` has the number `r`.
  pub record Names (last : ℕ → Option ℕ) (events : List (Event V)) (r : ℕ) : Type 0 where
    pub index : ℕ
    pub event : Event V
    pub at : get_elem? events index ≡ some event
    pub has : last event.id ≡ some r

  Names-cons :
      (last : ℕ → Option ℕ) (v : Event V) (events : List (Event V)) (r : ℕ)
      → Names last events r
      → Names last (v ∷ events) r
  Names-cons last v events r n = record {
    index = suc n.index;
    event = n.event;
    at = n.at;
    has = n.has;
  }

  Names-later :
      (last : ℕ → Option ℕ) (v : Event V) (events : List (Event V)) (id r : ℕ)
      → (r < id) ⊎ Names last events r
      → (r < id) ⊎ Names last (v ∷ events) r
  Names-later last v events id r (inl h) = inl h
  Names-later last v events id r (inr n) = inr (Names-cons last v events r n)

  Names-new :
      (last : ℕ → Option ℕ) (v : Event V) (events : List (Event V)) (id r : ℕ)
      → last v.id ≡ some id
      → (r < id + 1) ⊎ Names last events r
      → (r < id) ⊎ Names last (v ∷ events) r
  Names-new last v events id r now (inr n) = inr (Names-cons last v events r n)
  Names-new last v events id r now (inl h) = elim (dec_lt r id) [
    | yes old ↦ inl old
    | no new ↦ inr (record {
      index = 0;
      event = v;
      at = refl;
      has = now ∙ ap some (let e : id ≡ r = omega (arith, h, new) in e);
    })
  ]

  -- What the loop does from the map `m` and the next number `id`: its last map, and the numbers used.
  pub record Loop (m : ℕ → Option ℕ) (id : ℕ) (events result : List (Event V)) : Type 0 where
    pub last : ℕ → Option ℕ
    pub count : ℕ
    pub inv : Inv last count
    pub extends : (j r : ℕ) → m j ≡ some r → last j ≡ some r
    pub known : (i : ℕ) (v : Event V) → get_elem? events i ≡ some v → (r : ℕ) × (last v.id ≡ some r)
    pub relabelled : result ≡ map (relabel (λ j. number (last j))) events
    pub few : count ≤ id + length events
    pub used : (r : ℕ) → r < count → (r < id) ⊎ Names last events r

  abbrev Known : (ℕ → Option ℕ) → List (Event V) → Type 0
  Known last events =
      (i : ℕ) (v : Event V) → get_elem? events i ≡ some v → (r : ℕ) × (last v.id ≡ some r)

  Known-cons :
      (last : ℕ → Option ℕ) (r : ℕ) (v : Event V) (events : List (Event V))
      → last v.id ≡ some r
      → Known last events
      → Known last (v ∷ events)
  Known-cons last r v events e k zero w h = (r, ground (arith, e, h))
  Known-cons last r v events e k (suc i) w h = k i w h

  Loop-seen :
      (m : ℕ → Option ℕ) (id r : ℕ) (v : Event V) (events result : List (Event V))
      → m v.id ≡ some r
      → Loop m id events result
      → Loop m id (v ∷ events) (record v { id = r } ∷ result)
  Loop-seen m id r v events result e l = record {
    last = l.last;
    count = l.count;
    inv = l.inv;
    extends = l.extends;
    known = Known-cons l.last r v events (l.extends v.id r e) l.known;
    relabelled = ground (arith, l.relabelled, l.extends v.id r e);
    few = ground (arith, l.few);
    used = λ k h. Names-later l.last v events id k (l.used k h);
  }

  Loop-new :
      (m : ℕ → Option ℕ) (id : ℕ) (v : Event V) (events result : List (Event V))
      → m v.id ≡ none
      → Loop (update m v.id (some id)) (id + 1) events result
      → Loop m id (v ∷ events) (record v { id = id } ∷ result)
  Loop-new m id v events result e l =
      let now : l.last v.id ≡ some id = l.extends v.id id (ground arith) in
      record {
        last = l.last;
        count = l.count;
        inv = l.inv;
        extends = λ j r h. l.extends j r (ground arith);
        known = Known-cons l.last id v events now l.known;
        relabelled = ground (arith, l.relabelled, now);
        few = ground (arith, l.few);
        used = λ k h. Names-new l.last v events id k now (l.used k h);
      }

  pub renumber_from-Loop :
      (m : ℕ → Option ℕ) (id : ℕ) (events : List (Event V))
      → Inv m id
      → Loop m id events (renumber_from m id events)
  unfolding renumber_from
  renumber_from-Loop m id [] v = record {
    last = m;
    count = id;
    inv = v;
    extends = λ j r h. h;
    known = λ i w h. cc;
    relabelled = refl;
    few = omega arith;
    used = λ r h. inl h;
  }
  renumber_from-Loop m id (v ∷ events) w = elim (Option-cases (m v.id)) [
    | inl e ↦
        rw (e, renumber_from)
          (Loop-new m id v events _ e
            (renumber_from-Loop (update m v.id (some id)) (id + 1) events (Inv-update m id v.id w)))
    | inr (r, e) ↦
        rw (e, renumber_from) (Loop-seen m id r v events _ e (renumber_from-Loop m id events w))
  ]

  -- The identifiers of `events`, each given a number of its own below their length.
  pub record IsRenumbered (events result : List (Event V)) : Type 0 where
    pub number_of : ℕ → ℕ
    pub relabelled : result ≡ map (relabel number_of) events
    pub distinct :
        (i j : ℕ) (v w : Event V)
        → get_elem? events i ≡ some v
        → get_elem? events j ≡ some w
        → number_of v.id ≡ number_of w.id
        → v.id ≡ w.id
    pub below : (i : ℕ) (v : Event V) → get_elem? events i ≡ some v → number_of v.id < length events

  -- `renumber` changes nothing of a history but its identifiers. Equal identifiers get the same
  -- number, distinct ones distinct numbers, and all numbers are below the length of the history.
  pub renumber-IsRenumbered : (events : List (Event V)) → IsRenumbered events (renumber events)
  unfolding renumber
  renumber-IsRenumbered events =
      let l = renumber_from-Loop (λ i. none) 0 events (λ j r h. cc, λ j k r h i. cc) in
      record {
        number_of = λ j. number (l.last j);
        relabelled = l.relabelled;
        distinct = λ i j v w h k same.
            let (r, e) = l.known i v h in
            let (q, f) = l.known j w k in l.inv.1 v.id w.id r e (ground (arith, e, f, same));
        below = λ i v h. let (r, e) = l.known i v h in ground (arith, e, l.inv.0 v.id r e, l.few);
      }
