-- ===== src/Porcupine/Balanced.antt =====
-- src/porcupine/checker.go: renumber and convertEntries give a complete history, if each operation of
-- the history is called once and then returns once.
use mit_distributed_systems.Prelude.{
  ℕ, suc, ◌+◌, ◌<◌, ◌≡◌, ◌≢◌, refl, sym, ap, subst, ◌∙◌, List, [], ◌∷◌, ◌++◌, length, map, Bool,
  true, false, ◌&&◌, ◌==◌, arith, inl, inr, if◌then◌else◌, Every, count, Every-get, get-Every,
  Every-zip, count-none, count-below, count-all, Option, some, none, dec_lt, ltb, lt→ltb,
}
use mit_distributed_systems.Porcupine.History.{
  Event, EventKind, call_event, return_event, Entry, EntryKind, call_entry, return_entry,
  entry_kind, renumber, convert_from, convert_entries,
}
use mit_distributed_systems.Porcupine.Renumber.{Inv, number, relabel, Loop, renumber_from-Loop}
use mit_distributed_systems.Porcupine.Reference.{is_return}
use mit_distributed_systems.Porcupine.Exact.Check.{IsComplete}
use mit_distributed_systems.Porcupine.Complete.{
  calls, call_of, return_at, IsEntries, IsEntries-IsComplete,
}

same_id :
    (last : ℕ → Option ℕ) (n i j : ℕ)
    → Inv last n
    → ((r : ℕ) × (last i ≡ some r))
    → ((r : ℕ) × (last j ≡ some r))
    → number (last i) ≡ number (last j)
    → i ≡ j
same_id last n i j inv (r, e) (q, f) h = inv.1 i j r e (ground (arith, e, f, h))

kind_return : (kind : EventKind) → entry_kind kind ≡ return_entry → kind ≡ return_event
kind_return call_event h = cc
kind_return return_event h = refl

kind_call : (kind : EventKind) → entry_kind kind ≡ call_entry → kind ≡ call_event
kind_call call_event h = refl
kind_call return_event h = cc

kinds :
    (kind : EntryKind) (b : Bool)
    → ◌≡◌ {A = ℕ}
        (if b then 1 else 0)
        ((if calls kind && b then 1 else 0) + (if is_return kind && b then 1 else 0))
kinds call_entry true = refl
kinds call_entry false = refl
kinds return_entry true = refl
kinds return_entry false = refl

module _ {V : Type 0} where
  abbrev pub of_kind : (EntryKind → Bool) → ℕ → Event V → Bool
  of_kind t i v = t (entry_kind v.kind) && v.id == i

  -- No return stands before a call with the same identifier.
  unfoldable pub CallsFirst : List (Event V) → Type 0
  CallsFirst [] = Unit {0}
  CallsFirst (v ∷ vs) =
      (v.kind ≡ return_event → Every (λ c. c.kind ≡ call_event → v.id ≢ c.id) vs) × CallsFirst vs

  -- Each identifier has one call and then one return.
  pub record IsBalanced (events : List (Event V)) : Type 0 where
    pub one_call : Every (λ v. count (of_kind calls v.id) events ≡ 1) events
    pub one_return : Every (λ v. count (of_kind is_return v.id) events ≡ 1) events
    pub calls_first : CallsFirst events

  abbrev converted : (ℕ → ℕ) → ℕ → List (Event V) → List (Entry V)
  converted f k events = convert_from k (map (relabel f) events)

  length-converted :
      (f : ℕ → ℕ) (k : ℕ) (events : List (Event V)) → length (converted f k events) ≡ length events
  unfolding convert_from
  length-converted f k [] = refl
  length-converted f k (v ∷ events) = ap suc (length-converted f (k + 1) events)

  count-converted :
      (t : EntryKind → Bool) (f : ℕ → ℕ) (j k : ℕ) (events : List (Event V))
      → Every (λ v. f v.id ≡ f j → v.id ≡ j) events
      → count (λ e. t e.kind && e.id == f j) (converted f k events) ≡ count (of_kind t j) events
  unfolding convert_from count
  count-converted t f j k [] h = refl
  count-converted t f j k (v ∷ events) (q, h) =
      ground (arith, q, ap f {x = v.id} {y = j}, count-converted t f j (k + 1) events h)

  Every-converted :
      (Q : EntryKind → ℕ → Type 0) (f : ℕ → ℕ) (k : ℕ) (events : List (Event V))
      → Every (λ v. Q (entry_kind v.kind) (f v.id)) events
      → Every (λ e. Q e.kind e.id) (converted f k events)
  unfolding convert_from
  Every-converted Q f k [] h = tt
  Every-converted Q f k (v ∷ events) (q, h) = (q, Every-converted Q f (k + 1) events h)

  -- The like of `CallsFirst` for entries.
  EntriesFirst : List (Entry V) → Type 0
  EntriesFirst [] = Unit {0}
  EntriesFirst (r ∷ es) =
      (r.kind ≡ return_entry → Every (λ c. c.kind ≡ call_entry → r.id ≢ c.id) es) × EntriesFirst es

  Every-split :
      (Q : Entry V → Type 0) (mid : List (Entry V)) (c : Entry V) (rest : List (Entry V))
      → Every Q (mid ++ c ∷ rest)
      → Q c
  Every-split Q [] c rest (q, h) = q
  Every-split Q (x ∷ mid) c rest (q, h) = Every-split Q mid c rest h

  EntriesFirst-split :
      (seen : List (Entry V)) (r : Entry V) (mid : List (Entry V)) (c : Entry V)
      (rest : List (Entry V))
      → EntriesFirst (seen ++ r ∷ (mid ++ c ∷ rest))
      → r.kind ≡ return_entry
      → c.kind ≡ call_entry
      → r.id ≢ c.id
  unfolding EntriesFirst
  EntriesFirst-split [] r mid c rest (h, hs) k k' =
      Every-split (λ x. x.kind ≡ call_entry → r.id ≢ x.id) mid c rest (h k) k'
  EntriesFirst-split (x ∷ seen) r mid c rest (h, hs) k k' =
      EntriesFirst-split seen r mid c rest hs k k'

  -- The identifiers have numbers, and no two the same.
  abbrev Numbered : (ℕ → Option ℕ) → List (Event V) → Type 0
  Numbered last events = Every (λ v. (r : ℕ) × (last v.id ≡ some r)) events

  EntriesFirst-converted :
      (last : ℕ → Option ℕ) (n k : ℕ) (events : List (Event V))
      → Inv last n
      → Numbered last events
      → CallsFirst events
      → EntriesFirst (converted (λ j. number (last j)) k events)
  unfolding EntriesFirst CallsFirst convert_from
  EntriesFirst-converted last n k [] inv known h = tt
  EntriesFirst-converted last n k (v ∷ events) inv (q, known) (h, hs) = (
    λ e.
        Every-converted (λ kind i. kind ≡ call_entry → number (last v.id) ≢ i)
          (λ j. number (last j)) (k + 1) events
          (Every-zip events
            (λ c known_c ahead kc same.
              ahead (kind_call c.kind kc) (same_id last n v.id c.id inv q known_c same))
            known (h (kind_return v.kind e))),
    EntriesFirst-converted last n (k + 1) events inv known hs,
  )

  one_hit :
      (t : EntryKind → Bool) (events result : List (Event V)) (l : Loop (λ i. none) 0 events result)
      (i : ℕ)
      → Every (λ v. count (of_kind t v.id) events ≡ 1) events
      → i < l.count
      → count (λ e. t e.kind && e.id == i) (convert_from 0 result) ≡ 1
  one_hit t events result l i once lt = elim (l.used i lt) [
    | inl old ↦ absurd (omega (arith, old))
    | inr named ↦
        (let f : ℕ → ℕ = λ j. number (l.last j) in
          let same : f named.event.id ≡ i = ap number named.has in
          let known : (r : ℕ) × (l.last named.event.id ≡ some r) = (i, named.has) in
          let apart : Every (λ v. f v.id ≡ f named.event.id → v.id ≡ named.event.id) events =
            get-Every _ events
              (λ k v at. same_id l.last l.count v.id named.event.id l.inv (l.known k v at) known) in
          let raw =
            Every-get (λ v. count (of_kind t v.id) events ≡ 1) events named.index named.event once
              named.at in
          subst (λ j. count (λ e. t e.kind && e.id == j) (convert_from 0 result) ≡ 1) same
            (subst (λ r. count (λ e. t e.kind && e.id == f named.event.id) (convert_from 0 r) ≡ 1)
              (sym l.relabelled) (count-converted t f named.event.id 0 events apart ∙ raw)))
  ]

  count-kinds :
      (i : ℕ) (es : List (Entry V))
      → count (λ e. e.id == i) es ≡ count (call_of i) es + count (return_at i) es
  unfolding count
  count-kinds i [] = refl
  count-kinds i (e ∷ es) = omega (arith, kinds e.kind (e.id == i), count-kinds i es)

  call_of_other : (i : ℕ) (e : Entry V) → (¬ (e.id ≡ i)) → call_of i e ≡ false
  call_of_other i e h = by_kind e.kind refl
    where
      by_kind : (kind : EntryKind) → e.kind ≡ kind → call_of i e ≡ false
      by_kind call_entry s = ground (arith, s, h)
      by_kind return_entry s = ground (arith, s)

  Loop-below :
      (events result : List (Event V)) (l : Loop (λ i. none) 0 events result)
      → Every (λ e. e.id < l.count) (convert_from 0 result)
  Loop-below events result l =
      subst (λ r. Every (λ e. e.id < l.count) (convert_from 0 r)) (sym l.relabelled)
        (Every-converted (λ kind i. i < l.count) (λ j. number (l.last j)) 0 events
          (get-Every _ events
            (λ k v at. let (r, e) = l.known k v at in ground (arith, e, l.inv.0 v.id r e))))

  Loop-IsEntries :
      (events result : List (Event V)) (l : Loop (λ i. none) 0 events result)
      → IsBalanced events
      → IsEntries l.count (convert_from 0 result)
  Loop-IsEntries events result l v =
      let es = convert_from 0 result in
      let below = Loop-below events result l in
      let one_call : (i : ℕ) → i < l.count → count (call_of i) es ≡ 1 =
        λ i lt. one_hit calls events result l i v.one_call lt in
      let one_return : (i : ℕ) → i < l.count → count (return_at i) es ≡ 1 =
        λ i lt. one_hit is_return events result l i v.one_return lt in
      let first =
        subst (λ r. EntriesFirst (convert_from 0 r)) (sym l.relabelled)
          (EntriesFirst-converted l.last l.count 0 events l.inv (get-Every _ events l.known)
            v.calls_first) in
      record {
        size =
            sym (
              count-all (λ e. ltb e.id l.count) es
                (get-Every _ es (λ k e at. lt→ltb e.id l.count (Every-get _ es k e below at))))
            ∙ count-below (λ e. e.id) l.count es
                (λ i lt. omega (arith, count-kinds i es, one_call i lt, one_return i lt));
        one_call = λ i. elim (dec_lt i l.count) [
          | yes lt ↦ omega (arith, one_call i lt)
          | no ge ↦ omega (
            arith,
            count-none (call_of i) es (
                get-Every _ es (λ k e at.
                  call_of_other i e
                    (λ same. ge (subst (λ j. j < l.count) same (Every-get _ es k e below at))))),
          )
        ];
        one_return = one_return;
        below = below;
        in_order = λ seen r mid c rest split k k'.
            EntriesFirst-split seen r mid c rest (subst EntriesFirst split first) k k';
      }

  -- If each identifier of a history has one call and then one return, the entries that convertEntries
  -- makes of the renumbered history are a complete history of half as many operations.
  pub convert_entries-IsComplete :
      (events : List (Event V))
      → IsBalanced events
      → (n : ℕ) × (n + n ≡ length events) × IsComplete n (convert_entries (renumber events))
  unfolding convert_entries renumber
  convert_entries-IsComplete events v =
      let l = renumber_from-Loop (λ i. none) 0 events (λ j r h. cc, λ j k r h i. cc) in
      let w = Loop-IsEntries events _ l v in
      let result = map (relabel (λ j. number (l.last j))) events in
      (
        l.count,
        sym w.size
            ∙ ap (λ r. length (convert_from 0 r)) l.relabelled
            ∙ length-converted (λ j. number (l.last j)) 0 events,
        IsEntries-IsComplete l.count _ w,
      )
