-- ===== src/Porcupine/Search.antt =====
-- src/porcupine/checker.go: checkSingle. One round of its loop is one function; the number of rounds is
-- fuel. `kill` gives what each round reads of the flag, by the rounds that are left.
use mit_distributed_systems.Prelude.{
  ℕ, zero, suc, ◌+◌, ◌/◌, ℤ, pos, negsuc, minus_one, List, [], ◌∷◌, ◌++◌, map, Bool, true, false,
  Option, none, some, length, get_elem?, set?, ltb, replicate, if◌then◌else◌, ◌>>=◌,
}
use mit_distributed_systems.Porcupine.History.{Entry}
use mit_distributed_systems.Porcupine.Links.{Node, insert_before, make_links, lift, unlift}
use mit_distributed_systems.Porcupine.Bitset.{new_bitset, write}
use mit_distributed_systems.Porcupine.Cache.{CacheEntry, cache_contains, cache_add}

pub record CallsEntry (S : Type 0) : Type 0 where
  pub entry : ℕ
  pub state : S

-- The loop's variables. The top of `calls` stands first. `longest` holds the lists themselves.
pub record Search (V S : Type 0) : Type 0 where
  pub links : ℕ → Node V
  pub entry : Option ℕ
  pub linearized : List (List Bool)
  pub cache : List Bool → List (CacheEntry S)
  pub calls : List (CallsEntry S)
  pub state : S
  pub longest : List (Option (List ℤ))

pub data Outcome (V S : Type 0) : Type 0 where
  going : Search V S → Outcome V S
  answered : Bool → List (Option (List ℤ)) → Outcome V S

-- `uint(id)`, as an index: a negative number is out of range.
abbrev pub to_uint : ℤ → Option ℕ
to_uint (pos i) = some i
to_uint (negsuc i) = none

-- `length`: the nodes up to nil. With the fuel used up it gives `none`, as an endless list would.
unfoldable pub links_length : {V : Type 0} → ℕ → (ℕ → Node V) → Option ℕ → Option ℕ
links_length zero s p = none
links_length (suc fuel) s none = some 0
links_length (suc fuel) s (some p) = do l ← links_length fuel s (s p).next; some (l + 1)

-- The identifiers of the calls, from the first on.
unfoldable pub seq_of_calls : {V S : Type 0} → (ℕ → Node V) → List (CallsEntry S) → List ℤ
seq_of_calls s [] = []
seq_of_calls s (v ∷ calls) = seq_of_calls s calls ++ (s v.entry).id ∷ []

-- Whether `seq` is to be noted at `longest[id]`.
abbrev pub is_longer : Option (List ℤ) → List ℤ → Bool
is_longer none seq = true
is_longer (some old) seq = ltb (length old) (length seq)

-- The loop over the calls that notes `seq`.
unfoldable pub note_longest :
    List ℤ → List ℤ → List (Option (List ℤ)) → Option (List (Option (List ℤ)))
unfolding set?
note_longest seq [] longest = some longest
note_longest seq (id ∷ ids) longest = do
  i ← to_uint id
  old ← get_elem? longest i
  longest' ← (if is_longer old seq then set? longest i (some seq) else some longest)
  note_longest seq ids longest'

module _ {V : Type 0} where
  abbrev pub blank : Node V
  blank = record { value = none; matching = none; id = minus_one; next = none; prev = none }

  -- The list with its head, a node behind those of the entries.
  unfoldable pub start_links : List (Entry V) → (ℕ → Node V) × Option ℕ
  unfolding make_links insert_before
  start_links history =
      let (s, (matches, root)) = make_links (λ x. blank) 0 history in
      (insert_before s (length history) root, root)

module _ {V S : Type 0} (step : S → V → V → Bool × S) (eq : S → S → Bool) where
  -- The part behind the test of the cache: the call is taken out of the list.
  unfoldable pub take_call : ℕ → Search V S → ℕ → S → List (List Bool) → Option (Outcome V S)
  take_call head st e new_state new_linearized = do
    links ← lift st.links e
    some (
        going (record {
          cache = cache_add st.cache (record { linearized = new_linearized; state = new_state });
          calls = record { entry = e; state = st.state } ∷ st.calls;
          state = new_state;
          linearized = new_linearized;
          links = links;
          entry = (links head).next;
          longest = st.longest;
        }))

  unfoldable pub pushed : ℕ → Search V S → ℕ → S → List (List Bool) → Option (Outcome V S)
  unfolding take_call
  pushed head st e new_state new_linearized =
      if cache_contains eq st.cache (record { linearized = new_linearized; state = new_state })
      then some (going (record st { entry = (st.links e).next }))
      else take_call head st e new_state new_linearized

  -- A call that the model accepts: it goes on the stack, unless the cache has the outcome.
  unfoldable pub push_call : ℕ → Search V S → ℕ → S → Option (Outcome V S)
  unfolding pushed
  push_call head st e new_state = do
    id ← to_uint (st.links e).id
    new_linearized ← write true st.linearized id
    pushed head st e new_state new_linearized

  -- A return: the last call comes off the stack.
  unfoldable pub pop_call : Bool → Search V S → Option (Outcome V S)
  unfolding note_longest seq_of_calls
  pop_call compute_partial st = elim st.calls [
    | [] ↦ some (answered false st.longest)
    | top ∷ calls ↦ (do
      let seq = seq_of_calls st.links (top ∷ calls)
      longest ← (if compute_partial then note_longest seq seq st.longest else some st.longest)
      id ← to_uint (st.links top.entry).id
      linearized ← write false st.linearized id
      links ← unlift st.links top.entry
      some (
          going (record st {
            longest = longest;
            state = top.state;
            linearized = linearized;
            calls = calls;
            links = links;
            entry = (links top.entry).next;
          })))
  ]

  -- The call at `e`, by what the model says of it.
  unfoldable pub offered : ℕ → Search V S → ℕ → Bool × S → Option (Outcome V S)
  unfolding push_call
  offered head st e (ok, new_state) =
      if ok
      then push_call head st e new_state
      else some (going (record st { entry = (st.links e).next }))

  -- The body of the loop at the node `e`.
  unfoldable pub visit : Bool → ℕ → Search V S → ℕ → Option (Outcome V S)
  unfolding offered pop_call
  visit compute_partial head st e = elim (st.links e).matching [
    | none ↦ pop_call compute_partial st
    | some m ↦ (do
      input ← (st.links e).value
      output ← (st.links m).value
      offered head st e (step st.state input output))
  ]

  -- A round, from the loop's test on.
  unfoldable pub round : Bool → ℕ → Bool → Search V S → Option (Outcome V S)
  unfolding visit
  round compute_partial head killed st = elim (st.links head).next [
    | none ↦
        let seq = seq_of_calls st.links st.calls in
        some (answered true (map (λ old. some seq) st.longest))
    | some first ↦
        if killed
        then some (answered false st.longest)
        else (do e ← st.entry; visit compute_partial head st e)
  ]

  unfoldable pub run :
      ℕ → Bool → ℕ → (ℕ → Bool) → Search V S → Option (Bool × List (Option (List ℤ)))
  unfolding round
  run zero compute_partial head kill st = none
  run (suc fuel) compute_partial head kill st = do
    outcome ← round compute_partial head (kill fuel) st
    elim outcome [
      | going st' ↦ run fuel compute_partial head kill st'
      | answered ok longest ↦ some (ok, longest)
    ]

  -- `checkSingle`, with `fuel` rounds.
  unfoldable pub check_single :
      ℕ → S → List (Entry V) → Bool → (ℕ → Bool) → Option (Bool × List (Option (List ℤ)))
  unfolding run start_links links_length
  check_single fuel init history compute_partial kill = do
    let (s, root) = start_links history
    l ← links_length (length history + 1) s root
    let n = l / 2
    run fuel compute_partial (length history) kill (record {
      links = s;
      entry = root;
      linearized = new_bitset n;
      cache = λ h. [];
      calls = [];
      state = init;
      longest = replicate n none;
    })
