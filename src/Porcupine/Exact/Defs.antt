-- ===== src/Porcupine/Exact/Defs.antt =====
-- src/porcupine/checker.go: what holds between two rounds of checkSingle.
use mit_distributed_systems.Prelude.{
  ℕ, zero, suc, ◌+◌, ◌*◌, ◌≤◌, ◌≡◌, ◌⊎◌, List, [], ◌∷◌, ◌++◌, length, Bool, true, false, ◌||◌, some,
  ◌==◌, if◌then◌else◌,
}
use mit_distributed_systems.Porcupine.History.{call_entry}
use mit_distributed_systems.Porcupine.Items.{Item}
use mit_distributed_systems.Porcupine.Links.{Node, unlift}
use mit_distributed_systems.Porcupine.Bitset.{write, get_bit}
use mit_distributed_systems.Porcupine.Bits.{IsWide}
use mit_distributed_systems.Porcupine.Cache.{CacheEntry, cache_contains}
use mit_distributed_systems.Porcupine.Search.{Search, CallsEntry}
use mit_distributed_systems.Porcupine.Reference.{accept, first_of, linearize, weight}
use mit_distributed_systems.Porcupine.Chain.{Chain, first}
use mit_distributed_systems.Porcupine.Lifting.{SameNodes}
use mit_distributed_systems.Porcupine.Pairs.{Pair, IsPaired}
use mit_distributed_systems.Porcupine.Live.{live}

-- A level of the search below the current one: the store, bits and state there, its items with the
-- call that was taken out, and the operations left behind it.
pub record Parent (V S : Type 0) : Type 0 where
  pub links : ℕ → Node V
  pub bits : List (List Bool)
  pub state : S
  pub items : List (Item V)
  pub seen : List (Item V)
  pub call : Item V
  pub rest : List (Item V)
  pub left : ℕ

-- The current level: its items, those that the cursor has passed, and the operations left.
pub record View (V S : Type 0) : Type 0 where
  pub items : List (Item V)
  pub seen : List (Item V)
  pub rest : List (Item V)
  pub left : ℕ
  pub parents : List (Parent V S)

-- The rounds that the levels below may still take.
abbrev pub debt : {V S : Type 0} → List (Parent V S) → ℕ
debt [] = 0
debt (p ∷ ps) = 1 + length p.rest * weight (suc p.left) + debt ps

abbrev pub cost : {V S : Type 0} → View V S → ℕ
cost g = length g.rest * weight g.left + debt g.parents

module _ {V S : Type 0} (step : S → V → V → Bool × S) where
  -- What the items from the cursor on give.
  abbrev pub pending : ℕ → S → List (Item V) → List (Item V) → Bool
  pending zero st items rest = true
  pending (suc left) st items rest = first_of step (linearize step left) st items rest

  abbrev pub resume : List (Parent V S) → Bool
  resume [] = false
  resume (p ∷ ps) = first_of step (linearize step p.left) p.state p.items p.rest || resume ps

  abbrev pub value : View V S → S → Bool
  value g st = pending g.left st g.items g.rest || resume g.parents

  module _ (eq : S → S → Bool) (rank : ℕ → ℕ) (head : ℕ) (s0 : ℕ → Node V) (n : ℕ)
      (all : List (Item V)) where
    pub record IsLevel (s : ℕ → Node V) (b : List (List Bool)) (left : ℕ) (items : List (Item V))
        : Type 0 where
      pub chain : Chain rank s head items
      pub same : SameNodes s0 s
      pub is_live : items ≡ live b all
      pub paired : IsPaired s0 n items
      pub size : length items ≡ left + left
      pub wide : IsWide b
      pub room : n ≤ length b * 64

    -- The level above `p` has the store `s1`, the bits `b1` and the state `st1`.
    pub record IsParent (p : Parent V S) (top : CallsEntry S) (s1 : ℕ → Node V)
        (b1 : List (List Bool)) (left : ℕ) (st1 : S) : Type 0 where
      pub left_is : p.left ≡ left
      pub level : IsLevel p.links p.bits (suc p.left) p.items
      pub place : p.items ≡ p.seen ++ p.call ∷ p.rest
      pub pair : Pair s0 n p.seen p.call p.rest
      pub is_call : p.call.1.kind ≡ call_entry
      pub accepted : accept step p.state p.call p.rest ≡ some st1
      pub passed :
          linearize step (suc p.left) p.state p.items
          ≡ first_of step (linearize step p.left) p.state p.items (p.call ∷ p.rest)
      pub entry_is : top.entry ≡ p.call.0
      pub state_is : top.state ≡ p.state
      pub back : unlift s1 p.call.0 ≡ some p.links
      pub bits_back : write false b1 p.call.1.id ≡ some p.bits
      pub bits_are :
          (q : ℕ) → get_bit b1 q ≡ (if p.call.1.id == q then some true else get_bit p.bits q)

    abbrev pub IsTrail :
        List (Parent V S) → List (CallsEntry S) → (ℕ → Node V) → List (List Bool) → ℕ → S → Type 0
    IsTrail [] [] s1 b1 left st1 = Unit {0}
    IsTrail [] (top ∷ calls) s1 b1 left st1 = ⊥
    IsTrail (p ∷ ps) [] s1 b1 left st1 = ⊥
    IsTrail (p ∷ ps) (top ∷ calls) s1 b1 left st1 =
        IsParent p top s1 b1 left st1 × IsTrail ps calls p.links p.bits (suc p.left) p.state

    -- The operations that are not in the bits cannot be put in order from the state.
    abbrev pub Dead : List (List Bool) → S → Type 0
    Dead b st =
        (left : ℕ) → length (live b all) ≡ left + left → linearize step left st (live b all) ≡ false

    abbrev pub OnTrail : List (Parent V S) → List (List Bool) → S → Type 0
    OnTrail [] b st = ⊥
    OnTrail (p ∷ ps) b st = ((b ≡ p.bits) × (st ≡ p.state)) ⊎ OnTrail ps b st

    -- Each cached outcome leads nowhere, or the search is in the middle of it.
    abbrev pub IsCached :
        (List Bool → List (CacheEntry S)) → List (Parent V S) → List (List Bool) → S → Type 0
    IsCached cache ps b st =
        (b' : List (List Bool)) (st' : S)
        → cache_contains eq cache (record { linearized = b'; state = st' }) ≡ true
        → Dead b' st' ⊎ (((b' ≡ b) × (st' ≡ st)) ⊎ OnTrail ps b' st')

    pub record IsState (st : Search V S) (g : View V S) : Type 0 where
      pub level : IsLevel st.links st.linearized g.left g.items
      pub place : g.items ≡ g.seen ++ g.rest
      pub cursor : g.rest ≡ [] → g.items ≡ []
      pub entry_is : st.entry ≡ first g.rest
      pub passed : linearize step g.left st.state g.items ≡ pending g.left st.state g.items g.rest
      pub trail : IsTrail g.parents st.calls st.links st.linearized g.left st.state
      pub cached : IsCached st.cache g.parents st.linearized st.state
      pub noted : length st.longest ≡ n
