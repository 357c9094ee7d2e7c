-- ===== src/Porcupine/Order.antt =====
-- src/porcupine/checker.go: the order of the entries of a history.
use mit_distributed_systems.Prelude.{◌≡◌, Bool, true, false, arith}
use mit_distributed_systems.Porcupine.History.{Entry, less}

module _ {V : Type 0} where
  pub record IsStrictWeak (lt : Entry V → Entry V → Bool) : Type 0 where
    pub irreflexive : (a : Entry V) → lt a a ≡ false
    pub transitive : (a b c : Entry V) → lt a b ≡ true → lt b c ≡ true → lt a c ≡ true
    pub ties :
        (a b c : Entry V)
        → lt a b ≡ false
        → lt b a ≡ false
        → lt b c ≡ false
        → lt c b ≡ false
        → lt a c ≡ false

  -- `byTime.Less` is a strict order in which being neither less nor greater is transitive, which
  -- sort.Sort asks for.
  pub less-IsStrictWeak : IsStrictWeak less
  unfolding less
  less-IsStrictWeak = record {
    irreflexive = λ a. ground arith;
    transitive = λ a b c h k. ground arith;
    ties = λ a b c h k l m. ground arith;
  }
