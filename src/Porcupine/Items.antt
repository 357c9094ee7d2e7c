-- ===== src/Porcupine/Items.antt =====
-- The entries of a history with the numbers of their nodes.
use mit_distributed_systems.Prelude.{ℕ, ◌+◌, List, [], ◌∷◌}
use mit_distributed_systems.Porcupine.History.{Entry}

abbrev pub Item : Type 0 → Type 0
Item V = ℕ × Entry V

abbrev pub numbered : {V : Type 0} → ℕ → List (Entry V) → List (Item V)
numbered i [] = []
numbered i (en ∷ history) = (i, en) ∷ numbered (i + 1) history
