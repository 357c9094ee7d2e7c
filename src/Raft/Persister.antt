-- ===== src/Raft/Persister.antt =====
-- src/raft/persister.go, and what raft.go does with it. A byte slice is a list of numbers, nil and the
-- empty slice alike. labgob's encoder is a parameter.
use mit_distributed_systems.Prelude.{ℕ, ℤ, List, [], ◌∷◌, length, ◌≡◌, refl}
use mit_distributed_systems.Raft.State.{Raft, LogEntry}

pub record Persister : Type 0 where
  pub raftstate : List ℕ
  pub snapshot : List ℕ

unfoldable pub make_persister : Persister
make_persister = record { raftstate = []; snapshot = [] }

-- A new slice of the same length, filled element by element.
unfoldable pub clone : List ℕ → List ℕ
clone [] = []
clone (b ∷ orig) = b ∷ clone orig

unfoldable pub copy : Persister → Persister
copy ps = record { raftstate = ps.raftstate; snapshot = ps.snapshot }

unfoldable pub read_raft_state : Persister → List ℕ
read_raft_state ps = clone ps.raftstate

unfoldable pub raft_state_size : Persister → ℕ
raft_state_size ps = length ps.raftstate

unfoldable pub save : Persister → List ℕ → List ℕ → Persister
save ps raftstate snapshot = record { raftstate = clone raftstate; snapshot = clone snapshot }

unfoldable pub read_snapshot : Persister → List ℕ
read_snapshot ps = clone ps.snapshot

unfoldable pub snapshot_size : Persister → ℕ
snapshot_size ps = length ps.snapshot

module _ {Command : Type 0} where
  -- No code calls `persist`.
  unfoldable pub persist :
      (encode : ℕ → ℤ → List (LogEntry Command) → List ℕ) → Raft Command → Persister → Persister
  persist encode rf ps = save ps (encode rf.current_term rf.voted_for rf.log) []

  -- `readPersist` returns early on no data, and its body is empty otherwise.
  unfoldable pub read_persist : Raft Command → List ℕ → Raft Command
  read_persist rf [] = rf
  read_persist rf (b ∷ bytes) = rf

pub clone_id : (bytes : List ℕ) → clone bytes ≡ bytes
unfolding clone
clone_id [] = refl
clone_id (b ∷ bytes) = λ i. b ∷ clone_id bytes i

-- A copy of a persister reads back the state and the snapshot that were saved last, and the sizes
-- are theirs.
pub read-save :
    (ps : Persister) (raftstate snapshot : List ℕ)
    → (read_raft_state (copy (save ps raftstate snapshot)) ≡ raftstate)
      × (read_snapshot (copy (save ps raftstate snapshot)) ≡ snapshot)
      × (raft_state_size (save ps raftstate snapshot) ≡ length raftstate)
      × (snapshot_size (save ps raftstate snapshot) ≡ length snapshot)
unfolding copy save read_raft_state read_snapshot raft_state_size snapshot_size
read-save ps raftstate snapshot = simp clone_id (refl, refl, refl, refl)

pub read_persist_id :
    {Command : Type 0} (rf : Raft Command) (bytes : List ℕ) → read_persist rf bytes ≡ rf
unfolding read_persist
read_persist_id rf [] = refl
read_persist_id rf (b ∷ bytes) = refl
