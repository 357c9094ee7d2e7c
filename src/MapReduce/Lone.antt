-- ===== src/MapReduce/Lone.antt =====
-- src/mr: a worker that works alone.
use mit_distributed_systems.Prelude.{
  Every, ℕ, ◌+◌, ◌<◌, ◌≤◌, ◌≡◌, Bytes, List, [], ◌∷◌, Option, some, true,
}
use mit_distributed_systems.MapReduce.Tasks.{
  TaskType, map_phase, reduce_phase, Coordinator, TaskResponse,
}
use mit_distributed_systems.MapReduce.Coordinator.{done, atoi}
use mit_distributed_systems.MapReduce.Invariant.{Inv}
use mit_distributed_systems.MapReduce.Worker.{KeyValue}
use mit_distributed_systems.MapReduce.Reports.{NoDash}
use mit_distributed_systems.MapReduce.Resting.{Ready}
use mit_distributed_systems.MapReduce.Expiring.{Any, Spares}
use mit_distributed_systems.MapReduce.Loop.{
  Expiry, Disk, delivered, Work, Turn, going, report, perform, turn, worker,
}

module _ (itoa : ℕ → Bytes) (bound : ℕ) (plain : (n : ℕ) → n < bound → NoDash (itoa n))
    (read_back : (n : ℕ) → n < bound → atoi (itoa n) ≡ some n) (ihash : Bytes → ℕ)
    (read_file : Bytes → Option Bytes)
    (glob : (ℕ → List (List KeyValue)) → ℕ → List (List KeyValue))
    (mapf : Bytes → Bytes → List KeyValue) (reducef : Bytes → List Bytes → Bytes) (pid : ℕ) where
  abbrev pub IsReadable : Bytes → Type 0
  IsReadable name = (contents : Bytes) × (read_file name ≡ some contents)

  abbrev pub AllReadable : List Bytes → Type 0
  AllReadable [] = Unit {0}
  AllReadable (name ∷ files) = IsReadable name × AllReadable files

  -- Between two rounds: no task is in progress, and the input files can be read.
  record Resting (c : Coordinator) : Type 0 where
    inv : Inv c
    maps : Ready IsReadable c.map_tasks
    reduces : Ready Any c.reduce_tasks
    few_maps : c.n_map ≤ bound
    few : c.n_reduce ≤ bound

  abbrev turn_of : ℕ → Work → Option Turn
  turn_of now w =
      turn itoa ihash read_file glob mapf reducef pid
        (record {
          asked = delivered;
          reported = delivered;
          now = now;
          early = [];
          late = λ type timer. [];
        })
        w

  abbrev next_disk : TaskResponse → Disk → Option Disk
  next_disk reply disk = perform itoa ihash read_file glob mapf reducef pid reply disk

  abbrev next_coordinator : TaskResponse → Coordinator → Option Coordinator
  next_coordinator reply c = report itoa ihash read_file glob mapf reducef pid delivered reply c

  -- A round that completes a map task.
  record Mapped (now : ℕ) (w : Work) : Type 0 where
    after : Work
    is : turn_of now w ≡ some (going after)
    resting : Resting after.coordinator
    phase : after.coordinator.status ≡ map_phase
    maps_done : after.coordinator.map_tasks_completed ≡ w.coordinator.map_tasks_completed + 1
    reduces_done : after.coordinator.reduce_tasks_completed ≡ w.coordinator.reduce_tasks_completed
    n_map : after.coordinator.n_map ≡ w.coordinator.n_map
    n_reduce : after.coordinator.n_reduce ≡ w.coordinator.n_reduce

  -- A round that completes a reduce task.
  record Reduced (now : ℕ) (w : Work) : Type 0 where
    after : Work
    is : turn_of now w ≡ some (going after)
    resting : Resting after.coordinator
    phase : after.coordinator.status ≡ reduce_phase
    reduces_done :
        after.coordinator.reduce_tasks_completed ≡ w.coordinator.reduce_tasks_completed + 1
    n_reduce : after.coordinator.n_reduce ≡ w.coordinator.n_reduce

  module _ (early : ℕ → List Expiry) (late : ℕ → TaskType → Option ℕ → List Expiry)
      (spared : (i : ℕ) (type : TaskType) (timer : Option ℕ)
        → Every (Spares type timer) (late i type timer)) where
    -- The loop, where no call fails.
    -- Other goroutines `waitTask` may end at any time, but not the one of the task at hand.
    abbrev pub alone : ℕ → (ℕ → ℕ) → Work → Option Work
    alone fuel now w =
        worker itoa ihash read_file glob mapf reducef pid fuel
          (λ i. record {
            asked = delivered;
            reported = delivered;
            now = now i;
            early = early i;
            late = late i;
          })
          w

    record Ended (fuel : ℕ) (now : ℕ → ℕ) (w : Work) : Type 0 where
      last : Work
      is : alone fuel now w ≡ some last
      all_done : done last.coordinator ≡ true
