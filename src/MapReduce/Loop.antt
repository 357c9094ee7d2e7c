-- ===== src/MapReduce/Loop.antt =====
-- src/mr/worker.go: the loop of Worker, with requestTask and the call of reportTaskDone. `read_file` and
-- `glob` stand for the reading of input files and of the intermediate files of a reduce task.
use mit_distributed_systems.Prelude.{
  ℕ, zero, suc, Bytes, List, [], ◌∷◌, Option, none, some, update, ◌>>=◌,
}
use mit_distributed_systems.MapReduce.Tasks.{
  TaskType, map_task, reduce_task, exit_task, no_task, Coordinator, TaskResponse,
}
use mit_distributed_systems.MapReduce.Coordinator.{
  request_task, notify_task_completion, wait_map_task, wait_reduce_task,
}
use mit_distributed_systems.MapReduce.Worker.{KeyValue, perform_map, perform_reduce}
use mit_distributed_systems.MapReduce.Reports.{report_task_done}

-- The files: those of each map task, and the output of each reduce task.
pub record Disk : Type 0 where
  pub intermediate : ℕ → List (List KeyValue)
  pub outputs : ℕ → Option (List KeyValue)

-- What becomes of a call: an error before or behind the handler.
pub data Fate : Type 0 where
  delivered request_lost reply_lost : Fate

-- A goroutine `waitTask` that comes to its end, by the place of its task.
pub data Expiry : Type 0 where
  map_expiry reduce_expiry : ℕ → Expiry

unfoldable pub expire_one : Expiry → Coordinator → Coordinator
expire_one (map_expiry i) c = wait_map_task c i
expire_one (reduce_expiry i) c = wait_reduce_task c i

unfoldable pub expire_all : List Expiry → Coordinator → Coordinator
unfolding expire_one
expire_all [] c = c
expire_all (x ∷ l) c = expire_all l (expire_one x c)

-- What a round meets: the ends of its two calls, the time, the goroutines `waitTask` that end before
-- its request, and those that end while the worker is at its task, which may depend on the task's type
-- and place. Any of them may end at any time and as often as it likes, also those that were not started.
pub record Round : Type 0 where
  pub asked : Fate
  pub reported : Fate
  pub now : ℕ
  pub early : List Expiry
  pub late : TaskType → Option ℕ → List Expiry

-- The coordinator that the worker calls, and the files.
pub record Work : Type 0 where
  pub coordinator : Coordinator
  pub disk : Disk

pub data Turn : Type 0 where
  going stopped : Work → Turn

module _ (itoa : ℕ → Bytes) (ihash : Bytes → ℕ) (read_file : Bytes → Option Bytes)
    (glob : (ℕ → List (List KeyValue)) → ℕ → List (List KeyValue))
    (mapf : Bytes → Bytes → List KeyValue) (reducef : Bytes → List Bytes → Bytes) (pid : ℕ) where
  -- `requestTask`, with no answer where the call fails. With the answer goes the place of the task whose
  -- `waitTask` has started.
  unfoldable pub ask :
      Fate → ℕ → Coordinator → Option (Coordinator × Option (TaskResponse × Option ℕ))
  ask request_lost now c = some (c, none)
  ask reply_lost now c = do
    (c', reply) ← request_task now c (record { worker_id = pid })
    some (c', none)
  ask delivered now c = do
    (c', reply) ← request_task now c (record { worker_id = pid })
    some (c', some reply)

  -- The call of `reportTaskDone`, whose failure is only logged.
  unfoldable pub report : Fate → TaskResponse → Coordinator → Option Coordinator
  report request_lost reply c = some c
  report reply_lost reply c =
      notify_task_completion c
        (report_task_done itoa pid reply.task_type reply.n_reduce reply.task_id)
  report delivered reply c =
      notify_task_completion c
        (report_task_done itoa pid reply.task_type reply.n_reduce reply.task_id)

  -- `performMap` or `performReduce`. An input file that cannot be read is fatal.
  unfoldable pub perform : TaskResponse → Disk → Option Disk
  perform reply disk = elim reply.task_type [
    | map_task ↦ (do
      contents ← read_file reply.map_file
      some (record disk {
        intermediate =
            update disk.intermediate reply.task_id
              (perform_map ihash mapf reply.n_reduce (reply.map_file, contents));
      }))
    | reduce_task ↦ some (record disk {
      outputs =
          update disk.outputs reply.task_id
            (some (perform_reduce reducef (glob disk.intermediate reply.task_id)));
    })
    | exit_task ↦ some disk
    | no_task ↦ some disk
  ]

  unfoldable pub work : Fate → List Expiry → TaskResponse → Work → Option Turn
  unfolding perform report expire_all
  work reported late reply w = do
    disk ← perform reply w.disk
    c ← report reported reply (expire_all late w.coordinator)
    some (going (record { coordinator = c; disk = disk }))

  -- The switch on the task's type.
  unfoldable pub obey : Fate → List Expiry → TaskResponse → Work → Option Turn
  unfolding work
  obey reported late reply w = elim reply.task_type [
    | map_task ↦ work reported late reply w
    | reduce_task ↦ work reported late reply w
    | exit_task ↦ some (stopped w)
    | no_task ↦ some (going w)
  ]

  -- A round of the loop of `Worker`.
  unfoldable pub turn : Round → Work → Option Turn
  unfolding ask obey expire_all
  turn r w = do
    (c, answer) ← ask r.asked r.now (expire_all r.early w.coordinator)
    let w' = record w { coordinator = c }
    elim answer [
      | none ↦ some (going w')
      | some (reply, timer) ↦ obey r.reported (r.late reply.task_type timer) reply w'
    ]

  -- The loop, with `fuel` rounds. `rounds` gives what a round meets by the rounds that are left.
  unfoldable pub worker : ℕ → (ℕ → Round) → Work → Option Work
  unfolding turn
  worker zero rounds w = none
  worker (suc fuel) rounds w = do
    t ← turn (rounds fuel) w
    elim t [ going w' ↦ worker fuel rounds w' | stopped w' ↦ some w' ]
