-- ===== src/MapReduce/Job.antt =====
-- src/mr: a whole job. Workers ask and report in any order, and each handed-out task has a goroutine
-- that waits to set it back.
use mit_distributed_systems.Prelude.{ℕ, ◌+◌, ◌-◌, ◌<◌, ◌≡◌, Bytes, List, Option, some, update}
use mit_distributed_systems.MapReduce.Tasks.{
  TaskType, map_task, reduce_task, Coordinator, TaskRequest, TaskResponse, TaskCompletion,
}
use mit_distributed_systems.MapReduce.Coordinator.{
  request_task, notify_task_completion, wait_map_task, wait_reduce_task, make_coordinator,
}

-- The coordinator, with the number of goroutines that wait for each task.
pub record Job : Type 0 where
  pub coordinator : Coordinator
  pub map_timers : ℕ → ℕ
  pub reduce_timers : ℕ → ℕ

abbrev pub start_timer : (ℕ → ℕ) → ℕ → ℕ → ℕ
start_timer timers i = update timers i (timers i + 1)

abbrev pub stop_timer : (ℕ → ℕ) → ℕ → ℕ → ℕ
stop_timer timers i = update timers i (timers i - 1)

-- The goroutine that a response starts.
abbrev pub started : Job → Coordinator → TaskType → Option ℕ → Job
started j c map_task (some i) = record j {
  coordinator = c;
  map_timers = start_timer j.map_timers i;
}
started j c reduce_task (some i) = record j {
  coordinator = c;
  reduce_timers = start_timer j.reduce_timers i;
}
started j c _ _ = record j { coordinator = c }

pub data Step : Job → Job → Type 0 where
  asks :
      {j : Job} {c : Coordinator} {reply : TaskResponse} {timer : Option ℕ} (now : ℕ)
      (args : TaskRequest)
      → request_task now j.coordinator args ≡ some (c, (reply, timer))
      → Step j (started j c reply.task_type timer)
  reports :
      {j : Job} {c : Coordinator} (args : TaskCompletion)
      → notify_task_completion j.coordinator args ≡ some c
      → Step j (record j { coordinator = c })
  map_expires :
      (j : Job) (i : ℕ)
      → 0 < j.map_timers i
      → Step j (record j {
        coordinator = wait_map_task j.coordinator i;
        map_timers = stop_timer j.map_timers i;
      })
  reduce_expires :
      (j : Job) (i : ℕ)
      → 0 < j.reduce_timers i
      → Step j (record j {
        coordinator = wait_reduce_task j.coordinator i;
        reduce_timers = stop_timer j.reduce_timers i;
      })

abbrev pub new_job : List Bytes → ℕ → Job
new_job files n = record {
  coordinator = make_coordinator files n;
  map_timers = λ i. 0;
  reduce_timers = λ i. 0;
}

pub data Reach (files : List Bytes) (n : ℕ) : Job → Type 0 where
  start : Reach files n (new_job files n)
  later : {j j' : Job} → Reach files n j → Step j j' → Reach files n j'
