-- ===== src/MapReduce/Phases.antt =====
-- src/mr/coordinator.go: the order of the phases, and what `Done` means.
use mit_distributed_systems.Prelude.{
  ℕ, ◌≡◌, refl, Bytes, List, Option, some, true, get_elem?, arith,
}
use mit_distributed_systems.MapReduce.Tasks.{
  Task, completed, TaskType, reduce_task, Coordinator, TaskRequest, TaskResponse,
}
use mit_distributed_systems.MapReduce.Coordinator.{request_task, done}
use mit_distributed_systems.MapReduce.Lists.{all_completed}
use mit_distributed_systems.MapReduce.Invariant.{Inv}
use mit_distributed_systems.MapReduce.Job.{Job, Reach}
use mit_distributed_systems.MapReduce.Timers.{
  Reach-AllTimed, request_task-Answer, Answer, no_work, gives_map, gives_reduce,
}

abbrev pub AllCompleted : List Task → Type 0
AllCompleted ts = (i : ℕ) (t : Task) → get_elem? ts i ≡ some t → t.status ≡ completed

maps-AllCompleted :
    (c : Coordinator) → Inv c → c.map_tasks_completed ≡ c.n_map → AllCompleted c.map_tasks
maps-AllCompleted c v h i t got =
    all_completed c.map_tasks i t (omega (arith, v.maps_counted, v.maps)) got

reduces-AllCompleted :
    (c : Coordinator) → Inv c → c.reduce_tasks_completed ≡ c.n_reduce → AllCompleted c.reduce_tasks
reduces-AllCompleted c v h i t got =
    all_completed c.reduce_tasks i t (omega (arith, v.reduces_counted, v.reduces)) got

-- When `Done` answers true, in any state of a job, every map task and every reduce task is completed.
pub done-AllCompleted :
    {files : List Bytes} {n : ℕ} {j : Job}
    → Reach files n j
    → done j.coordinator ≡ true
    → AllCompleted j.coordinator.map_tasks × AllCompleted j.coordinator.reduce_tasks
unfolding done
done-AllCompleted {j} r h =
    let v = (Reach-AllTimed r).valid in
    (
      maps-AllCompleted j.coordinator v (ground arith),
      reduces-AllCompleted j.coordinator v (ground arith),
    )

Answer-reduce :
    (c c' : Coordinator) (type : TaskType) (timer : Option ℕ) (i : ℕ)
    → Answer c c' type timer
    → timer ≡ some i
    → type ≡ reduce_task
    → c.map_tasks_completed ≡ c.n_map
Answer-reduce c c' type timer i (no_work m r e) h is = cc
Answer-reduce c c' type timer i (gives_map e o r) h is = cc
Answer-reduce c c' type timer i (gives_reduce e o m all) h is = all

-- A request that is answered with a reduce task, in any state of a job, finds every map task completed.
pub request_task-AllCompleted :
    {files : List Bytes} {n : ℕ} {j : Job} {c : Coordinator} {reply : TaskResponse} {i : ℕ}
    (now : ℕ) (args : TaskRequest)
    → Reach files n j
    → request_task now j.coordinator args ≡ some (c, (reply, some i))
    → reply.task_type ≡ reduce_task
    → AllCompleted j.coordinator.map_tasks
request_task-AllCompleted {j} {c} {reply} {i} now args r h is =
    let v = (Reach-AllTimed r).valid in
    maps-AllCompleted j.coordinator v (
      Answer-reduce j.coordinator c reply.task_type (some i) i
        (request_task-Answer now j.coordinator args v h) refl is)
