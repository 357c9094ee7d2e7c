-- ===== src/MapReduce/Answers.antt =====
-- src/mr/coordinator.go: what RequestTask and NotifyTaskCompletion answer a worker, case by case.
use mit_distributed_systems.Prelude.{
  ℕ, ◌+◌, ◌≡◌, refl, subst, Bytes, List, [], ◌∷◌, Option, some, none, true, false, length,
  get_elem?, set, arith, update, ◌==◌,
}
use mit_distributed_systems.MapReduce.Tasks.{
  Task, map_task, reduce_task, exit_task, no_task, map_phase, reduce_phase, exist_phase,
  Coordinator, TaskRequest, TaskResponse, completed,
}
use mit_distributed_systems.MapReduce.Coordinator.{
  first_idle, hand_out, advance_phase, assign, assign_map, assign_reduce, request_task, is_assigned,
  no_response, notify_task_completion, complete_reduce, reduce_tasks_from,
}
use mit_distributed_systems.MapReduce.Invariant.{Inv, request_task_total}
use mit_distributed_systems.MapReduce.Reports.{report_task_done}

abbrev pub heard : ℕ → ℕ → Coordinator → Coordinator
heard pid now c = record c { workers = update c.workers pid (some now) }

pub request_map :
    (pid now : ℕ) (c : Coordinator) (i : ℕ) (t : Task)
    → c.status ≡ map_phase
    → (c.map_tasks_completed == c.n_map) ≡ false
    → first_idle c.map_tasks 0 ≡ some (i, t)
    → request_task now c (record { worker_id = pid })
      ≡ some (
        record (heard pid now c) { map_tasks = set c.map_tasks i (hand_out t pid) },
        (
          record {
            task_type = map_task;
            task_id = t.task_id;
            map_file = t.file;
            reduce_files = [];
            n_reduce = c.n_reduce;
          },
          some i,
        ),
      )
unfolding request_task assign assign_map advance_phase
request_map pid now c i t st more is = ground (arith, st, more, is)

-- Task `i` goes to the worker, and the phase is that of the reduce tasks.
abbrev pub reducing : ℕ → ℕ → Coordinator → ℕ → Task → Coordinator
reducing pid now c i t = record (heard pid now c) {
  status = reduce_phase;
  reduce_tasks = set c.reduce_tasks i (hand_out t pid);
}

abbrev pub reduce_reply : Task → List Bytes → TaskResponse
reduce_reply t files = record {
  task_type = reduce_task;
  task_id = t.task_id;
  map_file = [];
  reduce_files = files;
  n_reduce = 0;
}

pub request_reduce :
    (pid now : ℕ) (c : Coordinator) (i : ℕ) (t : Task) (files : List Bytes)
    → c.status ≡ reduce_phase
    → (c.reduce_tasks_completed == c.n_reduce) ≡ false
    → first_idle c.reduce_tasks 0 ≡ some (i, t)
    → get_elem? c.intermediate_files t.task_id ≡ some files
    → request_task now c (record { worker_id = pid })
      ≡ some (reducing pid now c i t, (reduce_reply t files, some i))
unfolding request_task assign assign_reduce advance_phase
request_reduce pid now c i t files st more is has = ground (arith, st, more, is, has)

pub request_first_reduce :
    (pid now : ℕ) (c : Coordinator) (i : ℕ) (t : Task) (files : List Bytes)
    → c.status ≡ map_phase
    → (c.map_tasks_completed == c.n_map) ≡ true
    → (length c.reduce_tasks == 0) ≡ false
    → first_idle c.reduce_tasks 0 ≡ some (i, t)
    → get_elem? c.intermediate_files t.task_id ≡ some files
    → request_task now c (record { worker_id = pid })
      ≡ some (reducing pid now c i t, (reduce_reply t files, some i))
unfolding request_task assign assign_reduce advance_phase
request_first_reduce pid now c i t files st over some_reduce is has =
    ground (arith, st, over, some_reduce, is, has)

pub request_no_reduce :
    (pid now : ℕ) (c : Coordinator)
    → c.status ≡ map_phase
    → (c.map_tasks_completed == c.n_map) ≡ true
    → c.reduce_tasks ≡ []
    → c.n_reduce ≡ 0
    → request_task now c (record { worker_id = pid })
      ≡ some (
        record (heard pid now c) { status = reduce_phase; reduce_tasks = [] },
        (no_response no_task, none),
      )
unfolding request_task assign assign_reduce advance_phase first_idle reduce_tasks_from
request_no_reduce pid now c st over none_there zero_reduce =
    ground (arith, st, over, none_there, zero_reduce)

pub request_exit :
    (pid now : ℕ) (c : Coordinator)
    → c.status ≡ reduce_phase
    → (c.reduce_tasks_completed == c.n_reduce) ≡ true
    → request_task now c (record { worker_id = pid })
      ≡ some (record (heard pid now c) { status = exist_phase }, (no_response exit_task, none))
unfolding request_task assign advance_phase
request_exit pid now c st over = ground (arith, st, over)

pub request_Inv :
    (now : ℕ) (c : Coordinator) (args : TaskRequest) (r : Coordinator × (TaskResponse × Option ℕ))
    → Inv c
    → request_task now c args ≡ some r
    → Inv r.0
request_Inv now c args r v e =
    let (r', e', inv) = request_task_total now c args v in
    let same : r' ≡ r = cc in subst (λ x. Inv x.0) same inv

pub length_zero : (ts : List Task) → length ts ≡ 0 → ts ≡ []
length_zero [] h = refl
length_zero (x ∷ ts) h = absurd (omega (arith, h))

-- The report of the reduce task `i` by the worker that has it.
pub notify_reduce :
    (c : Coordinator) (itoa : ℕ → Bytes) (pid i : ℕ) (t : Task)
    → get_elem? c.reduce_tasks i ≡ some t
    → is_assigned t pid ≡ true
    → notify_task_completion c (report_task_done itoa pid reduce_task 0 i)
      ≡ some (record c {
        reduce_tasks = set c.reduce_tasks i (record t { status = completed });
        reduce_tasks_completed = c.reduce_tasks_completed + 1;
      })
unfolding notify_task_completion complete_reduce report_task_done
notify_reduce c itoa pid i t got mine = rw (got, mine) refl
