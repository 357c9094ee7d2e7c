-- ===== src/MapReduce/Coordinator.antt =====
-- src/mr/coordinator.go: the handlers under `mu`, the timer of a task, and the coordinator's start.
use mit_distributed_systems.Prelude.{
  ℕ, zero, suc, ◌+◌, ◌*◌, ◌-◌, Bytes, update, List, [], ◌∷◌, ◌++◌, Bool, false, ◌&&◌, Option, none,
  some, length, get_elem?, set, set?, replicate, leb, ◌==◌, if◌then◌else◌, ◌>>=◌,
}
use mit_distributed_systems.MapReduce.Tasks.{
  Task, idle, in_progress, completed, TaskType, map_task, reduce_task, exit_task, no_task,
  map_phase, reduce_phase, exist_phase, Coordinator, TaskRequest, TaskResponse, TaskCompletion,
  is_idle, is_in_progress,
}

-- The index of the first idle task, and the task as it was.
unfoldable pub first_idle : List Task → ℕ → Option (ℕ × Task)
first_idle [] i = none
first_idle (t ∷ ts) i = if is_idle t then some (i, t) else first_idle ts (i + 1)

abbrev pub hand_out : Task → ℕ → Task
hand_out t worker = record t { status = in_progress; worker_id = worker }

-- The loop that fills `reduceTasks`: `left` to go from `i`.
unfoldable pub reduce_tasks_from : ℕ → ℕ → List Task
reduce_tasks_from zero i = []
reduce_tasks_from (suc left) i =
    record { type = reduce_task; status = idle; worker_id = 0; file = []; task_id = i }
    ∷ reduce_tasks_from left (i + 1)

-- The phase changes at the start of `RequestTask`.
unfoldable pub advance_phase : Coordinator → Coordinator
advance_phase c = elim c.status [
  | map_phase ↦
      if c.map_tasks_completed == c.n_map
      then record c {
        status = reduce_phase;
        reduce_tasks =
            if length c.reduce_tasks == 0 then reduce_tasks_from c.n_reduce 0 else c.reduce_tasks;
      }
      else c
  | reduce_phase ↦
      if c.reduce_tasks_completed == c.n_reduce then record c { status = exist_phase } else c
  | exist_phase ↦ c
]

abbrev pub no_response : TaskType → TaskResponse
no_response type = record {
  task_type = type;
  task_id = 0;
  map_file = [];
  reduce_files = [];
  n_reduce = 0;
}

-- A handed-out task of the phase, or the answer to wait. The number is that of the task whose timer
-- starts.
unfoldable pub assign_map : Coordinator → ℕ → Coordinator × (TaskResponse × Option ℕ)
assign_map c worker = elim (first_idle c.map_tasks 0) [
  | none ↦ (c, (no_response no_task, none))
  | some (i, t) ↦ (
    record c { map_tasks = set c.map_tasks i (hand_out t worker) },
    (
      record {
        task_type = map_task;
        task_id = t.task_id;
        map_file = t.file;
        reduce_files = [];
        n_reduce = c.n_reduce;
      },
      some i,
    ),
  )
]

-- It panics if there is no list of files for the task.
unfoldable pub assign_reduce : Coordinator → ℕ → Option (Coordinator × (TaskResponse × Option ℕ))
assign_reduce c worker = elim (first_idle c.reduce_tasks 0) [
  | none ↦ some (c, (no_response no_task, none))
  | some (i, t) ↦ (do
    files ← get_elem? c.intermediate_files t.task_id
    some (
      record c { reduce_tasks = set c.reduce_tasks i (hand_out t worker) },
      (
        record {
          task_type = reduce_task;
          task_id = t.task_id;
          map_file = [];
          reduce_files = files;
          n_reduce = 0;
        },
        some i,
      ),
    ))
]

unfoldable pub assign : Coordinator → ℕ → Option (Coordinator × (TaskResponse × Option ℕ))
assign c worker = elim c.status [
  | map_phase ↦ some (assign_map c worker)
  | reduce_phase ↦ assign_reduce c worker
  | exist_phase ↦ some (c, (no_response exit_task, none))
]

-- `RequestTask` at the time `now`. A worker that asks is new or heard of again.
unfoldable pub request_task :
    ℕ → Coordinator → TaskRequest → Option (Coordinator × (TaskResponse × Option ℕ))
request_task now c args =
    assign (advance_phase (record c { workers = update c.workers args.worker_id (some now) }))
      args.worker_id

-- strings.Split at "-": the part up to the next dash, and the parts behind it.
unfoldable pub split_dash : Bytes → Bytes × List Bytes
split_dash [] = ([], [])
split_dash (b ∷ s) =
    let (part, parts) = split_dash s in if b == b'-' then ([], part ∷ parts) else (b ∷ part, parts)

-- The digits of strconv.Atoi.
unfoldable pub atoi_from : ℕ → Bytes → Option ℕ
atoi_from n [] = some n
atoi_from n (b ∷ s) = if leb b'0' b && leb b b'9' then atoi_from (n * 10 + (b - b'0')) s else none

abbrev atoi_digits : Bytes → Option ℕ
atoi_digits [] = none
atoi_digits (b ∷ s) = atoi_from 0 (b ∷ s)

-- strconv.Atoi of a text with no dash. A number past the range of `int` is an error there; here it is
-- out of range for the slice that it indexes, which is as fatal.
unfoldable pub atoi : Bytes → Option ℕ
unfolding atoi_from
atoi [] = none
atoi (b ∷ s) = if b == b'+' then atoi_digits s else atoi_from 0 (b ∷ s)

abbrev pub third_part : Bytes × List Bytes → Option ℕ
third_part (_, b ∷ c ∷ []) = atoi c
third_part _ = none

-- `log.Fatalf` where the name has not three parts, or the last is no number.
unfoldable pub extract_reduce_task_num : Bytes → Option ℕ
unfolding split_dash atoi
extract_reduce_task_num filename = third_part (split_dash filename)

unfoldable pub add_files : List (List Bytes) → List Bytes → Option (List (List Bytes))
unfolding set? extract_reduce_task_num
add_files lists [] = some lists
add_files lists (file ∷ files) = do
  n ← extract_reduce_task_num file
  old ← get_elem? lists n
  lists' ← set? lists n (old ++ file ∷ [])
  add_files lists' files

-- Whether the report comes from the worker that has the task.
abbrev pub is_assigned : Task → ℕ → Bool
is_assigned t worker = is_in_progress t && t.worker_id == worker

unfoldable pub complete_task : Coordinator → TaskCompletion → Task → Option Coordinator
complete_task c args t =
    if is_assigned t args.worker_id
    then (do
      files ← add_files c.intermediate_files args.output_files
      some (record c {
        map_tasks = set c.map_tasks args.task_id (record t { status = completed });
        map_tasks_completed = c.map_tasks_completed + 1;
        intermediate_files = files;
      }))
    else some c

unfoldable pub complete_map : Coordinator → TaskCompletion → Option Coordinator
unfolding complete_task
complete_map c args = do t ← get_elem? c.map_tasks args.task_id; complete_task c args t

unfoldable pub complete_reduce : Coordinator → TaskCompletion → Option Coordinator
complete_reduce c args = do
  t ← get_elem? c.reduce_tasks args.task_id
  some (
      if is_assigned t args.worker_id
      then record c {
        reduce_tasks = set c.reduce_tasks args.task_id (record t { status = completed });
        reduce_tasks_completed = c.reduce_tasks_completed + 1;
      }
      else c)

unfoldable pub notify_task_completion : Coordinator → TaskCompletion → Option Coordinator
notify_task_completion c args = elim args.task_type [
  | map_task ↦ complete_map c args
  | reduce_task ↦ complete_reduce c args
  | exit_task ↦ some c
  | no_task ↦ some c
]

-- The end of `waitTask` for the task at `i` of a slice: back to idle if still in progress.
abbrev pub expire : Task → Task
expire t = if is_in_progress t then record t { status = idle; worker_id = 0 } else t

unfoldable pub expire_at : List Task → ℕ → List Task
expire_at [] i = []
expire_at (t ∷ ts) zero = expire t ∷ ts
expire_at (t ∷ ts) (suc i) = t ∷ expire_at ts i

unfoldable pub wait_map_task : Coordinator → ℕ → Coordinator
unfolding expire_at
wait_map_task c i = record c { map_tasks = expire_at c.map_tasks i }

unfoldable pub wait_reduce_task : Coordinator → ℕ → Coordinator
unfolding expire_at
wait_reduce_task c i = record c { reduce_tasks = expire_at c.reduce_tasks i }

unfoldable pub done : Coordinator → Bool
done c = elim c.status [
  | exist_phase ↦ c.map_tasks_completed == c.n_map && c.reduce_tasks_completed == c.n_reduce
  | _ ↦ false
]

unfoldable pub map_tasks_from : List Bytes → ℕ → List Task
map_tasks_from [] i = []
map_tasks_from (file ∷ files) i =
    record { type = map_task; status = idle; worker_id = 0; file = file; task_id = i }
    ∷ map_tasks_from files (i + 1)

unfoldable pub make_coordinator : List Bytes → ℕ → Coordinator
unfolding map_tasks_from reduce_tasks_from
make_coordinator files n_reduce = record {
  map_tasks = map_tasks_from files 0;
  reduce_tasks = reduce_tasks_from n_reduce 0;
  n_reduce = n_reduce;
  n_map = length files;
  workers = λ w. none;
  intermediate_files = replicate n_reduce [];
  map_tasks_completed = 0;
  reduce_tasks_completed = 0;
  status = map_phase;
}
