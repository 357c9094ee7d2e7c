-- ===== src/MapReduce/Examples.antt =====
-- src/mr: tests on a job with one file, and the theorems at concrete inputs.
use mit_distributed_systems.Prelude.{
  Reordered, swapped, ◌+◌, ◌<◌, bytes_eq, ℕ, ◌≡◌, refl, Bytes, List, [], ◌∷◌, arith, some, map,
}
use mit_distributed_systems.MapReduce.Tasks.{
  in_progress, Task, Coordinator, completed, TaskType, map_task, reduce_task, TaskRequest,
  TaskCompletion,
}
use mit_distributed_systems.MapReduce.Coordinator.{
  wait_map_task, expire_at, request_task, notify_task_completion, make_coordinator, done,
  first_idle, assign, assign_map, assign_reduce, advance_phase, complete_map, complete_task,
  complete_reduce, add_files, extract_reduce_task_num, split_dash, atoi, atoi_from, map_tasks_from,
  reduce_tasks_from,
}
use mit_distributed_systems.MapReduce.Job.{Job, asks, reports, map_expires, Reach, start, later}
use mit_distributed_systems.MapReduce.Timers.{AllTimed, Reach-AllTimed}
use mit_distributed_systems.MapReduce.Phases.{
  AllCompleted, done-AllCompleted, request_task-AllCompleted,
}
use mit_distributed_systems.MapReduce.Worker.{
  KeyValue, perform_map, input_files, chosen, perform_reduce,
}
use mit_distributed_systems.MapReduce.Reports.{
  NoDash, Filed, output_name, report_task_done, notify_task_completion-Filed,
}
use mit_distributed_systems.MapReduce.Results.{reduce_output_complete, values}

abbrev file : Bytes
file = b'f' ∷ []

abbrev output : Bytes
output = b'm' ∷ b'r' ∷ b'-' ∷ b'0' ∷ b'-' ∷ b'0' ∷ []

abbrev ask : ℕ → TaskRequest
ask w = record { worker_id = w }

abbrev report : ℕ → TaskType → List Bytes → TaskCompletion
report w type files = record { worker_id = w; task_type = type; task_id = 0; output_files = files }

extract_reduce_task_num_test : extract_reduce_task_num output ≡ some 0
unfolding extract_reduce_task_num split_dash atoi atoi_from
extract_reduce_task_num_test = refl

-- Worker 1 takes the map task and is too slow; worker 2 does it.
abbrev slow : (j : Job) × Reach (file ∷ []) 1 j
unfolding request_task make_coordinator first_idle assign assign_map advance_phase map_tasks_from
    reduce_tasks_from
slow = (_, later (later start (asks 0 (ask 1) refl)) (map_expires _ 0 (omega arith)))

-- Worker 2 reports its output, and asks for the reduce task.
abbrev mapped : (j : Job) × Reach (file ∷ []) 1 j
unfolding request_task make_coordinator first_idle assign assign_map assign_reduce advance_phase
    map_tasks_from reduce_tasks_from notify_task_completion complete_map complete_task add_files
    extract_reduce_task_num split_dash atoi atoi_from wait_map_task expire_at
mapped = (
  _,
  later (later slow.1 (asks 11 (ask 2) refl)) (reports (report 2 map_task (output ∷ [])) refl),
)

abbrev finished : (j : Job) × Reach (file ∷ []) 1 j
unfolding request_task make_coordinator first_idle assign assign_map assign_reduce advance_phase
    map_tasks_from reduce_tasks_from notify_task_completion complete_map complete_task
    complete_reduce add_files extract_reduce_task_num split_dash atoi atoi_from wait_map_task
    expire_at
finished = (
  _,
  later (later (later mapped.1 (asks 12 (ask 2) refl)) (reports (report 2 reduce_task []) refl))
      (asks 13 (ask 2) refl),
)

Reach-AllTimed_example : AllTimed slow.0
Reach-AllTimed_example = Reach-AllTimed slow.1

done-AllCompleted_example :
    AllCompleted finished.0.coordinator.map_tasks × AllCompleted finished.0.coordinator.reduce_tasks
unfolding request_task make_coordinator first_idle assign assign_map assign_reduce advance_phase
    map_tasks_from reduce_tasks_from notify_task_completion complete_map complete_task
    complete_reduce add_files extract_reduce_task_num split_dash atoi atoi_from wait_map_task
    expire_at done
done-AllCompleted_example = done-AllCompleted finished.1 refl

request_task-AllCompleted_example : AllCompleted mapped.0.coordinator.map_tasks
unfolding request_task make_coordinator first_idle assign assign_map assign_reduce advance_phase
    map_tasks_from reduce_tasks_from notify_task_completion complete_map complete_task add_files
    extract_reduce_task_num split_dash atoi atoi_from wait_map_task expire_at
request_task-AllCompleted_example = request_task-AllCompleted 12 (ask 3) mapped.1 refl refl

-- Each byte of the contents is a word; the reduce function gives the number of its values as text.
abbrev words : Bytes → Bytes → List KeyValue
words name [] = []
words name (b ∷ s) = record { key = b ∷ []; value = b'1' ∷ [] } ∷ words name s

abbrev count : Bytes → List Bytes → Bytes
count k [] = []
count k (v ∷ vs) = b'1' ∷ count k vs

abbrev first_byte : Bytes → ℕ
first_byte [] = 0
first_byte (b ∷ s) = b

abbrev texts : List (Bytes × Bytes)
texts = (file, b'a' ∷ b'b' ∷ []) ∷ (file, b'c' ∷ b'a' ∷ []) ∷ []

reduce_output_complete_example :
    (values (b'a' ∷ []) (
        perform_reduce count
          (input_files (1 ∷ 0 ∷ []) 1 (map (perform_map first_byte words 2) texts)))
      ≡ (b'1' ∷ b'1' ∷ []) ∷ [])
    × Reordered {A = Bytes} ((b'1' ∷ []) ∷ (b'1' ∷ []) ∷ []) ((b'1' ∷ []) ∷ (b'1' ∷ []) ∷ [])
unfolding bytes_eq chosen
reduce_output_complete_example =
    reduce_output_complete first_byte 2 words count texts (1 ∷ 0 ∷ []) 1 (b'a' ∷ []) (omega arith)
      (swapped 1 0 [])

abbrev digit : ℕ → Bytes
digit n = (b'0' + n) ∷ []

digit-NoDash : (n : ℕ) → n < 10 → NoDash (digit n)
digit-NoDash n h = (λ e. omega arith, tt)

atoi-digit : (n : ℕ) → n < 10 → atoi (digit n) ≡ some n
unfolding atoi atoi_from
atoi-digit n h = ground arith

abbrev taken : Task
taken = record { type = map_task; status = in_progress; worker_id = 4; file = file; task_id = 0 }

-- Worker 4 has the only map task, with three reduce tasks to follow.
abbrev waiting : Coordinator
waiting = record (make_coordinator (file ∷ []) 3) { map_tasks = taken ∷ [] }

notify_task_completion-Filed_example :
    (files : List (List Bytes)) × (notify_task_completion waiting
        (report_task_done digit 4 map_task 3 0)
      ≡ some (record waiting {
        map_tasks = record taken { status = completed } ∷ [];
        map_tasks_completed = 1;
        intermediate_files = files;
      }))
    × Filed (output_name digit 0) 3 0 ([] ∷ [] ∷ [] ∷ []) files
unfolding make_coordinator
notify_task_completion-Filed_example =
    notify_task_completion-Filed digit 10 digit-NoDash atoi-digit waiting 4 0 taken (omega arith)
      (omega arith) refl refl refl
