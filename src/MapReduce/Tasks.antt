-- ===== src/MapReduce/Tasks.antt =====
-- src/mr/coordinator.go and rpc.go: tasks, the coordinator's state, and the messages.
use mit_distributed_systems.Prelude.{ℕ, Bytes, List, Bool, true, false, Option}

pub data TaskStatus : Type 0 where
  idle in_progress completed : TaskStatus

pub data TaskType : Type 0 where
  map_task reduce_task exit_task no_task : TaskType

pub record Task : Type 0 where
  pub type : TaskType
  pub status : TaskStatus
  pub worker_id : ℕ
  pub file : Bytes
  pub task_id : ℕ

pub data Phase : Type 0 where
  map_phase reduce_phase exist_phase : Phase

-- `workers` holds the time when a worker was last heard of; its record's ID is the key.
pub record Coordinator : Type 0 where
  pub map_tasks : List Task
  pub reduce_tasks : List Task
  pub n_reduce : ℕ
  pub n_map : ℕ
  pub workers : ℕ → Option ℕ
  pub intermediate_files : List (List Bytes)
  pub map_tasks_completed : ℕ
  pub reduce_tasks_completed : ℕ
  pub status : Phase

pub record TaskRequest : Type 0 where
  pub worker_id : ℕ

pub record TaskResponse : Type 0 where
  pub task_type : TaskType
  pub task_id : ℕ
  pub map_file : Bytes
  pub reduce_files : List Bytes
  pub n_reduce : ℕ

pub record TaskCompletion : Type 0 where
  pub worker_id : ℕ
  pub task_type : TaskType
  pub task_id : ℕ
  pub output_files : List Bytes

abbrev pub is_idle : Task → Bool
is_idle t = elim t.status [ idle ↦ true | _ ↦ false ]

abbrev pub is_in_progress : Task → Bool
is_in_progress t = elim t.status [ in_progress ↦ true | _ ↦ false ]

abbrev pub is_completed : Task → Bool
is_completed t = elim t.status [ completed ↦ true | _ ↦ false ]
