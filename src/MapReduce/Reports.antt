-- ===== src/MapReduce/Reports.antt =====
-- src/mr/worker.go: what a worker reports, and how the coordinator reads the names of its files.
-- `itoa` stands for the %d of fmt.Sprintf.
use mit_distributed_systems.Prelude.{
  ℕ, zero, suc, ◌+◌, ◌<◌, ◌≤◌, ◌≡◌, ◌≢◌, refl, ap, ◌∙◌, Bytes, List, [], ◌∷◌, ◌++◌, some, length,
  get_elem?, set, arith, leb, ltb, ◌&&◌, if◌then◌else◌, get_elem?-eq_some_of_lt, set?-eq_some_of_lt,
  length-set, get_elem?-set_self, get_elem?-set_ne, ℕ_discrete, true,
}
use mit_distributed_systems.MapReduce.Tasks.{
  Task, TaskType, map_task, Coordinator, TaskCompletion, completed,
}
use mit_distributed_systems.MapReduce.Coordinator.{
  split_dash, atoi, third_part, extract_reduce_task_num, add_files, is_assigned, complete_task,
  complete_map, notify_task_completion,
}

-- `%v/mr-%d-%d` with TempDir, the map task and the reduce task.
abbrev pub output_name : (ℕ → Bytes) → ℕ → ℕ → Bytes
output_name itoa task i =
    (b't' ∷ b'e' ∷ b'm' ∷ b'p' ∷ b'/' ∷ b'm' ∷ b'r' ∷ []) ++ b'-' ∷ itoa task ++ b'-' ∷ itoa i

-- The loop of `reportTaskDone`: `left` files to go from `i`.
unfoldable pub output_names : (ℕ → Bytes) → ℕ → ℕ → ℕ → List Bytes
output_names itoa task zero i = []
output_names itoa task (suc left) i = output_name itoa task i ∷ output_names itoa task left (i + 1)

-- What `reportTaskDone` sends; `pid` is the worker's process.
unfoldable pub report_task_done : (ℕ → Bytes) → ℕ → TaskType → ℕ → ℕ → TaskCompletion
unfolding output_names
report_task_done itoa pid type n_reduce task_id = record {
  worker_id = pid;
  task_type = type;
  task_id = task_id;
  output_files = elim type [ map_task ↦ output_names itoa task_id n_reduce 0 | _ ↦ [] ];
}

abbrev pub NoDash : Bytes → Type 0
NoDash [] = Unit {0}
NoDash (b ∷ s) = (b ≢ b'-') × NoDash s

split_dash-append :
    (s t : Bytes) → NoDash s → split_dash (s ++ b'-' ∷ t) ≡ (s, (split_dash t).0 ∷ (split_dash t).1)
unfolding split_dash
split_dash-append [] t h = ground arith
split_dash-append (b ∷ s) t (ne, h) = ground (arith, ne, split_dash-append s t h)

split_dash-plain : (s : Bytes) → NoDash s → split_dash s ≡ (s, [])
unfolding split_dash
split_dash-plain [] h = refl
split_dash-plain (b ∷ s) (ne, h) = ground (arith, ne, split_dash-plain s h)

-- The lists get one name each, `left` of them from `i` on; the others stay.
abbrev pub Filed : (ℕ → Bytes) → ℕ → ℕ → List (List Bytes) → List (List Bytes) → Type 0
Filed name left i lists lists' =
    (j : ℕ) (old : List Bytes)
    → get_elem? lists j ≡ some old
    → get_elem? lists' j ≡ some (if leb i j && ltb j (i + left) then old ++ name j ∷ [] else old)

Filed-set :
    (name : ℕ → Bytes) (left i : ℕ) (lists lists' : List (List Bytes)) (here : List Bytes)
    → get_elem? lists i ≡ some here
    → i < length lists
    → Filed name left (i + 1) (set lists i (here ++ name i ∷ [])) lists'
    → Filed name (suc left) i lists lists'
Filed-set name left i lists lists' here got lt filed j old k = elim (ℕ_discrete i j) [
  | yes same ↦
      let at : get_elem? lists' i
          ≡ some (
              if leb (i + 1) i && ltb i (i + 1 + left)
              then (here ++ name i ∷ []) ++ name i ∷ []
              else here ++ name i ∷ []) =
        filed i (here ++ name i ∷ []) (get_elem?-set_self lists i (here ++ name i ∷ []) lt) in
      ground (arith, at, same, got, k)
  | no other ↦
      let at : get_elem? lists' j
          ≡ some (if leb (i + 1) j && ltb j (i + 1 + left) then old ++ name j ∷ [] else old) =
        filed j old (get_elem?-set_ne lists i j (here ++ name i ∷ []) other ∙ k) in
      ground (arith, at, other)
]

-- A number below `bound`, the range of an `int`, is printed without a dash and read back.
module _ (itoa : ℕ → Bytes) (bound : ℕ) (plain : (n : ℕ) → n < bound → NoDash (itoa n))
    (read_back : (n : ℕ) → n < bound → atoi (itoa n) ≡ some n) where
  extract_reduce_task_num-output_name :
      (task i : ℕ)
      → task < bound
      → i < bound
      → extract_reduce_task_num (output_name itoa task i) ≡ some i
  unfolding extract_reduce_task_num
  extract_reduce_task_num-output_name task i h k =
      let tail : split_dash (itoa task ++ b'-' ∷ itoa i) ≡ (itoa task, itoa i ∷ []) =
        split_dash-append (itoa task) (itoa i) (plain task h)
        ∙ ap (λ x. (itoa task, x.0 ∷ x.1)) (split_dash-plain (itoa i) (plain i k)) in
      let all : split_dash (output_name itoa task i)
          ≡ (b't' ∷ b'e' ∷ b'm' ∷ b'p' ∷ b'/' ∷ b'm' ∷ b'r' ∷ [], itoa task ∷ itoa i ∷ []) =
        split_dash-append (b't' ∷ b'e' ∷ b'm' ∷ b'p' ∷ b'/' ∷ b'm' ∷ b'r' ∷ [])
          (itoa task ++ b'-' ∷ itoa i)
          (
            omega arith,
            (
              omega arith,
              (omega arith, (omega arith, (omega arith, (omega arith, (omega arith, tt))))),
            ),
          )
        ∙ ap (λ x. (b't' ∷ b'e' ∷ b'm' ∷ b'p' ∷ b'/' ∷ b'm' ∷ b'r' ∷ [], x.0 ∷ x.1)) tail in
      ap third_part all ∙ read_back i k

  add_files-Filed :
      (task left i : ℕ) (lists : List (List Bytes))
      → task < bound
      → i + left ≤ bound
      → i + left ≤ length lists
      → (lists' : List (List Bytes)) × (add_files lists (output_names itoa task left i)
          ≡ some lists')
        × Filed (output_name itoa task) left i lists lists'
  unfolding output_names add_files
  add_files-Filed task zero i lists t k h = (lists, refl, λ j old e. ground (arith, e))
  add_files-Filed task (suc left) i lists t k h =
      let (here, got) = get_elem?-eq_some_of_lt lists i (omega arith) in
      let grown = here ++ output_name itoa task i ∷ [] in
      let (lists', e, filed) =
        add_files-Filed task left (i + 1) (set lists i grown) t (omega arith)
          (omega (arith, length-set lists i grown)) in
      (
        lists',
        rw
            (
              extract_reduce_task_num-output_name task i t (omega arith),
              got,
              set?-eq_some_of_lt lists i grown (omega arith),
            )
            e,
        Filed-set (output_name itoa task) left i lists lists' here got (omega arith) filed,
      )

  -- With the task's number in range, no more reduce tasks than `bound`, and a list for each of them, the
  -- report of a worker that has the map task `task` is not fatal: it completes the task, and each reduce
  -- task's list gets the name of this map task's file for it, at the end.
  pub notify_task_completion-Filed :
      (c : Coordinator) (pid task : ℕ) (t : Task)
      → task < bound
      → c.n_reduce ≤ bound
      → get_elem? c.map_tasks task ≡ some t
      → is_assigned t pid ≡ true
      → length c.intermediate_files ≡ c.n_reduce
      → (files : List (List Bytes)) × (notify_task_completion c
            (report_task_done itoa pid map_task c.n_reduce task)
          ≡ some (record c {
            map_tasks = set c.map_tasks task (record t { status = completed });
            map_tasks_completed = c.map_tasks_completed + 1;
            intermediate_files = files;
          }))
        × Filed (output_name itoa task) c.n_reduce 0 c.intermediate_files files
  unfolding notify_task_completion complete_map complete_task report_task_done
  notify_task_completion-Filed c pid task t small few got mine len =
      let (files, e, filed) =
        add_files-Filed task c.n_reduce 0 c.intermediate_files small (omega arith) (omega arith) in
      (files, rw (got, mine, e) refl, filed)
