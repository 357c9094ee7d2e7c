-- ===== src/MapReduce/Invariant.antt =====
-- src/mr/coordinator.go: what holds of the coordinator between two critical sections.
use mit_distributed_systems.Prelude.{
  subst, length-set?, ◌∙◌, ◌++◌, set?, get_elem?, >>=-eq-some, get_elem?-eq_some_of_lt, ℕ, zero,
  suc, ◌+◌, ◌≡◌, ◌≢◌, refl, Bytes, List, [], ◌∷◌, Option, some, length, set, arith, length-set,
  length-replicate, get_elem?-lt, Option-cases, inl, inr,
}
use mit_distributed_systems.MapReduce.Tasks.{
  TaskType, map_task, reduce_task, exit_task, no_task, completed, TaskCompletion, Task, Phase,
  map_phase, reduce_phase, exist_phase, Coordinator, TaskRequest, TaskResponse,
}
use mit_distributed_systems.MapReduce.Coordinator.{
  complete_map, extract_reduce_task_num, notify_task_completion, complete_reduce, wait_reduce_task,
  wait_map_task, complete_task, add_files, first_idle, advance_phase, assign_map, assign_reduce,
  assign, request_task, make_coordinator, map_tasks_from, reduce_tasks_from, hand_out,
}
use mit_distributed_systems.MapReduce.Lists.{
  Numbered-expire_at, count_completed-expire_at, length-expire_at, first_idle-get,
  count_completed-le, count_completed, count_completed-set, Numbered, Numbered-set,
  Numbered-task_id,
}

pub record Inv (c : Coordinator) : Type 0 where
  pub maps : length c.map_tasks ≡ c.n_map
  pub reduces : length c.reduce_tasks ≡ c.n_reduce
  pub lists : length c.intermediate_files ≡ c.n_reduce
  pub maps_counted : count_completed c.map_tasks ≡ c.map_tasks_completed
  pub reduces_counted : count_completed c.reduce_tasks ≡ c.reduce_tasks_completed
  pub maps_numbered : Numbered c.map_tasks 0
  pub reduces_numbered : Numbered c.reduce_tasks 0
  pub maps_done : c.status ≢ map_phase → c.map_tasks_completed ≡ c.n_map
  pub reduces_done : c.status ≡ exist_phase → c.reduce_tasks_completed ≡ c.n_reduce

reduce_tasks_from-lem :
    (n k : ℕ)
    → (length (reduce_tasks_from n k) ≡ n)
      × (count_completed (reduce_tasks_from n k) ≡ 0)
      × Numbered (reduce_tasks_from n k) k
unfolding reduce_tasks_from
reduce_tasks_from-lem zero k = (refl, refl, tt)
reduce_tasks_from-lem (suc n) k = ground (arith, reduce_tasks_from-lem n (k + 1))

map_tasks_from-lem :
    (files : List Bytes) (k : ℕ)
    → (length (map_tasks_from files k) ≡ length files)
      × (count_completed (map_tasks_from files k) ≡ 0)
      × Numbered (map_tasks_from files k) k
unfolding map_tasks_from
map_tasks_from-lem [] k = (refl, refl, tt)
map_tasks_from-lem (f ∷ files) k = ground (arith, map_tasks_from-lem files (k + 1))

pub make_coordinator-Inv : (files : List Bytes) (n : ℕ) → Inv (make_coordinator files n)
unfolding make_coordinator
make_coordinator-Inv files n = ground (
  arith,
  map_tasks_from-lem files 0,
  reduce_tasks_from-lem n 0,
  length-replicate {A = List Bytes} n [],
)

pub advance_phase-Inv : (c : Coordinator) → Inv c → Inv (advance_phase c)
unfolding advance_phase
advance_phase-Inv c v = ground (
  arith,
  v.maps_done,
  v.reduces_done,
  reduce_tasks_from-lem c.n_reduce 0,
  count_completed-le c.reduce_tasks,
)

-- Handing out an idle task keeps the list's length, its count and its numbers.
abbrev Keeps : List Task → List Task → Type 0
Keeps ts ts' =
    (length ts' ≡ length ts)
    × (count_completed ts' ≡ count_completed ts)
    × (Numbered ts 0 → Numbered ts' 0)

hand_out-Keeps :
    (ts : List Task) (worker : ℕ) {i : ℕ} {t : Task}
    → first_idle ts 0 ≡ some (i, t)
    → Keeps ts (set ts i (hand_out t worker))
hand_out-Keeps ts worker {i} {t} h =
    let (got, is) = first_idle-get ts h in
    (
      length-set ts i (hand_out t worker),
      ground (arith, count_completed-set ts i t (hand_out t worker) got),
      Numbered-set ts 0 i t (hand_out t worker) got refl,
    )

assign_map-Inv : (c : Coordinator) (worker : ℕ) → Inv c → Inv (assign_map c worker).0
unfolding assign_map
assign_map-Inv c worker v = elim (Option-cases (first_idle c.map_tasks 0)) [
  | inl e ↦ rw (e, assign_map) v
  | inr (r, e) ↦
      let (size, count, ids) = hand_out-Keeps c.map_tasks worker {i = r.0} {t = r.1} e in
      ground (arith, v.maps_done, v.reduces_done, size, count, ids v.maps_numbered)
]

-- The files of an idle reduce task are there.
assign_reduce_total :
    (c : Coordinator) (worker : ℕ)
    → Inv c
    → (r : Coordinator × (TaskResponse × Option ℕ)) × (assign_reduce c worker ≡ some r) × Inv r.0
unfolding assign_reduce
assign_reduce_total c worker v = elim (Option-cases (first_idle c.reduce_tasks 0)) [
  | inl e ↦ rw (e, assign_reduce) (_, refl, v)
  | inr (r, e) ↦
      let (size, count, ids) = hand_out-Keeps c.reduce_tasks worker {i = r.0} {t = r.1} e in
      let (got, is) = first_idle-get c.reduce_tasks {i = r.0} {t = r.1} e in
      let id = Numbered-task_id c.reduce_tasks 0 r.0 r.1 v.reduces_numbered got in
      let lt = get_elem?-lt c.reduce_tasks r.0 got in
      let (files, there) =
        get_elem?-eq_some_of_lt c.intermediate_files r.1.task_id
          (omega (arith, v.lists, v.reduces)) in
      rw (e, assign_reduce, there)
        (_, refl, ground (arith, v.maps_done, v.reduces_done, size, count, ids v.reduces_numbered))
]

assign_total :
    (c : Coordinator) (worker : ℕ)
    → Inv c
    → (r : Coordinator × (TaskResponse × Option ℕ)) × (assign c worker ≡ some r) × Inv r.0
assign_total c worker v = by_phase c.status refl
  where
    by_phase :
        (s : Phase)
        → c.status ≡ s
        → (r : Coordinator × (TaskResponse × Option ℕ)) × (assign c worker ≡ some r) × Inv r.0
    by_phase map_phase e = unfold assign in rw (e, assign) (_, refl, assign_map-Inv c worker v)
    by_phase reduce_phase e = unfold assign in rw (e, assign) (assign_reduce_total c worker v)
    by_phase exist_phase e = unfold assign in rw (e, assign) (_, refl, v)

pub request_task_total :
    (now : ℕ) (c : Coordinator) (args : TaskRequest)
    → Inv c
    → (r : Coordinator × (TaskResponse × Option ℕ)) × (request_task now c args ≡ some r) × Inv r.0
unfolding request_task
request_task_total now c args v = assign_total _ args.worker_id (
    advance_phase-Inv _ (record {
      maps = v.maps;
      reduces = v.reduces;
      lists = v.lists;
      maps_counted = v.maps_counted;
      reduces_counted = v.reduces_counted;
      maps_numbered = v.maps_numbered;
      reduces_numbered = v.reduces_numbered;
      maps_done = v.maps_done;
      reduces_done = v.reduces_done;
    }))

add_files-length :
    (lists : List (List Bytes)) (files : List Bytes) {lists' : List (List Bytes)}
    → add_files lists files ≡ some lists'
    → length lists' ≡ length lists
unfolding add_files
add_files-length lists [] h = ground arith
add_files-length lists (f ∷ files) h =
    let (n, _, h') = >>=-eq-some (extract_reduce_task_num f) _ h in
    let (old, _, h'') = >>=-eq-some (get_elem? lists n) _ h' in
    let (lists'', wrote, more) = >>=-eq-some (set? lists n (old ++ f ∷ [])) _ h'' in
    add_files-length lists'' files more ∙ length-set? lists n (old ++ f ∷ []) wrote

complete_task-Inv :
    (c : Coordinator) (args : TaskCompletion) (t : Task) {c' : Coordinator}
    → Inv c
    → get_elem? c.map_tasks args.task_id ≡ some t
    → complete_task c args t ≡ some c'
    → Inv c'
unfolding complete_task
complete_task-Inv c args t {c'} v got h =
    let ts = set c.map_tasks args.task_id (record t { status = completed }) in
    ground (
      arith,
      v.maps_done,
      v.reduces_done,
      add_files-length c.intermediate_files args.output_files {lists' = c'.intermediate_files},
      length-set c.map_tasks args.task_id (record t { status = completed }),
      count_completed-set c.map_tasks args.task_id t (record t { status = completed }) got,
      count_completed-le ts,
      Numbered-set c.map_tasks 0 args.task_id t (record t { status = completed }) got refl
          v.maps_numbered,
    )

complete_reduce-Inv :
    (c : Coordinator) (args : TaskCompletion) {c' : Coordinator}
    → Inv c
    → complete_reduce c args ≡ some c'
    → Inv c'
unfolding complete_reduce
complete_reduce-Inv c args {c'} v h = elim (Option-cases (get_elem? c.reduce_tasks args.task_id)) [
  | inl e ↦ absurd (ground arith)
  | inr (t, got) ↦
      let ts = set c.reduce_tasks args.task_id (record t { status = completed }) in
      ground (
        arith,
        v.maps_done,
        v.reduces_done,
        length-set c.reduce_tasks args.task_id (record t { status = completed }),
        count_completed-set c.reduce_tasks args.task_id t (record t { status = completed }) got,
        count_completed-le ts,
        Numbered-set c.reduce_tasks 0 args.task_id t (record t { status = completed }) got refl
            v.reduces_numbered,
      )
]

complete_map-Inv :
    (c : Coordinator) (args : TaskCompletion) {c' : Coordinator}
    → Inv c
    → complete_map c args ≡ some c'
    → Inv c'
unfolding complete_map
complete_map-Inv c args v h =
    let (t, got, e) = >>=-eq-some (get_elem? c.map_tasks args.task_id) _ h in
    complete_task-Inv c args t v got e

pub notify_task_completion-Inv :
    (c : Coordinator) (args : TaskCompletion) {c' : Coordinator}
    → Inv c
    → notify_task_completion c args ≡ some c'
    → Inv c'
notify_task_completion-Inv c args {c'} v h = by_type args.task_type refl
  where
    by_type : (type : TaskType) → args.task_type ≡ type → Inv c'
    by_type map_task e = complete_map-Inv c args v (unfold notify_task_completion in ground arith)
    by_type reduce_task e =
        complete_reduce-Inv c args v (unfold notify_task_completion in ground arith)
    by_type exit_task e =
        let same : c ≡ c' = unfold notify_task_completion in ground arith in subst Inv same v
    by_type no_task e =
        let same : c ≡ c' = unfold notify_task_completion in ground arith in subst Inv same v

pub wait_map_task-Inv : (c : Coordinator) (i : ℕ) → Inv c → Inv (wait_map_task c i)
unfolding wait_map_task
wait_map_task-Inv c i v = ground (
  arith,
  v.maps_done,
  v.reduces_done,
  length-expire_at c.map_tasks i,
  count_completed-expire_at c.map_tasks i,
  Numbered-expire_at c.map_tasks 0 i v.maps_numbered,
)

pub wait_reduce_task-Inv : (c : Coordinator) (i : ℕ) → Inv c → Inv (wait_reduce_task c i)
unfolding wait_reduce_task
wait_reduce_task-Inv c i v = ground (
  arith,
  v.maps_done,
  v.reduces_done,
  length-expire_at c.reduce_tasks i,
  count_completed-expire_at c.reduce_tasks i,
  Numbered-expire_at c.reduce_tasks 0 i v.reduces_numbered,
)
