-- ===== src/MapReduce/Timers.antt =====
-- src/mr/coordinator.go: what a request changes, and the timers of the tasks that are handed out.
use mit_distributed_systems.Prelude.{
  Bool-cases, ℕ, zero, suc, ◌+◌, ◌<◌, ◌≤◌, ◌≡◌, ◌≢◌, refl, sym, ap, ◌∙◌, subst, Bytes, List, [],
  ◌∷◌, Option, none, some, length, get_elem?, set, update, arith, inl, inr, Option-cases,
  get_elem?-set_self, get_elem?-set_ne, get_elem?-lt, ◌==◌, if◌then◌else◌, ℕ_discrete, >>=-eq-some,
}
use mit_distributed_systems.MapReduce.Tasks.{
  Task, TaskStatus, idle, in_progress, completed, TaskType, map_task, reduce_task, exit_task,
  no_task, Phase, map_phase, reduce_phase, exist_phase, Coordinator, TaskRequest, TaskResponse,
  TaskCompletion,
}
use mit_distributed_systems.MapReduce.Coordinator.{
  first_idle, advance_phase, assign, assign_map, assign_reduce, request_task,
  notify_task_completion, complete_map, complete_task, complete_reduce, wait_map_task,
  wait_reduce_task, make_coordinator, hand_out, expire_at, reduce_tasks_from, map_tasks_from,
}
use mit_distributed_systems.MapReduce.Coordinator.{is_assigned}
use mit_distributed_systems.MapReduce.Lists.{first_idle-get, get_elem?-expire_at}
use mit_distributed_systems.MapReduce.Invariant.{
  Inv, request_task_total, notify_task_completion-Inv, wait_map_task-Inv, wait_reduce_task-Inv,
  make_coordinator-Inv,
}
use mit_distributed_systems.MapReduce.Job.{
  Job, start_timer, stop_timer, started, Step, asks, reports, map_expires, reduce_expires, new_job,
  Reach, start, later,
}

-- An idle task of `ts` has gone to a worker, and its timer starts.
pub record HandsOut (ts ts' : List Task) (timer : Option ℕ) : Type 0 where
  pub index : ℕ
  pub task : Task
  pub worker : ℕ
  pub was : get_elem? ts index ≡ some task
  pub was_idle : task.status ≡ idle
  pub now : ts' ≡ set ts index (hand_out task worker)
  pub starts : timer ≡ some index

-- What the answer to a request says and does.
pub data Answer (c c' : Coordinator) (type : TaskType) (timer : Option ℕ) : Type 0 where
  no_work :
      c'.map_tasks ≡ c.map_tasks
      → c'.reduce_tasks ≡ c.reduce_tasks
      → timer ≡ none
      → Answer c c' type timer
  gives_map :
      type ≡ map_task
      → HandsOut c.map_tasks c'.map_tasks timer
      → c'.reduce_tasks ≡ c.reduce_tasks
      → Answer c c' type timer
  gives_reduce :
      type ≡ reduce_task
      → HandsOut c.reduce_tasks c'.reduce_tasks timer
      → c'.map_tasks ≡ c.map_tasks
      → c.map_tasks_completed ≡ c.n_map
      → Answer c c' type timer

as_many :
    (ts : List Task) (n : ℕ)
    → length ts ≡ n
    → (if length ts == 0 then reduce_tasks_from n 0 else ts) ≡ ts
unfolding reduce_tasks_from
as_many [] zero h = refl
as_many [] (suc n) h = absurd (omega arith)
as_many (t ∷ ts) n h = ground arith

-- The phase change leaves the tasks: there are as many reduce tasks as it would make.
advance_phase-tasks :
    (c : Coordinator)
    → Inv c
    → ((advance_phase c).map_tasks ≡ c.map_tasks)
      × ((advance_phase c).reduce_tasks ≡ c.reduce_tasks)
      × ((advance_phase c).map_tasks_completed ≡ c.map_tasks_completed)
      × ((advance_phase c).n_map ≡ c.n_map)
      × ((advance_phase c).status ≢ map_phase → c.map_tasks_completed ≡ c.n_map)
unfolding advance_phase
advance_phase-tasks c v = (
  ground arith,
  ground (arith, as_many c.reduce_tasks c.n_reduce v.reduces),
  ground arith,
  ground arith,
  ground (arith, v.maps_done),
)

assign_map-Answer :
    (c : Coordinator) (worker : ℕ) (r : Coordinator × (TaskResponse × Option ℕ))
    → assign_map c worker ≡ r
    → Answer c r.0 r.1.0.task_type r.1.1
assign_map-Answer c worker r h = elim (Option-cases (first_idle c.map_tasks 0)) [
  | inl e ↦
      no_work (unfold assign_map in ground arith) (unfold assign_map in ground arith)
        (unfold assign_map in ground arith)
  | inr (x, e) ↦
      let (got, is) = first_idle-get c.map_tasks {i = x.0} {t = x.1} e in
      gives_map (unfold assign_map in ground arith)
        (record {
          index = x.0;
          task = x.1;
          worker = worker;
          was = got;
          was_idle = is;
          now = unfold assign_map in ground arith;
          starts = unfold assign_map in ground arith;
        })
        (unfold assign_map in ground arith)
]

assign_reduce-Answer :
    (c : Coordinator) (worker : ℕ) (r : Coordinator × (TaskResponse × Option ℕ))
    → c.map_tasks_completed ≡ c.n_map
    → assign_reduce c worker ≡ some r
    → Answer c r.0 r.1.0.task_type r.1.1
assign_reduce-Answer c worker r d h = elim (Option-cases (first_idle c.reduce_tasks 0)) [
  | inl e ↦
      no_work (unfold assign_reduce in ground arith) (unfold assign_reduce in ground arith)
        (unfold assign_reduce in ground arith)
  | inr (x, e) ↦
      let (got, is) = first_idle-get c.reduce_tasks {i = x.0} {t = x.1} e in
      gives_reduce (unfold assign_reduce in ground arith)
        (record {
          index = x.0;
          task = x.1;
          worker = worker;
          was = got;
          was_idle = is;
          now = unfold assign_reduce in ground arith;
          starts = unfold assign_reduce in ground arith;
        })
        (unfold assign_reduce in ground arith) d
]

assign-Answer :
    (c : Coordinator) (worker : ℕ) (r : Coordinator × (TaskResponse × Option ℕ))
    → (c.status ≢ map_phase → c.map_tasks_completed ≡ c.n_map)
    → assign c worker ≡ some r
    → Answer c r.0 r.1.0.task_type r.1.1
assign-Answer c worker r d h = by_phase c.status refl
  where
    by_phase : (s : Phase) → c.status ≡ s → Answer c r.0 r.1.0.task_type r.1.1
    by_phase map_phase e = assign_map-Answer c worker r (unfold assign in ground arith)
    by_phase reduce_phase e =
        assign_reduce-Answer c worker r (d (λ p. cc)) (unfold assign in ground arith)
    by_phase exist_phase e =
        no_work (unfold assign in ground arith) (unfold assign in ground arith)
          (unfold assign in ground arith)

Answer-before :
    (c d c' : Coordinator) (type : TaskType) (timer : Option ℕ)
    → d.map_tasks ≡ c.map_tasks
    → d.reduce_tasks ≡ c.reduce_tasks
    → d.map_tasks_completed ≡ c.map_tasks_completed
    → d.n_map ≡ c.n_map
    → Answer d c' type timer
    → Answer c c' type timer
Answer-before c d c' type timer m r k n (no_work p q t) = no_work (p ∙ m) (q ∙ r) t
Answer-before c d c' type timer m r k n (gives_map t o q) =
    gives_map t (subst (λ (l : List Task). HandsOut l c'.map_tasks timer) m o) (q ∙ r)
Answer-before c d c' type timer m r k n (gives_reduce t o p all) =
    gives_reduce t (subst (λ (l : List Task). HandsOut l c'.reduce_tasks timer) r o) (p ∙ m)
      (sym k ∙ all ∙ n)

pub request_task-Answer :
    (now : ℕ) (c : Coordinator) (args : TaskRequest) {c' : Coordinator} {reply : TaskResponse}
    {timer : Option ℕ}
    → Inv c
    → request_task now c args ≡ some (c', (reply, timer))
    → Answer c c' reply.task_type timer
unfolding request_task
request_task-Answer now c args {c'} {reply} {timer} v h =
    let heard : Coordinator = record c { workers = update c.workers args.worker_id (some now) } in
    let v' : Inv heard = record {
      maps = v.maps;
      reduces = v.reduces;
      lists = v.lists;
      maps_counted = v.maps_counted;
      reduces_counted = v.reduces_counted;
      maps_numbered = v.maps_numbered;
      reduces_numbered = v.reduces_numbered;
      maps_done = v.maps_done;
      reduces_done = v.reduces_done;
    } in
    let (m, r, k, n, d) = advance_phase-tasks heard v' in
    Answer-before c (advance_phase heard) c' reply.task_type timer m r k n (
      assign-Answer (advance_phase heard) args.worker_id (c', (reply, timer)) (λ p. k ∙ d p ∙ sym n)
        h)

-- The goroutines that wait for a task in each state.
abbrev pub Fits : TaskStatus → ℕ → Type 0
Fits idle n = n ≡ 0
Fits in_progress n = n ≡ 1
Fits completed n = n ≤ 1

abbrev pub Timed : List Task → (ℕ → ℕ) → Type 0
Timed ts timers = (i : ℕ) (t : Task) → get_elem? ts i ≡ some t → Fits t.status (timers i)

HandsOut-Timed :
    (ts ts' : List Task) (timer : Option ℕ) (timers : ℕ → ℕ) (o : HandsOut ts ts' timer)
    → Timed ts timers
    → Timed ts' (start_timer timers o.index)
HandsOut-Timed ts ts' timer timers o v j t' h = elim (ℕ_discrete j o.index) [
  | yes same ↦
      let lt = get_elem?-lt ts o.index o.was in
      let at : get_elem? ts' j ≡ some (hand_out o.task o.worker) =
        ap (get_elem? ts') same
        ∙ ap (λ (l : List Task). get_elem? l o.index) o.now
        ∙ get_elem?-set_self ts o.index (hand_out o.task o.worker) lt in
      let e : t' ≡ hand_out o.task o.worker = cc at in
      ground (arith, e, same, v o.index o.task o.was, o.was_idle)
  | no other ↦
      let at : get_elem? ts j ≡ some t' =
        sym (get_elem?-set_ne ts o.index j (hand_out o.task o.worker) (λ p. other (sym p)))
        ∙ ap (λ (l : List Task). get_elem? l j) (sym o.now)
        ∙ h in
      ground (arith, v j t' at, other)
]

expire_at-Timed :
    (ts : List Task) (i : ℕ) (timers : ℕ → ℕ)
    → 0 < timers i
    → Timed ts timers
    → Timed (expire_at ts i) (stop_timer timers i)
expire_at-Timed ts i timers p v j t' h =
    let (t, got, how) = get_elem?-expire_at ts i j t' h in ground (arith, v j t got, how)

complete-Timed :
    (ts : List Task) (i : ℕ) (t : Task) (timers : ℕ → ℕ)
    → get_elem? ts i ≡ some t
    → t.status ≡ in_progress
    → Timed ts timers
    → Timed (set ts i (record t { status = completed })) timers
complete-Timed ts i t timers got is v j t' h = elim (ℕ_discrete i j) [
  | yes same ↦
      let at : get_elem? (set ts i (record t { status = completed })) j
          ≡ some (record t { status = completed }) =
        ap (get_elem? (set ts i (record t { status = completed }))) (sym same)
        ∙ get_elem?-set_self ts i (record t { status = completed }) (get_elem?-lt ts i got) in
      let e : t' ≡ record t { status = completed } = cc at in ground (arith, e, same, v i t got)
  | no other ↦ v j t' (sym (get_elem?-set_ne ts i j (record t { status = completed }) other) ∙ h)
]

-- An idle task has no goroutine that waits for it, one in progress has exactly one, and a completed one
-- at most one.
pub record AllTimed (j : Job) : Type 0 where
  pub valid : Inv j.coordinator
  pub map_timed : Timed j.coordinator.map_tasks j.map_timers
  pub reduce_timed : Timed j.coordinator.reduce_tasks j.reduce_timers

started-none :
    (j : Job) (c : Coordinator) (type : TaskType)
    → started j c type none ≡ record j { coordinator = c }
started-none j c type = ground arith

answered-AllTimed :
    (j : Job) (c : Coordinator) (type : TaskType) (timer : Option ℕ)
    → Inv c
    → Answer j.coordinator c type timer
    → AllTimed j
    → AllTimed (started j c type timer)
answered-AllTimed j c type timer w (no_work m r none_starts) v =
    rw (none_starts, started-none j c type)
      (record { valid = w; map_timed = rw m v.map_timed; reduce_timed = rw r v.reduce_timed })
answered-AllTimed j c type timer w (gives_map is o r) v =
    rw (is, o.starts)
      (record {
        valid = w;
        map_timed =
            HandsOut-Timed j.coordinator.map_tasks c.map_tasks timer j.map_timers o v.map_timed;
        reduce_timed = rw r v.reduce_timed;
      })
answered-AllTimed j c type timer w (gives_reduce is o m all) v =
    rw (is, o.starts)
      (record {
        valid = w;
        map_timed = rw m v.map_timed;
        reduce_timed =
            HandsOut-Timed j.coordinator.reduce_tasks c.reduce_tasks timer j.reduce_timers o
              v.reduce_timed;
      })

-- What a report changes in the task lists: nothing, or one task in progress becomes completed.
pub data Reported (ts ts' : List Task) : Type 0 where
  ignored : ts' ≡ ts → Reported ts ts'
  accepted :
      (i : ℕ) (t : Task)
      → get_elem? ts i ≡ some t
      → t.status ≡ in_progress
      → ts' ≡ set ts i (record t { status = completed })
      → Reported ts ts'

Reported-Timed :
    {ts ts' : List Task} (timers : ℕ → ℕ) → Reported ts ts' → Timed ts timers → Timed ts' timers
Reported-Timed timers (ignored e) v = rw e v
Reported-Timed {ts} timers (accepted i t got is e) v = rw e (complete-Timed ts i t timers got is v)

complete_task-Reported :
    (c : Coordinator) (args : TaskCompletion) (t : Task) {c' : Coordinator}
    → get_elem? c.map_tasks args.task_id ≡ some t
    → complete_task c args t ≡ some c'
    → Reported c.map_tasks c'.map_tasks × Reported c.reduce_tasks c'.reduce_tasks
unfolding complete_task
complete_task-Reported c args t got h = elim (Bool-cases (is_assigned t args.worker_id)) [
  | inl mine ↦ (accepted args.task_id t got (ground arith) (ground arith), ignored (ground arith))
  | inr other ↦ (ignored (ground arith), ignored (ground arith))
]

complete_reduce-Reported :
    (c : Coordinator) (args : TaskCompletion) {c' : Coordinator}
    → complete_reduce c args ≡ some c'
    → Reported c.map_tasks c'.map_tasks × Reported c.reduce_tasks c'.reduce_tasks
unfolding complete_reduce
complete_reduce-Reported c args h = elim (Option-cases (get_elem? c.reduce_tasks args.task_id)) [
  | inl e ↦ absurd (ground arith)
  | inr (t, got) ↦ elim (Bool-cases (is_assigned t args.worker_id)) [
    | inl mine ↦ (ignored (ground arith), accepted args.task_id t got (ground arith) (ground arith))
    | inr other ↦ (ignored (ground arith), ignored (ground arith))
  ]
]

notify-Reported :
    (c : Coordinator) (args : TaskCompletion) {c' : Coordinator}
    → notify_task_completion c args ≡ some c'
    → Reported c.map_tasks c'.map_tasks × Reported c.reduce_tasks c'.reduce_tasks
notify-Reported c args {c'} h = by_type args.task_type refl
  where
    by_type :
        (type : TaskType)
        → args.task_type ≡ type
        → Reported c.map_tasks c'.map_tasks × Reported c.reduce_tasks c'.reduce_tasks
    by_type map_task e =
        let (t, got, run) =
          >>=-eq-some (get_elem? c.map_tasks args.task_id) (complete_task c args) {b = c'}
            (unfold notify_task_completion complete_map in ground arith) in
        complete_task-Reported c args t got run
    by_type reduce_task e =
        complete_reduce-Reported c args {c' = c'} (unfold notify_task_completion in ground arith)
    by_type exit_task e =
        unfold notify_task_completion in (ignored (ground arith), ignored (ground arith))
    by_type no_task e =
        unfold notify_task_completion in (ignored (ground arith), ignored (ground arith))

pub Step-AllTimed : {j j' : Job} → Step j j' → AllTimed j → AllTimed j'
Step-AllTimed (asks {j} {c} {reply} {timer} now args h) v =
    let (r, e, ok) = request_task_total now j.coordinator args v.valid in
    let same : r.0 ≡ c = ground (arith, e) in
    answered-AllTimed j c reply.task_type timer (subst Inv same ok)
      (request_task-Answer now j.coordinator args v.valid h) v
Step-AllTimed (reports {j} {c} args h) v =
    let (m, r) = notify-Reported j.coordinator args h in
    record {
      valid = notify_task_completion-Inv j.coordinator args v.valid h;
      map_timed = Reported-Timed j.map_timers m v.map_timed;
      reduce_timed = Reported-Timed j.reduce_timers r v.reduce_timed;
    }
Step-AllTimed (map_expires j i h) v = record {
  valid = wait_map_task-Inv j.coordinator i v.valid;
  map_timed =
      unfold wait_map_task in expire_at-Timed j.coordinator.map_tasks i j.map_timers h v.map_timed;
  reduce_timed = unfold wait_map_task in v.reduce_timed;
}
Step-AllTimed (reduce_expires j i h) v = record {
  valid = wait_reduce_task-Inv j.coordinator i v.valid;
  map_timed = unfold wait_reduce_task in v.map_timed;
  reduce_timed =
      unfold wait_reduce_task in
      expire_at-Timed j.coordinator.reduce_tasks i j.reduce_timers h v.reduce_timed;
}

all_idle-Timed :
    (files : List Bytes) (k i : ℕ) (t : Task)
    → get_elem? (map_tasks_from files k) i ≡ some t
    → t.status ≡ idle
unfolding map_tasks_from
all_idle-Timed [] k i t h = cc
all_idle-Timed (f ∷ files) k zero t h = ground arith
all_idle-Timed (f ∷ files) k (suc i) t h = all_idle-Timed files (k + 1) i t h

reduce_idle-Timed :
    (n k i : ℕ) (t : Task) → get_elem? (reduce_tasks_from n k) i ≡ some t → t.status ≡ idle
unfolding reduce_tasks_from
reduce_idle-Timed zero k i t h = cc
reduce_idle-Timed (suc n) k zero t h = ground arith
reduce_idle-Timed (suc n) k (suc i) t h = reduce_idle-Timed n (k + 1) i t h

new_job-AllTimed : (files : List Bytes) (n : ℕ) → AllTimed (new_job files n)
new_job-AllTimed files n = record {
  valid = make_coordinator-Inv files n;
  map_timed = unfold make_coordinator in λ i t h. rw (all_idle-Timed files 0 i t h);
  reduce_timed = unfold make_coordinator in λ i t h. rw (reduce_idle-Timed n 0 i t h);
}

-- In every state of a job, whatever the workers ask and report and whenever the timers fire, the
-- coordinator's counts are those of its lists, and of the goroutines that wait to set a task back, an
-- idle task has none, a task in progress exactly one, and a completed one at most one.
pub Reach-AllTimed : {files : List Bytes} {n : ℕ} {j : Job} → Reach files n j → AllTimed j
Reach-AllTimed {files} {n} start = new_job-AllTimed files n
Reach-AllTimed (later r st) = Step-AllTimed st (Reach-AllTimed r)
