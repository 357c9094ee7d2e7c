-- ===== src/MapReduce/Lists.antt =====
-- Counting and looking up in the coordinator's task lists.
use mit_distributed_systems.Prelude.{
  ◌∙◌, Bool-cases, ℕ, zero, suc, ◌+◌, ◌≤◌, ◌≡◌, ◌≢◌, refl, List, [], ◌∷◌, some, Bool, true, false,
  length, get_elem?, set, arith, ◌⊎◌, inl, inr, ap,
}
use mit_distributed_systems.MapReduce.Tasks.{Task, idle, completed, is_idle, is_completed}
use mit_distributed_systems.MapReduce.Coordinator.{first_idle, expire, expire_at}

abbrev pub one_if : Bool → ℕ
one_if true = 1
one_if false = 0

-- How many tasks are completed.
abbrev pub count_completed : List Task → ℕ
count_completed [] = 0
count_completed (t ∷ ts) = one_if (is_completed t) + count_completed ts

pub first_idle-lem :
    (ts : List Task) (k : ℕ) {i : ℕ} {t : Task}
    → first_idle ts k ≡ some (i, t)
    → (j : ℕ) × (i ≡ k + j) × (get_elem? ts j ≡ some t) × (t.status ≡ idle)
unfolding first_idle
first_idle-lem [] k h = cc
first_idle-lem (x ∷ ts) k {i} {t} h = elim (Bool-cases (is_idle x)) [
  | inl e ↦ (0, ground arith, ground arith, ground arith)
  | inr e ↦
      let (j, at, got, is) = first_idle-lem ts (k + 1) {i = i} {t = t} (ground arith) in
      (suc j, omega (arith, at), got, is)
]

pub first_idle-get :
    (ts : List Task) {i : ℕ} {t : Task}
    → first_idle ts 0 ≡ some (i, t)
    → (get_elem? ts i ≡ some t) × (t.status ≡ idle)
first_idle-get ts {i} {t} h =
    let (j, at, got, is) = first_idle-lem ts 0 {i = i} {t = t} h in
    let same : i ≡ j = omega arith in (ap (get_elem? ts) same ∙ got, is)

pub count_completed-set :
    (ts : List Task) (i : ℕ) (t t' : Task)
    → get_elem? ts i ≡ some t
    → count_completed (set ts i t') + one_if (is_completed t)
      ≡ count_completed ts + one_if (is_completed t')
count_completed-set [] i t t' h = cc
count_completed-set (x ∷ ts) zero t t' h = ground arith
count_completed-set (x ∷ ts) (suc i) t t' h = omega (arith, count_completed-set ts i t t' h)

pub count_completed-expire_at :
    (ts : List Task) (i : ℕ) → count_completed (expire_at ts i) ≡ count_completed ts
unfolding expire_at
count_completed-expire_at [] i = refl
count_completed-expire_at (x ∷ ts) zero = ground arith
count_completed-expire_at (x ∷ ts) (suc i) = omega (arith, count_completed-expire_at ts i)

pub length-expire_at : (ts : List Task) (i : ℕ) → length (expire_at ts i) ≡ length ts
unfolding expire_at
length-expire_at [] i = refl
length-expire_at (x ∷ ts) zero = refl
length-expire_at (x ∷ ts) (suc i) = ap suc (length-expire_at ts i)

pub count_completed-le : (ts : List Task) → count_completed ts ≤ length ts
count_completed-le [] = omega arith
count_completed-le (t ∷ ts) = ground (arith, count_completed-le ts)

-- All tasks are completed where as many are as there are.
pub all_completed :
    (ts : List Task) (i : ℕ) (t : Task)
    → count_completed ts ≡ length ts
    → get_elem? ts i ≡ some t
    → t.status ≡ completed
all_completed [] i t c h = cc
all_completed (x ∷ ts) zero t c h = ground (arith, count_completed-le ts)
all_completed (x ∷ ts) (suc i) t c h =
    all_completed ts i t (ground (arith, count_completed-le ts)) h

-- Task `k + i` stands at `i`.
abbrev pub Numbered : List Task → ℕ → Type 0
Numbered [] k = Unit {0}
Numbered (t ∷ ts) k = (t.task_id ≡ k) × Numbered ts (k + 1)

pub Numbered-set :
    (ts : List Task) (k i : ℕ) (t t' : Task)
    → get_elem? ts i ≡ some t
    → t'.task_id ≡ t.task_id
    → Numbered ts k
    → Numbered (set ts i t') k
Numbered-set [] k i t t' h e n = tt
Numbered-set (x ∷ ts) k zero t t' h e n = ground arith
Numbered-set (x ∷ ts) k (suc i) t t' h e n = (n.0, Numbered-set ts (k + 1) i t t' h e n.1)

pub Numbered-expire_at : (ts : List Task) (k i : ℕ) → Numbered ts k → Numbered (expire_at ts i) k
unfolding expire_at
Numbered-expire_at [] k i n = tt
Numbered-expire_at (x ∷ ts) k zero n = ground arith
Numbered-expire_at (x ∷ ts) k (suc i) n = (n.0, Numbered-expire_at ts (k + 1) i n.1)

pub Numbered-task_id :
    (ts : List Task) (k i : ℕ) (t : Task)
    → Numbered ts k
    → get_elem? ts i ≡ some t
    → t.task_id ≡ k + i
Numbered-task_id [] k i t n h = cc
Numbered-task_id (x ∷ ts) k zero t n h = ground arith
Numbered-task_id (x ∷ ts) k (suc i) t n h = omega (arith, Numbered-task_id ts (k + 1) i t n.1 h)

pub get_elem?-expire_at :
    (ts : List Task) (i j : ℕ) (t' : Task)
    → get_elem? (expire_at ts i) j ≡ some t'
    → (t : Task) × (get_elem? ts j ≡ some t) × (((i ≡ j) × (t' ≡ expire t)) ⊎ ((i ≢ j) × (t' ≡ t)))
unfolding expire_at
get_elem?-expire_at [] i j t' h = cc
get_elem?-expire_at (x ∷ ts) zero zero t' h = (x, refl, inl (refl, ground arith))
get_elem?-expire_at (x ∷ ts) zero (suc j) t' h = (t', h, inr (omega arith, refl))
get_elem?-expire_at (x ∷ ts) (suc i) zero t' h = (t', h, inr (omega arith, refl))
get_elem?-expire_at (x ∷ ts) (suc i) (suc j) t' h =
    let (t, at, how) = get_elem?-expire_at ts i j t' h in (t, at, ground (arith, how))
