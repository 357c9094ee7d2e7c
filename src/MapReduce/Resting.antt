-- ===== src/MapReduce/Resting.antt =====
-- src/mr/coordinator.go: a coordinator with no task in progress.
use mit_distributed_systems.Prelude.{
  subst, sym, ap, ◌∙◌, ◌≢◌, get_elem?-set_ne, ℕ, zero, suc, ◌+◌, ◌<◌, ◌≡◌, refl, Bytes, List, [],
  ◌∷◌, some, true, false, Bool-cases, inl, inr, length, get_elem?, set, arith,
}
use mit_distributed_systems.MapReduce.Tasks.{
  Task, idle, in_progress, completed, TaskStatus, is_idle, is_in_progress, is_completed,
}
use mit_distributed_systems.MapReduce.Coordinator.{first_idle, hand_out, expire_at}
use mit_distributed_systems.MapReduce.Lists.{count_completed}

-- No task is in progress, and `Q` holds of the tasks' files.
abbrev pub Ready : (Bytes → Type 0) → List Task → Type 0
Ready Q [] = Unit {0}
Ready Q (t ∷ ts) = (is_in_progress t ≡ false) × Q t.file × Ready Q ts

pub record Next (ts : List Task) (k : ℕ) : Type 0 where
  pub index : ℕ
  pub task : Task
  pub is : first_idle ts k ≡ some (index, task)

Next-skip :
    (x : Task) (ts : List Task) (k : ℕ) → is_idle x ≡ false → Next ts (k + 1) → Next (x ∷ ts) k
unfolding first_idle
Next-skip x ts k busy n = record { index = n.index; task = n.task; is = ground (arith, busy, n.is) }

-- While not all tasks are completed, one is idle.
pub Ready-Next :
    (Q : Bytes → Type 0) (ts : List Task) (k : ℕ)
    → Ready Q ts
    → count_completed ts < length ts
    → Next ts k
unfolding first_idle
Ready-Next Q [] k r h = absurd (omega (arith, h))
Ready-Next Q (x ∷ ts) k (rest, q, r) h = elim (Bool-cases (is_idle x)) [
  | inl free ↦ record { index = k; task = x; is = ground (arith, free) }
  | inr busy ↦
      let over : is_completed x ≡ true = over_of x.status busy rest in
      Next-skip x ts k busy (Ready-Next Q ts (k + 1) r (ground (arith, over, h)))
]
  where
    over_of :
        (s : TaskStatus)
        → (elim s [ idle ↦ true | _ ↦ false ]) ≡ false
        → (elim s [ in_progress ↦ true | _ ↦ false ]) ≡ false
        → (elim s [ completed ↦ true | _ ↦ false ]) ≡ true
    over_of idle a b = ground (arith, a)
    over_of in_progress a b = ground (arith, b)
    over_of completed a b = refl

pub Ready-file :
    (Q : Bytes → Type 0) (ts : List Task) (i : ℕ) (t : Task)
    → Ready Q ts
    → get_elem? ts i ≡ some t
    → Q t.file
Ready-file Q [] i t r e = cc
Ready-file Q (x ∷ ts) zero t (rest, q, r) e = let same : x ≡ t = cc in subst (λ y. Q y.file) same q
Ready-file Q (x ∷ ts) (suc i) t (rest, q, r) e = Ready-file Q ts i t r e

abbrev pub finished_by : Task → ℕ → Task
finished_by t pid = record (hand_out t pid) { status = completed }

pub Ready-finished :
    (Q : Bytes → Type 0) (ts : List Task) (i : ℕ) (t : Task) (pid : ℕ)
    → Ready Q ts
    → get_elem? ts i ≡ some t
    → Ready Q (set (set ts i (hand_out t pid)) i (finished_by t pid))
Ready-finished Q [] i t pid r e = tt
Ready-finished Q (x ∷ ts) zero t pid (rest, q, r) e =
    (refl, Ready-file Q (x ∷ ts) zero t (rest, q, r) e, r)
Ready-finished Q (x ∷ ts) (suc i) t pid (rest, q, r) e = (rest, q, Ready-finished Q ts i t pid r e)

pub get_elem?-lt : (ts : List Task) (i : ℕ) (t : Task) → get_elem? ts i ≡ some t → i < length ts
get_elem?-lt [] i t e = cc
get_elem?-lt (x ∷ ts) zero t e = omega arith
get_elem?-lt (x ∷ ts) (suc i) t e = omega (arith, get_elem?-lt ts i t e)

pub Ready-get :
    (Q : Bytes → Type 0) (ts : List Task) (i : ℕ) (t : Task)
    → Ready Q ts
    → get_elem? ts i ≡ some t
    → is_in_progress t ≡ false
Ready-get Q [] i t r e = cc
Ready-get Q (x ∷ ts) zero t (rest, q, r) e =
    let same : x ≡ t = cc in subst (λ y. is_in_progress y ≡ false) same rest
Ready-get Q (x ∷ ts) (suc i) t (rest, q, r) e = Ready-get Q ts i t r e

-- The end of `waitTask` changes nothing for a task that is not in progress.
pub expire_at-resting :
    (ts : List Task) (i : ℕ)
    → ((t : Task) → get_elem? ts i ≡ some t → is_in_progress t ≡ false)
    → expire_at ts i ≡ ts
unfolding expire_at
expire_at-resting [] i h = refl
expire_at-resting (x ∷ ts) zero h = ground (arith, h x refl)
expire_at-resting (x ∷ ts) (suc i) h = ap (λ l. x ∷ l) (expire_at-resting ts i h)

pub expire_at-Ready :
    (Q : Bytes → Type 0) (ts : List Task) (i : ℕ) → Ready Q ts → expire_at ts i ≡ ts
expire_at-Ready Q ts i r = expire_at-resting ts i (λ t e. Ready-get Q ts i t r e)

-- Nor for another task than the one that was handed out.
pub expire_at-other :
    (Q : Bytes → Type 0) (ts : List Task) (i j : ℕ) (t : Task)
    → Ready Q ts
    → i ≢ j
    → expire_at (set ts j t) i ≡ set ts j t
expire_at-other Q ts i j t r ne =
    expire_at-resting (set ts j t) i
      (λ x e. Ready-get Q ts i x r (sym (get_elem?-set_ne ts j i t (λ h. ne (sym h))) ∙ e))
