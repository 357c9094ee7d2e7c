-- ===== src/MapReduce/Expiring.antt =====
-- src/mr/coordinator.go: goroutines `waitTask` that come to their end while no task is in progress, or one.
use mit_distributed_systems.Prelude.{
  Every, ℕ, ◌≡◌, ◌≢◌, refl, sym, ap, ◌∙◌, subst, Bytes, List, [], ◌∷◌, Option, some,
}
use mit_distributed_systems.MapReduce.Tasks.{TaskType, map_task, reduce_task, Coordinator}
use mit_distributed_systems.MapReduce.Coordinator.{
  hand_out, wait_map_task, wait_reduce_task, expire_at,
}
use mit_distributed_systems.MapReduce.Timers.{Answer, no_work, gives_map, gives_reduce}
use mit_distributed_systems.MapReduce.Resting.{Ready, expire_at-Ready, expire_at-other}
use mit_distributed_systems.MapReduce.Loop.{
  Expiry, map_expiry, reduce_expiry, expire_one, expire_all,
}

abbrev pub Any : Bytes → Type 0
Any name = Unit {0}

-- The end of a `waitTask` other than that of the task at hand.
abbrev pub Spares : TaskType → Option ℕ → Expiry → Type 0
Spares type timer (map_expiry i) = type ≡ map_task → timer ≢ some i
Spares type timer (reduce_expiry i) = type ≡ reduce_task → timer ≢ some i

module _ (Q : Bytes → Type 0) where
  expire_one-resting :
      (x : Expiry) (c : Coordinator)
      → Ready Q c.map_tasks
      → Ready Any c.reduce_tasks
      → expire_one x c ≡ c
  unfolding expire_one wait_map_task wait_reduce_task
  expire_one-resting (map_expiry i) c maps reduces =
      ap (λ ts. record c { map_tasks = ts }) (expire_at-Ready Q c.map_tasks i maps)
  expire_one-resting (reduce_expiry i) c maps reduces =
      ap (λ ts. record c { reduce_tasks = ts }) (expire_at-Ready Any c.reduce_tasks i reduces)

  -- With no task in progress, such an end changes nothing.
  pub expire_all-resting :
      (l : List Expiry) (c : Coordinator)
      → Ready Q c.map_tasks
      → Ready Any c.reduce_tasks
      → expire_all l c ≡ c
  unfolding expire_all
  expire_all-resting [] c maps reduces = refl
  expire_all-resting (x ∷ l) c maps reduces =
      ap (expire_all l) (expire_one-resting x c maps reduces) ∙ expire_all-resting l c maps reduces

  expire_one-asked :
      (x : Expiry) (c c' : Coordinator) (type : TaskType) (timer : Option ℕ)
      → Ready Q c.map_tasks
      → Ready Any c.reduce_tasks
      → Answer c c' type timer
      → Spares type timer x
      → expire_one x c' ≡ c'
  unfolding expire_one wait_map_task wait_reduce_task
  expire_one-asked x c c' type timer maps reduces (no_work m n t) s =
      expire_one-resting x c' (subst (Ready Q) (sym m) maps) (subst (Ready Any) (sym n) reduces)
  expire_one-asked (map_expiry i) c c' type timer maps reduces (gives_map k h n) s =
      ap (λ ts. record c' { map_tasks = ts })
        (subst (λ ts. expire_at ts i ≡ ts) (sym h.now)
          (expire_at-other Q c.map_tasks i h.index (hand_out h.task h.worker) maps
            (λ e. s k (h.starts ∙ ap some (sym e)))))
  expire_one-asked (reduce_expiry i) c c' type timer maps reduces (gives_map k h n) s =
      ap (λ ts. record c' { reduce_tasks = ts })
        (expire_at-Ready Any c'.reduce_tasks i (subst (Ready Any) (sym n) reduces))
  expire_one-asked (map_expiry i) c c' type timer maps reduces (gives_reduce k h m all) s =
      ap (λ ts. record c' { map_tasks = ts })
        (expire_at-Ready Q c'.map_tasks i (subst (Ready Q) (sym m) maps))
  expire_one-asked (reduce_expiry i) c c' type timer maps reduces (gives_reduce k h m all) s =
      ap (λ ts. record c' { reduce_tasks = ts })
        (subst (λ ts. expire_at ts i ≡ ts) (sym h.now)
          (expire_at-other Any c.reduce_tasks i h.index (hand_out h.task h.worker) reduces
            (λ e. s k (h.starts ∙ ap some (sym e)))))

  -- Nor with the task in progress that a request was answered with, if it is another's end.
  pub expire_all-asked :
      (l : List Expiry) (c c' : Coordinator) (type : TaskType) (timer : Option ℕ)
      → Ready Q c.map_tasks
      → Ready Any c.reduce_tasks
      → Answer c c' type timer
      → Every (Spares type timer) l
      → expire_all l c' ≡ c'
  unfolding expire_all
  expire_all-asked [] c c' type timer maps reduces a h = refl
  expire_all-asked (x ∷ l) c c' type timer maps reduces a (q, h) =
      ap (expire_all l) (expire_one-asked x c c' type timer maps reduces a q)
      ∙ expire_all-asked l c c' type timer maps reduces a h
