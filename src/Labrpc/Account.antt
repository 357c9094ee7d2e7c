-- ===== src/Labrpc/Account.antt =====
-- src/labrpc/labrpc.go: how often the handler of a call runs, and where its reply comes from.
use mit_distributed_systems.Prelude.{
  ℕ, ◌≡◌, refl, sym, ap, ◌∙◌, subst, Bytes, List, [], ◌∷◌, true, Option, none, some, update, ==_iff,
  ◌==◌, Bool, false, Bool-cases, inl, inr, ltb, ◌&&◌, ◌%◌,
}
use mit_distributed_systems.Labrpc.Network.{Network, is_server_dead}
use mit_distributed_systems.Labrpc.Calls.{
  ReplyMsg, failure, Serving, CallState, Progress, sent, refused, served, waiting, checked, delayed,
  finished, Execution, unstarted, running, returned, new_call, unsent_call, serve, process_req,
  start_handler, is_dropped, check_server, finish_req, Moves, processes, expires, starts, polls,
  returns, replies, answers,
}
use mit_distributed_systems.Labrpc.World.{
  Host, World, Step, configures, stops_listening, gets_service, evolves, sends, finds_closed, moves,
  executes, Reach, start, later, executions_of,
}

-- The executions that a call's goroutine stands for.
unfoldable pub Logged : Execution → List (ℕ × Bytes) → Type 0
Logged unstarted l = l ≡ []
Logged (running p) l = l ≡ []
Logged (returned p b) l = l ≡ (p, b) ∷ []

unfoldable pub Runs : ℕ → Execution → Type 0
Runs server unstarted = ⊥
Runs server (running p) = p ≡ server
Runs server (returned p b) = p ≡ server

-- A positive reply is what the handler has returned.
unfoldable pub Answers : ReplyMsg → Execution → Type 0
Answers m x = m.ok ≡ true → (p : ℕ) × (x ≡ returned p m.reply)

unfoldable pub Consistent : Progress → Execution → Type 0
Consistent sent x = x ≡ unstarted
Consistent refused x = x ≡ unstarted
Consistent (served s) x = x ≡ unstarted
Consistent (waiting s) x = Runs s.server x
Consistent (checked s m) x = Answers m x
Consistent (delayed m) x = Answers m x
Consistent (finished m) x = Answers m x

unfoldable pub Accounted : Option CallState → List (ℕ × Bytes) → Type 0
Accounted none l = l ≡ []
Accounted (some c) l = Logged c.execution l × Consistent c.progress c.execution

failure-Answers : (x : Execution) → Answers failure x
unfolding Answers
failure-Answers x h = cc

serve-Consistent :
    (e : ℕ) (enabled reliable reordering : Bool) (name server : Option ℕ)
    → Consistent (serve e enabled reliable reordering name server) unstarted
unfolding Consistent
serve-Consistent e false reliable reordering name server = refl
serve-Consistent e true reliable reordering none server = refl
serve-Consistent e true reliable reordering (some n) none = refl
serve-Consistent e true reliable reordering (some n) (some p) = refl

start_handler-Consistent :
    (s : Serving) (draw : ℕ) (c : CallState) (l : List (ℕ × Bytes))
    → c.execution ≡ unstarted
    → l ≡ []
    → Accounted (some (start_handler s draw c)) l
unfolding Accounted start_handler Logged Consistent Runs
start_handler-Consistent s draw c l e h = elim (Bool-cases (is_dropped s.reliable draw)) [
  | inl d ↦ rw (d, e) (h, failure-Answers unstarted)
  | inr d ↦ rw d (h, refl)
]

check_server-Answers :
    (rn : Network) (s : Serving) (b : Bytes) (p : ℕ)
    → Consistent (check_server rn s (record { ok = true; reply = b })) (returned p b)
unfolding check_server Consistent Answers
check_server-Answers rn s b p =
    elim (Bool-cases (is_server_dead rn s.endname s.servername s.server)) [
      | inl dead ↦ rw dead (failure-Answers (returned p b))
      | inr alive ↦ rw alive (λ h. (p, refl))
    ]

finish_req-Answers :
    (rn : Network) (s : Serving) (m : ReplyMsg) (draw delay : ℕ) (x : Execution)
    → Answers m x
    → Consistent (finish_req rn s m draw delay).1 x
unfolding finish_req Consistent
finish_req-Answers rn s m draw delay x v = elim (Bool-cases (is_dropped s.reliable draw)) [
  | inl d ↦ rw d (failure-Answers x)
  | inr d ↦ elim (Bool-cases (s.long_reordering && ltb (delay % 900) 600)) [
    | inl late ↦ rw (d, late) v
    | inr now ↦ rw (d, now) v
  ]
]

-- A step of the call's goroutine keeps its account.
Moves-Accounted :
    {rn rn' : Network} {c c' : CallState} (l : List (ℕ × Bytes))
    → Moves rn c rn' c'
    → Accounted (some c) l
    → Accounted (some c') l
unfolding Accounted Consistent Logged process_req
Moves-Accounted {rn} {rn'} {c} {c'} l (processes h) (logged, v) = (
  logged,
  subst (Consistent (process_req rn c.request)) (sym (subst (λ q. Consistent q c.execution) h v))
      (serve-Consistent _ _ _ _ _ _),
)
Moves-Accounted {rn} {rn'} {c} {c'} l (expires h) (logged, v) =
    (logged, failure-Answers c.execution)
Moves-Accounted {rn} {rn'} {c} {c'} l (starts {s} draw h) (logged, v) =
    (let e = subst (λ q. Consistent q c.execution) h v in
      start_handler-Consistent s draw c l e (subst (λ x. Logged x l) e logged))
Moves-Accounted {rn} {rn'} {c} {c'} l (polls h dead) (logged, v) =
    (logged, failure-Answers c.execution)
Moves-Accounted {rn} {rn'} {c} {c'} l (returns {s} {p} {b} h x) (logged, v) =
    (logged, subst (Consistent c'.progress) (sym x) (check_server-Answers rn s b p))
Moves-Accounted {rn} {rn'} {c} {c'} l (replies {s} {m} draw delay h e) (logged, v) = (
  logged,
  subst (λ r. Consistent r.1 c.execution) e
      (finish_req-Answers rn s m draw delay c.execution
        (subst (λ q. Consistent q c.execution) h v)),
)
Moves-Accounted {rn} {rn'} {c} {c'} l (answers {m} h) (logged, v) =
    (logged, subst (λ q. Consistent q c.execution) h v)

-- What holds of a new value and of the old ones holds after an update.
pub update-one :
    {A : Type 0} (P : A → Type 0) (m : ℕ → A) (k : ℕ) (v : A) (j : ℕ)
    → (j ≡ k → P v)
    → P (m j)
    → P (update m k v j)
update-one P m k v j new old = elim (Bool-cases (j == k)) [
  | inl same ↦ rw same (new ((==_iff j k).0 same))
  | inr other ↦ rw other old
]

pub update-all :
    {A : Type 0} (P : ℕ → A → Type 0) (m : ℕ → A) (k : ℕ) (v : A)
    → P k v
    → ((j : ℕ) → P j (m j))
    → (j : ℕ) → P j (update m k v j)
update-all P m k v new old j =
    update-one (P j) m k v j (λ e. subst (λ i. P i v) (sym e) new) (old j)

-- Nothing has used the end of a handler that still runs.
returned-Consistent :
    (q : Progress) (p : ℕ) (b : Bytes) → Consistent q (running p) → Consistent q (returned p b)
unfolding Consistent Runs Answers
returned-Consistent sent p b v = cc
returned-Consistent refused p b v = cc
returned-Consistent (served s) p b v = cc
returned-Consistent (waiting s) p b v = v
returned-Consistent (checked s m) p b v = λ ok. absurd (let e = (v ok).1 in cc)
returned-Consistent (delayed m) p b v = λ ok. absurd (let e = (v ok).1 in cc)
returned-Consistent (finished m) p b v = λ ok. absurd (let e = (v ok).1 in cc)

executes-Accounted :
    (calls : ℕ → Option CallState) (l : List (ℕ × (ℕ × Bytes))) (c : CallState) (p : ℕ) (b : Bytes)
    (id : ℕ)
    → calls id ≡ some c
    → c.execution ≡ running p
    → ((j : ℕ) → Accounted (calls j) (executions_of j l))
    → (j : ℕ)
    → Accounted
        (update calls id (some (record c { execution = returned p b })) j)
        (executions_of j ((id, (p, b)) ∷ l))
unfolding executions_of Accounted Logged
executes-Accounted calls l c p b id at x v j = elim (Bool-cases (j == id)) [
  | inl same ↦
      (let a =
          subst (λ o. Accounted o (executions_of j l)) (ap calls ((==_iff j id).0 same) ∙ at)
            (v j) in
        rw same (
          ap (λ e. (p, b) ∷ e) (subst (λ y. Logged y (executions_of j l)) x a.0),
          returned-Consistent c.progress p b (subst (Consistent c.progress) x a.1),
        ))
  | inr other ↦ rw other (v j)
]

module _ {S : Type 0} where
  unfoldable pub AllAccounted : World S → Type 0
  AllAccounted w = (id : ℕ) → Accounted (w.calls id) (executions_of id w.executions)

  pub Step-Accounted : {w w' : World S} → Step w w' → AllAccounted w → AllAccounted w'
  unfolding AllAccounted Accounted Logged Consistent Answers
  Step-Accounted (configures config h) v = v
  Step-Accounted (stops_listening h) v = v
  Step-Accounted (gets_service p svc) v = v
  Step-Accounted (evolves p state) v = v
  Step-Accounted {w = w} (sends id req fresh h) v =
      update-all (λ j o. Accounted o (executions_of j w.executions)) w.calls id
        (some (new_call req))
        (subst (λ o. Accounted o (executions_of id w.executions)) fresh (v id), refl) v
  Step-Accounted {w = w} (finds_closed id req fresh h) v =
      update-all (λ j o. Accounted o (executions_of j w.executions)) w.calls id
        (some (unsent_call req))
        (
          subst (λ o. Accounted o (executions_of id w.executions)) fresh (v id),
          failure-Answers unstarted,
        )
        v
  Step-Accounted {w = w} (moves {c = c} {c' = c'} id at m) v =
      update-all (λ j o. Accounted o (executions_of j w.executions)) w.calls id (some c')
        (Moves-Accounted (executions_of id w.executions) m
          (subst (λ o. Accounted o (executions_of id w.executions)) at (v id)))
        v
  Step-Accounted {w = w} (executes {c = c} {p = p} {b = b} id at x h) v =
      executes-Accounted w.calls w.executions c p b id at x v

  pub Reach-Accounted : {hosts : ℕ → Host S} {w : World S} → Reach hosts w → AllAccounted w
  unfolding AllAccounted Accounted executions_of
  Reach-Accounted start = λ id. refl
  Reach-Accounted (later r s) = Step-Accounted s (Reach-Accounted r)
