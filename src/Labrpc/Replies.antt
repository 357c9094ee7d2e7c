-- ===== src/Labrpc/Replies.antt =====
-- src/labrpc/labrpc.go: what a call's positive reply says.
use mit_distributed_systems.Prelude.{
  ℕ, ◌≡◌, subst, Bytes, List, [], ◌∷◌, true, Option, none, some, Bool-cases, inl, inr, ◌≤◌, length,
  arith,
}
use mit_distributed_systems.Labrpc.Server.{Server, dispatch}
use mit_distributed_systems.Labrpc.Network.{Network}
use mit_distributed_systems.Labrpc.Calls.{
  ReqMsg, ReplyMsg, CallState, finished, Execution, unstarted, running, returned, new_call,
  unsent_call, Serving, start_handler, is_dropped, Moves, processes, expires, starts, polls,
  returns, replies, answers,
}
use mit_distributed_systems.Labrpc.World.{
  Host, World, Step, configures, stops_listening, gets_service, evolves, sends, finds_closed, moves,
  executes, Reach, start, later, executions_of,
}
use mit_distributed_systems.Labrpc.Account.{
  Logged, Consistent, Answers, Accounted, AllAccounted, Reach-Accounted, update-all,
}

-- `reply` is what the method of `req` gives on a server, in a state of its objects.
pub record IsReplyTo (S : Type 0) (req : ReqMsg) (reply : Bytes) : Type 0 where
  pub before : Server S
  pub state : S
  pub after : Server S
  pub next_state : S
  pub dispatches : dispatch before req.svc_meth req.args state ≡ some (after, (next_state, reply))

-- What the handler has returned is such a reply.
Executed : Type 0 → ReqMsg → Execution → Type 0
Executed S req unstarted = Unit {0}
Executed S req (running p) = Unit {0}
Executed S req (returned p b) = IsReplyTo S req b

Replied : Type 0 → Option CallState → Type 0
Replied S none = Unit {0}
Replied S (some c) = Executed S c.request c.execution

start_handler-Replied :
    (S : Type 0) (s : Serving) (draw : ℕ) (c : CallState)
    → Replied S (some c)
    → Replied S (some (start_handler s draw c))
unfolding Replied Executed start_handler
start_handler-Replied S s draw c v = elim (Bool-cases (is_dropped s.reliable draw)) [
  | inl d ↦ rw d v
  | inr d ↦ rw d tt
]

Moves-Replied :
    (S : Type 0) {rn rn' : Network} {c c' : CallState}
    → Moves rn c rn' c'
    → Replied S (some c)
    → Replied S (some c')
unfolding Replied
Moves-Replied S (processes h) v = v
Moves-Replied S (expires h) v = v
Moves-Replied S {c = c} (starts {s} draw h) v = start_handler-Replied S s draw c v
Moves-Replied S (polls h dead) v = v
Moves-Replied S (returns h x) v = v
Moves-Replied S (replies draw delay h e) v = v
Moves-Replied S (answers h) v = v

Logged-at_most_once : (x : Execution) (l : List (ℕ × Bytes)) → Logged x l → length l ≤ 1
unfolding Logged
Logged-at_most_once unstarted l h = rw h (omega arith)
Logged-at_most_once (running p) l h = rw h (omega arith)
Logged-at_most_once (returned p b) l h = rw h (omega arith)

Accounted-at_most_once :
    (o : Option CallState) (l : List (ℕ × Bytes)) → Accounted o l → length l ≤ 1
unfolding Accounted
Accounted-at_most_once none l h = rw h (omega arith)
Accounted-at_most_once (some c) l h = Logged-at_most_once c.execution l h.0

module _ {S : Type 0} where
  AllReplied : World S → Type 0
  AllReplied w = (id : ℕ) → Replied S (w.calls id)

  Step-Replied : {w w' : World S} → Step w w' → AllReplied w → AllReplied w'
  unfolding AllReplied Replied Executed
  Step-Replied (configures config h) v = v
  Step-Replied (stops_listening h) v = v
  Step-Replied (gets_service p svc) v = v
  Step-Replied (evolves p state) v = v
  Step-Replied {w = w} (sends id req fresh h) v =
      update-all (λ j. Replied S) w.calls id (some (new_call req)) tt v
  Step-Replied {w = w} (finds_closed id req fresh h) v =
      update-all (λ j. Replied S) w.calls id (some (unsent_call req)) tt v
  Step-Replied {w = w} (moves {c' = c'} id at m) v =
      update-all (λ j. Replied S) w.calls id (some c')
        (Moves-Replied S m (subst (Replied S) at (v id))) v
  Step-Replied {w = w} (executes {c = c} {p = p} {b = b} id at x h) v =
      update-all (λ j. Replied S) w.calls id (some (record c { execution = returned p b }))
        (record {
          before = (w.hosts p).server;
          state = (w.hosts p).state;
          after = _;
          next_state = _;
          dispatches = h;
        })
        v

  Reach-Replied : {hosts : ℕ → Host S} {w : World S} → Reach hosts w → AllReplied w
  unfolding AllReplied Replied
  Reach-Replied start = λ id. tt
  Reach-Replied (later r s) = Step-Replied s (Reach-Replied r)

  -- In every world that the network can reach, whatever is lost, delayed or reconfigured, the
  -- handler of each call has run at most once.
  pub at_most_once :
      {hosts : ℕ → Host S} {w : World S} (id : ℕ)
      → Reach hosts w
      → length (executions_of id w.executions) ≤ 1
  unfolding AllAccounted
  at_most_once {w = w} id r =
      Accounted-at_most_once (w.calls id) (executions_of id w.executions) (Reach-Accounted r id)

  -- In every world that the network can reach, the handler of a call that has ended with a positive
  -- reply has run exactly once, and the reply is what it returned: it is the result of dispatching
  -- the call's method with the call's arguments on a server.
  pub positive_reply :
      {hosts : ℕ → Host S} {w : World S} (id : ℕ) (c : CallState) (m : ReplyMsg)
      → Reach hosts w
      → w.calls id ≡ some c
      → c.progress ≡ finished m
      → m.ok ≡ true
      → ((p : ℕ) × (executions_of id w.executions ≡ (p, m.reply) ∷ []))
        × IsReplyTo S c.request m.reply
  unfolding AllAccounted AllReplied Accounted Replied Consistent Answers Logged Executed
  positive_reply {w = w} id c m r at end ok =
      let a = subst (λ o. Accounted o (executions_of id w.executions)) at (Reach-Accounted r id) in
      let run = subst (λ q. Consistent q c.execution) end a.1 ok in
      (
        (run.0, subst (λ x. Logged x (executions_of id w.executions)) run.1 a.0),
        subst (Executed S c.request) run.1 (subst (Replied S) at (Reach-Replied r id)),
      )
