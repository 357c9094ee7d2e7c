-- ===== src/Labrpc/Reliable.antt =====
-- src/labrpc/labrpc.go: calls on a network that loses nothing.
use mit_distributed_systems.Prelude.{
  Bool-cases, inl, inr, ℕ, ◌≡◌, refl, sym, ap, ◌∙◌, subst, true, false, Option, none, some, ==_iff,
  ◌>>=◌,
}
use mit_distributed_systems.Labrpc.Network.{Network, is_server_dead, read_endname_info}
use mit_distributed_systems.Labrpc.Calls.{
  ReqMsg, ReplyMsg, Serving, CallState, Progress, served, waiting, finished, returned, new_call,
  start_handler, is_dropped, check_server, finish_req, process_req, Moves, processes, expires,
  starts, polls, returns, replies, checked, answers, sent, refused, delayed,
}
use mit_distributed_systems.Labrpc.World.{
  World, Step, configures, stops_listening, gets_service, evolves, sends, finds_closed, moves,
  executes,
}
use mit_distributed_systems.Labrpc.Account.{update-one}

-- The network is up and reliable and delays no replies, and end `e` leads to server `p`.
pub record Delivers (e n p : ℕ) (rn : Network) : Type 0 where
  pub is_open : rn.closed ≡ false
  pub reliable : rn.reliable ≡ true
  pub in_order : rn.long_reordering ≡ false
  pub enabled : rn.enabled e ≡ true
  pub connected : rn.connections e ≡ some n
  pub linked : rn.servers n ≡ some p

abbrev pub serving : ℕ → ℕ → ℕ → Serving
serving e n p = record {
  endname = e;
  servername = n;
  server = p;
  reliable = true;
  long_reordering = false;
}

-- Where a call through `e` may be.
unfoldable pub Answering : ℕ → ℕ → ℕ → Progress → Type 0
Answering e n p sent = Unit {0}
Answering e n p refused = ⊥
Answering e n p (served s) = s ≡ serving e n p
Answering e n p (waiting s) = s ≡ serving e n p
Answering e n p (checked s m) = (s ≡ serving e n p) × (m.ok ≡ true)
Answering e n p (delayed m) = ⊥
Answering e n p (finished m) = m.ok ≡ true

process_req-serving :
    (rn : Network) (req : ReqMsg) (e n p : ℕ)
    → Delivers e n p rn
    → req.endname ≡ e
    → process_req rn req ≡ served (serving e n p)
unfolding process_req read_endname_info
process_req-serving rn req e n p d at =
    rw (at, d.enabled, d.connected, d.reliable, d.in_order, ◌>>=◌, d.linked) refl

serving-alive : (rn : Network) (e n p : ℕ) → Delivers e n p rn → is_server_dead rn e n p ≡ false
unfolding is_server_dead
serving-alive rn e n p d = rw (d.enabled, d.linked, (==_iff p p).1 refl) refl

check_server-serving :
    (rn : Network) (m : ReplyMsg) (e n p : ℕ)
    → Delivers e n p rn
    → check_server rn (serving e n p) m ≡ checked (serving e n p) m
unfolding check_server
check_server-serving rn m e n p d = rw (serving-alive rn e n p d) refl

finish_req-serving :
    (rn : Network) (m : ReplyMsg) (e n p draw delay : ℕ)
    → (finish_req rn (serving e n p) m draw delay).1 ≡ finished m
unfolding finish_req
finish_req-serving rn m e n p draw delay = refl

Moves-Answering :
    {rn rn' : Network} {c c' : CallState} (e n p : ℕ)
    → Moves rn c rn' c'
    → Delivers e n p rn
    → c.request.endname ≡ e
    → Answering e n p c.progress
    → Answering e n p c'.progress
unfolding Answering start_handler
Moves-Answering {rn} {c = c} e n p (processes h) d at v =
    rw (process_req-serving rn c.request e n p d at) refl
Moves-Answering e n p (expires h) d at v = absurd (subst (Answering e n p) h v)
Moves-Answering e n p (starts draw h) d at v = let is = subst (Answering e n p) h v in rw is refl
Moves-Answering {rn} e n p (polls h dead) d at v =
    let is = subst (Answering e n p) h v in
    let dead' = subst (λ t. is_server_dead rn t.endname t.servername t.server ≡ true) is dead in
    let alive = serving-alive rn e n p d in absurd cc
Moves-Answering {rn} e n p (returns {s} {b = b} h x) d at v =
    let is = subst (Answering e n p) h v in
    let m : ReplyMsg = record { ok = true; reply = b } in
    subst (Answering e n p)
      (sym (ap (λ t. check_server rn t m) is ∙ check_server-serving rn m e n p d)) (refl, refl)
Moves-Answering {rn} e n p (replies {s} {m} draw delay h end) d at v =
    let (is, ok) = subst (Answering e n p) h v in
    subst (λ r. Answering e n p r.1) end
      (subst (Answering e n p)
        (sym (
          ap (λ t. (finish_req rn t m draw delay).1) is ∙ finish_req-serving rn m e n p draw delay))
        ok)
Moves-Answering e n p (answers h) d at v = absurd (subst (Answering e n p) h v)

-- A call through `e` is answered, or on its way.
IsAnswering : ℕ → ℕ → ℕ → Option CallState → Type 0
IsAnswering e n p none = Unit {0}
IsAnswering e n p (some c) = c.request.endname ≡ e → Answering e n p c.progress

Moves-request : {rn rn' : Network} {c c' : CallState} → Moves rn c rn' c' → c'.request ≡ c.request
unfolding start_handler
Moves-request (processes h) = refl
Moves-request (expires h) = refl
Moves-request {c = c} (starts {s} draw h) = elim (Bool-cases (is_dropped s.reliable draw)) [
  | inl d ↦ rw d refl
  | inr d ↦ rw d refl
]
Moves-request (polls h dead) = refl
Moves-request (returns h x) = refl
Moves-request (replies draw delay h end) = refl
Moves-request (answers h) = refl

module _ {S : Type 0} where
  -- Steps, each from a world where `e` leads to `p`.
  pub data Delivering (e n p : ℕ) : World S → World S → Type 0 where
    here : {w : World S} → Delivering e n p w w
    step :
        {w w' w'' : World S}
        → Delivering e n p w w'
        → Delivers e n p w'.network
        → Step w' w''
        → Delivering e n p w w''

  Step-IsAnswering :
      {w w' : World S} (e n p id : ℕ)
      → Step w w'
      → Delivers e n p w.network
      → IsAnswering e n p (w.calls id)
      → IsAnswering e n p (w'.calls id)
  unfolding IsAnswering Answering
  Step-IsAnswering e n p id (configures config h) d v = v
  Step-IsAnswering e n p id (stops_listening h) d v = v
  Step-IsAnswering e n p id (gets_service q svc) d v = v
  Step-IsAnswering e n p id (evolves q state) d v = v
  Step-IsAnswering {w = w} e n p id (sends k req fresh h) d v =
      update-one (IsAnswering e n p) w.calls k (some (new_call req)) id (λ same at. tt) v
  Step-IsAnswering {w = w} e n p id (finds_closed k req fresh h) d v =
      absurd (let o = d.is_open in cc)
  Step-IsAnswering {w = w} e n p id (moves {c' = c'} k at m) d v =
      update-one (IsAnswering e n p) w.calls k (some c') id
        (λ same to.
          let to' = ap (λ r. r.endname) (sym (Moves-request m)) ∙ to in
          Moves-Answering e n p m d to' (subst (IsAnswering e n p) (ap w.calls same ∙ at) v to'))
        v
  Step-IsAnswering {w = w} e n p id (executes {c = c} {p = q} {b = b} k at x h) d v =
      update-one (IsAnswering e n p) w.calls k (some (record c { execution = returned q b })) id
        (λ same. subst (IsAnswering e n p) (ap w.calls same ∙ at) v) v

  Delivering-IsAnswering :
      (e n p id : ℕ) {w w' : World S}
      → Delivering e n p w w'
      → IsAnswering e n p (w.calls id)
      → IsAnswering e n p (w'.calls id)
  Delivering-IsAnswering e n p id here v = v
  Delivering-IsAnswering e n p id (step ws d s) v =
      Step-IsAnswering e n p id s d (Delivering-IsAnswering e n p id ws v)

  -- While the network is up, reliable and without long reordering, and an enabled end leads to a
  -- server, a call that is made through the end in that time does not fail: if it ends, the reply is
  -- positive.
  pub reliable_call_answered :
      {w w' : World S} (e n p id : ℕ) (c : CallState) (m : ReplyMsg)
      → Delivering e n p w w'
      → w.calls id ≡ none
      → w'.calls id ≡ some c
      → c.request.endname ≡ e
      → c.progress ≡ finished m
      → m.ok ≡ true
  unfolding IsAnswering Answering
  reliable_call_answered {w} e n p id c m run fresh at to end =
      let v = Delivering-IsAnswering e n p id run (subst (IsAnswering e n p) (sym fresh) tt) in
      subst (Answering e n p) end (subst (IsAnswering e n p) at v to)
