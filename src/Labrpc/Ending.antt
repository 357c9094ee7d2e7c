-- ===== src/Labrpc/Ending.antt =====
-- src/labrpc/labrpc.go: a call that is under way can always come to its end.
use mit_distributed_systems.Prelude.{
  Bool, ◌⊎◌, ℕ, ◌≡◌, refl, subst, Bytes, true, false, Option, none, some, Bool-cases, inl, inr,
}
use mit_distributed_systems.Labrpc.Server.{Server, dispatch}
use mit_distributed_systems.Labrpc.Network.{Network, is_server_dead}
use mit_distributed_systems.Labrpc.Calls.{
  ReqMsg, ReplyMsg, failure, Serving, CallState, Progress, served, waiting, finished, Execution,
  running, returned, start_handler, is_dropped, check_server, finish_req, process_req, serve, Moves,
  processes, expires, starts, returns, replies, checked, answers, sent, refused, delayed, unstarted,
  add_reply_bytes,
}
use mit_distributed_systems.Labrpc.World.{Host, World, executes, executions_of, Reach}
use mit_distributed_systems.Labrpc.Account.{
  Runs, Consistent, Accounted, AllAccounted, Reach-Accounted,
}
use mit_distributed_systems.Labrpc.Ways.{
  update_self, IsOwn, Ends, Step-Ends, finished-Ends, move-Ends, last-Ends,
}

-- The two places where `processReq` goes with the reply.
finish_req-end :
    (rn : Network) (s : Serving) (m : ReplyMsg)
    → (m' : ReplyMsg) × (((finish_req rn s m 0 0).1 ≡ finished m')
        ⊎ ((finish_req rn s m 0 0).1 ≡ delayed m'))
unfolding finish_req
finish_req-end rn s m = elim (Bool-cases (is_dropped s.reliable 0)) [
  | inl d ↦ (failure, inl (rw d refl))
  | inr d ↦ elim (Bool-cases s.long_reordering) [
    | inl late ↦ (m, inr (rw (d, late) refl))
    | inr now ↦ (m, inl (rw (d, now) refl))
  ]
]

serve-cases :
    (e : ℕ) (enabled reliable reordering : Bool) (name server : Option ℕ)
    → (serve e enabled reliable reordering name server ≡ refused)
      ⊎ ((s : Serving) × (serve e enabled reliable reordering name server ≡ served s))
serve-cases e false reliable reordering name server = inl refl
serve-cases e true reliable reordering none server = inl refl
serve-cases e true reliable reordering (some n) none = inl refl
serve-cases e true reliable reordering (some n) (some p) = inr (_, refl)

module _ {S : Type 0} where
  delayed-Ends :
      (w : World S) (id : ℕ) (c : CallState) (m : ReplyMsg)
      → w.calls id ≡ some c
      → c.progress ≡ delayed m
      → Ends id w
  delayed-Ends w id c m at h =
      last-Ends w id c (record c { progress = finished m }) (add_reply_bytes w.network m) m at
        (answers h) refl

  refused-Ends :
      (w : World S) (id : ℕ) (c : CallState)
      → w.calls id ≡ some c
      → c.progress ≡ refused
      → Ends id w
  refused-Ends w id c at h =
      last-Ends w id c (record c { progress = finished failure }) w.network failure at (expires h)
        refl

  checked-Ends :
      (w : World S) (id : ℕ) (c : CallState) (s : Serving) (m : ReplyMsg)
      → w.calls id ≡ some c
      → c.progress ≡ checked s m
      → Ends id w
  checked-Ends w id c s m at h =
      let r = finish_req w.network s m 0 0 in
      let c' : CallState = record c { progress = r.1 } in
      let move : Moves w.network c r.0 c' = replies 0 0 h refl in
      let end = finish_req-end w.network s m in
      elim end.1 [
        | inl now ↦ last-Ends w id c c' r.0 end.0 at move now
        | inr late ↦
            move-Ends w id c c' r.0 at move
              (delayed-Ends _ id c' end.0 (update_self w.calls id (some c')) late)
      ]

  returned-Ends :
      (w : World S) (id : ℕ) (c : CallState) (s : Serving) (p : ℕ) (b : Bytes)
      → w.calls id ≡ some c
      → c.progress ≡ waiting s
      → c.execution ≡ returned p b
      → Ends id w
  unfolding check_server
  returned-Ends w id c s p b at h x =
      let m : ReplyMsg = record { ok = true; reply = b } in
      let c' : CallState = record c { progress = check_server w.network s m } in
      let move : Moves w.network c w.network c' = returns h x in
      elim (Bool-cases (is_server_dead w.network s.endname s.servername s.server)) [
        | inl dead ↦ last-Ends w id c c' w.network failure at move (rw dead refl)
        | inr alive ↦
            move-Ends w id c c' w.network at move
              (checked-Ends _ id c' s m (update_self w.calls id (some c')) (rw alive refl))
      ]

  -- No method that the request may reach is missing: a missing one stops the program.
  unfoldable pub Answerable : World S → ReqMsg → Type 0
  Answerable w req =
      (p : ℕ)
      → (r : Server S × (S × Bytes)) × (dispatch (w.hosts p).server req.svc_meth req.args
            (w.hosts p).state
          ≡ some r)

  waiting-Ends :
      (w : World S) (id : ℕ) (c : CallState) (s : Serving) (x : Execution)
      → w.calls id ≡ some c
      → c.progress ≡ waiting s
      → c.execution ≡ x
      → Runs s.server x
      → Answerable w c.request
      → Ends id w
  unfolding Runs Answerable IsOwn
  waiting-Ends w id c s unstarted at h x v answer = absurd v
  waiting-Ends w id c s (running p) at h x v answer =
      let result = answer p in
      Step-Ends id (executes id at x result.1) refl (
        returned-Ends _ id (record c { execution = returned p result.0.1.1 }) s p result.0.1.1
          (update_self w.calls id _) h refl)
  waiting-Ends w id c s (returned p b) at h x v answer = returned-Ends w id c s p b at h x

  served-Ends :
      (w : World S) (id : ℕ) (c : CallState) (s : Serving)
      → w.calls id ≡ some c
      → c.progress ≡ served s
      → Answerable w c.request
      → Ends id w
  unfolding start_handler Answerable Runs
  served-Ends w id c s at h answer = elim (Bool-cases (is_dropped s.reliable 0)) [
    | inl d ↦ last-Ends w id c (start_handler s 0 c) w.network failure at (starts 0 h) (rw d refl)
    | inr d ↦
        (let c' : CallState = record c { progress = waiting s; execution = running s.server } in
          let move = subst (Moves w.network c w.network) (rw d refl) (starts 0 h) in
          move-Ends w id c c' w.network at move (
            waiting-Ends _ id c' s (running s.server) (update_self w.calls id (some c')) refl refl
              refl answer))
  ]

  sent-Ends :
      (w : World S) (id : ℕ) (c : CallState)
      → w.calls id ≡ some c
      → c.progress ≡ sent
      → Answerable w c.request
      → Ends id w
  unfolding process_req Answerable
  sent-Ends w id c at h answer =
      let c' : CallState = record c { progress = process_req w.network c.request } in
      let self = update_self w.calls id (some c') in
      move-Ends w id c c' w.network at (processes h)
        (elim (serve-cases c.request.endname _ _ _ _ _) [
          | inl none_serves ↦ refused-Ends _ id c' self none_serves
          | inr (s, serves) ↦ served-Ends _ id c' s self serves answer
        ])

  Accounted-Ends :
      (w : World S) (id : ℕ) (c : CallState) (q : Progress)
      → w.calls id ≡ some c
      → c.progress ≡ q
      → Consistent q c.execution
      → Answerable w c.request
      → Ends id w
  unfolding Consistent
  Accounted-Ends w id c sent at h v answer = sent-Ends w id c at h answer
  Accounted-Ends w id c refused at h v answer = refused-Ends w id c at h
  Accounted-Ends w id c (served s) at h v answer = served-Ends w id c s at h answer
  Accounted-Ends w id c (waiting s) at h v answer =
      waiting-Ends w id c s c.execution at h refl v answer
  Accounted-Ends w id c (checked s m) at h v answer = checked-Ends w id c s m at h
  Accounted-Ends w id c (delayed m) at h v answer = delayed-Ends w id c m at h
  Accounted-Ends w id c (finished m) at h v answer = finished-Ends w id c m at h

  -- In every world that the network can reach, and wherever a call is, steps of the call and of its
  -- handler lead to its end, if every server has the call's method.
  pub call-Ends :
      {hosts : ℕ → Host S} (w : World S) (id : ℕ) (c : CallState)
      → Reach hosts w
      → w.calls id ≡ some c
      → Answerable w c.request
      → Ends id w
  unfolding AllAccounted Accounted
  call-Ends w id c r at answer =
      let a = subst (λ o. Accounted o (executions_of id w.executions)) at (Reach-Accounted r id) in
      Accounted-Ends w id c c.progress at refl a.1 answer
