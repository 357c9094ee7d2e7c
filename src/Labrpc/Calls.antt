-- ===== src/Labrpc/Calls.antt =====
-- src/labrpc/labrpc.go: one call, from ClientEnd.Call over Network.processReq to its reply. A call's
-- state has the place that processReq is at and the goroutine that runs the handler. `draw` and
-- `delay` are results of rand.Int(). Encoded arguments and replies are given: labgob is outside.
use mit_distributed_systems.Prelude.{
  ℕ, ◌+◌, ◌%◌, ◌^◌, Bytes, [], Bool, true, false, ◌&&◌, not, Option, some, ltb, length,
  if◌then◌else◌, ◌≡◌,
}
use mit_distributed_systems.Labrpc.Network.{Network, read_endname_info, is_server_dead}

pub record ReqMsg : Type 0 where
  pub endname : ℕ
  pub svc_meth : Bytes
  pub args : Bytes

pub record ReplyMsg : Type 0 where
  pub ok : Bool
  pub reply : Bytes

-- `replyMsg{false, nil}`.
abbrev pub failure : ReplyMsg
failure = record { ok = false; reply = [] }

-- The variables of processReq once it has a server.
pub record Serving : Type 0 where
  pub endname : ℕ
  pub servername : ℕ
  pub server : ℕ
  pub reliable : Bool
  pub long_reordering : Bool

-- Where processReq is: at its start, before the late failure of a call that nobody serves, before it
-- starts the handler, in the loop that waits for the handler, behind the last test of the server,
-- before a delayed reply, and at its end.
pub data Progress : Type 0 where
  sent : Progress
  refused : Progress
  served : Serving → Progress
  waiting : Serving → Progress
  checked : Serving → ReplyMsg → Progress
  delayed : ReplyMsg → Progress
  finished : ReplyMsg → Progress

-- The goroutine of the handler: not started, started on a server, and returned from it with a reply.
pub data Execution : Type 0 where
  unstarted : Execution
  running : ℕ → Execution
  returned : ℕ → Bytes → Execution

pub record CallState : Type 0 where
  pub request : ReqMsg
  pub progress : Progress
  pub execution : Execution

-- The goroutine of `MakeNetwork` when it takes a request.
unfoldable pub receive : Network → ReqMsg → Network
receive rn xreq = record rn {
  count = (rn.count + 1) % 2 ^ 32;
  bytes = (rn.bytes + length xreq.args) % 2 ^ 64;
}

abbrev pub new_call : ReqMsg → CallState
new_call req = record { request = req; progress = sent; execution = unstarted }

-- The client's end of a call that finds the network destroyed.
abbrev pub unsent_call : ReqMsg → CallState
unsent_call req = record { request = req; progress = finished failure; execution = unstarted }

-- The names that `readEndnameInfo` gives, if neither is nil.
abbrev pub serve : ℕ → Bool → Bool → Bool → Option ℕ → Option ℕ → Progress
serve endname true reliable long_reordering (some servername) (some server) = served (record {
  endname = endname;
  servername = servername;
  server = server;
  reliable = reliable;
  long_reordering = long_reordering;
})
serve endname _ _ _ _ _ = refused

-- The start of `processReq`.
unfoldable pub process_req : Network → ReqMsg → Progress
unfolding read_endname_info
process_req rn req =
    let info = read_endname_info rn req.endname in
    serve req.endname info.enabled info.reliable info.long_reordering info.servername info.server

abbrev pub is_dropped : Bool → ℕ → Bool
is_dropped reliable draw = not reliable && ltb (draw % 1000) 100

-- A request is dropped, or the handler is started.
unfoldable pub start_handler : Serving → ℕ → CallState → CallState
start_handler s draw c =
    if is_dropped s.reliable draw
    then record c { progress = finished failure }
    else record c { progress = waiting s; execution = running s.server }

unfoldable pub add_reply_bytes : Network → ReplyMsg → Network
add_reply_bytes rn m = record rn { bytes = (rn.bytes + length m.reply) % 2 ^ 64 }

-- The test behind the loop of `processReq`, when the handler has returned `m`.
unfoldable pub check_server : Network → Serving → ReplyMsg → Progress
unfolding is_server_dead
check_server rn s m =
    if is_server_dead rn s.endname s.servername s.server then finished failure else checked s m

-- What follows that test, with `mu` released: other goroutines may come between.
unfoldable pub finish_req : Network → Serving → ReplyMsg → ℕ → ℕ → Network × Progress
unfolding add_reply_bytes
finish_req rn s m draw delay =
    if is_dropped s.reliable draw
    then (rn, finished failure)
    else if s.long_reordering && ltb (delay % 900) 600
    then (rn, delayed m)
    else (add_reply_bytes rn m, finished m)

-- One step of one call on the network as it is then.
pub data Moves (rn : Network) (c : CallState) : Network → CallState → Type 0 where
  processes : c.progress ≡ sent → Moves rn c rn (record c { progress = process_req rn c.request })
  expires : c.progress ≡ refused → Moves rn c rn (record c { progress = finished failure })
  starts : {s : Serving} (draw : ℕ) → c.progress ≡ served s → Moves rn c rn (start_handler s draw c)
  polls :
      {s : Serving}
      → c.progress ≡ waiting s
      → is_server_dead rn s.endname s.servername s.server ≡ true
      → Moves rn c rn (record c { progress = finished failure })
  returns :
      {s : Serving} {p : ℕ} {b : Bytes}
      → c.progress ≡ waiting s
      → c.execution ≡ returned p b
      → Moves rn c rn (record c { progress = check_server rn s (record { ok = true; reply = b }) })
  replies :
      {s : Serving} {m : ReplyMsg} {rn' : Network} {next : Progress} (draw delay : ℕ)
      → c.progress ≡ checked s m
      → finish_req rn s m draw delay ≡ (rn', next)
      → Moves rn c rn' (record c { progress = next })
  answers :
      {m : ReplyMsg}
      → c.progress ≡ delayed m
      → Moves rn c (add_reply_bytes rn m) (record c { progress = finished m })
