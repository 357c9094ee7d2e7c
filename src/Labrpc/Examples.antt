-- ===== src/Labrpc/Examples.antt =====
-- src/labrpc/labrpc.go: a server with one service, and a call to it.
use mit_distributed_systems.Prelude.{
  ℕ, ◌+◌, ◌≡◌, refl, ◌≤◌, Bytes, List, [], ◌∷◌, true, false, none, arith, bytes_eq, some, update,
  inr, length,
}
use mit_distributed_systems.Labrpc.Server.{
  Method, Handler, Server, make_service, make_server, add_service, dispatch, add_method,
  add_methods, split_last_dot, dispatch_method,
}
use mit_distributed_systems.Labrpc.Network.{
  Network, make_network, make_end, add_server, connect, enable, read_endname_info, is_server_dead,
}
use mit_distributed_systems.Labrpc.Calls.{
  ReqMsg, ReplyMsg, failure, Serving, CallState, Progress, sent, served, waiting, finished,
  Execution, running, returned, polls, unstarted, receive, process_req, start_handler, check_server,
  finish_req, add_reply_bytes, processes, starts, returns, replies, checked,
}
use mit_distributed_systems.Labrpc.World.{
  makes_end, connects, enables, adds_server, configure, Host, World, Step, configures, sends, moves,
  executes, Reach, start, later, executions_of,
}
use mit_distributed_systems.Labrpc.Replies.{IsReplyTo, at_most_once, positive_reply}
use mit_distributed_systems.Labrpc.Dead
use mit_distributed_systems.Labrpc.Dead.{IsUnlinked, dead_server_silent}
use mit_distributed_systems.Labrpc.Reliable
use mit_distributed_systems.Labrpc.Reliable.{Delivers, Delivering, here, reliable_call_answered}
use mit_distributed_systems.Labrpc.Ways.{Ends}
use mit_distributed_systems.Labrpc.Ending.{Answerable, call-Ends}

-- A method `M` that counts its calls and gives the arguments back, and one that is no handler.
abbrev echo : Handler ℕ
echo s args = (s + 1, args)

abbrev methods : List (Method ℕ)
methods =
    record {
      name = b'M' ∷ [];
      exported = true;
      num_in = 3;
      reply_is_pointer = true;
      num_out = 0;
      function = echo;
    }
    ∷ record {
      name = b'n' ∷ [];
      exported = false;
      num_in = 3;
      reply_is_pointer = true;
      num_out = 0;
      function = echo;
    }
    ∷ []

abbrev echo_server : ℕ → Server ℕ
echo_server n = record {
  services = (b'S' ∷ [], record { name = b'S' ∷ []; methods = (b'M' ∷ [], echo) ∷ [] }) ∷ [];
  count = n;
}

echo_is_made : add_service make_server (make_service (b'S' ∷ []) methods) ≡ echo_server 0
unfolding add_service make_server make_service add_methods add_method
echo_is_made = refl

abbrev hosts : ℕ → Host ℕ
hosts p = record { server = echo_server 0; state = 0 }

abbrev request : ReqMsg
request = record { endname = 1; svc_meth = b'S' ∷ b'.' ∷ b'M' ∷ []; args = b'a' ∷ b'b' ∷ [] }

-- End 1 leads to server 3, which has the name 7.
abbrev wired : ℕ → ℕ → Network
wired count bytes = record {
  reliable = true;
  long_delays = false;
  long_reordering = false;
  ends = update (λ e. false) 1 true;
  enabled = update (update (λ e. false) 1 false) 1 true;
  servers = update (λ n. none) 7 (some 3);
  connections = update (update (λ e. none) 1 none) 1 (some 7);
  count = count;
  bytes = bytes;
  closed = false;
}

abbrev wired_world : World ℕ
wired_world = record {
  network = wired 0 0;
  listening = true;
  hosts = hosts;
  calls = λ id. none;
  executions = [];
}

wired_reach : Reach hosts wired_world
unfolding configure make_network make_end connect enable add_server
wired_reach =
    let one = later start (configures (makes_end 1) refl) in
    let two = later one (configures (connects 1 7) refl) in
    let three = later two (configures (enables 1 true) refl) in
    later three (configures (adds_server 7 3) refl)

abbrev at_server : Serving
at_server = record {
  endname = 1;
  servername = 7;
  server = 3;
  reliable = true;
  long_reordering = false;
}

abbrev reply : Bytes
reply = b'a' ∷ b'b' ∷ []

abbrev answer : ReplyMsg
answer = record { ok = true; reply = reply }

abbrev call_in : Progress → Execution → CallState
call_in q x = record { request = request; progress = q; execution = x }

-- The call is sent, given to the server, started, run and answered.
abbrev sent_world : World ℕ
sent_world = record wired_world {
  network = wired 1 2;
  calls = update (λ id. none) 0 (some (call_in sent unstarted));
}

abbrev moved : World ℕ → Progress → Execution → World ℕ
moved w q x = record w { calls = update w.calls 0 (some (call_in q x)) }

abbrev served_world : World ℕ
served_world = moved sent_world (served at_server) unstarted

abbrev started_world : World ℕ
started_world = moved served_world (waiting at_server) (running 3)

abbrev executed_world : World ℕ
executed_world = record (moved started_world (waiting at_server) (returned 3 reply)) {
  hosts = update hosts 3 (record { server = echo_server 1; state = 1 });
  executions = (0, (3, reply)) ∷ [];
}

abbrev checked_world : World ℕ
checked_world = moved executed_world (checked at_server answer) (returned 3 reply)

abbrev replied_world : World ℕ
replied_world = record (moved checked_world (finished answer) (returned 3 reply)) {
  network = wired 1 4;
}

sends_request : Step wired_world sent_world
unfolding receive
sends_request = sends 0 request refl refl

serves_request : Step sent_world served_world
unfolding process_req read_endname_info
serves_request = moves 0 refl (processes refl)

starts_handler : Step served_world started_world
unfolding start_handler
starts_handler = moves 0 refl (starts 0 refl)

executes_handler : Step started_world executed_world
unfolding dispatch split_last_dot dispatch_method bytes_eq
executes_handler = executes 0 refl refl refl

checks_server : Step executed_world checked_world
unfolding check_server is_server_dead
checks_server = moves 0 refl (returns refl refl)

replies_to_request : Step checked_world replied_world
unfolding finish_req add_reply_bytes
replies_to_request = moves 0 refl (replies 0 0 refl refl)

sent_reach : Reach hosts sent_world
sent_reach = later wired_reach sends_request

replied_reach : Reach hosts replied_world
replied_reach =
    let started = later (later sent_reach serves_request) starts_handler in
    later (later (later started executes_handler) checks_server) replies_to_request

at_most_once_example : length (executions_of 0 replied_world.executions) ≤ 1
at_most_once_example = at_most_once 0 replied_reach

positive_reply_example :
    ((p : ℕ) × (executions_of 0 replied_world.executions ≡ (p, reply) ∷ []))
    × IsReplyTo ℕ request reply
positive_reply_example =
    positive_reply 0 (call_in (finished answer) (returned 3 reply)) answer replied_reach refl refl
      refl

call-Ends_example : Ends 0 sent_world
unfolding Answerable dispatch split_last_dot dispatch_method bytes_eq
call-Ends_example = call-Ends sent_world 0 (call_in sent unstarted) sent_reach refl (λ p. (_, refl))

wired-Delivers : (count bytes : ℕ) → Delivers 1 7 3 (wired count bytes)
wired-Delivers count bytes = record {
  is_open = refl;
  reliable = refl;
  in_order = refl;
  enabled = refl;
  connected = refl;
  linked = refl;
}

delivering_run : Delivering 1 7 3 wired_world replied_world
delivering_run =
    let up = wired-Delivers in
    let one = Reliable.step here (up 0 0) sends_request in
    let two = Reliable.step one (up 1 2) serves_request in
    let three = Reliable.step two (up 1 2) starts_handler in
    let four = Reliable.step three (up 1 2) executes_handler in
    Reliable.step (Reliable.step four (up 1 2) checks_server) (up 1 2) replies_to_request

reliable_call_answered_example : answer.ok ≡ true
reliable_call_answered_example =
    reliable_call_answered 1 7 3 0 (call_in (finished answer) (returned 3 reply)) answer
      delivering_run refl refl refl refl

-- The server is taken off while it handles the call.
abbrev dead_world : World ℕ
dead_world = record started_world {
  network = record (wired 1 2) { servers = update (update (λ n. none) 7 (some 3)) 7 none };
}

abbrev failed_world : World ℕ
failed_world = moved dead_world (finished failure) (running 3)

dead-IsUnlinked : IsUnlinked 3 dead_world.network
dead-IsUnlinked n = ground arith

fails_call : Step dead_world failed_world
unfolding is_server_dead
fails_call = moves 0 refl (polls refl refl)

dead_server_silent_example : failure ≡ failure
dead_server_silent_example =
    dead_server_silent 3 0 (call_in (waiting at_server) (running 3))
      (call_in (finished failure) (running 3)) at_server failure
      (Dead.step Dead.here dead-IsUnlinked fails_call) refl (inr refl) refl refl refl
