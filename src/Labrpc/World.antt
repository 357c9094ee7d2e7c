-- ===== src/Labrpc/World.antt =====
-- src/labrpc/labrpc.go: the network with its servers and all the calls under way. Calls and pointers to
-- servers are numbers. The list of the handlers' executions, newest first, is the model's own record.
use mit_distributed_systems.Prelude.{
  ℕ, ◌≡◌, Bytes, List, [], ◌∷◌, Bool, true, false, Option, none, some, update, ◌==◌, if◌then◌else◌,
}
use mit_distributed_systems.Labrpc.Server.{Service, Server, add_service, dispatch, get_count}
use mit_distributed_systems.Labrpc.Network.{
  Network, make_network, cleanup, make_end, delete_end, add_server, delete_server, connect, enable,
  set_reliable, set_long_reordering, set_long_delays,
}
use mit_distributed_systems.Labrpc.Calls.{
  ReqMsg, CallState, running, returned, receive, new_call, unsent_call, Moves,
}

-- What a test may do with the network.
pub data Config : Type 0 where
  makes_end : ℕ → Config
  deletes_end : ℕ → Config
  adds_server : ℕ → ℕ → Config
  deletes_server : ℕ → Config
  connects : ℕ → ℕ → Config
  enables : ℕ → Bool → Config
  sets_reliable : Bool → Config
  sets_long_reordering : Bool → Config
  sets_long_delays : Bool → Config
  cleans_up : Config

unfoldable pub configure : Config → Network → Option Network
configure (makes_end e) rn = make_end rn e
configure (deletes_end e) rn = delete_end rn e
configure (adds_server n p) rn = some (add_server rn n p)
configure (deletes_server n) rn = some (delete_server rn n)
configure (connects e n) rn = some (connect rn e n)
configure (enables e b) rn = some (enable rn e b)
configure (sets_reliable b) rn = some (set_reliable rn b)
configure (sets_long_reordering b) rn = some (set_long_reordering rn b)
configure (sets_long_delays b) rn = some (set_long_delays rn b)
configure cleans_up rn = cleanup rn

-- A server and the state of the objects behind its services.
pub record Host (S : Type 0) : Type 0 where
  pub server : Server S
  pub state : S

pub record World (S : Type 0) : Type 0 where
  pub network : Network
  pub listening : Bool
  pub hosts : ℕ → Host S
  pub calls : ℕ → Option CallState
  pub executions : List (ℕ × (ℕ × Bytes))

module _ {S : Type 0} where
  abbrev pub set_call : World S → ℕ → CallState → World S
  set_call w id c = record w { calls = update w.calls id (some c) }

  abbrev pub start_world : (ℕ → Host S) → World S
  start_world hosts = record {
    network = make_network;
    listening = true;
    hosts = hosts;
    calls = λ id. none;
    executions = [];
  }

  -- `GetCount` of the network: a server that is not there is a nil pointer.
  unfoldable pub count_of : World S → ℕ → Option ℕ
  unfolding get_count
  count_of w servername = elim (w.network.servers servername) [
    | none ↦ none
    | some p ↦ some (get_count (w.hosts p).server)
  ]

  pub data Step : World S → World S → Type 0 where
    configures :
        {w : World S} {rn : Network} (config : Config)
        → configure config w.network ≡ some rn
        → Step w (record w { network = rn })
    stops_listening :
        {w : World S} → w.network.closed ≡ true → Step w (record w { listening = false })
    gets_service :
        {w : World S} (p : ℕ) (svc : Service S)
        → Step w (record w {
          hosts =
              update w.hosts p
                (record { server = add_service (w.hosts p).server svc; state = (w.hosts p).state });
        })
    evolves :
        {w : World S} (p : ℕ) (state : S)
        → Step w (record w {
          hosts = update w.hosts p (record { server = (w.hosts p).server; state = state });
        })
    sends :
        {w : World S} (id : ℕ) (req : ReqMsg)
        → w.calls id ≡ none
        → w.listening ≡ true
        → Step w (record w {
          network = receive w.network req;
          calls = update w.calls id (some (new_call req));
        })
    finds_closed :
        {w : World S} (id : ℕ) (req : ReqMsg)
        → w.calls id ≡ none
        → w.network.closed ≡ true
        → Step w (set_call w id (unsent_call req))
    moves :
        {w : World S} {c c' : CallState} {rn : Network} (id : ℕ)
        → w.calls id ≡ some c
        → Moves w.network c rn c'
        → Step w (record w { network = rn; calls = update w.calls id (some c') })
    executes :
        {w : World S} {c : CallState} {p : ℕ} {rs : Server S} {state : S} {b : Bytes} (id : ℕ)
        → w.calls id ≡ some c
        → c.execution ≡ running p
        → dispatch (w.hosts p).server c.request.svc_meth c.request.args (w.hosts p).state
          ≡ some (rs, (state, b))
        → Step w (record w {
          hosts = update w.hosts p (record { server = rs; state = state });
          calls = update w.calls id (some (record c { execution = returned p b }));
          executions = (id, (p, b)) ∷ w.executions;
        })

  pub data Reach (hosts : ℕ → Host S) : World S → Type 0 where
    start : Reach hosts (start_world hosts)
    later : {w w' : World S} → Reach hosts w → Step w w' → Reach hosts w'

-- The executions of one call.
unfoldable pub executions_of : ℕ → List (ℕ × (ℕ × Bytes)) → List (ℕ × Bytes)
executions_of id [] = []
executions_of id ((i, e) ∷ l) = let rest = executions_of id l in if id == i then e ∷ rest else rest
