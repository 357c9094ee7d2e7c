-- ===== src/Labrpc/Network.antt =====
-- src/labrpc/labrpc.go: Network and its settings. Names of ends and servers are numbers, and so are the
-- pointers to servers; `none` is nil. The counters are the bits of an int32 and of an int64.
use mit_distributed_systems.Prelude.{
  ℕ, Bool, true, false, ◌||◌, not, Option, none, some, ◌==◌, update, if◌then◌else◌, ◌>>=◌,
}

pub record Network : Type 0 where
  pub reliable : Bool
  pub long_delays : Bool
  pub long_reordering : Bool
  pub ends : ℕ → Bool
  pub enabled : ℕ → Bool
  pub servers : ℕ → Option ℕ
  pub connections : ℕ → Option ℕ
  pub count : ℕ
  pub bytes : ℕ
  pub closed : Bool

unfoldable pub make_network : Network
make_network = record {
  reliable = true;
  long_delays = false;
  long_reordering = false;
  ends = λ e. false;
  enabled = λ e. false;
  servers = λ n. none;
  connections = λ e. none;
  count = 0;
  bytes = 0;
  closed = false;
}

-- Closing a closed channel panics.
unfoldable pub cleanup : Network → Option Network
cleanup rn = if rn.closed then none else some (record rn { closed = true })

-- It is fatal if the end exists.
unfoldable pub make_end : Network → ℕ → Option Network
make_end rn endname =
    if rn.ends endname
    then none
    else some (record rn {
      ends = update rn.ends endname true;
      enabled = update rn.enabled endname false;
      connections = update rn.connections endname none;
    })

-- It is fatal if the end does not exist.
unfoldable pub delete_end : Network → ℕ → Option Network
delete_end rn endname =
    if rn.ends endname
    then some (record rn {
      ends = update rn.ends endname false;
      enabled = update rn.enabled endname false;
      connections = update rn.connections endname none;
    })
    else none

unfoldable pub add_server : Network → ℕ → ℕ → Network
add_server rn servername rs = record rn { servers = update rn.servers servername (some rs) }

unfoldable pub delete_server : Network → ℕ → Network
delete_server rn servername = record rn { servers = update rn.servers servername none }

unfoldable pub connect : Network → ℕ → ℕ → Network
connect rn endname servername = record rn {
  connections = update rn.connections endname (some servername);
}

unfoldable pub enable : Network → ℕ → Bool → Network
enable rn endname enabled = record rn { enabled = update rn.enabled endname enabled }

unfoldable pub set_reliable : Network → Bool → Network
set_reliable rn value = record rn { reliable = value }

unfoldable pub set_long_reordering : Network → Bool → Network
set_long_reordering rn value = record rn { long_reordering = value }

unfoldable pub set_long_delays : Network → Bool → Network
set_long_delays rn value = record rn { long_delays = value }

pub record EndInfo : Type 0 where
  pub enabled : Bool
  pub servername : Option ℕ
  pub server : Option ℕ
  pub reliable : Bool
  pub long_reordering : Bool

unfoldable pub read_endname_info : Network → ℕ → EndInfo
read_endname_info rn endname = record {
  enabled = rn.enabled endname;
  servername = rn.connections endname;
  server = rn.connections endname >>= rn.servers;
  reliable = rn.reliable;
  long_reordering = rn.long_reordering;
}

-- `rn.servers[servername] != server`, for a server that is not nil.
abbrev pub is_server : Option ℕ → ℕ → Bool
is_server none server = false
is_server (some p) server = p == server

unfoldable pub is_server_dead : Network → ℕ → ℕ → ℕ → Bool
is_server_dead rn endname servername server =
    not (rn.enabled endname) || not (is_server (rn.servers servername) server)

unfoldable pub get_total_count : Network → ℕ
get_total_count rn = rn.count

unfoldable pub get_total_bytes : Network → ℕ
get_total_bytes rn = rn.bytes
