-- ===== src/RaftTest/Examples.antt =====
-- src/raft/config.go: two servers that have applied one entry, of which one is off the network.
use mit_distributed_systems.Prelude.{
  ℕ, ◌+◌, ◌*◌, ◌%◌, ◌<◌, ◌≡◌, ◌⊎◌, refl, sym, ap, ◌∙◌, true, false, Option, none, some, update,
  if◌then◌else◌, ◌==◌, ==_iff, arith, inr, [],
}
use mit_distributed_systems.Raft.State.{ApplyMsg}
use mit_distributed_systems.Labrpc.Calls.{ReqMsg, refused, served, process_req}
use mit_distributed_systems.RaftTest.Logs.{Logs, applier, n_committed}
use mit_distributed_systems.RaftTest.Agreement.{AreAgreed, Fits, applier_detects}
use mit_distributed_systems.RaftTest.Counting.{holders, n_committed_counts}
use mit_distributed_systems.RaftTest.Cluster.{Config, connect, disconnect}
use mit_distributed_systems.RaftTest.Wiring.{IsWired}
use mit_distributed_systems.RaftTest.Linking.{serving_on, connect_serves, disconnect_cuts}

abbrev one_entry : Logs ℕ
one_entry = record { n = 2; logs = λ i k. if k == 1 then some 7 else none; max_index = 1 }

one_entry-AreAgreed : AreAgreed one_entry
one_entry-AreAgreed = record {
  same = λ i j k v w li lj h g. let e = sym h ∙ g in cc;
  no_gap = λ i k li gt h. ground (arith, gt, h);
}

abbrev second : ApplyMsg ℕ
second = record { command_valid = true; command = 9; command_index = 2 }

applier_detects_example :
    (Fits one_entry 0 second
      × ((cfg' : Logs ℕ) × (applier (λ a b. a == b) one_entry 0 second ≡ some cfg')
          × AreAgreed cfg'
          × (cfg'.logs 0 2 ≡ some 9)))
    ⊎ ((¬ (Fits one_entry 0 second)) × (applier (λ a b. a == b) one_entry 0 second ≡ none))
applier_detects_example =
    applier_detects (λ a b. a == b) ==_iff one_entry 0 second (omega arith) one_entry-AreAgreed refl

n_committed_counts_example :
    (command : Option ℕ) × (n_committed (λ a b. a == b) one_entry 1
      ≡ some (holders one_entry.logs 2 1, command))
    × ((i v : ℕ) → i < 2 → one_entry.logs i 1 ≡ some v → command ≡ some v)
n_committed_counts_example =
    n_committed_counts (λ a b. a == b) ==_iff one_entry 1 one_entry-AreAgreed

abbrev name : ℕ → ℕ → ℕ
name i j = i * 2 + j

-- Server 1 is connected.
abbrev half : Config
half = record {
  net = record {
    reliable = true;
    long_delays = true;
    long_reordering = false;
    ends = λ e. true;
    enabled = λ e. e == 3;
    servers = λ n. some (n + 5);
    connections = λ e. some (e % 2);
    count = 0;
    bytes = 0;
    closed = false;
  };
  n = 2;
  connected = λ j. j == 1;
  endnames = λ i. some (name i);
}

half-IsWired : IsWired name half
half-IsWired = record {
  named = λ i lt. refl;
  distinct = λ i j k l (li, lj, lk, ll) h. (omega (arith, h, lj, ll), omega (arith, h, lj, ll));
  leads = λ i j li lj. ap some (omega (arith, lj));
  enabled = λ i j li lj. ground (arith, li, lj);
}

abbrev to_one : ReqMsg
to_one = record { endname = 1; svc_meth = []; args = [] }

connect_serves_example :
    (cfg' : Config) × (connect half 0 ≡ some cfg')
    × IsWired name cfg'
    × (cfg'.connected ≡ update half.connected 0 true)
    × (process_req cfg'.net to_one ≡ served (serving_on half.net 1 1 6))
connect_serves_example =
    connect_serves half name half-IsWired 0 1 6 to_one (omega arith) (omega arith) refl refl refl

disconnect_cuts_example :
    (cfg' : Config) × (disconnect half 1 ≡ some cfg')
    × IsWired name cfg'
    × (cfg'.connected ≡ update half.connected 1 false)
    × (process_req cfg'.net to_one ≡ refused)
disconnect_cuts_example =
    disconnect_cuts half name half-IsWired 1 0 to_one (omega arith) (omega arith) (inr refl)
