-- ===== src/RaftTest/Cluster.antt =====
-- src/raft/config.go: how the tests cut servers off from the network and connect them again. The names
-- of ends are numbers, and `none` is a slice that is nil, or a panic.
use mit_distributed_systems.Prelude.{
  ℕ, zero, suc, Bool, true, false, Option, none, some, update, if◌then◌else◌, ◌>>=◌,
}
use mit_distributed_systems.Labrpc.Network.{Network, enable}

pub record Config : Type 0 where
  pub net : Network
  pub n : ℕ
  pub connected : ℕ → Bool
  pub endnames : ℕ → Option (ℕ → ℕ)

-- `for j := 0; j < k; j++`
unfoldable pub each : ℕ → (ℕ → Network → Option Network) → Network → Option Network
each zero body rn = some rn
each (suc k) body rn = do rn' ← each k body rn; body k rn'

unfoldable pub connect_out : Config → ℕ → ℕ → Network → Option Network
connect_out cfg i j rn =
    if cfg.connected j
    then (do names ← cfg.endnames i; some (enable rn (names j) true))
    else some rn

unfoldable pub connect_in : Config → ℕ → ℕ → Network → Option Network
connect_in cfg i j rn =
    if cfg.connected j
    then (do names ← cfg.endnames j; some (enable rn (names i) true))
    else some rn

unfoldable pub connect : Config → ℕ → Option Config
unfolding each connect_out connect_in
connect cfg i = do
  let cfg' = record cfg { connected = update cfg.connected i true }
  out ← each cfg.n (connect_out cfg' i) cfg.net
  net ← each cfg.n (connect_in cfg' i) out
  some (record cfg' { net = net })

abbrev pub disable_end : Option (ℕ → ℕ) → ℕ → Network → Option Network
disable_end none j rn = some rn
disable_end (some names) j rn = some (enable rn (names j) false)

unfoldable pub disconnect : Config → ℕ → Option Config
unfolding each
disconnect cfg i = do
  let cfg' = record cfg { connected = update cfg.connected i false }
  out ← each cfg.n (λ j. disable_end (cfg.endnames i) j) cfg.net
  net ← each cfg.n (λ j. disable_end (cfg.endnames j) i) out
  some (record cfg' { net = net })
