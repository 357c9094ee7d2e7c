-- ===== src/RaftTest/Linking.antt =====
-- src/raft/config.go: connect and disconnect, and what the network then does with requests.
use mit_distributed_systems.Prelude.{
  ℕ, ◌<◌, ◌≡◌, ◌≢◌, ◌⊎◌, refl, sym, ap, ◌∙◌, subst, Bool, true, false, ◌&&◌, some, update, ◌>>=◌,
  Bool-cases, inl, inr, arith,
}
use mit_distributed_systems.Labrpc.Network.{Network, read_endname_info}
use mit_distributed_systems.Labrpc.Calls.{ReqMsg, Serving, refused, served, process_req}
use mit_distributed_systems.RaftTest.Cluster.{
  Config, connect_out, connect_in, connect, disable_end, disconnect,
}
use mit_distributed_systems.RaftTest.Wiring.{
  IsWired, set_where, relink, relink-enabled, each-set_where, set_where-with_enabled, with_enabled,
}

-- The test after server `i` was connected or disconnected.
abbrev pub relinked : Config → (ℕ → ℕ → ℕ) → (ℕ → Bool) → ℕ → Bool → Config
relinked cfg name cond i b = record cfg {
  connected = update cfg.connected i b;
  net = relink cond name i b cfg.n cfg.net;
}

relink-with_enabled :
    (cond : ℕ → Bool) (name : ℕ → ℕ → ℕ) (i : ℕ) (b : Bool) (n : ℕ) (rn : Network)
    → relink cond name i b n rn ≡ with_enabled rn (relink cond name i b n rn)
relink-with_enabled cond name i b n rn =
    let out = set_where cond (name i) b n rn in
    set_where-with_enabled cond (λ j. name j i) b n out
    ∙ ap (λ r. with_enabled r (relink cond name i b n rn))
        (set_where-with_enabled cond (name i) b n rn)

relinked-IsWired :
    (cfg : Config) (name : ℕ → ℕ → ℕ) (v : IsWired name cfg) (cond : ℕ → Bool) (i : ℕ) (b : Bool)
    → ((a c : ℕ)
        → ((a ≡ i) × (cond c ≡ true)) ⊎ ((c ≡ i) × (cond a ≡ true))
        → (update cfg.connected i b a && update cfg.connected i b c) ≡ b)
    → ((a c : ℕ)
        → (a ≡ i → cond c ≢ true)
        → (c ≡ i → cond a ≢ true)
        → (update cfg.connected i b a && update cfg.connected i b c)
          ≡ (cfg.connected a && cfg.connected c))
    → i < cfg.n
    → IsWired name (relinked cfg name cond i b)
relinked-IsWired cfg name v cond i b hit miss low = record {
  named = v.named;
  distinct = v.distinct;
  leads = λ a c la lc.
      ap (λ r. r.connections (name a c)) (relink-with_enabled cond name i b cfg.n cfg.net)
      ∙ v.leads a c la lc;
  enabled =
      relink-enabled cfg name v cond (update cfg.connected i b) i b (λ a c la lc. hit a c)
        (λ a c la lc. miss a c) low;
}

connect_is :
    (cfg : Config) (name : ℕ → ℕ → ℕ) (v : IsWired name cfg) (i : ℕ)
    → i < cfg.n
    → connect cfg i ≡ some (relinked cfg name (update cfg.connected i true) i true)
unfolding connect connect_out connect_in
connect_is cfg name v i low =
    let cond = update cfg.connected i true in
    let cfg' : Config = record cfg { connected = cond } in
    let out = each-set_where cond (name i) true (connect_out cfg' i) cfg.n cfg.net (λ j r lt.
      elim (Bool-cases (cond j)) [
        | inl on ↦ rw (on, v.named i low, ◌>>=◌) refl
        | inr off ↦ rw off refl
      ]) in
    let back =
      each-set_where cond (λ j. name j i) true (connect_in cfg' i) cfg.n
        (set_where cond (name i) true cfg.n cfg.net)
        (λ j r lt. elim (Bool-cases (cond j)) [
          | inl on ↦ rw (on, v.named j lt, ◌>>=◌) refl
          | inr off ↦ rw off refl
        ]) in
    rw (out, ◌>>=◌, back) refl

disconnect_is :
    (cfg : Config) (name : ℕ → ℕ → ℕ) (v : IsWired name cfg) (i : ℕ)
    → i < cfg.n
    → disconnect cfg i ≡ some (relinked cfg name (λ j. true) i false)
unfolding disconnect
disconnect_is cfg name v i low =
    let out =
      each-set_where (λ j. true) (name i) false (λ j. disable_end (cfg.endnames i) j) cfg.n cfg.net
        (λ j r lt. rw (v.named i low) refl) in
    let back =
      each-set_where (λ j. true) (λ j. name j i) false (λ j. disable_end (cfg.endnames j) i) cfg.n
        (set_where (λ j. true) (name i) false cfg.n cfg.net) (λ j r lt. rw (v.named j lt) refl) in
    rw (out, ◌>>=◌, back) refl

connected_IsWired :
    (cfg : Config) (name : ℕ → ℕ → ℕ) (v : IsWired name cfg) (i : ℕ)
    → i < cfg.n
    → IsWired name (relinked cfg name (update cfg.connected i true) i true)
connected_IsWired cfg name v i low =
    relinked-IsWired cfg name v (update cfg.connected i true) i true
      (λ a c h. elim h [ inl (e, f) ↦ ground (arith, e, f) | inr (e, f) ↦ ground (arith, e, f) ])
      (λ a c h k. ground (arith, h, k)) low

disconnected_IsWired :
    (cfg : Config) (name : ℕ → ℕ → ℕ) (v : IsWired name cfg) (i : ℕ)
    → i < cfg.n
    → IsWired name (relinked cfg name (λ j. true) i false)
disconnected_IsWired cfg name v i low =
    relinked-IsWired cfg name v (λ j. true) i false
      (λ a c h. elim h [ inl (e, f) ↦ ground (arith, e, f) | inr (e, f) ↦ ground (arith, e, f) ])
      (λ a c h k. ground (arith, h, k)) low

-- A request through a disabled end gets no server, one through an enabled end that leads to a server
-- gets this server.
disabled-refused :
    (rn : Network) (req : ReqMsg) (e : ℕ)
    → req.endname ≡ e
    → rn.enabled e ≡ false
    → process_req rn req ≡ refused
unfolding process_req read_endname_info
disabled-refused rn req e at off = rw (at, off) refl

abbrev pub serving_on : Network → ℕ → ℕ → ℕ → Serving
serving_on rn e n p = record {
  endname = e;
  servername = n;
  server = p;
  reliable = rn.reliable;
  long_reordering = rn.long_reordering;
}

enabled-served :
    (rn : Network) (req : ReqMsg) (e n p : ℕ)
    → req.endname ≡ e
    → rn.enabled e ≡ true
    → rn.connections e ≡ some n
    → rn.servers n ≡ some p
    → process_req rn req ≡ served (serving_on rn e n p)
unfolding process_req read_endname_info
enabled-served rn req e n p at on leads linked = rw (at, on, leads, ◌>>=◌, linked) refl

-- If an end is enabled exactly when both of its servers are connected, `connect` does not panic, and
-- the ends are so again. A request from the server to another one that is connected and that the
-- network has is then given to that one.
pub connect_serves :
    (cfg : Config) (name : ℕ → ℕ → ℕ) (v : IsWired name cfg) (i j p : ℕ) (req : ReqMsg)
    → i < cfg.n
    → j < cfg.n
    → cfg.connected j ≡ true
    → cfg.net.servers j ≡ some p
    → req.endname ≡ name i j
    → (cfg' : Config) × (connect cfg i ≡ some cfg')
      × IsWired name cfg'
      × (cfg'.connected ≡ update cfg.connected i true)
      × (process_req cfg'.net req ≡ served (serving_on cfg.net (name i j) j p))
connect_serves cfg name v i j p req low lj on linked at =
    let cond = update cfg.connected i true in
    let cfg' = relinked cfg name cond i true in
    let v' = connected_IsWired cfg name v i low in
    let rest = relink-with_enabled cond name i true cfg.n cfg.net in
    let enabled : cfg'.net.enabled (name i j) ≡ true = v'.enabled i j low lj ∙ ground (arith, on) in
    (
      cfg',
      connect_is cfg name v i low,
      v',
      refl,
      subst (λ r. process_req r req ≡ served (serving_on cfg.net (name i j) j p)) (sym rest)
          (enabled-served (with_enabled cfg.net cfg'.net) req (name i j) j p at enabled
            (v.leads i j low lj) linked),
    )

-- If an end is enabled exactly when both of its servers are connected, `disconnect` does not panic, and
-- the ends are so again. A request from the server or to it is then given to no server.
pub disconnect_cuts :
    (cfg : Config) (name : ℕ → ℕ → ℕ) (v : IsWired name cfg) (i j : ℕ) (req : ReqMsg)
    → i < cfg.n
    → j < cfg.n
    → (req.endname ≡ name i j) ⊎ (req.endname ≡ name j i)
    → (cfg' : Config) × (disconnect cfg i ≡ some cfg')
      × IsWired name cfg'
      × (cfg'.connected ≡ update cfg.connected i false)
      × (process_req cfg'.net req ≡ refused)
disconnect_cuts cfg name v i j req low lj at =
    let cfg' = relinked cfg name (λ k. true) i false in
    let v' = disconnected_IsWired cfg name v i low in
    (
      cfg',
      disconnect_is cfg name v i low,
      v',
      refl,
      elim at [
        | inl out ↦
            disabled-refused cfg'.net req (name i j) out (v'.enabled i j low lj ∙ ground arith)
        | inr back ↦
            disabled-refused cfg'.net req (name j i) back (v'.enabled j i lj low ∙ ground arith)
      ],
    )
