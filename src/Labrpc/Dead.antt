-- ===== src/Labrpc/Dead.antt =====
-- src/labrpc/labrpc.go: calls that a server is handling while the server is taken off the network.
use mit_distributed_systems.Prelude.{
  ℕ, ◌≡◌, ◌≢◌, refl, sym, ap, ◌∙◌, subst, true, false, Option, none, some, ==_iff, Bool-cases, inl,
  inr, ◌⊎◌, ◌==◌,
}
use mit_distributed_systems.Labrpc.Network.{Network, is_server, is_server_dead}
use mit_distributed_systems.Labrpc.Calls.{
  ReplyMsg, failure, Serving, CallState, Progress, served, waiting, finished, returned, new_call,
  unsent_call, start_handler, is_dropped, check_server, Moves, processes, expires, starts, polls,
  returns, replies, checked, answers, sent, refused, delayed,
}
use mit_distributed_systems.Labrpc.World.{
  World, Step, configures, stops_listening, gets_service, evolves, sends, finds_closed, moves,
  executes,
}
use mit_distributed_systems.Labrpc.Account.{update-one}

-- No name leads to server `p`: `DeleteServer` was called for its names.
abbrev pub IsUnlinked : ℕ → Network → Type 0
IsUnlinked p rn = (n : ℕ) → rn.servers n ≢ some p

-- A call that `p` serves, or one that has failed.
unfoldable pub Doomed : ℕ → Progress → Type 0
Doomed p sent = ⊥
Doomed p refused = ⊥
Doomed p (served s) = s.server ≡ p
Doomed p (waiting s) = s.server ≡ p
Doomed p (checked s m) = ⊥
Doomed p (delayed m) = ⊥
Doomed p (finished m) = m ≡ failure

is_server-unlinked : (o : Option ℕ) (p : ℕ) → o ≢ some p → is_server o p ≡ false
is_server-unlinked none p h = refl
is_server-unlinked (some q) p h = elim (Bool-cases (q == p)) [
  | inl same ↦ absurd (h (ap some ((==_iff q p).0 same)))
  | inr other ↦ other
]

unlinked-dead :
    (rn : Network) (s : Serving) (p : ℕ)
    → IsUnlinked p rn
    → s.server ≡ p
    → is_server_dead rn s.endname s.servername s.server ≡ true
unfolding is_server_dead
unlinked-dead rn s p h e = elim (Bool-cases (rn.enabled s.endname)) [
  | inl on ↦ rw (on, e, is_server-unlinked (rn.servers s.servername) p (h s.servername)) refl
  | inr off ↦ rw off refl
]

start_handler-Doomed :
    (s : Serving) (draw : ℕ) (c : CallState) (p : ℕ)
    → s.server ≡ p
    → Doomed p (start_handler s draw c).progress
unfolding start_handler Doomed
start_handler-Doomed s draw c p e = elim (Bool-cases (is_dropped s.reliable draw)) [
  | inl d ↦ rw d refl
  | inr d ↦ rw d e
]

-- The test behind the loop of `processReq` comes after the server was taken off.
check_server-dead :
    (rn : Network) (s : Serving) (m : ReplyMsg)
    → is_server_dead rn s.endname s.servername s.server ≡ true
    → check_server rn s m ≡ finished failure
unfolding check_server
check_server-dead rn s m dead = rw dead refl

Moves-Doomed :
    {rn rn' : Network} {c c' : CallState} (p : ℕ)
    → Moves rn c rn' c'
    → IsUnlinked p rn
    → Doomed p c.progress
    → Doomed p c'.progress
unfolding Doomed
Moves-Doomed p (processes h) u v = absurd (subst (Doomed p) h v)
Moves-Doomed p (expires h) u v = refl
Moves-Doomed {c = c} p (starts {s} draw h) u v =
    start_handler-Doomed s draw c p (subst (Doomed p) h v)
Moves-Doomed p (polls h dead) u v = refl
Moves-Doomed {rn = rn} p (returns {s} {b = b} h x) u v =
    subst (Doomed p)
      (sym (
        check_server-dead rn s (record { ok = true; reply = b })
          (unlinked-dead rn s p u (subst (Doomed p) h v))))
      refl
Moves-Doomed p (replies draw delay h e) u v = absurd (subst (Doomed p) h v)
Moves-Doomed p (answers h) u v = absurd (subst (Doomed p) h v)

given-Doomed :
    (q : Progress) (p : ℕ) (s : Serving)
    → (q ≡ served s) ⊎ (q ≡ waiting s)
    → s.server ≡ p
    → Doomed p q
unfolding Doomed
given-Doomed q p s (inl h) e = subst (Doomed p) (sym h) e
given-Doomed q p s (inr h) e = subst (Doomed p) (sym h) e

IsDoomed : ℕ → Option CallState → Type 0
IsDoomed p none = ⊥
IsDoomed p (some c) = Doomed p c.progress

module _ {S : Type 0} where
  -- Steps, each from a world where `p` is off the network.
  pub data Without (p : ℕ) : World S → World S → Type 0 where
    here : {w : World S} → Without p w w
    step :
        {w w' w'' : World S}
        → Without p w w'
        → IsUnlinked p w'.network
        → Step w' w''
        → Without p w w''

  Step-IsDoomed :
      {w w' : World S} (p id : ℕ)
      → Step w w'
      → IsUnlinked p w.network
      → IsDoomed p (w.calls id)
      → IsDoomed p (w'.calls id)
  unfolding IsDoomed
  Step-IsDoomed p id (configures config h) u v = v
  Step-IsDoomed p id (stops_listening h) u v = v
  Step-IsDoomed p id (gets_service q svc) u v = v
  Step-IsDoomed p id (evolves q state) u v = v
  Step-IsDoomed {w = w} p id (sends k req fresh h) u v =
      update-one (IsDoomed p) w.calls k (some (new_call req)) id
        (λ e. absurd (subst (IsDoomed p) (ap w.calls e ∙ fresh) v)) v
  Step-IsDoomed {w = w} p id (finds_closed k req fresh h) u v =
      update-one (IsDoomed p) w.calls k (some (unsent_call req)) id
        (λ e. absurd (subst (IsDoomed p) (ap w.calls e ∙ fresh) v)) v
  Step-IsDoomed {w = w} p id (moves {c' = c'} k at m) u v =
      update-one (IsDoomed p) w.calls k (some c') id
        (λ e. Moves-Doomed p m u (subst (IsDoomed p) (ap w.calls e ∙ at) v)) v
  Step-IsDoomed {w = w} p id (executes {c = c} {p = q} {b = b} k at x h) u v =
      update-one (IsDoomed p) w.calls k (some (record c { execution = returned q b })) id
        (λ e. subst (IsDoomed p) (ap w.calls e ∙ at) v) v

  Without-IsDoomed :
      (p id : ℕ) {w w' : World S}
      → Without p w w'
      → IsDoomed p (w.calls id)
      → IsDoomed p (w'.calls id)
  Without-IsDoomed p id here v = v
  Without-IsDoomed p id (step ws u s) v = Step-IsDoomed p id s u (Without-IsDoomed p id ws v)

  -- Once a server is off the network, and while it stays off, a call that it had been given never
  -- gets a positive reply, if processReq has not yet passed its last test of the server: the handler
  -- may not have started, may run or may have returned. A reply behind that test is not meant: it is
  -- still sent, also after a delay.
  pub dead_server_silent :
      {w w' : World S} (p id : ℕ) (c c' : CallState) (s : Serving) (m : ReplyMsg)
      → Without p w w'
      → w.calls id ≡ some c
      → (c.progress ≡ served s) ⊎ (c.progress ≡ waiting s)
      → s.server ≡ p
      → w'.calls id ≡ some c'
      → c'.progress ≡ finished m
      → m ≡ failure
  unfolding IsDoomed Doomed
  dead_server_silent {w} p id c c' s m run at at_server e at' end =
      let v = given-Doomed c.progress p s at_server e in
      let v' = Without-IsDoomed p id run (subst (IsDoomed p) (sym at) v) in
      subst (Doomed p) end (subst (IsDoomed p) at' v')
