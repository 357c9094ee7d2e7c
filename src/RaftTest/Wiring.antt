-- ===== src/RaftTest/Wiring.antt =====
-- src/raft/config.go: which servers of a test can reach each other.
use mit_distributed_systems.Prelude.{
  ℕ, zero, suc, ◌<◌, ◌≡◌, ◌≢◌, ◌⊎◌, refl, sym, ap, ◌∙◌, subst, Bool, true, ◌&&◌, Option, some,
  if◌then◌else◌, ◌>>=◌, ◌==◌, ==_iff, Bool-cases, inl, inr, arith, dec_lt,
}
use mit_distributed_systems.Labrpc.Network.{Network, enable}
use mit_distributed_systems.RaftTest.Cluster.{Config, each}

-- The ends that pass the test are set.
unfoldable pub set_where : (ℕ → Bool) → (ℕ → ℕ) → Bool → ℕ → Network → Network
set_where cond g b zero rn = rn
set_where cond g b (suc k) rn =
    let rest = set_where cond g b k rn in if cond k then enable rest (g k) b else rest

pub each-set_where :
    (cond : ℕ → Bool) (g : ℕ → ℕ) (b : Bool) (body : ℕ → Network → Option Network) (k : ℕ)
    (rn : Network)
    → ((j : ℕ) (r : Network) → j < k → body j r ≡ some (if cond j then enable r (g j) b else r))
    → each k body rn ≡ some (set_where cond g b k rn)
unfolding each set_where
each-set_where cond g b body zero rn h = refl
each-set_where cond g b body (suc k) rn h =
    ap (λ o. o >>= body k) (each-set_where cond g b body k rn (λ j r lt. h j r (omega (arith, lt))))
    ∙ h k (set_where cond g b k rn) (omega arith)

-- An end is set by some round, or left alone by all.
record Hit (cond : ℕ → Bool) (g : ℕ → ℕ) (k e : ℕ) : Type 0 where
  index : ℕ
  below : index < k
  passes : cond index ≡ true
  names : e ≡ g index

Misses : (ℕ → Bool) → (ℕ → ℕ) → ℕ → ℕ → Type 0
Misses cond g k e = (j : ℕ) → j < k → cond j ≡ true → e ≢ g j

-- A round that leaves the end alone.
carry :
    (cond : ℕ → Bool) (g : ℕ → ℕ) (b : Bool) (k e : ℕ) (old rest now : Bool)
    → now ≡ rest
    → (cond k ≡ true → e ≢ g k)
    → (Hit cond g k e × (rest ≡ b)) ⊎ (Misses cond g k e × (rest ≡ old))
    → (Hit cond g (suc k) e × (now ≡ b)) ⊎ (Misses cond g (suc k) e × (now ≡ old))
unfolding Misses
carry cond g b k e old rest now same other (inl (hit, r)) = inl (
  record {
    index = hit.index;
    below = omega (arith, hit.below);
    passes = hit.passes;
    names = hit.names;
  },
  same ∙ r,
)
carry cond g b k e old rest now same other (inr (m, r)) = inr (
  λ j lt h. elim (dec_lt j k) [
    | yes below ↦ m j below h
    | no last ↦
        let here : k ≡ j = omega (arith, lt, last) in
        subst (λ i. cond i ≡ true → e ≢ g i) here other h
  ],
  same ∙ r,
)

set_where-cases :
    (cond : ℕ → Bool) (g : ℕ → ℕ) (b : Bool) (k : ℕ) (rn : Network) (e : ℕ)
    → (Hit cond g k e × ((set_where cond g b k rn).enabled e ≡ b))
      ⊎ (Misses cond g k e × ((set_where cond g b k rn).enabled e ≡ rn.enabled e))
unfolding set_where Misses enable
set_where-cases cond g b zero rn e = inr (λ j lt h same. absurd (omega (arith, lt)), refl)
set_where-cases cond g b (suc k) rn e =
    let rest = set_where-cases cond g b k rn e in
    elim (Bool-cases (cond k)) [
      | inr off ↦ carry cond g b k e _ _ _ (rw off refl) (λ on same. absurd cc) rest
      | inl on ↦ elim (Bool-cases (e == g k)) [
        | inl here ↦ inl (
          record { index = k; below = omega arith; passes = on; names = (==_iff e (g k)).0 here },
          rw (on, here) refl,
        )
        | inr other ↦
            carry cond g b k e _ _ _ (rw (on, other) refl)
              (λ h same. let eq = (==_iff e (g k)).1 same in absurd cc) rest
      ]
    ]

-- Nothing but the enabled ends changes.
abbrev pub with_enabled : Network → Network → Network
with_enabled rn rn' = record rn { enabled = rn'.enabled }

pub set_where-with_enabled :
    (cond : ℕ → Bool) (g : ℕ → ℕ) (b : Bool) (k : ℕ) (rn : Network)
    → set_where cond g b k rn ≡ with_enabled rn (set_where cond g b k rn)
unfolding set_where enable
set_where-with_enabled cond g b zero rn = refl
set_where-with_enabled cond g b (suc k) rn = elim (Bool-cases (cond k)) [
  | inl on ↦ rw on (ap (λ r. enable r (g k) b) (set_where-with_enabled cond g b k rn))
  | inr off ↦ rw off (set_where-with_enabled cond g b k rn)
]

-- Each server has an end for each, with a name of its own, that leads there. It is enabled exactly if
-- both servers are connected.
pub record IsWired (name : ℕ → ℕ → ℕ) (cfg : Config) : Type 0 where
  pub named : (i : ℕ) → i < cfg.n → cfg.endnames i ≡ some (name i)
  pub distinct :
      (i j k l : ℕ)
      → (i < cfg.n) × (j < cfg.n) × (k < cfg.n) × (l < cfg.n)
      → name i j ≡ name k l
      → (i ≡ k) × (j ≡ l)
  pub leads : (i j : ℕ) → i < cfg.n → j < cfg.n → cfg.net.connections (name i j) ≡ some j
  pub enabled :
      (i j : ℕ)
      → i < cfg.n
      → j < cfg.n
      → cfg.net.enabled (name i j) ≡ (cfg.connected i && cfg.connected j)

-- The two loops of `connect` and of `disconnect`.
abbrev pub relink : (ℕ → Bool) → (ℕ → ℕ → ℕ) → ℕ → Bool → ℕ → Network → Network
relink cond name i b n rn = set_where cond (λ j. name j i) b n (set_where cond (name i) b n rn)

pub relink-enabled :
    (cfg : Config) (name : ℕ → ℕ → ℕ) (v : IsWired name cfg) (cond connected : ℕ → Bool) (i : ℕ)
    (b : Bool)
    → ((a c : ℕ)
        → a < cfg.n
        → c < cfg.n
        → ((a ≡ i) × (cond c ≡ true)) ⊎ ((c ≡ i) × (cond a ≡ true))
        → (connected a && connected c) ≡ b)
    → ((a c : ℕ)
        → a < cfg.n
        → c < cfg.n
        → (a ≡ i → cond c ≢ true)
        → (c ≡ i → cond a ≢ true)
        → (connected a && connected c) ≡ (cfg.connected a && cfg.connected c))
    → i < cfg.n
    → (a c : ℕ) → a < cfg.n
    → c < cfg.n
    → (relink cond name i b cfg.n cfg.net).enabled (name a c) ≡ (connected a && connected c)
unfolding Misses
relink-enabled cfg name v cond connected i b hit miss low a c la lc =
    elim (set_where-cases cond (λ j. name j i) b cfg.n (set_where cond (name i) b cfg.n cfg.net)
      (name a c)) [
        | inl (h, r) ↦
            (let (aj, ci) = v.distinct a c h.index i (la, lc, h.below, low) h.names in
              r ∙ sym (hit a c la lc (inr (ci, ap cond aj ∙ h.passes))))
        | inr (m, r) ↦ elim (set_where-cases cond (name i) b cfg.n cfg.net (name a c)) [
          | inl (h, r') ↦
              (let (ai, cj) = v.distinct a c i h.index (la, lc, low, h.below) h.names in
                r ∙ r' ∙ sym (hit a c la lc (inl (ai, ap cond cj ∙ h.passes))))
          | inr (m', r') ↦
              r
              ∙ r'
              ∙ v.enabled a c la lc
              ∙ sym (
                  miss a c la lc (λ ai on. m' c lc on (ap (λ x. name x c) ai))
                    (λ ci on. m a la on (ap (λ x. name a x) ci)))
        ]
      ]
