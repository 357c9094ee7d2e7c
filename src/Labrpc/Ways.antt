-- ===== src/Labrpc/Ways.antt =====
-- src/labrpc/labrpc.go: the steps that a call and its handler make on their own.
use mit_distributed_systems.Prelude.{ℕ, ◌≡◌, refl, some, update, ==_iff}
use mit_distributed_systems.Labrpc.Network.{Network}
use mit_distributed_systems.Labrpc.Calls.{ReplyMsg, CallState, finished, Moves}
use mit_distributed_systems.Labrpc.World.{
  configures, stops_listening, gets_service, evolves, sends, finds_closed, World, Step, moves,
  executes,
}

pub update_self : {A : Type 0} (m : ℕ → A) (k : ℕ) (v : A) → update m k v k ≡ v
update_self m k v = rw ((==_iff k k).1 refl) refl

module _ {S : Type 0} where
  -- A step of the call itself or of its handler.
  unfoldable pub IsOwn : ℕ → {w w' : World S} → Step w w' → Type 0
  IsOwn id (configures config h) = ⊥
  IsOwn id (stops_listening h) = ⊥
  IsOwn id (gets_service p svc) = ⊥
  IsOwn id (evolves p state) = ⊥
  IsOwn id (sends k req fresh h) = ⊥
  IsOwn id (finds_closed k req fresh h) = ⊥
  IsOwn id (moves k at m) = k ≡ id
  IsOwn id (executes k at x h) = k ≡ id

  pub data Steps (id : ℕ) : World S → World S → Type 0 where
    stay : {w : World S} → Steps id w w
    go : {w w' w'' : World S} (s : Step w w') → IsOwn id s → Steps id w' w'' → Steps id w w''

  -- Steps lead from `w` to a world where the call has ended.
  pub record Ends (id : ℕ) (w : World S) : Type 0 where
    pub world : World S
    pub call : CallState
    pub message : ReplyMsg
    pub steps : Steps id w world
    pub at : world.calls id ≡ some call
    pub ended : call.progress ≡ finished message

  pub Step-Ends : {w w' : World S} (id : ℕ) (s : Step w w') → IsOwn id s → Ends id w' → Ends id w
  Step-Ends id s own v = record {
    world = v.world;
    call = v.call;
    message = v.message;
    steps = go s own v.steps;
    at = v.at;
    ended = v.ended;
  }

  pub finished-Ends :
      (w : World S) (id : ℕ) (c : CallState) (m : ReplyMsg)
      → w.calls id ≡ some c
      → c.progress ≡ finished m
      → Ends id w
  finished-Ends w id c m at h = record {
    world = w;
    call = c;
    message = m;
    steps = stay;
    at = at;
    ended = h;
  }

  -- A step of the call, and then to its end.
  pub move-Ends :
      (w : World S) (id : ℕ) (c c' : CallState) (rn : Network)
      → w.calls id ≡ some c
      → Moves w.network c rn c'
      → Ends id (record w { network = rn; calls = update w.calls id (some c') })
      → Ends id w
  unfolding IsOwn
  move-Ends w id c c' rn at m v = Step-Ends id (moves id at m) refl v

  -- A step of the call to its end.
  pub last-Ends :
      (w : World S) (id : ℕ) (c c' : CallState) (rn : Network) (m : ReplyMsg)
      → w.calls id ≡ some c
      → Moves w.network c rn c'
      → c'.progress ≡ finished m
      → Ends id w
  last-Ends w id c c' rn m at move h =
      move-Ends w id c c' rn at move (finished-Ends _ id c' m (update_self w.calls id (some c')) h)
