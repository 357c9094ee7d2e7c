-- ===== src/KvServer/Duplicates.antt =====
-- src/kvsrv: what the duplicate table does for a clerk that retries, and for whom it does nothing.
use mit_distributed_systems.Prelude.{
  ap, bytes_eq_refl, append_assoc, bytes_eq, ◌==◌, sym, Bool-cases, none, inr, inl, Option-cases, ℕ,
  ◌≡◌, ◌≢◌, refl, ◌∙◌, pos, ==ℤ_iff, ==_iff, Bytes, List, [], ◌∷◌, ◌++◌, some, Bool, true, false,
  ◌&&◌, ◌||◌, if◌then◌else◌, arith, append-nil,
}
use mit_distributed_systems.KvServer.Server.{
  start_kv_server, KvServer, DupTable, PutAppendArgs, Request, get_request, put_request,
  append_request, client_of, get, put, append, handle, run,
}
use mit_distributed_systems.KvServer.Clerk.{Attempt, call, retry}

-- Requests of clients other than `c`.
abbrev pub Others : ℕ → List Request → Type 0
Others c [] = Unit {0}
Others c (r ∷ rs) = (client_of r ≢ c) × Others c rs

abbrev pub OthersIn : ℕ → List Attempt → Type 0
OthersIn c [] = Unit {0}
OthersIn c (a ∷ attempts) = Others c a.others × OthersIn c attempts

-- Whether an attempt gets a reply, and the requests that come before that.
abbrev pub delivered : List Attempt → Bool
delivered [] = false
delivered (a ∷ attempts) = a.arrives && a.answered || delivered attempts

abbrev pub seen : List Attempt → List Request
seen [] = []
seen (a ∷ attempts) = a.others ++ (if a.arrives && a.answered then [] else seen attempts)

handle-client_table :
    (kv : KvServer) (r : Request) (c : ℕ)
    → client_of r ≢ c
    → (handle kv r).0.client_table c ≡ kv.client_table c
unfolding handle get put append
handle-client_table kv (get_request args) c h = ground (arith, ==_iff c args.client_id)
handle-client_table kv (put_request args) c h = ground (arith, ==_iff c args.client_id)
handle-client_table kv (append_request args) c h = ground (arith, ==_iff c args.client_id)

run-client_table :
    (kv : KvServer) (rs : List Request) (c : ℕ)
    → Others c rs
    → (run kv rs).client_table c ≡ kv.client_table c
unfolding run
run-client_table kv [] c h = refl
run-client_table kv (r ∷ rs) c h =
    run-client_table (handle kv r).0 rs c h.1 ∙ handle-client_table kv r c h.0

run-append : (kv : KvServer) (xs ys : List Request) → run kv (xs ++ ys) ≡ run (run kv xs) ys
unfolding run
run-append kv [] ys = refl
run-append kv (x ∷ xs) ys = run-append (handle kv x).0 xs ys

-- The client's last call had another number.
abbrev pub IsFresh : KvServer → ℕ → ℕ → Type 0
IsFresh kv c n = (dt : DupTable) → kv.client_table c ≡ some dt → dt.seq ≢ pos n

pub append_once :
    (kv : KvServer) (args : PutAppendArgs)
    → IsFresh kv args.client_id args.seq_num
    → ((handle kv (append_request args)).1 ≡ kv.contents args.key)
      × ((handle kv (append_request args)).0.client_table args.client_id
          ≡ some (record { seq = pos args.seq_num; value = kv.contents args.key }))
unfolding handle append
append_once kv args h = elim (Option-cases (kv.client_table args.client_id)) [
  | inl e ↦ ground arith
  | inr (dt, e) ↦ ground (arith, h dt e, ==ℤ_iff dt.seq (pos args.seq_num))
]

append_duplicate :
    (kv : KvServer) (args : PutAppendArgs) (v : Bytes)
    → kv.client_table args.client_id ≡ some (record { seq = pos args.seq_num; value = v })
    → handle kv (append_request args) ≡ (kv, v)
unfolding handle append
append_duplicate kv args v h = ground arith

-- Once executed, the call changes nothing more, and its reply is the recorded one.
retry_executed :
    (kv : KvServer) (args : PutAppendArgs) (v : Bytes) (attempts : List Attempt)
    → kv.client_table args.client_id ≡ some (record { seq = pos args.seq_num; value = v })
    → OthersIn args.client_id attempts
    → delivered attempts ≡ true
    → retry kv (append_request args) attempts ≡ (run kv (seen attempts), some v)
unfolding retry call
retry_executed kv args v [] h o d = cc
retry_executed kv args v (a ∷ attempts) h o d =
    let kept : (run kv a.others).client_table args.client_id
        ≡ some (record { seq = pos args.seq_num; value = v }) =
      run-client_table kv a.others args.client_id o.0 ∙ h in
    ground (
      arith,
      append_duplicate (run kv a.others) args v kept,
      retry_executed (run kv a.others) args v attempts kept o.1,
      run-append kv a.others (seen attempts),
      append-nil a.others,
    )

-- The requests of others before and after the one execution of the call.
pub record ExactlyOnce (kv : KvServer) (args : PutAppendArgs) (attempts : List Attempt)
    : Type 0 where
  pub before : List Request
  pub after : List Request
  pub all : before ++ after ≡ seen attempts
  pub result : retry kv (append_request args) attempts ≡ (
    run (handle (run kv before) (append_request args)).0 after,
    some ((run kv before).contents args.key),
  )

run-IsFresh :
    (kv : KvServer) (rs : List Request) (c n : ℕ)
    → Others c rs
    → IsFresh kv c n
    → IsFresh (run kv rs) c n
run-IsFresh kv rs c n o h dt e = h dt (sym (run-client_table kv rs c o) ∙ e)

-- A clerk's Append with a sequence number other than that of its last call, tried until a reply comes,
-- with requests of other clients before each try: the server executes it once, at some point between
-- those requests, the duplicates change nothing, and the reply is the value before that execution.
pub retry-ExactlyOnce :
    (kv : KvServer) (args : PutAppendArgs) (attempts : List Attempt)
    → IsFresh kv args.client_id args.seq_num
    → OthersIn args.client_id attempts
    → delivered attempts ≡ true
    → ExactlyOnce kv args attempts
unfolding retry call
retry-ExactlyOnce kv args [] h o d = cc
retry-ExactlyOnce kv args (a ∷ attempts) h o d =
    let kv' = run kv a.others in
    let fresh = run-IsFresh kv a.others args.client_id args.seq_num o.0 h in
    let (reply, entry) = append_once kv' args fresh in
    elim (Bool-cases a.arrives) [
      | inr lost ↦
          let later = retry-ExactlyOnce kv' args attempts fresh o.1 (ground arith) in
          record {
            before = a.others ++ later.before;
            after = later.after;
            all = ground (arith, append_assoc a.others later.before later.after, later.all);
            result = ground (arith, later.result, run-append kv a.others later.before);
          }
      | inl here ↦ elim (Bool-cases a.answered) [
        | inl back ↦ record {
          before = a.others;
          after = [];
          all = ground arith;
          result = unfold run in ground (arith, reply);
        }
        | inr forgotten ↦ record {
          before = a.others;
          after = seen attempts;
          all = ground arith;
          result = ground (
            arith,
            reply,
            retry_executed (handle kv' (append_request args)).0 args (kv'.contents args.key)
                attempts entry o.1 (ground arith),
          );
        }
      ]
    ]

-- An executed Append adds to the value of its key and leaves the other keys.
pub append-contents :
    (kv : KvServer) (args : PutAppendArgs) (k : Bytes)
    → IsFresh kv args.client_id args.seq_num
    → (append kv args).0.contents k
      ≡ (if bytes_eq k args.key then kv.contents args.key ++ args.value else kv.contents k)
unfolding append
append-contents kv args k h = elim (Option-cases (kv.client_table args.client_id)) [
  | inl e ↦ ground arith
  | inr (dt, e) ↦ ground (arith, h dt e, ==ℤ_iff dt.seq (pos args.seq_num))
]

-- Whether a request is an Append of client `c`.
abbrev pub registers : ℕ → Request → Bool
registers c (append_request args) = args.client_id == c
registers c _ = false

abbrev pub NeverAppends : ℕ → List Request → Type 0
NeverAppends c [] = Unit {0}
NeverAppends c (r ∷ rs) = (registers c r ≡ false) × NeverAppends c rs

handle-unregistered :
    (kv : KvServer) (r : Request) (c : ℕ)
    → registers c r ≡ false
    → kv.client_table c ≡ none
    → (handle kv r).0.client_table c ≡ none
unfolding handle get put append
handle-unregistered kv (get_request args) c h e = ground (arith, ==_iff c args.client_id)
handle-unregistered kv (put_request args) c h e = ground (arith, ==_iff c args.client_id)
handle-unregistered kv (append_request args) c h e = ground (arith, ==_iff c args.client_id)

run-unregistered :
    (kv : KvServer) (rs : List Request) (c : ℕ)
    → NeverAppends c rs
    → kv.client_table c ≡ none
    → (run kv rs).client_table c ≡ none
unfolding run
run-unregistered kv [] c h e = e
run-unregistered kv (r ∷ rs) c h e =
    run-unregistered (handle kv r).0 rs c h.1 (handle-unregistered kv r c h.0 e)

-- The retry of a Put after its lost reply, with a Put of another client to the same key in between.
abbrev pub retried_put : PutAppendArgs → PutAppendArgs → List Attempt
retried_put args other =
    record { others = []; arrives = true; answered = false }
    ∷ record { others = put_request other ∷ []; arrives = true; answered = true }
    ∷ []

put_unregistered :
    (kv : KvServer) (args : PutAppendArgs)
    → kv.client_table args.client_id ≡ none
    → (handle kv (put_request args)).0.contents args.key ≡ args.value
unfolding handle put
put_unregistered kv args h = ground (arith, bytes_eq_refl args.key)

-- Two clients that have never sent an Append put to one key, whatever Gets, Puts and Appends of others
-- came before. The first one's reply is lost, the second one's Put takes effect, and then the retry
-- of the first executes again and overwrites it.
pub retried_put-overwrites :
    (rs : List Request) (args other : PutAppendArgs)
    → NeverAppends args.client_id rs
    → NeverAppends other.client_id rs
    → other.key ≡ args.key
    → let kv = run start_kv_server rs in
      ((handle (handle kv (put_request args)).0 (put_request other)).0.contents args.key
        ≡ other.value)
      × ((retry kv (put_request args) (retried_put args other)).0.contents args.key ≡ args.value)
unfolding retry call run
retried_put-overwrites rs args other h h' k =
    let kv = run start_kv_server rs in
    let start = run-unregistered start_kv_server rs in
    let kv' = (handle kv (put_request args)).0 in
    let kv'' = (handle kv' (put_request other)).0 in
    let mine =
      handle-unregistered kv (put_request args) args.client_id refl
        (start args.client_id h (unfold start_kv_server in refl)) in
    let theirs =
      handle-unregistered kv (put_request args) other.client_id refl
        (start other.client_id h' (unfold start_kv_server in refl)) in
    (
      ap kv''.contents (sym k) ∙ put_unregistered kv' other theirs,
      put_unregistered kv'' args
          (handle-unregistered kv' (put_request other) args.client_id refl mine),
    )
