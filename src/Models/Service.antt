-- ===== src/Models/Service.antt =====
-- src/kvsrv against src/models/kv.go: what the server executes is a run of the model, key by key.
use mit_distributed_systems.Prelude.{
  refl, bytes_eq_iff, ap, bytes_eq-eq, inl, inr, ℕ, ◌≡◌, Bytes, bytes_eq, List, [], ◌∷◌,
  Option-cases, true, Bool, ◌&&◌, arith, if◌then◌else◌, pos, ==ℤ_iff,
}
use mit_distributed_systems.KvServer.Server.{
  PutAppendArgs, run, put, KvServer, Request, get_request, put_request, append_request, handle,
  client_of, get, GetArgs,
}
use mit_distributed_systems.KvServer.Duplicates.{IsFresh, append_once, append-contents}
use mit_distributed_systems.Models.Kv.{KvInput, KvOutput, step}

abbrev pub seq_of : Request → ℕ
seq_of (get_request args) = args.seq_num
seq_of (put_request args) = args.seq_num
seq_of (append_request args) = args.seq_num

-- What the test clients report of a call.
abbrev pub input_of : Request → KvInput
input_of (get_request args) = record { op = 0; key = args.key; value = [] }
input_of (put_request args) = record { op = 1; key = args.key; value = args.value }
input_of (append_request args) = record { op = 3; key = args.key; value = args.value }

-- No request has the number of its client's last recorded call.
abbrev pub AllFresh : KvServer → List Request → Type 0
AllFresh kv [] = Unit {0}
AllFresh kv (r ∷ rs) = IsFresh kv (client_of r) (seq_of r) × AllFresh (handle kv r).0 rs

-- The calls with their replies.
abbrev pub trace : KvServer → List Request → List (KvInput × KvOutput)
trace kv [] = []
trace kv (r ∷ rs) = (input_of r, record { value = (handle kv r).1 }) ∷ trace (handle kv r).0 rs

-- The model on the calls of one key: whether it accepts them all, and its last state.
abbrev pub accepts : Bytes → Bytes → List (KvInput × KvOutput) → Bool × Bytes
accepts k st [] = (true, st)
accepts k st ((inp, out) ∷ calls) =
    if bytes_eq inp.key k
    then (let (ok, st') = step st inp out in
        let (oks, last) = accepts k st' calls in (ok && oks, last))
    else accepts k st calls

-- Before the request, and after it: what the model says of the key `k`.
abbrev Follows : KvServer → Request → Bytes → Type 0
Follows kv r k =
    let (ok, st) = step (kv.contents k) (input_of r) (record { value = (handle kv r).1 }) in
    ((handle kv r).0.contents k ≡ (if bytes_eq (input_of r).key k then st else kv.contents k))
    × (bytes_eq (input_of r).key k ≡ true → ok ≡ true)

read_same :
    (kv : KvServer) (j k : Bytes)
    → bytes_eq j k ≡ true
    → bytes_eq (kv.contents j) (kv.contents k) ≡ true
read_same kv j k h =
    (bytes_eq_iff (kv.contents j) (kv.contents k)).1 (ap kv.contents (bytes_eq-eq j k h))

get-Follows :
    (kv : KvServer) (args : GetArgs) (k : Bytes)
    → IsFresh kv args.client_id args.seq_num
    → Follows kv (get_request args) k
unfolding handle get step
get-Follows kv args k h = elim (Option-cases (kv.client_table args.client_id)) [
  | inl e ↦ (ground (arith, e), λ same. ground (arith, e, read_same kv args.key k same))
  | inr (dt, e) ↦
      let ne = h dt e in
      let iff = ==ℤ_iff dt.seq (pos args.seq_num) in
      (ground (arith, e, ne, iff), λ same. ground (arith, e, ne, iff, read_same kv args.key k same))
]

put-Follows :
    (kv : KvServer) (args : PutAppendArgs) (k : Bytes)
    → IsFresh kv args.client_id args.seq_num
    → Follows kv (put_request args) k
unfolding handle put step
put-Follows kv args k h = elim (Option-cases (kv.client_table args.client_id)) [
  | inl e ↦ (ground (arith, e, bytes_eq_iff args.key k, bytes_eq_iff k args.key), λ same. refl)
  | inr (dt, e) ↦ (
    ground (
      arith,
      e,
      h dt e,
      ==ℤ_iff dt.seq (pos args.seq_num),
      bytes_eq_iff args.key k,
      bytes_eq_iff k args.key,
    ),
    λ same. refl,
  )
]

append-Follows :
    (kv : KvServer) (args : PutAppendArgs) (k : Bytes)
    → IsFresh kv args.client_id args.seq_num
    → Follows kv (append_request args) k
unfolding handle step
append-Follows kv args k h =
    let replied = (append_once kv args h).0 in
    (
      ground (arith, append-contents kv args k h, bytes_eq_iff args.key k, bytes_eq_iff k args.key),
      λ same. ground (arith, replied, read_same kv args.key k same),
    )

handle-Follows :
    (kv : KvServer) (r : Request) (k : Bytes) → IsFresh kv (client_of r) (seq_of r) → Follows kv r k
handle-Follows kv (get_request args) k h = get-Follows kv args k h
handle-Follows kv (put_request args) k h = put-Follows kv args k h
handle-Follows kv (append_request args) k h = append-Follows kv args k h

-- For any requests in the order in which the server executes them, none with the number of its
-- client's last recorded call, and any key: the model accepts the key's calls with the server's
-- replies, from the value that the key has before, and its last state is the value that it has after.
pub run-accepts :
    (kv : KvServer) (rs : List Request) (k : Bytes)
    → AllFresh kv rs
    → accepts k (kv.contents k) (trace kv rs) ≡ (true, (run kv rs).contents k)
unfolding run
run-accepts kv [] k h = refl
run-accepts kv (r ∷ rs) k (h, hs) =
    let (contents, ok) = handle-Follows kv r k h in
    ground (arith, ok, contents, run-accepts (handle kv r).0 rs k hs)
