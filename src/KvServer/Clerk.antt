-- ===== src/KvServer/Clerk.antt =====
-- src/kvsrv/client.go: a clerk repeats a call until a reply comes. labrpc may lose the request or the
-- reply, and requests of other clients come in between; both are given as a list of attempts.
use mit_distributed_systems.Prelude.{
  ℕ, ◌+◌, Bytes, List, [], ◌∷◌, Option, none, some, Bool, if◌then◌else◌,
}
use mit_distributed_systems.KvServer.Server.{
  KvServer, Request, get_request, put_request, append_request, handle, run,
}

pub record Clerk : Type 0 where
  pub client_id : ℕ
  pub seq_num : ℕ

-- `nrand` gives the client's number.
unfoldable pub make_clerk : ℕ → Clerk
make_clerk nrand = record { client_id = nrand; seq_num = 0 }

-- One `Call`: the requests that the server handles before, whether this one arrives, and whether its
-- reply does.
pub record Attempt : Type 0 where
  pub others : List Request
  pub arrives : Bool
  pub answered : Bool

unfoldable pub call : KvServer → Request → Attempt → KvServer × Option Bytes
call kv r a =
    let kv' = run kv a.others in
    if a.arrives
    then (let (kv'', value) = handle kv' r in (kv'', if a.answered then some value else none))
    else (kv', none)

-- `for !ok`: `none` if all these attempts fail.
unfoldable pub retry : KvServer → Request → List Attempt → KvServer × Option Bytes
retry kv r [] = (kv, none)
retry kv r (a ∷ attempts) =
    let (kv', reply) = call kv r a in
    elim reply [ none ↦ retry kv' r attempts | some value ↦ (kv', some value) ]

pub data Op : Type 0 where
  put append : Op

abbrev pub next_seq : Clerk → Clerk
next_seq ck = record ck { seq_num = ck.seq_num + 1 }

unfoldable pub clerk_get :
    KvServer → Clerk → Bytes → List Attempt → Clerk × (KvServer × Option Bytes)
clerk_get kv ck key attempts =
    let ck' = next_seq ck in
    (
      ck',
      retry kv
          (get_request (record { key = key; client_id = ck'.client_id; seq_num = ck'.seq_num }))
          attempts,
    )

abbrev pub op_request : Op → Clerk → Bytes → Bytes → Request
op_request Op.put ck key value =
    put_request
      (record { key = key; value = value; client_id = ck.client_id; seq_num = ck.seq_num })
op_request Op.append ck key value =
    append_request
      (record { key = key; value = value; client_id = ck.client_id; seq_num = ck.seq_num })

unfoldable pub put_append :
    KvServer → Clerk → Bytes → Bytes → Op → List Attempt → Clerk × (KvServer × Option Bytes)
put_append kv ck key value op attempts =
    let ck' = next_seq ck in (ck', retry kv (op_request op ck' key value) attempts)
