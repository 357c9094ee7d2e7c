-- ===== src/KvServer/Server.antt =====
-- src/kvsrv/server.go and common.go. Each RPC handler runs under `mu`, so it is one function on the
-- state. A Go map is a function; `data` gives "" for a missing key, as the code reads it.
use mit_distributed_systems.Prelude.{
  ℕ, ℤ, pos, minus_one, ◌==ℤ◌, Bytes, update, update_at, List, [], ◌∷◌, ◌++◌, Option, none, some,
  if◌then◌else◌,
}

pub record PutAppendArgs : Type 0 where
  pub key : Bytes
  pub value : Bytes
  pub client_id : ℕ
  pub seq_num : ℕ

pub record GetArgs : Type 0 where
  pub key : Bytes
  pub client_id : ℕ
  pub seq_num : ℕ

-- The replies hold one string each.
pub record GetReply : Type 0 where
  pub value : Bytes

pub record PutAppendReply : Type 0 where
  pub value : Bytes

pub record DupTable : Type 0 where
  pub seq : ℤ
  pub value : Bytes

pub record KvServer : Type 0 where
  pub contents : Bytes → Bytes  -- `data`
  pub client_table : ℕ → Option DupTable

unfoldable pub start_kv_server : KvServer
start_kv_server = record { contents = λ k. []; client_table = λ c. none }

-- The part of `Get` behind the test for a new client.
unfoldable pub get_known : KvServer → GetArgs → DupTable → KvServer × GetReply
get_known kv args dt = if dt.seq ==ℤ pos args.seq_num then (kv, record { value = dt.value }) else (
  record kv {
    client_table =
        update kv.client_table args.client_id
          (some (record { seq = pos args.seq_num; value = kv.contents args.key }));
  },
  record { value = kv.contents args.key },
)

unfoldable pub get : KvServer → GetArgs → KvServer × GetReply
unfolding get_known
get kv args = elim (kv.client_table args.client_id) [
  | none ↦ (kv, record { value = kv.contents args.key })
  | some dt ↦ get_known kv args dt
]

unfoldable pub put_known : KvServer → PutAppendArgs → DupTable → KvServer × PutAppendReply
put_known kv args dt = if dt.seq ==ℤ pos args.seq_num then (kv, record { value = [] }) else (
  record {
    contents = update_at kv.contents args.key args.value;
    client_table =
        update kv.client_table args.client_id
          (some (record { seq = pos args.seq_num; value = [] }));
  },
  record { value = [] },
)

unfoldable pub put : KvServer → PutAppendArgs → KvServer × PutAppendReply
unfolding put_known
put kv args = elim (kv.client_table args.client_id) [
  | none ↦
      (record kv { contents = update_at kv.contents args.key args.value }, record { value = [] })
  | some dt ↦ put_known kv args dt
]

unfoldable pub append_known : KvServer → PutAppendArgs → DupTable → KvServer × PutAppendReply
append_known kv args dt =
    if dt.seq ==ℤ pos args.seq_num then (kv, record { value = dt.value }) else (
      record {
        contents = update_at kv.contents args.key (kv.contents args.key ++ args.value);
        client_table =
            update kv.client_table args.client_id
              (some (record { seq = pos args.seq_num; value = kv.contents args.key }));
      },
      record { value = kv.contents args.key },
    )

-- `Append` alone registers a new client.
unfoldable pub append : KvServer → PutAppendArgs → KvServer × PutAppendReply
unfolding append_known
append kv args = elim (kv.client_table args.client_id) [
  | none ↦
      let fresh : DupTable = record { seq = minus_one; value = [] } in
      append_known (record kv { client_table = update kv.client_table args.client_id (some fresh) })
        args fresh
  | some dt ↦ append_known kv args dt
]

-- A call that reaches the server, and the string of its reply.
pub data Request : Type 0 where
  get_request : GetArgs → Request
  put_request append_request : PutAppendArgs → Request

abbrev pub client_of : Request → ℕ
client_of (get_request args) = args.client_id
client_of (put_request args) = args.client_id
client_of (append_request args) = args.client_id

unfoldable pub handle : KvServer → Request → KvServer × Bytes
handle kv (get_request args) = let (kv', reply) = get kv args in (kv', reply.value)
handle kv (put_request args) = let (kv', reply) = put kv args in (kv', reply.value)
handle kv (append_request args) = let (kv', reply) = append kv args in (kv', reply.value)

unfoldable pub run : KvServer → List Request → KvServer
run kv [] = kv
run kv (r ∷ rs) = run (handle kv r).0 rs
