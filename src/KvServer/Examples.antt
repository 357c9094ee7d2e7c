-- ===== src/KvServer/Examples.antt =====
-- src/kvsrv: tests on small histories, and the theorems at concrete inputs.
use mit_distributed_systems.Prelude.{
  bytes_eq, ℕ, ◌≡◌, refl, Bytes, List, [], ◌∷◌, true, false, arith,
}
use mit_distributed_systems.KvServer.Server.{
  PutAppendArgs, put_request, append_request, start_kv_server, append, handle, run,
}
use mit_distributed_systems.KvServer.Clerk.{call, Attempt, retry}
use mit_distributed_systems.KvServer.Duplicates.{
  IsFresh, ExactlyOnce, retry-ExactlyOnce, retried_put, retried_put-overwrites,
}

abbrev key : Bytes
key = b'k' ∷ []

abbrev add : ℕ → ℕ → ℕ → PutAppendArgs
add client n c = record { key = key; value = c ∷ []; client_id = client; seq_num = n }

-- The first reply is lost, and another client appends before the second try.
abbrev lossy : List Attempt
lossy =
    record { others = []; arrives = true; answered = false }
    ∷ record { others = append_request (add 2 1 b'y') ∷ []; arrives = false; answered = false }
    ∷ record { others = []; arrives = true; answered = true }
    ∷ []

retry_appends_once :
    (retry start_kv_server (append_request (add 1 1 b'x')) lossy).0.contents key ≡ b'x' ∷ b'y' ∷ []
unfolding retry call run handle append start_kv_server bytes_eq
retry_appends_once = refl

start_kv_server-IsFresh : (c n : ℕ) → IsFresh start_kv_server c n
unfolding start_kv_server
start_kv_server-IsFresh c n dt e = cc

retry-ExactlyOnce_example : ExactlyOnce start_kv_server (add 1 1 b'x') lossy
retry-ExactlyOnce_example =
    retry-ExactlyOnce start_kv_server (add 1 1 b'x') lossy (start_kv_server-IsFresh 1 1)
      (tt, ((omega arith, tt), (tt, tt))) refl

retried_put-overwrites_example :
    ((handle
          (handle start_kv_server (put_request (add 1 1 b'x'))).0
          (put_request (add 2 1 b'y'))).0.contents
        key
      ≡ b'y' ∷ [])
    × ((retry start_kv_server
            (put_request (add 1 1 b'x'))
            (retried_put (add 1 1 b'x') (add 2 1 b'y'))).0.contents
          key
        ≡ b'x' ∷ [])
unfolding run
retried_put-overwrites_example = retried_put-overwrites [] (add 1 1 b'x') (add 2 1 b'y') tt tt refl
