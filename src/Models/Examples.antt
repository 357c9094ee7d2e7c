-- ===== src/Models/Examples.antt =====
-- src/models: the theorems at concrete inputs.
use mit_distributed_systems.Prelude.{bytes_eq, ◌≡◌, Bytes, List, [], ◌∷◌, true, arith}
use mit_distributed_systems.KvServer.Server.{
  Request, get_request, append_request, start_kv_server, handle, append, get, run,
}
use mit_distributed_systems.Models.Kv.{KvInput, KvOutput, Operation, partition}
use mit_distributed_systems.Models.Service.{AllFresh, accepts, trace, run-accepts}
use mit_distributed_systems.Models.Partition.{partition-parts}

abbrev key : Bytes
key = b'k' ∷ []

abbrev requests : List Request
requests =
    append_request (record { key = key; value = b'x' ∷ []; client_id = 1; seq_num = 1 })
    ∷ append_request (record { key = key; value = b'y' ∷ []; client_id = 1; seq_num = 2 })
    ∷ get_request (record { key = key; client_id = 2; seq_num = 1 })
    ∷ []

requests-AllFresh : AllFresh start_kv_server requests
unfolding start_kv_server handle append get
requests-AllFresh = (λ dt e. cc, (λ dt e. ground (arith, e), (λ dt e. cc, tt)))

run-accepts_example : accepts key [] (trace start_kv_server requests) ≡ (true, b'x' ∷ b'y' ∷ [])
unfolding start_kv_server handle append get run bytes_eq
run-accepts_example = run-accepts start_kv_server requests key requests-AllFresh

abbrev put_op : Bytes → Operation KvInput KvOutput
put_op k = record {
  client_id = 0;
  input = record { op = 1; key = k; value = [] };
  invoked = 0;
  output = record { value = [] };
  returned = 1;
}

partition-parts_example :
    partition (λ ks. ks) (put_op key ∷ put_op [] ∷ put_op key ∷ [])
    ≡ (put_op key ∷ put_op key ∷ []) ∷ (put_op [] ∷ []) ∷ []
unfolding bytes_eq
partition-parts_example = partition-parts (λ ks. ks) (put_op key ∷ put_op [] ∷ put_op key ∷ [])
