-- ===== src/MapReduce/Worker.antt =====
-- src/mr/worker.go and src/main/mrsequential.go. Files are lists of their pairs: the JSON encoding, the
-- temporary files and their renaming are left out. `ihash` stands for hash/fnv, and `mapf`, `reducef`
-- for the plugin's functions.
use mit_distributed_systems.Prelude.{
  Option, none, some, get_elem?, ℕ, zero, suc, ◌+◌, ◌%◌, Bytes, bytes_eq, List, [], ◌∷◌, ◌++◌, ◌==◌,
  if◌then◌else◌,
}

pub record KeyValue : Type 0 where
  pub key : Bytes
  pub value : Bytes

-- The pairs that `writeMapOutput` sends to the encoder `i`.
unfoldable pub bucket : (Bytes → ℕ) → ℕ → ℕ → List KeyValue → List KeyValue
bucket ihash n_reduce i [] = []
bucket ihash n_reduce i (kv ∷ kva) =
    let rest = bucket ihash n_reduce i kva in
    if ihash kv.key % n_reduce == i then kv ∷ rest else rest

-- The files of one map task, for the reduce tasks from `i` on.
unfoldable pub write_map_output : (Bytes → ℕ) → ℕ → ℕ → ℕ → List KeyValue → List (List KeyValue)
unfolding bucket
write_map_output ihash n_reduce zero i kva = []
write_map_output ihash n_reduce (suc left) i kva =
    bucket ihash n_reduce i kva ∷ write_map_output ihash n_reduce left (i + 1) kva

-- `intermediate[kv.Key] = append(intermediate[kv.Key], kv.Value)`, on an association list.
unfoldable pub add_value : List (Bytes × List Bytes) → KeyValue → List (Bytes × List Bytes)
add_value [] kv = (kv.key, kv.value ∷ []) ∷ []
add_value ((k, values) ∷ groups) kv =
    if bytes_eq k kv.key
    then (k, values ++ kv.value ∷ []) ∷ groups
    else (k, values) ∷ add_value groups kv

-- The two loops of `performReduce` over the files of its task.
unfoldable pub collect : List (Bytes × List Bytes) → List KeyValue → List (Bytes × List Bytes)
unfolding add_value
collect groups [] = groups
collect groups (kv ∷ file) = collect (add_value groups kv) file

unfoldable pub collect_files :
    List (Bytes × List Bytes) → List (List KeyValue) → List (Bytes × List Bytes)
unfolding collect
collect_files groups [] = groups
collect_files groups (file ∷ files) = collect_files (collect groups file) files

unfoldable pub output_lines :
    (Bytes → List Bytes → Bytes) → List (Bytes × List Bytes) → List KeyValue
output_lines reducef [] = []
output_lines reducef ((k, values) ∷ groups) =
    record { key = k; value = reducef k values } ∷ output_lines reducef groups

-- The lines of mr-out-i. Go's order of the map's keys is any; here it is that of their first values.
unfoldable pub perform_reduce : (Bytes → List Bytes → Bytes) → List (List KeyValue) → List KeyValue
unfolding collect_files output_lines
perform_reduce reducef files = output_lines reducef (collect_files [] files)

-- mrsequential.go: the run of pairs with the key `k` at the front, and the rest.
unfoldable pub same_key : Bytes → List KeyValue → List Bytes × List KeyValue
same_key k [] = ([], [])
same_key k (kv ∷ kva) =
    let (values, rest) = same_key k kva in
    if bytes_eq kv.key k then (kv.value ∷ values, rest) else ([], kv ∷ kva)

-- The loop over the sorted pairs; each round takes at least one.
unfoldable pub reduce_sorted : ℕ → (Bytes → List Bytes → Bytes) → List KeyValue → List KeyValue
unfolding same_key
reduce_sorted zero reducef kva = []
reduce_sorted (suc fuel) reducef [] = []
reduce_sorted (suc fuel) reducef (kv ∷ kva) =
    let (values, rest) = same_key kv.key kva in
    record { key = kv.key; value = reducef kv.key (kv.value ∷ values) }
    ∷ reduce_sorted fuel reducef rest

-- `performMap` on a file's contents.
unfoldable pub perform_map :
    (Bytes → ℕ) → (Bytes → Bytes → List KeyValue) → ℕ → Bytes × Bytes → List (List KeyValue)
unfolding write_map_output
perform_map ihash mapf n_reduce (filename, contents) =
    write_map_output ihash n_reduce n_reduce 0 (mapf filename contents)

abbrev pub prepend : {A : Type 0} → Option A → List A → List A
prepend none xs = xs
prepend (some x) xs = x ∷ xs

-- The elements at some places of a list.
unfoldable pub chosen : {A : Type 0} → List A → List ℕ → List A
chosen xs [] = []
chosen xs (m ∷ ms) = prepend (get_elem? xs m) (chosen xs ms)

unfoldable pub files_for : ℕ → List (List (List KeyValue)) → List (List KeyValue)
files_for i [] = []
files_for i (out ∷ outs) =
    let rest = files_for i outs in elim (get_elem? out i) [ none ↦ rest | some file ↦ file ∷ rest ]

-- The files that `performReduce` reads for its task `i`, out of those that the map tasks wrote. `glob`
-- stands for what filepath.Glob finds for mr-*-i: the numbers of the map tasks, in the order of the
-- files' names, so 10 before 2.
unfoldable pub input_files : List ℕ → ℕ → List (List (List KeyValue)) → List (List KeyValue)
unfolding chosen files_for
input_files glob i outs = files_for i (chosen outs glob)
