-- ===== src/Models/Partition.antt =====
-- src/models/kv.go: the partition of a history by key.
use mit_distributed_systems.Prelude.{
  ◌≡◌, refl, sym, ap, ◌∙◌, map, Bytes, bytes_eq, bytes_eq_iff, List, [], ◌∷◌, ◌++◌, append_assoc,
  append-nil, arith, if◌then◌else◌,
}
use mit_distributed_systems.Models.Kv.{
  KvInput, KvOutput, Operation, add_operation, group, keys, lookup, lookups, partition,
}

-- The operations of a history on the key `k`, in order.
abbrev pub of_key : Bytes → List (Operation KvInput KvOutput) → List (Operation KvInput KvOutput)
of_key k [] = []
of_key k (v ∷ history) = if bytes_eq v.input.key k then v ∷ of_key k history else of_key k history

-- Adds a key at the end unless it is there.
abbrev add_key : List Bytes → Bytes → List Bytes
add_key [] k = k ∷ []
add_key (j ∷ ks) k = if bytes_eq j k then j ∷ ks else j ∷ add_key ks k

-- The keys of a history behind the keys `ks`, each once, in order of their first operation.
abbrev pub keys_of : List Bytes → List (Operation KvInput KvOutput) → List Bytes
keys_of ks [] = ks
keys_of ks (v ∷ history) = keys_of (add_key ks v.input.key) history

keys-add_operation :
    (m : List (Bytes × List (Operation KvInput KvOutput))) (v : Operation KvInput KvOutput)
    → keys (add_operation m v) ≡ add_key (keys m) v.input.key
unfolding add_operation
keys-add_operation [] v = refl
keys-add_operation ((k, vs) ∷ m) v = ground (arith, keys-add_operation m v)

keys-group :
    (m : List (Bytes × List (Operation KvInput KvOutput)))
    (history : List (Operation KvInput KvOutput))
    → keys (group m history) ≡ keys_of (keys m) history
unfolding group
keys-group m [] = refl
keys-group m (v ∷ history) =
    keys-group (add_operation m v) history ∙ ap (λ ks. keys_of ks history) (keys-add_operation m v)

lookup-add_operation :
    (m : List (Bytes × List (Operation KvInput KvOutput))) (v : Operation KvInput KvOutput)
    (k : Bytes)
    → lookup k (add_operation m v)
      ≡ (if bytes_eq v.input.key k then lookup k m ++ v ∷ [] else lookup k m)
unfolding add_operation
lookup-add_operation [] v k = ground arith
lookup-add_operation ((j, vs) ∷ m) v k = ground (
  arith,
  bytes_eq_iff j v.input.key,
  bytes_eq_iff j k,
  bytes_eq_iff v.input.key k,
  lookup-add_operation m v k,
)

lookup-group :
    (m : List (Bytes × List (Operation KvInput KvOutput)))
    (history : List (Operation KvInput KvOutput)) (k : Bytes)
    → lookup k (group m history) ≡ lookup k m ++ of_key k history
unfolding group
lookup-group m [] k = sym (append-nil (lookup k m))
lookup-group m (v ∷ history) k =
    lookup-group (add_operation m v) history k
    ∙ ap (λ vs. vs ++ of_key k history) (lookup-add_operation m v k)
    ∙ ground (arith, append_assoc (lookup k m) (v ∷ []) (of_key k history))

lookups-group :
    (ks : List Bytes) (history : List (Operation KvInput KvOutput))
    → lookups ks (group [] history) ≡ map (λ k. of_key k history) ks
lookups-group [] history = refl
lookups-group (k ∷ ks) history = ground (arith, lookup-group [] history k, lookups-group ks history)

-- The partition has one part for each key of the history, in the order that sort.Strings gives the
-- keys, and the part of a key is the operations on it, in the order of the history.
pub partition-parts :
    (sort_strings : List Bytes → List Bytes) (history : List (Operation KvInput KvOutput))
    → partition sort_strings history
      ≡ map (λ k. of_key k history) (sort_strings (keys_of [] history))
unfolding partition
partition-parts sort_strings history =
    lookups-group (sort_strings (keys (group [] history))) history
    ∙ ap (λ ks. map (λ k. of_key k history) (sort_strings ks)) (keys-group [] history)
