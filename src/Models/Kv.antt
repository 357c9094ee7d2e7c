-- ===== src/Models/Kv.antt =====
-- src/models/kv.go, with the types Operation and Event of src/porcupine/model.go. `interface{}` values
-- are of the types that the model casts them to; a cast of another value is left out.
use mit_distributed_systems.Prelude.{
  ℕ, Bytes, bytes_eq, List, [], ◌∷◌, ◌++◌, Bool, true, ◌==◌, if◌then◌else◌,
}

pub record KvInput : Type 0 where
  pub op : ℕ  -- 0 is a get, 1 a put, 2 an append, any other an append with a return value
  pub key : Bytes
  pub value : Bytes

pub record KvOutput : Type 0 where
  pub value : Bytes

-- model.go: one call, with its times.
pub record Operation (I O : Type 0) : Type 0 where
  pub client_id : ℕ
  pub input : I
  pub invoked : ℕ  -- `Call`
  pub output : O
  pub returned : ℕ  -- `Return`

abbrev pub init : Bytes
init = []

-- Whether the output is right in the state, and the next state.
unfoldable pub step : Bytes → KvInput → KvOutput → Bool × Bytes
step st inp out =
    if inp.op == 0
    then (bytes_eq out.value st, st)
    else if inp.op == 1
    then (true, inp.value)
    else if inp.op == 2
    then (true, st ++ inp.value)
    else (bytes_eq out.value st, st ++ inp.value)

-- `m[key] = append(m[key], v)`, on an association list.
unfoldable pub add_operation :
    List (Bytes × List (Operation KvInput KvOutput))
    → Operation KvInput KvOutput
    → List (Bytes × List (Operation KvInput KvOutput))
add_operation [] v = (v.input.key, v ∷ []) ∷ []
add_operation ((k, vs) ∷ m) v =
    if bytes_eq k v.input.key then (k, vs ++ v ∷ []) ∷ m else (k, vs) ∷ add_operation m v

unfoldable pub group :
    List (Bytes × List (Operation KvInput KvOutput))
    → List (Operation KvInput KvOutput)
    → List (Bytes × List (Operation KvInput KvOutput))
unfolding add_operation
group m [] = m
group m (v ∷ history) = group (add_operation m v) history

abbrev pub keys : List (Bytes × List (Operation KvInput KvOutput)) → List Bytes
keys [] = []
keys ((k, vs) ∷ m) = k ∷ keys m

-- `m[k]`, nil for a missing key.
abbrev pub lookup :
    Bytes → List (Bytes × List (Operation KvInput KvOutput)) → List (Operation KvInput KvOutput)
lookup k [] = []
lookup k ((j, vs) ∷ m) = if bytes_eq j k then vs else lookup k m

abbrev pub lookups :
    List Bytes
    → List (Bytes × List (Operation KvInput KvOutput))
    → List (List (Operation KvInput KvOutput))
lookups [] m = []
lookups (k ∷ ks) m = lookup k m ∷ lookups ks m

-- `sort_strings` stands for sort.Strings.
unfoldable pub partition :
    (List Bytes → List Bytes)
    → List (Operation KvInput KvOutput)
    → List (List (Operation KvInput KvOutput))
unfolding group
partition sort_strings history = let m = group [] history in lookups (sort_strings (keys m)) m

-- `op('key'`, with the quote 39.
abbrev called_on : Bytes → Bytes → Bytes
called_on op key = op ++ b'(' ∷ 39 ∷ key ++ 39 ∷ []

abbrev with_value : Bytes → Bytes
with_value value = b',' ∷ b' ' ∷ 39 ∷ value ++ 39 ∷ b')' ∷ []

unfoldable pub describe_operation : KvInput → KvOutput → Bytes
describe_operation inp out =
    if inp.op == 0
    then called_on (b'g' ∷ b'e' ∷ b't' ∷ []) inp.key
      ++ b')' ∷ b' ' ∷ b'-' ∷ b'>' ∷ b' ' ∷ 39 ∷ out.value
      ++ 39 ∷ []
    else if inp.op == 1
    then called_on (b'p' ∷ b'u' ∷ b't' ∷ []) inp.key ++ with_value inp.value
    else if inp.op == 2
    then called_on (b'a' ∷ b'p' ∷ b'p' ∷ b'e' ∷ b'n' ∷ b'd' ∷ []) inp.key ++ with_value inp.value
    else b'<' ∷ b'i' ∷ b'n' ∷ b'v' ∷ b'a' ∷ b'l' ∷ b'i' ∷ b'd' ∷ b'>' ∷ []
