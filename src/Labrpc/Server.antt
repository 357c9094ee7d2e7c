-- ===== src/Labrpc/Server.antt =====
-- src/labrpc/labrpc.go: Server and Service. `S` is the state of the objects behind a server's
-- services. A handler takes the encoded arguments and gives the encoded reply: the reflection that
-- finds and calls methods, and labgob, are outside.
use mit_distributed_systems.Prelude.{
  ℕ, ◌+◌, ◌%◌, ◌^◌, Bytes, bytes_eq, List, [], ◌∷◌, Bool, ◌&&◌, Option, none, some, ◌==◌,
  if◌then◌else◌, ◌>>=◌,
}

abbrev pub Handler : Type 0 → Type 0
Handler S = S → Bytes → S × Bytes

-- What reflection tells of a method: whether it is exported, the number of its parameters with the
-- receiver, whether the third is a pointer, and the number of its results.
pub record Method (S : Type 0) : Type 0 where
  pub name : Bytes
  pub exported : Bool
  pub num_in : ℕ
  pub reply_is_pointer : Bool
  pub num_out : ℕ
  pub function : Handler S

pub record Service (S : Type 0) : Type 0 where
  pub name : Bytes
  pub methods : List (Bytes × Handler S)

pub record Server (S : Type 0) : Type 0 where
  pub services : List (Bytes × Service S)
  pub count : ℕ

-- A string as a slice at its last dot: the parts before and behind it.
unfoldable pub split_last_dot : Bytes → Option (Bytes × Bytes)
split_last_dot [] = none
split_last_dot (b ∷ s) = elim (split_last_dot s) [
  | some (service, method) ↦ some (b ∷ service, method)
  | none ↦ if b == b'.' then some ([], s) else none
]

-- A map with string keys.
abbrev pub find : {A : Type 0} → Bytes → List (Bytes × A) → Option A
find k [] = none
find k ((j, a) ∷ m) = if bytes_eq j k then some a else find k m

abbrev pub insert : {A : Type 0} → Bytes → A → List (Bytes × A) → List (Bytes × A)
insert k a [] = (k, a) ∷ []
insert k a ((j, b) ∷ m) = if bytes_eq j k then (k, a) ∷ m else (j, b) ∷ insert k a m

module _ {S : Type 0} where
  abbrev pub is_suitable : Method S → Bool
  is_suitable m = m.exported && (m.num_in == 3) && m.reply_is_pointer && (m.num_out == 0)

  -- One pass of the loop of `MakeService`.
  unfoldable pub add_method : List (Bytes × Handler S) → Method S → List (Bytes × Handler S)
  add_method handlers m = if is_suitable m then insert m.name m.function handlers else handlers

  -- The loop of `MakeService` over the methods of the receiver's type.
  unfoldable pub add_methods : List (Bytes × Handler S) → List (Method S) → List (Bytes × Handler S)
  unfolding add_method
  add_methods handlers [] = handlers
  add_methods handlers (m ∷ ms) = add_methods (add_method handlers m) ms

  unfoldable pub make_service : Bytes → List (Method S) → Service S
  unfolding add_methods
  make_service name methods = record { name = name; methods = add_methods [] methods }

  unfoldable pub make_server : Server S
  make_server = record { services = []; count = 0 }

  unfoldable pub add_service : Server S → Service S → Server S
  add_service rs svc = record rs { services = insert svc.name svc rs.services }

  unfoldable pub get_count : Server S → ℕ
  get_count rs = rs.count

  -- `Service.dispatch`: a method that is not there is fatal.
  unfoldable pub dispatch_method : Service S → Bytes → Bytes → S → Option (S × Bytes)
  dispatch_method svc methname args s = do
    function ← find methname svc.methods
    some (function s args)

  -- `Server.dispatch`. A name without a dot panics, a service that is not there is fatal.
  unfoldable pub dispatch : Server S → Bytes → Bytes → S → Option (Server S × (S × Bytes))
  unfolding split_last_dot dispatch_method
  dispatch rs svc_meth args s = do
    (service_name, method_name) ← split_last_dot svc_meth
    service ← find service_name rs.services
    result ← dispatch_method service method_name args s
    some (record rs { count = (rs.count + 1) % 2 ^ 64 }, result)
