-- ===== src/MapReduce/Runs.antt =====
-- src/mr: a whole job of one worker at concrete inputs.
use mit_distributed_systems.Prelude.{ℕ, ◌+◌, Bytes, List, [], ◌∷◌, Option, some, none}
use mit_distributed_systems.MapReduce.Tasks.{TaskType, map_task, reduce_task, exit_task, no_task}
use mit_distributed_systems.MapReduce.Worker.{KeyValue}
use mit_distributed_systems.MapReduce.Loop.{Disk, Expiry, map_expiry}

abbrev digit : ℕ → Bytes
digit n = (b'0' + n) ∷ []

abbrev letters : Bytes → List Bytes
letters [] = []
letters (b ∷ s) = (b ∷ []) ∷ letters s

abbrev first_letter : Bytes → ℕ
first_letter [] = 0
first_letter (b ∷ s) = b

-- Every file holds its name.
abbrev read_file : Bytes → Option Bytes
read_file name = some name

abbrev glob : (ℕ → List (List KeyValue)) → ℕ → List (List KeyValue)
glob intermediate i = []

abbrev empty : Disk
empty = record { intermediate = λ i. []; outputs = λ i. none }

abbrev inputs : List Bytes
inputs = (b'a' ∷ []) ∷ (b'b' ∷ []) ∷ []

-- The goroutine of the first map task ends before each request, and that of the second one while the
-- worker is at a reduce task.
abbrev early : ℕ → List Expiry
early i = map_expiry 0 ∷ []

abbrev late : ℕ → TaskType → Option ℕ → List Expiry
late i reduce_task timer = map_expiry 1 ∷ []
late i map_task timer = []
late i exit_task timer = []
late i no_task timer = []
