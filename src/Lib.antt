-- ===== src/Lib.antt =====
-- Verification of the labs of MIT 6.824/6.5840 in this repository.
--
-- The program is a set of Go packages. Modelled are these parts; the tests of Raft use
-- the simulated network, and the others share no state:
--
-- * Raft (src/raft). `Raft.State` has the state of a peer (`Raft`), its messages and the small
--   helpers; `Raft.Election` has RequestVote, KickOffElection, handleRequestVote, collectVotes and
--   the ticker; `Raft.Replication` has AppendEntries, SendHeartBeats, handleAppendEntries and
--   CommitChecker; `Raft.Persister` has persister.go with persist and readPersist; `Raft.Steps` has
--   Make and the steps of a running peer. A function of the Go code with several critical sections
--   is one function for each section (`adopt_term`, `consider_vote`, `retreat` and the like are
--   parts of one section). The names are those of the code in snake case. The theorems are in
--   `Raft.Terms`, `Raft.Votes`, `Raft.Health`, `Raft.Bounds`, `Raft.Commit`, `Raft.Apply`,
--   `Raft.Copying` and `Raft.Retreat`.
-- * The simulated network (src/labrpc/labrpc.go): `Labrpc.Server` has a server and its services,
--   `Labrpc.Network` the network's maps and settings with the functions that change and read them.
--   `Labrpc.Calls` has processReq, cut where it waits or another goroutine may come between: a call
--   is a place in processReq and the state of its handler's goroutine, and `Moves` is one step of a
--   call. `Labrpc.World` has any number of calls at once with the servers and the changes that a
--   test makes; random numbers are arguments of the steps, and a delay is the order of the steps. A
--   handler is one step, as it is under a lock in the packages here, and the list of executions is
--   the model's own. The theorems are in `Labrpc.Replies`, `Labrpc.Dead`, `Labrpc.Reliable` and
--   `Labrpc.Ending`; `Labrpc.Account` has the invariant that they share, `Labrpc.Ways` the steps that
--   a call makes on its own.
-- * Of the tests of Raft (src/raft/config.go): `RaftTest.Logs` has checkLogs, applier and nCommitted,
--   `RaftTest.Cluster` connect and disconnect, which enable and disable ends of `Labrpc.Network`. The
--   theorems are in `RaftTest.Agreement`, `RaftTest.Counting` and `RaftTest.Linking`;
--   `RaftTest.Wiring` is about the loops over the ends.
-- * The key/value server of src/kvsrv: `KvServer.Server` has the handlers Get, Put and Append of
--   server.go, `KvServer.Clerk` the retry loop of client.go, `KvServer.Duplicates` the theorems.
-- * MapReduce (src/mr and src/main/mrsequential.go): `MapReduce.Tasks` and `MapReduce.Coordinator`
--   have coordinator.go and rpc.go, `MapReduce.Worker` what the map and reduce tasks of worker.go
--   compute, and the loop of mrsequential.go; `MapReduce.Reports` what reportTaskDone sends;
--   `MapReduce.Loop` the loop of Worker, whose calls may fail before or behind the handler, and whose
--   rounds meet the ends of the coordinator's waitTask goroutines;
--   `MapReduce.Job` the steps of a job with its timers. The theorems are in `MapReduce.Reports`,
--   `MapReduce.Invariant`, `MapReduce.Timers`, `MapReduce.Phases`, `MapReduce.Results` and, on a
--   worker that works alone, `MapReduce.Lone`; `MapReduce.Answers`, `MapReduce.Resting`,
--   `MapReduce.Expiring`, `MapReduce.Lists` and `MapReduce.Places` have what they need of lists.
--   `MapReduce.Sequential` is about the sequential program and a distributed job.
-- * The MapReduce plugins wc.go and indexer.go of src/mrapps: `MapReduce.Apps`; `MapReduce.Plugins`
--   is about jobs with them.
-- * The model that the tests of the key/value server check their histories against
--   (src/models/kv.go, with the type of a call from src/porcupine/model.go): `Models.Kv`.
--   `Models.Service` is about the server of src/kvsrv and this model, `Models.Partition` about the
--   partition of a history by key.
-- * Of the linearizability checker (src/porcupine): `Porcupine.History` has the histories of
--   model.go and makeEntries, renumber and convertEntries of checker.go; `Porcupine.Links` the
--   doubly linked list, as a store of nodes, with insertBefore, makeLinkedEntries, lift and unlift;
--   `Porcupine.Bitset` bitset.go, a uint64 as the list of its bits; `Porcupine.Cache` cacheContains
--   and the cache; `Porcupine.Search` checkSingle, one round of its loop at a time, with the loop's
--   variables as a record. `Porcupine.Reference` is a plain search for an order of the operations,
--   and `Porcupine.Linear` says what a linearizable list of entries is, apart from any search.
--   `Porcupine.Orders` says it of the operations alone, by their values and times, and that the
--   entries of makeEntries are so exactly if the operations are; `Porcupine.Ranked` has what it needs.
--   `Porcupine.Parallel` has fillDefault, checkParallel, checkEvents and checkOperations, and
--   `Porcupine.Api` porcupine.go. The results that the select loop takes, from any goroutine, and
--   the time limit are a list of arrivals, in whatever order they come. The theorems are in
--   `Porcupine.Order`, `Porcupine.Renumber`, `Porcupine.Restore`, `Porcupine.Bits`,
--   `Porcupine.Exact`, `Porcupine.Selecting`, `Porcupine.Verdicts` and `Porcupine.Operations`;
--   `Items`, `Chain`, `Lifting`, `Pairs` and `Live` of `Porcupine` have what `Porcupine.Exact`
--   needs, `Complete`, `Sorted` and `Balanced` are about the entries of makeEntries and
--   convertEntries.
--
-- `Prelude` has what the systems share: lists over native numbers, Go strings as lists of bytes,
-- maps as functions, Boolean tests, and panics.
--
-- How the code is read. A method that holds `mu` runs alone, so it is a function from the state to
-- the new state and the reply. Goroutines, RPC handlers and timers interleave section by section:
-- `Step` of `Raft.Steps` and of `MapReduce.Job` is one section, on any message and any reading of
-- the clock, and `Reach` any sequence of them. The network is open: a message of any content may
-- come at any time, as often as it likes; the model of labrpc stands beside it. An index out of range, a nil pointer or a call of
-- log.Fatalf gives `none`. Non-negative Go `int`s are natural numbers: indices, terms and counters
-- grow by one at a time, and an overflow of 64 bits is not modelled, but for the counters of labrpc,
-- which hold the bits of their type. `votedFor`, `ConflictTerm` and
-- sequence numbers, which take -1, are integers. On fuel are `reduce_sorted`, the loop of
-- mrsequential.go over the sorted pairs, where each round takes a pair, so their number is enough;
-- `links_length`, which walks the list of the entries, so one more than their number is enough; and
-- `run` of `Porcupine.Search`, the loop of checkSingle: `rounds n` of `Porcupine.Exact.Check` is
-- enough for `n` operations. On fuel is also the loop of Worker, which ends when the coordinator
-- says so; two more rounds than tasks are enough for a worker alone. What filepath.Glob finds
-- for a reduce task is an argument, and files that an earlier job left are no part of the model. The flag `kill` that other
-- goroutines set is an argument, what each round reads. `longest` holds lists, where the code holds
-- pointers to lists that it does not change later.
--
-- Parameters. The encoder of labgob, the %d of fmt.Sprintf, sort.Sort and sort.Strings, Go's == on
-- the states of a model, the hash of hash/fnv, the random number of nrand and of the election
-- timeout and of labrpc, the clock, the handlers behind a labrpc server, and the map and reduce functions of a MapReduce plugin, and what the plugins
-- call of strings, strconv and unicode, are arguments.
--
-- Not modelled: the rest of the test code (the files config.go and test_test.go); labgob and
-- the reflection that finds methods, whose bytes and methods are arguments here; what the linearizability checker computes
-- for its visualization (linearizationInfo), and the visualization; src/kvraft, src/shardctrler and
-- src/shardkv, whose handlers are empty; the plugins of src/mrapps that sleep, crash or count jobs;
-- the command-line programs of src/main but mrsequential.go; sockets, files, JSON, logs. Snapshot,
-- persist and readPersist of Raft are modelled as they are: the first does nothing, and the last
-- restores nothing.
pub mod Prelude
pub mod Raft
pub mod RaftTest
pub mod KvServer
pub mod Labrpc
pub mod MapReduce
pub mod Models
pub mod Porcupine
