-- ===== src/Raft/State.antt =====
-- src/raft/raft.go: the state of a peer, the messages, and the helpers that the handlers share.
-- A Go `int` that is never negative is a ℕ; `votedFor` and `ConflictTerm`, which take -1, are in ℤ.
-- `interface{}` commands are of the type `Command`. `none` is a panic.
use mit_distributed_systems.Prelude.{
  arith, get_elem?-lt, inr, inl, get_elem?-eq_some_of_lt, Option-cases, ◌<◌, ◌≡◌, ◌&&◌, ℕ, ◌+◌, ◌-◌,
  ℤ, pos, minus_one, List, [], ◌∷◌, ◌++◌, Bool, true, false, Option, none, some, length, get_elem?,
  ltb, leb, ◌==◌, if◌then◌else◌, ◌>>=◌,
}

-- `min`
unfoldable pub min : ℕ → ℕ → ℕ
min a b = if ltb a b then a else b

pub data ServerState : Type 0 where
  follower candidate leader dead : ServerState

abbrev pub is_leader : ServerState → Bool
is_leader leader = true
is_leader _ = false

abbrev pub is_candidate : ServerState → Bool
is_candidate candidate = true
is_candidate _ = false

-- HeartBeatTimeOut, ElectTimeOutBase
abbrev pub heart_beat_time_out : ℕ
heart_beat_time_out = 100

abbrev pub elect_time_out_base : ℕ
elect_time_out_base = 450

pub record ApplyMsg (Command : Type 0) : Type 0 where
  pub command_valid : Bool
  pub command : Command
  pub command_index : ℕ

pub record LogEntry (Command : Type 0) : Type 0 where
  pub command : Option Command  -- `none` is nil, the command of the first entry
  pub term : ℕ
  pub index : ℕ

-- The locks, channels and end points are left out; `peers` is len(rf.peers), `last_receive` a time
-- in milliseconds, and `killed` the flag `dead`, which `Kill` sets beside the state `Dead`.
pub record Raft (Command : Type 0) : Type 0 where
  pub peers : ℕ
  pub me : ℕ
  pub killed : Bool
  pub current_term : ℕ
  pub voted_for : ℤ
  pub log : List (LogEntry Command)
  pub state : ServerState
  pub commit_index : ℕ
  pub last_applied : ℕ
  pub next_index : List ℕ
  pub match_index : List ℕ
  pub last_receive : ℕ

pub record RequestVoteArgs : Type 0 where
  pub term : ℕ
  pub candidate_id : ℕ
  pub last_log_index : ℕ
  pub last_log_term : ℕ

pub record RequestVoteReply : Type 0 where
  pub term : ℕ
  pub vote_granted : Bool

pub record AppendEntriesArgs (Command : Type 0) : Type 0 where
  pub term : ℕ
  pub leader_id : ℕ
  pub prev_log_index : ℕ
  pub prev_log_term : ℕ
  pub entries : List (LogEntry Command)
  pub leader_commit : ℕ

pub record AppendEntriesReply : Type 0 where
  pub term : ℕ
  pub success : Bool
  pub conflict_index : ℕ
  pub conflict_term : ℤ

module _ {Command : Type 0} where
  unfoldable pub get_state : Raft Command → ℕ × Bool
  get_state rf = (rf.current_term, is_leader rf.state)

  -- len(rf.log) - 1; it is used on a log with at least one entry.
  abbrev pub get_last_log_index : Raft Command → ℕ
  get_last_log_index rf = length rf.log - 1

  -- rf.log[i].Term
  abbrev pub term_at : List (LogEntry Command) → ℕ → Option ℕ
  term_at log i = elim (get_elem? log i) [ none ↦ none | some e ↦ some e.term ]

  pub term_at-eq_some_of_lt :
      (log : List (LogEntry Command)) (i : ℕ) → i < length log → (t : ℕ) × (term_at log i ≡ some t)
  term_at-eq_some_of_lt log i h =
      let (e, at) = get_elem?-eq_some_of_lt log i h in (e.term, ground arith)

  pub term_at-lt :
      (log : List (LogEntry Command)) (i : ℕ) {t : ℕ} → term_at log i ≡ some t → i < length log
  term_at-lt log i h = elim (Option-cases (get_elem? log i)) [
    | inl e ↦ cc
    | inr (x, e) ↦ get_elem?-lt log i e
  ]

  -- It panics on an empty log.
  abbrev pub get_last_log_term : Raft Command → Option ℕ
  get_last_log_term rf = term_at rf.log (length rf.log - 1)

  unfoldable pub is_log_up_to_date : Raft Command → ℕ → ℕ → Option Bool
  is_log_up_to_date rf last_index last_term = do
    own ← get_last_log_term rf
    some (
        if ltb own last_term
        then true
        else if own == last_term && leb (get_last_log_index rf) last_index
        then true
        else false)

  unfoldable pub convert_to_follower : ℕ → ℕ → Raft Command → Raft Command
  convert_to_follower now term rf = record rf {
    state = follower;
    current_term = term;
    voted_for = minus_one;
    last_receive = now;
  }

  unfoldable pub convert_to_candidate : Raft Command → Raft Command
  convert_to_candidate rf = record rf {
    state = candidate;
    current_term = rf.current_term + 1;
    voted_for = pos rf.me;
  }

  unfoldable pub kill : Raft Command → Raft Command
  kill rf = record rf { killed = true; state = dead }

  -- `Start`: the index, the term, and whether this peer is the leader. The index is -1 for none.
  unfoldable pub start : Raft Command → Command → Raft Command × (Option ℕ × ℕ × Bool)
  start rf command =
      if is_leader rf.state
      then (
        record rf {
          log = rf.log ++ record { command = some command; term = rf.current_term; index = 0 } ∷ [];
        },
        (some (length rf.log), rf.current_term, true),
      )
      else (rf, (none, rf.current_term, false))

  -- `Snapshot` has an empty body.
  unfoldable pub snapshot : Raft Command → ℕ → List ℕ → Raft Command
  snapshot rf index bytes = rf
