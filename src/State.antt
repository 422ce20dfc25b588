-- ===== src/State.antt =====
-- internal/state/store.go: the data of the double-sign gate. The modules below model the rest of
-- internal/state. A time is the number of nanoseconds since the zero time of Go, so that
-- `time.Time{}` is 0; heights, rounds and steps are signed, since a request may hold any value.
pub mod Hrs
pub mod Fsm
pub mod Snapshot
pub mod RaftStore
pub mod Sample
use cosmosigner.Prelude.{ℕ, Bytes, Bool, Option}
use cosmosigner.Prelude.Int.{ℤ, pos}

abbrev pub Time : Type 0
Time = ℕ

abbrev pub zero_time : Time
zero_time = 0

abbrev pub step_none : ℤ
step_none = pos 0

abbrev pub step_propose : ℤ
step_propose = pos 1

abbrev pub step_prevote : ℤ
step_prevote = pos 2

abbrev pub step_precommit : ℤ
step_precommit = pos 3

-- The high-water-mark of a chain. An empty signature is one that is not committed yet.
pub record SignState : Type 0 where
  pub height : ℤ
  pub round : ℤ
  pub step : ℤ
  pub sign_bytes : Bytes
  pub signature : Bytes
  pub timestamp : Time

pub record ReserveResult : Type 0 where
  pub reuse : Bool
  pub sign_bytes : Bytes
  pub signature : Bytes
  pub timestamp : Time

-- Commands of the replicated log (fsm.go). `unknown` is any other text in the operation's place.
pub data Op : Type 0 where
  reserve commit init_cluster : Op
  unknown : Bytes → Op

pub record Command : Type 0 where
  pub op : Op
  pub chain_id : Bytes
  pub height : ℤ
  pub round : ℤ
  pub step : ℤ
  pub sign_bytes : Bytes
  pub signature : Bytes
  pub timestamp : Time
  pub cluster_id : Bytes

-- The errors that an operation of the state machine answers with.
pub data Error : Type 0 where
  regression conflict : Error
  commit_stale commit_bytes_mismatch commit_signature_mismatch : Error
  unmarshal unknown_op invalid_cluster_id : Error

pub record ApplyResult : Type 0 where
  pub reuse : Bool
  pub sign_bytes : Bytes
  pub signature : Bytes
  pub timestamp : Time
  pub cluster_id : Bytes
  pub error : Option Error

-- One kind of canonical consensus message, with what the generated protobuf code does on it.
pub record Message : Type 1 where
  pub Payload : Type 0
  pub unmarshal : Bytes → Option Payload
  pub timestamp : Payload → Time
  pub set_timestamp : Payload → Time → Payload
  pub equal : Payload → Payload → Bool

-- The code outside the repository that the state machine calls: the protobuf messages of CometBFT
-- and the JSON of a log entry, whose encoding may fail.
pub record Codec : Type 1 where
  pub proposal : Message
  pub vote : Message
  pub marshal_command : Command → Option Bytes
  pub unmarshal_command : Bytes → Option Command
