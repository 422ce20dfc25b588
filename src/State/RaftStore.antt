-- ===== src/State/RaftStore.antt =====
-- internal/state/raftstore.go: the gate that a signer calls. Raft itself is outside the repository:
-- a call is given what Raft does during it, as an `Attempt`.
pub mod Accepted
pub mod Startup
pub mod Opening
pub mod Advertise
pub mod Closing
pub mod ClosingTests
pub mod Seeding
pub mod Naming
pub mod Membership
pub mod Tests
use cosmosigner.Prelude.{
  Bytes, Bool, true, false, not, Option, none, some, Result, ok, err, ◌>>=◌, if◌then◌else◌, [],
}
use cosmosigner.Prelude.Int.{ℤ}
use cosmosigner.State.{
  Time, zero_time, SignState, ReserveResult, Op, reserve, commit, Command, Error, ApplyResult,
  Codec,
}
use cosmosigner.State.Fsm.{Fsm, apply, get}

-- Errors of the future of raft.Apply.
pub data RaftError : Type 0 where
  not_raft_leader leadership_lost transfer_in_progress enqueue_timeout raft_shutdown : RaftError

-- The entry is applied and its answer comes back, or the future fails. A failed future does not say
-- whether the entry was or will be committed: `failed e true` is one that is applied all the same.
pub data Outcome : Type 0 where
  delivered : Outcome
  failed : RaftError → Bool → Outcome

pub record Attempt : Type 0 where
  pub is_leader : Bool
  pub outcome : Outcome

pub data StoreError : Type 0 where
  not_leader marshal no_state : StoreError
  raft : RaftError → StoreError
  machine : Error → StoreError

-- The machine's answer to a delivered entry.
abbrev pub respond : Fsm × ApplyResult → Result StoreError ApplyResult × Fsm
respond (f, r) = (elim r.error [ none ↦ ok r | some e ↦ err (machine e) ], f)

abbrev pub submit : Codec → Outcome → Bytes → Fsm → Result StoreError ApplyResult × Fsm
submit x delivered log_data f = respond (apply x log_data f)
submit x (failed e true) log_data f = (err (raft e), (apply x log_data f).0)
submit x (failed e false) log_data f = (err (raft e), f)

-- raftStore.apply
unfoldable pub apply_entry : Codec → Outcome → Command → Fsm → Result StoreError ApplyResult × Fsm
apply_entry x o c f = elim (x.marshal_command c) [
  | none ↦ (err marshal, f)
  | some log_data ↦ submit x o log_data f
]

abbrev pub reserve_command : Bytes → ℤ → ℤ → ℤ → Bytes → Time → Command
reserve_command chain_id height round step sign_bytes ts = record {
  op = reserve;
  chain_id = chain_id;
  height = height;
  round = round;
  step = step;
  sign_bytes = sign_bytes;
  signature = [];
  timestamp = ts;
  cluster_id = [];
}

abbrev pub commit_command : Bytes → ℤ → ℤ → ℤ → Bytes → Bytes → Command
commit_command chain_id height round step sign_bytes signature = record {
  op = commit;
  chain_id = chain_id;
  height = height;
  round = round;
  step = step;
  sign_bytes = sign_bytes;
  signature = signature;
  timestamp = zero_time;
  cluster_id = [];
}

abbrev pub reserved : Result StoreError ApplyResult × Fsm → Result StoreError ReserveResult × Fsm
reserved (ok r, f) = (
  ok (record {
    reuse = r.reuse;
    sign_bytes = r.sign_bytes;
    signature = r.signature;
    timestamp = r.timestamp;
  }),
  f,
)
reserved (err e, f) = (err e, f)

-- Reserve, from the command that its arguments make.
unfoldable pub reserve_with :
    Codec → Attempt → Command → Fsm → Result StoreError ReserveResult × Fsm
reserve_with x a c f =
    if not a.is_leader then (err not_leader, f) else reserved (apply_entry x a.outcome c f)

abbrev pub store_reserve :
    Codec → Attempt → Bytes → ℤ → ℤ → ℤ → Bytes → Time → Fsm → Result StoreError ReserveResult × Fsm
store_reserve x a chain_id height round step sign_bytes ts =
    reserve_with x a (reserve_command chain_id height round step sign_bytes ts)

abbrev pub committed : Result StoreError ApplyResult × Fsm → Result StoreError (Unit {0}) × Fsm
committed (ok r, f) = (ok tt, f)
committed (err e, f) = (err e, f)

-- Commit, from the command that its arguments make.
unfoldable pub commit_with : Codec → Attempt → Command → Fsm → Result StoreError (Unit {0}) × Fsm
commit_with x a c f =
    if not a.is_leader then (err not_leader, f) else committed (apply_entry x a.outcome c f)

abbrev pub store_commit :
    Codec → Attempt → Bytes → ℤ → ℤ → ℤ → Bytes → Bytes → Fsm → Result StoreError (Unit {0}) × Fsm
store_commit x a chain_id height round step sign_bytes signature =
    commit_with x a (commit_command chain_id height round step sign_bytes signature)

-- Get
unfoldable pub store_get : Bytes → Fsm → Result StoreError SignState
unfolding get
store_get chain_id f = elim (get chain_id f) [ none ↦ err no_state | some m ↦ ok m ]
