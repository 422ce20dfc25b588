-- ===== src/State/Fsm.antt =====
-- internal/state/fsm.go: the replicated state machine. `Apply` runs under the machine's lock, so a
-- step is a function; the stored mark is updated in place by `Commit`, which is an update here.
pub mod Marks
pub mod Evolution
pub mod Grants
pub mod Granted
pub mod Identity
pub mod Reserving
pub mod Timestamps
pub mod Tests
use cosmosigner.Prelude.{
  Bytes, bytes_eq, is_empty, Bool, true, false, not, ◌||◌, Option, none, some, List, [], ◌∷◌,
  Result, ok, err, if◌then◌else◌,
}
use cosmosigner.Prelude.Int.{ℤ, eqb_ℤ}
use cosmosigner.Prelude.Assoc.{Assoc, lookup, insert}
use cosmosigner.ClusterId
use cosmosigner.State.{
  Time, zero_time, step_propose, SignState, Op, reserve, commit, init_cluster, unknown, Command,
  Error, regression, conflict, commit_stale, commit_bytes_mismatch, commit_signature_mismatch,
  unmarshal, unknown_op, invalid_cluster_id, ApplyResult, Message, Codec,
}
use cosmosigner.State.Hrs.{Position, below, equal, above, compare_hrs}

pub record Fsm : Type 0 where
  pub cluster_id : Bytes
  pub state : Assoc SignState

unfoldable pub new_fsm : Fsm
new_fsm = record { cluster_id = []; state = [] }

-- The zero value of applyResult, with or without an error.
abbrev pub succeed : ApplyResult
succeed = record {
  reuse = false;
  sign_bytes = [];
  signature = [];
  timestamp = zero_time;
  cluster_id = [];
  error = none;
}

abbrev pub fail : Error → ApplyResult
fail e = record succeed { error = some e }

-- The time of the last message, and whether the two are equal once both times are zero.
unfoldable pub differs_by_timestamp : Message → Bytes → Bytes → Time × Bool
differs_by_timestamp m last_bytes new_bytes = elim (m.unmarshal last_bytes) [
  | none ↦ (zero_time, false)
  | some last ↦ elim (m.unmarshal new_bytes) [
    | none ↦ (zero_time, false)
    | some next ↦ (
      m.timestamp last,
      m.equal (m.set_timestamp last zero_time) (m.set_timestamp next zero_time),
    )
  ]
]

unfoldable pub only_differs_by_timestamp : Codec → Bytes → Bytes → ℤ → Time × Bool
only_differs_by_timestamp x last_bytes new_bytes step =
    if eqb_ℤ step step_propose
    then differs_by_timestamp x.proposal last_bytes new_bytes
    else differs_by_timestamp x.vote last_bytes new_bytes

unfoldable pub apply_init_cluster : Command → Fsm → Fsm × ApplyResult
apply_init_cluster c f = elim (ClusterId.validate c.cluster_id) [
  | err e ↦ (f, fail invalid_cluster_id)
  | ok u ↦
      let id = if is_empty f.cluster_id then c.cluster_id else f.cluster_id in
      (record f { cluster_id = id }, record succeed { cluster_id = id })
]

-- The answer to a request at the mark's own height, round and step.
unfoldable pub reserve_again : Codec → Command → SignState → ApplyResult
reserve_again x c cur =
    let (ts, only_time) = only_differs_by_timestamp x cur.sign_bytes c.sign_bytes c.step in
    if bytes_eq cur.sign_bytes c.sign_bytes
    then (if not (is_empty cur.signature)
        then record succeed { reuse = true; signature = cur.signature; timestamp = cur.timestamp }
        else record succeed { sign_bytes = cur.sign_bytes; timestamp = cur.timestamp })
    else if only_time
    then (if not (is_empty cur.signature)
        then record succeed { reuse = true; signature = cur.signature; timestamp = ts }
        else record succeed { sign_bytes = cur.sign_bytes; timestamp = ts })
    else fail conflict

abbrev pub fresh_mark : Command → SignState
fresh_mark c = record {
  height = c.height;
  round = c.round;
  step = c.step;
  sign_bytes = c.sign_bytes;
  signature = [];
  timestamp = c.timestamp;
}

advance : Command → Fsm → Fsm × ApplyResult
advance c f = (
  record f { state = insert c.chain_id (fresh_mark c) f.state },
  record succeed { sign_bytes = c.sign_bytes; timestamp = c.timestamp },
)

-- `compareHRS` answers +1 where there is no mark.
unfoldable pub reserve_against : Codec → Command → Fsm → Option SignState → Fsm × ApplyResult
unfolding advance
reserve_against x c f none = advance c f
reserve_against x c f (some cur) = elim (compare_hrs (some cur) c.height c.round c.step) [
  | below ↦ (f, fail regression)
  | equal ↦ (f, reserve_again x c cur)
  | above ↦ advance c f
]

unfoldable pub apply_reserve : Codec → Command → Fsm → Fsm × ApplyResult
unfolding reserve_against
apply_reserve x c f = reserve_against x c f (lookup c.chain_id f.state)

unfoldable pub commit_against : Command → Fsm → Option SignState → Fsm × ApplyResult
commit_against c f none = (f, fail commit_stale)
commit_against c f (some cur) =
    if not (eqb_ℤ cur.height c.height)
      || not (eqb_ℤ cur.round c.round)
      || not (eqb_ℤ cur.step c.step)
    then (f, fail commit_stale)
    else if not (bytes_eq cur.sign_bytes c.sign_bytes)
    then (f, fail commit_bytes_mismatch)
    else if not (is_empty cur.signature)
    then (if not (bytes_eq cur.signature c.signature)
        then (f, fail commit_signature_mismatch)
        else (f, succeed))
    else (
      record f { state = insert c.chain_id (record cur { signature = c.signature }) f.state },
      succeed,
    )

unfoldable pub apply_commit : Command → Fsm → Fsm × ApplyResult
unfolding commit_against
apply_commit c f = commit_against c f (lookup c.chain_id f.state)

-- The switch of Apply on the decoded command.
dispatch : Codec → Op → Command → Fsm → Fsm × ApplyResult
dispatch x reserve c f = apply_reserve x c f
dispatch x commit c f = apply_commit c f
dispatch x init_cluster c f = apply_init_cluster c f
dispatch x (unknown op) c f = (f, fail unknown_op)

unfoldable pub apply_command : Codec → Command → Fsm → Fsm × ApplyResult
unfolding dispatch
apply_command x c f = dispatch x c.op c f

unfoldable pub apply : Codec → Bytes → Fsm → Fsm × ApplyResult
unfolding apply_command
apply x log_data f = elim (x.unmarshal_command log_data) [
  | none ↦ (f, fail unmarshal)
  | some c ↦ apply_command x c f
]

-- The entries of a log, applied in order.
unfoldable pub replay : Codec → List Bytes → Fsm → Fsm
replay x [] f = f
replay x (log_data ∷ rest) f = replay x rest (apply x log_data f).0

-- `get` copies the mark, so that a caller's writes do not reach the machine.
unfoldable pub get : Bytes → Fsm → Option SignState
get chain_id f = lookup chain_id f.state

abbrev pub cluster_id_value : Fsm → Bytes
cluster_id_value f = f.cluster_id
