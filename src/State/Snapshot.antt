-- ===== src/State/Snapshot.antt =====
-- internal/state/snapshot.go: snapshots of the state machine. What encoding/json does on the
-- snapshot's types is the record `SnapshotCodec`; a map that JSON decodes may hold null marks, and
-- may itself be null.
pub mod Restored
pub mod Tests
use cosmosigner.Prelude.{
  Bytes, codes, bytes_eq, has_prefix, is_empty, length, drop, Bool, true, false, not, ◌&&◌, ◌||◌,
  Option, none, some, List, [], ◌∷◌, ◌++◌, map, Result, ok, err, ◌>>=◌, ◌>>◌, fail_if, or_fail,
  is_ok, if◌then◌else◌,
}
use cosmosigner.Prelude.Assoc.{Assoc}
use cosmosigner.ClusterId
use cosmosigner.State.{SignState}
use cosmosigner.State.Fsm.{Fsm}

abbrev pub snapshot_magic : Bytes
snapshot_magic = codes "cosmosigner-state-v1\n"

abbrev pub version_prefix : Bytes
version_prefix = codes "cosmosigner-state-v"

-- The envelope of a snapshot: the identity, if it is a string, and the undecoded map.
pub record Envelope : Type 0 where
  pub cluster_id : Option Bytes
  pub state : Bytes

pub record SnapshotCodec : Type 0 where
  pub marshal : Fsm → Option Bytes
  pub decode_envelope : Bytes → Option Envelope
  pub decode_state : Bytes → Option (Option (Assoc (Option SignState)))

pub data RestoreError : Type 0 where
  read malformed unsupported_version : RestoreError
  no_cluster_id invalid_cluster_id no_state not_object null_mark : RestoreError
  identity_missing identity_mismatch : RestoreError

unfoldable pub snapshot : SnapshotCodec → Fsm → Option Bytes
snapshot s f = elim (s.marshal f) [ none ↦ none | some payload ↦ some (snapshot_magic ++ payload) ]

unfoldable pub decode_versioned :
    SnapshotCodec → Bytes → Result RestoreError (Bytes × Option (Assoc (Option SignState)))
decode_versioned s contents = do
  fail_if (not (has_prefix contents snapshot_magic)) unsupported_version
  envelope ← or_fail (s.decode_envelope (drop (length snapshot_magic) contents)) malformed
  id ← or_fail envelope.cluster_id no_cluster_id
  fail_if (not (is_empty id) && not (is_ok (ClusterId.validate id))) invalid_cluster_id
  fail_if (is_empty envelope.state) no_state
  state ← or_fail (s.decode_state envelope.state) malformed
  ok (id, state)

-- Snapshots of the first releases are the bare map.
unfoldable pub decode :
    SnapshotCodec → Bytes → Result RestoreError (Bytes × Option (Assoc (Option SignState)))
decode s contents =
    if has_prefix contents version_prefix
    then decode_versioned s contents
    else do state ← or_fail (s.decode_state contents) malformed; ok ([], state)

-- The loop that refuses a null mark.
unfoldable pub without_nulls : Assoc (Option SignState) → Result RestoreError (Assoc SignState)
without_nulls [] = ok []
without_nulls ((k, none) ∷ rest) = err null_mark
without_nulls ((k, some m) ∷ rest) = do marks ← without_nulls rest; ok ((k, m) ∷ marks)

-- The check against the identity that the machine has, and the replacement of its state.
unfoldable pub install : Bytes → Assoc SignState → Fsm → Result RestoreError Fsm
install id marks f =
    if not (is_empty f.cluster_id) && not (bytes_eq id f.cluster_id)
    then (if is_empty id then err identity_missing else err identity_mismatch)
    else ok (record { cluster_id = id; state = marks })

-- Restore of the bytes that the reader gives, or of a reader that fails. After an error the machine
-- is as it was.
unfoldable pub restore : SnapshotCodec → Option Bytes → Fsm → Result RestoreError Fsm
restore s reader f = do
  contents ← or_fail reader read
  (id, state) ← decode s contents
  decoded ← or_fail state not_object
  marks ← without_nulls decoded
  install id marks f
