-- ===== src/State/Snapshot/Tests.antt =====
-- Runs of Snapshot and Restore (internal/state/snapshot.go).
use cosmosigner.Prelude.{◌≡◌, refl, inl, inr, has_prefix, bytes_eq, none, some, [], ◌∷◌, ok, err}
use cosmosigner.Prelude.Int.{pos}
use cosmosigner.Prelude.Assoc.{lookup}
use cosmosigner.ClusterId
use cosmosigner.State.{SignState}
use cosmosigner.State.Fsm.{Fsm}
use cosmosigner.State.Snapshot.{
  SnapshotCodec, snapshot, decode, decode_versioned, without_nulls, install, restore,
  identity_mismatch, null_mark,
}
use cosmosigner.State.Snapshot.Restored.{Decodes, wrap, restore-snapshot}
use cosmosigner.State.Sample.{chain, first_id, second_id, blank}

abbrev mark : SignState
mark = record {
  height = pos 5;
  round = pos 0;
  step = pos 2;
  sign_bytes = 7 ∷ [];
  signature = 4 ∷ [];
  timestamp = 7;
}

abbrev source : Fsm
source = record { cluster_id = first_id; state = (chain, mark) ∷ [] }

-- JSON in which one byte stands for the whole of `source`.
abbrev codec : SnapshotCodec
codec = record {
  marshal = λ f. some (1 ∷ []);
  decode_envelope = λ b. some (record { cluster_id = some first_id; state = 2 ∷ [] });
  decode_state = λ b. some (some (wrap source.state));
}

source-Decodes : Decodes codec source (1 ∷ [])
source-Decodes = record {
  envelope = record { cluster_id = some first_id; state = 2 ∷ [] };
  marks = source.state;
  envelope_decoded = refl;
  id_kept = refl;
  state_given = λ e. cc e;
  state_decoded = refl;
  marks_kept = λ k. refl;
}

-- What a run on concrete data computes through.
machine : Unit {0}
unfolding snapshot restore decode decode_versioned without_nulls install has_prefix bytes_eq
    ClusterId.validate ClusterId.is_hex lookup
machine = tt

restored : restore codec (snapshot codec source) blank ≡ ok source
unfolding machine
restored = refl

other_cluster :
    restore codec (snapshot codec source) (record { cluster_id = second_id; state = [] })
    ≡ err identity_mismatch
unfolding machine
other_cluster = refl

null_refused : without_nulls ((chain, none) ∷ []) ≡ err null_mark
unfolding machine
null_refused = refl

restore-snapshot_example :
    (h : Fsm) × (restore codec (snapshot codec source) blank ≡ ok h)
    × (h.cluster_id ≡ source.cluster_id)
    × (lookup chain h.state ≡ lookup chain source.state)
unfolding machine
restore-snapshot_example =
    restore-snapshot codec source blank (1 ∷ []) chain refl source-Decodes (inr refl) (inl refl)
