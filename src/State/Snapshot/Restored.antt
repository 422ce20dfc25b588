-- ===== src/State/Snapshot/Restored.antt =====
-- What Snapshot writes and Restore accepts (internal/state/snapshot.go).
use cosmosigner.Prelude.{
  ◌≡◌, refl, ◌⊎◌, inl, inr, ◌≢◌, ◌&&◌, ◌∙◌, Bytes, bytes_eq_iff, bytes_eq_refl, has_prefix,
  has_prefix-append, is_empty, true, false, not, Option, some, [], ◌∷◌, ◌++◌, ok, arith, is_ok,
  or_fail, chain_ok, Result-cases,
}
use cosmosigner.Prelude.Assoc.{Assoc, lookup}
use cosmosigner.ClusterId
use cosmosigner.State.{SignState}
use cosmosigner.State.Fsm.{Fsm}
use cosmosigner.State.Fsm.Identity.{IsIdentified}
use cosmosigner.State.Fsm.Marks.{empty_cases}
use cosmosigner.State.Snapshot.{
  Envelope, SnapshotCodec, RestoreError, snapshot, decode, decode_versioned, without_nulls, install,
  restore, snapshot_magic, version_prefix,
}

abbrev pub wrap : Assoc SignState → Assoc (Option SignState)
wrap [] = []
wrap ((k, m) ∷ rest) = (k, some m) ∷ wrap rest

-- encoding/json decodes what it encodes: the identity and the map come back. The order of a map's
-- entries is not kept.
pub record Decodes (s : SnapshotCodec) (f : Fsm) (payload : Bytes) : Type 0 where
  pub envelope : Envelope
  pub marks : Assoc SignState
  pub envelope_decoded : s.decode_envelope payload ≡ some envelope
  pub id_kept : envelope.cluster_id ≡ some f.cluster_id
  pub state_given : envelope.state ≢ []
  pub state_decoded : s.decode_state envelope.state ≡ some (some (wrap marks))
  pub marks_kept : (k : Bytes) → lookup k marks ≡ lookup k f.state

without_nulls-wrap : (l : Assoc SignState) → without_nulls (wrap l) ≡ ok l
unfolding without_nulls
without_nulls-wrap [] = refl
without_nulls-wrap ((k, m) ∷ rest) = rw (without_nulls-wrap rest)

module _ (s : SnapshotCodec) (f : Fsm) (payload : Bytes) (d : Decodes s f payload) where
  id_accepted :
      IsIdentified f
      → (not (is_empty f.cluster_id) && not (is_ok (ClusterId.validate f.cluster_id))) ≡ false
  id_accepted (inl e) = rw e
  id_accepted (inr v) = rw v (ground arith)

  state_nonempty : is_empty d.envelope.state ≡ false
  state_nonempty = elim (empty_cases d.envelope.state) [
    | inl (b, e) ↦ absurd (d.state_given e)
    | inr (b, n) ↦ b
  ]

  decode_versioned_lem :
      IsIdentified f
      → decode_versioned s (snapshot_magic ++ payload) ≡ ok (f.cluster_id, some (wrap d.marks))
  unfolding decode_versioned
  decode_versioned_lem h =
      rw (has_prefix-append snapshot_magic payload, d.envelope_decoded)
        (rw (d.id_kept) (rw (id_accepted h) (rw state_nonempty (rw d.state_decoded))))

  versioned : has_prefix (snapshot_magic ++ payload) version_prefix ≡ true
  unfolding has_prefix
  versioned = refl

  decode_lem :
      IsIdentified f → decode s (snapshot_magic ++ payload) ≡ ok (f.cluster_id, some (wrap d.marks))
  unfolding decode
  decode_lem h = rw versioned (decode_versioned_lem h)

  installable :
      (g : Fsm)
      → (g.cluster_id ≡ []) ⊎ (g.cluster_id ≡ f.cluster_id)
      → install f.cluster_id d.marks g ≡ ok (record { cluster_id = f.cluster_id; state = d.marks })
  unfolding install
  installable g (inl e) = rw e
  installable g (inr e) = rw (e, bytes_eq_refl f.cluster_id) (ground arith)

  restored :
      (g : Fsm)
      → IsIdentified f
      → (g.cluster_id ≡ []) ⊎ (g.cluster_id ≡ f.cluster_id)
      → restore s (some (snapshot_magic ++ payload)) g
        ≡ ok (record { cluster_id = f.cluster_id; state = d.marks })
  unfolding restore
  restored g h e = rw (decode_lem h) (rw (without_nulls-wrap d.marks) (installable g e))

-- A snapshot of a machine with no identity or a valid one, restored into a machine without an
-- identity or with the same one, gives back the identity and the mark of every chain.
pub restore-snapshot :
    (s : SnapshotCodec) (f g : Fsm) (payload k : Bytes)
    → s.marshal f ≡ some payload
    → Decodes s f payload
    → IsIdentified f
    → (g.cluster_id ≡ []) ⊎ (g.cluster_id ≡ f.cluster_id)
    → (h : Fsm) × (restore s (snapshot s f) g ≡ ok h)
      × (h.cluster_id ≡ f.cluster_id)
      × (lookup k h.state ≡ lookup k f.state)
restore-snapshot s f g payload k m d v e = (
  record { cluster_id = f.cluster_id; state = d.marks },
  (unfold snapshot in rw (m, snapshot) (restored s f payload d g v e)),
  refl,
  d.marks_kept k,
)

decode_versioned-id :
    (s : SnapshotCodec) (contents id : Bytes) (state : Option (Assoc (Option SignState)))
    → decode_versioned s contents ≡ ok (id, state)
    → (id ≡ []) ⊎ (ClusterId.validate id ≡ ok tt)
unfolding decode_versioned
decode_versioned-id s contents id state h =
    ground (arith, empty_cases id, Result-cases (ClusterId.validate id))

decode-id :
    (s : SnapshotCodec) (contents id : Bytes) (state : Option (Assoc (Option SignState)))
    → decode s contents ≡ ok (id, state)
    → (id ≡ []) ⊎ (ClusterId.validate id ≡ ok tt)
unfolding decode
decode-id s contents id state h = ground (arith, decode_versioned-id s contents id state)

install-id :
    (id : Bytes) (marks : Assoc SignState) (f g : Fsm)
    → install id marks f ≡ ok g
    → (g.cluster_id ≡ id) × (f.cluster_id ≢ [] → id ≡ f.cluster_id)
unfolding install
install-id id marks f g h =
    (ground arith, λ n. ground (arith, empty_cases f.cluster_id, bytes_eq_iff id f.cluster_id))

restore_both :
    (s : SnapshotCodec) (reader : Option Bytes) (f g : Fsm)
    → restore s reader f ≡ ok g
    → (f.cluster_id ≢ [] → g.cluster_id ≡ f.cluster_id) × IsIdentified g
unfolding restore
restore_both s reader f g h =
    let (contents, h0, e0) = chain_ok (or_fail reader RestoreError.read) h in
    let (pair, h1, e1) = chain_ok (decode s contents) h0 in
    let (decoded, h2, e2) = chain_ok (or_fail pair.1 RestoreError.not_object) h1 in
    let (marks, h3, e3) = chain_ok (without_nulls decoded) h2 in
    let (id, kept) = install-id pair.0 marks f g h3 in
    (λ n. id ∙ kept n, rw id (decode-id s contents pair.0 pair.1 e1))

-- A successful Restore never replaces an identity that the machine already has.
pub restore_identity :
    (s : SnapshotCodec) (reader : Option Bytes) (f g : Fsm)
    → f.cluster_id ≢ []
    → restore s reader f ≡ ok g
    → g.cluster_id ≡ f.cluster_id
restore_identity s reader f g n h = (restore_both s reader f g h).0 n

-- A successful Restore leaves a machine without an identity or with a valid one.
pub restore-IsIdentified :
    (s : SnapshotCodec) (reader : Option Bytes) (f g : Fsm)
    → restore s reader f ≡ ok g
    → IsIdentified g
restore-IsIdentified s reader f g h = (restore_both s reader f g h).1
