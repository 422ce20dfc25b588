-- ===== src/Backend/VaultClaiming.antt =====
-- ClaimCluster of internal/backend/vault_binding.go: when it writes, and on what it succeeds.
use cosmosigner.Prelude.{
  ◌≡◌, refl, sym, ap, ◌∙◌, subst, ◌⊎◌, inl, inr, Bytes, bytes_eq, bytes_eq_iff, bytes_eq_refl,
  some_inj, false, true≢false, not, some, Result, ok, err, fail_if_ok, Bool-cases, Result-cases,
}
use cosmosigner.Prelude.Assoc.{lookup}
use cosmosigner.ClusterId
use cosmosigner.Backend.{
  BindingError, unclaimed, corrupt, unreadable, mismatch, unsupported, invalid_id, cancelled,
  io_failed, valid_id, require_claim_owner,
}
use cosmosigner.Backend.VaultBinding.{
  value, valid_owner, Secret, Moments, VaultKey, parse_binding_record, parse_secret, look,
  cluster_binding, claim_record, ClaimMoments, Claimed, owned, write_claim, claim_from, checked_id,
  claim_cluster,
}

pub owner_is : (id owner : Bytes) → require_claim_owner id owner ≡ ok tt → owner ≡ id
unfolding require_claim_owner
owner_is id owner h = elim (Bool-cases (bytes_eq owner id)) [
  | inl same ↦ (bytes_eq_iff owner id).0 same
  | inr off ↦
      absurd (true≢false (sym (ap not off) ∙ fail_if_ok (not (bytes_eq owner id)) mismatch h))
]

owned_ok : (id : Bytes) (r : Result BindingError Bytes) → owned id r ≡ ok tt → r ≡ ok id
owned_ok id (ok owner) h = ap ok (owner_is id owner h)
owned_ok id (err e) h = cc h

abbrev Binds : VaultKey → ClaimMoments → Bytes → Result BindingError Bytes → Type 0
Binds v m id seen = (seen ≡ ok id) ⊎ ((seen ≡ err unclaimed) × (cluster_binding v m.after ≡ ok id))

from_Binds :
    (v : VaultKey) (m : ClaimMoments) (id : Bytes) (seen : Result BindingError Bytes)
    → (claim_from v m id seen).0 ≡ ok tt
    → Binds v m id seen
unfolding claim_from write_claim
from_Binds v m id (ok owner) h = inl (ap ok (owner_is id owner h))
from_Binds v m id (err unclaimed) h = inr (refl, owned_ok id (cluster_binding v m.after) h)
from_Binds v m id (err corrupt) h = cc h
from_Binds v m id (err unreadable) h = cc h
from_Binds v m id (err mismatch) h = cc h
from_Binds v m id (err unsupported) h = cc h
from_Binds v m id (err invalid_id) h = cc h
from_Binds v m id (err cancelled) h = cc h
from_Binds v m id (err io_failed) h = cc h

checked_ok :
    (c : Result BindingError (Unit {0})) (rest : Claimed)
    → (checked_id c rest).0 ≡ ok tt
    → rest.0 ≡ ok tt
checked_ok (ok u) rest h = h
checked_ok (err e) rest h = cc h

-- A claim of a Vault key succeeds only where the key was read as owned by this cluster: before any
-- write, or in the reread that follows a write of a key that had no owner, even if that write was
-- lost or another replica's came first.
pub vault_claim_binds :
    (v : VaultKey) (m : ClaimMoments) (id : Bytes)
    → (claim_cluster v m id).0 ≡ ok tt
    → (cluster_binding v m.before ≡ ok id)
      ⊎ ((cluster_binding v m.before ≡ err unclaimed) × (cluster_binding v m.after ≡ ok id))
unfolding claim_cluster
vault_claim_binds v m id h =
    from_Binds v m id (cluster_binding v m.before) (checked_ok (valid_id id) _ h)

checked_written :
    (c : Result BindingError (Unit {0})) (rest : Claimed) (s : Secret)
    → (checked_id c rest).1 ≡ some s
    → (c ≡ ok tt) × (rest.1 ≡ some s)
checked_written (ok u) rest s h = (refl, h)
checked_written (err e) rest s h = cc h

from_written :
    (v : VaultKey) (m : ClaimMoments) (id : Bytes) (seen : Result BindingError Bytes) (s : Secret)
    → (claim_from v m id seen).1 ≡ some s
    → (seen ≡ err unclaimed) × (claim_record v id ≡ s)
unfolding claim_from write_claim
from_written v m id (ok owner) s h = cc h
from_written v m id (err unclaimed) s h = (refl, some_inj.0 h)
from_written v m id (err corrupt) s h = cc h
from_written v m id (err unreadable) s h = cc h
from_written v m id (err mismatch) s h = cc h
from_written v m id (err unsupported) s h = cc h
from_written v m id (err invalid_id) s h = cc h
from_written v m id (err cancelled) s h = cc h
from_written v m id (err io_failed) s h = cc h

-- Reads that nothing disturbs, of a record.
abbrev pub settled : Secret → Moments
settled s = record {
  first = value s;
  first_fails = false;
  metadata = value s;
  metadata_fails = false;
  second = value s;
  second_fails = false;
}

validated : (id : Bytes) → valid_id id ≡ ok tt → ClusterId.validate id ≡ ok tt
validated id h = elim (Result-cases (ClusterId.validate id)) [
  | inl (u, good) ↦ good
  | inr (b, bad) ↦ cc (rw (bad, valid_id) at h)
]

record_read :
    (v : VaultKey) (id : Bytes)
    → ClusterId.validate id ≡ ok tt
    → cluster_binding v (settled (claim_record v id)) ≡ ok id
unfolding cluster_binding look parse_secret parse_binding_record claim_record lookup bytes_eq
record_read v id good = rw (good, valid_owner, bytes_eq_refl v.mount, bytes_eq_refl v.key_name)

-- A claim of a Vault key writes only where it has read that the key has no owner, and what it writes
-- is read back as the claimed identity's ownership.
pub vault_claim_writes :
    (v : VaultKey) (m : ClaimMoments) (id : Bytes) (s : Secret)
    → (claim_cluster v m id).1 ≡ some s
    → (cluster_binding v m.before ≡ err unclaimed) × (cluster_binding v (settled s) ≡ ok id)
unfolding claim_cluster
vault_claim_writes v m id s h =
    let (valid, rest) = checked_written (valid_id id) _ s h in
    let (none_there, same) = from_written v m id (cluster_binding v m.before) s rest in
    (
      none_there,
      subst (λ (t : Secret). cluster_binding v (settled t) ≡ ok id) same
          (record_read v id (validated id valid)),
    )
