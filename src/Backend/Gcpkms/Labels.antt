-- ===== src/Backend/Gcpkms/Labels.antt =====
-- internal/backend/gcpkms_binding.go and gcpkms.go: what a claim of a Google key writes and on what it
-- succeeds, and which signatures are passed on.
use cosmosigner.Prelude.{
  ◌≡◌, refl, ap, ◌⊎◌, inl, inr, Bytes, bytes_eq, Bool, true, false, Option, none, some, Result, ok,
  err, if◌then◌else◌,
}
use cosmosigner.Prelude.Assoc.{Assoc, lookup, insert, lookup-insert}
use cosmosigner.Backend.{BindingError, io_failed, valid_id}
use cosmosigner.Backend.VaultClaiming.{owner_is}
use cosmosigner.Backend.Gcpkms.{
  label, CryptoKey, get_crypto_key, valid_label, cluster_binding, ClaimEnv, Claimed, owned, update,
  claim_labelled, claim_from, checked_id, claim_cluster,
}

owned_ok : (id : Bytes) (r : Result BindingError Bytes) → owned id r ≡ ok tt → r ≡ ok id
owned_ok id (ok owner) h = ap ok (owner_is id owner h)
owned_ok id (err e) h = cc h

-- How a claim can succeed after an update: the key had no label, the update is every label that it had and
-- the new one, and the key that is read then names the identity.
pub record IsLabelled (resource : Bytes) (e : ClaimEnv) (id : Bytes) : Type 0 where
  pub key : CryptoKey
  pub read : get_crypto_key resource e.before ≡ ok key
  pub unowned : lookup label key.labels ≡ none
  pub labels : Assoc Bytes
  pub written : (claim_cluster resource e id).1 ≡ some labels
  pub kept :
      (other : Bytes)
      → lookup other labels ≡ (if bytes_eq label other then some id else lookup other key.labels)
  pub reread : cluster_binding resource e.after ≡ ok id

update-ok :
    (fails : Bool) (r : Result BindingError (Unit {0}))
    → (if fails then err io_failed else r) ≡ ok tt
    → r ≡ ok tt
update-ok true r h = cc h
update-ok false r h = h

record Labels (resource : Bytes) (e : ClaimEnv) (id : Bytes) (c : Claimed) : Type 0 where
  key : CryptoKey
  read : get_crypto_key resource e.before ≡ ok key
  unowned : lookup label key.labels ≡ none
  written : c.1 ≡ some (insert label id key.labels)
  reread : cluster_binding resource e.after ≡ ok id

abbrev Outcome : Bytes → ClaimEnv → Bytes → Claimed → Type 0
Outcome resource e id c = (cluster_binding resource e.before ≡ ok id) ⊎ Labels resource e id c

labelled-Outcome :
    (resource : Bytes) (e : ClaimEnv) (id : Bytes) (k : CryptoKey) (o : Option Bytes)
    → get_crypto_key resource e.before ≡ ok k
    → lookup label k.labels ≡ o
    → (claim_labelled resource e id k.labels o).0 ≡ ok tt
    → Outcome resource e id (claim_labelled resource e id k.labels o)
unfolding cluster_binding update
labelled-Outcome resource e id k none read was h = inr (record {
  key = k;
  read = read;
  unowned = was;
  written = refl;
  reread = owned_ok id (cluster_binding resource e.after) (update-ok e.update_fails _ h);
})
labelled-Outcome resource e id k (some owner) read was h =
    inl (rw (read, was) (owned_ok id (valid_label (some owner)) h))

from-Outcome :
    (resource : Bytes) (e : ClaimEnv) (id : Bytes) (r : Result BindingError CryptoKey)
    → get_crypto_key resource e.before ≡ r
    → (claim_from resource e id r).0 ≡ ok tt
    → Outcome resource e id (claim_from resource e id r)
from-Outcome resource e id (err b) read h = cc h
from-Outcome resource e id (ok k) read h =
    labelled-Outcome resource e id k (lookup label k.labels) read refl h

checked-Outcome :
    (resource : Bytes) (e : ClaimEnv) (id : Bytes) (c : Result BindingError (Unit {0}))
    (rest : Claimed)
    → (rest.0 ≡ ok tt → Outcome resource e id rest)
    → (checked_id c rest).0 ≡ ok tt
    → Outcome resource e id (checked_id c rest)
checked-Outcome resource e id (ok u) rest k h = k h
checked-Outcome resource e id (err b) rest k h = cc h

-- A claim of a Google key succeeds only where the key's label named this cluster before; or where the key
-- had no such label, the update kept all its other labels, and the key that is read after it names this
-- cluster.
pub gcp_claim_binds :
    (resource : Bytes) (e : ClaimEnv) (id : Bytes)
    → (claim_cluster resource e id).0 ≡ ok tt
    → (cluster_binding resource e.before ≡ ok id) ⊎ IsLabelled resource e id
unfolding claim_cluster
gcp_claim_binds resource e id h =
    elim (checked-Outcome resource e id (valid_id id) _ (from-Outcome resource e id _ refl) h) [
      | inl before ↦ inl before
      | inr l ↦ inr (record {
        key = l.key;
        read = l.read;
        unowned = l.unowned;
        labels = insert label id l.key.labels;
        written = l.written;
        kept = λ other. lookup-insert label other id l.key.labels;
        reread = l.reread;
      })
    ]
