-- ===== src/Backend/Awskms/Claiming.antt =====
-- ClaimCluster of internal/backend/awskms_binding.go: when it writes, and on what it succeeds.
use cosmosigner.Prelude.{
  ◌≡◌, refl, ap, ◌∙◌, sym, ◌⊎◌, inl, inr, ℕ, zero, suc, ◌+◌, ◌≤◌, ◌<◌, Bytes, Bool, true, false,
  none, some, Result, ok, err, arith, if◌then◌else◌,
}
use cosmosigner.Backend.{
  BindingError, unclaimed, corrupt, unreadable, mismatch, unsupported, invalid_id, cancelled,
  io_failed, valid_id, require_claim_owner,
}
use cosmosigner.Backend.VaultClaiming.{owner_is}
use cosmosigner.Backend.Awskms.{
  tag_key, attempts, ClaimEnv, reread, Claimed, tag_and_reread, claim_from, checked_id,
  claim_cluster,
}

-- A reread, of those in a range, that sees the tag of the identity.
record Sees (e : ClaimEnv) (id : Bytes) (from until : ℕ) : Type 0 where
  at : ℕ
  begun : from ≤ at
  ended : at < until
  seen : e.after at ≡ ok id

after_reread :
    (e : ClaimEnv) (id : Bytes) (left k until : ℕ) (r : Result BindingError Bytes) (go_on : Bool)
    (rest : Result BindingError (Unit {0}))
    → e.after k ≡ r
    → k < until
    → (rest ≡ ok tt → Sees e id (suc k) until)
    → elim r [
      | ok owner ↦ require_claim_owner id owner
      | err unclaimed ↦ elim go_on [ true ↦ rest | false ↦ err cancelled ]
      | err b ↦ err b
    ]
      ≡ ok tt
    → Sees e id k until
after_reread e id left k until (ok owner) go_on rest was early later h = record {
  at = k;
  begun = omega arith;
  ended = early;
  seen = was ∙ ap ok (owner_is id owner h);
}
after_reread e id left k until (err unclaimed) true rest was early later h =
    let s = later h in
    record { at = s.at; begun = omega (arith, s.begun); ended = s.ended; seen = s.seen }
after_reread e id left k until (err unclaimed) false rest was early later h = cc h
after_reread e id left k until (err corrupt) go_on rest was early later h = cc h
after_reread e id left k until (err unreadable) go_on rest was early later h = cc h
after_reread e id left k until (err mismatch) go_on rest was early later h = cc h
after_reread e id left k until (err unsupported) go_on rest was early later h = cc h
after_reread e id left k until (err invalid_id) go_on rest was early later h = cc h
after_reread e id left k until (err cancelled) go_on rest was early later h = cc h
after_reread e id left k until (err io_failed) go_on rest was early later h = cc h

reread-Sees :
    (e : ClaimEnv) (id : Bytes) (left k until : ℕ)
    → k + left ≡ until
    → reread e id left k ≡ ok tt
    → Sees e id k until
unfolding reread
reread-Sees e id zero k until sum h = cc h
reread-Sees e id (suc left) k until sum h =
    after_reread e id left k until (e.after k) _ _ refl (omega arith)
      (λ more. reread-Sees e id left (suc k) until (omega arith) more) h

-- How a claim can succeed after a write: the key had no owner, its tag is the identity's, and one of the
-- rereads sees it.
pub record IsTagged (e : ClaimEnv) (id : Bytes) : Type 0 where
  pub unowned : e.before ≡ err unclaimed
  pub written : (claim_cluster e id).1 ≡ some (tag_key, id)
  pub at : ℕ
  pub in_time : at < attempts
  pub seen : e.after at ≡ ok id

tagged :
    (e : ClaimEnv) (id : Bytes) (fails : Bool) (c wrote : Claimed)
    → c ≡ (if fails then (err io_failed, none) else wrote)
    → c.0 ≡ ok tt
    → c ≡ wrote
tagged e id true c wrote same h = cc (ap (λ (d : Claimed). d.0) same)
tagged e id false c wrote same h = same

abbrev Outcome : ClaimEnv → Bytes → Claimed → Type 0
Outcome e id c =
    (e.before ≡ ok id)
    ⊎ ((e.before ≡ err unclaimed) × (c.1 ≡ some (tag_key, id)) × Sees e id 0 attempts)

from-Outcome :
    (e : ClaimEnv) (id : Bytes) (seen : Result BindingError Bytes)
    → e.before ≡ seen
    → (claim_from e id seen).0 ≡ ok tt
    → Outcome e id (claim_from e id seen)
from-Outcome e id (ok owner) was h = inl (was ∙ ap ok (owner_is id owner h))
from-Outcome e id (err unclaimed) was h =
    let same = tagged e id e.tag_fails (tag_and_reread e id) _ refl h in
    inr (
      was,
      ap (λ c. c.1) same,
      reread-Sees e id attempts 0 attempts refl (ap (λ (c : Claimed). c.0) (sym same) ∙ h),
    )
from-Outcome e id (err corrupt) was h = cc h
from-Outcome e id (err unreadable) was h = cc h
from-Outcome e id (err mismatch) was h = cc h
from-Outcome e id (err unsupported) was h = cc h
from-Outcome e id (err invalid_id) was h = cc h
from-Outcome e id (err cancelled) was h = cc h
from-Outcome e id (err io_failed) was h = cc h

checked-Outcome :
    (e : ClaimEnv) (id : Bytes) (c : Result BindingError (Unit {0})) (rest : Claimed)
    → (rest.0 ≡ ok tt → Outcome e id rest)
    → (checked_id c rest).0 ≡ ok tt
    → Outcome e id (checked_id c rest)
checked-Outcome e id (ok u) rest k h = k h
checked-Outcome e id (err b) rest k h = cc h

-- A claim of an AWS key succeeds only where the key's tag named this cluster before; or where the key had
-- no cluster tag, the claim wrote this cluster's, and one of the eight rereads that follow found it.
pub aws_claim_binds :
    (e : ClaimEnv) (id : Bytes)
    → (claim_cluster e id).0 ≡ ok tt
    → (e.before ≡ ok id) ⊎ IsTagged e id
unfolding claim_cluster
aws_claim_binds e id h =
    elim (checked-Outcome e id (valid_id id) (claim_from e id e.before)
      (from-Outcome e id e.before refl) h) [
        | inl owned ↦ inl owned
        | inr (unowned, wrote, s) ↦ inr (record {
          unowned = unowned;
          written = wrote;
          at = s.at;
          in_time = s.ended;
          seen = s.seen;
        })
      ]
