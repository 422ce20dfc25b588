-- ===== src/Backend/VaultBinding.antt =====
-- internal/backend/vault_binding.go: the claim of a Vault Transit key, a record of a key-value store that
-- is created by compare-and-set only.
use cosmosigner.Prelude.{
  ◌==◌, Bytes, codes, bytes_eq, is_empty, Bool, true, false, not, ◌||◌, Option, none, some, [], ◌∷◌,
  length, Result, ok, err, ◌>>=◌, if◌then◌else◌,
}
use cosmosigner.Prelude.Int.{ℤ, pos, eqb_ℤ}
use cosmosigner.Prelude.Assoc.{Assoc, lookup}
use cosmosigner.ClusterId
use cosmosigner.Backend.{
  BindingError, unclaimed, corrupt, unreadable, valid_id, require_claim_owner,
}

-- A value of a response: text, a number that toInt accepts, or anything else.
pub data Value : Type 0 where
  text : Bytes → Value
  number : ℤ → Value
  other_value : Value

-- The current version of a record: whether its metadata is well formed, and its data.
pub record Secret : Type 0 where
  pub has_metadata : Bool
  pub destroyed : Option Bool
  pub deletion_time : Option Bytes
  pub record_data : Option (Assoc Value)

-- What a read of the record's path finds. A deleted record has metadata and no value.
pub data Kv : Type 0 where
  absent deleted : Kv
  value : Secret → Kv

-- What three reads of the path find (the value, the metadata, the value again), and which of them fail.
-- Another replica may write in between.
pub record Moments : Type 0 where
  pub first : Kv
  pub first_fails : Bool
  pub metadata : Kv
  pub metadata_fails : Bool
  pub second : Kv
  pub second_fails : Bool

pub record VaultKey : Type 0 where
  pub mount : Bytes
  pub key_name : Bytes

abbrev pub text_of : Option Value → Option Bytes
text_of (some (text t)) = some t
text_of _ = none

abbrev pub is_version_one : Option Value → Bool
is_version_one (some (number n)) = eqb_ℤ n (pos 1)
is_version_one _ = false

abbrev pub is_text : Bytes → Option Value → Bool
is_text t (some (text u)) = bytes_eq u t
is_text t _ = false

abbrev pub valid_owner : Option Bytes → Result BindingError Bytes
valid_owner none = err corrupt
valid_owner (some id) = elim (ClusterId.validate id) [ err e ↦ err corrupt | ok u ↦ ok id ]

-- parseBindingRecord, for the identity that ClusterBinding returns.
unfoldable pub parse_binding_record : VaultKey → Assoc Value → Result BindingError Bytes
parse_binding_record v data_map =
    if not (length data_map == 4)
    then err corrupt
    else if not (is_version_one (lookup (codes "version") data_map))
    then err corrupt
    else valid_owner (text_of (lookup (codes "cluster_id") data_map)) >>= λ id.
        if not (is_text v.mount (lookup (codes "transit_mount") data_map))
          || not (is_text v.key_name (lookup (codes "key_name") data_map))
        then err corrupt
        else ok id

abbrev pub is_false : Option Bool → Bool
is_false (some false) = true
is_false _ = false

abbrev pub is_blank : Option Bytes → Bool
is_blank (some t) = is_empty t
is_blank none = false

unfoldable pub parse_secret : VaultKey → Secret → Result BindingError Bytes
parse_secret v s =
    if not s.has_metadata
    then err corrupt
    else if not (is_false s.destroyed)
    then err corrupt
    else if not (is_blank s.deletion_time)
    then err corrupt
    else elim s.record_data [ none ↦ err corrupt | some m ↦ parse_binding_record v m ]

-- The second look at the value, where there was none but metadata.
unfoldable pub look_again : VaultKey → Bool → Kv → Result BindingError Bytes
look_again v true k = err unreadable
look_again v false (value s) = parse_secret v s
look_again v false _ = err corrupt

unfoldable pub look_for_metadata : VaultKey → Moments → Bool → Kv → Result BindingError Bytes
look_for_metadata v m true k = err unreadable
look_for_metadata v m false absent = err unclaimed
look_for_metadata v m false _ = look_again v m.second_fails m.second

unfoldable pub look : VaultKey → Moments → Bool → Kv → Result BindingError Bytes
look v m true k = err unreadable
look v m false (value s) = parse_secret v s
look v m false _ = look_for_metadata v m m.metadata_fails m.metadata

-- ClusterBinding
unfoldable pub cluster_binding : VaultKey → Moments → Result BindingError Bytes
cluster_binding v m = look v m m.first_fails m.first

-- The record that a claim writes, as the store answers with it.
unfoldable pub claim_record : VaultKey → Bytes → Secret
claim_record v id = record {
  has_metadata = true;
  destroyed = some false;
  deletion_time = some [];
  record_data = some (
      (codes "version", number (pos 1))
      ∷ (codes "cluster_id", text id)
      ∷ (codes "transit_mount", text v.mount)
      ∷ (codes "key_name", text v.key_name)
      ∷ []);
}

-- The reads around a claim's write.
pub record ClaimMoments : Type 0 where
  pub before : Moments
  pub after : Moments

-- A claim's outcome, and the record that it asked Vault to create with `cas: 0`, if it did.
abbrev pub Claimed : Type 0
Claimed = Result BindingError (Unit {0}) × Option Secret

abbrev pub owned : Bytes → Result BindingError Bytes → Result BindingError (Unit {0})
owned id (ok owner) = require_claim_owner id owner
owned id (err e) = err e

-- The write and the reread, which alone decides: a failed write may have arrived.
unfoldable pub write_claim : VaultKey → ClaimMoments → Bytes → Claimed
write_claim v m id = (owned id (cluster_binding v m.after), some (claim_record v id))

unfoldable pub claim_from : VaultKey → ClaimMoments → Bytes → Result BindingError Bytes → Claimed
claim_from v m id (ok owner) = (require_claim_owner id owner, none)
claim_from v m id (err unclaimed) = write_claim v m id
claim_from v m id (err e) = (err e, none)

abbrev pub checked_id : Result BindingError (Unit {0}) → Claimed → Claimed
checked_id (ok u) rest = rest
checked_id (err e) rest = (err e, none)

-- ClaimCluster
unfoldable pub claim_cluster : VaultKey → ClaimMoments → Bytes → Claimed
claim_cluster v m id = checked_id (valid_id id) (claim_from v m id (cluster_binding v m.before))
