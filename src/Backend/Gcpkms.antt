-- ===== src/Backend/Gcpkms.antt =====
-- internal/backend/gcpkms.go and gcpkms_binding.go: a key of Google Cloud KMS, its signatures, and the
-- label that names its cluster. What the service answers is an argument.
pub mod Labels
pub mod Tests
use cosmosigner.Prelude.{
  ℕ, ◌==◌, Bytes, codes, bytes_eq, is_empty, Bool, true, false, not, ◌&&◌, ◌||◌, Option, none, some,
  List, [], ◌∷◌, ◌++◌, length, any, Result, ok, err, ◌>>=◌, fail_if, or_fail, if◌then◌else◌,
}
use cosmosigner.Prelude.Assoc.{Assoc, lookup, insert}
use cosmosigner.ClusterId
use cosmosigner.Backend.{
  GcpkmsConfig, BindingError, unclaimed, corrupt, unreadable, io_failed, valid_id,
  require_claim_owner,
}
use cosmosigner.Backend.Addressing.{split, trim_space, slash}

abbrev pub label : Bytes
label = codes "cosmosigner-cluster-id"

-- A CryptoKey: its name and its labels.
pub record CryptoKey : Type 0 where
  pub name : Bytes
  pub labels : Assoc Bytes

-- What GetCryptoKey answers; a nil key is `no_key`.
pub data KeyAnswer : Type 0 where
  failed_key no_key : KeyAnswer
  key : CryptoKey → KeyAnswer

abbrev pub named : Bytes → CryptoKey → Result BindingError CryptoKey
named resource k = if not (bytes_eq k.name resource) then err unreadable else ok k

-- getCryptoKey
unfoldable pub get_crypto_key : Bytes → KeyAnswer → Result BindingError CryptoKey
get_crypto_key resource failed_key = err unreadable
get_crypto_key resource no_key = err unreadable
get_crypto_key resource (key k) = named resource k

abbrev pub valid_label : Option Bytes → Result BindingError Bytes
valid_label none = err unclaimed
valid_label (some id) = elim (ClusterId.validate id) [ err e ↦ err corrupt | ok u ↦ ok id ]

-- ClusterBinding
unfoldable pub cluster_binding : Bytes → KeyAnswer → Result BindingError Bytes
cluster_binding resource a = get_crypto_key resource a >>= λ k. valid_label (lookup label k.labels)

-- What a claim sees: the key before, whether the update fails, and the key after it.
pub record ClaimEnv : Type 0 where
  pub before : KeyAnswer
  pub update_fails : Bool
  pub after : KeyAnswer

-- A claim's outcome, and the labels that it asked to be set, if it did.
abbrev pub Claimed : Type 0
Claimed = Result BindingError (Unit {0}) × Option (Assoc Bytes)

abbrev pub owned : Bytes → Result BindingError Bytes → Result BindingError (Unit {0})
owned id (ok owner) = require_claim_owner id owner
owned id (err e) = err e

unfoldable pub update : Bytes → ClaimEnv → Bytes → Assoc Bytes → Claimed
update resource e id labels = (
  if e.update_fails then err io_failed else owned id (cluster_binding resource e.after),
  some (insert label id labels),
)

abbrev pub claim_labelled : Bytes → ClaimEnv → Bytes → Assoc Bytes → Option Bytes → Claimed
claim_labelled resource e id labels none = update resource e id labels
claim_labelled resource e id labels (some owner) = (owned id (valid_label (some owner)), none)

abbrev pub claim_from : Bytes → ClaimEnv → Bytes → Result BindingError CryptoKey → Claimed
claim_from resource e id (err b) = (err b, none)
claim_from resource e id (ok k) = claim_labelled resource e id k.labels (lookup label k.labels)

abbrev pub checked_id : Result BindingError (Unit {0}) → Claimed → Claimed
checked_id (ok u) rest = rest
checked_id (err b) rest = (err b, none)

-- ClaimCluster
unfoldable pub claim_cluster : Bytes → ClaimEnv → Bytes → Claimed
claim_cluster resource e id =
    checked_id (valid_id id) (claim_from resource e id (get_crypto_key resource e.before))

pub data GcpError : Type 0 where
  bad_resource no_key_version no_client : GcpError
  get_failed wrong_algorithm bad_pem bad_key : GcpError
  sign_failed unverified_request key_mismatch corrupted signature_size not_verified : GcpError

abbrev pub is_bad_part : Bytes → Bool
is_bad_part part =
    is_empty part
    || bytes_eq part (codes ".")
    || bytes_eq part (codes "..")
    || not (bytes_eq (trim_space part) part)

abbrev pub join_slash : Bytes → Bytes → Bytes
join_slash a b = a ++ (slash ∷ b)

abbrev pub key_name_of : List Bytes → Result GcpError Bytes
key_name_of (p ∷ project ∷ l ∷ location ∷ r ∷ ring ∷ c ∷ key_id ∷ v ∷ version ∷ []) =
    if not (
        bytes_eq p (codes "projects")
        && bytes_eq l (codes "locations")
        && bytes_eq r (codes "keyRings")
        && bytes_eq c (codes "cryptoKeys")
        && bytes_eq v (codes "cryptoKeyVersions"))
      || any is_bad_part (project ∷ location ∷ ring ∷ key_id ∷ version ∷ [])
    then err bad_resource
    else ok (
        join_slash p (
          join_slash project (
            join_slash l
              (join_slash location (join_slash r (join_slash ring (join_slash c key_id)))))))
key_name_of _ = err bad_resource

-- gcpCryptoKeyName: the key of a version's resource name.
unfoldable pub crypto_key_name : Bytes → Result GcpError Bytes
crypto_key_name version = key_name_of (split slash version)

-- An answer to AsymmetricSign.
pub record SignAnswer : Type 0 where
  pub verified_data_crc : Bool
  pub name : Bytes
  pub signature : Bytes
  pub signature_crc : Option ℕ

abbrev pub is_intact : (Bytes → ℕ) → SignAnswer → Bool
is_intact crc a = elim a.signature_crc [ none ↦ false | some c ↦ crc a.signature == c ]

-- `crc` is the checksum of hash/crc32 with the Castagnoli table.
module _ (crc : Bytes → ℕ) where
  -- signWithContext, of the version's name and the answer; `none` is an error of the call.
  unfoldable pub sign : Bytes → Option SignAnswer → Result GcpError Bytes
  sign version none = err sign_failed
  sign version (some a) = fail_if (not a.verified_data_crc) unverified_request >>= λ u.
      fail_if (not (bytes_eq a.name version)) key_mismatch >>= λ u.
      fail_if (not (is_intact crc a)) corrupted >>= λ u.
      fail_if (not (length a.signature == 64)) signature_size >>= λ u. ok a.signature

-- gcpPreflightMessage, with its dash in UTF-8
abbrev pub preflight : Bytes
preflight =
    codes "cosmosigner/gcpkms preflight " ++ (226 ∷ 128 ∷ 148 ∷ codes " not a consensus message")

-- An answer to GetPublicKey, and the block that pem.Decode finds in it.
pub record PublicKeyAnswer : Type 0 where
  pub is_ed25519_algorithm : Bool
  pub block : Option Bytes

-- What x509 parses: an Ed25519 key, or another one.
pub data Parsed : Type 0 where
  ed25519 : Bytes → Parsed
  other_key : Parsed

abbrev pub key_bytes : Parsed → Result GcpError Bytes
key_bytes other_key = err bad_key
key_bytes (ed25519 k) = if not (length k == 32) then err bad_key else ok k

module _ (parse : Bytes → Option Parsed) where
  -- fetchPubKey
  unfoldable pub fetch_pub_key : Option PublicKeyAnswer → Result GcpError Bytes
  fetch_pub_key none = err get_failed
  fetch_pub_key (some a) = fail_if (not a.is_ed25519_algorithm) wrong_algorithm >>= λ u.
      or_fail a.block bad_pem >>= λ block. or_fail (parse block) bad_key >>= key_bytes

  -- NewGCPKMS: the key's resource, the timeout and the public key.
  unfoldable pub new_gcpkms :
      GcpkmsConfig → Bool → Option PublicKeyAnswer → Result GcpError (Bytes × ℕ × Bytes)
  new_gcpkms cfg client_fails a = fail_if (is_empty cfg.key_version) no_key_version >>= λ u.
      crypto_key_name cfg.key_version >>= λ resource. fail_if client_fails no_client >>= λ u.
      fetch_pub_key a >>= λ pub_key.
      ok (resource, if cfg.timeout == 0 then 10000000000 else cfg.timeout, pub_key)

-- VerifyCanSign; `verify` is the check of a signature of a message under a key.
unfoldable pub verify_can_sign :
    (Bytes → ℕ)
    → (Bytes → Bytes → Bytes → Bool)
    → Bytes
    → Bytes
    → Option SignAnswer
    → Result GcpError (Unit {0})
verify_can_sign crc verify pub_key version a =
    sign crc version a >>= λ sig. fail_if (not (verify pub_key preflight sig)) not_verified
