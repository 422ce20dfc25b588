-- ===== src/Backend.antt =====
-- internal/backend: the configuration of a key backend, and the claim of a cluster on its key. Strings
-- of a configuration are lists of code points. The durable claim of a resource is what it reads.
pub mod Addressing
pub mod FileBinding
pub mod Claiming
pub mod VaultBinding
pub mod VaultClaiming
pub mod Token
pub mod Transit
pub mod Awskms
pub mod Gcpkms
pub mod KeyFile
pub mod Tests
use cosmosigner.Prelude.{
  ℕ, Bytes, bytes_eq, is_empty, Bool, true, false, not, Option, none, some, Result, ok, err, ◌>>=◌,
  fail_if, if◌then◌else◌,
}
use cosmosigner.Prelude.Int.{ℤ}
use cosmosigner.ClusterId

-- Type; `unset` is the empty string, and `other` any other text.
pub data BackendType : Type 0 where
  software vault gcpkms awskms pkcs11 unset : BackendType
  other : Bytes → BackendType

pub record VaultConfig : Type 0 where
  pub address : Bytes
  pub token_file : Bytes
  pub mount : Bytes
  pub binding_mount : Bytes
  pub key_name : Bytes
  pub key_version : ℤ
  pub namespace : Bytes
  pub tls_ca_cert : Bytes
  pub claim_token_file : Bytes

pub record GcpkmsConfig : Type 0 where
  pub key_version : Bytes
  pub credentials_file : Bytes
  pub claim_credentials_file : Bytes
  pub timeout : ℕ

pub record AwskmsConfig : Type 0 where
  pub key_id : Bytes
  pub region : Bytes
  pub claim_role_arn : Bytes
  pub assume_role_arn : Bytes
  pub timeout : ℕ

pub record Pkcs11Config : Type 0 where
  pub mod_path : Bytes
  pub token_label : Bytes
  pub slot : Option ℕ
  pub key_label : Bytes
  pub key_id : Bytes
  pub pin_file : Bytes
  pub binding_file : Bytes

pub record BackendConfig : Type 0 where
  pub backend_type : BackendType
  pub software_key_file : Bytes
  pub software_binding_file : Bytes
  pub vault : VaultConfig
  pub gcpkms : GcpkmsConfig
  pub awskms : AwskmsConfig
  pub pkcs11 : Pkcs11Config

abbrev pub override : Bytes → Bytes → Bytes
override claim runtime = if not (is_empty claim) then claim else runtime

-- ClaimConfig
unfoldable pub claim_config : BackendConfig → BackendConfig
claim_config cfg = record cfg {
  vault = record cfg.vault {
    token_file = override cfg.vault.claim_token_file cfg.vault.token_file;
  };
  gcpkms = record cfg.gcpkms {
    credentials_file = override cfg.gcpkms.claim_credentials_file cfg.gcpkms.credentials_file;
  };
  awskms = record cfg.awskms { assume_role_arn = cfg.awskms.claim_role_arn };
}

unfoldable pub has_separate_claim_credentials : BackendConfig → Bool
has_separate_claim_credentials cfg = elim cfg.backend_type [
  | vault ↦ not (is_empty cfg.vault.claim_token_file)
  | gcpkms ↦ not (is_empty cfg.gcpkms.claim_credentials_file)
  | awskms ↦ not (is_empty cfg.awskms.claim_role_arn)
  | _ ↦ false
]

pub data BindingError : Type 0 where
  unclaimed corrupt unreadable mismatch unsupported : BindingError
  invalid_id cancelled io_failed : BindingError

-- requireClaimOwner
unfoldable pub require_claim_owner : Bytes → Bytes → Result BindingError (Unit {0})
require_claim_owner expected actual = fail_if (not (bytes_eq actual expected)) mismatch

abbrev pub valid_id : Bytes → Result BindingError (Unit {0})
valid_id id = elim (ClusterId.validate id) [ err b ↦ err invalid_id | ok u ↦ ok u ]

-- RequireClusterBinding, of what ClusterBinding of the backend answers.
unfoldable pub require_cluster_binding :
    Result BindingError Bytes → Bytes → Result BindingError (Unit {0})
require_cluster_binding binding cluster_id = valid_id cluster_id >>= λ u.
    binding >>= λ actual. fail_if (not (bytes_eq actual cluster_id)) mismatch
