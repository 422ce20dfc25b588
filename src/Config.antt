-- ===== src/Config.antt =====
-- internal/config/config.go: Validate, and the Raft configuration that cmd/cosmosigner/cmd/start.go makes
-- of a configuration. Defaults, YAML and the environment are read by libraries.
pub mod Startable
pub mod Tests
use cosmosigner.Prelude.{
  ℕ, zero, ◌+◌, ◌==◌, Bytes, bytes_eq, is_empty, Bool, true, false, not, ◌&&◌, ◌||◌, Option, none,
  some, List, [], ◌∷◌, map, Result, ok, err, ◌>>=◌, ◌>>◌, fail_if, if◌then◌else◌,
}
use cosmosigner.Prelude.Int.{ℤ, pos, ltb_ℤ}
use cosmosigner.Backend.{
  BackendConfig, VaultConfig, GcpkmsConfig, AwskmsConfig, Pkcs11Config, BackendType, software,
  vault, gcpkms, awskms, pkcs11, unset, other,
}
use cosmosigner.Backend.Addressing.{AddressError, validate_addressing, validate_pkcs11}
use cosmosigner.State.RaftStore.Startup

pub record Member : Type 0 where
  pub id : Bytes
  pub address : Bytes

pub record RaftConfig : Type 0 where
  pub node_id : Bytes
  pub bind_addr : Bytes
  pub advertise : Bytes
  pub data_dir : Bytes
  pub bootstrap : Bool
  pub single_node : Bool
  pub members : List Member
  pub insecure : Bool
  pub tls_cert : Bytes
  pub tls_key : Bytes
  pub tls_ca : Bytes

-- The fields that Validate reads.
pub record Config : Type 0 where
  pub chain_id : Bytes
  pub node_addrs : List Bytes
  pub node_service : Bytes
  pub claim_if_unclaimed : Bool
  pub backend : BackendConfig
  pub raft : RaftConfig

pub data ConfigError : Type 0 where
  chain_id_required no_nodes nodes_and_service : ConfigError
  key_file_required vault_key_name vault_token_file vault_key_version aws_key_id gcp_key_version
        unknown_backend :
      ConfigError
  addressing : AddressError → ConfigError
  claim_unused claim_needs_vault claim_needs_gcp : ConfigError
  node_id_required bind_addr_required data_dir_required : ConfigError
  empty_members member_incomplete not_a_member : ConfigError
  tls_incomplete tls_and_insecure no_tls : ConfigError

abbrev pub no_items : {A : Type 0} → List A → Bool
no_items [] = true
no_items (a ∷ rest) = false

unfoldable pub validate_nodes : Config → Result ConfigError (Unit {0})
validate_nodes c =
    if no_items c.node_addrs && is_empty c.node_service
    then err no_nodes
    else fail_if (not (no_items c.node_addrs) && not (is_empty c.node_service)) nodes_and_service

abbrev pub as_config : Result AddressError (Unit {0}) → Result ConfigError (Unit {0})
as_config (ok u) = ok u
as_config (err e) = err (addressing e)

unfoldable pub validate_vault : VaultConfig → Result ConfigError (Unit {0})
validate_vault v =
    if is_empty v.key_name
    then err vault_key_name
    else if is_empty v.token_file
    then err vault_token_file
    else if ltb_ℤ v.key_version (pos 0)
    then err vault_key_version
    else as_config (validate_addressing v.mount v.binding_mount v.key_name)

unfoldable pub validate_backend : BackendConfig → Result ConfigError (Unit {0})
validate_backend b = elim b.backend_type [
  | software ↦ fail_if (is_empty b.software_key_file) key_file_required
  | unset ↦ fail_if (is_empty b.software_key_file) key_file_required
  | vault ↦ validate_vault b.vault
  | awskms ↦ fail_if (is_empty b.awskms.key_id) aws_key_id
  | pkcs11 ↦ as_config (validate_pkcs11 b.pkcs11)
  | gcpkms ↦ fail_if (is_empty b.gcpkms.key_version) gcp_key_version
  | other t ↦ err unknown_backend
]

abbrev pub is_vault : BackendType → Bool
is_vault vault = true
is_vault _ = false

abbrev pub is_gcpkms : BackendType → Bool
is_gcpkms gcpkms = true
is_gcpkms _ = false

unfoldable pub validate_claim : Config → Result ConfigError (Unit {0})
validate_claim c =
    let token = not (is_empty c.backend.vault.claim_token_file) in
    let credentials = not (is_empty c.backend.gcpkms.claim_credentials_file) in
    if not c.claim_if_unclaimed && (token || credentials)
    then err claim_unused
    else if token && not (is_vault c.backend.backend_type)
    then err claim_needs_vault
    else fail_if (credentials && not (is_gcpkms c.backend.backend_type)) claim_needs_gcp

-- The loop over the members: whether the node was found.
unfoldable pub validate_members : Bytes → List Member → Bool → Result ConfigError Bool
validate_members node_id [] found = ok found
validate_members node_id (m ∷ rest) found =
    let later = validate_members node_id rest (bytes_eq m.id node_id || found) in
    if is_empty m.id || is_empty m.address then err member_incomplete else later

unfoldable pub validate_bootstrap : RaftConfig → Result ConfigError (Unit {0})
validate_bootstrap r =
    if r.bootstrap && no_items r.members && not r.single_node
    then err empty_members
    else if r.bootstrap && not (no_items r.members)
    then (validate_members r.node_id r.members false >>= λ found. fail_if (not found) not_a_member)
    else ok tt

abbrev pub set_files : List Bytes → ℕ
set_files [] = 0
set_files (f ∷ rest) = (if is_empty f then 0 else 1) + set_files rest

unfoldable pub validate_tls : RaftConfig → Result ConfigError (Unit {0})
validate_tls r =
    let n = set_files (r.tls_cert ∷ r.tls_key ∷ r.tls_ca ∷ []) in
    if not (n == 0) && not (n == 3)
    then err tls_incomplete
    else if r.insecure && not (n == 0)
    then err tls_and_insecure
    else fail_if (n == 0 && not r.insecure) no_tls

unfoldable pub validate_raft : RaftConfig → Result ConfigError (Unit {0})
validate_raft r =
    if is_empty r.node_id
    then err node_id_required
    else if is_empty r.bind_addr
    then err bind_addr_required
    else if is_empty r.data_dir
    then err data_dir_required
    else (validate_bootstrap r >>= λ u. validate_tls r)

-- Validate
unfoldable pub validate : Config → Result ConfigError (Unit {0})
validate c =
    if is_empty c.chain_id
    then err chain_id_required
    else (validate_nodes c >>= λ u.
        validate_backend c.backend >>= λ v. validate_claim c >>= λ w. validate_raft c.raft)

-- The members and the Raft configuration of runStartWithContext. The timeout is left at its zero.
abbrev pub state_member : Member → Startup.Member
state_member m = record { id = m.id; address = m.address }

unfoldable pub state_config : RaftConfig → Startup.RaftConfig
state_config r = record {
  node_id = r.node_id;
  bind_addr = r.bind_addr;
  advertise = r.advertise;
  data_dir = r.data_dir;
  bootstrap = r.bootstrap;
  single_node = r.single_node;
  insecure = r.insecure;
  members = map state_member r.members;
  apply_timeout = 0;
  tls = record { cert_file = r.tls_cert; key_file = r.tls_key; ca_file = r.tls_ca };
}
