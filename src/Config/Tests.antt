-- ===== src/Config/Tests.antt =====
-- Configurations that Validate of internal/config/config.go accepts and refuses.
use cosmosigner.Prelude.{◌≡◌, refl, codes, bytes_eq, true, false, none, [], ◌∷◌, ok, err}
use cosmosigner.Prelude.Int.{pos}
use cosmosigner.Backend.{BackendConfig, vault}
use cosmosigner.Backend.Addressing.{
  trim_left, reverse_onto, trim, is_space, split, contains, is_ambiguous, normalize_mount,
  normalize_key_name, validate_addressing, mount_ambiguous,
}
use cosmosigner.Config.{
  Config, validate, validate_nodes, validate_vault, validate_backend, validate_claim,
  validate_members, validate_bootstrap, validate_tls, validate_raft, addressing, claim_unused,
  state_config,
}
use cosmosigner.State.RaftStore.Startup.{with_defaults, check_config}
use cosmosigner.Config.Startable.{validate_starts}

machine : Unit {0}
unfolding bytes_eq trim_left reverse_onto trim is_space split contains is_ambiguous normalize_mount
    normalize_key_name validate_addressing validate validate_nodes validate_vault validate_backend
    validate_claim validate_members validate_bootstrap validate_tls validate_raft
machine = tt

abbrev backend : BackendConfig
backend = record {
  backend_type = vault;
  software_key_file = [];
  software_binding_file = [];
  vault = record {
    address = [];
    token_file = codes "t";
    mount = codes "/transit/";
    binding_mount = codes "cosmosigner";
    key_name = codes "val";
    key_version = pos 0;
    namespace = [];
    tls_ca_cert = [];
    claim_token_file = [];
  };
  gcpkms = record {
    key_version = [];
    credentials_file = [];
    claim_credentials_file = [];
    timeout = 0;
  };
  awskms = record {
    key_id = [];
    region = [];
    claim_role_arn = [];
    assume_role_arn = [];
    timeout = 0;
  };
  pkcs11 = record {
    mod_path = [];
    token_label = [];
    slot = none;
    key_label = [];
    key_id = [];
    pin_file = [];
    binding_file = [];
  };
}

abbrev config : Config
config = record {
  chain_id = codes "chain";
  node_addrs = codes "a:1" ∷ [];
  node_service = [];
  claim_if_unclaimed = false;
  backend = backend;
  raft = record {
    node_id = codes "n1";
    bind_addr = codes "b:1";
    advertise = [];
    data_dir = codes "d";
    bootstrap = true;
    single_node = false;
    members = record { id = codes "n1"; address = codes "b:1" } ∷ [];
    insecure = true;
    tls_cert = [];
    tls_key = [];
    tls_ca = [];
  };
}

accepted : validate config ≡ ok tt
unfolding machine
accepted = refl

dotted_mount :
    validate (record config {
      backend = record backend { vault = record backend.vault { mount = codes "a/../b" } };
    })
    ≡ err (addressing mount_ambiguous)
unfolding machine
dotted_mount = refl

unused_claim :
    validate (record config {
      backend = record backend { vault = record backend.vault { claim_token_file = codes "c" } };
    })
    ≡ err claim_unused
unfolding machine
unused_claim = refl

validate_starts_example :
    check_config (state_config config.raft) ≡ ok (with_defaults (state_config config.raft))
validate_starts_example = validate_starts config accepted
