-- ===== src/Backend/Gcpkms/Tests.antt =====
-- Runs of internal/backend/gcpkms.go and gcpkms_binding.go.
use cosmosigner.Prelude.{◌≡◌, refl, ◌⊎◌, Bytes, codes, bytes_eq, false, [], ◌∷◌, ok, err}
use cosmosigner.Prelude.Assoc.{lookup, insert}
use cosmosigner.ClusterId
use cosmosigner.Backend.{require_claim_owner}
use cosmosigner.Backend.Addressing.{split, trim, trim_left, reverse_onto, is_space}
use cosmosigner.Backend.Gcpkms.{
  label, CryptoKey, key, get_crypto_key, cluster_binding, ClaimEnv, update, claim_cluster,
  bad_resource, crypto_key_name,
}
use cosmosigner.Backend.Gcpkms.Labels.{gcp_claim_binds, IsLabelled}

machine : Unit {0}
unfolding bytes_eq lookup insert ClusterId.validate ClusterId.is_hex require_claim_owner split trim
    trim_left reverse_onto is_space get_crypto_key cluster_binding update claim_cluster
    crypto_key_name
machine = tt

names_the_key :
    crypto_key_name (codes "projects/p/locations/l/keyRings/r/cryptoKeys/k/cryptoKeyVersions/1")
    ≡ ok (codes "projects/p/locations/l/keyRings/r/cryptoKeys/k")
unfolding machine
names_the_key = refl

refuses_dots :
    crypto_key_name (codes "projects/../locations/l/keyRings/r/cryptoKeys/k/cryptoKeyVersions/1")
    ≡ err bad_resource
unfolding machine
refuses_dots = refl

abbrev id_a : Bytes
id_a = codes "00112233-4455-4677-8899-aabbccddeeff"

abbrev unlabelled : CryptoKey
unlabelled = record { name = codes "k"; labels = (codes "env", codes "prod") ∷ [] }

abbrev env : ClaimEnv
env = record {
  before = key unlabelled;
  update_fails = false;
  after = key (record unlabelled { labels = insert label id_a unlabelled.labels });
}

gcp_claim_binds_example :
    (cluster_binding (codes "k") env.before ≡ ok id_a) ⊎ IsLabelled (codes "k") env id_a
unfolding machine
gcp_claim_binds_example = gcp_claim_binds (codes "k") env id_a refl
