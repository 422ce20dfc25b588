-- ===== src/Backend/Tests.antt =====
-- Claims of internal/backend/binding_file.go.
use cosmosigner.Prelude.{
  ◌⊎◌, Option, ℕ, zero, suc, ◌≡◌, refl, Bytes, codes, bytes_eq, true, false, none, some, ◌∷◌, ◌++◌,
  length, take, drop, take-length_append, drop-length_append, ok, err,
}
use cosmosigner.Prelude.Int.{ℤ, pos, negsuc}
use cosmosigner.ClusterId
use cosmosigner.Backend.{unclaimed, mismatch, require_claim_owner, require_cluster_binding}
use cosmosigner.Backend.FileBinding.{
  Marker, MarkerCodec, FileBinding, ClaimEnv, read_marker, read_file, read, own_marker, publish,
  claim_after_read, claim,
}
use cosmosigner.Prelude.Assoc.{lookup}
use cosmosigner.Backend.VaultBinding.{
  Kv, absent, value, Moments, VaultKey, ClaimMoments, parse_binding_record, parse_secret,
  look_again, look_for_metadata, look, cluster_binding, claim_record, write_claim, claim_from,
  claim_cluster,
}
use cosmosigner.Backend.VaultClaiming.{vault_claim_binds, settled, vault_claim_writes}
use cosmosigner.Backend.Claiming.{quiet, claim_keeps, claim_binds}

machine : Unit {0}
unfolding bytes_eq ClusterId.validate ClusterId.is_hex require_claim_owner require_cluster_binding
    read_marker read_file read own_marker publish claim_after_read claim
machine = tt

-- A codec: the version's sign and size, the length of the identity, the identity, the key.
abbrev encode_with : ℤ → Bytes → Bytes → Bytes
encode_with (pos n) id key = 0 ∷ n ∷ length id ∷ (id ++ key)
encode_with (negsuc n) id key = 1 ∷ n ∷ length id ∷ (id ++ key)

abbrev marker_of : ℤ → ℕ → Bytes → Option Marker
marker_of v len content =
    some (record { version = v; cluster_id = take len content; public_key = drop len content })

abbrev decode_file : Bytes → Option Marker
decode_file (zero ∷ n ∷ len ∷ content) = marker_of (pos n) len content
decode_file (suc s ∷ n ∷ len ∷ content) = marker_of (negsuc n) len content
decode_file _ = none

abbrev codec : MarkerCodec
codec = record {
  decode = decode_file;
  encode = λ m. encode_with m.version m.cluster_id m.public_key;
}

decode-encode :
    (v : ℤ) (id key : Bytes)
    → decode_file (encode_with v id key)
      ≡ some (record { version = v; cluster_id = id; public_key = key })
decode-encode (pos n) id key = rw (take-length_append id key, drop-length_append id key)
decode-encode (negsuc n) id key = rw (take-length_append id key, drop-length_append id key)

abbrev id_a : Bytes
id_a = codes "00112233-4455-4677-8899-aabbccddeeff"

abbrev id_b : Bytes
id_b = codes "10112233-4455-4677-8899-aabbccddeeff"

abbrev key : FileBinding
key = record { has_path = true; public_key = codes "pk" }

abbrev calm : ClaimEnv
calm = record {
  lock = ok tt;
  precheck = ok tt;
  first_read = quiet;
  prepared = ok tt;
  others = λ d. d;
  link_fails = false;
  cleanup = ok tt;
  second_read = quiet;
  sync_published = ok tt;
  sync_directory = ok tt;
}

abbrev held_by_a : Bytes
held_by_a = encode_with (pos 1) id_a (codes "pk")

writes : claim codec key calm id_a none ≡ (ok tt, some held_by_a)
unfolding machine
writes = refl

-- Another process claims the key between the read and the link.
late_winner :
    claim codec key (record calm { others = λ d. some held_by_a }) id_b none
    ≡ (err mismatch, some held_by_a)
unfolding machine
late_winner = refl

claim_keeps_example : (claim codec key calm id_b (some held_by_a)).1 ≡ some held_by_a
claim_keeps_example = claim_keeps codec key calm id_b held_by_a refl

claim_binds_example :
    (read codec key quiet (claim codec key calm id_a none).1 ≡ ok id_a)
    × (require_cluster_binding (read codec key quiet (claim codec key calm id_a none).1) id_a
        ≡ ok tt)
unfolding machine
claim_binds_example =
    claim_binds codec key calm id_a none (λ m. decode-encode m.version m.cluster_id m.public_key)
      refl

vault_run : Unit {0}
unfolding bytes_eq lookup ClusterId.validate ClusterId.is_hex require_claim_owner
    parse_binding_record parse_secret look_again look_for_metadata look cluster_binding claim_record
    write_claim claim_from claim_cluster
vault_run = tt

abbrev transit : VaultKey
transit = record { mount = codes "transit"; key_name = codes "val" }

abbrev seen : Kv → Moments
seen k = record {
  first = k;
  first_fails = false;
  metadata = k;
  metadata_fails = false;
  second = k;
  second_fails = false;
}

-- The key has no owner before the write, and this claim's record after it.
abbrev first_claim : ClaimMoments
first_claim = record { before = seen absent; after = seen (value (claim_record transit id_a)) }

-- Another replica's claim came first.
lost_race : (claim_cluster transit first_claim id_b).0 ≡ err mismatch
unfolding vault_run
lost_race = refl

vault_claim_binds_example :
    (cluster_binding transit first_claim.before ≡ ok id_a)
    ⊎ ((cluster_binding transit first_claim.before ≡ err unclaimed)
        × (cluster_binding transit first_claim.after ≡ ok id_a))
unfolding vault_run
vault_claim_binds_example = vault_claim_binds transit first_claim id_a refl

vault_claim_writes_example :
    (cluster_binding transit first_claim.before ≡ err unclaimed)
    × (cluster_binding transit (settled (claim_record transit id_a)) ≡ ok id_a)
unfolding vault_run
vault_claim_writes_example =
    vault_claim_writes transit first_claim id_a (claim_record transit id_a) refl
