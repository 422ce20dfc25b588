-- ===== src/Backend/Transit/Tests.antt =====
-- Runs of internal/backend/vault.go and vault_import.go.
use cosmosigner.Prelude.{
  ◌≡◌, refl, inl, ℕ, zero, suc, ◌+◌, ◌*◌, ◌<◌, All, arith, Bytes, codes, bytes_eq, Bool, true,
  false, ◌&&◌, ◌⊎◌, none, some, List, [], ◌∷◌, ◌++◌, any, ok, err,
}
use cosmosigner.Prelude.Int.{pos}
use cosmosigner.Prelude.Assoc.{lookup}
use cosmosigner.Prelude.Base64
use cosmosigner.Prelude.Base64.{IsByte}
use cosmosigner.Backend.{VaultConfig}
use cosmosigner.Backend.Addressing.{
  split, trim, trim_left, reverse_onto, is_space, contains, is_ambiguous, normalize_mount,
  normalize_key_name,
}
use cosmosigner.Backend.VaultBinding.{number}
use cosmosigner.Backend.Transit.{
  below_minimum, version, KeyInfo, found, Fetched, digits_onto, itoa, minimum_for, entry_key,
  fetch_version, fetch_found, fetch_if_exists, fetch_pub_key, parse_transit_signature, signed,
  sign_with, preflight, denied, lease, Answers, verify_signing_key, verify_can_sign, checked_config,
  new_vault,
}
use cosmosigner.Backend.Transit.Keys.{transit_signature}
use cosmosigner.Backend.Transit.Renewal.{
  second, minute, Pass, Renewal, replace_token, take_token, renew, wait_or_renew, turn_with, turn,
  loop, renewals,
}
use cosmosigner.Backend.Transit.Renewing.{SomeOffered, loop-token, IsSteady, renews_within}
use cosmosigner.Backend.Transit.Import.{
  ImportEnv, accepted, completes_version, import_key, IsJustified, import_never_overwrites,
}

machine : Unit {0}
unfolding bytes_eq lookup Base64.encode Base64.decode Base64.decode_groups Base64.skip_line_ends
    split trim trim_left reverse_onto is_space contains is_ambiguous normalize_mount
    normalize_key_name digits_onto itoa minimum_for entry_key fetch_version fetch_found
    fetch_if_exists fetch_pub_key parse_transit_signature sign_with verify_signing_key
    verify_can_sign checked_config new_vault replace_token take_token renew wait_or_renew turn_with
    turn loop renewals import_key
machine = tt

abbrev repeat : ℕ → ℕ → Bytes
repeat zero c = []
repeat (suc n) c = c ∷ repeat n c

repeat-bytes : (n c : ℕ) → c < 256 → All IsByte (repeat n c)
repeat-bytes zero c h = tt
repeat-bytes (suc n) c h = (h, repeat-bytes n c h)

abbrev signature : Bytes
signature = repeat 64 200

reads_foobar : Base64.decode (codes "Zm9vYmE=") ≡ some (codes "fooba")
unfolding machine
reads_foobar = refl

prints_a_number : itoa (pos 1207) ≡ codes "1207"
unfolding machine
prints_a_number = refl

abbrev key_text : Bytes
key_text = Base64.encode (repeat 32 7)

-- Version 2 is the latest, and the least that signs.
abbrev info : KeyInfo
info = record {
  key_type = some (codes "ed25519");
  latest_version = some (number (pos 2));
  versions =
      some ((codes "1", version (some key_text)) ∷ (codes "2", version (some key_text)) ∷ []);
  min_encryption_version = some (number (pos 2));
}

abbrev latest : Fetched
latest = record { pub_key = repeat 32 7; key_version = pos 2; minimum = pos 2 }

too_old : fetch_pub_key (pos 1) (found info) ≡ err below_minimum
unfolding machine
too_old = refl

abbrev verify : Bytes → Bytes → Bytes → Bool
verify key msg sig = bytes_eq msg preflight && bytes_eq sig signature

abbrev answers : Answers
answers = record {
  capabilities_self = denied;
  lookup_self = lease (record { ttl = 3600 * second; renewable = true });
  probe = signed (transit_signature (codes "v2") signature);
}

passes_checks : verify_can_sign verify (repeat 32 7) answers ≡ ok tt
unfolding machine
passes_checks = refl

abbrev pass_at : ℕ → Pass
pass_at t = record {
  token_file = some (codes "s.new" ++ (10 ∷ []));
  clone_fails = false;
  candidate = answers;
  lookup_self = some (record { ttl = 180 * second; renewable = true });
  scheduled_at = t;
  checked_at = t;
  measured_at = t;
  renew_fails = false;
}

abbrev starting : Renewal
starting = record { token = codes "s.old"; renew_at = none }

abbrev two_passes : List (Pass × Bool)
two_passes = (pass_at 0, false) ∷ (pass_at minute, true) ∷ []

takes_the_new_token : (loop verify (repeat 32 7) minute two_passes starting).0.token ≡ codes "s.new"
unfolding machine
takes_the_new_token = refl

loop-token_example :
    ((loop verify (repeat 32 7) minute two_passes starting).0.token ≡ starting.token)
    ⊎ SomeOffered verify
        (repeat 32 7)
        two_passes
        (loop verify (repeat 32 7) minute two_passes starting).0.token
loop-token_example = loop-token verify (repeat 32 7) minute two_passes starting

abbrev current : Renewal
current = record { token = codes "s.new"; renew_at = none }

steady : (t : ℕ) → IsSteady verify (repeat 32 7) (codes "s.new") (pass_at t)
unfolding machine
steady t = record {
  found_lease = record { ttl = 180 * second; renewable = true };
  looked_up = refl;
  renewable = refl;
  ends = refl;
  same_token = refl;
}

-- A lease of three minutes is renewed after one and a half, in the third pass.
renews_within_example :
    any
      (λ b. b)
      (renewals verify
        (repeat 32 7)
        minute
        (pass_at 0 ∷ pass_at minute ∷ pass_at (minute + 30 * second) ∷ [])
        current)
    ≡ true
unfolding machine steady
renews_within_example =
    renews_within verify (repeat 32 7) minute 2 (pass_at 0)
      (pass_at minute ∷ pass_at (minute + 30 * second) ∷ []) current (steady 0)
      (steady minute, (steady (minute + 30 * second), tt))
      (omega arith, omega arith, (omega arith, omega arith, omega arith)) refl (omega arith)

abbrev config : VaultConfig
config = record {
  address = [];
  token_file = codes "/token";
  mount = [];
  binding_mount = [];
  key_name = codes "validator";
  key_version = pos 0;
  namespace = [];
  tls_ca_cert = [];
  claim_token_file = [];
}

opens : new_vault config (found info) ≡ ok latest
unfolding machine
opens = refl

abbrev import_env : ImportEnv
import_env = record {
  client_fails = false;
  wanted = some (repeat 32 7);
  key_read = found info;
  probe = signed (codes "vault:v2:AAAA");
  wrapped = some (codes "wrapped");
  completes = accepted;
  write_fails = false;
}

import_never_overwrites_example :
    IsJustified verify import_env (pos 0) (completes_version (pos 2) (codes "wrapped"))
unfolding machine
import_never_overwrites_example =
    import_never_overwrites verify config import_env (completes_version (pos 2) (codes "wrapped"))
      (inl refl)
