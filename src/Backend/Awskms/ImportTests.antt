-- ===== src/Backend/Awskms/ImportTests.antt =====
-- Runs of internal/backend/awskms_import.go.
use cosmosigner.Prelude.{
  ◌≡◌, refl, ℕ, zero, suc, ◌==◌, Bytes, codes, bytes_eq, has_prefix, true, false, Option, some, [],
  ◌∷◌, drop, if◌then◌else◌, ok, err,
}
use cosmosigner.Prelude.Exec.{lift, pure, raise, gets, modify, skip, ◌>>=◌, Lands}
use cosmosigner.Backend.{unclaimed, mismatch}
use cosmosigner.Backend.Awskms.{Arn, check_parts, check_key_identity}
use cosmosigner.Backend.Awskms.Keys.{KeyAnswer, parse_public_key}
use cosmosigner.Backend.Awskms.Import.{
  no_alias, no_claim, other_key, wrong_state, enabled, pending_import, other_state, external,
  Metadata, made, not_found, described, not_ready, reads, read_fails, parameters_missing,
  parameters, ImportEnv, creates_key, creates_alias, imports, put, aim, check_known, check_metadata,
  created_target, check_enabled, new_target, new_alias, known_target, described_target, find_target,
  import_parameters, wrapped_for, accepted, read_back, import_into, import_unless, import_wanted,
  import_key,
}
use cosmosigner.Backend.Awskms.Imported.{start, Safe, Done, import_key-Lands}

machine : Unit {0}
unfolding bytes_eq has_prefix check_parts check_key_identity parse_public_key put aim check_known
    check_metadata created_target check_enabled new_target new_alias known_target described_target
    find_target import_parameters wrapped_for read_back import_into import_unless import_wanted
    import_key lift pure raise gets modify skip ◌>>=◌
machine = tt

-- An ARN is "arn:" and a resource here.
abbrev parse : Bytes → Option Arn
parse arn = some (record {
  partition = codes "aws";
  service = codes "kms";
  region = codes "eu";
  account_id = codes "123456789012";
  resource = drop 4 arn;
})

abbrev parse_key : Bytes → Option Bytes
parse_key b = some b

abbrev repeat : ℕ → Bytes
repeat zero = []
repeat (suc n) = 7 ∷ repeat n

abbrev arn : Bytes
arn = codes "arn:key/k"

abbrev metadata : Metadata
metadata = record {
  arn = arn;
  key_id = codes "k";
  is_multi_region = false;
  is_signing = true;
  origin = external;
  is_customers = true;
  state = pending_import;
}

abbrev public : KeyAnswer
public = record {
  key_id = arn;
  spec_is_ed25519 = true;
  usage_is_sign = true;
  signs_ed25519 = true;
  public_key = repeat 32;
}

abbrev alias : Bytes
alias = codes "alias/v"

-- A new key under an alias, whose parameters and public key are there at the second attempt.
abbrev env : ImportEnv
env = record {
  source = some (repeat 32);
  client_fails = false;
  key_id = alias;
  created = made (some metadata);
  alias_fails = false;
  described = not_found;
  binding = err unclaimed;
  public_key = read_fails;
  parameters = λ left.
      if left == 7
      then parameters_missing
      else parameters
          (record { key_id = arn; has_token = true; is_valid = true; wrapped = some (codes "w") });
  wait_ends = λ left. false;
  answer = accepted arn;
  read_back = λ left. if left == 7 then not_ready else reads public;
}

imports_new : import_key parse parse_key env start ≡ (
  ok true,
  record {
    target = arn;
    is_imported = true;
    writes = imports arn (codes "w") ∷ creates_alias alias arn ∷ creates_key ∷ [];
  },
)
unfolding machine
imports_new = refl

no_alias_made :
    import_key parse parse_key (record env { alias_fails = true }) start
    ≡ (err no_alias, record { target = arn; is_imported = false; writes = creates_key ∷ [] })
unfolding machine
no_alias_made = refl

-- The pause for the public key ends the import, whose outcome is open.
unread :
    import_key parse parse_key
      (record env { read_back = λ left. not_ready; wait_ends = λ left. left == 3 })
      start
    ≡ (ok false, (import_key parse parse_key env start).1)
unfolding machine
unread = refl

-- A key that holds the material already.
abbrev held : ImportEnv
held = record env {
  key_id = arn;
  described = described (some (record metadata { state = enabled }));
  public_key = reads public;
}

nothing_to_do : import_key parse parse_key held start ≡ (ok true, start)
unfolding machine
nothing_to_do = refl

holds_another :
    import_key parse parse_key (record held { source = some [] }) start ≡ (err other_key, start)
unfolding machine
holds_another = refl

unreadable_claim :
    import_key parse parse_key (record held { binding = err mismatch }) start
    ≡ (err no_claim, start)
unfolding machine
unreadable_claim = refl

deleted_key :
    import_key parse parse_key
      (record env {
        key_id = arn;
        described = described (some (record metadata { state = other_state }));
      })
      start
    ≡ (err wrong_state, start)
unfolding machine
deleted_key = refl

import_key-Lands_example :
    Lands
      (Done parse parse_key env)
      (Safe parse parse_key env)
      (import_key parse parse_key env start)
import_key-Lands_example = import_key-Lands parse parse_key env
