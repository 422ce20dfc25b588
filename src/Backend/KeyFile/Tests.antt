-- ===== src/Backend/KeyFile/Tests.antt =====
-- A provisioning of a key file, and the loading of key files.
use cosmosigner.Prelude.{
  ◌≡◌, refl, sym, ap, ℕ, zero, suc, bytes_eq, Bytes, codes, true, false, Option, none, some,
  some_inj, [], ◌∷◌, ◌++◌, ok, err,
}
use cosmosigner.Prelude.Exec.{lift, gets, check, modify, skip, pure, ◌>>=◌, Lands}
use cosmosigner.Backend.KeyFile.{
  wrong_size, halves_differ, other_public_key, many_links, dangling, same_file, exists, claimed,
  short_write, not_unlocked, cancelled, not_locked, PrivKey, ed25519, secp256k1, other_type,
  Derived, derived, panics, FilePvKey, KeyCodec, FileInfo, StdKeys, validate_links, validate_file,
  check_size, check_public, derive_public_key, checked_key, load_private_key, resolve_existing,
  missing, absent, symbolic_link, check_leaf, resolve_links, resolve_provision, pkcs8_of,
  load_key_file_pkcs8, with_binding, new_software,
}
use cosmosigner.Backend.KeyFile.Provision.{
  Files, LockTurn, granted, held, refused, wait_for_lock, acquire_lock, ProvisionEnv, removing,
  fill, sync_directory, write_body, write_atomically, write_then_answer, check_existing,
  check_replaceable, replace, unlocking, with_lock, provision,
}
use cosmosigner.Backend.KeyFile.Provisioned.{Provisioned, IsWhole, provision-Lands}
use cosmosigner.Backend.KeyFile.Loaded.{provision_then_load}

machine : Unit {0}
unfolding bytes_eq validate_links validate_file check_size check_public derive_public_key
    checked_key load_private_key resolve_existing check_leaf resolve_links resolve_provision
    pkcs8_of load_key_file_pkcs8 with_binding new_software wait_for_lock acquire_lock removing fill
    sync_directory write_body write_atomically write_then_answer check_existing check_replaceable
    replace unlocking with_lock provision lift gets check modify skip pure ◌>>=◌
machine = tt

-- A codec for Ed25519 keys with a public key of one byte, which is the first byte of the private key.
abbrev encode_key : Option PrivKey → Option Bytes → Option Bytes
encode_key (some (ed25519 k)) (some (p ∷ [])) = some (p ∷ k)
encode_key _ _ = none

abbrev decode_key : Bytes → Option FilePvKey
decode_key [] = none
decode_key (p ∷ k) = some (record { priv_key = some (ed25519 k); pub_key = some (p ∷ []) })

abbrev first_byte : PrivKey → Derived
first_byte (ed25519 (b ∷ k)) = derived (b ∷ [])
first_byte k = panics

abbrev codec : KeyCodec
codec = record {
  decode = decode_key;
  encode = λ f. encode_key f.priv_key f.pub_key;
  public_of = first_byte;
}

reads_back_parts :
    (k : Option PrivKey) (p : Option Bytes) (text : Bytes)
    → encode_key k p ≡ some text
    → decode_key text ≡ some (record { priv_key = k; pub_key = p })
reads_back_parts none p text h = cc h
reads_back_parts (some (secp256k1 k)) p text h = cc h
reads_back_parts (some (other_type k)) p text h = cc h
reads_back_parts (some (ed25519 k)) none text h = cc h
reads_back_parts (some (ed25519 k)) (some []) text h = cc h
reads_back_parts (some (ed25519 k)) (some (p ∷ q ∷ r)) text h = cc h
reads_back_parts (some (ed25519 k)) (some (p ∷ [])) text h = ap decode_key (sym (some_inj.0 h))

-- A byte so many times.
abbrev bytes_of : ℕ → ℕ → Bytes
bytes_of zero b = []
bytes_of (suc n) b = b ∷ bytes_of n b

abbrev one_link : FileInfo
one_link = record { stat_fails = false; is_regular = true; links = some 1 }

abbrev env : ProvisionEnv
env = record {
  path = ok (codes "/keys/validator.json");
  lock = ok tt;
  unlock_fails = false;
  ended_locked = false;
  overwrite = true;
  marker_unreadable = false;
  key_unopened = false;
  key_info = one_link;
  key_unclosed = false;
  fresh = ed25519 (bytes_of 64 7);
  fresh_public = 7 ∷ [];
  create_fails = false;
  chmod_fails = false;
  written = 65;
  write_fails = false;
  sync_fails = false;
  close_fails = false;
  ended_written = false;
  rename_fails = false;
  directory_unopened = false;
  directory_sync_fails = false;
  directory_close_fails = false;
  remove_fails = false;
}

abbrev old_key : Files
old_key = record { key = some (codes "old"); temporary = none; marker = none }

abbrev new_key : Files
new_key = record old_key { key = some (bytes_of 65 7) }

replaces : provision env codec old_key ≡ (ok (7 ∷ []), new_key)
unfolding machine
replaces = refl

no_overwrite : provision (record env { overwrite = false }) codec old_key ≡ (err exists, old_key)
unfolding machine
no_overwrite = refl

abbrev claimed_key : Files
claimed_key = record old_key { marker = some (codes "marker") }

refuses_claimed : provision env codec claimed_key ≡ (err claimed, claimed_key)
unfolding machine
refuses_claimed = refl

-- The disk is full after three bytes, and the temporary file cannot be removed.
torn_write :
    provision (record env { written = 3; remove_fails = true }) codec old_key
    ≡ (err short_write, record old_key { temporary = some (7 ∷ 7 ∷ 7 ∷ []) })
unfolding machine
torn_write = refl

-- The key is replaced although the lock could not be released.
stuck_lock :
    provision (record env { unlock_fails = true }) codec old_key ≡ (err not_unlocked, new_key)
unfolding machine
stuck_lock = refl

abbrev turn : LockTurn
turn = record { ended_before = false; flock = held; ends_after = false }

waits : wait_for_lock (turn ∷ turn ∷ record turn { flock = granted } ∷ []) ≡ ok tt
unfolding machine
waits = refl

gives_up : acquire_lock false (turn ∷ record turn { ends_after = true } ∷ []) ≡ err cancelled
unfolding machine
gives_up = refl

refused_lock : acquire_lock false (turn ∷ record turn { flock = refused } ∷ []) ≡ err not_locked
unfolding machine
refused_lock = refl

other_public :
    load_private_key codec false one_link (some (8 ∷ bytes_of 64 7)) ≡ err other_public_key
unfolding machine
other_public = refl

short_key : load_private_key codec false one_link (some (7 ∷ bytes_of 63 7)) ≡ err wrong_size
unfolding machine
short_key = refl

two_links :
    load_private_key codec false (record one_link { links = some 2 }) (some []) ≡ err many_links
unfolding machine
two_links = refl

new_path :
    resolve_provision (codes "k") false false missing absent (some (codes "/d/k"))
    ≡ ok (codes "/d/k")
unfolding machine
new_path = refl

dangling_path :
    resolve_provision (codes "k") false false missing symbolic_link (some (codes "/d/k"))
    ≡ err dangling
unfolding machine
dangling_path = refl

-- A file in one directory whose marker is set to the key itself.
marker_on_key :
    new_software codec
      (codes ".json")
      (codes "k")
      (codes "m")
      false
      (some (codes "/k"))
      false
      one_link
      (some (bytes_of 65 7))
      (ok (codes "/k"))
    ≡ err same_file
unfolding machine
marker_on_key = refl

abbrev std : StdKeys
std = record { public = λ seed. seed; pkcs8 = λ seed. some (48 ∷ seed) }

-- Key files without a stored public key.
abbrev bare : KeyCodec
bare = record codec {
  decode = λ text. some (record { priv_key = some (ed25519 text); pub_key = none });
}

exports : load_key_file_pkcs8 bare std (some (bytes_of 64 7)) ≡ ok (48 ∷ bytes_of 32 7, 7 ∷ [])
unfolding machine
exports = refl

broken_halves :
    load_key_file_pkcs8 bare std (some (bytes_of 32 7 ++ bytes_of 32 6)) ≡ err halves_differ
unfolding machine
broken_halves = refl

provision-Lands_example :
    Lands (Provisioned codec env old_key) (IsWhole codec env old_key) (provision env codec old_key)
provision-Lands_example = provision-Lands codec env old_key

provision_then_load_example :
    load_private_key codec false one_link (provision env codec old_key).1.key
    ≡ ok (ed25519 (bytes_of 64 7))
unfolding machine
provision_then_load_example =
    provision_then_load codec env old_key (7 ∷ []) one_link
      (λ f text h. reads_back_parts f.priv_key f.pub_key text h) refl refl refl
