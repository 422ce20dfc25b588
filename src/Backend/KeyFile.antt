-- ===== src/Backend/KeyFile.antt =====
-- internal/backend/software_file.go, software.go and keyfile.go: reading a key file, for the software backend and
-- for an import. What the file system and CometBFT's keys answer is an argument.
pub mod Provision
pub mod Provisioned
pub mod Loaded
pub mod Tests
use cosmosigner.Prelude.{
  ℕ, ◌==◌, Bytes, bytes_eq, is_empty, Bool, true, false, not, Option, none, some, ◌++◌, length,
  take, drop, Result, ok, err, ◌>>=◌, fail_if, or_fail, if◌then◌else◌,
}
use cosmosigner.Backend.{BindingError, corrupt}

pub data KeyFileError : Type 0 where
  no_path unresolved no_directory dangling uninspected : KeyFileError
  unopened unread not_regular no_stat no_links many_links : KeyFileError
  unparsed no_private_key wrong_size invalid_material no_public_key other_public_key : KeyFileError
  not_ed25519 halves_differ same_file no_binding_path : KeyFileError
  not_locked cancelled claimed unclosed exists not_encoded : KeyFileError
  no_temporary no_permissions not_written short_write not_synced not_published : KeyFileError
  directory_not_synced not_unlocked not_created : KeyFileError

-- A private key of CometBFT, by its type.
pub data PrivKey : Type 0 where
  ed25519 secp256k1 other_type : Bytes → PrivKey

-- What PubKey() of a private key does.
pub data Derived : Type 0 where
  panics nothing : Derived
  derived : Bytes → Derived

-- privval.FilePVKey
pub record FilePvKey : Type 0 where
  pub priv_key : Option PrivKey
  pub pub_key : Option Bytes

-- CometBFT's JSON on a key file, and its public keys.
pub record KeyCodec : Type 0 where
  pub decode : Bytes → Option FilePvKey
  pub encode : FilePvKey → Option Bytes
  pub public_of : PrivKey → Derived

-- What the system tells of an open file.
pub record FileInfo : Type 0 where
  pub stat_fails : Bool
  pub is_regular : Bool
  pub links : Option ℕ

unfoldable pub validate_links : Option ℕ → Result KeyFileError (Unit {0})
validate_links links = or_fail links no_links >>= λ n. fail_if (not (n == 1)) many_links

-- validateSoftwareKeyFile
unfoldable pub validate_file : FileInfo → Result KeyFileError (Unit {0})
validate_file i = fail_if i.stat_fails no_stat >>= λ u.
    fail_if (not i.is_regular) not_regular >>= λ u. validate_links i.links

unfoldable pub check_size : PrivKey → Result KeyFileError (Unit {0})
check_size (ed25519 k) = fail_if (not (length k == 64)) wrong_size
check_size (secp256k1 k) = fail_if (not (length k == 32)) wrong_size
check_size (other_type k) = ok tt

abbrev pub recovered : Derived → Result KeyFileError Bytes
recovered panics = err invalid_material
recovered nothing = err no_public_key
recovered (derived p) = ok p

-- A stored public key is the derived one.
unfoldable pub check_public : Bytes → Option Bytes → Result KeyFileError (Unit {0})
check_public p none = ok tt
check_public p (some stored) = fail_if (not (bytes_eq p stored)) other_public_key

module _ (x : KeyCodec) where
  -- deriveSoftwarePublicKey
  unfoldable pub derive_public_key : PrivKey → Result KeyFileError Bytes
  derive_public_key k = check_size k >>= λ u. recovered (x.public_of k)

  unfoldable pub checked_key : FilePvKey → Result KeyFileError PrivKey
  checked_key f = or_fail f.priv_key no_private_key >>= λ k.
      derive_public_key k >>= λ p. check_public p f.pub_key >>= λ u. ok k

  -- loadSoftwarePrivateKey; `content` is the file's text, where it can be opened and read.
  unfoldable pub load_private_key : Bool → FileInfo → Option Bytes → Result KeyFileError PrivKey
  load_private_key unopenable i content = fail_if unopenable unopened >>= λ u.
      validate_file i >>= λ u.
      or_fail content unread >>= λ text. or_fail (x.decode text) unparsed >>= checked_key

-- resolveExistingSoftwareKeyPath, on the absolute path and what its symbolic links lead to.
unfoldable pub resolve_existing : Bytes → Bool → Option Bytes → Result KeyFileError Bytes
resolve_existing key_file no_abs canonical = fail_if (is_empty key_file) no_path >>= λ u.
    fail_if no_abs unresolved >>= λ u. or_fail canonical unresolved

-- Where the path's links lead, and what stands at the path itself.
pub data Links : Type 0 where
  lead_to : Bytes → Links
  missing unreadable_links : Links

pub data Leaf : Type 0 where
  symbolic_link another_file absent unreadable_leaf : Leaf

unfoldable pub check_leaf : Leaf → Result KeyFileError (Unit {0})
check_leaf symbolic_link = err dangling
check_leaf another_file = ok tt
check_leaf absent = ok tt
check_leaf unreadable_leaf = err uninspected

-- `joined` is the path in the canonical directory, where that can be resolved.
unfoldable pub resolve_links : Links → Leaf → Option Bytes → Result KeyFileError Bytes
resolve_links (lead_to p) leaf joined = ok p
resolve_links unreadable_links leaf joined = err unresolved
resolve_links missing leaf joined = check_leaf leaf >>= λ u. or_fail joined no_directory

-- resolveProvisionSoftwareKeyPath
unfoldable pub resolve_provision :
    Bytes → Bool → Bool → Links → Leaf → Option Bytes → Result KeyFileError Bytes
resolve_provision key_file no_abs no_mkdir links leaf joined =
    fail_if (is_empty key_file) no_path >>= λ u. fail_if no_abs unresolved >>= λ u.
    fail_if no_mkdir no_directory >>= λ u. resolve_links links leaf joined

-- The standard library's keys, from a seed: the public half, and the text of PKCS#8.
pub record StdKeys : Type 0 where
  pub public : Bytes → Bytes
  pub pkcs8 : Bytes → Option Bytes

abbrev pub ed25519_of : Option PrivKey → Result KeyFileError Bytes
ed25519_of (some (ed25519 k)) = ok k
ed25519_of _ = err not_ed25519

module _ (x : KeyCodec) (std : StdKeys) where
  unfoldable pub pkcs8_of : FilePvKey → Bytes → Result KeyFileError (Bytes × Bytes)
  pkcs8_of f priv = fail_if (not (length priv == 64)) wrong_size >>= λ u.
      fail_if (not (bytes_eq (std.public (take 32 priv)) (drop 32 priv))) halves_differ >>= λ u.
      check_public (std.public (take 32 priv)) f.pub_key >>= λ u.
      or_fail (std.pkcs8 (take 32 priv)) not_encoded >>= λ der.
      recovered (x.public_of (ed25519 priv)) >>= λ p. ok (der, p)

  -- LoadKeyFilePKCS8
  unfoldable pub load_key_file_pkcs8 : Option Bytes → Result KeyFileError (Bytes × Bytes)
  load_key_file_pkcs8 content = or_fail content unread >>= λ text.
      or_fail (x.decode text) unparsed >>= λ f. ed25519_of f.priv_key >>= pkcs8_of f

-- Software: its paths, and the key that it has loaded.
pub record Software : Type 0 where
  pub priv : PrivKey
  pub key_path : Bytes
  pub binding_path : Bytes
  pub lock_path : Bytes

-- What a marker's own path resolves to is `binding`; it is asked only where one is configured.
unfoldable pub with_binding :
    Bytes → Bytes → Bytes → Result KeyFileError Bytes → PrivKey → Result KeyFileError Software
with_binding suffix binding_file canonical binding priv =
    if is_empty binding_file
    then ok (record {
      priv = priv;
      key_path = canonical;
      binding_path = canonical ++ suffix;
      lock_path = canonical;
    })
    else (binding >>= λ b. fail_if (bytes_eq b canonical) same_file >>= λ u.
        ok (record { priv = priv; key_path = canonical; binding_path = b; lock_path = b }))

module _ (x : KeyCodec) where
  -- NewSoftwareWithBindingFile
  unfoldable pub new_software :
      Bytes
      → Bytes
      → Bytes
      → Bool
      → Option Bytes
      → Bool
      → FileInfo
      → Option Bytes
      → Result KeyFileError Bytes
      → Result KeyFileError Software
  new_software suffix key_file binding_file no_abs canonical unopenable i content binding =
      resolve_existing key_file no_abs canonical >>= λ p.
      load_private_key x unopenable i content >>= with_binding suffix binding_file p binding

  -- The check of ClaimCluster before it writes a marker: the key on the disk is still the loaded one.
  unfoldable pub still_there :
      (PrivKey → PrivKey → Bool)
      → Software
      → Bool
      → FileInfo
      → Option Bytes
      → Result BindingError (Unit {0})
  still_there equals s unopenable i content = elim (load_private_key x unopenable i content) [
    | err e ↦ err corrupt
    | ok disk ↦ fail_if (not (equals disk s.priv)) corrupt
  ]
