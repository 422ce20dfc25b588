-- ===== src/Backend/Transit/Import.antt =====
-- VaultImportKey of internal/backend/vault_import.go: which writes an import of a key makes. What the
-- libraries and Vault answer, the wrapping of the key included, is an `ImportEnv`.
use cosmosigner.Prelude.{
  ◌≡◌, refl, ap, ◌∙◌, sym, subst, inl, inr, Bytes, bytes_eq, bytes_eq_iff, codes, Bool, true, false,
  not, ◌&&◌, ◌||◌, Option, none, some, List, [], ◌∷◌, In, Result, ok, err, is_ok, if◌then◌else◌,
}
use cosmosigner.Prelude.Int.{ℤ, pos, ltb_ℤ}
use cosmosigner.Backend.{VaultConfig}
use cosmosigner.Backend.Addressing.{normalize_mount, normalize_key_name}
use cosmosigner.Backend.Transit.{
  TransitError, KeyRead, Fetched, fetch_if_exists, SignAnswer, verify_signing_key, OpenError,
  addressed, or_default,
}

pub data ImportError : Type 0 where
  opening : OpenError → ImportError
  client_failed not_ed25519 fetch_failed wrap_failed completion_failed : ImportError
  other_identity version_requested import_failed : ImportError

-- How Vault answers a write to import_version; `already` is the text that the code looks for.
pub data VersionAnswer : Type 0 where
  accepted already refused : VersionAnswer

-- `wanted` is the public key of the private key that is imported.
pub record ImportEnv : Type 0 where
  pub client_fails : Bool
  pub wanted : Option Bytes
  pub key_read : KeyRead
  pub probe : SignAnswer
  pub wrapped : Option Bytes
  pub completes : VersionAnswer
  pub write_fails : Bool

-- The writes to Vault: to import_version of a key, with the version, and to import, which makes one.
pub data Write : Type 0 where
  completes_version : ℤ → Bytes → Write
  creates_key : Bytes → Write

abbrev pub Imported : Type 0
Imported = Result ImportError (Unit {0}) × List Write

abbrev pub wrapping : Option Bytes → (Bytes → Imported) → Imported
wrapping none k = (err wrap_failed, [])
wrapping (some ciphertext) k = k ciphertext

abbrev pub completed : VersionAnswer → Result ImportError (Unit {0})
completed accepted = ok tt
completed already = ok tt
completed refused = err completion_failed

-- The private key of a version that is there already.
abbrev pub complete : ImportEnv → ℤ → Imported
complete e v =
    wrapping e.wrapped λ ciphertext. (completed e.completes, completes_version v ciphertext ∷ [])

abbrev pub written : Bool → Result ImportError (Unit {0})
written true = err import_failed
written false = ok tt

abbrev pub create : ImportEnv → ℤ → Imported
create e requested =
    if ltb_ℤ requested (pos 0) || ltb_ℤ (pos 1) requested
    then (err version_requested, [])
    else wrapping e.wrapped λ ciphertext. (written e.write_fails, creates_key ciphertext ∷ [])

module _ (verify : Bytes → Bytes → Bytes → Bool) where
  -- A version below the least one that Vault signs with is not probed.
  abbrev pub is_usable : ImportEnv → Fetched → Bool
  is_usable e f =
      not (ltb_ℤ f.key_version f.minimum) && is_ok (verify_signing_key verify f.pub_key e.probe)

  abbrev pub import_over : ImportEnv → Bytes → Fetched → Imported
  import_over e wanted f =
      if not (bytes_eq f.pub_key wanted)
      then (err other_identity, [])
      else if is_usable e f
      then (ok tt, [])
      else complete e f.key_version

  abbrev pub import_found : ImportEnv → ℤ → Bytes → Result TransitError (Option Fetched) → Imported
  import_found e requested wanted (err t) = (err fetch_failed, [])
  import_found e requested wanted (ok none) = create e requested
  import_found e requested wanted (ok (some f)) = import_over e wanted f

  abbrev pub import_wanted : ImportEnv → ℤ → Option Bytes → Imported
  import_wanted e requested none = (err not_ed25519, [])
  import_wanted e requested (some wanted) =
      import_found e requested wanted (fetch_if_exists false requested e.key_read)

  abbrev pub with_address : Result OpenError Bytes → Imported → Imported
  with_address (ok s) rest = rest
  with_address (err x) rest = (err (opening x), [])

  -- VaultImportKey
  unfoldable pub import_key : VaultConfig → ImportEnv → Imported
  import_key cfg e =
      with_address (addressed (normalize_mount (or_default cfg.mount (codes "transit")))) (
        with_address (addressed (normalize_key_name cfg.key_name)) (
          if e.client_fails
          then (err client_failed, [])
          else import_wanted e cfg.key_version e.wanted))

  -- Why a write is made.
  abbrev pub IsJustified : ImportEnv → ℤ → Write → Type 0
  IsJustified e requested (completes_version v ciphertext) =
      (f : Fetched) × (fetch_if_exists false requested e.key_read ≡ ok (some f))
      × (e.wanted ≡ some f.pub_key)
      × (f.key_version ≡ v)
      × (is_usable e f ≡ false)
  IsJustified e requested (creates_key ciphertext) =
      fetch_if_exists false requested e.key_read ≡ ok none

  -- Every write of the outcome is justified.
  record AllJustified (e : ImportEnv) (requested : ℤ) (i : Imported) : Type 0 where
    each : (w : Write) → In w i.1 → IsJustified e requested w

  nothing_written :
      (e : ImportEnv) (requested : ℤ) (r : Result ImportError (Unit {0}))
      → AllJustified e requested (r, [])
  nothing_written e requested r = record { each = λ w h. absurd h }

  one_write :
      (e : ImportEnv) (requested : ℤ) (r : Result ImportError (Unit {0})) (w : Write)
      → IsJustified e requested w
      → AllJustified e requested (r, w ∷ [])
  one_write e requested r w j = record { each = found }
    where
      found : (v : Write) → In v (w ∷ []) → IsJustified e requested v
      found v (inl same) = subst (IsJustified e requested) (sym same) j
      found v (inr h) = absurd h

  if-Justified :
      (e : ImportEnv) (requested : ℤ) (b : Bool) (i j : Imported)
      → (b ≡ true → AllJustified e requested i)
      → (b ≡ false → AllJustified e requested j)
      → AllJustified e requested (if b then i else j)
  if-Justified e requested true i j h k = h refl
  if-Justified e requested false i j h k = k refl

  wrapping-Justified :
      (e : ImportEnv) (requested : ℤ) (o : Option Bytes) (k : Bytes → Imported)
      → ((c : Bytes) → AllJustified e requested (k c))
      → AllJustified e requested (wrapping o k)
  wrapping-Justified e requested none k h = nothing_written e requested (err wrap_failed)
  wrapping-Justified e requested (some c) k h = h c

  same_key : (a b : Bytes) → not (bytes_eq a b) ≡ false → a ≡ b
  same_key a b h = (bytes_eq_iff a b).0 (unflip _ h)
    where
      unflip : (b : Bool) → not b ≡ false → b ≡ true
      unflip true h = refl
      unflip false h = cc h

  found-Justified :
      (e : ImportEnv) (requested : ℤ) (wanted : Bytes) (r : Result TransitError (Option Fetched))
      → e.wanted ≡ some wanted
      → fetch_if_exists false requested e.key_read ≡ r
      → AllJustified e requested (import_found e requested wanted r)
  found-Justified e requested wanted (err t) there read = nothing_written e requested _
  found-Justified e requested wanted (ok none) there read =
      if-Justified e requested (ltb_ℤ requested (pos 0) || ltb_ℤ (pos 1) requested) _ _
        (λ h. nothing_written e requested (err version_requested))
        λ h.
          wrapping-Justified e requested e.wrapped _
            λ c. one_write e requested (written e.write_fails) (creates_key c) read
  found-Justified e requested wanted (ok (some f)) there read =
      if-Justified e requested _ _ _ (λ h. nothing_written e requested _)
        λ same.
          if-Justified e requested _ _ _ (λ h. nothing_written e requested _)
            λ unusable. wrapping-Justified e requested e.wrapped _ λ c.
              one_write e requested _ (completes_version f.key_version c)
                (f, read, there ∙ ap some (sym (same_key f.pub_key wanted same)), refl, unusable)

  wanted-Justified :
      (e : ImportEnv) (requested : ℤ) (o : Option Bytes)
      → e.wanted ≡ o
      → AllJustified e requested (import_wanted e requested o)
  wanted-Justified e requested none there = nothing_written e requested _
  wanted-Justified e requested (some wanted) there = found-Justified e requested wanted _ there refl

  address-Justified :
      (e : ImportEnv) (requested : ℤ) (r : Result OpenError Bytes) (i : Imported)
      → AllJustified e requested i
      → AllJustified e requested (with_address r i)
  address-Justified e requested (ok s) i h = h
  address-Justified e requested (err x) i h = nothing_written e requested (err (opening x))

  -- An import writes to Vault only a new key, where Vault has none of the name; or the private part of the
  -- version that is there, where that version has the public key of the imported key and could not be
  -- shown to sign. A version with another public key is never written.
  pub import_never_overwrites :
      (cfg : VaultConfig) (e : ImportEnv) (w : Write)
      → In w (import_key cfg e).1
      → IsJustified e cfg.key_version w
  unfolding import_key
  import_never_overwrites cfg e w = all.each w
    where
      all : AllJustified e cfg.key_version (import_key cfg e)
      all = address-Justified e cfg.key_version _ _ (
          address-Justified e cfg.key_version _ _ (
            if-Justified e cfg.key_version e.client_fails _ _
              (λ h. nothing_written e cfg.key_version _)
              λ h. wanted-Justified e cfg.key_version e.wanted refl))
