-- ===== src/Backend/Transit.antt =====
-- internal/backend/vault.go: the key of a Vault Transit engine, its signatures and the checks of a
-- token before it signs. What Vault answers is an argument.
pub mod Keys
pub mod Renewal
pub mod Renewing
pub mod Import
pub mod Tests
use cosmosigner.Prelude.{
  ℕ, zero, suc, ◌/◌, ◌%◌, ◌+◌, ◌==◌, ltb, Bytes, codes, bytes_eq, is_empty, Bool, true, false, not,
  ◌&&◌, ◌||◌, Option, none, some, List, [], ◌∷◌, length, any, Result, ok, err, ◌>>=◌, ◌>>◌, or_fail,
  fail_if, if◌then◌else◌,
}
use cosmosigner.Prelude.Int.{ℤ, pos, negsuc, ltb_ℤ, eqb_ℤ}
use cosmosigner.Prelude.Assoc.{Assoc, lookup}
use cosmosigner.Prelude.Base64
use cosmosigner.Backend.{VaultConfig}
use cosmosigner.Backend.Addressing.{AddressError, split, normalize_mount, normalize_key_name}
use cosmosigner.Backend.VaultBinding.{Value, text, number, other_value}

pub data TransitError : Type 0 where
  read_failed not_found wrong_type bad_latest no_versions bad_minimum below_minimum : TransitError
  missing_version malformed_version no_public_key bad_base64 wrong_size : TransitError
  sign_failed empty_response no_signature malformed_signature not_verified : TransitError
  capabilities_failed lacks_update lookup_denied lookup_failed not_renewable : TransitError

-- The entry of one version; `malformed` is no map.
pub data Version : Type 0 where
  malformed : Version
  version : Option Bytes → Version

-- The fields of a key's data that the code reads, as its type assertions find them.
pub record KeyInfo : Type 0 where
  pub key_type : Option Bytes
  pub latest_version : Option Value
  pub versions : Option (Assoc Version)
  pub min_encryption_version : Option Value

pub data KeyRead : Type 0 where
  failed absent : KeyRead
  found : KeyInfo → KeyRead

pub record Fetched : Type 0 where
  pub pub_key : Bytes
  pub key_version : ℤ
  pub minimum : ℤ

-- toInt; the error says which field was read.
abbrev pub to_int : TransitError → Option Value → Result TransitError ℤ
to_int e (some (number n)) = ok n
to_int e _ = err e

-- strconv.Itoa, on fuel of more than the number.
unfoldable pub digits_onto : ℕ → ℕ → Bytes → Bytes
digits_onto zero n acc = acc
digits_onto (suc fuel) n acc =
    let more = digits_onto fuel (n / 10) ((48 + n % 10) ∷ acc) in
    if ltb n 10 then (48 + n) ∷ acc else more

unfoldable pub itoa : ℤ → Bytes
itoa (pos n) = digits_onto (suc n) n []
itoa (negsuc n) = 45 ∷ digits_onto (suc (suc n)) (suc n) []

abbrev pub is_other_type : Option Bytes → Bool
is_other_type (some kt) = not (is_empty kt) && not (bytes_eq kt (codes "ed25519"))
is_other_type none = false

abbrev pub selected : ℤ → ℤ → ℤ
selected requested latest = if eqb_ℤ requested (pos 0) then latest else requested

-- The least version that Vault signs with; 0 where the field is missing.
unfoldable pub minimum_for : Bool → ℤ → Option Value → Result TransitError ℤ
minimum_for require_signing_version v none = ok (pos 0)
minimum_for require_signing_version v (some raw) = to_int bad_minimum (some raw) >>= λ minimum.
    if require_signing_version && ltb_ℤ v minimum then err below_minimum else ok minimum

abbrev pub decoded : Bytes → Result TransitError Bytes
decoded s = or_fail (Base64.decode s) bad_base64

abbrev pub sized : ℕ → Bytes → Result TransitError Bytes
sized n raw = if not (length raw == n) then err wrong_size else ok raw

unfoldable pub entry_key : Option Version → Result TransitError Bytes
entry_key none = err missing_version
entry_key (some malformed) = err malformed_version
entry_key (some (version none)) = err no_public_key
entry_key (some (version (some pk))) =
    if is_empty pk then err no_public_key else decoded pk >>= sized 32

unfoldable pub fetch_version :
    Bool → ℤ → Option Value → Assoc Version → Result TransitError (Option Fetched)
fetch_version require_signing_version v raw_minimum keys =
    minimum_for require_signing_version v raw_minimum >>= λ minimum.
    entry_key (lookup (itoa v) keys) >>= λ pk.
    ok (some (record { pub_key = pk; key_version = v; minimum = minimum }))

unfoldable pub fetch_found : Bool → ℤ → KeyInfo → Result TransitError (Option Fetched)
fetch_found require_signing_version requested i =
    fail_if (is_other_type i.key_type) wrong_type >>= λ u.
    to_int bad_latest i.latest_version >>= λ latest. or_fail i.versions no_versions >>= λ keys.
    fetch_version require_signing_version (selected requested latest) i.min_encryption_version keys

-- fetchPubKeyIfExists of a requested version, where 0 asks for the latest.
unfoldable pub fetch_if_exists : Bool → ℤ → KeyRead → Result TransitError (Option Fetched)
fetch_if_exists require_signing_version requested failed = err read_failed
fetch_if_exists require_signing_version requested absent = ok none
fetch_if_exists require_signing_version requested (found i) =
    fetch_found require_signing_version requested i

-- fetchPubKey
unfoldable pub fetch_pub_key : ℤ → KeyRead → Result TransitError Fetched
fetch_pub_key requested r = fetch_if_exists true requested r >>= λ f. or_fail f not_found

abbrev pub signature_of : List Bytes → Result TransitError Bytes
signature_of (name ∷ v ∷ b64 ∷ []) =
    if not (bytes_eq name (codes "vault"))
    then err malformed_signature
    else decoded b64 >>= sized 64
signature_of _ = err malformed_signature

-- parseTransitSignature of "vault:v<n>:<base64>"
unfoldable pub parse_transit_signature : Bytes → Result TransitError Bytes
parse_transit_signature s = signature_of (split 58 s)

-- What a sign call answers.
pub data SignAnswer : Type 0 where
  failed_sign empty_sign without_signature : SignAnswer
  signed : Bytes → SignAnswer

-- signWithClient
unfoldable pub sign_with : SignAnswer → Result TransitError Bytes
sign_with failed_sign = err sign_failed
sign_with empty_sign = err empty_response
sign_with without_signature = err no_signature
sign_with (signed field) = parse_transit_signature field

abbrev pub preflight : Bytes
preflight = codes "cosmosigner/vault preflight - not a consensus message"

-- What Vault answers to the checks of a token.
pub data Capabilities : Type 0 where
  denied failed_caps : Capabilities
  capabilities : List Bytes → Capabilities

-- A TTL that is not positive is 0.
pub record Lease : Type 0 where
  pub ttl : ℕ
  pub renewable : Bool

pub data Lookup : Type 0 where
  denied_lookup failed_lookup : Lookup
  lease : Lease → Lookup

pub record Answers : Type 0 where
  pub capabilities_self : Capabilities
  pub lookup_self : Lookup
  pub probe : SignAnswer

abbrev pub has_capability : List Bytes → Bytes → Bool
has_capability caps want = any (λ c. bytes_eq c want || bytes_eq c (codes "root")) caps

abbrev pub may_update : Capabilities → Result TransitError (Unit {0})
may_update denied = ok tt
may_update failed_caps = err capabilities_failed
may_update (capabilities caps) = fail_if (not (has_capability caps (codes "update"))) lacks_update

abbrev pub can_live : Lookup → Result TransitError (Unit {0})
can_live denied_lookup = err lookup_denied
can_live failed_lookup = err lookup_failed
can_live (lease l) = fail_if (not (l.ttl == 0) && not l.renewable) not_renewable

module _ (verify : Bytes → Bytes → Bytes → Bool) where
  -- verifySigningKeyWithClient
  unfoldable pub verify_signing_key : Bytes → SignAnswer → Result TransitError (Unit {0})
  verify_signing_key pub_key answer = sign_with answer >>= λ signature.
      fail_if (not (verify pub_key preflight signature)) not_verified

  -- verifyClientCanSign
  unfoldable pub verify_can_sign : Bytes → Answers → Result TransitError (Unit {0})
  verify_can_sign pub_key a = may_update a.capabilities_self >>= λ u.
      can_live a.lookup_self >>= λ u. verify_signing_key pub_key a.probe

pub data OpenError : Type 0 where
  no_key_name no_token_file negative_version : OpenError
  address : AddressError → OpenError
  transit : TransitError → OpenError

abbrev pub or_default : Bytes → Bytes → Bytes
or_default value default = if is_empty value then default else value

abbrev pub addressed : Result AddressError Bytes → Result OpenError Bytes
addressed (ok s) = ok s
addressed (err e) = err (address e)

abbrev pub fetched : Result TransitError Fetched → Result OpenError Fetched
fetched (ok f) = ok f
fetched (err e) = err (transit e)

-- The checks of NewVault, and the configuration that it goes on with.
unfoldable pub checked_config : VaultConfig → Result OpenError VaultConfig
checked_config cfg = fail_if (is_empty cfg.key_name) no_key_name >>= λ u.
    fail_if (is_empty cfg.token_file) no_token_file >>= λ u.
    fail_if (ltb_ℤ cfg.key_version (pos 0)) negative_version >>= λ u.
    addressed (normalize_mount (or_default cfg.mount (codes "transit"))) >>= λ mount.
    addressed (normalize_mount (or_default cfg.binding_mount (codes "cosmosigner")))
    >>= λ binding_mount. addressed (normalize_key_name cfg.key_name) >>= λ key_name.
        ok (record cfg { mount = mount; binding_mount = binding_mount; key_name = key_name })

-- NewVault, once its client has been made: what the read of the key answers.
unfoldable pub new_vault : VaultConfig → KeyRead → Result OpenError Fetched
new_vault cfg r = checked_config cfg >>= λ c. fetched (fetch_pub_key c.key_version r)
