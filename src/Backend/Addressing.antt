-- ===== src/Backend/Addressing.antt =====
-- ValidateVaultAddressing of internal/backend/vault_binding.go and ValidatePKCS11Config of
-- internal/backend/pkcs11.go, with what they use of Go's strings package.
use cosmosigner.Prelude.{
  ℕ, ◌==◌, leb, Bytes, codes, bytes_eq, is_empty, Bool, true, false, not, ◌&&◌, ◌||◌, Option, none,
  some, List, [], ◌∷◌, any, Result, ok, err, ◌>>=◌, fail_if, if◌then◌else◌,
}
use cosmosigner.Backend.{Pkcs11Config}

abbrev pub slash : ℕ
slash = 47

unfoldable pub trim_left : (ℕ → Bool) → Bytes → Bytes
trim_left p [] = []
trim_left p (c ∷ s) = let rest = trim_left p s in if p c then rest else c ∷ s

unfoldable pub reverse_onto : Bytes → Bytes → Bytes
reverse_onto acc [] = acc
reverse_onto acc (c ∷ s) = reverse_onto (c ∷ acc) s

abbrev pub reverse : Bytes → Bytes
reverse s = reverse_onto [] s

-- TrimFunc
unfoldable pub trim : (ℕ → Bool) → Bytes → Bytes
trim p s = reverse (trim_left p (reverse (trim_left p s)))

-- unicode.IsSpace
unfoldable pub is_space : ℕ → Bool
is_space c =
    (leb 9 c && leb c 13)
    || c == 32
    || c == 133
    || c == 160
    || c == 5760
    || (leb 8192 c && leb c 8202)
    || c == 8232
    || c == 8233
    || c == 8239
    || c == 8287
    || c == 12288

abbrev pub trim_space : Bytes → Bytes
trim_space s = trim is_space s

abbrev pub push_first : ℕ → List Bytes → List Bytes
push_first c [] = (c ∷ []) ∷ []
push_first c (w ∷ ws) = (c ∷ w) ∷ ws

-- Split on one separator: as many parts as there are separators, and one.
unfoldable pub split : ℕ → Bytes → List Bytes
split sep [] = [] ∷ []
split sep (c ∷ s) = let rest = split sep s in if c == sep then [] ∷ rest else push_first c rest

unfoldable pub contains : ℕ → Bytes → Bool
contains c s = any (λ d. d == c) s

pub data AddressError : Type 0 where
  mount_required mount_ambiguous name_required name_ambiguous : AddressError
  pkcs11_field token_or_slot label_or_id key_id_hex : AddressError

unfoldable pub is_ambiguous : Bytes → Bool
is_ambiguous s =
    bytes_eq s (codes ".") || bytes_eq s (codes "..") || not (bytes_eq (trim_space s) s)

-- normalizeVaultMount
unfoldable pub normalize_mount : Bytes → Result AddressError Bytes
normalize_mount value =
    let trimmed = trim (λ c. c == slash) value in
    if is_empty trimmed
    then err mount_required
    else if any (λ part. is_empty part || is_ambiguous part) (split slash trimmed)
    then err mount_ambiguous
    else ok trimmed

-- normalizeVaultKeyName
unfoldable pub normalize_key_name : Bytes → Result AddressError Bytes
normalize_key_name value =
    if is_empty value
    then err name_required
    else if contains slash value || is_ambiguous value
    then err name_ambiguous
    else ok value

-- ValidateVaultAddressing
unfoldable pub validate_addressing : Bytes → Bytes → Bytes → Result AddressError (Unit {0})
validate_addressing transit_mount binding_mount key_name = normalize_mount transit_mount >>= λ t.
    normalize_mount binding_mount >>= λ b. normalize_key_name key_name >>= λ k. ok tt

abbrev pub is_hex_digit : ℕ → Bool
is_hex_digit c = (leb 48 c && leb c 57) || (leb 65 c && leb c 70) || (leb 97 c && leb c 102)

-- Whether hex.DecodeString accepts the text: pairs of digits.
unfoldable pub decodes_hex : Bytes → Bool
decodes_hex [] = true
decodes_hex (a ∷ []) = false
decodes_hex (a ∷ b ∷ s) = is_hex_digit a && is_hex_digit b && decodes_hex s

abbrev pub is_nil : Option ℕ → Bool
is_nil none = true
is_nil (some n) = false

abbrev pub same : Bool → Bool → Bool
same true b = b
same false b = not b

-- ValidatePKCS11Config
unfoldable pub validate_pkcs11 : Pkcs11Config → Result AddressError (Unit {0})
validate_pkcs11 cfg =
    if any is_empty (cfg.mod_path ∷ cfg.pin_file ∷ cfg.binding_file ∷ [])
    then err pkcs11_field
    else if same (is_empty cfg.token_label) (is_nil cfg.slot)
    then err token_or_slot
    else if is_empty cfg.key_label && is_empty cfg.key_id
    then err label_or_id
    else fail_if (not (is_empty cfg.key_id) && not (decodes_hex cfg.key_id)) key_id_hex
