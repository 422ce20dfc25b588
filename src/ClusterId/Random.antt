-- ===== src/ClusterId/Random.antt =====
-- New of internal/clusterid/id.go against Validate of the same file.
use cosmosigner.Prelude.{
  ℕ, false, if◌then◌else◌, zero, suc, ◌/◌, ◌%◌, ◌<◌, ◌≡◌, refl, Bool, true, ◌||◌, ◌==◌, ==_iff,
  arith, ok,
}
use cosmosigner.ClusterId.Uuid.{IsVariant}
use cosmosigner.ClusterId.Format.{parts-validate}
use cosmosigner.ClusterId.{
  Raw, new, validate, canonical_from, hex_digit, version_byte, variant_byte, is_hex,
}

-- The test holds of every number under the limit.
table : (ℕ → Bool) → ℕ → Bool
table test zero = true
table test (suc limit) = if test limit then table test limit else false

table_entry : (test : ℕ → Bool) (limit b : ℕ) → b < limit → table test limit ≡ true → test b ≡ true
unfolding table
table_entry test zero b under full = elim under [ ]
table_entry test (suc limit) b under full =
    let earlier : b < limit → table test limit ≡ true → test b ≡ true = table_entry test limit b in
    ground arith

-- Each entry of the hex table is a lowercase digit.
hex_digit-is_hex : (n : ℕ) → n < 16 → is_hex (hex_digit n) ≡ true
unfolding hex_digit is_hex
hex_digit-is_hex n h = ground arith

version_table : table (λ b. version_byte b / 16 == 4) 256 ≡ true
unfolding table version_byte
version_table = refl

abbrev has_variant : ℕ → Bool
has_variant b = let d = b / 16 in d == 8 || d == 9 || d == 10 || d == 11

variant_table : table (λ b. has_variant (variant_byte b)) 256 ≡ true
unfolding table variant_byte
variant_table = refl

-- Every value of the array's bytes is in range.
pub record IsRaw (r : Raw) : Type 0 where
  pub f0 : r.b0 < 256
  pub f1 : r.b1 < 256
  pub f2 : r.b2 < 256
  pub f3 : r.b3 < 256
  pub f4 : r.b4 < 256
  pub f5 : r.b5 < 256
  pub f6 : r.b6 < 256
  pub f7 : r.b7 < 256
  pub f8 : r.b8 < 256
  pub f9 : r.b9 < 256
  pub f10 : r.b10 < 256
  pub f11 : r.b11 < 256
  pub f12 : r.b12 < 256
  pub f13 : r.b13 < 256
  pub f14 : r.b14 < 256
  pub f15 : r.b15 < 256

hex_high : (b : ℕ) → b < 256 → is_hex (hex_digit (b / 16)) ≡ true
hex_high b h = hex_digit-is_hex (b / 16) (omega arith)

hex_low : (b : ℕ) → b < 256 → is_hex (hex_digit (b % 16)) ≡ true
hex_low b h = hex_digit-is_hex (b % 16) (omega arith)

version_digits : (b : ℕ) → b < 256 → hex_digit (version_byte b / 16) ≡ b'4'
unfolding hex_digit
version_digits b h =
    let e : version_byte b / 16 ≡ 4 = (==_iff _ 4).0 (table_entry _ 256 b h version_table) in rw e

IsVariant-digits : (b : ℕ) → b < 256 → IsVariant (hex_digit (variant_byte b / 16))
unfolding hex_digit
IsVariant-digits b h =
    let e : has_variant (variant_byte b) ≡ true = table_entry _ 256 b h variant_table in
    ground arith

version_byte_lt : (b : ℕ) → b < 256 → version_byte b < 256
version_byte_lt b h =
    let e : version_byte b / 16 ≡ 4 = (==_iff _ 4).0 (table_entry _ 256 b h version_table) in
    omega arith

variant_byte_lt : (b : ℕ) → b < 256 → variant_byte b < 256
variant_byte_lt b h =
    let e : has_variant (variant_byte b) ≡ true = table_entry _ 256 b h variant_table in
    ground arith

canonical_new : (r : Raw) → IsRaw r → canonical_from 0 (new r) ≡ true
unfolding canonical_from new
canonical_new r h = simp (
  hex_high r.b0 h.f0,
  hex_low r.b0 h.f0,
  hex_high r.b1 h.f1,
  hex_low r.b1 h.f1,
  hex_high r.b2 h.f2,
  hex_low r.b2 h.f2,
  hex_high r.b3 h.f3,
  hex_low r.b3 h.f3,
  hex_high r.b4 h.f4,
  hex_low r.b4 h.f4,
  hex_high r.b5 h.f5,
  hex_low r.b5 h.f5,
  hex_high (version_byte r.b6) (version_byte_lt r.b6 h.f6),
  hex_low (version_byte r.b6) (version_byte_lt r.b6 h.f6),
  hex_high r.b7 h.f7,
  hex_low r.b7 h.f7,
  hex_high (variant_byte r.b8) (variant_byte_lt r.b8 h.f8),
  hex_low (variant_byte r.b8) (variant_byte_lt r.b8 h.f8),
  hex_high r.b9 h.f9,
  hex_low r.b9 h.f9,
  hex_high r.b10 h.f10,
  hex_low r.b10 h.f10,
  hex_high r.b11 h.f11,
  hex_low r.b11 h.f11,
  hex_high r.b12 h.f12,
  hex_low r.b12 h.f12,
  hex_high r.b13 h.f13,
  hex_low r.b13 h.f13,
  hex_high r.b14 h.f14,
  hex_low r.b14 h.f14,
  hex_high r.b15 h.f15,
  hex_low r.b15 h.f15,
)

-- New always returns an identity that Validate accepts.
pub validate-new : (r : Raw) → IsRaw r → validate (new r) ≡ ok tt
validate-new r h =
    parts-validate (new r) (unfold new in refl) (canonical_new r h)
      (unfold new in version_digits r.b6 h.f6) (unfold new in IsVariant-digits r.b8 h.f8)
