-- ===== src/ClusterId.antt =====
-- internal/clusterid/id.go: the identity format shared by Raft and the key backends.
pub mod Uuid
pub mod Format
pub mod Random
pub mod Tests
use Prim.Native.Nat.{bit_and, bit_or}
use cosmosigner.Prelude.{
  true, ℕ, zero, suc, ◌+◌, ◌-◌, ◌/◌, ◌%◌, Bytes, codes, List, [], ◌∷◌, ◌++◌, Bool, not, ◌&&◌, ◌||◌,
  length, any, ltb, leb, ◌==◌, if◌then◌else◌, Result, ok, err,
}

pub data Error : Type 0 where
  not_canonical not_version_4 : Error

-- An index past the end would panic in Go; every use below is guarded by the length test.
abbrev pub byte_at : Bytes → ℕ → ℕ
byte_at [] i = 0
byte_at (b ∷ bs) zero = b
byte_at (b ∷ bs) (suc i) = byte_at bs i

unfoldable pub is_hex : ℕ → Bool
is_hex b = (leb b'0' b && leb b b'9') || (leb b'a' b && leb b b'f')

abbrev pub is_dash_place : ℕ → Bool
is_dash_place i = i == 8 || i == 13 || i == 18 || i == 23

-- The loop of Validate over the bytes from index i on.
pub canonical_from : ℕ → Bytes → Bool
canonical_from i [] = true
canonical_from i (b ∷ bs) =
    (if is_dash_place i then b == b'-' else is_hex b) && canonical_from (suc i) bs

abbrev pub variants : Bytes
variants = codes "89ab"

unfoldable pub validate : Bytes → Result Error (Unit {0})
unfolding canonical_from
validate id =
    if not (length id == 36)
    then err not_canonical
    else if not (canonical_from 0 id)
    then err not_canonical
    else if not (byte_at id 14 == b'4') || not (any (λ v. v == byte_at id 19) variants)
    then err not_version_4
    else ok tt

-- The array of 16 random bytes.
pub record Raw : Type 0 where
  pub b0 : ℕ
  pub b1 : ℕ
  pub b2 : ℕ
  pub b3 : ℕ
  pub b4 : ℕ
  pub b5 : ℕ
  pub b6 : ℕ
  pub b7 : ℕ
  pub b8 : ℕ
  pub b9 : ℕ
  pub b10 : ℕ
  pub b11 : ℕ
  pub b12 : ℕ
  pub b13 : ℕ
  pub b14 : ℕ
  pub b15 : ℕ

unfoldable pub hex_digit : ℕ → ℕ
hex_digit n = if ltb n 10 then b'0' + n else b'a' + (n - 10)

abbrev pub hex_encode : Bytes → Bytes
hex_encode [] = []
hex_encode (b ∷ bs) = hex_digit (b / 16) ∷ hex_digit (b % 16) ∷ hex_encode bs

unfoldable pub version_byte : ℕ → ℕ
version_byte b = bit_or (bit_and b 0x0f) 0x40

unfoldable pub variant_byte : ℕ → ℕ
variant_byte b = bit_or (bit_and b 0x3f) 0x80

-- New, from the bytes that crypto/rand supplies; its error path returns before the encoding.
unfoldable pub new : Raw → Bytes
new r =
    hex_encode (r.b0 ∷ r.b1 ∷ r.b2 ∷ r.b3 ∷ [])
    ++ (b'-' ∷ hex_encode (r.b4 ∷ r.b5 ∷ []))
    ++ (b'-' ∷ hex_encode (version_byte r.b6 ∷ r.b7 ∷ []))
    ++ (b'-' ∷ hex_encode (variant_byte r.b8 ∷ r.b9 ∷ []))
    ++ (b'-' ∷ hex_encode (r.b10 ∷ r.b11 ∷ r.b12 ∷ r.b13 ∷ r.b14 ∷ r.b15 ∷ []))
