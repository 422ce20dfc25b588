-- ===== src/Prelude/Base64.antt =====
-- encoding/base64 of Go's standard library: StdEncoding, which skips line ends when it decodes.
use Prim.Native.Nat.{ℕ, ◌+◌, ◌-◌, ◌*◌, ◌/◌, ◌%◌, ◌<◌}
use mathlib.Core.Path.{◌≡◌, refl, ap, ◌∙◌}
use mathlib.Core.Bool.{false, ◌&&◌, ◌||◌}
use mathlib.Core.Option.{Option, none, some}
use mathlib.Core.List.{[], ◌∷◌}
use native.Mathlib.Omega.{arith}
use cosmosigner.Prelude.Tests.{ltb, leb, ◌==◌, if◌then◌else◌}
use cosmosigner.Prelude.Lists.{All}
use cosmosigner.Prelude.ByteStrings.{Bytes, is_empty}

-- The padding, '='.
abbrev pub pad : ℕ
pad = 61

-- The character of a 6-bit value: A-Z, a-z, 0-9, + and /.
abbrev pub char : ℕ → ℕ
char v =
    if ltb v 26
    then 65 + v
    else if ltb v 52
    then 71 + v
    else if ltb v 62
    then v - 4
    else if v == 62
    then 43
    else 47

abbrev pub value : ℕ → Option ℕ
value c =
    if leb 65 c && leb c 90
    then some (c - 65)
    else if leb 97 c && leb c 122
    then some (c - 71)
    else if leb 48 c && leb c 57
    then some (c + 4)
    else if c == 43
    then some 62
    else if c == 47
    then some 63
    else none

-- EncodeToString
unfoldable pub encode : Bytes → Bytes
encode [] = []
encode (x ∷ []) = char (x / 4) ∷ char (x % 4 * 16) ∷ pad ∷ pad ∷ []
encode (x ∷ y ∷ []) = char (x / 4) ∷ char (x % 4 * 16 + y / 16) ∷ char (y % 16 * 4) ∷ pad ∷ []
encode (x ∷ y ∷ z ∷ s) =
    char (x / 4)
    ∷ char (x % 4 * 16 + y / 16)
    ∷ char (y % 16 * 4 + z / 64)
    ∷ char (z % 64)
    ∷ encode s

abbrev pub one_byte : Option ℕ → Option ℕ → Option Bytes
one_byte (some a) (some b) = some ((a * 4 + b / 16) ∷ [])
one_byte _ _ = none

abbrev pub two_bytes : Option ℕ → Option ℕ → Option ℕ → Option Bytes
two_bytes (some a) (some b) (some c) = some ((a * 4 + b / 16) ∷ (b % 16 * 16 + c / 4) ∷ [])
two_bytes _ _ _ = none

abbrev pub three_bytes : Option ℕ → Option ℕ → Option ℕ → Option ℕ → Option Bytes → Option Bytes
three_bytes (some a) (some b) (some c) (some d) (some s) =
    some ((a * 4 + b / 16) ∷ (b % 16 * 16 + c / 4) ∷ (c % 4 * 64 + d) ∷ s)
three_bytes _ _ _ _ _ = none

-- Groups of four characters. Only the last one is padded, and its unused bits are not looked at.
unfoldable pub decode_groups : Bytes → Option Bytes
decode_groups [] = some []
decode_groups (a ∷ b ∷ c ∷ d ∷ s) =
    let rest = decode_groups s in
    if is_empty s && c == pad && d == pad
    then one_byte (value a) (value b)
    else if is_empty s && d == pad
    then two_bytes (value a) (value b) (value c)
    else three_bytes (value a) (value b) (value c) (value d) rest
decode_groups _ = none

unfoldable pub skip_line_ends : Bytes → Bytes
skip_line_ends [] = []
skip_line_ends (c ∷ s) =
    let rest = skip_line_ends s in if c == 10 || c == 13 then rest else c ∷ rest

-- DecodeString
unfoldable pub decode : Bytes → Option Bytes
decode s = decode_groups (skip_line_ends s)

pub value-char : (v : ℕ) → v < 64 → value (char v) ≡ some v
value-char v h = ground arith

-- A character of an encoding: no padding, no line end and no colon.
char-apart :
    (v : ℕ)
    → v < 64
    → ((char v == 61) ≡ false) × ((char v == 10 || char v == 13) ≡ false) × ((char v == 58) ≡ false)
char-apart v h = ground arith

abbrev pub IsByte : ℕ → Type 0
IsByte x = x < 256

plain_group :
    (a b c d : ℕ) (s : Bytes)
    → (c == pad) ≡ false
    → (d == pad) ≡ false
    → decode_groups (a ∷ b ∷ c ∷ d ∷ s)
      ≡ three_bytes (value a) (value b) (value c) (value d) (decode_groups s)
unfolding decode_groups
plain_group a b c d [] h k = rw (h, k) refl
plain_group a b c d (e ∷ s) h k = refl

group_of :
    (x y z : ℕ) (s : Bytes)
    → IsByte x
    → IsByte y
    → IsByte z
    → three_bytes
        (some (x / 4))
        (some (x % 4 * 16 + y / 16))
        (some (y % 16 * 4 + z / 64))
        (some (z % 64))
        (some s)
      ≡ some (x ∷ y ∷ z ∷ s)
group_of x y z s hx hy hz =
    let first : x / 4 * 4 + (x % 4 * 16 + y / 16) / 16 ≡ x = omega arith in
    let second : (x % 4 * 16 + y / 16) % 16 * 16 + (y % 16 * 4 + z / 64) / 4 ≡ y = omega arith in
    let third : (y % 16 * 4 + z / 64) % 4 * 64 + z % 64 ≡ z = omega arith in cc

decode_groups-encode : (s : Bytes) → All IsByte s → decode_groups (encode s) ≡ some s
unfolding decode_groups encode
decode_groups-encode [] h = refl
decode_groups-encode (x ∷ []) (hx, _) =
    rw (value-char (x / 4) (omega arith), value-char (x % 4 * 16) (omega arith))
      (let whole : x / 4 * 4 + x % 4 * 16 / 16 ≡ x = omega arith in cc)
decode_groups-encode (x ∷ y ∷ []) (hx, (hy, _)) =
    rw
      (
        (char-apart (y % 16 * 4) (omega arith)).0,
        value-char (x / 4) (omega arith),
        value-char (x % 4 * 16 + y / 16) (omega arith),
        value-char (y % 16 * 4) (omega arith),
      )
      (let first : x / 4 * 4 + (x % 4 * 16 + y / 16) / 16 ≡ x = omega arith in
        let second : (x % 4 * 16 + y / 16) % 16 * 16 + y % 16 * 4 / 4 ≡ y = omega arith in cc)
decode_groups-encode (x ∷ y ∷ z ∷ s) (hx, (hy, (hz, hs))) =
    plain_group (char (x / 4)) (char (x % 4 * 16 + y / 16)) (char (y % 16 * 4 + z / 64))
      (char (z % 64)) (encode s) (char-apart (y % 16 * 4 + z / 64) (omega arith)).0
      (char-apart (z % 64) (omega arith)).0
    ∙ rw
        (
          value-char (x / 4) (omega arith),
          value-char (x % 4 * 16 + y / 16) (omega arith),
          value-char (y % 16 * 4 + z / 64) (omega arith),
          value-char (z % 64) (omega arith),
          decode_groups-encode s hs,
        )
        (group_of x y z s hx hy hz)

module _ (P : ℕ → Type 0) where
  -- Where every character and the padding have a property, an encoding has it throughout.
  encode-All :
      ((v : ℕ) → v < 64 → P (char v)) → P pad → (s : Bytes) → All IsByte s → All P (encode s)
  unfolding encode
  encode-All each at_pad [] h = tt
  encode-All each at_pad (x ∷ []) (hx, _) =
      (each (x / 4) (omega arith), (each (x % 4 * 16) (omega arith), (at_pad, (at_pad, tt))))
  encode-All each at_pad (x ∷ y ∷ []) (hx, (hy, _)) = (
    each (x / 4) (omega arith),
    (each (x % 4 * 16 + y / 16) (omega arith), (each (y % 16 * 4) (omega arith), (at_pad, tt))),
  )
  encode-All each at_pad (x ∷ y ∷ z ∷ s) (hx, (hy, (hz, hs))) = (
    each (x / 4) (omega arith),
    (
      each (x % 4 * 16 + y / 16) (omega arith),
      (
        each (y % 16 * 4 + z / 64) (omega arith),
        (each (z % 64) (omega arith), encode-All each at_pad s hs),
      ),
    ),
  )

skip_line_ends-clean :
    (s : Bytes) → All (λ c. (c == 10 || c == 13) ≡ false) s → skip_line_ends s ≡ s
unfolding skip_line_ends
skip_line_ends-clean [] h = refl
skip_line_ends-clean (c ∷ s) (hc, hs) = rw (hc, skip_line_ends-clean s hs) refl

-- Bytes are decoded from their encoding.
pub decode-encode : (s : Bytes) → All IsByte s → decode (encode s) ≡ some s
unfolding decode
decode-encode s h =
    ap decode_groups
      (skip_line_ends-clean (encode s) (encode-All _ (λ v b. (char-apart v b).1) refl s h))
    ∙ decode_groups-encode s h

-- An encoding has no colon.
pub encode-no_colon : (s : Bytes) → All IsByte s → All (λ c. (c == 58) ≡ false) (encode s)
encode-no_colon s h = encode-All _ (λ v b. (char-apart v b).2) refl s h
