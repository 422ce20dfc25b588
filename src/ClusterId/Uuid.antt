-- ===== src/ClusterId/Uuid.antt =====
-- The shape of a cluster identity, and how the loop of Validate of internal/clusterid/id.go splits one into
-- its groups of digits.
use cosmosigner.Prelude.{
  ℕ, zero, suc, ◌+◌, ◌≤◌, ◌<◌, ◌≡◌, ◌⊎◌, refl, sym, ap, ◌∙◌, true, false, Bytes, [], ◌∷◌, ◌++◌,
  length, length-append, All, subst, arith,
}
use mathlib.Core.List.{append-nil}
use cosmosigner.ClusterId.{canonical_from, byte_at, is_hex, is_dash_place}

-- A lowercase hexadecimal digit.
abbrev pub IsDigit : ℕ → Type 0
IsDigit b = ((b'0' ≤ b) × (b ≤ b'9')) ⊎ ((b'a' ≤ b) × (b ≤ b'f'))

-- A run of that many digits.
abbrev pub IsRun : ℕ → Bytes → Type 0
IsRun n bs = (length bs ≡ n) × All IsDigit bs

abbrev pub IsVariant : ℕ → Type 0
IsVariant b = (b ≡ b'8') ⊎ (b ≡ b'9') ⊎ (b ≡ b'a') ⊎ (b ≡ b'b')

-- A lowercase 8-4-4-4-12 version 4 UUID.
pub record IsUuid (id : Bytes) : Type 0 where
  pub time_low : Bytes
  pub time_mid : Bytes
  pub time_high : Bytes
  pub variant : ℕ
  pub clock : Bytes
  pub node : Bytes
  pub low_run : IsRun 8 time_low
  pub mid_run : IsRun 4 time_mid
  pub high_run : IsRun 3 time_high
  pub is_variant : IsVariant variant
  pub clock_run : IsRun 3 clock
  pub node_run : IsRun 12 node
  pub spelled :
      id
      ≡ time_low
        ++ (b'-'
            ∷ (time_mid
                ++ (b'-' ∷ b'4' ∷ (time_high ++ (b'-' ∷ variant ∷ (clock ++ (b'-' ∷ node)))))))

-- The bytes from an index on, split after a run of digits.
pub record Split (i n : ℕ) (bs : Bytes) : Type 0 where
  pub run : Bytes
  pub rest : Bytes
  pub joined : bs ≡ run ++ rest
  pub is_run : IsRun n run
  pub after : canonical_from (i + n) rest ≡ true

abbrev pub NoDash : ℕ → ℕ → Type 0
NoDash i n = (k : ℕ) → k < n → is_dash_place (i + k) ≡ false

pub head-IsDigit :
    (i b : ℕ) (bs : Bytes)
    → is_dash_place i ≡ false
    → canonical_from i (b ∷ bs) ≡ true
    → IsDigit b × (canonical_from (suc i) bs ≡ true)
unfolding canonical_from is_hex
head-IsDigit i b bs off h = (ground arith, ground arith)

pub dash_of :
    (i b : ℕ) (bs : Bytes)
    → is_dash_place i ≡ true
    → canonical_from i (b ∷ bs) ≡ true
    → (b ≡ b'-') × (canonical_from (suc i) bs ≡ true)
unfolding canonical_from is_hex
dash_of i b bs on h = (ground arith, ground arith)

pub split :
    (i n : ℕ) (bs : Bytes) → n ≤ length bs → NoDash i n → canonical_from i bs ≡ true → Split i n bs
split i zero bs enough plain h = record {
  run = [];
  rest = bs;
  joined = refl;
  is_run = (refl, tt);
  after = ap (λ k. canonical_from k bs) (plus_zero i) ∙ h;
}
  where
    plus_zero : (i : ℕ) → i + 0 ≡ i
    plus_zero i = omega arith
split i (suc n) [] enough plain h = absurd (omega arith)
split i (suc n) (b ∷ bs) enough plain h =
    let (digit, later) =
      head-IsDigit i b bs (ap is_dash_place (plus_zero i) ∙ plain 0 (omega arith)) h in
    let s =
      split (suc i) n bs (omega (arith, enough))
        (λ k under. ap is_dash_place (shift i k) ∙ plain (suc k) (omega (arith, under))) later in
    record {
      run = b ∷ s.run;
      rest = s.rest;
      joined = ap (◌∷◌ b) s.joined;
      is_run = (ap suc s.is_run.0, (digit, s.is_run.1));
      after = ap (λ k. canonical_from k s.rest) (sym (shift i n)) ∙ s.after;
    }
  where
    plus_zero : (i : ℕ) → i ≡ i + 0
    plus_zero i = omega arith

    shift : (i k : ℕ) → suc i + k ≡ i + suc k
    shift i k = omega arith

byte_at-append :
    (front bs : Bytes) (k : ℕ) → byte_at (front ++ bs) (length front + k) ≡ byte_at bs k
byte_at-append [] bs k = ap (byte_at bs) (zero_plus k)
  where
    zero_plus : (k : ℕ) → 0 + k ≡ k
    zero_plus k = omega arith
byte_at-append (a ∷ front) bs k =
    ap (byte_at (a ∷ (front ++ bs))) (shift front k) ∙ byte_at-append front bs k
  where
    shift : (front : Bytes) (k : ℕ) → suc (length front) + k ≡ suc (length front + k)
    shift front k = omega arith

pub run_byte :
    (n : ℕ) (run rest : Bytes) (k : ℕ)
    → IsRun n run
    → byte_at (run ++ rest) (n + k) ≡ byte_at rest k
run_byte n run rest k (size, digits) =
    subst (λ m. byte_at (run ++ rest) (m + k) ≡ byte_at rest k) size (byte_at-append run rest k)

-- A run of digits that a dash ends.
pub record Group (i n k : ℕ) (bs : Bytes) : Type 0 where
  pub run : Bytes
  pub rest : Bytes
  pub joined : bs ≡ run ++ (b'-' ∷ rest)
  pub is_run : IsRun n run
  pub after : canonical_from (suc (i + n)) rest ≡ true
  pub left : length rest ≡ k

dashed :
    (i n k : ℕ) (bs : Bytes) (s : Split i n bs) (rest : Bytes)
    → s.rest ≡ rest
    → length bs ≡ n + suc k
    → is_dash_place (i + n) ≡ true
    → Group i n k bs
dashed i n k bs s [] same size on =
    let whole = ap length (s.joined ∙ ap (λ r. s.run ++ r) same) in
    absurd (omega (arith, size, whole, length-append s.run [], s.is_run.0))
dashed i n k bs s (d ∷ rest) same size on =
    let (dash, later) =
      dash_of (i + n) d rest on (ap (canonical_from (i + n)) (sym same) ∙ s.after) in
    let whole = s.joined ∙ ap (λ r. s.run ++ r) same in
    record {
      run = s.run;
      rest = rest;
      joined = whole ∙ ap (λ c. s.run ++ (c ∷ rest)) dash;
      is_run = s.is_run;
      after = later;
      left = omega (arith, size, ap length whole, length-append s.run (d ∷ rest), s.is_run.0);
    }

pub group :
    (i n k : ℕ) (bs : Bytes)
    → length bs ≡ n + suc k
    → NoDash i n
    → is_dash_place (i + n) ≡ true
    → canonical_from i bs ≡ true
    → Group i n k bs
group i n k bs size plain on h =
    let s = split i n bs (omega (arith, size)) plain h in dashed i n k bs s s.rest refl size on

-- The first digit of a run.
pub record First (n : ℕ) (run : Bytes) : Type 0 where
  pub first : ℕ
  pub others : Bytes
  pub split_off : run ≡ first ∷ others
  pub is_run : IsRun n others

pub run-First : (n : ℕ) (run : Bytes) → IsRun (suc n) run → First n run
run-First n [] (size, digits) = absurd (omega (arith, size))
run-First n (b ∷ bs) (size, (digit, digits)) = record {
  first = b;
  others = bs;
  split_off = refl;
  is_run = (omega (arith, size), digits);
}

pub last-IsRun :
    (i n : ℕ) (bs : Bytes) → length bs ≡ n → NoDash i n → canonical_from i bs ≡ true → IsRun n bs
last-IsRun i n bs size plain h = whole (split i n bs (omega (arith, size)) plain h)
  where
    bare : (s : Split i n bs) → s.rest ≡ [] → bs ≡ s.run
    bare s same = s.joined ∙ ap (λ r. s.run ++ r) same ∙ append-nil s.run

    ended : (s : Split i n bs) (rest : Bytes) → s.rest ≡ rest → IsRun n bs
    ended s [] same = (size, subst (All IsDigit) (sym (bare s same)) s.is_run.1)
    ended s (b ∷ rest) same =
        let all = ap length (s.joined ∙ ap (λ r. s.run ++ r) same) in
        absurd (omega (arith, size, all, length-append s.run (b ∷ rest), s.is_run.0))

    whole : Split i n bs → IsRun n bs
    whole s = ended s s.rest refl
