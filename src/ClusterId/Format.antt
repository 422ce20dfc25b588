-- ===== src/ClusterId/Format.antt =====
-- What Validate of internal/clusterid/id.go accepts.
use cosmosigner.Prelude.{
  ℕ, suc, ◌+◌, ◌≡◌, inl, ◌↔◌, refl, sym, ap, ◌∙◌, true, false, Bytes, [], ◌∷◌, ◌++◌, length,
  length-append, subst, arith, ok,
}
use mathlib.Core.List.{append-nil}
use cosmosigner.ClusterId.{validate, canonical_from, byte_at, is_hex, is_dash_place}
use cosmosigner.ClusterId.Uuid.{
  IsDigit, IsRun, IsVariant, IsUuid, NoDash, Group, group, last-IsRun, run_byte, First, run-First,
}

validate-parts :
    (id : Bytes)
    → validate id ≡ ok tt
    → (length id ≡ 36)
      × (canonical_from 0 id ≡ true)
      × (byte_at id 14 ≡ b'4')
      × IsVariant (byte_at id 19)
unfolding validate
validate-parts id = ground arith

pub parts-validate :
    (id : Bytes)
    → length id ≡ 36
    → canonical_from 0 id ≡ true
    → byte_at id 14 ≡ b'4'
    → IsVariant (byte_at id 19)
    → validate id ≡ ok tt
unfolding validate
parts-validate id = ground arith

Group-byte :
    (i n k : ℕ) (bs : Bytes) (g : Group i n k bs) (j : ℕ)
    → byte_at bs (n + suc j) ≡ byte_at g.rest j
Group-byte i n k bs g j =
    ap (λ b. byte_at b (n + suc j)) g.joined ∙ run_byte n g.run (b'-' ∷ g.rest) (suc j) g.is_run

first_byte :
    (i n k : ℕ) (bs : Bytes) (g : Group i (suc n) k bs) (f : First n g.run) → byte_at bs 0 ≡ f.first
first_byte i n k bs g f =
    ap (λ b. byte_at b 0) (g.joined ∙ ap (λ r. r ++ (b'-' ∷ g.rest)) f.split_off)

plain_0 : NoDash 0 8
plain_0 k under = ground arith

plain_9 : NoDash 9 4
plain_9 k under = ground arith

plain_14 : NoDash 14 4
plain_14 k under = ground arith

plain_19 : NoDash 19 4
plain_19 k under = ground arith

plain_24 : NoDash 24 12
plain_24 k under = ground arith

-- A valid identity, split at its dashes.
split_id :
    (id : Bytes) (g1 : Group 0 8 27 id) (g2 : Group 9 4 22 g1.rest) (g3 : Group 14 4 17 g2.rest)
    (g4 : Group 19 4 12 g3.rest)
    → IsRun 12 g4.rest
    → byte_at id 14 ≡ b'4'
    → IsVariant (byte_at id 19)
    → IsUuid id
split_id id g1 g2 g3 g4 node_run version variant =
    let high = run-First 3 g3.run g3.is_run in
    let clock = run-First 3 g4.run g4.is_run in
    let at_14 : byte_at id 14 ≡ high.first =
      Group-byte 0 8 27 id g1 5
      ∙ Group-byte 9 4 22 g1.rest g2 0
      ∙ first_byte 14 3 17 g2.rest g3 high in
    let at_19 : byte_at id 19 ≡ clock.first =
      Group-byte 0 8 27 id g1 10
      ∙ Group-byte 9 4 22 g1.rest g2 5
      ∙ Group-byte 14 4 17 g2.rest g3 0
      ∙ first_byte 19 3 12 g3.rest g4 clock in
    let high_spelled = high.split_off ∙ ap (λ d. d ∷ high.others) (sym at_14 ∙ version) in
    record {
      time_low = g1.run;
      time_mid = g2.run;
      time_high = high.others;
      variant = clock.first;
      clock = clock.others;
      node = g4.rest;
      low_run = g1.is_run;
      mid_run = g2.is_run;
      high_run = high.is_run;
      is_variant = subst IsVariant at_19 variant;
      clock_run = clock.is_run;
      node_run = node_run;
      spelled =
          g1.joined
          ∙ ap (λ r. g1.run ++ (b'-' ∷ r))
              (g2.joined
                ∙ ap (λ r. g2.run ++ (b'-' ∷ r))
                    (g3.joined
                      ∙ ap (λ d. d ++ (b'-' ∷ g3.rest)) high_spelled
                      ∙ ap (λ r. b'4' ∷ (high.others ++ (b'-' ∷ r)))
                          (g4.joined ∙ ap (λ d. d ++ (b'-' ∷ g4.rest)) clock.split_off)));
    }

valid-IsUuid : (id : Bytes) → validate id ≡ ok tt → IsUuid id
valid-IsUuid id h =
    let (size, canon, version, variant) = validate-parts id h in
    let g1 = group 0 8 27 id size plain_0 refl canon in
    let g2 = group 9 4 22 g1.rest g1.left plain_9 refl g1.after in
    let g3 = group 14 4 17 g2.rest g2.left plain_14 refl g2.after in
    let g4 = group 19 4 12 g3.rest g3.left plain_19 refl g3.after in
    split_id id g1 g2 g3 g4 (last-IsRun 24 12 g4.rest g4.left plain_24 g4.after) version variant

-- The other way round: digits and dashes in their places pass the loop.
run_canonical :
    (i n : ℕ) (run rest : Bytes)
    → IsRun n run
    → NoDash i n
    → canonical_from (i + n) rest ≡ true
    → canonical_from i (run ++ rest) ≡ true
unfolding canonical_from is_hex
run_canonical i n [] rest (size, digits) plain h =
    ap (λ k. canonical_from k rest) (here i n size) ∙ h
  where
    here : (i n : ℕ) → 0 ≡ n → i ≡ i + n
    here i n size = omega (arith, size)
run_canonical i n (b ∷ bs) rest (size, (digit, digits)) plain h =
    let first : is_dash_place i ≡ false =
      ap is_dash_place (plus_zero i) ∙ plain 0 (omega (arith, size)) in
    let later : canonical_from (suc i) (bs ++ rest) ≡ true =
      run_canonical (suc i) (length bs) bs rest (refl, digits)
        (λ k under. ap is_dash_place (shift i k) ∙ plain (suc k) (omega (arith, size, under)))
        (ap (λ k. canonical_from k rest) (count i n bs size) ∙ h) in
    ground arith
  where
    plus_zero : (i : ℕ) → i ≡ i + 0
    plus_zero i = omega arith

    shift : (i k : ℕ) → suc i + k ≡ i + suc k
    shift i k = omega arith

    count : (i n : ℕ) (bs : Bytes) → suc (length bs) ≡ n → suc i + length bs ≡ i + n
    count i n bs size = omega (arith, size)

dash_canonical :
    (i : ℕ) (rest : Bytes)
    → is_dash_place i ≡ true
    → canonical_from (suc i) rest ≡ true
    → canonical_from i (b'-' ∷ rest) ≡ true
unfolding canonical_from
dash_canonical i rest on h = rw (on, h) refl

variant-IsDigit : (v : ℕ) → IsVariant v → IsDigit v
variant-IsDigit v h = ground arith

-- A run of digits and the dash after it.
group_canonical :
    (i n : ℕ) (run rest : Bytes)
    → IsRun n run
    → NoDash i n
    → is_dash_place (i + n) ≡ true
    → canonical_from (suc (i + n)) rest ≡ true
    → canonical_from i (run ++ (b'-' ∷ rest)) ≡ true
group_canonical i n run rest is_run plain on h =
    run_canonical i n run (b'-' ∷ rest) is_run plain (dash_canonical (i + n) rest on h)

last_canonical : (node : Bytes) → IsRun 12 node → canonical_from 24 node ≡ true
unfolding canonical_from
last_canonical node is_run =
    subst (λ r. canonical_from 24 r ≡ true) (append-nil node)
      (run_canonical 24 12 node [] is_run plain_24 ends)
  where
    ends : canonical_from 36 [] ≡ true
    ends = refl

module _ (low mid high clock node : Bytes) (v : ℕ) where
  after_high : Bytes
  after_high = b'-' ∷ v ∷ (clock ++ (b'-' ∷ node))

  after_mid : Bytes
  unfolding after_high
  after_mid = b'-' ∷ b'4' ∷ (high ++ after_high)

  spelling : Bytes
  unfolding after_mid
  spelling = low ++ (b'-' ∷ (mid ++ after_mid))

  spelling-valid :
      IsRun 8 low
      → IsRun 4 mid
      → IsRun 3 high
      → IsVariant v
      → IsRun 3 clock
      → IsRun 12 node
      → validate spelling ≡ ok tt
  unfolding spelling after_mid after_high
  spelling-valid l m h var c n = parts-validate spelling size placed version variant
    where
      size : length spelling ≡ 36
      size = omega (
        arith,
        length-append low (b'-' ∷ (mid ++ after_mid)),
        length-append mid after_mid,
        length-append high after_high,
        length-append clock (b'-' ∷ node),
        l.0,
        m.0,
        h.0,
        c.0,
        n.0,
      )

      high_run : IsRun 4 (b'4' ∷ high)
      high_run = (ap suc h.0, (inl (omega arith, omega arith), h.1))

      clock_run : IsRun 4 (v ∷ clock)
      clock_run = (ap suc c.0, (variant-IsDigit v var, c.1))

      placed : canonical_from 0 spelling ≡ true
      placed = group_canonical 0 8 low _ l plain_0 refl (
          group_canonical 9 4 mid _ m plain_9 refl (
            group_canonical 14 4 (b'4' ∷ high) _ high_run plain_14 refl (
              group_canonical 19 4 (v ∷ clock) node clock_run plain_19 refl
                (last_canonical node n))))

      version : byte_at spelling 14 ≡ b'4'
      version = run_byte 8 low (b'-' ∷ (mid ++ after_mid)) 6 l ∙ run_byte 4 mid after_mid 1 m

      at_19 : byte_at spelling 19 ≡ v
      at_19 =
          run_byte 8 low (b'-' ∷ (mid ++ after_mid)) 11 l
          ∙ run_byte 4 mid after_mid 6 m
          ∙ run_byte 3 high after_high 1 h

      variant : IsVariant (byte_at spelling 19)
      variant = subst IsVariant (sym at_19) var

-- Validate accepts exactly the lowercase version 4 UUIDs: 8, 4, 4, 4 and 12 hexadecimal digits with dashes
-- between them, where the third group starts with 4 and the fourth with 8, 9, a or b.
pub validate_iff : (id : Bytes) → (validate id ≡ ok tt) ↔ IsUuid id
unfolding spelling after_mid after_high
validate_iff id = (
  valid-IsUuid id,
  λ u.
      subst (λ s. validate s ≡ ok tt) (sym u.spelled)
        (spelling-valid u.time_low u.time_mid u.time_high u.clock u.node u.variant u.low_run
          u.mid_run u.high_run u.is_variant u.clock_run u.node_run),
)
