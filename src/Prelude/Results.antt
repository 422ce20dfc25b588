-- ===== src/Prelude/Results.antt =====
-- Results of fallible Go functions: a value, or the error returned in its place.
use mathlib.Core.Path.{◌≡◌, refl, ap}
use mathlib.Core.Logic.{◌⊎◌, inl, inr}
use mathlib.Core.Option.{Option, none, some}
use mathlib.Core.Bool.{Bool, true, false}
use cosmosigner.Prelude.Tests.{if◌then◌else◌}

pub data Result {ℓ κ} (E : Type ℓ) (A : Type κ) : Type (ℓ ⊔ κ) where
  ok : A → Result E A
  err : E → Result E A

infixl 5 ◌>>=◌ ◌>>◌
abbrev pub ◌>>=◌ {ℓ κ μ} :
    {E : Type ℓ} {A : Type κ} {B : Type μ} → Result E A → (A → Result E B) → Result E B
ok a >>= f = f a
err e >>= f = err e

abbrev pub ◌>>◌ {ℓ κ} : {E : Type ℓ} {B : Type κ} → Result E (Unit {0}) → Result E B → Result E B
m >> k = m >>= λ _. k

-- `if bad { return err }`.
abbrev pub fail_if {ℓ} : {E : Type ℓ} → Bool → E → Result E (Unit {0})
fail_if true e = err e
fail_if false e = ok tt

abbrev pub is_ok {ℓ κ} : {E : Type ℓ} {A : Type κ} → Result E A → Bool
is_ok (ok a) = true
is_ok (err e) = false

-- A value and an `ok` flag, where the absence is an error.
abbrev pub or_fail {ℓ κ} : {E : Type ℓ} {A : Type κ} → Option A → E → Result E A
or_fail none e = err e
or_fail (some a) e = ok a

pub Result-cases {ℓ κ} :
    {E : Type ℓ} {A : Type κ} (r : Result E A) → ((a : A) × (r ≡ ok a)) ⊎ ((e : E) × (r ≡ err e))
Result-cases (ok a) = inl (a, refl)
Result-cases (err e) = inr (e, refl)

value_or {ℓ κ} : {E : Type ℓ} {A : Type κ} → A → Result E A → A
value_or d (ok a) = a
value_or d (err e) = d

pub ok_inj {ℓ κ} : {E : Type ℓ} {A : Type κ} {a b : A} → ◌≡◌ {A = Result E A} (ok a) (ok b) → a ≡ b
unfolding value_or
ok_inj {a = a} e = ap (value_or a) e

-- The first step of a chain that succeeds: its value, the rest of the chain, and the step.
pub chain_ok {ℓ κ μ} :
    {E : Type ℓ} {A : Type κ} {B : Type μ} (step : Result E A) {rest : A → Result E B} {end : B}
    → (step >>= rest) ≡ ok end
    → (v : A) × (rest v ≡ ok end) × (step ≡ ok v)
chain_ok (err e) failed = cc failed
chain_ok (ok v) told = (v, told, refl)

-- A chain of tests that passes has passed each one.
pub passes {ℓ κ} :
    {E : Type ℓ} {A : Type κ} (bad : Bool) (e : E) (rest : Result E A) (v : A)
    → ◌≡◌ {A = Result E A} (if bad then err e else rest) (ok v)
    → (bad ≡ false) × (rest ≡ ok v)
passes true e rest v h = cc h
passes false e rest v h = (refl, h)

pub fail_if_ok {ℓ} :
    {E : Type ℓ} (bad : Bool) (e : E)
    → ◌≡◌ {A = Result E (Unit {0})} (fail_if bad e) (ok tt)
    → bad ≡ false
fail_if_ok true e h = cc h
fail_if_ok false e h = refl
