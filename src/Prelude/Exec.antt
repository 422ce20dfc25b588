-- ===== src/Prelude/Exec.antt =====
-- Methods that change a state and may fail: what they changed before an error stays changed.
use mathlib.Core.Path.{◌≡◌, refl, subst}
use mathlib.Core.Bool.{Bool, true, false}
use cosmosigner.Prelude.Tests.{if◌then◌else◌}
use cosmosigner.Prelude.Results.{Result, ok, err, fail_if, ok_inj}

abbrev pub Exec {ℓ} : Type ℓ → Type ℓ → Type ℓ → Type ℓ
Exec E S A = S → Result E A × S

module _ {ℓ} {E S A : Type ℓ} where
  unfoldable pub pure : A → Exec E S A
  pure a s = (ok a, s)

  unfoldable pub raise : E → Exec E S A
  raise e s = (err e, s)

  unfoldable pub lift : Result E A → Exec E S A
  lift r s = (r, s)

  unfoldable pub gets : (S → A) → Exec E S A
  gets f s = (ok (f s), s)

module _ {ℓ} {E S A B : Type ℓ} where
  abbrev pub continue : Result E A × S → (A → Exec E S B) → Result E B × S
  continue (ok a, s) f = f a s
  continue (err e, s) f = (err e, s)

  infixl 10 ◌>>=◌ ◌>>◌
  unfoldable pub ◌>>=◌ : Exec E S A → (A → Exec E S B) → Exec E S B
  ◌>>=◌ m f s = continue (m s) f

  abbrev pub ◌>>◌ : Exec E S A → Exec E S B → Exec E S B
  m >> n = m >>= λ _. n

module _ {E S : Type 0} where
  -- An assignment to fields.
  unfoldable pub modify : (S → S) → Exec E S (Unit {0})
  modify f s = (ok tt, f s)

  -- `if bad(s) { return err }`
  unfoldable pub check : (S → Bool) → E → Exec E S (Unit {0})
  check bad e s = (fail_if (bad s) e, s)

  unfoldable pub skip : Exec E S (Unit {0})
  skip s = (ok tt, s)

-- What holds where a method has returned: `Q` with its value, `R` with an error.
module _ {E S : Type 0} where
  abbrev pub Lands : {A : Type 0} → (A → S → Type 0) → (S → Type 0) → Result E A × S → Type 0
  Lands Q R (ok a, s) = Q a s
  Lands Q R (err e, s) = R s

  -- From a state with `P` the method ends where `Q` or, with an error, `R` holds.
  pub record Leads {A : Type 0} (P : S → Type 0) (m : Exec E S A) (Q : A → S → Type 0)
      (R : S → Type 0) : Type 0 where
    pub at : (s : S) → P s → Lands Q R (m s)

  module _ {A B : Type 0} where
    continue-leads :
        (Q : A → S → Type 0) (Q' : B → S → Type 0) (R : S → Type 0) (x : Result E A × S)
        {f : A → Exec E S B}
        → Lands Q R x
        → ((a : A) → Leads (Q a) (f a) Q' R)
        → Lands Q' R (continue x f)
    continue-leads Q Q' R (ok a, s) h k = (k a).at s h
    continue-leads Q Q' R (err e, s) h k = h

    pub bind-leads :
        {P : S → Type 0} {Q : A → S → Type 0} {Q' : B → S → Type 0} {R : S → Type 0}
        {m : Exec E S A} {f : A → Exec E S B}
        → Leads P m Q R
        → ((a : A) → Leads (Q a) (f a) Q' R)
        → Leads P (m >>= f) Q' R
    unfolding ◌>>=◌
    bind-leads {Q = Q} {Q' = Q'} {R = R} h k = record {
      at = λ s p. continue-leads Q Q' R _ (h.at s p) k;
    }

  -- What a method that returned a value has left.
  pub landed_ok :
      {A : Type 0} (Q : A → S → Type 0) (R : S → Type 0) (x : Result E A × S) (a : A)
      → Lands Q R x
      → x.0 ≡ ok a
      → Q a x.1
  landed_ok Q R (ok b, s) a q h = subst (λ c. Q c s) (ok_inj h) q
  landed_ok Q R (err e, s) a q h = cc h

  -- Of any method, where nothing is asked.
  pub any-leads :
      {A : Type 0} {P : S → Type 0} (m : Exec E S A) → Leads P m (λ a s. Unit) (λ s. Unit)
  any-leads {A = A} m = record { at = λ s p. landed (m s) }
    where
      landed : (x : Result E A × S) → Lands {A = A} (λ a s. Unit {0}) (λ s. Unit {0}) x
      landed (ok a, s) = tt
      landed (err e, s) = tt

  module _ {A : Type 0} {P : S → Type 0} {Q : A → S → Type 0} {R : S → Type 0} where
    pub if-leads :
        (b : Bool) {m n : Exec E S A}
        → Leads P m Q R
        → Leads P n Q R
        → Leads P (if b then m else n) Q R
    if-leads true h k = h
    if-leads false h k = k

    -- The branches know what was tested.
    pub if_eq-leads :
        (b : Bool) {m n : Exec E S A}
        → (b ≡ true → Leads P m Q R)
        → (b ≡ false → Leads P n Q R)
        → Leads P (if b then m else n) Q R
    if_eq-leads true h k = h refl
    if_eq-leads false h k = k refl

    lifted :
        (r : Result E A)
        → ((a : A) (s : S) → P s → Q a s)
        → ((s : S) → P s → R s)
        → (s : S) → P s
        → Lands Q R (r, s)
    lifted (ok a) h k = h a
    lifted (err e) h k = k

    lifted_eq :
        (r : Result E A)
        → ((a : A) → r ≡ ok a → (s : S) → P s → Q a s)
        → ((s : S) → P s → R s)
        → (s : S) → P s
        → Lands Q R (r, s)
    lifted_eq (ok a) h k = h a refl
    lifted_eq (err e) h k = k

    -- A value that is returned is the computed one.
    pub lift_eq-leads :
        (r : Result E A)
        → ((a : A) → r ≡ ok a → (s : S) → P s → Q a s)
        → ((s : S) → P s → R s)
        → Leads P (lift r) Q R
    unfolding lift
    lift_eq-leads r h k = record { at = lifted_eq r h k }

    pub lift-leads :
        (r : Result E A)
        → ((a : A) (s : S) → P s → Q a s)
        → ((s : S) → P s → R s)
        → Leads P (lift r) Q R
    unfolding lift
    lift-leads r h k = record { at = lifted r h k }

    pub weaken-leads :
        (Q' : A → S → Type 0) {m : Exec E S A}
        → ((a : A) (s : S) → Q' a s → Q a s)
        → Leads P m Q' R
        → Leads P m Q R
    weaken-leads Q' {m = m} h l = record { at = λ s p. landed (m s) (l.at s p) }
      where
        landed : (x : Result E A × S) → Lands Q' R x → Lands Q R x
        landed (ok a, s) q = h a s q
        landed (err e, s) r = r

    pub pure-leads : (a : A) → ((s : S) → P s → Q a s) → Leads P (pure a) Q R
    unfolding pure
    pure-leads a h = record { at = h }

    pub raise-leads : (e : E) → ((s : S) → P s → R s) → Leads P (raise e) Q R
    unfolding raise
    raise-leads e h = record { at = h }

    pub gets-leads : (f : S → A) → ((s : S) → P s → Q (f s) s) → Leads P (gets f) Q R
    unfolding gets
    gets-leads f h = record { at = h }

  checked :
      (Q : Unit {0} → S → Type 0) (R : S → Type 0) (b : Bool) (e : E) (s : S)
      → (b ≡ false → Q tt s)
      → R s
      → Lands Q R (fail_if b e, s)
  checked Q R true e s h k = k
  checked Q R false e s h k = h refl

  module _ {P : S → Type 0} {Q : Unit {0} → S → Type 0} {R : S → Type 0} where
    pub check-leads :
        (bad : S → Bool) (e : E)
        → ((s : S) → P s → bad s ≡ false → Q tt s)
        → ((s : S) → P s → R s)
        → Leads P (check bad e) Q R
    unfolding check
    check-leads bad e h k = record { at = λ s p. checked Q R (bad s) e s (h s p) (k s p) }

    pub modify-leads : (f : S → S) → ((s : S) → P s → Q tt (f s)) → Leads P (modify f) Q R
    unfolding modify
    modify-leads f h = record { at = h }

    pub skip-leads : ((s : S) → P s → Q tt s) → Leads P skip Q R
    unfolding skip
    skip-leads h = record { at = h }
