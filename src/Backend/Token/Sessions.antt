-- ===== src/Backend/Token/Sessions.antt =====
-- internal/backend/pkcs11.go: what every call of a PKCS#11 backend keeps. A `counted` device notes the
-- PINs that were refused and the sessions that were opened and closed.
use cosmosigner.Prelude.{
  ℕ, suc, ◌+◌, ◌≡◌, refl, ◌⊎◌, inl, Bytes, is_empty, Bool, true, false, [], ◌∷◌, Result, ok, err,
}
use cosmosigner.Prelude.Exec.{
  pure, raise, lift, gets, check, skip, ◌>>=◌, Lands, Leads, bind-leads, lift-leads, check-leads,
  pure-leads, raise-leads, gets-leads, skip-leads,
}
use cosmosigner.Backend.Token.{
  Fault, has_code, Call, Device, Pkcs11, TokenError, M, answered, call, ask,
}

pub record Tally : Type 0 where
  pub refused : ℕ
  pub opened : ℕ
  pub closed_again : ℕ

abbrev pub bit : Bool → ℕ
bit true = 1
bit false = 0

-- A wrong PIN or a locked one, as Cryptoki answers.
abbrev pub refusal : Result Fault (Unit {0}) → ℕ
refusal (ok u) = 0
refusal (err f) = bit (has_code (160 ∷ 164 ∷ []) f)

abbrev pub success : {A : Type 0} → Result Fault A → ℕ
success (ok a) = 1
success (err f) = 0

module _ {W : Type 0} where
  abbrev pub tallied :
      {A : Type 0}
      → (Result Fault A → Tally → Tally)
      → Result Fault A × W
      → Tally
      → Result Fault A × (W × Tally)
  tallied f (r, w) t = (r, (w, f r t))

  abbrev pub noted : {A : Type 0} → (Result Fault A → Tally → Tally) → Call W A → Call (W × Tally) A
  noted f c p = tallied f (c p.0) p.1

  abbrev pub plain : {A : Type 0} → Call W A → Call (W × Tally) A
  plain c = noted (λ r t. t) c

  -- The device, with a tally of what it is asked.
  abbrev pub counted : Device W → Device (W × Tally)
  counted d = record {
    tokens = plain d.tokens;
    mechanisms = λ slot. plain (d.mechanisms slot);
    open_session =
        λ slot. noted (λ r t. record t { opened = t.opened + success r }) (d.open_session slot);
    close_session = λ session.
        noted (λ r t. record t { closed_again = suc t.closed_again }) (d.close_session session);
    login = λ session pin.
        noted (λ r t. record t { refused = t.refused + refusal r }) (d.login session pin);
    find = λ session is_private cfg. plain (d.find session is_private cfg);
    key = λ session object is_private. plain (d.key session object is_private);
    sign = λ session object msg. plain (d.sign session object msg);
    read_pin = plain d.read_pin;
    release = plain d.release;
  }

-- Between two calls; and inside one, once it is known that no PIN was refused, or also no session open.
pub data Phase : Type 0 where
  serving calm shut : Phase

abbrev pub is_calm : Phase → Bool
is_calm serving = false
is_calm _ = true

abbrev pub is_shut : Phase → Bool
is_shut shut = true
is_shut _ = false

-- The refused PINs and the sessions match the flags, and a known key stays.
pub record Inv {W : Type 0} (key : Bytes) (phase : Phase) (s : Pkcs11 (W × Tally)) : Type 0 where
  pub refusals : s.device.1.refused ≡ bit s.pin_failure
  pub balance : s.device.1.opened ≡ s.device.1.closed_again + bit s.session_open
  pub keeps : (is_empty key ≡ true) ⊎ (s.pub_key ≡ key)
  pub calmly : (is_calm phase ≡ false) ⊎ (s.pin_failure ≡ false)
  pub shutly : (is_shut phase ≡ false) ⊎ (s.session_open ≡ false)

-- A method that keeps all this, errors included.
abbrev pub Keeps : {W A : Type 0} → Bytes → Phase → M (W × Tally) A → Type 0
Keeps key phase m = Leads (Inv key phase) m (λ a. Inv key phase) (Inv key serving)

module _ {W : Type 0} {key : Bytes} where
  pub relaxed : (phase : Phase) (s : Pkcs11 (W × Tally)) → Inv key phase s → Inv key serving s
  relaxed phase s v = record {
    refusals = v.refusals;
    balance = v.balance;
    keeps = v.keeps;
    calmly = inl refl;
    shutly = inl refl;
  }

  answered-Inv :
      {A : Type 0} (phase : Phase) (x : Result Fault A × W) (s : Pkcs11 (W × Tally))
      → Inv key phase s
      → Lands {A = Result Fault A}
          (λ a. Inv key phase)
          (Inv key serving)
          (answered s (tallied (λ r t. t) x s.device.1))
  answered-Inv phase (r, w) s v = record {
    refusals = v.refusals;
    balance = v.balance;
    keeps = v.keeps;
    calmly = v.calmly;
    shutly = v.shutly;
  }

  module _ {A : Type 0} {phase : Phase} where
    pub call-Keeps : (c : Call W A) → Keeps key phase (call (plain c))
    unfolding call
    call-Keeps c = record { at = λ s v. answered-Inv phase (c s.device.0) s v }

    pub lift-Keeps : (r : Result TokenError A) → Keeps {W = W} key phase (lift r)
    lift-Keeps r = lift-leads r (λ a s v. v) (relaxed phase)

    pub pure-Keeps : (a : A) → Keeps {W = W} key phase (pure a)
    pure-Keeps a = pure-leads a λ s v. v

    pub raise-Keeps : (e : TokenError) → Keeps {W = W} {A = A} key phase (raise e)
    raise-Keeps e = raise-leads e (relaxed phase)

    pub gets-Keeps : (f : Pkcs11 (W × Tally) → A) → Keeps key phase (gets f)
    gets-Keeps f = gets-leads f λ s v. v

    pub ask-Keeps : (c : Call W A) (e : TokenError) → Keeps key phase (ask (plain c) e)
    unfolding ask
    ask-Keeps c e = bind-leads (call-Keeps c) λ r. lift-leads _ (λ a s v. v) (relaxed phase)

  pub check-Keeps :
      {phase : Phase} (bad : Pkcs11 (W × Tally) → Bool) (e : TokenError)
      → Keeps key phase (check bad e)
  check-Keeps {phase = phase} bad e = check-leads bad e (λ s v h. v) (relaxed phase)

  pub skip-Keeps : {phase : Phase} → Keeps {W = W} key phase skip
  skip-Keeps = skip-leads λ s v. v

pub bind-Keeps :
    {W A B : Type 0} {key : Bytes} {phase : Phase} {m : M (W × Tally) A} {f : A → M (W × Tally) B}
    → Keeps key phase m
    → ((a : A) → Keeps key phase (f a))
    → Keeps key phase (m >>= f)
bind-Keeps h k = bind-leads h k

pub ruleset keeping = (
  bind-Keeps, call-Keeps, ask-Keeps, lift-Keeps, pure-Keeps, raise-Keeps, gets-Keeps, check-Keeps,
  skip-Keeps,
)
