-- ===== src/Backend/Token/Serving.antt =====
-- internal/backend/pkcs11.go: newPKCS11, Sign, VerifyCanSign, what ClaimCluster checks and Close, and
-- the calls of a backend in the order in which its lock admits them.
use cosmosigner.Prelude.{
  Bytes, bytes_eq, codes, Bool, true, false, not, ◌&&◌, ◌==◌, List, [], ◌∷◌, length, Result, ok,
  err, if◌then◌else◌,
}
use cosmosigner.Prelude.Exec.{pure, raise, lift, gets, modify, check, skip, ◌>>=◌, ◌>>◌}
use cosmosigner.Backend.{Pkcs11Config}
use cosmosigner.Backend.Addressing.{AddressError, validate_pkcs11}
use cosmosigner.Backend.Token.{
  Fault, has_code, Device, Pkcs11, TokenError, bad_config, pin_latched, sign_failed, bad_signature,
  key_changed, not_deterministic, is_closed, cancelled, close_failed, binding_corrupt, M, call,
  drop_session, keys, reopen,
}

-- Where ctx.Err is asked: at the start, between two calls and at the end.
pub record Cancellation : Type 0 where
  pub at_start : Bool
  pub between : Bool
  pub at_end : Bool

abbrev pub probe : Bytes
probe = codes "cosmosigner/pkcs11 preflight - not a consensus message"

abbrev pub config_checked : Result AddressError (Unit {0}) → Result TokenError (Unit {0})
config_checked (ok u) = ok u
config_checked (err e) = err (bad_config e)

-- The errors of two clean-ups, joined.
abbrev pub join : Result Fault (Unit {0}) → Result Fault (Unit {0}) → Result TokenError (Unit {0})
join (ok u) (ok v) = ok tt
join _ _ = err close_failed

abbrev pub is_pin_failure : TokenError → Bool
is_pin_failure pin_latched = true
is_pin_failure e = false

abbrev pub as_corrupt :
    {W A : Type 0}
    → (TokenError → Bool)
    → Result TokenError A × Pkcs11 W
    → Result TokenError A × Pkcs11 W
as_corrupt passes (ok a, s) = (ok a, s)
as_corrupt passes (err e, s) = (err (if passes e then e else binding_corrupt e), s)

unfoldable pub or_corrupt : {W A : Type 0} → (TokenError → Bool) → M W A → M W A
or_corrupt passes m s = as_corrupt passes (m s)

abbrev pub nothing_open : {W : Type 0} → W → Pkcs11 W
nothing_open w = record {
  session = 0;
  session_open = false;
  private = 0;
  pub_key = [];
  pin_failure = false;
  closed = false;
  device = w;
}

-- A call that a backend is given.
pub data Op : Type 0 where
  signs : Bytes → Op
  verifies checks_claim : Cancellation → Op
  closes : Op

-- `verify` is PubKey.VerifySignature of a key, a message and a signature.
module _ {W : Type 0} (d : Device W) (cfg : Pkcs11Config)
    (verify : Bytes → Bytes → Bytes → Bool) where
  unfoldable pub call_sign : Bytes → M W (Result Fault Bytes)
  call_sign msg = gets (λ s. s.session) >>= λ session.
      gets (λ s. s.private) >>= λ private. call (d.sign session private msg)

  unfoldable pub ensure_open : M W (Unit {0})
  ensure_open = gets (λ s. s.session_open) >>= λ is_open. if is_open then skip else reopen d cfg

  abbrev pub drop_failed : Result Fault Bytes → M W (Result Fault Bytes)
  drop_failed (ok sig) = pure (ok sig)
  drop_failed (err f) = drop_session d cfg >> pure (err f)

  -- A session that was lost is opened again, once.
  abbrev pub retry : Bytes → Result Fault Bytes → M W (Result Fault Bytes)
  retry msg (ok sig) = pure (ok sig)
  retry msg (err f) =
      if has_code (176 ∷ 179 ∷ 50 ∷ 224 ∷ 257 ∷ []) f
      then reopen d cfg >> call_sign msg >>= drop_failed
      else pure (err f)

  abbrev pub settle : Bytes → Result Fault Bytes → M W Bytes
  settle msg (err f) = drop_session d cfg >> raise sign_failed
  settle msg (ok sig) =
      check (λ s. not (length sig == 64 && verify s.pub_key msg sig)) bad_signature >> pure sig

  -- sign, which Sign calls under the lock
  unfoldable pub sign : Bytes → M W Bytes
  sign msg =
      check (λ s. s.closed) is_closed
      >> check (λ s. s.pin_failure) pin_latched
      >> ensure_open
      >> call_sign msg
      >>= retry msg
      >>= settle msg

  unfoldable pub verify_can_sign : Cancellation → M W (Unit {0})
  verify_can_sign c = check (λ s. c.at_start) cancelled >> sign probe >>= λ first.
      check (λ s. c.between) cancelled >> sign probe >>= λ second.
      check (λ s. not (bytes_eq first second)) not_deterministic >> check (λ s. c.at_end) cancelled

  -- The check that ClaimCluster makes before it writes the binding.
  unfoldable pub check_claim : Cancellation → M W (Unit {0})
  check_claim c =
      check (λ s. s.closed) is_closed
      >> check (λ s. s.pin_failure) pin_latched
      >> or_corrupt is_pin_failure ensure_open
      >> or_corrupt (λ e. false) (keys d cfg)
      >>= λ k.
          check (λ s. not (bytes_eq s.pub_key k.1)) (binding_corrupt key_changed)
          >> check (λ s. c.at_end) cancelled

  unfoldable pub close_open : M W (Result Fault (Unit {0}))
  close_open = gets (λ s. s.session_open) >>= λ is_open.
      if is_open
      then (gets (λ s. s.session) >>= λ session. call (d.close_session session) >>= λ r.
          modify (λ s. record s { session_open = false }) >> pure r)
      else pure (ok tt)

  unfoldable pub close : M W (Unit {0})
  close = gets (λ s. s.closed) >>= λ closed.
      if closed
      then skip
      else (modify (λ s. record s { closed = true }) >> close_open >>= λ e.
          call d.release >>= λ r. lift (join e r))

  abbrev pub close_after :
      Result TokenError (Unit {0}) × Pkcs11 W → Result TokenError (Unit {0}) × Pkcs11 W
  close_after (ok u, s) = (ok u, s)
  close_after (err e, s) = (err e, (close s).1)

  -- newPKCS11; `path` is what resolveBindingPath answers.
  unfoldable pub new_pkcs11 :
      Result TokenError (Unit {0}) → W → Result TokenError (Unit {0}) × Pkcs11 W
  new_pkcs11 path w =
      close_after (
        (lift (config_checked (validate_pkcs11 cfg)) >> lift path >> reopen d cfg) (nothing_open w))

  unfoldable pub perform : Op → Pkcs11 W → Pkcs11 W
  perform (signs msg) s = (sign msg s).1
  perform (verifies c) s = (verify_can_sign c s).1
  perform (checks_claim c) s = (check_claim c s).1
  perform closes s = (close s).1

  unfoldable pub run : List Op → Pkcs11 W → Pkcs11 W
  run [] s = s
  run (op ∷ ops) s = run ops (perform op s)
