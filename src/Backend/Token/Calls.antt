-- ===== src/Backend/Token/Calls.antt =====
-- internal/backend/pkcs11.go: what holds of a PKCS#11 backend after any calls.
use cosmosigner.Prelude.{
  suc, ◌+◌, ◌≤◌, ◌≡◌, refl, sym, subst, inl, Bytes, Bool, true, false, List, [], ◌∷◌, Result, ok,
  err, if◌then◌else◌, arith,
}
use cosmosigner.Prelude.Exec.{
  pure, gets, modify, continue, ◌>>=◌, ◌>>◌, Lands, Leads, bind-leads, if-leads, pure-leads,
  gets-leads, modify-leads,
}
use cosmosigner.Backend.{Pkcs11Config}
use cosmosigner.Backend.Token.{Fault, Device, Pkcs11, TokenError, M, answered, call}
use cosmosigner.Backend.Token.Sessions.{
  Tally, bit, tallied, counted, serving, Inv, Keeps, keeping, call-Keeps, lift-Keeps, pure-Keeps,
  raise-Keeps, gets-Keeps, check-Keeps, skip-Keeps,
}
use cosmosigner.Backend.Token.Reopening.{
  drop_session-Keeps, keys-Keeps, reopen-Keeps, closed_again-Inv,
}
use cosmosigner.Backend.Token.Serving.{
  Cancellation, call_sign, ensure_open, drop_failed, retry, settle, sign, verify_can_sign,
  as_corrupt, or_corrupt, check_claim, close_open, close, close_after, nothing_open, new_pkcs11, Op,
  signs, verifies, checks_claim, closes, perform, run,
}

or_corrupt-Keeps :
    {W A : Type 0} {key : Bytes} (passes : TokenError → Bool) (m : M (W × Tally) A)
    → Keeps key serving m
    → Keeps key serving (or_corrupt passes m)
unfolding or_corrupt
or_corrupt-Keeps {W = W} {A = A} {key = key} passes m h = record {
  at = λ s v. marked (m s) (h.at s v);
}
  where
    marked :
        (x : Result TokenError A × Pkcs11 (W × Tally))
        → Lands (λ a. Inv key serving) (Inv key serving) x
        → Lands (λ a. Inv key serving) (Inv key serving) (as_corrupt passes x)
    marked (ok a, s) v = v
    marked (err e, s) v = v

module _ {W : Type 0} {key : Bytes} (d : Device W) (cfg : Pkcs11Config)
    (verify : Bytes → Bytes → Bytes → Bool) where
  pub call_sign-Keeps : (msg : Bytes) → Keeps key serving (call_sign (counted d) cfg verify msg)
  unfolding call_sign
  call_sign-Keeps msg = search keeping

  pub ensure_open-Keeps : Keeps key serving (ensure_open (counted d) cfg verify)
  unfolding ensure_open
  ensure_open-Keeps =
      bind-leads (gets-Keeps _) λ is_open. if-leads is_open skip-Keeps (reopen-Keeps d cfg)

  drop_failed-Keeps :
      (r : Result Fault Bytes) → Keeps key serving (drop_failed (counted d) cfg verify r)
  drop_failed-Keeps (ok sig) = pure-Keeps _
  drop_failed-Keeps (err f) = bind-leads (drop_session-Keeps d cfg) λ u. pure-Keeps _

  pub retry-Keeps :
      (msg : Bytes) (r : Result Fault Bytes)
      → Keeps key serving (retry (counted d) cfg verify msg r)
  retry-Keeps msg (ok sig) = pure-Keeps _
  retry-Keeps msg (err f) =
      if-leads _
        (bind-leads (bind-leads (reopen-Keeps d cfg) λ u. call_sign-Keeps msg) drop_failed-Keeps)
        (pure-Keeps _)

  settle-Keeps :
      (msg : Bytes) (r : Result Fault Bytes)
      → Keeps key serving (settle (counted d) cfg verify msg r)
  settle-Keeps msg (ok sig) = bind-leads (check-Keeps _ _) λ u. pure-Keeps _
  settle-Keeps msg (err f) = bind-leads (drop_session-Keeps d cfg) λ u. raise-Keeps _

  sign-Keeps : (msg : Bytes) → Keeps key serving (sign (counted d) cfg verify msg)
  unfolding sign
  sign-Keeps msg =
      search (keeping, ensure_open-Keeps, call_sign-Keeps, retry-Keeps, settle-Keeps) depth 9

  verify_can_sign-Keeps :
      (c : Cancellation) → Keeps key serving (verify_can_sign (counted d) cfg verify c)
  unfolding verify_can_sign
  verify_can_sign-Keeps c = search (keeping, sign-Keeps) depth 9

  check_claim-Keeps : (c : Cancellation) → Keeps key serving (check_claim (counted d) cfg verify c)
  unfolding check_claim
  check_claim-Keeps c = search (keeping, or_corrupt-Keeps, ensure_open-Keeps, keys-Keeps) depth 9

  closing :
      (x : Result Fault (Unit {0}) × W) (s : Pkcs11 (W × Tally))
      → s.session_open ≡ true
      → Inv key serving s
      → Lands {E = TokenError} {A = Result Fault (Unit {0})}
          (λ a. Inv key serving)
          (Inv key serving)
          (continue
            (answered s
              (tallied (λ r t. record t { closed_again = suc t.closed_again }) x s.device.1))
            (λ r. modify (λ s. record s { session_open = false }) >> pure r))
  unfolding modify pure ◌>>=◌
  closing (r, w) s was v = closed_again-Inv key serving (r, w) s was v

  close_if-Keeps :
      (is_open : Bool)
      → Leads {E = TokenError}
          (λ (s : Pkcs11 (W × Tally)). Inv key serving s × (s.session_open ≡ is_open))
          (if is_open
            then (gets (λ s. s.session) >>= λ session.
                call ((counted d).close_session session) >>= λ r.
                modify (λ s. record s { session_open = false }) >> pure r)
            else pure (ok tt))
          (λ a. Inv key serving)
          (Inv key serving)
  unfolding ◌>>=◌ gets call
  close_if-Keeps true = record {
    at = λ s p. closing (d.close_session s.session s.device.0) s p.1 p.0;
  }
  close_if-Keeps false = pure-leads _ λ s p. p.0

  close_open-Keeps : Keeps key serving (close_open (counted d) cfg verify)
  unfolding close_open
  close_open-Keeps = bind-leads (gets-leads (λ s. s.session_open) λ s v. (v, refl)) close_if-Keeps

  closed-Keeps :
      Keeps key serving
        (modify {E = TokenError} (λ (s : Pkcs11 (W × Tally)). record s { closed = true }))
  closed-Keeps = modify-leads _ λ s v. record {
    refusals = v.refusals;
    balance = v.balance;
    keeps = v.keeps;
    calmly = v.calmly;
    shutly = v.shutly;
  }

  close-Keeps : Keeps key serving (close (counted d) cfg verify)
  unfolding close
  close-Keeps = bind-leads (gets-Keeps _) λ closed. if-leads closed skip-Keeps (
      bind-leads (bind-leads closed-Keeps λ u. close_open-Keeps)
        λ e. bind-leads (call-Keeps d.release) λ r. lift-Keeps _)

-- A `Keeps` method leaves the state well, whatever it answers.
left :
    {W A : Type 0} (key : Bytes) (x : Result TokenError A × Pkcs11 (W × Tally))
    → Lands (λ a. Inv key serving) (Inv key serving) x
    → Inv key serving x.1
left key (ok a, s) v = v
left key (err e, s) v = v

abbrev pub no_tally : Tally
no_tally = record { refused = 0; opened = 0; closed_again = 0 }

module _ {W : Type 0} (d : Device W) (cfg : Pkcs11Config)
    (verify : Bytes → Bytes → Bytes → Bool) where
  perform-Inv :
      (key : Bytes) (op : Op) (s : Pkcs11 (W × Tally))
      → Inv key serving s
      → Inv key serving (perform (counted d) cfg verify op s)
  unfolding perform
  perform-Inv key (signs msg) s v = left key _ ((sign-Keeps d cfg verify msg).at s v)
  perform-Inv key (verifies c) s v = left key _ ((verify_can_sign-Keeps d cfg verify c).at s v)
  perform-Inv key (checks_claim c) s v = left key _ ((check_claim-Keeps d cfg verify c).at s v)
  perform-Inv key closes s v = left key _ ((close-Keeps d cfg verify).at s v)

  pub run-Inv :
      (key : Bytes) (ops : List Op) (s : Pkcs11 (W × Tally))
      → Inv key serving s
      → Inv key serving (run (counted d) cfg verify ops s)
  unfolding run
  run-Inv key [] s v = v
  run-Inv key (op ∷ ops) s v =
      run-Inv key ops (perform (counted d) cfg verify op s) (perform-Inv key op s v)

  close_after-Inv :
      (x : Result TokenError (Unit {0}) × Pkcs11 (W × Tally))
      → Lands (λ a. Inv [] serving) (Inv [] serving) x
      → Inv [] serving (close_after (counted d) cfg verify x).1
  close_after-Inv (ok u, s) v = v
  close_after-Inv (err e, s) v = left [] _ ((close-Keeps d cfg verify).at s v)

  -- The backend that newPKCS11 makes over a device whose state is `w`.
  abbrev pub started :
      Result TokenError (Unit {0}) → W → Result TokenError (Unit {0}) × Pkcs11 (W × Tally)
  started path w = new_pkcs11 (counted d) cfg verify path (w, no_tally)

  pub new-Inv : (path : Result TokenError (Unit {0})) (w : W) → Inv [] serving (started path w).1
  unfolding new_pkcs11
  new-Inv path w = close_after-Inv _ (
      (bind-leads (bind-leads (lift-Keeps _) λ u. lift-Keeps path) λ u. reopen-Keeps d cfg).at
        (nothing_open (w, no_tally))
        (record {
          refusals = refl;
          balance = refl;
          keeps = inl refl;
          calmly = inl refl;
          shutly = inl refl;
        }))

  bit-le : (b : Bool) → bit b ≤ 1
  bit-le true = omega arith
  bit-le false = omega arith

  -- From its construction on, and whatever calls it gets, a PKCS#11 backend makes the token refuse a PIN
  -- at most once; it has opened one session more than it has closed where its session is open, and as
  -- many where it is not.
  pub one_refused_pin :
      (path : Result TokenError (Unit {0})) (w : W) (ops : List Op)
      → ((run (counted d) cfg verify ops (started path w).1).device.1.refused ≤ 1)
        × ((run (counted d) cfg verify ops (started path w).1).device.1.opened
            ≡ (run (counted d) cfg verify ops (started path w).1).device.1.closed_again
              + bit (run (counted d) cfg verify ops (started path w).1).session_open)
  one_refused_pin path w ops =
      (subst (λ n. n ≤ 1) (sym v.refusals) (bit-le s.pin_failure), v.balance)
    where
      s : Pkcs11 (W × Tally)
      s = run (counted d) cfg verify ops (started path w).1

      v : Inv [] serving s
      v = run-Inv [] ops (started path w).1 (new-Inv path w)
