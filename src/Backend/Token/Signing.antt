-- ===== src/Backend/Token/Signing.antt =====
-- internal/backend/pkcs11.go: the signatures that a PKCS#11 backend returns, over its whole life.
use cosmosigner.Prelude.{
  ◌≡◌, refl, sym, ◌∙◌, subst, ◌⊎◌, inl, inr, Bytes, is_empty, Bool, true, false, true≢false, not,
  ◌&&◌, ◌==◌, List, [], ◌∷◌, length, Result, ok, err, if◌then◌else◌, ==_iff,
}
use cosmosigner.Prelude.Exec.{
  Lands, Leads, bind-leads, check-leads, pure-leads, raise-leads, modify-leads, any-leads,
  landed_ok,
}
use cosmosigner.Backend.{Pkcs11Config}
use cosmosigner.Backend.Token.{
  Fault, Device, Pkcs11, TokenError, raw_point, or_drop, drop_after, keys, same_keys, reopen,
}
use cosmosigner.Backend.Token.Sessions.{Tally, counted, serving, Inv, check-Keeps}
use cosmosigner.Backend.Token.Reopening.{drop_session-Keeps}
use cosmosigner.Backend.Token.Serving.{settle, sign, close_after, nothing_open, new_pkcs11, Op, run}
use cosmosigner.Backend.Token.Calls.{
  call_sign-Keeps, ensure_open-Keeps, retry-Keeps, run-Inv, new-Inv, started,
}

abbrev Anything : {W : Type 0} → Pkcs11 W → Type 0
Anything s = Unit

abbrev IsKeyed : {W A : Type 0} → A × Bytes → Pkcs11 W → Type 0
IsKeyed k s = is_empty k.1 ≡ false

nonempty : (b : Bytes) → not (length b == 32) ≡ false → is_empty b ≡ false
nonempty [] h = cc h
nonempty (c ∷ b) h = refl

module _ {W : Type 0} (d : Device W) (cfg : Pkcs11Config) where
  keys-IsKeyed : Leads Anything (keys d cfg) IsKeyed Anything
  unfolding keys
  keys-IsKeyed = bind-leads (any-leads _) λ p. bind-leads (any-leads _) λ q.
      bind-leads {Q = λ u s. is_empty (raw_point q.1.point) ≡ false}
        (check-leads _ _ (λ s p h. nonempty (raw_point q.1.point) h) (λ s p. tt))
        λ u. pure-leads _ λ s h. h

  same_keys-IsKeyed : Leads Anything (same_keys d cfg) IsKeyed Anything
  unfolding same_keys
  same_keys-IsKeyed =
      bind-leads keys-IsKeyed
        λ k. bind-leads (check-leads _ _ (λ s h b. h) (λ s h. tt)) λ u. pure-leads k λ s h. h

  dropped-IsKeyed :
      {A : Type 0} (x : Result TokenError (A × Bytes) × Pkcs11 W)
      → Lands IsKeyed Anything x
      → Lands IsKeyed Anything (drop_after d cfg x)
  dropped-IsKeyed (ok k, s) h = h
  dropped-IsKeyed (err e, s) h =
      (bind-leads {P = Anything} (any-leads _) λ u. raise-leads e λ s h. tt).at s tt

  adopted :
      (new known : Bytes)
      → is_empty new ≡ false
      → is_empty (if is_empty known then new else known) ≡ false
  adopted new [] h = h
  adopted new (c ∷ known) h = refl

  reopen-keyed : Leads Anything (reopen d cfg) (λ u s. is_empty s.pub_key ≡ false) Anything
  unfolding reopen or_drop
  reopen-keyed = bind-leads (any-leads _) λ slot. bind-leads (any-leads _) λ pin.
      bind-leads
        (bind-leads (any-leads _) λ u. record {
          at = λ s p. dropped-IsKeyed (same_keys d cfg s) (same_keys-IsKeyed.at s tt);
        })
        λ k. modify-leads _ λ s h. adopted k.1 s.pub_key h

  module _ (verify : Bytes → Bytes → Bytes → Bool) where
    after_close :
        (Q : Pkcs11 W → Type 0) (x : Result TokenError (Unit {0}) × Pkcs11 W)
        → Lands (λ u. Q) Anything x
        → (close_after d cfg verify x).0 ≡ ok tt
        → Q (close_after d cfg verify x).1
    after_close Q (ok u, s) q h = q
    after_close Q (err e, s) q h = cc h

    new-keyed :
        (path : Result TokenError (Unit {0})) (w : W)
        → (new_pkcs11 d cfg verify path w).0 ≡ ok tt
        → is_empty (new_pkcs11 d cfg verify path w).1.pub_key ≡ false
    unfolding new_pkcs11
    new-keyed path w h =
        after_close (λ s. is_empty s.pub_key ≡ false) _
          ((bind-leads {P = Anything} (any-leads _) λ u. reopen-keyed).at (nothing_open w) tt) h

both : (a b : Bool) → not (a && b) ≡ false → (a ≡ true) × (b ≡ true)
both true true h = (refl, refl)
both true false h = cc h
both false b h = cc h

module _ {W : Type 0} (d : Device W) (cfg : Pkcs11Config)
    (verify : Bytes → Bytes → Bytes → Bool) where
  accepted :
      (key msg sig known : Bytes)
      → is_empty key ≡ false
      → (is_empty key ≡ true) ⊎ (known ≡ key)
      → not (length sig == 64 && verify known msg sig) ≡ false
      → (length sig ≡ 64) × (verify key msg sig ≡ true)
  accepted key msg sig known some_key (inl nil) h = absurd (true≢false (sym nil ∙ some_key))
  accepted key msg sig known some_key (inr e) h =
      let (size, good) = both (length sig == 64) (verify known msg sig) h in
      ((==_iff (length sig) 64).0 size, subst (λ k. verify k msg sig ≡ true) e good)

  abbrev Verifies : Bytes → Bytes → Bytes → Pkcs11 (W × Tally) → Type 0
  Verifies key msg sig s = (length sig ≡ 64) × (verify key msg sig ≡ true)

  settle-Verifies :
      (key msg : Bytes)
      → is_empty key ≡ false
      → (r : Result Fault Bytes)
      → Leads
          (Inv key serving)
          (settle (counted d) cfg verify msg r)
          (Verifies key msg)
          (Inv key serving)
  settle-Verifies key msg some_key (ok sig) =
      bind-leads {Q = λ u. Verifies key msg sig}
        (check-leads _ _ (λ s v h. accepted key msg sig s.pub_key some_key v.keeps h) (λ s v. v))
        λ u. pure-leads sig λ s h. h
  settle-Verifies key msg some_key (err f) =
      bind-leads (drop_session-Keeps d cfg) λ u. raise-leads _ λ s v. v

  sign-Verifies :
      (key msg : Bytes)
      → is_empty key ≡ false
      → Leads
          (Inv key serving)
          (sign (counted d) cfg verify msg)
          (Verifies key msg)
          (Inv key serving)
  unfolding sign
  sign-Verifies key msg some_key =
      bind-leads
        (bind-leads
          (bind-leads
            (bind-leads (bind-leads (check-Keeps _ _) λ u. check-Keeps _ _)
              λ u. ensure_open-Keeps d cfg verify)
            λ u. call_sign-Keeps d cfg verify msg)
          (retry-Keeps d cfg verify msg))
        (settle-Verifies key msg some_key)

  from_start : (key : Bytes) (s : Pkcs11 (W × Tally)) → Inv key serving s → Inv s.pub_key serving s
  from_start key s v = record {
    refusals = v.refusals;
    balance = v.balance;
    keeps = inr refl;
    calmly = inl refl;
    shutly = inl refl;
  }

  -- Once a PKCS#11 backend has been constructed, every signature that it returns, after any calls and any
  -- recoveries of its session, has 64 bytes and verifies the message under the public key that the
  -- construction found.
  pub signs_with_first_key :
      (path : Result TokenError (Unit {0})) (w : W) (ops : List Op) (msg sig : Bytes)
      → (started d cfg verify path w).0 ≡ ok tt
      → (sign
          (counted d)
          cfg
          verify
          msg
          (run (counted d) cfg verify ops (started d cfg verify path w).1)).0
        ≡ ok sig
      → (length sig ≡ 64) × (verify (started d cfg verify path w).1.pub_key msg sig ≡ true)
  signs_with_first_key path w ops msg sig made answered =
      landed_ok (Verifies key msg) (Inv key serving) _ sig ((sign-Verifies key msg keyed).at _ v)
        answered
    where
      key : Bytes
      key = (started d cfg verify path w).1.pub_key

      keyed : is_empty key ≡ false
      keyed = new-keyed (counted d) cfg verify path _ made

      v : Inv key serving (run (counted d) cfg verify ops (started d cfg verify path w).1)
      v =
          run-Inv d cfg verify key ops (started d cfg verify path w).1
            (from_start [] (started d cfg verify path w).1 (new-Inv d cfg verify path w))
