-- ===== src/Backend/Token/Reopening.antt =====
-- internal/backend/pkcs11.go: a session that is dropped and one that is opened keep the tally.
use cosmosigner.Prelude.{
  ℕ, suc, ◌+◌, ◌≡◌, refl, ap, ◌∙◌, ◌⊎◌, inl, inr, Bytes, is_empty, Bool, true, false, none, some,
  [], ◌∷◌, Result, ok, err, if◌then◌else◌, arith,
}
use cosmosigner.Prelude.Exec.{
  raise, lift, gets, modify, check, skip, continue, ◌>>=◌, ◌>>◌, Lands, Leads, bind-leads,
  check-leads, raise-leads, gets-leads, modify-leads, skip-leads, weaken-leads,
}
use cosmosigner.Backend.{Pkcs11Config}
use cosmosigner.Backend.Token.{
  Fault, has_code, Device, Pkcs11, TokenError, pin_latched, login_failed, open_failed, M, answered,
  call, as_error, ask, drop_session, drop_after, or_drop, find_key, keys, logged_in, log_in,
  same_keys, adopt, begin_session, pin_text, find_slot, reopen,
}
use cosmosigner.Backend.Token.Sessions.{
  Tally, bit, refusal, success, tallied, counted, Phase, serving, calm, shut, Inv, Keeps, relaxed,
  keeping,
}

the_other : {P : Type 0} → (true ≡ false) ⊎ P → P
the_other (inl e) = cc e
the_other (inr p) = p

apart : (f : Fault) → has_code (256 ∷ []) f ≡ true → has_code (160 ∷ 164 ∷ []) f ≡ false
apart none h = refl
apart (some c) h = ground arith

abbrev Shuts : {W : Type 0} → Bytes → Phase → Unit {0} → Pkcs11 (W × Tally) → Type 0
Shuts key phase a s = Inv key phase s × (s.session_open ≡ false)

-- A session that is open is closed, with the value `b`.
pub closed_again-Inv :
    {W : Type 0} (key : Bytes) (phase : Phase) (x : Result Fault (Unit {0}) × W)
    (s : Pkcs11 (W × Tally))
    → s.session_open ≡ true
    → Inv key phase s
    → Inv key phase (record s {
      session_open = false;
      device = (x.1, record s.device.1 { closed_again = suc s.device.1.closed_again });
    })
closed_again-Inv key phase x s was v = record {
  refusals = v.refusals;
  balance = v.balance ∙ sum s.session_open was;
  keeps = v.keeps;
  calmly = v.calmly;
  shutly = inr refl;
}
  where
    sum : (b : Bool) → b ≡ true → s.device.1.closed_again + bit b ≡ suc s.device.1.closed_again + 0
    sum true h = omega arith
    sum false h = cc h

module _ {W : Type 0} {key : Bytes} {phase : Phase} (d : Device W) (cfg : Pkcs11Config) where
  closing :
      (x : Result Fault (Unit {0}) × W) (s : Pkcs11 (W × Tally))
      → s.session_open ≡ true
      → Inv key phase s
      → Lands {E = TokenError} (Shuts key phase) (Inv key serving) (
          continue
            (answered s
              (tallied (λ r t. record t { closed_again = suc t.closed_again }) x s.device.1))
            (λ r. modify (λ s. record s { session_open = false })))
  unfolding modify
  closing (r, w) s was v = (closed_again-Inv key phase (r, w) s was v, refl)

  close_if-Shuts :
      (is_open : Bool)
      → Leads {E = TokenError}
          (λ (s : Pkcs11 (W × Tally)). Inv key phase s × (s.session_open ≡ is_open))
          (if is_open
            then (gets (λ s. s.session) >>= λ session.
                call ((counted d).close_session session) >>= λ r.
                modify (λ s. record s { session_open = false }))
            else skip)
          (Shuts key phase)
          (Inv key serving)
  unfolding ◌>>=◌ gets call
  close_if-Shuts true = record {
    at = λ s p. closing (d.close_session s.session s.device.0) s p.1 p.0;
  }
  close_if-Shuts false = skip-leads λ s p. p

  drop_session-Shuts :
      Leads (Inv key phase) (drop_session (counted d) cfg) (Shuts key phase) (Inv key serving)
  unfolding drop_session
  drop_session-Shuts = bind-leads (gets-leads (λ s. s.session_open) λ s v. (v, refl)) λ is_open.
      bind-leads (close_if-Shuts is_open) λ a. modify-leads _ λ s (v, shut_now). (
        record {
          refusals = v.refusals;
          balance = v.balance;
          keeps = v.keeps;
          calmly = v.calmly;
          shutly = v.shutly;
        },
        shut_now,
      )

  pub drop_session-Keeps : Keeps key phase (drop_session (counted d) cfg)
  drop_session-Keeps = weaken-leads (Shuts key phase) (λ a s q. q.0) drop_session-Shuts

  find_key-Keeps : (is_private : Bool) → Keeps key phase (find_key (counted d) cfg is_private)
  unfolding find_key
  find_key-Keeps is_private = search keeping depth 9

  pub keys-Keeps : Keeps key phase (keys (counted d) cfg)
  unfolding keys
  keys-Keeps = search (keeping, find_key-Keeps)

  find_slot-Keeps : Keeps key phase (find_slot (counted d) cfg)
  unfolding find_slot
  find_slot-Keeps = search keeping

  pin_text-Keeps : Keeps key phase (pin_text (counted d) cfg)
  unfolding pin_text
  pin_text-Keeps = search keeping

  same_keys-Keeps : Keeps key phase (same_keys (counted d) cfg)
  unfolding same_keys
  same_keys-Keeps = search (keeping, keys-Keeps)

module _ {W : Type 0} (d : Device W) (cfg : Pkcs11Config) where
  dropped :
      {A : Type 0} (key : Bytes) (phase : Phase) (x : Result TokenError A × Pkcs11 (W × Tally))
      → Lands (λ a. Inv key phase) (Inv key serving) x
      → Lands (λ a. Inv key phase) (Inv key serving) (drop_after (counted d) cfg x)
  dropped key phase (ok a, s) v = v
  dropped {A = A} key phase (err e, s) v =
      (bind-leads (drop_session-Keeps d cfg) (λ u. raise-leads {A = A} e λ s w. w)).at s v

module _ {W : Type 0} {key : Bytes} (d : Device W) (cfg : Pkcs11Config) where
  or_drop-Keeps :
      {A : Type 0} (phase : Phase) (m : M (W × Tally) A)
      → Keeps key phase m
      → Keeps key phase (or_drop (counted d) cfg m)
  unfolding or_drop
  or_drop-Keeps phase m h = record { at = λ s v. dropped d cfg key phase (m s) (h.at s v) }

  opened_now :
      (x : Result Fault ℕ × W) (s : Pkcs11 (W × Tally))
      → Inv key shut s
      → Lands {E = TokenError} {A = Unit {0}}
          (λ a. Inv key calm)
          (Inv key serving)
          (continue
            (continue
              (answered s
                (tallied (λ r t. record t { opened = t.opened + success r }) x s.device.1))
              (λ r. lift (as_error open_failed r)))
            (λ session. modify (λ s. record s { session = session; session_open = true })))
  unfolding modify lift
  opened_now (ok n, w) s v = record {
    refusals = v.refusals;
    balance = omega (arith, v.balance, ap bit (the_other v.shutly));
    keeps = v.keeps;
    calmly = v.calmly;
    shutly = inl refl;
  }
  opened_now (err f, w) s v = record {
    refusals = v.refusals;
    balance = omega (arith, v.balance);
    keeps = v.keeps;
    calmly = inl refl;
    shutly = inl refl;
  }

  begin_session-Inv :
      (slot : ℕ)
      → Leads
          (Inv key shut)
          (begin_session (counted d) cfg slot)
          (λ a. Inv key calm)
          (Inv key serving)
  unfolding begin_session ask call ◌>>=◌
  begin_session-Inv slot = record { at = λ s v. opened_now (d.open_session slot s.device.0) s v }

  untouched :
      (w : W) (s : Pkcs11 (W × Tally))
      → Inv key calm s
      → Inv key calm
          (record s { device = (w, record s.device.1 { refused = s.device.1.refused + 0 }) })
  untouched w s v = record {
    refusals = omega (arith, v.refusals);
    balance = v.balance;
    keeps = v.keeps;
    calmly = v.calmly;
    shutly = v.shutly;
  }

  latched :
      (w : W) (s : Pkcs11 (W × Tally))
      → Inv key calm s
      → Inv key serving (record s {
        pin_failure = true;
        device = (w, record s.device.1 { refused = s.device.1.refused + 1 });
      })
  latched w s v = record {
    refusals = omega (arith, v.refusals, ap bit (the_other v.calmly));
    balance = v.balance;
    keeps = v.keeps;
    calmly = inl refl;
    shutly = inl refl;
  }

  drop_failing :
      {P : Pkcs11 (W × Tally) → Type 0}
      → ((s : Pkcs11 (W × Tally)) → P s → Inv key serving (record s { pin_failure = true }))
      → Leads {E = TokenError} {A = Unit {0}} P
          (modify (λ s. record s { pin_failure = true })
            >> drop_session (counted d) cfg
            >> raise pin_latched)
          (λ a. Inv key calm)
          (Inv key serving)
  drop_failing h =
      bind-leads (bind-leads (modify-leads _ h) λ u. drop_session-Keeps d cfg)
        λ u. raise-leads pin_latched λ s l. l

  calmed : (s : Pkcs11 (W × Tally)) → Inv key serving s → s.pin_failure ≡ false → Inv key calm s
  calmed s v fine = record {
    refusals = v.refusals;
    balance = v.balance;
    keeps = v.keeps;
    calmly = inr fine;
    shutly = inl refl;
  }

  shut_now : (s : Pkcs11 (W × Tally)) → Inv key calm s × (s.session_open ≡ false) → Inv key shut s
  shut_now s (v, down) = record {
    refusals = v.refusals;
    balance = v.balance;
    keeps = v.keeps;
    calmly = v.calmly;
    shutly = inr down;
  }

  after_login :
      (again refused : Bool) (w : W) (s : Pkcs11 (W × Tally))
      → (again ≡ true → refused ≡ false)
      → Inv key calm s
      → Lands {E = TokenError}
          (λ a. Inv key calm)
          (Inv key serving)
          ((if again
              then skip
              else if refused
              then modify (λ s. record s { pin_failure = true })
                >> drop_session (counted d) cfg
                >> raise pin_latched
              else drop_session (counted d) cfg >> raise login_failed)
            (record s {
              device = (w, record s.device.1 { refused = s.device.1.refused + bit refused });
            }))
  unfolding skip
  after_login true true w s apart v = cc (apart refl)
  after_login true false w s apart v = untouched w s v
  after_login false true w s apart v = (drop_failing (λ t l. l)).at _ (latched w s v)
  after_login false false w s apart v =
      (bind-leads (drop_session-Keeps d cfg) λ u. raise-leads login_failed λ t l. l).at _
        (relaxed calm _ (untouched w s v))

  log_in-answered :
      (x : Result Fault (Unit {0}) × W) (s : Pkcs11 (W × Tally))
      → Inv key calm s
      → Lands {E = TokenError}
          (λ a. Inv key calm)
          (Inv key serving)
          (continue
            (answered s
              (tallied (λ r t. record t { refused = t.refused + refusal r }) x s.device.1))
            (logged_in (counted d) cfg))
  unfolding logged_in skip
  log_in-answered (ok u, w) s v = untouched w s v
  log_in-answered (err f, w) s v =
      after_login (has_code (256 ∷ []) f) (has_code (160 ∷ 164 ∷ []) f) w s (apart f) v

  log_in-Inv :
      (pin : Bytes)
      → Leads (Inv key calm) (log_in (counted d) cfg pin) (λ a. Inv key calm) (Inv key serving)
  unfolding log_in call gets ◌>>=◌
  log_in-Inv pin = record { at = λ s v. log_in-answered (d.login s.session pin s.device.0) s v }

  kept :
      (known new : Bytes)
      → (is_empty key ≡ true) ⊎ (known ≡ key)
      → (is_empty key ≡ true) ⊎ ((if is_empty known then new else known) ≡ key)
  kept known new (inl nil) = inl nil
  kept [] new (inr e) = inl (rw (← e) refl)
  kept (c ∷ cs) new (inr e) = inr e

  adopt-Inv :
      (k : ℕ × Bytes) (s : Pkcs11 (W × Tally)) → Inv key calm s → Inv key serving (adopt k s)
  adopt-Inv k s v = record {
    refusals = v.refusals;
    balance = v.balance;
    keeps = kept s.pub_key k.1 v.keeps;
    calmly = inl refl;
    shutly = inl refl;
  }

  pub reopen-Keeps : Keeps key serving (reopen (counted d) cfg)
  unfolding reopen
  reopen-Keeps = bind-leads ready λ slot. bind-leads (pin_text-Keeps d cfg) λ pin.
      bind-leads
        (bind-leads (bind-leads (begin_session-Inv slot) λ u. log_in-Inv pin)
          λ u. or_drop-Keeps calm _ (same_keys-Keeps d cfg))
        λ k. modify-leads _ (adopt-Inv k)
    where
      ready :
          Leads
            (Inv key serving)
            (check (λ s. s.pin_failure) pin_latched
              >> drop_session (counted d) cfg
              >> find_slot (counted d) cfg)
            (λ a. Inv key shut)
            (Inv key serving)
      ready =
          bind-leads
            (bind-leads (check-leads _ _ calmed (λ s v. v))
              λ u. weaken-leads (Shuts key calm) (λ a s q. shut_now s q) (drop_session-Shuts d cfg))
            λ u. find_slot-Keeps d cfg
