-- ===== src/Backend/Transit/Renewing.antt =====
-- internal/backend/vault.go: what the renewal loop keeps, and that it renews in time.
use cosmosigner.Prelude.{
  ◌≡◌, refl, ap, ◌∙◌, sym, subst, ◌⊎◌, inl, inr, ℕ, zero, suc, ◌+◌, ◌-◌, ◌*◌, ◌≤◌, ◌<◌, ◌==◌, ltb,
  ltb→lt, Bytes, Bool, true, false, not, ◌&&◌, ◌||◌, Option, none, some, List, [], ◌∷◌, length, any,
  All, Result, ok, err, is_ok, if◌then◌else◌, Bool-cases, arith,
}
use cosmosigner.Backend.Addressing.{trim_space}
use cosmosigner.Backend.Transit.{Lease, TransitError}
use cosmosigner.Backend.Transit.Keys.{IsReady, verify_can_sign-IsReady}
use cosmosigner.Backend.Transit.Renewal.{
  min, Pass, Renewal, Turn, is_new, is_proven, replace_token, take_token, renew, wait_or_renew,
  schedule, turn_with, turn, stops, loop, renewals,
}

abbrev pub slept : Option ℕ → ℕ
slept none = 0
slept (some d) = d

if-token :
    {token : Bytes} (b : Bool) (t u : Turn)
    → t.after.token ≡ token
    → u.after.token ≡ token
    → (if b then t else u).after.token ≡ token
if-token true t u h k = h
if-token false t u h k = k

if-asked :
    (b : Bool) (t u : Turn) → t.asked ≡ true → u.asked ≡ true → (if b then t else u).asked ≡ true
if-asked true t u h k = h
if-asked false t u h k = k

asked_first : {a : Bool} (b : Bool) → a ≡ true → (a || b) ≡ true
asked_first b h = rw h refl

no_time : (checked at poll n : ℕ) → checked < at → at ≤ checked + n * poll → 0 ≡ n → ⊥
no_time checked at poll zero early due len = omega arith
no_time checked at poll (suc n) early due len = omega arith

min-cases : (a b : ℕ) → (min a b ≡ a) ⊎ (min a b ≡ b)
min-cases a b = ground arith

-- A sleep to the end of the interval, or to the time, leaves an interval less.
closer :
    (at poll m checked measured next : ℕ)
    → at ≤ checked + suc m * poll
    → checked ≤ measured
    → measured + min (at - measured) poll ≤ next
    → at ≤ next + m * poll
closer at poll m checked measured next due order pause =
    let grown : suc m * poll ≡ poll + m * poll = omega arith in
    elim (min-cases (at - measured) poll) [
      | inl short ↦ omega (arith, short)
      | inr long ↦ omega (arith, long)
    ]

module _ (verify : Bytes → Bytes → Bytes → Bool) (pub_key : Bytes) where
  -- The token stood in the file of a pass and passed the checks then.
  pub record Offered (p : Pass) (token : Bytes) : Type 0 where
    pub content : Bytes
    pub in_file : p.token_file ≡ some content
    pub trimmed : trim_space content ≡ token
    pub ready : IsReady verify pub_key p.candidate

  abbrev pub SomeOffered : List (Pass × Bool) → Bytes → Type 0
  SomeOffered [] token = ⊥
  SomeOffered ((p, stopped) ∷ ps) token = Offered p token ⊎ SomeOffered ps token

  is_proven-IsReady :
      (p : Pass) → is_proven verify pub_key p ≡ true → IsReady verify pub_key p.candidate
  is_proven-IsReady p h =
      (verify_can_sign-IsReady verify pub_key p.candidate).0 (passed p.clone_fails _ h)
    where
      passed : (b : Bool) (r : Result TransitError (Unit {0})) → not b && is_ok r ≡ true → r ≡ ok tt
      passed true r h = cc h
      passed false (ok u) h = refl
      passed false (err e) h = cc h

  replaced :
      (p : Pass) (content : Bytes) (r : Renewal)
      → p.token_file ≡ some content
      → ((replace_token verify pub_key p (trim_space content) r).token ≡ r.token)
        ⊎ Offered p (replace_token verify pub_key p (trim_space content) r).token
  unfolding replace_token
  replaced p content r there =
      elim (Bool-cases (is_new (trim_space content) r.token && is_proven verify pub_key p)) [
        | inl taken ↦ rw taken (
            inr (record {
              content = content;
              in_file = there;
              trimmed = refl;
              ready = is_proven-IsReady p (right _ _ taken);
            }))
        | inr kept ↦ rw kept (inl refl)
      ]
    where
      right : (a b : Bool) → a && b ≡ true → b ≡ true
      right true b h = h
      right false b h = cc h

  taken :
      (p : Pass) (o : Option Bytes) (r : Renewal)
      → p.token_file ≡ o
      → ((take_token verify pub_key p o r).token ≡ r.token)
        ⊎ Offered p (take_token verify pub_key p o r).token
  unfolding take_token
  taken p none r there = inl refl
  taken p (some content) r there = replaced p content r there

  turn_with-token :
      (poll : ℕ) (p : Pass) (o : Option Lease) (r : Renewal)
      → (turn_with verify pub_key poll p o r).after.token ≡ r.token
  unfolding turn_with wait_or_renew renew
  turn_with-token poll p none r = refl
  turn_with-token poll p (some l) r =
      if-token _ _ _ refl
        (if-token (ltb p.checked_at _) _ _ refl (if-token p.renew_fails _ _ refl refl))

  turn-token :
      (poll : ℕ) (p : Pass) (r : Renewal)
      → ((turn verify pub_key poll p r).after.token ≡ r.token)
        ⊎ Offered p (turn verify pub_key poll p r).after.token
  unfolding turn
  turn-token poll p r =
      subst (λ t. (t ≡ r.token) ⊎ Offered p t)
        (sym (turn_with-token poll p p.lookup_self (take_token verify pub_key p p.token_file r)))
        (taken p p.token_file r refl)

  -- Whatever the passes of the renewal loop find, the client's token is the one it had, or one that stood
  -- in the token's file in some pass and passed there the checks of a start.
  pub loop-token :
      (poll : ℕ) (ps : List (Pass × Bool)) (r : Renewal)
      → ((loop verify pub_key poll ps r).0.token ≡ r.token)
        ⊎ SomeOffered ps (loop verify pub_key poll ps r).0.token
  unfolding loop
  loop-token poll [] r = inl refl
  loop-token poll ((p, stopped) ∷ ps) r =
      chosen (stops (turn verify pub_key poll p r).sleeps stopped)
        (turn verify pub_key poll p r).after
        (loop verify pub_key poll ps (turn verify pub_key poll p r).after) (turn-token poll p r)
        (loop-token poll ps (turn verify pub_key poll p r).after)
    where
      chosen :
          (b : Bool) (now : Renewal) (rest : Renewal × Bool)
          → (now.token ≡ r.token) ⊎ Offered p now.token
          → (rest.0.token ≡ now.token) ⊎ SomeOffered ps rest.0.token
          → ((if b then (now, true) else rest).0.token ≡ r.token)
            ⊎ (Offered p (if b then (now, true) else rest).0.token
                ⊎ SomeOffered ps (if b then (now, true) else rest).0.token)
      chosen true now rest (inl same) h = inl same
      chosen true now rest (inr given) h = inr (inl given)
      chosen false now rest (inl same) (inl kept) = inl (kept ∙ same)
      chosen false now rest (inr given) (inl kept) = inr (inl (subst (Offered p) (sym kept) given))
      chosen false now rest h (inr later) = inr (inr later)

  abbrev pub keeps_token : Bytes → Pass → Option Bytes → Bool
  keeps_token token p none = true
  keeps_token token p (some content) =
      not (is_new (trim_space content) token && is_proven verify pub_key p)

  -- A pass that finds a lease to renew, and no new token.
  pub record IsSteady (token : Bytes) (p : Pass) : Type 0 where
    pub found_lease : Lease
    pub looked_up : p.lookup_self ≡ some found_lease
    pub renewable : found_lease.renewable ≡ true
    pub ends : (found_lease.ttl == 0) ≡ false
    pub same_token : keeps_token token p p.token_file ≡ true

  -- The clock goes on between the passes for as long as the loop sleeps, or longer.
  abbrev pub IsPaced : ℕ → Pass → List Pass → Renewal → Type 0
  IsPaced poll p [] r = p.checked_at ≤ p.measured_at
  IsPaced poll p (q ∷ ps) r =
      (p.checked_at ≤ p.measured_at)
      × (p.measured_at + slept (turn verify pub_key poll p r).sleeps ≤ q.checked_at)
      × IsPaced poll q ps (turn verify pub_key poll p r).after

  kept :
      (p : Pass) (o : Option Bytes) (r : Renewal)
      → keeps_token r.token p o ≡ true
      → take_token verify pub_key p o r ≡ r
  unfolding take_token replace_token
  kept p none r h = refl
  kept p (some content) r h =
      let off : (is_new (trim_space content) r.token && is_proven verify pub_key p) ≡ false =
        unflip _ h in
      rw off refl
    where
      unflip : (b : Bool) → not b ≡ true → b ≡ false
      unflip true h = cc h
      unflip false h = refl

  turn-steady :
      (poll : ℕ) (p : Pass) (r : Renewal) (s : IsSteady r.token p)
      → turn verify pub_key poll p r
        ≡ wait_or_renew verify pub_key poll p (schedule verify pub_key p s.found_lease r.renew_at) r
  unfolding turn turn_with
  turn-steady poll p r s =
      ap (turn_with verify pub_key poll p p.lookup_self) (kept p p.token_file r s.same_token)
      ∙ rw s.looked_up (rw (s.renewable, s.ends) refl)

  waiting : ℕ → Pass → ℕ → Renewal → Turn
  waiting poll p at r = record {
    after = record r { renew_at = some at };
    sleeps = some (min (at - p.measured_at) poll);
    asked = false;
  }

  asked-renew : (poll : ℕ) (p : Pass) (r : Renewal) → (renew verify pub_key poll p r).asked ≡ true
  unfolding renew
  asked-renew poll p r = if-asked p.renew_fails _ _ refl refl

  waits_or_asks :
      (poll : ℕ) (p : Pass) (at : ℕ) (r : Renewal)
      → ((p.checked_at < at) × (wait_or_renew verify pub_key poll p at r ≡ waiting poll p at r))
        ⊎ ((wait_or_renew verify pub_key poll p at r).asked ≡ true)
  unfolding wait_or_renew waiting
  waits_or_asks poll p at r = elim (Bool-cases (ltb p.checked_at at)) [
    | inl early ↦ inl (ltb→lt _ _ early, rw early refl)
    | inr due ↦ inr (rw due (asked-renew poll p (record r { renew_at = some at })))
  ]

  -- While the lease stands and the token's file brings nothing new, the loop asks Vault to renew the token
  -- in one of as many further passes as the time that is left has poll intervals.
  pub renews_within :
      (poll n : ℕ) (p : Pass) (rest : List Pass) (r : Renewal) (first : IsSteady r.token p)
      → All (IsSteady r.token) rest
      → IsPaced poll p rest r
      → length rest ≡ n
      → schedule verify pub_key p first.found_lease r.renew_at ≤ p.checked_at + n * poll
      → any (λ b. b) (renewals verify pub_key poll (p ∷ rest) r) ≡ true
  unfolding renewals waiting
  renews_within poll n p [] r first steady paced len due =
      elim (waits_or_asks poll p (schedule verify pub_key p first.found_lease r.renew_at) r) [
        | inr asks ↦ asked_first _ (ap (λ t. t.asked) (turn-steady poll p r first) ∙ asks)
        | inl (early, waits) ↦ absurd (no_time _ _ poll n early due len)
      ]
  renews_within poll n p (q ∷ ps) r first (next, steady) (order, pause, paced) len due =
      elim (waits_or_asks poll p (schedule verify pub_key p first.found_lease r.renew_at) r) [
        | inr asks ↦ asked_first _ (ap (λ t. t.asked) (turn-steady poll p r first) ∙ asks)
        | inl (early, waits) ↦
            let e = turn-steady poll p r first ∙ waits in
            subst
              (λ t.
                (t.asked || any (λ b. b) (renewals verify pub_key poll (q ∷ ps) t.after)) ≡ true)
              (sym e)
              (renews_within poll (length ps) q ps _ next steady
                (subst (λ t. IsPaced poll q ps t.after) e paced) refl
                (closer _ poll (length ps) p.checked_at p.measured_at q.checked_at
                  (subst
                    (λ k.
                      schedule verify pub_key p first.found_lease r.renew_at
                      ≤ p.checked_at + k * poll)
                    (sym len) due)
                  order (subst (λ t. p.measured_at + slept t.sleeps ≤ q.checked_at) e pause)))
      ]
