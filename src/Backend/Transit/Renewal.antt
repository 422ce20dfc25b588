-- ===== src/Backend/Transit/Renewal.antt =====
-- internal/backend/vault.go: StartRenewal, Close and renewLoop. A pass of the loop is a function of what
-- it reads: the token's file, Vault's answers and the clock. Times are in nanoseconds.
use cosmosigner.Prelude.{
  ℕ, suc, ◌+◌, ◌-◌, ◌/◌, ◌*◌, ◌==◌, ltb, Bytes, bytes_eq, is_empty, Bool, true, false, not, ◌&&◌,
  ◌||◌, Option, none, some, List, [], ◌∷◌, Result, ok, err, is_ok, if◌then◌else◌,
}
use cosmosigner.Backend.Addressing.{trim_space}
use cosmosigner.Backend.Transit.{Lease, Answers, verify_can_sign}

abbrev pub second : ℕ
second = 1000000000

abbrev pub minute : ℕ
minute = 60 * second

abbrev pub min : ℕ → ℕ → ℕ
min a b = if ltb a b then a else b

abbrev pub max : ℕ → ℕ → ℕ
max a b = if ltb a b then b else a

-- What one pass reads. `token_file` is its content, if it can be read; `candidate` is what Vault answers
-- to the checks of the token there. The clock is read three times.
pub record Pass : Type 0 where
  pub token_file : Option Bytes
  pub clone_fails : Bool
  pub candidate : Answers
  pub lookup_self : Option Lease
  pub scheduled_at : ℕ
  pub checked_at : ℕ
  pub measured_at : ℕ
  pub renew_fails : Bool

-- The client's token and the time of the next renewal; `none` is the zero time.
pub record Renewal : Type 0 where
  pub token : Bytes
  pub renew_at : Option ℕ

-- The end of a pass: how long it sleeps, if it does, and whether it asked Vault to renew the token.
pub record Turn : Type 0 where
  pub after : Renewal
  pub sleeps : Option ℕ
  pub asked : Bool

abbrev pub is_new : Bytes → Bytes → Bool
is_new found current = not (is_empty found) && not (bytes_eq found current)

-- A sleep that Close ends.
abbrev pub stops : Option ℕ → Bool → Bool
stops none stopped = false
stops (some d) stopped = stopped

module _ (verify : Bytes → Bytes → Bytes → Bool) (pub_key : Bytes) where
  abbrev pub is_proven : Pass → Bool
  is_proven p = not p.clone_fails && is_ok (verify_can_sign verify pub_key p.candidate)

  unfoldable pub replace_token : Pass → Bytes → Renewal → Renewal
  replace_token p found r =
      if is_new found r.token && is_proven p then (record { token = found; renew_at = none }) else r

  -- A new token in the file replaces the old one where it passes the checks of a start.
  unfoldable pub take_token : Pass → Option Bytes → Renewal → Renewal
  take_token p none r = r
  take_token p (some content) r = replace_token p (trim_space content) r

  unfoldable pub renew : ℕ → Pass → Renewal → Turn
  renew poll p r =
      if p.renew_fails
      then (record { after = r; sleeps = some (min poll (5 * second)); asked = true })
      else (record { after = record r { renew_at = none }; sleeps = none; asked = true })

  unfoldable pub wait_or_renew : ℕ → Pass → ℕ → Renewal → Turn
  wait_or_renew poll p at r =
      if ltb p.checked_at at
      then (record {
        after = record r { renew_at = some at };
        sleeps = some (min (at - p.measured_at) poll);
        asked = false;
      })
      else renew poll p (record r { renew_at = some at })

  abbrev pub schedule : Pass → Lease → Option ℕ → ℕ
  schedule p l (some at) = at
  schedule p l none = p.scheduled_at + max (l.ttl / 2) second

  unfoldable pub turn_with : ℕ → Pass → Option Lease → Renewal → Turn
  turn_with poll p none r = record {
    after = r;
    sleeps = some (min poll (30 * second));
    asked = false;
  }
  turn_with poll p (some l) r =
      if not l.renewable || l.ttl == 0
      then (record { after = record r { renew_at = none }; sleeps = some poll; asked = false })
      else wait_or_renew poll p (schedule p l r.renew_at) r

  -- One pass of the loop.
  unfoldable pub turn : ℕ → Pass → Renewal → Turn
  turn poll p r = turn_with poll p p.lookup_self (take_token p p.token_file r)

  -- The loop, up to a sleep that ends by Close: the token and the schedule, and whether it has ended.
  unfoldable pub loop : ℕ → List (Pass × Bool) → Renewal → Renewal × Bool
  loop poll [] r = (r, false)
  loop poll ((p, stopped) ∷ ps) r =
      let rest = loop poll ps (turn poll p r).after in
      if stops (turn poll p r).sleeps stopped then ((turn poll p r).after, true) else rest

  -- The passes that ask Vault to renew the token.
  unfoldable pub renewals : ℕ → List Pass → Renewal → List Bool
  renewals poll [] r = []
  renewals poll (p ∷ ps) r = (turn poll p r).asked ∷ renewals poll ps (turn poll p r).after

-- renewLoopWithPollInterval's interval.
abbrev pub poll_interval : ℕ → ℕ
poll_interval interval = if interval == 0 then minute else interval

pub record Lifetime : Type 0 where
  pub started : Bool
  pub closed : Bool
  pub loops : ℕ

pub data StartError : Type 0 where
  vault_closed : StartError

-- StartRenewal; `loops` counts the goroutines.
unfoldable pub start_renewal : Lifetime → Result StartError (Unit {0}) × Lifetime
start_renewal l =
    if l.closed
    then (err vault_closed, l)
    else if l.started
    then (ok tt, l)
    else (ok tt, record l { started = true; loops = suc l.loops })

-- Close
unfoldable pub close : Lifetime → Lifetime
close l = record l { closed = true }
