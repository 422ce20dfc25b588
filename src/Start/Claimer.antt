-- ===== src/Start/Claimer.antt =====
-- claimWithConfig of cmd/cosmosigner/cmd/start.go: a claim through the signing backend, or through a separate
-- one with credentials of its own, which is closed right after it.
use cosmosigner.Prelude.{
  ◌≡◌, Bytes, Bool, true, false, List, ◌∷◌, Result, ok, err, fail_if, if◌then◌else◌,
}
use cosmosigner.Prelude.Exec.{Exec, lift, modify, ◌>>=◌, ◌>>◌}
use cosmosigner.Backend.{BindingError}

pub data ClaimerError : Type 0 where
  no_claim_backend : ClaimerError
  not_claimed : BindingError → ClaimerError

-- The backend that a claim is made by: the signing one, or the separate one.
pub data ClaimStep : Type 0 where
  opens_separate closes_separate : ClaimStep
  claims : Bool → Bytes → ClaimStep

-- `answer` is what ClaimCluster answers.
pub record ClaimerEnv : Type 0 where
  pub is_separate : Bool
  pub build_fails : Bool
  pub answer : Result BindingError (Unit {0})

abbrev pub Claiming : Type 0
Claiming = Exec ClaimerError (List ClaimStep) (Unit {0})

abbrev pub as_claimer : Result BindingError (Unit {0}) → Result ClaimerError (Unit {0})
as_claimer (ok u) = ok u
as_claimer (err e) = err (not_claimed e)

unfoldable pub step : ClaimStep → Claiming
step c = modify (λ t. c ∷ t)

unfoldable pub claim_by : Bool → ClaimerEnv → Bytes → Claiming
claim_by separate e id = step (claims separate id) >> lift (as_claimer e.answer)

abbrev pub closed :
    Result ClaimerError (Unit {0}) × List ClaimStep
    → Result ClaimerError (Unit {0}) × List ClaimStep
closed (r, t) = (r, closes_separate ∷ t)

-- The deferred Close of the separate backend.
unfoldable pub closing : Claiming → Claiming
closing m t = closed (m t)

unfoldable pub claim_with_config : ClaimerEnv → Bytes → Claiming
claim_with_config e id =
    if e.is_separate
    then lift (fail_if e.build_fails no_claim_backend)
      >> step opens_separate
      >> closing (claim_by true e id)
    else claim_by false e id

-- With credentials of its own a claim leaves the separate backend closed and never uses the signing one.
pub separate_claim :
    (e : ClaimerEnv) (id : Bytes) (t : List ClaimStep)
    → e.is_separate ≡ true
    → e.build_fails ≡ false
    → claim_with_config e id t
      ≡ (as_claimer e.answer, closes_separate ∷ claims true id ∷ opens_separate ∷ t)
unfolding claim_with_config claim_by closing step lift modify ◌>>=◌
separate_claim e id t separate built = rw (separate, built)
