-- ===== src/Start.antt =====
-- cmd/cosmosigner/cmd/start.go: the preparation of a start, which ties the key's claim to the cluster,
-- and the members of the command line.
pub mod Prepared
pub mod Run
pub mod Orderly
pub mod Claimer
pub mod Earned
pub mod Members
pub mod Tests
use cosmosigner.Prelude.{
  ℕ, ◌==◌, Bytes, is_empty, Bool, true, false, not, ◌&&◌, ◌||◌, Option, none, some, List, [], ◌∷◌,
  Result, ok, err, ◌>>=◌, if◌then◌else◌,
}
use cosmosigner.Backend.{
  BindingError, unclaimed, corrupt, unreadable, mismatch, unsupported, invalid_id, cancelled,
  io_failed, require_cluster_binding,
}
use cosmosigner.Backend.Addressing.{trim_space}
use cosmosigner.Config.{Member}

pub data StartError : Type 0 where
  no_cluster_id no_preflight context_done no_renewal : StartError
  binding claiming : BindingError → StartError

-- What the store, the backend and the context answer. `claim` is there with claim_if_unclaimed; a
-- preflight and a renewal are there where the backend has one.
pub record StartEnv : Type 0 where
  pub cluster_id : Option Bytes
  pub first_binding : Result BindingError Bytes
  pub claim : Option (Result BindingError (Unit {0}))
  pub second_binding : Result BindingError Bytes
  pub preflight : Option Bool
  pub is_done : Bool
  pub renewal : Option Bool

-- The start's outcome, and whether the claim was called.
abbrev pub Start : Type 0
Start = Result StartError Bytes × Bool

abbrev pub has_failed : Option Bool → Bool
has_failed none = false
has_failed (some fine) = not fine

-- What follows the binding.
unfoldable pub finish : StartEnv → Bytes → Result BindingError (Unit {0}) → Result StartError Bytes
finish e id (err b) = err (binding b)
finish e id (ok u) =
    if has_failed e.preflight
    then err no_preflight
    else if e.is_done
    then err context_done
    else if has_failed e.renewal
    then err no_renewal
    else ok id

abbrev pub is_unclaimed : Result BindingError (Unit {0}) → Bool
is_unclaimed (err unclaimed) = true
is_unclaimed _ = false

unfoldable pub try_claim : StartEnv → Bytes → Result BindingError (Unit {0}) → Start
try_claim e id (err b) = (err (claiming b), true)
try_claim e id (ok u) = (finish e id (require_cluster_binding e.second_binding id), true)

abbrev pub claim_if :
    StartEnv
    → Bytes
    → Option (Result BindingError (Unit {0}))
    → Result BindingError (Unit {0})
    → Start
claim_if e id none bound = (finish e id bound, false)
claim_if e id (some claimed) bound =
    if is_unclaimed bound then try_claim e id claimed else (finish e id bound, false)

unfoldable pub prepare_with : StartEnv → Bool → Bytes → Start
prepare_with e initialize_only id =
    if initialize_only
    then (ok id, false)
    else claim_if e id e.claim (require_cluster_binding e.first_binding id)

unfoldable pub prepare_named : StartEnv → Bool → Option Bytes → Start
prepare_named e initialize_only none = (err no_cluster_id, false)
prepare_named e initialize_only (some id) = prepare_with e initialize_only id

-- prepareStartupWithClaim
unfoldable pub prepare_startup : StartEnv → Bool → Start
prepare_startup e initialize_only = prepare_named e initialize_only e.cluster_id

-- strings.Cut at one code point: what is before, what is after, and whether it was there.
unfoldable pub cut : ℕ → Bytes → Bytes × Bytes × Bool
cut sep [] = ([], [], false)
cut sep (c ∷ s) =
    let later = cut sep s in if c == sep then ([], s, true) else (c ∷ later.0, later.1, later.2)

abbrev pub equals_sign : ℕ
equals_sign = 61

unfoldable pub parse_member : Bytes → Option Member
parse_member raw =
    let parts = cut equals_sign (trim_space raw) in
    let id = trim_space parts.0 in
    let addr = trim_space parts.1 in
    if not parts.2 || is_empty id || is_empty addr
    then none
    else some (record { id = id; address = addr })

abbrev pub push : Option Member → Option (List Member) → Option (List Member)
push none rest = none
push (some m) none = none
push (some m) (some ms) = some (m ∷ ms)

-- parseMembers; `none` is its error on a flag that is no id=address.
unfoldable pub parse_members : List Bytes → Option (List Member)
parse_members [] = some []
parse_members (raw ∷ rest) = push (parse_member raw) (parse_members rest)
