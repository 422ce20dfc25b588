-- ===== src/Start/Run.antt =====
-- runStart and runStartWithContext of cmd/cosmosigner/cmd/start.go: what a start opens, serves and closes,
-- as the list of its effects, the latest first.
use cosmosigner.Prelude.{
  ℕ, ◌==◌, ltb, Bytes, bytes_eq, is_empty, Bool, true, false, not, Option, some, List, ◌∷◌, Result,
  ok, err, or_fail, fail_if, if◌then◌else◌,
}
use cosmosigner.Prelude.Base64
use cosmosigner.Prelude.Exec.{Exec, raise, lift, modify, skip, ◌>>=◌, ◌>>◌}
use cosmosigner.Server.Nodes.{build_node_source}
use cosmosigner.Start.{StartError, StartEnv, prepare_startup}

pub data Effect : Type 0 where
  opens_health closes_health opens_backend closes_backend opens_store closes_store : Effect
  sets_ready : Bool → Effect
  prints : Bytes → Effect
  serves waits blocks : Effect

pub data RunError : Type 0 where
  no_health no_store no_membership no_voters no_output no_signer no_conn_key no_nodes : RunError
  no_backend wrong_key deadline lifecycle_failed : RunError
  preparing : StartError → RunError

abbrev pub Run : Type 0 → Type 0
Run A = Exec RunError (List Effect) A

-- What is configured, and what the parts of a start answer. `is_pin_failure` tells whether an error wraps
-- the latched PIN failure of PKCS#11; the context ends by a signal, or else at its deadline.
pub record RunEnv : Type 0 where
  pub http_addr : Bytes
  pub health_fails : Bool
  pub backend_fails : Bool
  pub expected_public_key : Bytes
  pub public_key : Option Bytes
  pub store_fails : Bool
  pub start_env : StartEnv
  pub initialize_only : Bool
  pub voters : Option ℕ
  pub output_fails : Bool
  pub signer_fails : Bool
  pub conn_key_fails : Bool
  pub node_service : Bytes
  pub node_addrs : List Bytes
  pub lifecycle_fails : Bool
  pub is_pin_failure : RunError → Bool
  pub signalled : Bool

unfoldable pub emit : Effect → Run (Unit {0})
emit e = modify (λ t. e ∷ t)

abbrev pub failing : Bool → RunError → Run (Unit {0})
failing b e = lift (fail_if b e)

-- What a deferred call does when the method returns.
abbrev pub then_emit :
    {A : Type 0} → Effect → Result RunError A × List Effect → Result RunError A × List Effect
then_emit e (r, t) = (r, e ∷ t)

-- `defer`
unfoldable pub deferring : {A : Type 0} → Effect → Run A → Run A
deferring e m s = then_emit e (m s)

abbrev pub same_key : Option Bytes → Option Bytes → Result RunError (Unit {0})
same_key (some want) (some have) = fail_if (not (bytes_eq have want)) wrong_key
same_key _ _ = err wrong_key

-- verifyExpectedPublicKey
unfoldable pub verify_expected_public_key : Bytes → Option Bytes → Result RunError (Unit {0})
verify_expected_public_key expected have =
    if is_empty expected then ok tt else same_key (Base64.decode expected) have

abbrev pub prepared : Result StartError Bytes → Result RunError Bytes
prepared (ok id) = ok id
prepared (err e) = err (preparing e)

abbrev pub sourced : {A E : Type 0} → Result E A → Result RunError A
sourced (ok a) = ok a
sourced (err e) = err no_nodes

-- The context's end, after which only a signal is no error.
unfoldable pub context_end : RunEnv → Run (Unit {0})
context_end e = failing (not e.signalled) deadline

unfoldable pub initialize : RunEnv → Bytes → Run (Unit {0})
initialize e id = lift (or_fail e.voters no_membership) >>= λ voters.
    failing (voters == 0) no_voters
    >> failing e.output_fails no_output
    >> emit (prints id)
    >> (if ltb 1 voters then emit waits >> context_end e else skip)

-- The callback that ends the readiness at the signal is left out. `lifecycle_fails` tells that Run of the
-- lifecycle ends with another error than the context's.
unfoldable pub serve : RunEnv → Run (Unit {0})
serve e =
    failing e.signer_fails no_signer
    >> failing e.conn_key_fails no_conn_key
    >> lift (sourced (build_node_source e.node_service e.node_addrs))
    >>= λ nodes.
        emit (sets_ready true)
        >> deferring (sets_ready false) (emit serves >> failing e.lifecycle_fails lifecycle_failed)

unfoldable pub with_store : RunEnv → Run (Unit {0})
with_store e = lift (prepared (prepare_startup e.start_env e.initialize_only).0) >>= λ id.
    if e.initialize_only then initialize e id else serve e

-- runStartWithContext
unfoldable pub run_with_context : RunEnv → Run (Unit {0})
run_with_context e =
    failing e.store_fails no_store >> emit opens_store >> deferring closes_store (with_store e)

unfoldable pub with_backend : RunEnv → Run (Unit {0})
with_backend e =
    failing e.backend_fails no_backend
    >> emit opens_backend
    >> deferring closes_backend
        (lift (verify_expected_public_key e.expected_public_key e.public_key) >> run_with_context e)

-- A start that a PIN failure has ended stays up for its health endpoints until the context ends.
abbrev pub block : RunEnv → RunError → Run (Unit {0})
block e x = if e.is_pin_failure x then emit blocks >> context_end e else raise x

abbrev pub blocked :
    RunEnv → Result RunError (Unit {0}) × List Effect → Result RunError (Unit {0}) × List Effect
blocked e (ok u, t) = (ok u, t)
blocked e (err x, t) = block e x t

unfoldable pub blocking : RunEnv → Run (Unit {0}) → Run (Unit {0})
blocking e m t = blocked e (m t)

-- runStart; without an address there is no health server.
unfoldable pub run_start : RunEnv → Run (Unit {0})
run_start e =
    if is_empty e.http_addr
    then with_backend e
    else failing e.health_fails no_health
      >> emit opens_health
      >> deferring closes_health (blocking e (with_backend e))
