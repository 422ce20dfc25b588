-- ===== src/Signer.antt =====
-- internal/signer/privval.go: reserve, sign, commit. A request runs in a world of the replicated
-- machine and of what was handed to the key backend so far; what Raft and the backend do during the
-- request is its environment.
pub mod Committed
pub mod Cluster
pub mod Safety
pub mod Refines
pub mod Requests
pub mod Refused
pub mod Tests
use cosmosigner.Prelude.{
  Bytes, is_empty, Bool, true, false, not, ◌&&◌, Option, none, some, List, [], ◌∷◌, Result, ok, err,
  if◌then◌else◌,
}
use cosmosigner.Prelude.Int.{ℤ}
use cosmosigner.State.{
  Time, zero_time, step_propose, step_prevote, step_precommit, ReserveResult, Command, Codec,
}
use cosmosigner.State.Fsm.{Fsm}
use cosmosigner.State.RaftStore.{
  Attempt, StoreError, reserve_with, commit_with, reserve_command, commit_command,
}

-- A payload that was handed to the backend's Sign, with the Reserve that it was handed out by.
pub record Grant : Type 0 where
  pub request : Command
  pub payload : Bytes

pub record World : Type 0 where
  pub fsm : Fsm
  pub handed : List Grant
  pub extensions : List Bytes

-- What the environment does during one request. `sign` is the key backend, which may fail.
pub record Env : Type 0 where
  pub reserve : Attempt
  pub commit : Attempt
  pub sign : Bytes → Option Bytes

pub data SignError : Type 0 where
  nil_request unknown_vote_type unexpected_extension invalid_request : SignError
  backend extension_backend : SignError
  refused commit_failed : StoreError → SignError

abbrev pub Action : Type 0 → Type 0
Action A = World → Result SignError A × World

abbrev pub continue : {A B : Type 0} → Result SignError A → (A → Action B) → Action B
continue (ok a) k w = k a w
continue (err e) k w = (err e, w)

infixl 5 ◌>>=◌ ◌>>◌
abbrev pub ◌>>=◌ : {A B : Type 0} → Action A → (A → Action B) → Action B
◌>>=◌ m k w = continue (m w).0 k (m w).1

abbrev pub ◌>>◌ : {B : Type 0} → Action (Unit {0}) → Action B → Action B
m >> k = m >>= λ _. k

abbrev pub pure : {A : Type 0} → A → Action A
pure a w = (ok a, w)

abbrev pub raise : {A : Type 0} → SignError → Action A
raise e w = (err e, w)

abbrev pub or_raise : {A : Type 0} → Option A → SignError → Action A
or_raise none e = raise e
or_raise (some a) e = pure a

-- A store error under the error that the signer makes of it.
abbrev pub wrapped :
    {A : Type 0} → (StoreError → SignError) → Result StoreError A → Result SignError A
wrapped e (ok a) = ok a
wrapped e (err s) = err (e s)

unfoldable pub call_reserve : Codec → Env → Command → Action ReserveResult
call_reserve x env c w =
    let out = reserve_with x env.reserve c w.fsm in
    (wrapped refused out.0, record w { fsm = out.1 })

unfoldable pub call_commit : Codec → Env → Command → Action (Unit {0})
call_commit x env c w =
    let out = commit_with x env.commit c w.fsm in
    (wrapped commit_failed out.0, record w { fsm = out.1 })

-- The payload counts as handed out whether the backend answers or fails.
unfoldable pub call_sign : Env → Command → Bytes → Action Bytes
call_sign env c payload w = (
  elim (env.sign payload) [ none ↦ err backend | some signature ↦ ok signature ],
  record w { handed = record { request = c; payload = payload } ∷ w.handed },
)

unfoldable pub sign_reserved : Codec → Env → Command → ReserveResult → Action (Bytes × Time)
sign_reserved x env c res = do
  signature ← call_sign env c res.sign_bytes
  call_commit x env (commit_command c.chain_id c.height c.round c.step res.sign_bytes signature)
  pure (signature, res.timestamp)

unfoldable pub answer_reserved : Codec → Env → Command → ReserveResult → Action (Bytes × Time)
answer_reserved x env c res =
    if res.reuse && not (is_empty res.signature)
    then pure (res.signature, res.timestamp)
    else sign_reserved x env c res

unfoldable pub gated : Codec → Env → Command → Action (Bytes × Time)
gated x env c = do res ← call_reserve x env c; answer_reserved x env c res

-- gatedSign; `set` receives the signature and the time that are returned here.
abbrev pub gated_sign : Codec → Env → Bytes → ℤ → ℤ → ℤ → Bytes → Time → Action (Bytes × Time)
gated_sign x env chain_id height round step sign_bytes ts =
    gated x env (reserve_command chain_id height round step sign_bytes ts)

pub data VoteType : Type 0 where
  prevote precommit : VoteType
  other : ℤ → VoteType

-- The fields of cmtproto.Vote that the signer reads and writes, and the block's identity.
pub record Vote : Type 0 where
  pub vote_type : VoteType
  pub height : ℤ
  pub round : ℤ
  pub block_id : Bytes
  pub timestamp : Time
  pub signature : Bytes
  pub extension : Bytes
  pub extension_signature : Bytes

pub record Proposal : Type 0 where
  pub height : ℤ
  pub round : ℤ
  pub block_id : Bytes
  pub timestamp : Time
  pub signature : Bytes

-- The canonical sign-bytes of CometBFT's types package; `none` is a panic on malformed input.
pub record Canonical : Type 0 where
  pub block_id_is_nil : Bytes → Bool
  pub vote_sign_bytes : Bytes → Vote → Option Bytes
  pub extension_sign_bytes : Bytes → Vote → Option Bytes
  pub proposal_sign_bytes : Bytes → Proposal → Option Bytes

unfoldable pub vote_to_step : VoteType → Result SignError ℤ
vote_to_step prevote = ok step_prevote
vote_to_step precommit = ok step_precommit
vote_to_step (other t) = err unknown_vote_type

abbrev pub is_precommit : VoteType → Bool
is_precommit precommit = true
is_precommit _ = false

abbrev pub lift : {A : Type 0} → Result SignError A → Action A
lift r w = (r, w)

unfoldable pub call_sign_extension : Env → Bytes → Action Bytes
call_sign_extension env payload w = (
  elim (env.sign payload) [ none ↦ err extension_backend | some signature ↦ ok signature ],
  record w { extensions = payload ∷ w.extensions },
)

unfoldable pub sign_extension : Canonical → Env → Bytes → Vote → Action Bytes
sign_extension n env chain_id vote = do
  payload ← or_raise (n.extension_sign_bytes chain_id vote) invalid_request
  call_sign_extension env payload

abbrev pub is_non_nil_precommit : Canonical → Vote → Bool
is_non_nil_precommit n vote = is_precommit vote.vote_type && not (n.block_id_is_nil vote.block_id)

-- Extensions are excluded from the canonical bytes, so they are signed anew for every request.
unfoldable pub extend_vote : Canonical → Env → Bytes → Vote → Action Bytes
extend_vote n env chain_id vote =
    if is_non_nil_precommit n vote then sign_extension n env chain_id vote else pure []

unfoldable pub finish_vote : Canonical → Env → Bytes → Vote → Bytes × Time → Action Vote
finish_vote n env chain_id vote (sig, ts) = do
  extension_sig ← extend_vote n env chain_id vote
  pure (record vote { timestamp = ts; signature = sig; extension_signature = extension_sig })

unfoldable pub gate_vote : Codec → Canonical → Env → Bytes → Vote → ℤ → Action Vote
gate_vote x n env chain_id vote step = do
  sign_bytes ← or_raise (n.vote_sign_bytes chain_id vote) invalid_request
  signed ← gated_sign x env chain_id vote.height vote.round step sign_bytes vote.timestamp
  finish_vote n env chain_id vote signed

unfoldable pub sign_present_vote : Codec → Canonical → Env → Bytes → Vote → Action Vote
sign_present_vote x n env chain_id vote = do
  step ← lift (vote_to_step vote.vote_type)
  if not (is_empty vote.extension) && not (is_non_nil_precommit n vote)
      then raise unexpected_extension
      else gate_vote x n env chain_id vote step

-- SignVote: the vote that the request is answered with. On an error the vote is left as it is.
unfoldable pub sign_vote : Codec → Canonical → Env → Bytes → Option Vote → Action Vote
sign_vote x n env chain_id none = raise nil_request
sign_vote x n env chain_id (some vote) = sign_present_vote x n env chain_id vote

unfoldable pub sign_present_proposal : Codec → Canonical → Env → Bytes → Proposal → Action Proposal
sign_present_proposal x n env chain_id p = do
  sign_bytes ← or_raise (n.proposal_sign_bytes chain_id p) invalid_request
  (sig, ts) ← gated_sign x env chain_id p.height p.round step_propose sign_bytes p.timestamp
  pure (record p { timestamp = ts; signature = sig })

-- SignProposal
unfoldable pub sign_proposal : Codec → Canonical → Env → Bytes → Option Proposal → Action Proposal
sign_proposal x n env chain_id none = raise nil_request
sign_proposal x n env chain_id (some p) = sign_present_proposal x n env chain_id p
