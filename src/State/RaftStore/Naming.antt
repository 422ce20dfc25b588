-- ===== src/State/RaftStore/Naming.antt =====
-- EnsureClusterID and applyContext of internal/state/raftstore.go. Each pass of the loop is given what
-- happens during it; a list of passes that ends leaves the loop running.
use cosmosigner.Prelude.{
  ◌≡◌, ◌≢◌, Bytes, is_empty, Bool, true, false, Option, none, some, List, [], ◌∷◌, Result, ok, err,
  if◌then◌else◌,
}
use cosmosigner.Prelude.Int.{pos}
use cosmosigner.ClusterId.{Raw, new}
use cosmosigner.State.{zero_time, init_cluster, Command, ApplyResult, Codec}
use cosmosigner.State.Fsm.{Fsm, replay, apply_command}
use cosmosigner.State.RaftStore.{
  not_raft_leader, leadership_lost, transfer_in_progress, enqueue_timeout, Outcome, StoreError,
  raft, apply_entry,
}

-- The context is done, or the store is closed.
pub data Stop : Type 0 where
  context_done store_closed : Stop

-- applyContext ends with the entry's outcome, or before it; then the entry may be applied all the same.
pub data Applied : Type 0 where
  finished : Outcome → Applied
  interrupted : Stop → Bool → Applied

pub record Pass : Type 0 where
  pub entries : List Bytes
  pub stop_first : Option Stop
  pub is_leader : Bool
  pub random : Option Raw
  pub applied : Applied
  pub stop_after : Option Stop
  pub stop_waiting : Option Stop

pub data NamingError : Type 0 where
  stopped : Stop → NamingError
  no_random : NamingError
  initialize : StoreError → NamingError

abbrev pub Verdict : Type 0
Verdict = Option (Result NamingError Bytes) × Fsm

abbrev pub init_command : Bytes → Command
init_command id = record {
  op = init_cluster;
  chain_id = [];
  height = pos 0;
  round = pos 0;
  step = pos 0;
  sign_bytes = [];
  signature = [];
  timestamp = zero_time;
  cluster_id = id;
}

-- The errors that the loop tries again on.
unfoldable pub is_retried : StoreError → Bool
is_retried (raft not_raft_leader) = true
is_retried (raft leadership_lost) = true
is_retried (raft transfer_in_progress) = true
is_retried (raft enqueue_timeout) = true
is_retried _ = false

abbrev pub stop_or : Option Stop → Fsm → Verdict → Verdict
stop_or none f rest = rest
stop_or (some s) f rest = (some (err (stopped s)), f)

unfoldable pub known_or : Fsm → Verdict → Verdict
known_or f rest = if is_empty f.cluster_id then rest else (some (ok f.cluster_id), f)

-- The candidate that is tried: the one of an earlier pass, or a fresh one.
unfoldable pub candidate_of : Bytes → Option Raw → Option Bytes
candidate_of candidate random =
    if is_empty candidate
    then elim random [ none ↦ none | some raw ↦ some (new raw) ]
    else some candidate

-- What follows an answer: its identity, an error, or the end of the pass.
abbrev pub after_answer : Pass → Result StoreError ApplyResult × Fsm → (Fsm → Verdict) → Verdict
after_answer p (ok r, f) wait = (some (ok r.cluster_id), f)
after_answer p (err e, f) wait =
    stop_or p.stop_after f (if is_retried e then wait f else (some (err (initialize e)), f))

unfoldable pub propose : Codec → Pass → Bytes → Fsm → (Fsm → Verdict) → Applied → Verdict
propose x p id f wait (finished o) = after_answer p (apply_entry x o (init_command id) f) wait
propose x p id f wait (interrupted s lands) =
    let g = if lands then (apply_command x (init_command id) f).0 else f in
    stop_or p.stop_after g (some (err (stopped s)), g)

abbrev pub lead : Codec → Pass → Option Bytes → Fsm → (Bytes → Fsm → Verdict) → Verdict
lead x p none f wait = (some (err no_random), f)
lead x p (some id) f wait = propose x p id f (wait id) p.applied

unfoldable pub ensure_cluster_id : Codec → Bytes → List Pass → Fsm → Verdict
ensure_cluster_id x candidate [] f = (none, f)
ensure_cluster_id x candidate (p ∷ rest) f =
    let here = replay x p.entries f in
    let wait : Bytes → Fsm → Verdict =
      λ id g. stop_or p.stop_waiting g (ensure_cluster_id x id rest g) in
    known_or here (
      stop_or p.stop_first here (
        if p.is_leader
        then lead x p (candidate_of candidate p.random) here wait
        else wait candidate here))

-- An identity that is answered is the machine's.
abbrev Owned : Verdict → Type 0
Owned v = (id : Bytes) → v.0 ≡ some (ok id) → (v.1.cluster_id ≡ id) × (id ≢ [])
