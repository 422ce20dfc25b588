-- ===== src/Signer/Cluster.antt =====
-- All replicas and all their requests at once: any interleaving of log entries, signing threads,
-- lost answers and crashes (internal/signer/privval.go over internal/state/fsm.go).
use cosmosigner.Prelude.{ℕ, ◌≡◌, List, ◌∷◌, if◌then◌else◌, ◌==◌}
use cosmosigner.State.{Command, Codec}
use cosmosigner.State.Fsm.{Fsm, apply_command}
use cosmosigner.State.Fsm.Grants.{Grants}
use cosmosigner.Signer.{Grant}

-- A thread that serves one request: it holds what a Reserve granted until it hands it to the key.
pub data Phase : Type 0 where
  idle : Phase
  holds : Grant → Phase

-- The threads of all replicas, numbered.
pub record Cluster : Type 0 where
  pub fsm : Fsm
  pub threads : ℕ → Phase
  pub handed : List Grant

abbrev pub update : (ℕ → Phase) → ℕ → Phase → ℕ → Phase
update threads t p u = if t == u then p else threads u

abbrev pub after : Codec → Command → Fsm → Fsm
after x c f = (apply_command x c f).0

module _ (x : Codec) where
  pub data Step (s s' : Cluster) : Type 0 where
    -- An entry is applied, and no thread will sign by its answer: any Commit or InitCluster, a
    -- refused or reused Reserve, or one whose answer is lost.
    logged : (c : Command) → s' ≡ record s { fsm = after x c s.fsm } → Step s s'
    -- A Reserve is applied, and its thread is asked to sign.
    granted :
        (t : ℕ) (g : Grant)
        → s.threads t ≡ idle
        → Grants x g.request s.fsm g.payload
        → s' ≡ record s { fsm = after x g.request s.fsm; threads = update s.threads t (holds g) }
        → Step s s'
    -- A thread hands its payload to the key backend.
    hands :
        (t : ℕ) (g : Grant)
        → s.threads t ≡ holds g
        → s' ≡ record s { threads = update s.threads t idle; handed = g ∷ s.handed }
        → Step s s'
    -- A thread fails, or its replica crashes.
    stops : (t : ℕ) → s' ≡ record s { threads = update s.threads t idle } → Step s s'

  pub data Reach (s : Cluster) : Cluster → Type 0 where
    here : Reach s s
    next : {t u : Cluster} → Reach s t → Step t u → Reach s u
