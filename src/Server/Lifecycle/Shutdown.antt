-- ===== src/Server/Lifecycle/Shutdown.antt =====
-- The end of Run of internal/server/lifecycle.go: once its context is cancelled it retires the connections,
-- hands the leadership over and waits for the stops, while the connectors' goroutines go on.
use cosmosigner.Prelude.{ℕ, zero, suc, ◌≡◌, Bool, true, false, List, [], ◌∷◌}
use cosmosigner.Server.{track}
use cosmosigner.Server.Lifecycle.{Lifecycle, store_connector, stop_all}
use cosmosigner.Server.Lifecycle.Run.{note_request, land_stop}

-- What the goroutines do: a dial that is tracked, a request that is handled, a Stop that returns.
pub data Act : Type 0 where
  tracks handles : ℕ → ℕ → Act
  lands : Act

unfoldable pub act : Act → Lifecycle → Lifecycle
act (tracks i s) l = record l {
  connectors = store_connector i (track s (l.connectors i)).1 l.connectors;
}
act (handles i now) l = note_request i now l
act lands l = land_stop l

unfoldable pub acts : List Act → Lifecycle → Lifecycle
acts [] l = l
acts (a ∷ rest) l = acts rest (act a l)

-- The lifecycle, and how each call of TransferLeadership found it.
pub record Ending : Type 0 where
  pub lifecycle : Lifecycle
  pub transfers : List Lifecycle

-- `can_transfer` tells that the store can hand its leadership over and leads. The goroutines act before the
-- handoff, and during it.
pub record EndEnv : Type 0 where
  pub now : ℕ
  pub can_transfer : Bool
  pub before_transfer : List Act
  pub during_transfer : List Act

unfoldable pub stop_serving : ℕ → Ending → Ending
stop_serving now s = record s { lifecycle = stop_all now s.lifecycle }

unfoldable pub meanwhile : List Act → Ending → Ending
meanwhile done s = record s { lifecycle = acts done s.lifecycle }

-- transferLeadership
unfoldable pub transfer_leadership : Bool → Ending → Ending
transfer_leadership false s = s
transfer_leadership true s = record s { transfers = s.lifecycle ∷ s.transfers }

unfoldable pub land_all : ℕ → Lifecycle → Lifecycle
land_all zero l = l
land_all (suc n) l = land_all n (land_stop l)

-- stopping.Wait, which returns when every Stop has landed.
unfoldable pub wait_for_stops : Ending → Ending
wait_for_stops s = record s { lifecycle = land_all s.lifecycle.stopping s.lifecycle }

-- The case of a cancelled context in Run.
unfoldable pub shut_down : EndEnv → Ending → Ending
shut_down e s =
    let silent = meanwhile e.before_transfer (stop_serving e.now s) in
    let handed = meanwhile e.during_transfer (transfer_leadership e.can_transfer silent) in
    wait_for_stops handed

abbrev pub running : Lifecycle → Ending
running l = record { lifecycle = l; transfers = [] }

-- Nobody is served, and the connector is retired.
abbrev pub IsSilent : ℕ → Lifecycle → Type 0
IsSilent i l = (l.servers ≡ []) × ((l.connectors i).retired ≡ true)

abbrev pub count : Bool → ℕ
count true = 1
count false = 0
