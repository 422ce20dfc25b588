-- ===== src/Health.antt =====
-- internal/health/health.go: the answers of the health endpoints. A server that is switched off is nil,
-- and a function that it is given is what it answers at the time of a request.
pub mod Answers
use cosmosigner.Prelude.{
  ℕ, ◌==◌, Bytes, codes, Bool, true, false, not, Option, none, some, List, [], ◌∷◌, map,
  if◌then◌else◌,
}

-- Raft
pub record Role : Type 0 where
  pub state : Bytes
  pub leader : Bool

-- Node; the zero time is 0.
pub record Node : Type 0 where
  pub address : Bytes
  pub connected : Bool
  pub last_activity : ℕ

pub record Info : Type 0 where
  pub version : Bytes
  pub chain_id : Bytes
  pub raft_node_id : Bytes

-- Server
pub record HealthServer : Type 0 where
  pub info : Info
  pub ready : Bool
  pub raft : Option Role
  pub nodes : Option (List Node)

abbrev pub on_server : (HealthServer → HealthServer) → Option HealthServer → Option HealthServer
on_server f none = none
on_server f (some s) = some (f s)

-- SetReady
unfoldable pub set_ready : Bool → Option HealthServer → Option HealthServer
set_ready ready s = on_server (λ h. record h { ready = ready }) s

-- SetRaft
unfoldable pub set_raft : Role → Option HealthServer → Option HealthServer
set_raft role s = on_server (λ h. record h { raft = some role }) s

-- SetNodes
unfoldable pub set_nodes : List Node → Option HealthServer → Option HealthServer
set_nodes nodes s = on_server (λ h. record h { nodes = some nodes }) s

-- The status code and the text of an answer.
abbrev pub TextAnswer : Type 0
TextAnswer = ℕ × Bytes

unfoldable pub livez : HealthServer → TextAnswer
livez s = (200, codes "ok")

unfoldable pub readyz : HealthServer → TextAnswer
readyz s = if not s.ready then (503, codes "not ready") else (200, codes "ok")

-- nodeStatus
pub record NodeEntry : Type 0 where
  pub address : Bytes
  pub connected : Bool
  pub last_activity : Option ℕ

pub record StatusResponse : Type 0 where
  pub version : Bytes
  pub chain_id : Bytes
  pub node_id : Bytes
  pub state : Bytes
  pub leader : Bool
  pub ready : Bool
  pub nodes : List NodeEntry

abbrev pub entry : Node → NodeEntry
entry n = record {
  address = n.address;
  connected = n.connected;
  last_activity = if n.last_activity == 0 then none else some n.last_activity;
}

abbrev pub entries : Option (List Node) → List NodeEntry
entries none = []
entries (some nodes) = map entry nodes

abbrev pub with_role : Option Role → StatusResponse → StatusResponse
with_role none r = r
with_role (some role) r = record r { state = role.state; leader = role.leader }

unfoldable pub status : HealthServer → StatusResponse
status s = with_role s.raft (record {
  version = s.info.version;
  chain_id = s.info.chain_id;
  node_id = s.info.raft_node_id;
  state = codes "unknown";
  leader = false;
  ready = s.ready;
  nodes = entries s.nodes;
})

-- Start, where the address could be bound.
unfoldable pub start : Info → HealthServer
start info = record { info = info; ready = false; raft = none; nodes = none }
