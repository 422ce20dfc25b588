-- ===== src/Server.antt =====
-- internal/server/lifecycle.go: the connection of one node (nodeServer). Its socket is a number, and
-- a time is a number of nanoseconds; a reading of the clock or of the endpoint is an argument.
pub mod Nodes
pub mod Sockets
pub mod Intervals
pub mod Lifecycle
pub mod Tests
use cosmosigner.Prelude.{
  ℕ, zero, suc, ◌+◌, ◌*◌, ◌/◌, ◌==◌, Bytes, codes, Bool, true, false, not, Option, none, some, List,
  [], ◌∷◌, ◌++◌, ltb, if◌then◌else◌,
}

-- Only the fields that the code of the repository reads or writes. `cancelled` is dialCtx.
pub record NodeServer : Type 0 where
  pub addr : Bytes
  pub connected : Bool
  pub last_activity : ℕ
  pub retired : Bool
  pub cancelled : Bool
  pub conn : Option ℕ

-- newNodeServer: touched at its creation, without a socket.
unfoldable pub new_node_server : Bytes → ℕ → NodeServer
new_node_server addr now = record {
  addr = addr;
  connected = false;
  last_activity = now;
  retired = false;
  cancelled = false;
  conn = none;
}

unfoldable pub touch : ℕ → NodeServer → NodeServer
touch now ns = record ns { last_activity = now }

-- `silentFor() > timeout`: the difference is signed in the source, as the clock may step back.
unfoldable pub silent_past : ℕ → ℕ → NodeServer → Bool
silent_past timeout now ns = ltb (ns.last_activity + timeout) now

pub data RetireReason : Type 0 where
  retire_none retire_silent : RetireReason

-- observe, where the endpoint is connected.
unfoldable pub observe_connected : ℕ → ℕ → NodeServer → RetireReason × NodeServer
observe_connected stale now ns =
    if not ns.connected
    then (retire_none, touch now (record ns { connected = true }))
    else if silent_past stale now ns
    then (retire_silent, ns)
    else (retire_none, ns)

unfoldable pub observe : ℕ → ℕ → Bool → NodeServer → RetireReason × NodeServer
observe stale now true ns = observe_connected stale now ns
observe stale now false ns = (retire_none, record ns { connected = false })

-- track: the socket is recorded, unless the connector is retired.
unfoldable pub track : ℕ → NodeServer → Bool × NodeServer
track s ns = if ns.retired then (false, ns) else (true, record ns { conn = some s })

unfoldable pub hand_over : NodeServer → Bool
hand_over ns = not ns.retired

-- closeConn, on the sockets that were closed so far. onceCloseConn makes a second close harmless.
unfoldable pub close_conn : NodeServer → List ℕ → List ℕ
close_conn ns closed = elim ns.conn [ none ↦ closed | some s ↦ s ∷ closed ]

-- The part of retire that the connector itself sees before its socket is closed.
unfoldable pub disable : NodeServer → NodeServer
disable ns = record ns { retired = true; cancelled = true }

abbrev pub retired_chain_id : Bytes
retired_chain_id = 0 ∷ codes " cosmosigner retired connection"

-- DefaultValidationRequestHandler of CometBFT on a private validator whose state is `World`: it
-- answers a request for the chain that it is given.
pub record Handler : Type 1 where
  pub World : Type 0
  pub Request : Type 0
  pub Response : Type 0
  pub handle : Request → Bytes → World → Response × World

-- handleRequest: the answer, the validator afterwards, the connector and the sockets closed so far.
unfoldable pub handle_request :
    (h : Handler)
    → h.Request
    → Bytes
    → ℕ
    → h.World
    → NodeServer
    → List ℕ
    → (h.Response × h.World) × NodeServer × List ℕ
handle_request h req chain_id now w ns closed =
    if ns.retired
    then (h.handle req retired_chain_id w, ns, close_conn ns closed)
    else (h.handle req chain_id w, touch now ns, closed)

pub record Config : Type 0 where
  pub chain_id : Bytes
  pub timeout_read_write : ℕ
  pub retry_wait : ℕ
  pub reconcile_interval : ℕ
  pub stale_conn_timeout : ℕ

abbrev pub second : ℕ
second = 1000000000

abbrev pub quarter_second : ℕ
quarter_second = 250000000

abbrev pub or_default : ℕ → ℕ → ℕ
or_default d configured = if configured == 0 then d else configured

-- The defaults of New. A duration that is not positive is 0 here.
unfoldable pub with_defaults : Config → Config
with_defaults cfg = record cfg {
  timeout_read_write = or_default (3 * second) cfg.timeout_read_write;
  retry_wait = or_default 100000000 cfg.retry_wait;
  reconcile_interval = or_default (5 * second) cfg.reconcile_interval;
  stale_conn_timeout = or_default (15 * second) cfg.stale_conn_timeout;
}

unfoldable pub discovery_pending_window : Config → ℕ
discovery_pending_window cfg =
    if ltb (30 * second) cfg.reconcile_interval then 30 * second else cfg.reconcile_interval

unfoldable pub watch_interval : Config → ℕ
watch_interval cfg =
    let d = cfg.stale_conn_timeout / 4 in
    let at_least = if ltb d quarter_second then quarter_second else d in
    if ltb cfg.reconcile_interval at_least then cfg.reconcile_interval else at_least
