-- ===== src/Server/Lifecycle.antt =====
-- Lifecycle of internal/server/lifecycle.go: the serving set and its reconciliation. Connectors live
-- in a store, since a retired one goes on running until its Stop lands; the map of the servers holds
-- their numbers. A pass holds the lock, and its order over a map is that of the list.
pub mod Serving
pub mod Connectors
pub mod Passes
pub mod Run
pub mod Shutdown
pub mod Retired
pub mod Reconciled
pub mod Published
use cosmosigner.Prelude.{
  ℕ, suc, ◌+◌, ◌==◌, Bytes, bytes_eq, bytes_lt, Bool, true, false, not, ◌||◌, Option, none, some,
  List, [], ◌∷◌, any, ltb, if◌then◌else◌, Result, ok, err,
}
use cosmosigner.Server.{
  NodeServer, new_node_server, observe, RetireReason, retire_none, retire_silent, close_conn,
  disable, track, Config, with_defaults, discovery_pending_window,
}

pub record ServedNode : Type 0 where
  pub addr : Bytes
  pub connected : Bool
  pub ns : ℕ

pub record Lifecycle : Type 0 where
  pub cfg : Config
  pub servers : List (Bytes × ℕ)
  pub connectors : ℕ → NodeServer
  pub started : ℕ
  pub closed : List ℕ
  pub wake : Bool
  pub stopping : ℕ
  pub discovery_pending_until : ℕ
  pub status : List ServedNode

-- What a pass reads: the clock, which endpoints are connected, and which servers start.
pub record Env : Type 0 where
  pub now : ℕ
  pub is_connected : ℕ → Bool
  pub starts : Bytes → Bool

unfoldable pub store_connector : ℕ → NodeServer → (ℕ → NodeServer) → ℕ → NodeServer
store_connector i ns h j = if j == i then ns else h j

unfoldable pub remove : Bytes → List (Bytes × ℕ) → List (Bytes × ℕ)
remove addr [] = []
remove addr ((a, i) ∷ rest) =
    let others = remove addr rest in if bytes_eq a addr then others else (a, i) ∷ others

unfoldable pub is_served : Bytes → List (Bytes × ℕ) → Bool
is_served addr servers = any (λ (p : Bytes × ℕ). bytes_eq p.0 addr) servers

unfoldable pub wanted : Bytes → List Bytes → Bool
wanted addr want = any (λ a. bytes_eq a addr) want

-- retire, up to the goroutine that it starts.
unfoldable pub retire : ℕ → Bytes → ℕ → Lifecycle → Lifecycle
retire now addr i l = record l {
  connectors = store_connector i (disable (l.connectors i)) l.connectors;
  closed = close_conn (l.connectors i) l.closed;
  servers = remove addr l.servers;
  discovery_pending_until = now + discovery_pending_window l.cfg;
  stopping = suc l.stopping;
}

unfoldable pub status_of : (ℕ → NodeServer) → List (Bytes × ℕ) → List ServedNode
status_of h [] = []
status_of h ((addr, i) ∷ rest) =
    record { addr = addr; connected = (h i).connected; ns = i } ∷ status_of h rest

unfoldable pub insert_node : ServedNode → List ServedNode → List ServedNode
insert_node n [] = n ∷ []
insert_node n (m ∷ rest) =
    let later = insert_node n rest in if bytes_lt m.addr n.addr then m ∷ later else n ∷ m ∷ rest

-- sort.Slice on the addresses; any sort has this outcome, since no two are equal.
unfoldable pub sort_nodes : List ServedNode → List ServedNode
sort_nodes [] = []
sort_nodes (n ∷ rest) = insert_node n (sort_nodes rest)

-- publishStatus
unfoldable pub publish_status : Lifecycle → Lifecycle
publish_status l = record l { status = sort_nodes (status_of l.connectors l.servers) }

pub record NodeStatus : Type 0 where
  pub address : Bytes
  pub connected : Bool
  pub last_activity : ℕ

-- Status. The time of the last activity is read when the status is, and 0 is the zero time.
unfoldable pub node_statuses : (ℕ → NodeServer) → List ServedNode → List NodeStatus
node_statuses h [] = []
node_statuses h (n ∷ rest) =
    record {
      address = n.addr;
      connected = n.connected;
      last_activity = if n.connected then (h n.ns).last_activity else 0;
    }
    ∷ node_statuses h rest

abbrev pub current_status : Lifecycle → List NodeStatus
current_status l = node_statuses l.connectors l.status

unfoldable pub observe_stored : Env → ℕ → Lifecycle → RetireReason × Lifecycle
observe_stored e i l =
    let seen = observe l.cfg.stale_conn_timeout e.now (e.is_connected i) (l.connectors i) in
    (seen.0, record l { connectors = store_connector i seen.1 l.connectors })

abbrev pub retire_if : RetireReason → ℕ → Bytes → ℕ → Lifecycle → Lifecycle
retire_if retire_none now addr i l = l
retire_if retire_silent now addr i l = retire now addr i l

unfoldable pub sweep_one : Env → List Bytes → Bytes → ℕ → Lifecycle → Lifecycle
sweep_one e want addr i l =
    let seen = observe_stored e i l in
    if not (wanted addr want) then retire e.now addr i l else retire_if seen.0 e.now addr i seen.1

-- The loop of reconcile over the servers that the pass started with.
unfoldable pub sweep : Env → List Bytes → List (Bytes × ℕ) → Lifecycle → Lifecycle
sweep e want [] l = l
sweep e want ((addr, i) ∷ rest) l = sweep e want rest (sweep_one e want addr i l)

-- startOne: the connector of a server that does not start is dropped before it can dial.
unfoldable pub start_one : Env → Bytes → Lifecycle → Lifecycle
start_one e addr l =
    if e.starts addr
    then (record l {
      servers = (addr, l.started) ∷ l.servers;
      connectors = store_connector l.started (new_node_server addr e.now) l.connectors;
      started = suc l.started;
    })
    else l

unfoldable pub serve_one : Env → Bytes → Lifecycle → Lifecycle
serve_one e addr l = if is_served addr l.servers then l else start_one e addr l

unfoldable pub serve_all : Env → List Bytes → Lifecycle → Lifecycle
serve_all e [] l = l
serve_all e (addr ∷ rest) l = serve_all e rest (serve_one e addr l)

unfoldable pub retire_all : ℕ → List (Bytes × ℕ) → Lifecycle → Lifecycle
retire_all now [] l = l
retire_all now ((addr, i) ∷ rest) l = retire_all now rest (retire now addr i l)

unfoldable pub stop_all : ℕ → Lifecycle → Lifecycle
stop_all now l = publish_status (retire_all now l.servers l)

unfoldable pub reconcile_nodes : Env → List Bytes → Lifecycle → Lifecycle
reconcile_nodes e want l = publish_status (serve_all e want (sweep e want l.servers l))

-- reconcile: `nodes` is what NodeSource.Nodes answers, `none` an error.
unfoldable pub reconcile : Env → Bool → Option (List Bytes) → Lifecycle → Lifecycle
reconcile e false nodes l = stop_all e.now l
reconcile e true none l = l
reconcile e true (some desired) l = reconcile_nodes e desired l

abbrev pub is_silent : RetireReason → Bool
is_silent retire_none = false
is_silent retire_silent = true

-- The loop of needsFastDiscovery, which stops at the first connection that calls for it.
unfoldable pub scan : Env → List (Bytes × ℕ) → Lifecycle → Bool × Lifecycle
scan e [] l = (false, l)
scan e ((addr, i) ∷ rest) l =
    let seen = observe_stored e i l in
    let later = scan e rest seen.1 in
    if is_silent seen.0 || not (seen.1.connectors i).connected then (true, seen.1) else later

unfoldable pub needs_fast_discovery : Env → Lifecycle → Bool × Lifecycle
needs_fast_discovery e l =
    let seen = scan e l.servers l in
    if ltb e.now l.discovery_pending_until
    then (true, publish_status l)
    else (seen.0, publish_status seen.1)

unfoldable pub new : Config → Lifecycle
new cfg = record {
  cfg = with_defaults cfg;
  servers = [];
  connectors = λ i. new_node_server [] 0;
  started = 0;
  closed = [];
  wake = false;
  stopping = 0;
  discovery_pending_until = 0;
  status = [];
}
