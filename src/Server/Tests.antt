-- ===== src/Server/Tests.antt =====
-- Runs of the connection lifecycle: two nodes, one of which leaves, and a retirement during a dial.
use cosmosigner.Prelude.{
  ℕ, ◌≡◌, refl, ap, ◌⊎◌, inl, inr, Bytes, bytes_eq, bytes_lt, codes, Bool, true, false, some, List,
  [], ◌∷◌, In, arith, if◌then◌else◌,
}
use cosmosigner.Server.{
  Config, Handler, handle_request, new_node_server, observe, observe_connected, silent_past, touch,
  track, hand_over, close_conn, disable, discovery_pending_window, with_defaults,
}
use cosmosigner.Server.Sockets.{Link, new_link, connects, flags, closes, Reach, here, next, opened}
use cosmosigner.Server.Sockets.Closing.{retired_sockets_closed}
use cosmosigner.Server.Lifecycle.{
  Env, store_connector, remove, is_served, wanted, retire, status_of, insert_node, sort_nodes,
  node_statuses, publish_status, observe_stored, sweep_one, sweep, start_one, serve_one, serve_all,
  retire_all, stop_all, reconcile_nodes, reconcile, new,
}
use cosmosigner.Server.Lifecycle.Run.{
  Event, ticked, socket_tracked, stop_landed, handle, run, note_request, land_stop,
}
use cosmosigner.Server.Lifecycle.Shutdown.{
  tracks, handles, lands, act, acts, EndEnv, stop_serving, meanwhile, transfer_leadership, land_all,
  wait_for_stops, shut_down, running,
}
use cosmosigner.Server.Lifecycle.Retired.{unserved_never_signs, one_connector}

machine : Unit {0}
unfolding bytes_eq new_node_server observe observe_connected silent_past touch track hand_over
    close_conn disable discovery_pending_window with_defaults store_connector remove is_served
    wanted retire status_of insert_node sort_nodes node_statuses bytes_lt publish_status
    observe_stored sweep_one sweep start_one serve_one serve_all retire_all stop_all reconcile_nodes
    reconcile new handle run note_request land_stop act acts stop_serving meanwhile
    transfer_leadership land_all wait_for_stops shut_down new_link handle_request
machine = tt

abbrev cfg : Config
cfg = record {
  chain_id = codes "test-chain";
  timeout_read_write = 0;
  retry_wait = 0;
  reconcile_interval = 0;
  stale_conn_timeout = 0;
}

abbrev node_a : Bytes
node_a = codes "a:1"

abbrev node_b : Bytes
node_b = codes "b:1"

abbrev one : ℕ
one = 1

abbrev at_time : ℕ → Env
at_time t = record { now = t; is_connected = λ i. true; starts = λ a. true }

-- Both nodes are served, then the first one leaves.
abbrev events : List Event
events =
    ticked (at_time 1) true (some (node_a ∷ node_b ∷ []))
    ∷ socket_tracked 0 7
    ∷ ticked (at_time 2) true (some (node_b ∷ []))
    ∷ stop_landed
    ∷ []

first_served :
    is_served node_a
      (run (ticked (at_time 1) true (some (node_a ∷ node_b ∷ [])) ∷ []) (new cfg)).servers
    ≡ true
unfolding machine
first_served = refl

-- The socket of the node that left is closed.
left_closed : (run events (new cfg)).closed ≡ 7 ∷ []
unfolding machine
left_closed = refl

abbrev counter : Handler
counter = record {
  World = ℕ;
  Request = Bytes;
  Response = Bool;
  handle = λ req chain w. if bytes_eq req chain then (true, 5) else (false, w);
}

counter_refuses :
    (req : Bytes) (chain : Bytes) (w : ℕ)
    → bytes_eq req chain ≡ false
    → (counter.handle req chain w).1 ≡ w
counter_refuses req chain w off = rw off

zero≢one : ◌≡◌ {A = ℕ} 0 1 → ⊥
zero≢one e = omega (arith, e)

-- A silent connection is retired, and its address is dialled anew in the same pass.
abbrev redialled : List Event
redialled =
    ticked (at_time 1) true (some (node_a ∷ []))
    ∷ ticked (at_time 2) true (some (node_a ∷ []))
    ∷ ticked (at_time 20000000000) true (some (node_a ∷ []))
    ∷ []

served_anew : (run redialled (new cfg)).servers ≡ (node_a, 1) ∷ []
unfolding machine
served_anew = refl

unserved_never_signs_example :
    (handle_request counter
      (codes "test-chain")
      cfg.chain_id
      9
      3
      ((run redialled (new cfg)).connectors 0)
      []).0.1
    ≡ 3
unfolding machine
unserved_never_signs_example =
    unserved_never_signs counter (λ req. req) counter_refuses cfg redialled 0 (omega arith)
      (λ addr at. elim at [
        | inl e ↦ absurd (zero≢one (ap (λ (p : Bytes × ℕ). p.1) e))
        | inr more ↦ absurd more
      ])
      (codes "test-chain") 3 9 [] refl

one_connector_example :
    (one ≡ one)
    × (((run events (new cfg)).connectors 1).retired ≡ false)
    × (((run events (new cfg)).connectors 1).addr ≡ node_b)
unfolding machine
one_connector_example = one_connector cfg events node_b one one (inl refl) (inl refl)

-- A dial is tracked before the handoff, and a Stop lands during it.
abbrev ending : EndEnv
ending = record {
  now = 3;
  can_transfer = true;
  before_transfer = tracks 1 8 ∷ handles 0 3 ∷ [];
  during_transfer = lands ∷ [];
}

no_stop_left : (shut_down ending (running (run events (new cfg)))).lifecycle.stopping ≡ 0
unfolding machine
no_stop_left = refl

-- A connect returns, the connector is retired and its socket closed before the dial can track it.
abbrev link_opened : Link
link_opened = record (new_link node_a 1) { phase = opened 0; next_socket = 1 }

abbrev link_flagged : Link
link_flagged = record link_opened { ns = disable link_opened.ns }

abbrev link_closed : Link
link_closed = record link_flagged { finished = true }

late_connect : Reach (new_link node_a 1) link_closed
unfolding machine
late_connect =
    next (next (next here (connects (new_link node_a 1) refl)) (flags link_opened))
      (closes link_flagged refl)

retired_sockets_closed_example :
    In 0 link_closed.closed
    ⊎ ((link_closed.phase ≡ opened 0) × ((track 0 link_closed.ns).0 ≡ false))
unfolding machine
retired_sockets_closed_example =
    retired_sockets_closed node_a 1 link_closed 0 late_connect refl (omega arith)
