-- ===== src/Server/Lifecycle/Run.antt =====
-- Run of internal/server/lifecycle.go: its select as a list of events, with what the goroutines of
-- the connectors do in between.
use cosmosigner.Prelude.{
  ℕ, ◌-◌, ◌≡◌, refl, inl, inr, Bytes, Bool, true, false, Option, List, [], ◌∷◌, Bool-cases,
  if◌then◌else◌, arith,
}
use cosmosigner.Server.{NodeServer, Config, track, touch, close_conn}
use cosmosigner.Server.Lifecycle.{
  Lifecycle, Env, store_connector, reconcile, needs_fast_discovery, new,
}
use cosmosigner.Server.Lifecycle.Connectors.{IsSound, stored-Sound}
use cosmosigner.Server.Lifecycle.Passes.{reconcile-Sound, needs_fast_discovery-Sound}

-- The first three are cases of the select: a change of leadership or the ticker, the wake channel and
-- the watch ticker, each with what its reconcile finds; the scan of the watch ticker reads first. The others are goroutines: the dial of a
-- connector, its request handler, and the Stop of a retired one.
pub data Event : Type 0 where
  ticked woken : Env → Bool → Option (List Bytes) → Event
  watched : Env → Env → Bool → Option (List Bytes) → Event
  socket_tracked : ℕ → ℕ → Event
  request_handled : ℕ → ℕ → Event
  stop_landed : Event

unfoldable pub watch_pass : Env → Env → Bool → Option (List Bytes) → Lifecycle → Lifecycle
watch_pass scanned e leader nodes l =
    let seen = needs_fast_discovery scanned l in
    if seen.0 then reconcile e leader nodes seen.1 else seen.1

-- The connector and the sockets after handleRequest.
unfoldable pub note_request : ℕ → ℕ → Lifecycle → Lifecycle
note_request i now l =
    if (l.connectors i).retired
    then (record l { closed = close_conn (l.connectors i) l.closed })
    else (record l { connectors = store_connector i (touch now (l.connectors i)) l.connectors })

-- The goroutine of retire once its Stop returns.
unfoldable pub land_stop : Lifecycle → Lifecycle
land_stop l = record l { wake = true; stopping = l.stopping - 1 }

unfoldable pub handle : Event → Lifecycle → Lifecycle
handle (ticked e leader nodes) l = reconcile e leader nodes l
handle (woken e leader nodes) l =
    if l.wake then reconcile e leader nodes (record l { wake = false }) else l
handle (watched scanned e leader nodes) l = watch_pass scanned e leader nodes l
handle (socket_tracked i s) l = record l {
  connectors = store_connector i (track s (l.connectors i)).1 l.connectors;
}
handle (request_handled i now) l = note_request i now l
handle stop_landed l = land_stop l

unfoldable pub run : List Event → Lifecycle → Lifecycle
run [] l = l
run (e ∷ rest) l = run rest (handle e l)

pub tracked_kept :
    (s : ℕ) (ns : NodeServer)
    → ((track s ns).1.retired ≡ ns.retired) × ((track s ns).1.addr ≡ ns.addr)
unfolding track
tracked_kept s ns = elim (Bool-cases ns.retired) [
  | inl off ↦ rw off (refl, refl)
  | inr on ↦ rw on (refl, refl)
]

IsSound-if : (b : Bool) (l m : Lifecycle) → IsSound l → IsSound m → IsSound (if b then l else m)
IsSound-if true l m s t = s
IsSound-if false l m s t = t

handle-Sound : (e : Event) (l : Lifecycle) → IsSound l → IsSound (handle e l)
unfolding handle watch_pass note_request land_stop touch
handle-Sound (ticked e leader nodes) l s = reconcile-Sound e leader nodes l s
handle-Sound (woken e leader nodes) l s = elim (Bool-cases l.wake) [
  | inl asked ↦ rw asked (
      reconcile-Sound e leader nodes (record l { wake = false })
        (record { live = s.live; others = s.others; distinct = s.distinct }))
  | inr idle ↦ rw idle s
]
handle-Sound (watched scanned e leader nodes) l s =
    let r = needs_fast_discovery-Sound scanned l s in
    elim (Bool-cases (needs_fast_discovery scanned l).0) [
      | inl fast ↦ rw fast (reconcile-Sound e leader nodes (needs_fast_discovery scanned l).1 r)
      | inr slow ↦ rw slow r
    ]
handle-Sound (socket_tracked i s) l r =
    let (a, b) = tracked_kept s (l.connectors i) in stored-Sound i _ a b r
handle-Sound (request_handled i now) l s =
    IsSound-if (l.connectors i).retired _ _
      (record { live = s.live; others = s.others; distinct = s.distinct })
      (stored-Sound i (touch now (l.connectors i)) refl refl s)
handle-Sound stop_landed l s = record { live = s.live; others = s.others; distinct = s.distinct }

pub run-Sound : (events : List Event) (l : Lifecycle) → IsSound l → IsSound (run events l)
unfolding run
run-Sound [] l s = s
run-Sound (e ∷ rest) l s = run-Sound rest (handle e l) (handle-Sound e l s)

pub new-Sound : (cfg : Config) → IsSound (new cfg)
unfolding new
new-Sound cfg = record {
  live = λ p at. elim at [ ];
  others = λ i under. omega arith;
  distinct = tt;
}
