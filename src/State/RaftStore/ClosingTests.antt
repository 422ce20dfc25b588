-- ===== src/State/RaftStore/ClosingTests.antt =====
-- Runs of Close and of resolveAdvertise of internal/state/raftstore.go.
use cosmosigner.Prelude.{◌≡◌, refl, Bytes, codes, true, false, Option, none, some, [], ◌∷◌, ok, err}
use cosmosigner.State.RaftStore.Closing.{
  CloseEnv, raft_shutdown, store_unclosed, signals_closed, shuts_raft, closes_transport,
  closes_bolt, Closing, close,
}
use cosmosigner.State.RaftStore.Advertise.{
  empty_zone, no_host, Zoned, Lookup, check_zone, look_up, resolve_advertise,
}

abbrev two_refusals : CloseEnv
two_refusals = record {
  shutdown_fails = true;
  has_transport = true;
  transport_fails = false;
  bolt_fails = true;
}

abbrev fresh : Closing
fresh = record { is_done = false; errors = []; closed = [] }

-- The store is closed although Raft refuses to shut down.
closes_all : close two_refusals fresh ≡ record {
  is_done = true;
  errors = raft_shutdown ∷ store_unclosed ∷ [];
  closed = closes_bolt ∷ closes_transport ∷ shuts_raft ∷ signals_closed ∷ [];
}
unfolding close
closes_all = refl

abbrev not_yet : Lookup
not_yet = record { addrs = []; is_ended = false; ends_waiting = false }

abbrev there : Lookup
there = record not_yet { addrs = record { ip = 10 ∷ 0 ∷ 0 ∷ 7 ∷ []; zone = [] } ∷ [] }

abbrev no_zone : Bytes → Option Zoned
no_zone h = none

resolves_later :
    resolve_advertise (some (codes "pod")) (some 7070) no_zone (λ h. not_yet ∷ there ∷ [])
    ≡ ok (record { ip = 10 ∷ 0 ∷ 0 ∷ 7 ∷ []; port = 7070; zone = [] })
unfolding check_zone look_up resolve_advertise
resolves_later = refl

no_zone_name :
    resolve_advertise
      (some (codes "fe80::1%"))
      (some 7070)
      (λ h. some (record { is_v4 = false; zone = [] }))
      (λ h. [])
    ≡ err empty_zone
unfolding check_zone look_up resolve_advertise
no_zone_name = refl

unspecified : resolve_advertise (some []) (some 7070) no_zone (λ h. there ∷ []) ≡ err no_host
unfolding check_zone look_up resolve_advertise
unspecified = refl
