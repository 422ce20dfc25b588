-- ===== src/Server/Intervals.antt =====
-- The intervals of internal/server/lifecycle.go.
use cosmosigner.Prelude.{ℕ, ◌/◌, ◌<◌, ◌≤◌, ltb, if◌then◌else◌, arith}
use cosmosigner.Server.{Config, or_default, with_defaults, watch_interval}

default_positive : (d c : ℕ) → 0 < d → 0 < or_default d c
default_positive d c h = ground arith

clamped :
    (r d : ℕ)
    → 0 < r
    → (0 < (
        if ltb r (if ltb d 250000000 then 250000000 else d)
        then r
        else (if ltb d 250000000 then 250000000 else d)))
      × ((if ltb r (if ltb d 250000000 then 250000000 else d)
            then r
            else (if ltb d 250000000 then 250000000 else d))
          ≤ r)
clamped r d h = (ground arith, ground arith)

-- The tickers of Run get the intervals that they need, whatever the configuration: both are positive,
-- and the watch is never slower than the reconcile.
pub tickers_positive :
    (cfg : Config)
    → (0 < (with_defaults cfg).reconcile_interval)
      × (0 < watch_interval (with_defaults cfg))
      × (watch_interval (with_defaults cfg) ≤ (with_defaults cfg).reconcile_interval)
unfolding watch_interval with_defaults
tickers_positive cfg =
    let reconcile = default_positive 5000000000 cfg.reconcile_interval (omega arith) in
    let (positive, within) =
      clamped (with_defaults cfg).reconcile_interval ((with_defaults cfg).stale_conn_timeout / 4)
        reconcile in
    (reconcile, positive, within)
