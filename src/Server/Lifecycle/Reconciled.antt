-- ===== src/Server/Lifecycle/Reconciled.antt =====
-- The serving set after a reconcile of internal/server/lifecycle.go.
use cosmosigner.Server.Lifecycle.{Lifecycle}
