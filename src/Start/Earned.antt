-- ===== src/Start/Earned.antt =====
-- runStart of cmd/cosmosigner/cmd/start.go: only a start that has been prepared serves and is ready.
use cosmosigner.Prelude.{
  ◌≡◌, ap, sym, subst, Bytes, is_empty, true, false, List, [], ◌∷◌, In, inl, inr, Result, ok, err,
  if◌then◌else◌,
}
use cosmosigner.Prelude.Exec.{
  lift, Lands, Leads, bind-leads, if-leads, if_eq-leads, lift-leads, lift_eq-leads, modify-leads,
  skip-leads, raise-leads,
}
use cosmosigner.Start.{StartError, prepare_startup}
use cosmosigner.Start.Run.{
  Effect, opens_health, closes_health, opens_backend, closes_backend, opens_store, closes_store,
  sets_ready, prints, serves, waits, blocks, RunError, Run, RunEnv, emit, then_emit, deferring,
  prepared, context_end, initialize, serve, with_store, run_with_context, with_backend, blocked,
  blocking, run_start,
}

-- The start was prepared to sign, and is more than an initialization.
pub record IsPrepared (e : RunEnv) : Type 0 where
  pub to_serve : e.initialize_only ≡ false
  pub cluster_id : Bytes
  pub agreed : (prepare_startup e.start_env false).0 ≡ ok cluster_id

abbrev pub IsEarned : RunEnv → Effect → Type 0
IsEarned e (sets_ready true) = IsPrepared e
IsEarned e serves = IsPrepared e
IsEarned e _ = Unit

abbrev AllEarned : RunEnv → List Effect → Type 0
AllEarned e [] = Unit
AllEarned e (x ∷ t) = IsEarned e x × AllEarned e t

abbrev Earns : RunEnv → Run (Unit {0}) → Type 0
Earns e m = Leads (AllEarned e) m (λ u. AllEarned e) (AllEarned e)

emit-Earns : (e : RunEnv) (x : Effect) → IsEarned e x → Earns e (emit x)
unfolding emit
emit-Earns e x h = modify-leads _ λ t all. (h, all)

lift-Earns :
    {A : Type 0} (e : RunEnv) (r : Result RunError A)
    → Leads (AllEarned e) (lift r) (λ a. AllEarned e) (AllEarned e)
lift-Earns e r = lift-leads r (λ a t all. all) (λ t all. all)

deferring-Earns :
    (e : RunEnv) (x : Effect) (m : Run (Unit {0}))
    → IsEarned e x
    → Earns e m
    → Earns e (deferring x m)
unfolding deferring
deferring-Earns e x m h l = record { at = λ t all. closed (m t) (l.at t all) }
  where
    closed :
        (y : Result RunError (Unit {0}) × List Effect)
        → Lands (λ u. AllEarned e) (AllEarned e) y
        → Lands (λ u. AllEarned e) (AllEarned e) (then_emit x y)
    closed (ok u, t) all = (h, all)
    closed (err z, t) all = (h, all)

context_end-Earns : (e : RunEnv) → Earns e (context_end e)
unfolding context_end
context_end-Earns e = lift-Earns e _

initialize-Earns : (e : RunEnv) (id : Bytes) → Earns e (initialize e id)
unfolding initialize
initialize-Earns e id = bind-leads (lift-Earns e _) λ voters.
    bind-leads
      (bind-leads (bind-leads (lift-Earns e _) λ u. lift-Earns e _)
        λ u. emit-Earns e (prints id) tt)
      λ u.
        if-leads _ (bind-leads (emit-Earns e waits tt) λ u. context_end-Earns e)
          (skip-leads λ t all. all)

serve-Earns : (e : RunEnv) → IsPrepared e → Earns e (serve e)
unfolding serve
serve-Earns e ready =
    bind-leads (bind-leads (bind-leads (lift-Earns e _) λ u. lift-Earns e _) λ u. lift-Earns e _)
      λ nodes. bind-leads (emit-Earns e (sets_ready true) ready) λ u.
        deferring-Earns e (sets_ready false) _ tt
          (bind-leads (emit-Earns e serves ready) λ u. lift-Earns e _)

agreed : (r : Result StartError Bytes) (id : Bytes) → prepared r ≡ ok id → r ≡ ok id
agreed (ok i) id h = ap (λ (x : Result RunError Bytes). as_start x) h
  where
    as_start : Result RunError Bytes → Result StartError Bytes
    as_start (ok a) = ok a
    as_start (err x) = ok i
agreed (err x) id h = cc h

with_store-Earns : (e : RunEnv) → Earns e (with_store e)
unfolding with_store
with_store-Earns e =
    bind-leads
      {Q = λ id t.
        AllEarned e t × (prepared (prepare_startup e.start_env e.initialize_only).0 ≡ ok id)}
      (lift_eq-leads _ (λ id was t all. (all, was)) (λ t all. all))
      λ id. record { at = λ t (all, was). (branch id was).at t all }
  where
    branch :
        (id : Bytes)
        → prepared (prepare_startup e.start_env e.initialize_only).0 ≡ ok id
        → Earns e (if e.initialize_only then initialize e id else serve e)
    branch id was =
        if_eq-leads e.initialize_only (λ only. initialize-Earns e id)
          λ more. serve-Earns e (record {
            to_serve = more;
            cluster_id = id;
            agreed =
                subst (λ b. (prepare_startup e.start_env b).0 ≡ ok id) more
                  (agreed (prepare_startup e.start_env e.initialize_only).0 id was);
          })

with_backend-Earns : (e : RunEnv) → Earns e (with_backend e)
unfolding with_backend run_with_context
with_backend-Earns e =
    bind-leads (bind-leads (lift-Earns e _) λ u. emit-Earns e opens_backend tt) λ u.
      deferring-Earns e closes_backend _ tt (
        bind-leads (lift-Earns e _) λ u.
          bind-leads (bind-leads (lift-Earns e _) λ u. emit-Earns e opens_store tt)
            λ u. deferring-Earns e closes_store _ tt (with_store-Earns e))

blocking-Earns : (e : RunEnv) (m : Run (Unit {0})) → Earns e m → Earns e (blocking e m)
unfolding blocking
blocking-Earns e m l = record { at = λ t all. ended (m t) (l.at t all) }
  where
    ended :
        (x : Result RunError (Unit {0}) × List Effect)
        → Lands (λ u. AllEarned e) (AllEarned e) x
        → Lands (λ u. AllEarned e) (AllEarned e) (blocked e x)
    ended (ok u, t) all = all
    ended (err x, t) all =
        (if-leads (e.is_pin_failure x)
            (bind-leads (emit-Earns e blocks tt) λ u. context_end-Earns e)
            (raise-leads x λ s b. b)).at
          t all

run_start-Earns : (e : RunEnv) → Earns e (run_start e)
unfolding run_start
run_start-Earns e = if-leads (is_empty e.http_addr) (with_backend-Earns e) (
    bind-leads (bind-leads (lift-Earns e _) λ u. emit-Earns e opens_health tt)
      λ u. deferring-Earns e closes_health _ tt (blocking-Earns e _ (with_backend-Earns e)))

member : (e : RunEnv) (x : Effect) (t : List Effect) → AllEarned e t → In x t → IsEarned e x
member e x (y ∷ t) (h, all) (inl same) = subst (IsEarned e) (sym same) h
member e x (y ∷ t) (h, all) (inr k) = member e x t all k
member e x [] all k = absurd k

earned_at :
    (e : RunEnv) (x : Result RunError (Unit {0}) × List Effect)
    → Lands (λ u. AllEarned e) (AllEarned e) x
    → AllEarned e x.1
earned_at e (ok u, t) all = all
earned_at e (err z, t) all = all

-- A start reports itself ready, or serves the nodes, only where it is no initialization and its preparation
-- has succeeded: the key's claim names the cluster and the backend's preflight has passed.
pub ready-IsEarned : (e : RunEnv) (x : Effect) → In x (run_start e []).1 → IsEarned e x
ready-IsEarned e x there =
    member e x (run_start e []).1 (earned_at e (run_start e []) ((run_start-Earns e).at [] tt))
      there
