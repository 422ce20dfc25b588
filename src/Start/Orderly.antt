-- ===== src/Start/Orderly.antt =====
-- runStart of cmd/cosmosigner/cmd/start.go: whatever happens in a start, it opens, serves and closes in
-- order, and is ready only where it has been prepared to sign.
use cosmosigner.Prelude.{
  ◌≡◌, refl, ap, sym, subst, Bytes, is_empty, Bool, true, false, not, ◌&&◌, List, [], ◌∷◌, Result,
  ok, err,
}
use cosmosigner.Prelude.Exec.{
  lift, Lands, Leads, bind-leads, if-leads, lift-leads, modify-leads, skip-leads, raise-leads,
}
use cosmosigner.Start.Run.{
  Effect, opens_health, closes_health, opens_backend, closes_backend, opens_store, closes_store,
  sets_ready, prints, serves, waits, blocks, RunError, Run, RunEnv, emit, then_emit, deferring,
  context_end, initialize, serve, with_store, run_with_context, with_backend, blocked, blocking,
  run_start,
}

-- What is open, and whether the replica reports itself ready.
pub record Process : Type 0 where
  pub health : Bool
  pub backend : Bool
  pub store : Bool
  pub ready : Bool

abbrev pub idle : Process
idle = record { health = false; backend = false; store = false; ready = false }

abbrev pub after_effect : Effect → Process → Process
after_effect opens_health p = record p { health = true }
after_effect closes_health p = record p { health = false }
after_effect opens_backend p = record p { backend = true }
after_effect closes_backend p = record p { backend = false }
after_effect opens_store p = record p { store = true }
after_effect closes_store p = record p { store = false }
after_effect (sets_ready b) p = record p { ready = b }
after_effect (prints s) p = p
after_effect serves p = p
after_effect waits p = p
after_effect blocks p = p

abbrev pub after : List Effect → Process
after [] = idle
after (e ∷ t) = after_effect e (after t)

-- Where an effect may happen: what is opened was closed, and the other way round; the store is open within
-- the backend; a replica serves and is ready with both open; it blocks for its health endpoints when both
-- are closed.
abbrev pub may : Effect → Process → Bool
may opens_health p = not p.health && not p.backend && not p.store
may closes_health p = p.health && not p.backend && not p.store
may opens_backend p = not p.backend && not p.store
may closes_backend p = p.backend && not p.store
may opens_store p = p.backend && not p.store
may closes_store p = p.backend && p.store && not p.ready
may (sets_ready true) p = p.backend && p.store && not p.ready
may (sets_ready false) p = p.ready
may (prints s) p = p.backend && p.store && not p.ready
may serves p = p.backend && p.store && p.ready
may waits p = p.store && not p.ready
may blocks p = p.health && not p.backend && not p.store

-- Every effect happened where it may.
abbrev pub IsOrderly : List Effect → Type 0
IsOrderly [] = Unit
IsOrderly (e ∷ t) = (may e (after t) ≡ true) × IsOrderly t

abbrev At : Process → List Effect → Type 0
At p t = IsOrderly t × (after t ≡ p)

-- A method that starts and ends at `p`.
abbrev Stays : Process → Run (Unit {0}) → Type 0
Stays p m = Leads (At p) m (λ u. At p) (At p)

emitted :
    (e : Effect) (p : Process) (t : List Effect)
    → may e p ≡ true
    → At p t
    → At (after_effect e p) (e ∷ t)
emitted e p t h (o, same) =
    ((subst (λ q. may e q ≡ true) (sym same) h, o), ap (after_effect e) same)

emit-leads :
    (e : Effect) (p : Process) (R : List Effect → Type 0)
    → may e p ≡ true
    → Leads (At p) (emit e) (λ u. At (after_effect e p)) R
unfolding emit
emit-leads e p R h = modify-leads _ λ t a. emitted e p t h a

deferring-Leads :
    (e : Effect) (p q : Process) (m : Run (Unit {0}))
    → may e q ≡ true
    → Leads (At p) m (λ u. At q) (At q)
    → Leads (At p) (deferring e m) (λ u. At (after_effect e q)) (At (after_effect e q))
unfolding deferring
deferring-Leads e p q m h l = record { at = λ t a. closed (m t) (l.at t a) }
  where
    closed :
        (x : Result RunError (Unit {0}) × List Effect)
        → Lands (λ u. At q) (At q) x
        → Lands (λ u. At (after_effect e q)) (At (after_effect e q)) (then_emit e x)
    closed (ok u, t) a = emitted e q t h a
    closed (err x, t) a = emitted e q t h a

lift-Stays :
    {A : Type 0} (p : Process) (r : Result RunError A) → Leads (At p) (lift r) (λ u. At p) (At p)
lift-Stays p r = lift-leads r (λ u t a. a) (λ t a. a)

context_end-Stays : (e : RunEnv) (p : Process) → Stays p (context_end e)
unfolding context_end
context_end-Stays e p = lift-Stays p _

abbrev opened : Bool → Process
opened h = record { health = h; backend = true; store = true; ready = false }

initialize-Stays : (h : Bool) (e : RunEnv) (id : Bytes) → Stays (opened h) (initialize e id)
unfolding initialize
initialize-Stays h e id = bind-leads (lift-Stays _ _) λ voters.
    bind-leads
      (bind-leads (bind-leads (lift-Stays _ _) λ u. lift-Stays _ _)
        λ u. emit-leads (prints id) (opened h) _ refl)
      λ u.
        if-leads _ (bind-leads (emit-leads waits (opened h) _ refl) λ u. context_end-Stays e _)
          (skip-leads λ t a. a)

serve-Stays : (h : Bool) (e : RunEnv) → Stays (opened h) (serve e)
unfolding serve
serve-Stays h e =
    bind-leads (bind-leads (bind-leads (lift-Stays _ _) λ u. lift-Stays _ _) λ u. lift-Stays _ _)
      λ nodes. bind-leads (emit-leads (sets_ready true) (opened h) _ refl) λ u.
        deferring-Leads (sets_ready false) ready ready _ refl
          (bind-leads (emit-leads serves ready _ refl) λ u. lift-Stays _ _)
  where
    ready : Process
    ready = record { health = h; backend = true; store = true; ready = true }

with_store-Stays : (h : Bool) (e : RunEnv) → Stays (opened h) (with_store e)
unfolding with_store
with_store-Stays h e =
    bind-leads (lift-Stays _ _)
      λ id. if-leads e.initialize_only (initialize-Stays h e id) (serve-Stays h e)

abbrev with_key : Bool → Process
with_key h = record { health = h; backend = true; store = false; ready = false }

run_with_context-Stays : (h : Bool) (e : RunEnv) → Stays (with_key h) (run_with_context e)
unfolding run_with_context
run_with_context-Stays h e =
    bind-leads (bind-leads (lift-Stays _ _) λ u. emit-leads opens_store (with_key h) _ refl)
      λ u. deferring-Leads closes_store (opened h) (opened h) _ refl (with_store-Stays h e)

abbrev only_health : Bool → Process
only_health h = record { health = h; backend = false; store = false; ready = false }

with_backend-Stays : (h : Bool) (e : RunEnv) → Stays (only_health h) (with_backend e)
unfolding with_backend
with_backend-Stays h e =
    bind-leads (bind-leads (lift-Stays _ _) λ u. emit-leads opens_backend (only_health h) _ refl)
      λ u.
        deferring-Leads closes_backend (with_key h) (with_key h) _ refl
          (bind-leads (lift-Stays _ _) λ u. run_with_context-Stays h e)

blocking-Stays :
    (e : RunEnv) (m : Run (Unit {0}))
    → Stays (only_health true) m
    → Stays (only_health true) (blocking e m)
unfolding blocking
blocking-Stays e m l = record { at = λ t a. ended (m t) (l.at t a) }
  where
    ended :
        (x : Result RunError (Unit {0}) × List Effect)
        → Lands (λ u. At (only_health true)) (At (only_health true)) x
        → Lands (λ u. At (only_health true)) (At (only_health true)) (blocked e x)
    ended (ok u, t) a = a
    ended (err x, t) a =
        (if-leads (e.is_pin_failure x)
            (bind-leads (emit-leads blocks (only_health true) _ refl) λ u. context_end-Stays e _)
            (raise-leads x λ s b. b)).at
          t a

run_start-Stays : (e : RunEnv) → Stays idle (run_start e)
unfolding run_start
run_start-Stays e = if-leads (is_empty e.http_addr) (with_backend-Stays false e) (
    bind-leads (bind-leads (lift-Stays _ _) λ u. emit-leads opens_health idle _ refl) λ u.
      deferring-Leads closes_health (only_health true) (only_health true) _ refl
        (blocking-Stays e _ (with_backend-Stays true e)))

left-At :
    (p : Process) (x : Result RunError (Unit {0}) × List Effect)
    → Lands (λ u. At p) (At p) x
    → At p x.1
left-At p (ok u, t) a = a
left-At p (err x, t) a = a

-- Whatever a start meets, its effects are in order: the store is open only within the backend, the replica
-- serves and is ready only with both open, a start blocked by a PIN failure has closed both and keeps its
-- health endpoints; and in the end all that was opened is closed, and the replica is not ready.
pub run_start-IsOrderly :
    (e : RunEnv) → IsOrderly (run_start e []).1 × (after (run_start e []).1 ≡ idle)
run_start-IsOrderly e = left-At idle (run_start e []) ((run_start-Stays e).at [] (tt, refl))
