-- ===== src/Start/Tests.antt =====
-- Starts of cmd/cosmosigner/cmd/start.go.
use cosmosigner.Prelude.{
  ◌≡◌, refl, ◌⊎◌, inl, inr, Bytes, codes, bytes_eq, true, false, none, some, List, [], ◌∷◌, ok, err,
}
use cosmosigner.ClusterId
use cosmosigner.Backend.{unclaimed, mismatch, require_cluster_binding}
use cosmosigner.Backend.Addressing.{trim_left, reverse_onto, trim, is_space}
use cosmosigner.Config.{Member}
use cosmosigner.Start.{
  StartEnv, binding, has_failed, finish, try_claim, prepare_with, prepare_named, prepare_startup,
  cut, parse_member, parse_members,
}
use cosmosigner.Prelude.Exec.{lift, modify, skip, raise, ◌>>=◌}
use cosmosigner.Server.Nodes.{build_node_source}
use cosmosigner.Start.Run.{
  opens_health, closes_health, opens_backend, closes_backend, opens_store, closes_store, sets_ready,
  prints, serves, waits, blocks, RunEnv, emit, deferring, verify_expected_public_key, context_end,
  initialize, serve, with_store, run_with_context, with_backend, blocking, run_start,
}
use cosmosigner.Start.Orderly.{IsOrderly, after, idle, run_start-IsOrderly}
use cosmosigner.Start.Earned.{IsPrepared, ready-IsEarned}
use cosmosigner.Start.Prepared.{prepare_startup-Rests, claims_unowned}

machine : Unit {0}
unfolding bytes_eq ClusterId.validate ClusterId.is_hex require_cluster_binding trim_left
    reverse_onto trim is_space finish try_claim prepare_with prepare_named prepare_startup cut
    parse_member parse_members
machine = tt

abbrev id : Bytes
id = codes "00112233-4455-4677-8899-aabbccddeeff"

abbrev stranger : Bytes
stranger = codes "10112233-4455-4677-8899-aabbccddeeff"

-- An unclaimed key, which the start claims and then reads.
abbrev fresh_key : StartEnv
fresh_key = record {
  cluster_id = some id;
  first_binding = err unclaimed;
  claim = some (ok tt);
  second_binding = ok id;
  preflight = some true;
  is_done = false;
  renewal = none;
}

owned_elsewhere :
    prepare_startup (record fresh_key { first_binding = ok stranger }) false
    ≡ (err (binding mismatch), false)
unfolding machine
owned_elsewhere = refl

prepare_startup-Rests_example :
    (some id ≡ some id)
    × (((fresh_key.first_binding ≡ ok id) × ((prepare_startup fresh_key false).1 ≡ false))
        ⊎ ((fresh_key.second_binding ≡ ok id)
            × (fresh_key.claim ≡ some (ok tt))
            × ((prepare_startup fresh_key false).1 ≡ true)))
    × ((has_failed fresh_key.preflight ≡ false)
        × (fresh_key.is_done ≡ false)
        × (has_failed fresh_key.renewal ≡ false))
unfolding machine
prepare_startup-Rests_example = prepare_startup-Rests fresh_key id refl

claims_unowned_example : (false ≡ false) × (fresh_key.first_binding ≡ err unclaimed)
unfolding machine
claims_unowned_example = claims_unowned fresh_key false refl

abbrev flags : List Bytes
flags = codes " n1 = a:1 " ∷ codes "n2=b=c" ∷ []

abbrev members : List Member
members =
    record { id = codes "n1"; address = codes "a:1" }
    ∷ record { id = codes "n2"; address = codes "b=c" }
    ∷ []

parsed : parse_members flags ≡ some members
unfolding machine
parsed = refl

no_address : parse_members (codes "n1=" ∷ []) ≡ none
unfolding machine
no_address = refl

start_run : Unit {0}
unfolding machine build_node_source lift modify skip raise ◌>>=◌ emit deferring
    verify_expected_public_key context_end initialize serve with_store run_with_context with_backend
    blocking run_start
start_run = tt

abbrev env : RunEnv
env = record {
  http_addr = codes ":8080";
  health_fails = false;
  backend_fails = false;
  expected_public_key = [];
  public_key = some (codes "key");
  store_fails = false;
  start_env = fresh_key;
  initialize_only = false;
  voters = some 3;
  output_fails = false;
  signer_fails = false;
  conn_key_fails = false;
  node_service = [];
  node_addrs = codes "node:1" ∷ [];
  lifecycle_fails = false;
  is_pin_failure = λ e. false;
  signalled = true;
}

serving : run_start env [] ≡ (
  ok tt,
  closes_health
      ∷ closes_backend
      ∷ closes_store
      ∷ sets_ready false
      ∷ serves
      ∷ sets_ready true
      ∷ opens_store
      ∷ opens_backend
      ∷ opens_health
      ∷ [],
)
unfolding start_run
serving = refl

-- The first voter of three prints the identity and stays for the others.
initializing :
    run_start (record env { http_addr = []; initialize_only = true }) []
    ≡ (ok tt, closes_backend ∷ closes_store ∷ waits ∷ prints id ∷ opens_store ∷ opens_backend ∷ [])
unfolding start_run
initializing = refl

-- The PIN of the token was refused while the backend was built.
abbrev locked : RunEnv
locked = record env { backend_fails = true; is_pin_failure = λ e. true }

stays_for_probes : run_start locked [] ≡ (ok tt, closes_health ∷ blocks ∷ opens_health ∷ [])
unfolding start_run
stays_for_probes = refl

run_start-IsOrderly_example :
    IsOrderly (run_start locked []).1 × (after (run_start locked []).1 ≡ idle)
run_start-IsOrderly_example = run_start-IsOrderly locked

ready-IsEarned_example : IsPrepared env
unfolding start_run
ready-IsEarned_example =
    ready-IsEarned env (sets_ready true) (inr (inr (inr (inr (inr (inl refl))))))
