-- ===== src/State/Fsm/Tests.antt =====
-- Runs of the state machine of internal/state/fsm.go on small logs.
use cosmosigner.Prelude.{◌≡◌, refl, Bytes, bytes_eq, [], ◌∷◌}
use cosmosigner.Prelude.Assoc.{lookup, insert}
use cosmosigner.ClusterId
use cosmosigner.State.{conflict, regression}
use cosmosigner.State.Hrs.{compare_hrs}
use cosmosigner.State.Fsm.{
  Fsm, apply_command, apply_reserve, reserve_against, reserve_again, apply_commit, commit_against,
  apply_init_cluster, apply, replay, fail, only_differs_by_timestamp, differs_by_timestamp,
}
use cosmosigner.State.Fsm.Evolution.{Evolves, replay-Evolves}
use cosmosigner.State.Fsm.Grants.{one_payload, commit_then_reuse, Reuses}
use cosmosigner.State.Fsm.Granted.{commit_of_granted, HasGrant}
use cosmosigner.State.Fsm.Identity.{one_identity}
use cosmosigner.State.Sample.{
  codec, chain, prevote, retimed, other, precommit, committed, claimed, claimed_again, blank,
  logged,
}

-- What a run on concrete data computes through.
machine : Unit {0}
unfolding apply_command apply_reserve reserve_against reserve_again apply_commit commit_against
    apply_init_cluster apply replay only_differs_by_timestamp differs_by_timestamp insert lookup
    compare_hrs bytes_eq ClusterId.validate ClusterId.is_hex
machine = tt

abbrev after_prevote : Fsm
after_prevote = (apply_command codec prevote blank).0

-- The mark after a prevote and its signature.
abbrev signed : Fsm
signed = (apply_command codec committed after_prevote).0

conflict_refused : (apply_command codec other after_prevote).1 ≡ fail conflict
unfolding machine
conflict_refused = refl

regression_refused :
    (apply_command codec prevote (apply_command codec precommit after_prevote).0).1
    ≡ fail regression
unfolding machine
regression_refused = refl

one_payload_example : ◌≡◌ {A = Bytes} (7 ∷ 1 ∷ 2 ∷ []) (7 ∷ 1 ∷ 2 ∷ [])
unfolding machine
one_payload_example =
    one_payload codec prevote retimed [] blank (7 ∷ 1 ∷ 2 ∷ []) (7 ∷ 1 ∷ 2 ∷ []) (refl, refl)
      (refl, refl, refl, refl) (refl, refl, refl, refl)

commit_then_reuse_example : Reuses codec retimed signed (4 ∷ 4 ∷ [])
unfolding machine
commit_then_reuse_example =
    commit_then_reuse codec committed retimed [] after_prevote (refl, refl) (λ e. cc e) (refl, refl)
      refl refl

commit_of_granted_example : HasGrant codec (logged prevote ∷ []) blank committed
unfolding machine
commit_of_granted_example =
    commit_of_granted codec committed (logged prevote ∷ []) blank refl (refl, refl)

replay-Evolves_example :
    Evolves
      (lookup chain after_prevote.state)
      (lookup chain (replay codec (logged precommit ∷ (9 ∷ []) ∷ []) after_prevote).state)
replay-Evolves_example = replay-Evolves codec (logged precommit ∷ (9 ∷ []) ∷ []) after_prevote chain

abbrev identified : Fsm
identified = (apply_command codec claimed blank).0

one_identity_example :
    (apply_command codec claimed_again (replay codec [] identified)).1.cluster_id
    ≡ (apply_command codec claimed blank).1.cluster_id
unfolding machine
one_identity_example = one_identity codec claimed claimed_again [] blank refl refl refl refl
