-- ===== src/State/Fsm/Identity.antt =====
-- The cluster identity of the state machine (internal/state/fsm.go, applyInitCluster).
use cosmosigner.Prelude.{
  ◌≡◌, refl, ◌⊎◌, inl, inr, ◌≢◌, Bytes, is_empty, Option, none, some, List, [], ◌∷◌, arith, ok,
  Result-cases, Option-cases, if◌then◌else◌, ◌∙◌, sym,
}
use cosmosigner.Prelude.Assoc.{lookup}
use cosmosigner.ClusterId
use cosmosigner.State.{SignState, Op, reserve, commit, init_cluster, unknown, Command, Codec}
use cosmosigner.State.Fsm.{
  Fsm, apply_init_cluster, reserve_against, apply_reserve, commit_against, apply_commit,
  apply_command, dispatch, apply, replay,
}
use cosmosigner.State.Fsm.Evolution.{apply_decoded}
use cosmosigner.State.Fsm.Marks.{empty_cases}

-- The machine has no identity yet, or a valid one.
abbrev pub IsIdentified : Fsm → Type 0
IsIdentified f = (f.cluster_id ≡ []) ⊎ (ClusterId.validate f.cluster_id ≡ ok tt)

abbrev Keeps : Fsm → Fsm → Type 0
Keeps f g = (f.cluster_id ≢ [] → g.cluster_id ≡ f.cluster_id) × (IsIdentified f → IsIdentified g)

Keeps-same : (f g : Fsm) → g.cluster_id ≡ f.cluster_id → Keeps f g
Keeps-same f g e = (λ _. e, λ h. rw e h)

validate_nonempty : (id : Bytes) → ClusterId.validate id ≡ ok tt → id ≢ []
unfolding ClusterId.validate
validate_nonempty [] h e = cc h
validate_nonempty (b ∷ bs) h e = cc e

module _ (x : Codec) (c : Command) (f : Fsm) where
  init_ok :
      ClusterId.validate c.cluster_id ≡ ok tt
      → ((apply_init_cluster c f).0.cluster_id
          ≡ (if is_empty f.cluster_id then c.cluster_id else f.cluster_id))
        × ((apply_init_cluster c f).1.cluster_id ≡ (apply_init_cluster c f).0.cluster_id)
        × ((apply_init_cluster c f).1.error ≡ none)
        × ((apply_init_cluster c f).0.state ≡ f.state)
  unfolding apply_init_cluster
  init_ok e = rw (e, apply_init_cluster) (refl, refl, refl, refl)

  against_id : (o : Option SignState) → (reserve_against x c f o).0.cluster_id ≡ f.cluster_id
  unfolding reserve_against
  against_id none = refl
  against_id (some m) = ground arith

  commit_id : (o : Option SignState) → (commit_against c f o).0.cluster_id ≡ f.cluster_id
  unfolding commit_against
  commit_id none = refl
  commit_id (some m) = ground arith

  init-Keeps : Keeps f (apply_init_cluster c f).0
  init-Keeps = elim (Result-cases (ClusterId.validate c.cluster_id)) [
    | inr (e, p) ↦ unfold apply_init_cluster in rw (p, apply_init_cluster) (Keeps-same f f refl)
    | inl (u, p) ↦ elim (empty_cases f.cluster_id) [
      | inl (b, e) ↦ (λ n. absurd (n e), λ _. inr (rw ((init_ok p).0, b) p))
      | inr (b, n) ↦ Keeps-same f (apply_init_cluster c f).0 ((init_ok p).0 ∙ (rw b))
    ]
  ]

dispatch-Keeps : (x : Codec) (op : Op) (c : Command) (f : Fsm) → Keeps f (dispatch x op c f).0
unfolding dispatch apply_reserve apply_commit
dispatch-Keeps x reserve c f =
    Keeps-same f (apply_reserve x c f).0 (against_id x c f (lookup c.chain_id f.state))
dispatch-Keeps x commit c f =
    Keeps-same f (apply_commit c f).0 (commit_id x c f (lookup c.chain_id f.state))
dispatch-Keeps x init_cluster c f = init-Keeps x c f
dispatch-Keeps x (unknown op) c f = Keeps-same f f refl

apply-Keeps : (x : Codec) (log_data : Bytes) (f : Fsm) → Keeps f (apply x log_data f).0
unfolding apply_command
apply-Keeps x log_data f = elim (Option-cases (x.unmarshal_command log_data)) [
  | inl e ↦ unfold apply in rw (e, apply) (Keeps-same f f refl)
  | inr (c, e) ↦ rw (apply_decoded x log_data c f e) (dispatch-Keeps x c.op c f)
]

replay-Keeps : (x : Codec) (log : List Bytes) (f : Fsm) → Keeps f (replay x log f)
unfolding replay
replay-Keeps x [] f = Keeps-same f f refl
replay-Keeps x (log_data ∷ rest) f =
    let now = apply-Keeps x log_data f in
    let later = replay-Keeps x rest (apply x log_data f).0 in
    (λ n. later.0 (λ e. n (sym (now.0 n) ∙ e)) ∙ now.0 n, λ h. later.1 (now.1 h))

-- Whatever entries the log holds, an identity that the machine has is never changed.
pub replay_identity :
    (x : Codec) (log : List Bytes) (f : Fsm)
    → f.cluster_id ≢ []
    → (replay x log f).cluster_id ≡ f.cluster_id
replay_identity x log f = (replay-Keeps x log f).0

-- Whatever entries the log holds, a machine without an identity or with a valid one ends without an
-- identity or with a valid one.
pub replay-IsIdentified :
    (x : Codec) (log : List Bytes) (f : Fsm) → IsIdentified f → IsIdentified (replay x log f)
replay-IsIdentified x log f = (replay-Keeps x log f).1

module _ (x : Codec) (c : Command) (f : Fsm) where
  pub apply_command-init : c.op ≡ init_cluster → apply_command x c f ≡ apply_init_cluster c f
  unfolding apply_command
  apply_command-init e = rw (e, dispatch)

  accepted_valid : (apply_init_cluster c f).1.error ≡ none → ClusterId.validate c.cluster_id ≡ ok tt
  unfolding apply_init_cluster
  accepted_valid h = ground arith

  pub init_answer :
      (apply_init_cluster c f).1.error ≡ none
      → ((apply_init_cluster c f).0.cluster_id ≢ [])
        × ((apply_init_cluster c f).1.cluster_id ≡ (apply_init_cluster c f).0.cluster_id)
  init_answer h =
      let valid : ClusterId.validate c.cluster_id ≡ ok tt = accepted_valid h in
      elim (empty_cases f.cluster_id) [
        | inl (b, e) ↦ (
          λ p. validate_nonempty c.cluster_id valid (sym ((init_ok x c f valid).0 ∙ (rw b)) ∙ p),
          (init_ok x c f valid).1,
        )
        | inr (b, n) ↦
            (λ p. n (sym ((init_ok x c f valid).0 ∙ (rw b)) ∙ p), (init_ok x c f valid).1)
      ]

-- All accepted InitCluster entries of one log are answered with one identity, whatever the
-- identities that they propose and whatever entries stand between them.
pub one_identity :
    (x : Codec) (c d : Command) (log : List Bytes) (f : Fsm)
    → c.op ≡ init_cluster
    → d.op ≡ init_cluster
    → (apply_command x c f).1.error ≡ none
    → (apply_command x d (replay x log (apply_command x c f).0)).1.error ≡ none
    → (apply_command x d (replay x log (apply_command x c f).0)).1.cluster_id
      ≡ (apply_command x c f).1.cluster_id
one_identity x c d log f op op' =
    rw
      (
        apply_command-init x c f op,
        apply_command-init x d (replay x log (apply_init_cluster c f).0) op',
      )
      go
  where
    after : Fsm
    after = (apply_init_cluster c f).0

    go :
        (apply_init_cluster c f).1.error ≡ none
        → (apply_init_cluster d (replay x log after)).1.error ≡ none
        → (apply_init_cluster d (replay x log after)).1.cluster_id
          ≡ (apply_init_cluster c f).1.cluster_id
    go h h' =
        let (full, told) = init_answer x c f h in
        let (full', told') = init_answer x d (replay x log after) h' in
        let kept : (replay x log after).cluster_id ≡ after.cluster_id =
          (replay-Keeps x log after).0 full in
        told' ∙ (init-Keeps x d (replay x log after)).0 (λ e. full (sym kept ∙ e)) ∙ kept ∙ sym told
