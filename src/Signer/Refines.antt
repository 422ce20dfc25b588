-- ===== src/Signer/Refines.antt =====
-- One request of internal/signer/privval.go is a run of the cluster's steps.
use mathlib.Core.Path.{fun_ext}
use cosmosigner.Prelude.{
  ℕ, ◌≡◌, refl, sym, ap, subst, inl, inr, Bytes, is_empty, true, false, not, ◌&&◌, none, some, List,
  [], ◌∷◌, err, arith, Result-cases, Option-cases, Bool-cases, ◌==◌, In,
}
use cosmosigner.State.{ReserveResult, Command, reserve, Codec}
use cosmosigner.State.Fsm.{Fsm, apply_command}
use cosmosigner.State.Fsm.Marks.{empty_cases}
use cosmosigner.State.Fsm.Grants.{Grants, SamePlace, reserve_leaves}
use cosmosigner.State.RaftStore.{StoreError, reserve_with}
use cosmosigner.State.RaftStore.Accepted.{
  Touches, result_of, reserve-Touches, reserve-ok, commit-Touches,
}
use cosmosigner.Signer.{
  Grant, World, Env, call_reserve, call_commit, call_sign, sign_reserved, answer_reserved, gated,
}
use cosmosigner.Signer.Cluster.{
  Phase, idle, holds, Cluster, update, after, logged, granted, hands, Reach, here, next,
}
use cosmosigner.Signer.Committed.{Encodable, commit_of, committing, signs, reserve_succeeded}
use cosmosigner.Signer.Safety.{no_double_sign}

-- The world between requests, as a cluster.
abbrev pub at_rest : World → Cluster
at_rest w = record { fsm = w.fsm; threads = λ _. idle; handed = w.handed }

idle_again : (p : Phase) → update (update (λ _. idle) 0 p) 0 idle ≡ (λ _. idle)
idle_again p = fun_ext (λ u. elim (Bool-cases (0 == u)) [ inl e ↦ rw e | inr e ↦ rw e ])

Reach-trans : (x : Codec) {a b c : Cluster} → Reach x a b → Reach x b c → Reach x a c
Reach-trans x r here = r
Reach-trans x r (next q st) = next (Reach-trans x r q) st

module _ (x : Codec) (env : Env) (c : Command) where
  touched :
      (d : Command) (w : World) (g : Fsm)
      → Touches x d w.fsm g
      → Reach x (at_rest w) (at_rest (record w { fsm = g }))
  touched d w g (inl e) =
      subst (λ (f : Fsm). Reach x (at_rest w) (at_rest (record w { fsm = f }))) (sym e) here
  touched d w g (inr e) = next here (logged d (ap (λ (f : Fsm). at_rest (record w { fsm = f })) e))

  abbrev handing : ReserveResult → World → World
  handing res w = record w { handed = record { request = c; payload = res.sign_bytes } ∷ w.handed }

  failed_world :
      (res : ReserveResult) (w : World)
      → env.sign res.sign_bytes ≡ none
      → (sign_reserved x env c res w).1 ≡ handing res w
  unfolding sign_reserved call_sign
  failed_world res w e = rw (e, sign_reserved, call_sign)

  committed_world :
      (res : ReserveResult) (w : World) (sig : Bytes)
      → env.sign res.sign_bytes ≡ some sig
      → (sign_reserved x env c res w).1
        ≡ record (handing res w) { fsm = (committing x env c res sig w).1 }
  unfolding sign_reserved call_sign call_commit
  committed_world res w sig e =
      rw (e, sign_reserved, call_sign)
        (ground (arith, Result-cases (committing x env c res sig w).0))

  module _ (law : Encodable x c) where
    after_handing :
        (res : ReserveResult) (w : World)
        → Reach x (at_rest (handing res w)) (at_rest (sign_reserved x env c res w).1)
    after_handing res w = elim (Option-cases (env.sign res.sign_bytes)) [
      | inl e ↦ rw (failed_world res w e) here
      | inr (sig, e) ↦ rw (committed_world res w sig e) (
          touched (commit_of c res.sign_bytes sig) (handing res w) _ (
            commit-Touches x (commit_of c res.sign_bytes sig) w.fsm
              (law.commit_law res.sign_bytes sig) env.commit))
    ]

    abbrev reserving : World → World
    reserving w = record w { fsm = after x c w.fsm }

    handed_over :
        (res : ReserveResult) (w : World)
        → Grants x c w.fsm res.sign_bytes
        → Reach x (at_rest w) (at_rest (handing res (reserving w)))
    handed_over res w given =
        let g : Grant = record { request = c; payload = res.sign_bytes } in
        next (next here (granted 0 g refl given refl)) (
          hands 0 g refl (
            ap
              (λ (threads : ℕ → Phase).
                let s : Cluster = record {
                  fsm = after x c w.fsm;
                  threads = threads;
                  handed = g ∷ w.handed;
                } in
                s)
              (sym (idle_again (holds g)))))

    refused_world :
        (w : World) (e : StoreError)
        → (reserve_with x env.reserve c w.fsm).0 ≡ err e
        → (gated x env c w).1 ≡ record w { fsm = (reserve_with x env.reserve c w.fsm).1 }
    unfolding gated call_reserve
    refused_world w e p = rw (p, gated, call_reserve)

    reused_world :
        (res : ReserveResult) (w : World)
        → (res.reuse && not (is_empty res.signature)) ≡ true
        → (answer_reserved x env c res w).1 ≡ w
    unfolding answer_reserved
    reused_world res w e = rw e

    -- What the Reserve answered, when its caller has to sign.
    answer-Grants :
        (w : World) (res : ReserveResult)
        → c.op ≡ reserve
        → (apply_command x c w.fsm).1.error ≡ none
        → res ≡ result_of (apply_command x c w.fsm).1
        → (res.reuse && not (is_empty res.signature)) ≡ false
        → Grants x c w.fsm res.sign_bytes
    answer-Grants w res op good told e =
        let (m, at, place, answer) = reserve_leaves x c w.fsm op good in
        (op, good, ground (arith, empty_cases res.signature), ground arith)

    -- One request, whatever Raft and the backend do during it, is a run of the cluster's steps.
    pub gated-Reach :
        (w : World) → c.op ≡ reserve → Reach x (at_rest w) (at_rest (gated x env c w).1)
    gated-Reach w op = elim (Result-cases (reserve_with x env.reserve c w.fsm).0) [
      | inr (e, p) ↦
          rw (refused_world w e p)
            (touched c w _ (reserve-Touches x c w.fsm law.reserve_law env.reserve))
      | inl (res, p) ↦
          let (now, good, told) = reserve-ok x c w.fsm law.reserve_law env.reserve res p in
          rw (reserve_succeeded x env c law w res p, now)
            (elim (Bool-cases (res.reuse && not (is_empty res.signature))) [
              | inl e ↦ rw (reused_world res (reserving w) e) (next here (logged c refl))
              | inr e ↦ rw (signs x env c res (reserving w) e) (
                  Reach-trans x (handed_over res w (answer-Grants w res op good told e))
                    (after_handing res (reserving w)))
            ])
    ]

-- Requests that are served one after another, each in its own environment.
unfoldable pub serve : Codec → List (Env × Command) → World → World
serve x [] w = w
serve x ((env, c) ∷ rest) w = serve x rest (gated x env c w).1

abbrev pub Served : Codec → List (Env × Command) → Type 0
Served x [] = Unit
Served x ((env, c) ∷ rest) = (c.op ≡ reserve) × Encodable x c × Served x rest

pub serve-Reach :
    (x : Codec) (requests : List (Env × Command)) (w : World)
    → Served x requests
    → Reach x (at_rest w) (at_rest (serve x requests w))
unfolding serve
serve-Reach x [] w h = here
serve-Reach x ((env, c) ∷ rest) w h =
    Reach-trans x (gated-Reach x env c h.1 w h.0) (serve-Reach x rest (gated x env c w).1 h.2)

abbrev pub starting : Fsm → World
starting f = record { fsm = f; handed = []; extensions = [] }

-- Over any list of requests, with any failures of Raft and of the backend, two payloads that are
-- handed to the key for one chain, height, round and step are the same bytes.
pub serve_no_double_sign :
    (x : Codec) (requests : List (Env × Command)) (f : Fsm) (a b : Grant)
    → Served x requests
    → In a (serve x requests (starting f)).handed
    → In b (serve x requests (starting f)).handed
    → SamePlace a.request b.request
    → a.payload ≡ b.payload
serve_no_double_sign x requests f a b h =
    no_double_sign x f (at_rest (serve x requests (starting f))) a b
      (serve-Reach x requests (starting f) h)
