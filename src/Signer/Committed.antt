-- ===== src/Signer/Committed.antt =====
-- What one request does, and what a signature that it returns stands for
-- (internal/signer/privval.go, gatedSign).
use cosmosigner.Prelude.{
  ◌≡◌, refl, sym, ◌∙◌, subst, inl, inr, Bytes, is_empty, true, false, not, ◌&&◌, none, some, Result,
  ok, err, arith, Result-cases, Option-cases, Bool-cases,
}
use cosmosigner.Prelude.Assoc.{lookup}
use cosmosigner.State.{Time, SignState, ReserveResult, Command, reserve, Codec}
use cosmosigner.State.Hrs.{hrs}
use cosmosigner.State.Fsm.{Fsm}
use cosmosigner.State.Fsm.Marks.{asked}
use cosmosigner.State.Fsm.Grants.{reserve_leaves, commit_leaves}
use cosmosigner.State.RaftStore.{StoreError, commit_command, reserve_with, commit_with}
use cosmosigner.State.RaftStore.Accepted.{RoundTrips, reserve-ok, commit-ok}
use cosmosigner.Signer.{
  World, Env, SignError, refused, commit_failed, Action, continue, wrapped, call_reserve,
  call_commit, call_sign, sign_reserved, answer_reserved, gated, backend,
}

abbrev pub commit_of : Command → Bytes → Bytes → Command
commit_of c payload signature = commit_command c.chain_id c.height c.round c.step payload signature

-- Both entries of the request survive their JSON.
pub record Encodable (x : Codec) (c : Command) : Type 0 where
  pub reserve_law : RoundTrips x c
  pub commit_law : (payload signature : Bytes) → RoundTrips x (commit_of c payload signature)

pub continue-ok :
    {A B : Type 0} (r : Result SignError A) (k : A → Action B) (w : World) (b : B)
    → (continue r k w).0 ≡ ok b
    → (a : A) × (r ≡ ok a) × ((k a w).0 ≡ ok b) × ((continue r k w).1 ≡ (k a w).1)
continue-ok (ok a) k w b h = (a, refl, h, refl)
continue-ok (err e) k w b h = cc h

wrapped-ok :
    {A : Type 0} (e : StoreError → SignError) (r : Result StoreError A) (a : A)
    → wrapped e r ≡ ok a
    → r ≡ ok a
wrapped-ok e (ok b) a h = ground arith
wrapped-ok e (err s) a h = cc h

module _ (x : Codec) (env : Env) (c : Command) where
  -- A signature at its place in the chain's history: the mark stands there, and holds it.
  abbrev pub Stands : Bytes → Fsm → Type 0
  Stands signature f =
      (m : SignState) × (lookup c.chain_id f.state ≡ some m)
      × (hrs m ≡ asked c)
      × (m.signature ≡ signature)

  pub reused :
      (res : ReserveResult) (w : World) (sig : Bytes) (ts : Time)
      → (res.reuse && not (is_empty res.signature)) ≡ true
      → (answer_reserved x env c res w).0 ≡ ok (sig, ts)
      → (sig ≡ res.signature) × ((answer_reserved x env c res w).1 ≡ w)
  unfolding answer_reserved
  reused res w sig ts e h = ground arith

  pub signs :
      (res : ReserveResult) (w : World)
      → (res.reuse && not (is_empty res.signature)) ≡ false
      → answer_reserved x env c res w ≡ sign_reserved x env c res w
  unfolding answer_reserved
  signs res w e = rw e

  abbrev pub committing : ReserveResult → Bytes → World → Result StoreError (Unit {0}) × Fsm
  committing res sig w = commit_with x env.commit (commit_of c res.sign_bytes sig) w.fsm

  unsigned :
      (res : ReserveResult) (w : World)
      → env.sign res.sign_bytes ≡ none
      → (sign_reserved x env c res w).0 ≡ err backend
  unfolding sign_reserved call_sign
  unsigned res w e = rw (e, sign_reserved, call_sign)

  signed_failed :
      (res : ReserveResult) (w : World) (sig : Bytes) (e : StoreError)
      → env.sign res.sign_bytes ≡ some sig
      → (committing res sig w).0 ≡ err e
      → (sign_reserved x env c res w).0 ≡ err (commit_failed e)
  unfolding sign_reserved call_sign call_commit
  signed_failed res w sig e p q = rw (p, sign_reserved, call_sign) (rw q)

  signed_committed :
      (res : ReserveResult) (w : World) (sig : Bytes)
      → env.sign res.sign_bytes ≡ some sig
      → (committing res sig w).0 ≡ ok tt
      → ((sign_reserved x env c res w).0 ≡ ok (sig, res.timestamp))
        × ((sign_reserved x env c res w).1.fsm ≡ (committing res sig w).1)
  unfolding sign_reserved call_sign call_commit
  signed_committed res w sig p q = rw (p, sign_reserved, call_sign) (rw q (refl, refl))

  module _ (law : Encodable x c) where
    -- A payload that is signed and committed: the mark holds the signature afterwards.
    sign_reserved-Stands :
        (res : ReserveResult) (w : World) (sig : Bytes) (ts : Time)
        → (sign_reserved x env c res w).0 ≡ ok (sig, ts)
        → Stands sig (sign_reserved x env c res w).1.fsm
    sign_reserved-Stands res w sig ts h = elim (Option-cases (env.sign res.sign_bytes)) [
      | inl e ↦ cc (h, unsigned res w e)
      | inr (s, e) ↦ elim (Result-cases (committing res s w).0) [
        | inr (q, p) ↦ cc (h, signed_failed res w s q e p)
        | inl (u, p) ↦
            let (told, state) = signed_committed res w s e p in
            let same : s ≡ sig = cc (h, told) in
            let (after, good) =
              commit-ok x (commit_of c res.sign_bytes s) w.fsm (law.commit_law res.sign_bytes s)
                env.commit p in
            let (m, at, place, bytes, held) =
              commit_leaves x (commit_of c res.sign_bytes s) w.fsm refl good in
            subst (Stands sig) (sym (state ∙ after)) (m, at, place, held ∙ same)
      ]
    ]

    answer_reserved-Stands :
        (res : ReserveResult) (w : World) (sig : Bytes) (ts : Time)
        → (res.reuse ≡ true → Stands res.signature w.fsm)
        → (answer_reserved x env c res w).0 ≡ ok (sig, ts)
        → Stands sig (answer_reserved x env c res w).1.fsm
    answer_reserved-Stands res w sig ts old h =
        elim (Bool-cases (res.reuse && not (is_empty res.signature))) [
          | inl e ↦
              let (same, state) = reused res w sig ts e h in rw (state, same) (old (ground arith))
          | inr e ↦ rw (signs res w e) (sign_reserved-Stands res w sig ts (rw (signs res w e) at h))
        ]

    pub reserve_failed :
        (w : World) (e : StoreError)
        → (reserve_with x env.reserve c w.fsm).0 ≡ err e
        → (gated x env c w).0 ≡ err (refused e)
    unfolding gated call_reserve
    reserve_failed w e p = rw (p, gated, call_reserve)

    pub reserve_succeeded :
        (w : World) (res : ReserveResult)
        → (reserve_with x env.reserve c w.fsm).0 ≡ ok res
        → gated x env c w
          ≡ answer_reserved x env c res (record w { fsm = (reserve_with x env.reserve c w.fsm).1 })
    unfolding gated call_reserve
    reserve_succeeded w res p = rw (p, gated, call_reserve)

    -- Every signature that a request returns is, when it returns, the committed signature of its
    -- height, round and step: the chain's mark stands there and holds it.
    pub gated-Stands :
        (w : World) (sig : Bytes) (ts : Time)
        → c.op ≡ reserve
        → (gated x env c w).0 ≡ ok (sig, ts)
        → Stands sig (gated x env c w).1.fsm
    gated-Stands w sig ts op h = elim (Result-cases (reserve_with x env.reserve c w.fsm).0) [
      | inr (e, p) ↦ cc (h, reserve_failed w e p)
      | inl (res, p) ↦
          let (after, good, told) = reserve-ok x c w.fsm law.reserve_law env.reserve res p in
          let (m, at, place, answer) = reserve_leaves x c w.fsm op good in
          let old : res.reuse ≡ true → Stands res.signature (reserve_with x env.reserve c w.fsm).1 =
            λ r. rw after (m, at, place, ground arith) in
          rw (reserve_succeeded w res p) (
            answer_reserved-Stands res (record w { fsm = (reserve_with x env.reserve c w.fsm).1 })
              sig ts old (rw (reserve_succeeded w res p) at h))
    ]
