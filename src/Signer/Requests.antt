-- ===== src/Signer/Requests.antt =====
-- SignVote and SignProposal of internal/signer/privval.go.
use cosmosigner.Prelude.{
  ◌≡◌, refl, ap, ◌∙◌, ◌⊎◌, inl, inr, ◌≢◌, Bytes, true, false, Option, none, some, [], Result, ok,
  err, arith, Option-cases, Bool-cases, Result-cases,
}
use cosmosigner.Prelude.Int.{ℤ}
use cosmosigner.State.{Time, Command, Codec, step_propose}
use cosmosigner.State.Fsm.{Fsm}
use cosmosigner.State.Fsm.Marks.{empty_cases}
use cosmosigner.State.RaftStore.{reserve_command}
use cosmosigner.Signer.{
  World, Env, SignError, nil_request, unknown_vote_type, unexpected_extension, invalid_request,
  Vote, Proposal, Canonical, continue, is_non_nil_precommit, vote_to_step, extend_vote, finish_vote,
  gate_vote, gated, sign_present_vote, sign_vote, sign_present_proposal, sign_proposal,
  sign_extension, call_sign_extension,
}
use cosmosigner.Signer.Committed.{Encodable, Stands, gated-Stands, continue-ok}

module _ (x : Codec) (n : Canonical) (env : Env) (chain_id : Bytes) where
  -- Why a vote is refused before anything is reserved.
  data Refusal : Option Vote → SignError → Type 0 where
    absent : Refusal none nil_request
    odd_type :
        {v : Vote}
        → vote_to_step v.vote_type ≡ err unknown_vote_type
        → Refusal (some v) unknown_vote_type
    odd_extension :
        {v : Vote} (step : ℤ)
        → vote_to_step v.vote_type ≡ ok step
        → v.extension ≢ []
        → is_non_nil_precommit n v ≡ false
        → Refusal (some v) unexpected_extension
    malformed :
        {v : Vote} (step : ℤ)
        → vote_to_step v.vote_type ≡ ok step
        → (v.extension ≡ []) ⊎ (is_non_nil_precommit n v ≡ true)
        → n.vote_sign_bytes chain_id v ≡ none
        → Refusal (some v) invalid_request

  pub typed :
      (v : Vote) (step : ℤ) (w : World)
      → vote_to_step v.vote_type ≡ ok step
      → (v.extension ≡ []) ⊎ (is_non_nil_precommit n v ≡ true)
      → sign_present_vote x n env chain_id v w ≡ gate_vote x n env chain_id v step w
  unfolding sign_present_vote
  typed v step w e (inl p) = rw (e, p)
  typed v step w e (inr p) = rw (e, p) (ground arith)

  -- A refusal leaves everything as it is.
  refused :
      (v : Option Vote) (e : SignError) (w : World)
      → Refusal v e
      → sign_vote x n env chain_id v w ≡ (err e, w)
  unfolding sign_vote
  refused none e w absent = refl
  refused (some v) e w (odd_type p) = unfold sign_present_vote in rw (p, sign_present_vote)
  refused (some v) e w (odd_extension step p full q) =
      unfold sign_present_vote in
      rw (p, sign_present_vote) (ground (arith, empty_cases v.extension))
  refused (some v) e w (malformed step p q z) =
      rw (typed v step w p q) (unfold gate_vote in rw (z, gate_vote))

  -- The vote's request, at its step and with its canonical bytes.
  abbrev pub request_of : Vote → ℤ → Bytes → Command
  request_of v step sign_bytes =
      reserve_command chain_id v.height v.round step sign_bytes v.timestamp

  -- What a signed vote is.
  pub record Signed (v signed : Vote) (f : Fsm) : Type 0 where
    pub step : ℤ
    pub sign_bytes : Bytes
    pub stepped : vote_to_step v.vote_type ≡ ok step
    pub encoded : n.vote_sign_bytes chain_id v ≡ some sign_bytes
    pub stands : Stands x env (request_of v step sign_bytes) signed.signature f
    pub kept : signed ≡ record v {
      timestamp = signed.timestamp;
      signature = signed.signature;
      extension_signature = signed.extension_signature;
    }
    pub extended : (is_non_nil_precommit n v ≡ true) ⊎ (signed.extension_signature ≡ [])

  extension_fsm : (v : Vote) (w : World) → (extend_vote n env chain_id v w).1.fsm ≡ w.fsm
  unfolding extend_vote sign_extension call_sign_extension
  extension_fsm v w = elim (Bool-cases (is_non_nil_precommit n v)) [
    | inr e ↦ rw (e, extend_vote)
    | inl e ↦ elim (Option-cases (n.extension_sign_bytes chain_id v)) [
      | inl q ↦ rw (e, extend_vote) (rw (q, sign_extension))
      | inr (b, q) ↦ rw (e, extend_vote) (rw (q, sign_extension))
    ]
  ]

  no_extension :
      (v : Vote) (w : World)
      → is_non_nil_precommit n v ≡ false
      → extend_vote n env chain_id v w ≡ (ok [], w)
  unfolding extend_vote
  no_extension v w e = rw (e, extend_vote)

  finish_lem :
      (v signed : Vote) (sig : Bytes) (ts : Time) (w : World)
      → (finish_vote n env chain_id v (sig, ts) w).0 ≡ ok signed
      → (signed ≡ record v {
        timestamp = ts;
        signature = sig;
        extension_signature = signed.extension_signature;
      })
        × ((finish_vote n env chain_id v (sig, ts) w).1.fsm ≡ w.fsm)
        × (is_non_nil_precommit n v ≡ false → signed.extension_signature ≡ [])
  unfolding finish_vote
  finish_lem v signed sig ts w h =
      let (ext, p, q, state) =
        continue-ok (extend_vote n env chain_id v w).0
          (λ (e : Bytes) (w' : World).
            (ok (record v { timestamp = ts; signature = sig; extension_signature = e }), w'))
          (extend_vote n env chain_id v w).1 signed h in
      (
        ground arith,
        ap (λ (t : World). t.fsm) state ∙ extension_fsm v w,
        λ e. ground (arith, no_extension v w e),
      )

  encoded_gate :
      (v : Vote) (step : ℤ) (b : Bytes) (w : World)
      → n.vote_sign_bytes chain_id v ≡ some b
      → gate_vote x n env chain_id v step w
        ≡ continue
            (gated x env (request_of v step b) w).0
            (finish_vote n env chain_id v)
            (gated x env (request_of v step b) w).1
  unfolding gate_vote
  encoded_gate v step b w e = rw (e, gate_vote)

  gated_vote :
      (v signed : Vote) (step : ℤ) (b : Bytes) (w : World)
      → Encodable x (request_of v step b)
      → vote_to_step v.vote_type ≡ ok step
      → n.vote_sign_bytes chain_id v ≡ some b
      → (gate_vote x n env chain_id v step w).0 ≡ ok signed
      → Signed v signed (gate_vote x n env chain_id v step w).1.fsm
  gated_vote v signed step b w law p q h =
      let c : Command = request_of v step b in
      let (pair, good, finished, state) =
        continue-ok (gated x env c w).0 (finish_vote n env chain_id v) (gated x env c w).1 signed
          (rw (encoded_gate v step b w q) at h) in
      let (kept, fsm, unextended) =
        finish_lem v signed pair.0 pair.1 (gated x env c w).1 finished in
      let held : signed.signature ≡ pair.0 = ap (λ (t : Vote). t.signature) kept in
      record {
        step = step;
        sign_bytes = b;
        stepped = p;
        encoded = q;
        stands =
            rw (encoded_gate v step b w q, ap (λ (t : World). t.fsm) state, fsm, held)
              (gated-Stands x env c law w pair.0 pair.1 refl good);
        kept = ground arith;
        extended = elim (Bool-cases (is_non_nil_precommit n v)) [
          | inl e ↦ inl e
          | inr e ↦ inr (unextended e)
        ];
      }

  not_ok :
      (v signed : Vote) (e : SignError) (w : World)
      → Refusal (some v) e
      → (sign_vote x n env chain_id (some v) w).0 ≡ ok signed
      → ⊥
  not_ok v signed e w r h =
      cc (h, ap (λ (t : Result SignError Vote × World). t.0) (refused (some v) e w r))

  pub unstepped :
      (v : Vote) (e : SignError) → vote_to_step v.vote_type ≡ err e → e ≡ unknown_vote_type
  unfolding vote_to_step
  unstepped v e h = ground arith

  -- A vote that is signed carries the committed signature of its canonical bytes' height, round and
  -- step, and differs from the request in its time and its signatures alone; it has an extension's
  -- signature only as a precommit for a block.
  pub sign_vote-Signed :
      (v signed : Vote) (w : World)
      → ((step : ℤ) (b : Bytes) → Encodable x (request_of v step b))
      → (sign_vote x n env chain_id (some v) w).0 ≡ ok signed
      → Signed v signed (sign_vote x n env chain_id (some v) w).1.fsm
  sign_vote-Signed v signed w law h = elim (Result-cases (vote_to_step v.vote_type)) [
    | inr (e, p) ↦
        absurd (not_ok v signed unknown_vote_type w (odd_type (rw (← unstepped v e p) p)) h)
    | inl (step, p) ↦ elim (Bool-cases (is_non_nil_precommit n v)) [
      | inl q ↦ to_gate step p (inr q)
      | inr q ↦ elim (empty_cases v.extension) [
        | inl (b, e) ↦ to_gate step p (inl e)
        | inr (b, e) ↦ absurd (not_ok v signed unexpected_extension w (odd_extension step p e q) h)
      ]
    ]
  ]
    where
      to_gate :
          (step : ℤ)
          → vote_to_step v.vote_type ≡ ok step
          → (v.extension ≡ []) ⊎ (is_non_nil_precommit n v ≡ true)
          → Signed v signed (sign_vote x n env chain_id (some v) w).1.fsm
      to_gate step p q = elim (Option-cases (n.vote_sign_bytes chain_id v)) [
        | inl z ↦ absurd (not_ok v signed invalid_request w (malformed step p q z) h)
        | inr (b, z) ↦
            let same : sign_vote x n env chain_id (some v) w ≡ gate_vote x n env chain_id v step w =
              unfold sign_vote in typed v step w p q in
            rw same (gated_vote v signed step b w (law step b) p z (rw same at h))
      ]

  -- The proposal's request, at the step of proposals.
  abbrev pub proposal_request : Proposal → Bytes → Command
  proposal_request p sign_bytes =
      reserve_command chain_id p.height p.round step_propose sign_bytes p.timestamp

  proposal_gate :
      (p : Proposal) (b : Bytes) (w : World)
      → n.proposal_sign_bytes chain_id p ≡ some b
      → sign_proposal x n env chain_id (some p) w
        ≡ continue
            (gated x env (proposal_request p b) w).0
            (λ (pair : Bytes × Time) (w' : World).
              (ok (record p { timestamp = pair.1; signature = pair.0 }), w'))
            (gated x env (proposal_request p b) w).1
  unfolding sign_proposal sign_present_proposal
  proposal_gate p b w e = rw (e, sign_present_proposal)

  -- A proposal that is signed carries the committed signature of its height and round at the step
  -- of proposals, and differs from the request in its time and its signature alone.
  pub sign_proposal-Stands :
      (p signed : Proposal) (b : Bytes) (w : World)
      → n.proposal_sign_bytes chain_id p ≡ some b
      → Encodable x (proposal_request p b)
      → (sign_proposal x n env chain_id (some p) w).0 ≡ ok signed
      → Stands x env
          (proposal_request p b)
          signed.signature
          (sign_proposal x n env chain_id (some p) w).1.fsm
        × (signed ≡ record p { timestamp = signed.timestamp; signature = signed.signature })
  sign_proposal-Stands p signed b w e law h =
      let c : Command = proposal_request p b in
      let (pair, good, finished, state) =
        continue-ok (gated x env c w).0
          (λ (pair : Bytes × Time) (w' : World).
            (ok (record p { timestamp = pair.1; signature = pair.0 }), w'))
          (gated x env c w).1 signed (rw (proposal_gate p b w e) at h) in
      let kept : signed ≡ record p { timestamp = pair.1; signature = pair.0 } = ground arith in
      let held : signed.signature ≡ pair.0 = ap (λ (t : Proposal). t.signature) kept in
      (
        rw (proposal_gate p b w e, ap (λ (t : World). t.fsm) state, held)
            (gated-Stands x env c law w pair.0 pair.1 refl good),
        ground arith,
      )
