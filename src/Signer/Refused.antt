-- ===== src/Signer/Refused.antt =====
-- SignVote and SignProposal of internal/signer/privval.go: which requests reach the replicated machine or the
-- key at all.
use cosmosigner.Prelude.{
  ◌≡◌, refl, ◌∙◌, ◌⊎◌, inl, inr, Bytes, Bool, true, false, not, Option, none, some, [], ◌∷◌, Result,
  ok, err, is_empty, Option-cases, ◌&&◌,
}
use cosmosigner.Prelude.Int.{ℤ}
use cosmosigner.State.{Codec, step_prevote, step_precommit}
use cosmosigner.Signer.{
  World, Env, SignError, nil_request, unknown_vote_type, unexpected_extension, invalid_request,
  VoteType, prevote, precommit, other, Vote, Canonical, is_precommit, is_non_nil_precommit,
  vote_to_step, gate_vote, sign_present_vote, sign_vote,
}
use cosmosigner.Signer.Requests.{typed}

module _ (n : Canonical) (chain_id : Bytes) where
  -- What a validator may be asked to sign: a prevote or a precommit, with an extension only as a
  -- precommit for a block, and with canonical bytes.
  abbrev pub IsSignable : Vote → Type 0
  IsSignable v =
      ((v.vote_type ≡ prevote) ⊎ (v.vote_type ≡ precommit))
      × ((v.extension ≡ []) ⊎ ((v.vote_type ≡ precommit) × (n.block_id_is_nil v.block_id ≡ false)))
      × ((b : Bytes) × (n.vote_sign_bytes chain_id v ≡ some b))

  abbrev pub Requests : Option Vote → Type 0
  Requests none = ⊥
  Requests (some v) = IsSignable v

type_cases : (t : VoteType) → ((t ≡ prevote) ⊎ (t ≡ precommit)) ⊎ ((z : ℤ) × (t ≡ other z))
type_cases prevote = inl (inl refl)
type_cases precommit = inl (inr refl)
type_cases (other z) = inr (z, refl)

extension_cases :
    (extension : Bytes) (t : VoteType) (is_nil : Bool)
    → ((extension ≡ []) ⊎ ((t ≡ precommit) × (is_nil ≡ false)))
      ⊎ ((not (is_empty extension) ≡ true) × ((is_precommit t && not is_nil) ≡ false))
extension_cases [] t b = inl (inl refl)
extension_cases (x ∷ xs) precommit false = inl (inr (refl, refl))
extension_cases (x ∷ xs) precommit true = inr (refl, refl)
extension_cases (x ∷ xs) prevote b = inr (refl, refl)
extension_cases (x ∷ xs) (other z) b = inr (refl, refl)

module _ (x : Codec) (n : Canonical) (env : Env) (chain_id : Bytes) where
  -- The outcome is an error, and neither the machine nor what the key was handed has changed.
  abbrev pub Refused : {A : Type 0} → Result SignError A × World → World → Type 0
  Refused out w = (e : SignError) × (out ≡ (err e, w))

  encoded :
      (v : Vote) (step : ℤ) (w : World)
      → Refused (gate_vote x n env chain_id v step w) w
        ⊎ ((b : Bytes) × (n.vote_sign_bytes chain_id v ≡ some b))
  unfolding gate_vote
  encoded v step w = elim (Option-cases (n.vote_sign_bytes chain_id v)) [
    | inl e ↦ inl (invalid_request, rw e refl)
    | inr (b, e) ↦ inr (b, e)
  ]

  odd_type :
      (v : Vote) (z : ℤ) (w : World)
      → v.vote_type ≡ other z
      → Refused (sign_present_vote x n env chain_id v w) w
  unfolding sign_present_vote vote_to_step
  odd_type v z w e = (unknown_vote_type, rw e refl)

  odd_extension :
      (v : Vote) (step : ℤ) (w : World)
      → vote_to_step v.vote_type ≡ ok step
      → (not (is_empty v.extension) ≡ true) × (is_non_nil_precommit n v ≡ false)
      → Refused (sign_present_vote x n env chain_id v w) w
  unfolding sign_present_vote
  odd_extension v step w typed_as (full, barred) =
      (unexpected_extension, rw (typed_as, full, barred) refl)

  -- The extension's test reads as one of Boolean values.
  allowed :
      (v : Vote)
      → (v.extension ≡ []) ⊎ ((v.vote_type ≡ precommit) × (n.block_id_is_nil v.block_id ≡ false))
      → (v.extension ≡ []) ⊎ (is_non_nil_precommit n v ≡ true)
  allowed v (inl e) = inl e
  allowed v (inr (t, b)) = inr (rw (t, b) refl)

  of_type :
      (v : Vote) (step : ℤ) (w : World)
      → vote_to_step v.vote_type ≡ ok step
      → (v.vote_type ≡ prevote) ⊎ (v.vote_type ≡ precommit)
      → Refused (sign_present_vote x n env chain_id v w) w ⊎ IsSignable n chain_id v
  of_type v step w typed_as kind =
      elim (extension_cases v.extension v.vote_type (n.block_id_is_nil v.block_id)) [
        | inr odd ↦ inl (odd_extension v step w typed_as odd)
        | inl fits ↦ elim (encoded v step w) [
          | inl (e, same) ↦
              inl (e, typed x n env chain_id v step w typed_as (allowed v fits) ∙ same)
          | inr bytes ↦ inr (kind, fits, bytes)
        ]
      ]

  step_of :
      (t : VoteType) → (t ≡ prevote) ⊎ (t ≡ precommit) → (step : ℤ) × (vote_to_step t ≡ ok step)
  unfolding vote_to_step
  step_of t (inl e) = (step_prevote, rw e refl)
  step_of t (inr e) = (step_precommit, rw e refl)

  -- Only a vote that is present, that is a prevote or a precommit, that has an extension only as a
  -- precommit for a block, and that has canonical bytes, gets past SignVote's checks: any other request
  -- ends in an error, with nothing reserved, nothing committed and nothing handed to the key.
  pub sign_vote-Refused :
      (v : Option Vote) (w : World)
      → Refused (sign_vote x n env chain_id v w) w ⊎ Requests n chain_id v
  unfolding sign_vote
  sign_vote-Refused none w = inl (nil_request, refl)
  sign_vote-Refused (some v) w = elim (type_cases v.vote_type) [
    | inr (z, e) ↦ inl (odd_type v z w e)
    | inl kind ↦ let (step, typed_as) = step_of v.vote_type kind in of_type v step w typed_as kind
  ]
