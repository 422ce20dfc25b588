-- ===== src/Signer/Tests.antt =====
-- Runs of the signer (internal/signer/privval.go).
use cosmosigner.Prelude.{◌≡◌, refl, ◌⊎◌, inl, inr, bytes_eq, true, some, List, [], ◌∷◌, err}
use cosmosigner.Prelude.Int.{pos}
use cosmosigner.Prelude.Assoc.{lookup, insert}
use cosmosigner.State.{Command, conflict}
use cosmosigner.State.Hrs.{compare_hrs}
use cosmosigner.State.Fsm.{
  Fsm, apply_command, apply_reserve, reserve_against, reserve_again, apply_commit, commit_against,
  apply, only_differs_by_timestamp, differs_by_timestamp,
}
use cosmosigner.State.RaftStore.{
  Attempt, delivered, failed, leadership_lost, apply_entry, reserve_with, commit_with, machine,
}
use cosmosigner.State.Sample.{codec, codec-RoundTrips, chain, prevote, retimed, other, blank}
use cosmosigner.Signer.{
  Grant, Env, Vote, VoteType, Proposal, Canonical, refused, unexpected_extension, call_reserve,
  call_commit, call_sign, sign_reserved, answer_reserved, gated, vote_to_step, call_sign_extension,
  sign_extension, extend_vote, finish_vote, gate_vote, sign_present_vote, sign_vote,
  sign_present_proposal, sign_proposal,
}
use cosmosigner.Signer.Committed.{Encodable, Stands}
use cosmosigner.Signer.Cluster.{
  Cluster, idle, holds, update, after, granted, hands, Reach, here, next,
}
use cosmosigner.Signer.Safety.{resting, no_double_sign}
use cosmosigner.Signer.Refines.{serve, starting, serve_no_double_sign}
use cosmosigner.Signer.Refused.{Refused, Requests, sign_vote-Refused}
use cosmosigner.Signer.Requests.{Signed, sign_vote-Signed, sign_proposal-Stands, proposal_request}

-- What a run on concrete data computes through.
machinery : Unit {0}
unfolding apply_command apply_reserve reserve_against reserve_again apply_commit commit_against
    apply only_differs_by_timestamp differs_by_timestamp insert lookup compare_hrs bytes_eq
    apply_entry reserve_with commit_with call_reserve call_commit call_sign sign_reserved
    answer_reserved gated vote_to_step call_sign_extension sign_extension extend_vote finish_vote
    gate_vote sign_present_vote sign_vote sign_present_proposal sign_proposal serve
machinery = tt

abbrev smooth : Attempt
smooth = record { is_leader = true; outcome = delivered }

-- The answer is lost, and the entry is applied all the same.
abbrev lost : Attempt
lost = record { is_leader = true; outcome = failed leadership_lost true }

abbrev signer : Env
signer = record { reserve = smooth; commit = smooth; sign = λ b. some (0 ∷ b) }

abbrev cut_off : Env
cut_off = record signer { commit = lost }

law : (c : Command) → Encodable codec c
law c = record {
  reserve_law = codec-RoundTrips c;
  commit_law = λ payload signature. codec-RoundTrips _;
}

abbrev first_grant : Grant
first_grant = record { request = prevote; payload = 7 ∷ 1 ∷ 2 ∷ [] }

abbrev second_grant : Grant
second_grant = record { request = retimed; payload = 7 ∷ 1 ∷ 2 ∷ [] }

abbrev f1 : Fsm
f1 = after codec prevote blank

abbrev s1 : Cluster
s1 = record { fsm = f1; threads = update (λ _. idle) 0 (holds first_grant); handed = [] }

abbrev s2 : Cluster
s2 = record s1 { fsm = after codec retimed f1; threads = update s1.threads 1 (holds second_grant) }

abbrev s3 : Cluster
s3 = record s2 { threads = update s2.threads 1 idle; handed = second_grant ∷ [] }

abbrev s4 : Cluster
s4 = record s3 { threads = update s3.threads 0 idle; handed = first_grant ∷ second_grant ∷ [] }

-- Two threads hold the same payload at once, and both hand it over.
overlap : Reach codec (resting blank) s4
unfolding machinery
overlap =
    next
      (next
        (next (next here (granted 0 first_grant refl (refl, refl, refl, refl) refl))
          (granted 1 second_grant refl (refl, refl, refl, refl) refl))
        (hands 1 second_grant refl refl))
      (hands 0 first_grant refl refl)

no_double_sign_example : first_grant.payload ≡ second_grant.payload
no_double_sign_example =
    no_double_sign codec blank s4 first_grant second_grant overlap (inl refl) (inr (inl refl))
      (refl, refl)

abbrev requests : List (Env × Command)
requests = (cut_off, prevote) ∷ (signer, other) ∷ (signer, retimed) ∷ []

-- The first Commit is lost but applied, the second request conflicts, the third reuses.
served : (serve codec requests (starting blank)).handed ≡ first_grant ∷ []
unfolding machinery
served = refl

serve_no_double_sign_example : first_grant.payload ≡ first_grant.payload
unfolding machinery
serve_no_double_sign_example =
    serve_no_double_sign codec requests blank first_grant first_grant
      (refl, law prevote, (refl, law other, (refl, law retimed, tt))) (inl refl) (inl refl)
      (refl, refl)

other_refused :
    (gated codec signer other (gated codec signer prevote (starting blank)).1).0
    ≡ err (refused (machine conflict))
unfolding machinery
other_refused = refl

abbrev canonical : Canonical
canonical = record {
  block_id_is_nil = λ b. bytes_eq b [];
  vote_sign_bytes = λ chain_id v. some (v.timestamp ∷ v.block_id);
  extension_sign_bytes = λ chain_id v. some v.extension;
  proposal_sign_bytes = λ chain_id p. some (p.timestamp ∷ p.block_id);
}

abbrev vote : Vote
vote = record {
  vote_type = VoteType.precommit;
  height = pos 5;
  round = pos 0;
  block_id = 6 ∷ [];
  timestamp = 8;
  signature = [];
  extension = 3 ∷ [];
  extension_signature = [];
}

abbrev signed : Vote
signed = record vote { signature = 0 ∷ 8 ∷ 6 ∷ []; extension_signature = 0 ∷ 3 ∷ [] }

sign_vote-Signed_example :
    Signed codec canonical signer chain vote signed
      (sign_vote codec canonical signer chain (some vote) (starting blank)).1.fsm
unfolding machinery
sign_vote-Signed_example =
    sign_vote-Signed codec canonical signer chain vote signed (starting blank) (λ step b. law _)
      refl

abbrev proposal : Proposal
proposal = record {
  height = pos 5;
  round = pos 0;
  block_id = 6 ∷ [];
  timestamp = 8;
  signature = [];
}

sign_proposal-Stands_example :
    Stands codec signer
      (proposal_request codec canonical signer chain proposal (8 ∷ 6 ∷ []))
      (0 ∷ 8 ∷ 6 ∷ [])
      (sign_proposal codec canonical signer chain (some proposal) (starting blank)).1.fsm
    × (record proposal { signature = 0 ∷ 8 ∷ 6 ∷ [] }
        ≡ record proposal { timestamp = 8; signature = 0 ∷ 8 ∷ 6 ∷ [] })
unfolding machinery
sign_proposal-Stands_example =
    sign_proposal-Stands codec canonical signer chain proposal
      (record proposal { signature = 0 ∷ 8 ∷ 6 ∷ [] }) (8 ∷ 6 ∷ []) (starting blank) refl (law _)
      refl

abbrev odd : Vote
odd = record vote { vote_type = VoteType.prevote }

odd_refused :
    sign_vote codec canonical signer chain (some odd) (starting blank)
    ≡ (err unexpected_extension, starting blank)
unfolding machinery
odd_refused = refl

sign_vote-Refused_example :
    Refused codec canonical signer chain
      (sign_vote codec canonical signer chain (some odd) (starting blank))
      (starting blank)
    ⊎ Requests canonical chain (some odd)
sign_vote-Refused_example =
    sign_vote-Refused codec canonical signer chain (some odd) (starting blank)
