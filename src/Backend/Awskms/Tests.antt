-- ===== src/Backend/Awskms/Tests.antt =====
-- Runs of internal/backend/awskms.go and awskms_binding.go.
use cosmosigner.Prelude.{
  ◌≡◌, refl, ◌⊎◌, inl, inr, ℕ, zero, suc, Bytes, codes, bytes_eq, has_prefix, Bool, true, false,
  ◌&&◌, Option, none, some, [], ◌∷◌, Result, ok, err,
}
use cosmosigner.ClusterId
use cosmosigner.Backend.{BindingError, unclaimed, require_claim_owner}
use cosmosigner.Backend.Awskms.{
  tag_key, page, Tags, scan, read_pages, cluster_binding, ClaimEnv, reread, claim_cluster,
  multi_region, Arn, check_parts, check_key_identity,
}
use cosmosigner.Backend.Awskms.Keys.{AwsKey, SignAnswer, checked_signature, sign}
use cosmosigner.Backend.Awskms.Reading.{IsRead}
use cosmosigner.Backend.Awskms.Paging.{binding_ends, IsMarked}
use cosmosigner.Backend.Awskms.Claiming.{aws_claim_binds, IsTagged}

machine : Unit {0}
unfolding bytes_eq has_prefix ClusterId.validate ClusterId.is_hex require_claim_owner scan
    read_pages cluster_binding reread claim_cluster check_parts check_key_identity checked_signature
    sign
machine = tt

abbrev id_a : Bytes
id_a = codes "00112233-4455-4677-8899-aabbccddeeff"

-- Two pages; the tag is on the second.
abbrev two_pages : Tags
two_pages none = page ((codes "env", codes "prod") ∷ []) true (codes "m1")
two_pages (some m) = page ((tag_key, id_a) ∷ []) false []

abbrev two_marked : (m : Option Bytes) → IsMarked (codes "m1" ∷ [] ∷ []) (two_pages m)
two_marked none = inl refl
two_marked (some m) = inr (inl refl)

reads_second_page : cluster_binding 2 two_pages ≡ some (ok id_a)
unfolding machine
reads_second_page = refl

-- A service that hands out one marker for ever.
abbrev stuck : Tags
stuck m = page [] true (codes "m1")

stuck_ends : cluster_binding 3 stuck ≡ some (err BindingError.unreadable)
unfolding machine
stuck_ends = refl

binding_ends_example :
    (r : Result BindingError Bytes) × (cluster_binding 3 two_pages ≡ some r) × IsRead two_pages r
binding_ends_example = binding_ends two_pages (codes "m1" ∷ [] ∷ []) two_marked

-- The tag is seen at the third reread.
abbrev later : ℕ → Result BindingError Bytes
later zero = err unclaimed
later (suc zero) = err unclaimed
later (suc (suc n)) = ok id_a

abbrev env : ClaimEnv
env = record { before = err unclaimed; tag_fails = false; after = later; ends_waiting = λ k. false }

claims : claim_cluster env id_a ≡ (ok tt, some (tag_key, id_a))
unfolding machine
claims = refl

aws_claim_binds_example : (env.before ≡ ok id_a) ⊎ IsTagged env id_a
unfolding machine
aws_claim_binds_example = aws_claim_binds env id_a refl

abbrev repeat : ℕ → ℕ → Bytes
repeat zero c = []
repeat (suc n) c = c ∷ repeat n c

abbrev key : AwsKey
key = record {
  key_arn = codes "arn:aws:kms:eu:123456789012:key/k";
  timeout = 1;
  pub_key = repeat 32 7;
}

abbrev verify : Bytes → Bytes → Bytes → Bool
verify k msg sig = bytes_eq k (repeat 32 7) && bytes_eq sig (repeat 64 9)

abbrev answer : SignAnswer
answer = record {
  key_id = codes "arn:aws:kms:eu:123456789012:key/k";
  algorithm_is_ed25519 = true;
  signature = repeat 64 9;
}

abbrev arn_of : Bytes → Option Arn
arn_of s = some (record {
  partition = codes "aws";
  service = codes "kms";
  region = codes "eu";
  account_id = codes "123456789012";
  resource = s;
})

no_multi_region : check_key_identity arn_of [] (codes "key/mrk-1") ≡ err multi_region
unfolding machine
no_multi_region = refl
