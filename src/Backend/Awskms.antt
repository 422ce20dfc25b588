-- ===== src/Backend/Awskms.antt =====
-- internal/backend/awskms.go and awskms_binding.go: a key of AWS KMS, its signatures, and its cluster tag.
-- What the service answers is an argument.
pub mod Keys
pub mod Reading
pub mod Paging
pub mod Claiming
pub mod Import
pub mod Importing
pub mod Imported
pub mod ImportTests
pub mod Tests
use cosmosigner.Prelude.{
  ℕ, zero, suc, ◌+◌, ◌==◌, ltb, leb, Bytes, codes, bytes_eq, is_empty, has_prefix, Bool, true,
  false, not, ◌&&◌, ◌||◌, Option, none, some, List, [], ◌∷◌, ◌++◌, length, drop, any, all, Result,
  ok, err, ◌>>=◌, fail_if, or_fail, if◌then◌else◌,
}
use cosmosigner.ClusterId
use cosmosigner.Backend.{
  BindingError, unclaimed, corrupt, unreadable, cancelled, io_failed, valid_id, require_claim_owner,
}

abbrev pub tag_key : Bytes
tag_key = codes "cosmosigner-cluster-id"

-- A page of tags, key and value, and the marker of the next page where there is more.
pub data Page : Type 0 where
  failed_page empty_page : Page
  page : List (Bytes × Bytes) → Bool → Bytes → Page

-- What ListResourceTags answers by marker; the first call has none.
abbrev pub Tags : Type 0
Tags = Option Bytes → Page

abbrev pub valid_tag : Bytes → Result BindingError Bytes
valid_tag id = elim (ClusterId.validate id) [ err e ↦ err corrupt | ok u ↦ ok id ]

abbrev pub first_tag : Option Bytes → Bytes → Result BindingError (Option Bytes)
first_tag (some id) v = err corrupt
first_tag none v = valid_tag v >>= λ id. ok (some id)

-- The cluster tag among those of a page and of the pages before.
unfoldable pub scan : List (Bytes × Bytes) → Option Bytes → Result BindingError (Option Bytes)
scan [] found = ok found
scan ((k, v) ∷ tags) found =
    if bytes_eq k tag_key then first_tag found v >>= scan tags else scan tags found

abbrev pub found_tag : Option Bytes → Result BindingError Bytes
found_tag none = err unclaimed
found_tag (some id) = ok id

abbrev pub is_seen : Bytes → List Bytes → Bool
is_seen m seen = any (λ s. bytes_eq s m) seen

-- The loop of ClusterBinding, on fuel; `none` where that is used up.
unfoldable pub read_pages :
    ℕ → Tags → Page → List Bytes → Option Bytes → Option (Result BindingError Bytes)
read_pages fuel t failed_page seen found = some (err unreadable)
read_pages fuel t empty_page seen found = some (err unreadable)
read_pages zero t (page tags truncated next) seen found = none
read_pages (suc fuel) t (page tags truncated next) seen found = elim (scan tags found) [
  | err e ↦ some (err e)
  | ok id ↦ elim truncated [
    | false ↦ some (found_tag id)
    | true ↦ elim (is_empty next || is_seen next seen) [
      | true ↦ some (err unreadable)
      | false ↦ read_pages fuel t (t (some next)) (next ∷ seen) id
    ]
  ]
]

-- ClusterBinding
unfoldable pub cluster_binding : ℕ → Tags → Option (Result BindingError Bytes)
cluster_binding fuel t = read_pages fuel t (t none) [] none

-- awsConsistencyAttempts
abbrev pub attempts : ℕ
attempts = 8

-- What a claim sees: the binding before, whether the tag is written, the binding at each reread, and
-- whether the context ends in the wait after it.
pub record ClaimEnv : Type 0 where
  pub before : Result BindingError Bytes
  pub tag_fails : Bool
  pub after : ℕ → Result BindingError Bytes
  pub ends_waiting : ℕ → Bool

-- The rereads, with the number of those that are left.
unfoldable pub reread : ClaimEnv → Bytes → ℕ → ℕ → Result BindingError (Unit {0})
reread e id zero k = err unclaimed
reread e id (suc left) k = elim (e.after k) [
  | ok owner ↦ require_claim_owner id owner
  | err unclaimed ↦ elim (left == 0 || not (e.ends_waiting k)) [
    | true ↦ reread e id left (suc k)
    | false ↦ err cancelled
  ]
  | err b ↦ err b
]

-- A claim's outcome, and the tag that it wrote, if it wrote one.
abbrev pub Claimed : Type 0
Claimed = Result BindingError (Unit {0}) × Option (Bytes × Bytes)

abbrev pub tag_and_reread : ClaimEnv → Bytes → Claimed
tag_and_reread e id =
    if e.tag_fails then (err io_failed, none) else (reread e id attempts 0, some (tag_key, id))

abbrev pub claim_from : ClaimEnv → Bytes → Result BindingError Bytes → Claimed
claim_from e id (ok owner) = (require_claim_owner id owner, none)
claim_from e id (err unclaimed) = tag_and_reread e id
claim_from e id (err b) = (err b, none)

abbrev pub checked_id : Result BindingError (Unit {0}) → Claimed → Claimed
checked_id (ok u) rest = rest
checked_id (err b) rest = (err b, none)

-- ClaimCluster
unfoldable pub claim_cluster : ClaimEnv → Bytes → Claimed
claim_cluster e id = checked_id (valid_id id) (claim_from e id e.before)

pub data AwsError : Type 0 where
  bad_arn multi_region bad_request arn_mismatch id_mismatch : AwsError
  no_key_id no_client no_response : AwsError
  wrong_spec wrong_usage no_ed25519 bad_key : AwsError
  message_size sign_failed key_mismatch wrong_algorithm signature_size not_verified
        nondeterministic :
      AwsError

-- The parts of an ARN, as the parser of the AWS SDK gives them.
pub record Arn : Type 0 where
  pub partition : Bytes
  pub service : Bytes
  pub region : Bytes
  pub account_id : Bytes
  pub resource : Bytes

abbrev pub key_slash : Bytes
key_slash = codes "key/"

abbrev pub is_key : Arn → Bool
is_key a =
    bytes_eq a.service (codes "kms")
    && not (is_empty a.partition)
    && not (is_empty a.region)
    && length a.account_id == 12
    && has_prefix a.resource key_slash

abbrev pub is_account : Bytes → Bool
is_account account = all (λ c. leb 48 c && leb c 57) account

abbrev pub has_separator : Bytes → Bool
has_separator s = any (λ c. c == 47 || c == 32 || c == 9 || c == 13 || c == 10) s

unfoldable pub check_parts : Option Arn → Result AwsError (Unit {0})
check_parts none = err bad_arn
check_parts (some a) = fail_if (not (is_key a)) bad_arn >>= λ u.
    fail_if (not (is_account a.account_id)) bad_arn >>= λ u.
    fail_if (is_empty (drop 4 a.resource) || has_separator (drop 4 a.resource)) bad_arn >>= λ u.
    fail_if (has_prefix (drop 4 a.resource) (codes "mrk-")) multi_region

abbrev pub resource_of : Option Arn → Bytes
resource_of none = []
resource_of (some a) = a.resource

abbrev pub check_requested : Bytes → Bytes → Option Arn → Result AwsError (Unit {0})
check_requested requested returned none = err bad_request
check_requested requested returned (some a) =
    fail_if (not (has_prefix a.resource (codes "alias/")) && not (bytes_eq requested returned))
      arn_mismatch

-- `parse` is arn.Parse of the SDK.
module _ (parse : Bytes → Option Arn) where
  -- checkAWSKeyARN
  abbrev pub check_key_arn : Bytes → Result AwsError (Unit {0})
  check_key_arn arn = check_parts (parse arn)

  abbrev pub same_key : Bytes → Bytes → Result AwsError (Unit {0})
  same_key requested returned =
      if has_prefix requested (codes "arn:")
      then check_requested requested returned (parse requested)
      else fail_if
          (not (is_empty requested)
            && not (has_prefix requested (codes "alias/"))
            && not (bytes_eq (resource_of (parse returned)) (key_slash ++ requested)))
          id_mismatch

  -- checkAWSKeyIdentity
  unfoldable pub check_key_identity : Bytes → Bytes → Result AwsError (Unit {0})
  check_key_identity requested returned =
      check_key_arn returned >>= λ u. same_key requested returned
