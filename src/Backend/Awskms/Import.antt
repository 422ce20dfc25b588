-- ===== src/Backend/Awskms/Import.antt =====
-- internal/backend/awskms_import.go, and the making of a key in awskms_provision.go: an import of key material
-- into AWS KMS. What the service answers to each call is an `ImportEnv`.
use cosmosigner.Prelude.{
  ℕ, zero, suc, ◌==◌, Bytes, codes, bytes_eq, is_empty, has_prefix, Bool, true, false, not, ◌&&◌,
  ◌||◌, Option, none, some, List, [], ◌∷◌, ◌++◌, Result, ok, err, fail_if, or_fail, if◌then◌else◌,
}
use cosmosigner.Prelude.Exec.{Exec, pure, raise, lift, gets, modify, skip, ◌>>=◌, ◌>>◌}
use cosmosigner.Backend.{BindingError, unclaimed}
use cosmosigner.Backend.Awskms.{AwsError, Arn, key_slash, resource_of, check_key_identity, attempts}
use cosmosigner.Backend.Awskms.Keys.{KeyAnswer, parse_public_key}

pub data ImportError : Type 0 where
  not_ed25519 no_client not_created no_response not_described no_alias no_metadata id_mismatch :
      ImportError
  multi_region wrong_key wrong_state no_claim no_public_key other_arn other_key : ImportError
  no_parameters bad_token not_wrapped not_imported : ImportError
  aws : AwsError → ImportError

pub data KeyState : Type 0 where
  enabled pending_import other_state : KeyState

pub data Origin : Type 0 where
  aws_kms external other_origin : Origin

-- types.KeyMetadata; `is_signing` tells that its spec and its usage are those of an Ed25519 signing key.
pub record Metadata : Type 0 where
  pub arn : Bytes
  pub key_id : Bytes
  pub is_multi_region : Bool
  pub is_signing : Bool
  pub origin : Origin
  pub is_customers : Bool
  pub state : KeyState

abbrev pub same_state : KeyState → KeyState → Bool
same_state enabled enabled = true
same_state pending_import pending_import = true
same_state other_state other_state = true
same_state _ _ = false

abbrev pub same_origin : Origin → Origin → Bool
same_origin aws_kms aws_kms = true
same_origin external external = true
same_origin other_origin other_origin = true
same_origin _ _ = false

abbrev pub any_state : List KeyState → KeyState → Bool
any_state [] s = false
any_state (x ∷ xs) s = same_state x s || any_state xs s

-- The answers to CreateKey, DescribeKey, GetPublicKey, GetParametersForImport and ImportKeyMaterial.
pub data Created : Type 0 where
  create_fails create_empty : Created
  made : Option Metadata → Created

pub data Described : Type 0 where
  describe_fails not_found describe_empty : Described
  described : Option Metadata → Described

pub data PublicRead : Type 0 where
  read_fails not_ready read_empty : PublicRead
  reads : KeyAnswer → PublicRead

-- `wrapped` is the material under the wrapping key, where that is RSA_4096 and encrypts.
pub record Parameters : Type 0 where
  pub key_id : Bytes
  pub has_token : Bool
  pub is_valid : Bool
  pub wrapped : Option Bytes

pub data ParametersRead : Type 0 where
  parameters_fail parameters_missing parameters_empty : ParametersRead
  parameters : Parameters → ParametersRead

pub data Accepted : Type 0 where
  import_fails import_empty : Accepted
  accepted : Bytes → Accepted

-- `source` is the public key of the material, where it is an Ed25519 key; the loops ask by the number of
-- attempts that are left. `binding` is what the claim of the described key reads as, `wait_ends` whether
-- the context ends in a pause.
pub record ImportEnv : Type 0 where
  pub source : Option Bytes
  pub client_fails : Bool
  pub key_id : Bytes
  pub created : Created
  pub alias_fails : Bool
  pub described : Described
  pub binding : Result BindingError Bytes
  pub public_key : PublicRead
  pub parameters : ℕ → ParametersRead
  pub wait_ends : ℕ → Bool
  pub answer : Accepted
  pub read_back : ℕ → PublicRead

pub data Write : Type 0 where
  creates_key : Write
  creates_alias : Bytes → Bytes → Write
  imports : Bytes → Bytes → Write

-- `target` is keyARN, the key that an error names; `is_imported` is materialImported.
pub record Progress : Type 0 where
  pub target : Bytes
  pub is_imported : Bool
  pub writes : List Write

abbrev pub Importing : Type 0 → Type 0
Importing A = Exec ImportError Progress A

unfoldable pub put : Write → Importing (Unit {0})
put w = modify (λ s. record s { writes = w ∷ s.writes })

unfoldable pub aim : Bytes → Importing (Unit {0})
aim arn = modify (λ s. record s { target = arn })

module _ (parse : Bytes → Option Arn) (parse_key : Bytes → Option Bytes) where
  -- checkAWSMetadata once there are metadata
  unfoldable pub check_known :
      Metadata → Bytes → Origin → List KeyState → Result ImportError Metadata
  check_known m requested origin states = elim (check_key_identity parse requested m.arn) [
    | err x ↦ err (aws x)
    | ok u ↦
        if not (bytes_eq (resource_of (parse m.arn)) (key_slash ++ m.key_id))
        then err id_mismatch
        else if m.is_multi_region
        then err multi_region
        else if not m.is_signing || not (same_origin m.origin origin) || not m.is_customers
        then err wrong_key
        else if not (any_state states m.state)
        then err wrong_state
        else ok m
  ]

  -- checkAWSMetadata
  unfoldable pub check_metadata :
      Option Metadata → Bytes → Origin → List KeyState → Result ImportError Metadata
  check_metadata none requested origin states = err no_metadata
  check_metadata (some m) requested origin states = check_known m requested origin states

  abbrev pub arn_of : Option Metadata → Bytes
  arn_of none = []
  arn_of (some m) = m.arn

  unfoldable pub created_target : Created → Importing (Unit {0})
  created_target create_fails = raise not_created
  created_target create_empty = raise no_response
  created_target (made m) =
      put creates_key
      >> aim (arn_of m)
      >> lift (check_metadata m [] external (pending_import ∷ []))
      >>= λ m. skip

  abbrev pub same_public :
      Bytes → ImportError → Result AwsError Bytes → Result ImportError (Unit {0})
  same_public want other (err x) = err (aws x)
  same_public want other (ok p) = fail_if (not (bytes_eq p want)) other

  abbrev pub checked_public : Bytes → Bytes → KeyAnswer → Result ImportError (Unit {0})
  checked_public want arn a =
      if not (bytes_eq a.key_id arn)
      then err other_arn
      else same_public want other_key (parse_public_key parse parse_key a)

  -- A key that holds material already must hold this one.
  unfoldable pub check_enabled : Bytes → Bytes → PublicRead → Result ImportError (Unit {0})
  check_enabled want arn read_fails = err no_public_key
  check_enabled want arn not_ready = err no_public_key
  check_enabled want arn read_empty = err other_arn
  check_enabled want arn (reads a) = checked_public want arn a

  module _ (e : ImportEnv) where
    unfoldable pub new_target : Importing (Unit {0})
    new_target = created_target e.created

    -- A new key, under an alias that was not found.
    unfoldable pub new_alias : Importing (Unit {0})
    new_alias = new_target >> gets (λ s. s.target) >>= λ arn.
        lift (fail_if e.alias_fails no_alias) >> put (creates_alias e.key_id arn)

    abbrev pub is_claim_read : Result BindingError Bytes → Bool
    is_claim_read (ok id) = true
    is_claim_read (err unclaimed) = true
    is_claim_read (err x) = false

    abbrev pub pending_arn : Metadata → Bytes
    pending_arn m = if same_state m.state pending_import then m.arn else []

    -- The key that was described: true where it holds the material already.
    unfoldable pub known_target : Bytes → Metadata → Importing Bool
    known_target want m =
        aim (pending_arn m)
        >> lift (fail_if (not (is_claim_read e.binding)) no_claim)
        >> (if same_state m.state enabled
            then lift (check_enabled want m.arn e.public_key) >> pure true
            else pure false)

    unfoldable pub described_target : Bytes → Described → Importing Bool
    described_target want describe_fails = raise not_described
    described_target want not_found =
        if has_prefix e.key_id (codes "alias/")
        then new_alias >> pure false
        else raise not_described
    described_target want describe_empty = raise no_response
    described_target want (described m) =
        lift (check_metadata m e.key_id external (pending_import ∷ enabled ∷ []))
        >>= known_target want

    unfoldable pub find_target : Bytes → Importing Bool
    find_target want =
        if is_empty e.key_id then new_target >> pure false else described_target want e.described

    -- awsImportParameters
    unfoldable pub import_parameters : ℕ → Result ImportError Parameters
    import_parameters zero = err no_parameters
    import_parameters (suc left) =
        let later = import_parameters left in
        elim (e.parameters left) [
          | parameters_fail ↦ err no_parameters
          | parameters_missing ↦ if left == 0 || e.wait_ends left then err no_parameters else later
          | parameters_empty ↦ err other_arn
          | parameters p ↦ ok p
        ]

    unfoldable pub wrapped_for : Bytes → Parameters → Result ImportError Bytes
    wrapped_for arn p =
        if not (bytes_eq p.key_id arn)
        then err other_arn
        else if not p.has_token || not p.is_valid
        then err bad_token
        else or_fail p.wrapped not_wrapped

    abbrev pub check_accepted : Bytes → Accepted → Result ImportError (Unit {0})
    check_accepted arn import_fails = err not_imported
    check_accepted arn import_empty = err other_arn
    check_accepted arn (accepted a) = fail_if (not (bytes_eq a arn)) other_arn

    -- Whether the public key could be read back; the loop that follows ImportKeyMaterial.
    unfoldable pub read_back : Bytes → Bytes → ℕ → Result ImportError Bool
    read_back want arn zero = ok false
    read_back want arn (suc left) =
        let later = read_back want arn left in
        elim (e.read_back left) [
          | read_fails ↦ ok false
          | not_ready ↦ if not (left == 0) && e.wait_ends left then ok false else later
          | read_empty ↦ err other_arn
          | reads a ↦ elim (checked_public want arn a) [ err x ↦ err x | ok u ↦ ok true ]
        ]

    abbrev pub is_taken : Accepted → Bool
    is_taken import_fails = false
    is_taken _ = true

    unfoldable pub import_into : Bytes → Bytes → Importing Bool
    import_into want arn = lift (import_parameters attempts) >>= λ p.
        lift (wrapped_for arn p) >>= λ material.
        put (imports arn material)
        >> modify (λ s. record s { is_imported = is_taken e.answer })
        >> lift (check_accepted arn e.answer)
        >> lift (read_back want arn attempts)

    unfoldable pub import_unless : Bytes → Bool → Importing Bool
    import_unless want true = pure true
    import_unless want false = gets (λ s. s.target) >>= import_into want

    unfoldable pub import_wanted : Bytes → Importing Bool
    import_wanted want =
        lift (fail_if e.client_fails no_client) >> find_target want >>= import_unless want

    -- AWSImportKey: whether the key is ready. The key is the target, or the described one where that is enabled.
    unfoldable pub import_key : Importing Bool
    import_key = lift (or_fail e.source not_ed25519) >>= import_wanted
