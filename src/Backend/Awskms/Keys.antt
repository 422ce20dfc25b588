-- ===== src/Backend/Awskms/Keys.antt =====
-- internal/backend/awskms.go: the public key and the signatures of a key of AWS KMS.
use cosmosigner.Prelude.{
  ◌≡◌, refl, ◌∙◌, subst, ℕ, ◌==◌, ltb, Bytes, codes, bytes_eq, bytes_eq_iff, is_empty, Bool, true,
  false, not, ◌||◌, Option, none, some, length, Result, ok, err, ◌>>=◌, fail_if, or_fail,
  if◌then◌else◌, ok_inj, chain_ok, fail_if_ok, ==_iff,
}
use cosmosigner.Backend.{AwskmsConfig}
use cosmosigner.Backend.Awskms.{
  AwsError, no_key_id, no_client, no_response, wrong_spec, wrong_usage, no_ed25519, bad_key,
  message_size, sign_failed, key_mismatch, wrong_algorithm, signature_size, not_verified,
  nondeterministic, Arn, check_key_identity,
}

-- An answer to GetPublicKey; `key_id` is empty where it has none.
pub record KeyAnswer : Type 0 where
  pub key_id : Bytes
  pub spec_is_ed25519 : Bool
  pub usage_is_sign : Bool
  pub signs_ed25519 : Bool
  pub public_key : Bytes

-- An answer to Sign.
pub record SignAnswer : Type 0 where
  pub key_id : Bytes
  pub algorithm_is_ed25519 : Bool
  pub signature : Bytes

-- AWSKMS
pub record AwsKey : Type 0 where
  pub key_arn : Bytes
  pub timeout : ℕ
  pub pub_key : Bytes

abbrev pub sized : ℕ → AwsError → Bytes → Result AwsError Bytes
sized n e s = if not (length s == n) then err e else ok s

-- `parse_key` is x509's parser, for an Ed25519 key.
module _ (parse : Bytes → Option Arn) (parse_key : Bytes → Option Bytes) where
  -- parseAWSPublicKey
  unfoldable pub parse_public_key : KeyAnswer → Result AwsError Bytes
  parse_public_key a = fail_if (not a.spec_is_ed25519) wrong_spec >>= λ u.
      fail_if (not a.usage_is_sign) wrong_usage >>= λ u.
      fail_if (not a.signs_ed25519) no_ed25519 >>= λ u.
      or_fail (parse_key a.public_key) bad_key >>= sized 32 bad_key

  -- NewAWSKMS
  unfoldable pub new_awskms : AwskmsConfig → Bool → Option KeyAnswer → Result AwsError AwsKey
  new_awskms cfg client_fails answer = fail_if (is_empty cfg.key_id) no_key_id >>= λ u.
      fail_if client_fails no_client >>= λ u. or_fail answer no_response >>= λ a.
      check_key_identity parse cfg.key_id a.key_id >>= λ u. parse_public_key a >>= λ pub_key.
      ok (record {
        key_arn = a.key_id;
        timeout = if cfg.timeout == 0 then 10000000000 else cfg.timeout;
        pub_key = pub_key;
      })

-- awsPreflightMessage
abbrev pub preflight : Bytes
preflight = codes "cosmosigner/awskms preflight - not a consensus message"

module _ (verify : Bytes → Bytes → Bytes → Bool) where
  unfoldable pub checked_signature : AwsKey → Bytes → SignAnswer → Result AwsError Bytes
  checked_signature k msg a = fail_if (not (bytes_eq a.key_id k.key_arn)) key_mismatch >>= λ u.
      fail_if (not a.algorithm_is_ed25519) wrong_algorithm >>= λ u.
      sized 64 signature_size a.signature >>= λ sig.
      fail_if (not (verify k.pub_key msg sig)) not_verified >>= λ u. ok sig

  -- signWithContext; an answer is missing where the call fails or answers nothing.
  unfoldable pub sign : AwsKey → Bytes → Option SignAnswer → Result AwsError Bytes
  sign k msg answer = fail_if (ltb (length msg) 1 || ltb 4096 (length msg)) message_size >>= λ u.
      or_fail answer sign_failed >>= checked_signature k msg

  -- VerifyCanSign
  unfoldable pub verify_can_sign :
      AwsKey → Option SignAnswer → Option SignAnswer → Result AwsError (Unit {0})
  verify_can_sign k a b = sign k preflight a >>= λ first.
      sign k preflight b >>= λ second. fail_if (not (bytes_eq first second)) nondeterministic

  -- A signature that AWS KMS returned: from the pinned key, and verified.
  pub record IsPinned (k : AwsKey) (msg : Bytes) (answer : Option SignAnswer) (sig : Bytes)
      : Type 0 where
    pub from : SignAnswer
    pub answered : answer ≡ some from
    pub pinned : from.key_id ≡ k.key_arn
    pub signed : from.signature ≡ sig
    pub size : length sig ≡ 64
    pub verified : verify k.pub_key msg sig ≡ true

  unflip : (b : Bool) → not b ≡ false → b ≡ true
  unflip true h = refl
  unflip false h = cc h

  sized-fits :
      (b : Bool) (e : AwsError) (s t : Bytes)
      → ◌≡◌ {A = Result AwsError Bytes} (if not b then err e else ok s) (ok t)
      → (b ≡ true) × (s ≡ t)
  sized-fits true e s t h = (refl, ok_inj h)
  sized-fits false e s t h = cc h

  checked-IsPinned :
      (k : AwsKey) (msg sig : Bytes) (a : SignAnswer)
      → checked_signature k msg a ≡ ok sig
      → IsPinned k msg (some a) sig
  unfolding checked_signature
  checked-IsPinned k msg sig a h =
      let (u, rest, named) =
        chain_ok (fail_if (not (bytes_eq a.key_id k.key_arn)) key_mismatch) h in
      let (u', rest', algorithm) =
        chain_ok (fail_if (not a.algorithm_is_ed25519) wrong_algorithm) rest in
      let (s, rest'', fits) = chain_ok (sized 64 signature_size a.signature) rest' in
      let (u'', same, verifies) =
        chain_ok (fail_if (not (verify k.pub_key msg s)) not_verified) rest'' in
      let (size, whole) = sized-fits (length a.signature == 64) signature_size a.signature s fits in
      let e = whole ∙ ok_inj same in
      record {
        from = a;
        answered = refl;
        pinned = (bytes_eq_iff a.key_id k.key_arn).0 (unflip _ (fail_if_ok _ key_mismatch named));
        signed = e;
        size = subst (λ x. length x ≡ 64) e ((==_iff (length a.signature) 64).0 size);
        verified =
            subst (λ x. verify k.pub_key msg x ≡ true) (ok_inj same)
              (unflip _ (fail_if_ok _ not_verified verifies));
      }

  answered-IsPinned :
      (k : AwsKey) (msg sig : Bytes) (o : Option SignAnswer)
      → ◌≡◌ {A = Result AwsError Bytes} (or_fail o sign_failed >>= checked_signature k msg) (ok sig)
      → IsPinned k msg o sig
  answered-IsPinned k msg sig none h = cc h
  answered-IsPinned k msg sig (some a) h = checked-IsPinned k msg sig a h

  -- A signature that comes back from AWS KMS was made by the pinned key, has 64 bytes and verifies under
  -- the pinned public key.
  pub sign-IsPinned :
      (k : AwsKey) (msg sig : Bytes) (answer : Option SignAnswer)
      → sign k msg answer ≡ ok sig
      → IsPinned k msg answer sig
  unfolding sign
  sign-IsPinned k msg sig answer h =
      let (u, rest, fits) =
        chain_ok (fail_if (ltb (length msg) 1 || ltb 4096 (length msg)) message_size) h in
      answered-IsPinned k msg sig answer rest
