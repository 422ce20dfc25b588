-- ===== src/Backend/Awskms/Importing.antt =====
-- internal/backend/awskms_import.go: what the checks of an import let through.
use cosmosigner.Prelude.{
  ◌≡◌, refl, sym, ap, ◌∙◌, ℕ, zero, suc, ◌==◌, ◌<◌, arith, Bytes, bytes_eq, bytes_eq_iff, Bool,
  true, false, not, ◌&&◌, ◌||◌, Option, none, some, List, [], ◌∷◌, ◌++◌, Result, ok, err, ok_inj,
  passes, fail_if_ok, if◌then◌else◌,
}
use cosmosigner.Backend.Awskms.{AwsError, Arn, key_slash, resource_of, check_key_identity}
use cosmosigner.Backend.Awskms.Keys.{KeyAnswer, parse_public_key}
use cosmosigner.Backend.Awskms.Import.{
  ImportError, aws, other_arn, other_key, id_mismatch, multi_region, wrong_key, wrong_state,
  KeyState, enabled, pending_import, other_state, external, Metadata, same_state, same_origin,
  any_state, PublicRead, read_fails, not_ready, read_empty, reads, ImportEnv, check_known,
  check_metadata, same_public, checked_public, check_enabled, read_back,
}

pub unflip : (b : Bool) → not b ≡ false → b ≡ true
unflip true h = refl
unflip false h = cc h

pub only_pending : (k : KeyState) → any_state (pending_import ∷ []) k ≡ true → k ≡ pending_import
only_pending enabled h = cc h
only_pending pending_import h = refl
only_pending other_state h = cc h

pub still_pending :
    (k : KeyState)
    → any_state (pending_import ∷ enabled ∷ []) k ≡ true
    → same_state k enabled ≡ false
    → k ≡ pending_import
still_pending enabled h n = cc n
still_pending pending_import h n = refl
still_pending other_state h n = cc h

identified :
    (r : Result AwsError (Unit {0})) (rest : Result ImportError Metadata) (m : Metadata)
    → ◌≡◌ {A = Result ImportError Metadata} (elim r [ err x ↦ err (aws x) | ok u ↦ rest ]) (ok m)
    → rest ≡ ok m
identified (ok u) rest m h = h
identified (err x) rest m h = cc h

last_test :
    (a b c d : Bool) (k m : Metadata)
    → ◌≡◌ {A = Result ImportError Metadata}
        (if a
          then err id_mismatch
          else if b
          then err multi_region
          else if c
          then err wrong_key
          else if d
          then err wrong_state
          else ok k)
        (ok m)
    → (k ≡ m) × (d ≡ false)
last_test true b c d k m h = cc h
last_test false true c d k m h = cc h
last_test false false true d k m h = cc h
last_test false false false true k m h = cc h
last_test false false false false k m h = (ok_inj h, refl)

module _ (parse : Bytes → Option Arn) (parse_key : Bytes → Option Bytes) where
  known_ok :
      (k : Metadata) (requested : Bytes) (states : List KeyState) (m : Metadata)
      → check_known parse parse_key k requested external states ≡ ok m
      → (k ≡ m) × (any_state states k.state ≡ true)
  unfolding check_known
  known_ok k requested states m h =
      let last =
        last_test (not (bytes_eq (resource_of (parse k.arn)) (key_slash ++ k.key_id)))
          k.is_multi_region
          (not k.is_signing || not (same_origin k.origin external) || not k.is_customers)
          (not (any_state states k.state)) k m
          (identified (check_key_identity parse requested k.arn) _ m h) in
      (last.0, unflip _ last.1)

  -- Metadata that pass the check are the given ones, in one of the states.
  pub metadata_ok :
      (o : Option Metadata) (requested : Bytes) (states : List KeyState) (m : Metadata)
      → check_metadata parse parse_key o requested external states ≡ ok m
      → (o ≡ some m) × (any_state states m.state ≡ true)
  unfolding check_metadata
  metadata_ok none requested states m h = cc h
  metadata_ok (some k) requested states m h =
      (ap some known.0, ap (λ x. any_state states x.state) (sym known.0) ∙ known.1)
    where
      known : (k ≡ m) × (any_state states k.state ≡ true)
      known = known_ok k requested states m h

  -- One of the answers that were told has the wanted public key and is about this key.
  abbrev pub Reads : (KeyAnswer → Type 0) → Bytes → Bytes → Type 0
  Reads Told want arn =
      (a : KeyAnswer) × Told a × (parse_public_key parse parse_key a ≡ ok want) × (a.key_id ≡ arn)

  same_ok :
      (want : Bytes) (r : Result AwsError Bytes) (u : Unit {0})
      → same_public parse parse_key want other_key r ≡ ok u
      → r ≡ ok want
  same_ok want (err x) u h = cc h
  same_ok want (ok p) u h = ap ok ((bytes_eq_iff p want).0 (unflip _ (fail_if_ok _ _ h)))

  checked_ok :
      (Told : KeyAnswer → Type 0) (want arn : Bytes) (a : KeyAnswer) (u : Unit {0})
      → Told a
      → checked_public parse parse_key want arn a ≡ ok u
      → Reads Told want arn
  checked_ok Told want arn a u told h =
      (a, told, same_ok want _ u both.1, (bytes_eq_iff a.key_id arn).0 (unflip _ both.0))
    where
      both :
          (not (bytes_eq a.key_id arn) ≡ false)
          × (same_public parse parse_key want other_key (parse_public_key parse parse_key a) ≡ ok u)
      both = passes _ _ _ u h

  pub enabled_ok :
      (want arn : Bytes) (r : PublicRead) (u : Unit {0})
      → check_enabled parse parse_key want arn r ≡ ok u
      → Reads (λ a. r ≡ reads a) want arn
  unfolding check_enabled
  enabled_ok want arn read_fails u h = cc h
  enabled_ok want arn not_ready u h = cc h
  enabled_ok want arn read_empty u h = cc h
  enabled_ok want arn (reads a) u h = checked_ok _ want arn a u refl h

  counted_ok :
      (Told : KeyAnswer → Type 0) (want arn : Bytes) (r : PublicRead) (b : Bool)
      (later : Result ImportError Bool)
      → ((a : KeyAnswer) → r ≡ reads a → Told a)
      → (later ≡ ok true → Reads Told want arn)
      → (elim r [
        | read_fails ↦ ok false
        | not_ready ↦ if b then ok false else later
        | read_empty ↦ err other_arn
        | reads a ↦ elim (checked_public parse parse_key want arn a) [
          | err x ↦ err x
          | ok u ↦ ok true
        ]
      ])
        ≡ ok true
      → Reads Told want arn
  counted_ok Told want arn read_fails b later t k h = cc h
  counted_ok Told want arn not_ready true later t k h = cc h
  counted_ok Told want arn not_ready false later t k h = k h
  counted_ok Told want arn read_empty b later t k h = cc h
  counted_ok Told want arn (reads a) b later t k h =
      checked_ok Told want arn a tt (t a refl)
        (passed (checked_public parse parse_key want arn a) h)
    where
      passed :
          (r : Result ImportError (Unit {0}))
          → ◌≡◌ {A = Result ImportError Bool} (elim r [ err x ↦ err x | ok u ↦ ok true ]) (ok true)
          → r ≡ ok tt
      passed (err x) h = cc h
      passed (ok u) h = refl

  -- An answer of one of the last attempts to read the key back.
  abbrev pub ToldBack : ImportEnv → ℕ → KeyAnswer → Type 0
  ToldBack e n a = (k : ℕ) × (k < n) × (e.read_back k ≡ reads a)

  -- A key that reads back as ready has the public key of the material.
  pub read_back_ok :
      (e : ImportEnv) (want arn : Bytes) (n : ℕ)
      → read_back parse parse_key e want arn n ≡ ok true
      → Reads (ToldBack e n) want arn
  unfolding read_back
  read_back_ok e want arn zero h = cc h
  read_back_ok e want arn (suc n) h =
      counted_ok (ToldBack e (suc n)) want arn (e.read_back n) (not (n == 0) && e.wait_ends n)
        (read_back parse parse_key e want arn n) (λ a same. (n, omega arith, same))
        (λ g. earlier (read_back_ok e want arn n g)) h
    where
      earlier : Reads (ToldBack e n) want arn → Reads (ToldBack e (suc n)) want arn
      earlier (a, (k, under, same), p, q) = (a, (k, omega (arith, under), same), p, q)
