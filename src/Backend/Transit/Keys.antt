-- ===== src/Backend/Transit/Keys.antt =====
-- internal/backend/vault.go: the version of a Transit key that is chosen, its signatures, and what the
-- checks of a token say.
use cosmosigner.Prelude.{
  ◌≡◌, refl, ap, ◌∙◌, subst, ◌↔◌, ◌⊎◌, inl, inr, ℕ, ◌==◌, Bytes, codes, bytes_eq_refl, is_empty,
  Bool, true, false, not, ◌&&◌, Option, none, some, [], ◌∷◌, ◌++◌, length, All, ok, or_fail,
  fail_if, ok_inj, some_inj, chain_ok, fail_if_ok, passes, Bool-cases, ==_iff, arith,
}
use cosmosigner.Prelude.Int.{ℤ, ltb_ℤ}
use cosmosigner.Prelude.Assoc.{Assoc, lookup}
use cosmosigner.Prelude.Base64
use cosmosigner.Prelude.Base64.{IsByte, decode-encode, encode-no_colon}
use cosmosigner.Backend.Addressing.{split}
use cosmosigner.Backend.VaultBinding.{Value}
use cosmosigner.Backend.Transit.{
  TransitError, below_minimum, bad_minimum, bad_latest, Version, malformed, version, KeyInfo,
  KeyRead, failed, absent, found, Fetched, to_int, itoa, is_other_type, wrong_type, no_versions,
  not_found, lacks_update, not_renewable, not_verified, selected, minimum_for, decoded, sized,
  entry_key, fetch_version, fetch_found, fetch_if_exists, fetch_pub_key, signature_of,
  parse_transit_signature, sign_with, preflight, Capabilities, denied, failed_caps, capabilities,
  Lookup, denied_lookup, failed_lookup, lease, Answers, has_capability, may_update, can_live,
  verify_signing_key, verify_can_sign,
}

abbrev HasNoColon : Bytes → Type 0
HasNoColon s = All (λ c. (c == 58) ≡ false) s

split-plain : (s : Bytes) → HasNoColon s → split 58 s ≡ s ∷ []
unfolding split
split-plain [] h = refl
split-plain (c ∷ s) (hc, hs) = rw (hc, split-plain s hs) refl

split-colon : (s t : Bytes) → HasNoColon s → split 58 (s ++ (58 ∷ t)) ≡ s ∷ split 58 t
unfolding split
split-colon [] t h = refl
split-colon (c ∷ s) t (hc, hs) = rw (hc, split-colon s t hs) refl

-- The text in which Vault answers a signature made with the version `v`.
abbrev pub transit_signature : Bytes → Bytes → Bytes
transit_signature v signature = codes "vault" ++ (58 ∷ (v ++ (58 ∷ Base64.encode signature)))

sized-exact : (n : ℕ) (s : Bytes) → length s ≡ n → sized n s ≡ ok s
sized-exact n s h = let same : (length s == n) ≡ true = (==_iff (length s) n).1 h in rw same refl

-- Every signature of 64 bytes is read back from Vault's text for it, whatever version that names.
pub parse_transit_signature-text :
    (v signature : Bytes)
    → All (λ c. (c == 58) ≡ false) v
    → All IsByte signature
    → length signature ≡ 64
    → parse_transit_signature (transit_signature v signature) ≡ ok signature
unfolding parse_transit_signature
parse_transit_signature-text v signature plain bytes size =
    ap signature_of (
      split-colon (codes "vault") (v ++ (58 ∷ Base64.encode signature))
        (refl, (refl, (refl, (refl, (refl, tt)))))
      ∙ ap (◌∷◌ (codes "vault")) (
          split-colon v (Base64.encode signature) plain
          ∙ ap (◌∷◌ v) (split-plain _ (encode-no_colon signature bytes))))
    ∙ rw (bytes_eq_refl (codes "vault"), decode-encode signature bytes)
        (sized-exact 64 signature size)

-- The version that a key was fetched with: the one that was asked for, or the latest where none was; one
-- not below the least one that Vault signs with, if it names one; and the key that its entry holds, of 32 bytes.
pub record IsChosen (requested : ℤ) (r : KeyRead) (f : Fetched) : Type 0 where
  pub info : KeyInfo
  pub was_found : r ≡ found info
  pub latest : ℤ
  pub keys : Assoc Version
  pub latest_read : to_int bad_latest info.latest_version ≡ ok latest
  pub keys_read : info.versions ≡ some keys
  pub chosen : f.key_version ≡ selected requested latest
  pub signs_still : (ltb_ℤ f.key_version f.minimum ≡ false) ⊎ (info.min_encryption_version ≡ none)
  pub entry : entry_key (lookup (itoa f.key_version) keys) ≡ ok f.pub_key
  pub size : length f.pub_key ≡ 32

sized-length : (n : ℕ) (s t : Bytes) → sized n s ≡ ok t → length t ≡ n
sized-length n s t h =
    let (fits, same) = passes (not (length s == n)) _ (ok s) t h in
    subst (λ u. length u ≡ n) (ok_inj same) (size (Bool-cases (length s == n)) fits)
  where
    size :
        ((length s == n) ≡ true) ⊎ ((length s == n) ≡ false)
        → not (length s == n) ≡ false
        → length s ≡ n
    size (inl e) h = (==_iff (length s) n).0 e
    size (inr e) h = cc (rw e at h)

entry_key-length : (o : Option Version) (t : Bytes) → entry_key o ≡ ok t → length t ≡ 32
unfolding entry_key
entry_key-length none t h = cc h
entry_key-length (some malformed) t h = cc h
entry_key-length (some (version none)) t h = cc h
entry_key-length (some (version (some pk))) t h =
    let (filled, rest) = passes (is_empty pk) _ _ t h in
    let (raw, fits, was) = chain_ok (decoded pk) rest in sized-length 32 raw t fits

minimum-signs :
    (v m : ℤ) (raw : Option Value)
    → minimum_for true v raw ≡ ok m
    → (ltb_ℤ v m ≡ false) ⊎ (raw ≡ none)
unfolding minimum_for
minimum-signs v m none h = inr refl
minimum-signs v m (some raw) h =
    let (least, rest, was) = chain_ok (to_int bad_minimum (some raw)) h in
    let (above, same) = passes (ltb_ℤ v least) below_minimum (ok least) m rest in
    inl (subst (λ k. ltb_ℤ v k ≡ false) (ok_inj same) above)

or_fail-some :
    {A : Type 0} (o : Option A) (e : TransitError) (a : A) → or_fail o e ≡ ok a → o ≡ some a
or_fail-some none e a h = cc h
or_fail-some (some b) e a h = ap some (ok_inj h)

version-IsChosen :
    (requested latest : ℤ) (i : KeyInfo) (keys : Assoc Version) (f : Fetched)
    → to_int bad_latest i.latest_version ≡ ok latest
    → i.versions ≡ some keys
    → fetch_version true (selected requested latest) i.min_encryption_version keys ≡ ok (some f)
    → IsChosen requested (found i) f
unfolding fetch_version
version-IsChosen requested latest i keys f latest_read keys_read h =
    let (minimum, rest, least) =
      chain_ok (minimum_for true (selected requested latest) i.min_encryption_version) h in
    let (pk, built, entry) =
      chain_ok (entry_key (lookup (itoa (selected requested latest)) keys)) rest in
    subst (IsChosen requested (found i)) (some_inj.0 (ok_inj built)) (record {
      info = i;
      was_found = refl;
      latest = latest;
      keys = keys;
      latest_read = latest_read;
      keys_read = keys_read;
      chosen = refl;
      signs_still = minimum-signs _ minimum i.min_encryption_version least;
      entry = entry;
      size = entry_key-length _ pk entry;
    })

found-IsChosen :
    (requested : ℤ) (i : KeyInfo) (f : Fetched)
    → fetch_found true requested i ≡ ok (some f)
    → IsChosen requested (found i) f
unfolding fetch_found
found-IsChosen requested i f h =
    let (u, rest, typed) = chain_ok (fail_if (is_other_type i.key_type) wrong_type) h in
    let (latest, rest', latest_read) = chain_ok (to_int bad_latest i.latest_version) rest in
    let (keys, rest'', keys_read) = chain_ok (or_fail i.versions no_versions) rest' in
    version-IsChosen requested latest i keys f latest_read
      (or_fail-some i.versions no_versions keys keys_read) rest''

-- A key that is fetched for signing is the version that the configuration names, or the latest one where
-- it names none, and no other; Vault still signs with it; its public key has 32 bytes.
pub fetch_pub_key-IsChosen :
    (requested : ℤ) (r : KeyRead) (f : Fetched)
    → fetch_pub_key requested r ≡ ok f
    → IsChosen requested r f
unfolding fetch_pub_key fetch_if_exists
fetch_pub_key-IsChosen requested failed f h = cc h
fetch_pub_key-IsChosen requested absent f h = cc h
fetch_pub_key-IsChosen requested (found i) f h =
    let (o, rest, was) = chain_ok (fetch_found true requested i) h in
    found-IsChosen requested i f (was ∙ ap ok (or_fail-some o not_found f rest))

-- What a token must be able to do.
abbrev pub MayUpdate : Capabilities → Type 0
MayUpdate denied = Unit
MayUpdate failed_caps = ⊥
MayUpdate (capabilities caps) = has_capability caps (codes "update") ≡ true

abbrev pub CanLive : Lookup → Type 0
CanLive denied_lookup = ⊥
CanLive failed_lookup = ⊥
CanLive (lease l) = (l.ttl ≡ 0) ⊎ (l.renewable ≡ true)

pub record IsReady (verify : Bytes → Bytes → Bytes → Bool) (pub_key : Bytes) (a : Answers)
    : Type 0 where
  pub may_sign : MayUpdate a.capabilities_self
  pub stays_alive : CanLive a.lookup_self
  pub signature : Bytes
  pub signs : sign_with a.probe ≡ ok signature
  pub verifies : verify pub_key preflight signature ≡ true

unflip : (b : Bool) → not b ≡ false → b ≡ true
unflip true h = refl
unflip false h = cc h

may_update_iff : (c : Capabilities) → (may_update c ≡ ok tt) ↔ MayUpdate c
may_update_iff denied = (λ h. tt, λ h. refl)
may_update_iff failed_caps = (λ h. cc h, λ h. absurd h)
may_update_iff (capabilities caps) = (λ h. unflip _ (fail_if_ok _ lacks_update h), λ h. rw h refl)

living : (n : ℕ) (b : Bool) → not (n == 0) && not b ≡ false → (n ≡ 0) ⊎ (b ≡ true)
living n true h = inr refl
living n false h = ground arith

living_back : (n : ℕ) (b : Bool) → (n ≡ 0) ⊎ (b ≡ true) → not (n == 0) && not b ≡ false
living_back n b h = ground arith

can_live_iff : (l : Lookup) → (can_live l ≡ ok tt) ↔ CanLive l
can_live_iff denied_lookup = (λ h. cc h, λ h. absurd h)
can_live_iff failed_lookup = (λ h. cc h, λ h. absurd h)
can_live_iff (lease l) = (
  λ h. living l.ttl l.renewable (fail_if_ok _ not_renewable h),
  λ h. ap (λ b. fail_if b not_renewable) (living_back l.ttl l.renewable h),
)

-- A token passes the checks of a start, or of a replacement, exactly when its capabilities allow an
-- update or it may not read them, its lease is renewable or has no end, and Vault signs the probe with
-- it so that the signature verifies under the cached key.
pub verify_can_sign-IsReady :
    (verify : Bytes → Bytes → Bytes → Bool) (pub_key : Bytes) (a : Answers)
    → (verify_can_sign verify pub_key a ≡ ok tt) ↔ IsReady verify pub_key a
unfolding verify_can_sign verify_signing_key
verify_can_sign-IsReady verify pub_key a = (forth, back)
  where
    forth : verify_can_sign verify pub_key a ≡ ok tt → IsReady verify pub_key a
    forth h =
        let (u, rest, may) = chain_ok (may_update a.capabilities_self) h in
        let (u', rest', lives) = chain_ok (can_live a.lookup_self) rest in
        let (signature, checked, signs) = chain_ok (sign_with a.probe) rest' in
        record {
          may_sign = (may_update_iff a.capabilities_self).0 may;
          stays_alive = (can_live_iff a.lookup_self).0 lives;
          signature = signature;
          signs = signs;
          verifies = unflip _ (fail_if_ok _ not_verified checked);
        }

    back : IsReady verify pub_key a → verify_can_sign verify pub_key a ≡ ok tt
    back r =
        rw
          (
            (may_update_iff a.capabilities_self).1 r.may_sign,
            (can_live_iff a.lookup_self).1 r.stays_alive,
            r.signs,
            r.verifies,
          )
          refl
