-- ===== src/Backend/Claiming.antt =====
-- What a claim of internal/backend/binding_file.go promises: it never reassigns a marker, and its
-- success is a binding that the key can be used under.
use cosmosigner.Prelude.{
  ◌≡◌, refl, sym, ap, ◌∙◌, subst, inl, inr, Bytes, bytes_eq, bytes_eq_iff, bytes_eq_refl, Bool,
  true, false, true≢false, not, none, some, Result, ok, err, fail_if, if◌then◌else◌, Bool-cases,
  Result-cases, passes, fail_if_ok,
}
use cosmosigner.ClusterId
use cosmosigner.Backend.{
  BindingError, unclaimed, corrupt, unreadable, mismatch, unsupported, invalid_id, cancelled,
  io_failed, require_claim_owner, valid_id, require_cluster_binding,
}
use cosmosigner.Backend.FileBinding.{
  Marker, MarkerCodec, Disk, FileBinding, ReadEnv, read_marker, read_file, read, ClaimEnv, join,
  Claimed, own_marker, owned_by, publish, after_error, attempt, claim_after_read, claim,
}

-- The claim leaves the marker alone, where there is one.
abbrev Untouched : Bytes → Claimed → Type 0
Untouched content r = r.1 ≡ some content

attempt-Untouched :
    (step : Result BindingError (Unit {0})) (content : Bytes) (rest : Claimed)
    → Untouched content rest
    → Untouched content (attempt step (some content) rest)
attempt-Untouched (ok u) content rest h = h
attempt-Untouched (err e) content rest h = refl

after_error-Untouched :
    (content : Bytes) (b : BindingError) (fresh : Claimed)
    → Untouched content fresh
    → Untouched content (after_error (λ c. (err c, some content)) b fresh)
after_error-Untouched content unclaimed fresh h = h
after_error-Untouched content corrupt fresh h = refl
after_error-Untouched content unreadable fresh h = refl
after_error-Untouched content mismatch fresh h = refl
after_error-Untouched content unsupported fresh h = refl
after_error-Untouched content invalid_id fresh h = refl
after_error-Untouched content cancelled fresh h = refl
after_error-Untouched content io_failed fresh h = refl

module _ (x : MarkerCodec) (s : FileBinding) (e : ClaimEnv) (id content : Bytes)
    (kept : e.others (some content) ≡ some content) where
  publish-Untouched : Untouched content (publish x s e id (e.others (some content)))
  unfolding publish
  publish-Untouched = rw kept (if_untouched e.link_fails _)
    where
      if_untouched :
          (b : Bool) (r : Result BindingError (Unit {0}))
          → Untouched content (if b then (err io_failed, some content) else (r, some content))
      if_untouched true r = refl
      if_untouched false r = refl

  claim_after_read-Untouched :
      (r : Result BindingError Bytes)
      → Untouched content (claim_after_read x s e id (some content) r)
  unfolding claim_after_read
  claim_after_read-Untouched (ok owner) = refl
  claim_after_read-Untouched (err b) =
      after_error-Untouched content b _ (attempt-Untouched e.prepared content _ publish-Untouched)

-- A claim never reassigns a key: where a marker is there, whatever fails or succeeds, its contents are
-- the same afterwards, if the other processes do not change it either.
pub claim_keeps :
    (x : MarkerCodec) (s : FileBinding) (e : ClaimEnv) (id content : Bytes)
    → e.others (some content) ≡ some content
    → (claim x s e id (some content)).1 ≡ some content
unfolding claim
claim_keeps x s e id content kept =
    attempt-Untouched (fail_if (not s.has_path) unsupported) content _ (
      attempt-Untouched (valid_id id) content _ (
        attempt-Untouched e.lock content _ (
          attempt-Untouched e.precheck content _ (
            claim_after_read-Untouched x s e id content kept
              (read x s e.first_read (some content))))))

-- A read that nothing disturbs.
abbrev pub quiet : ReadEnv
quiet = record { cancelled_before = false; readable = true; cancelled_after = false }

read-quiet :
    (x : MarkerCodec) (s : FileBinding) (e : ReadEnv) (d : Disk) (owner : Bytes)
    → read x s e d ≡ ok owner
    → read x s quiet d ≡ ok owner
unfolding read read_file
read-quiet x s e none owner h =
    let (path, rest) = passes (not s.has_path) unsupported _ owner h in
    let (open_ctx, told) = passes e.cancelled_before cancelled _ owner rest in
    let (can, last) = passes (not e.readable) unreadable (err unclaimed) owner told in cc last
read-quiet x s e (some content) owner h =
    let (path, rest) = passes (not s.has_path) unsupported _ owner h in
    let (open_ctx, told) = passes e.cancelled_before cancelled _ owner rest in
    let (can, later) = passes (not e.readable) unreadable _ owner told in
    let (still, last) =
      passes e.cancelled_after cancelled (read_marker s (x.decode content)) owner later in
    rw path last

attempt_ok :
    (step : Result BindingError (Unit {0})) (d : Disk) (rest : Claimed)
    → (attempt step d rest).0 ≡ ok tt
    → (step ≡ ok tt) × (attempt step d rest ≡ rest) × (rest.0 ≡ ok tt)
attempt_ok (ok u) d rest h = (refl, refl, h)
attempt_ok (err b) d rest h = cc h

join_ok : (a b : Result BindingError (Unit {0})) → join a b ≡ ok tt → b ≡ ok tt
join_ok (ok u) b h = h
join_ok (err e) b h = cc h

owner_is : (id owner : Bytes) → require_claim_owner id owner ≡ ok tt → owner ≡ id
unfolding require_claim_owner
owner_is id owner h = elim (Bool-cases (bytes_eq owner id)) [
  | inl same ↦ (bytes_eq_iff owner id).0 same
  | inr off ↦
      absurd (true≢false (sym (ap not off) ∙ fail_if_ok (not (bytes_eq owner id)) mismatch h))
]

owned_ok :
    (id : Bytes) (synced : Result BindingError (Unit {0})) (r : Result BindingError Bytes)
    → owned_by id synced r ≡ ok tt
    → r ≡ ok id
owned_ok id synced (ok owner) h =
    ap ok (owner_is id owner (join_ok synced (require_claim_owner id owner) h))
owned_ok id synced (err e) h = cc h

linked :
    (fails : Bool) (d : Disk) (c : Claimed)
    → (if fails then (err io_failed, d) else c).0 ≡ ok tt
    → (if fails then (err io_failed, d) else c) ≡ c
linked true d c h = cc h
linked false d c h = refl

fresh_claim :
    (b : BindingError) (d : Disk) (fresh : Claimed)
    → (after_error (λ c. (err c, d)) b fresh).0 ≡ ok tt
    → after_error (λ c. (err c, d)) b fresh ≡ fresh
fresh_claim unclaimed d fresh h = refl
fresh_claim corrupt d fresh h = cc h
fresh_claim unreadable d fresh h = cc h
fresh_claim mismatch d fresh h = cc h
fresh_claim unsupported d fresh h = cc h
fresh_claim invalid_id d fresh h = cc h
fresh_claim cancelled d fresh h = cc h
fresh_claim io_failed d fresh h = cc h

validated : (id : Bytes) → valid_id id ≡ ok tt → ClusterId.validate id ≡ ok tt
validated id h = elim (Result-cases (ClusterId.validate id)) [
  | inl (u, good) ↦ good
  | inr (b, bad) ↦ cc (
      sym (
        ap
          (λ (r : Result ClusterId.Error (Unit {0})).
            elim r as (λ r. Result BindingError (Unit {0})) [
              | err b ↦ err invalid_id
              | ok u ↦ ok u
            ])
          bad)
      ∙ h)
]

module _ (x : MarkerCodec) (law : (m : Marker) → x.decode (x.encode m) ≡ some m) (s : FileBinding)
    (e : ClaimEnv) (id : Bytes) (path : not s.has_path ≡ false)
    (valid : ClusterId.validate id ≡ ok tt) where
  -- The binding that the disk holds is the claimed identity.
  abbrev Bound : Disk → Type 0
  Bound d = read x s quiet d ≡ ok id

  own-Bound : Bound (some (x.encode (own_marker s id)))
  unfolding read read_file read_marker own_marker
  own-Bound = rw (path, law (own_marker s id), valid, bytes_eq_refl s.public_key)

  publish-Bound : (d : Disk) → (publish x s e id d).0 ≡ ok tt → Bound (publish x s e id d).1
  unfolding publish
  publish-Bound none h =
      subst (λ (c : Claimed). Bound c.1) (sym (linked e.link_fails _ _ h)) own-Bound
  publish-Bound (some content) h =
      let same = linked e.link_fails _ _ h in
      subst (λ (c : Claimed). Bound c.1) (sym same)
        (read-quiet x s e.second_read (some content) id (
          owned_ok id e.sync_published _
            (join_ok e.cleanup _ (sym (ap (λ (c : Claimed). c.0) same) ∙ h))))

  claim_after_read-Bound :
      (d : Disk) (r : Result BindingError Bytes)
      → r ≡ read x s e.first_read d
      → (claim_after_read x s e id d r).0 ≡ ok tt
      → Bound (claim_after_read x s e id d r).1
  unfolding claim_after_read
  claim_after_read-Bound d (ok owner) seen h =
      read-quiet x s e.first_read d id (sym seen ∙ owned_ok id e.sync_published (ok owner) h)
  claim_after_read-Bound d (err b) seen h =
      let fresh = attempt e.prepared d (publish x s e id (e.others d)) in
      let same : after_error (λ c. (err c, d)) b fresh ≡ fresh = fresh_claim b d fresh h in
      let (prepared, whole, told) =
        attempt_ok e.prepared d (publish x s e id (e.others d))
          (sym (ap (λ (c : Claimed). c.0) same) ∙ h) in
      subst (λ (c : Claimed). Bound c.1) (sym (same ∙ whole)) (publish-Bound (e.others d) told)

binding_required :
    (r : Result BindingError Bytes) (id : Bytes)
    → valid_id id ≡ ok tt
    → r ≡ ok id
    → require_cluster_binding r id ≡ ok tt
unfolding require_cluster_binding
binding_required r id good e = rw (good, e, bytes_eq_refl id)

-- A claim that succeeds is a binding: the key can then be used under the claimed identity and no
-- other, whether the claim wrote the marker or found it, given that a marker decodes from its encoding.
pub claim_binds :
    (x : MarkerCodec) (s : FileBinding) (e : ClaimEnv) (id : Bytes) (d : Disk)
    → ((m : Marker) → x.decode (x.encode m) ≡ some m)
    → (claim x s e id d).0 ≡ ok tt
    → (read x s quiet (claim x s e id d).1 ≡ ok id)
      × (require_cluster_binding (read x s quiet (claim x s e id d).1) id ≡ ok tt)
unfolding claim
claim_binds x s e id d law h =
    let body = claim_after_read x s e id d (read x s e.first_read d) in
    let (path, e1, h1) = attempt_ok (fail_if (not s.has_path) unsupported) d _ h in
    let (valid, e2, h2) = attempt_ok (valid_id id) d _ h1 in
    let (lock, e3, h3) = attempt_ok e.lock d _ h2 in
    let (check, e4, h4) = attempt_ok e.precheck d body h3 in
    let good = validated id valid in
    let bound =
      claim_after_read-Bound x law s e id (fail_if_ok (not s.has_path) unsupported path) good d
        (read x s e.first_read d) refl h4 in
    let held =
      subst (λ (c : Claimed). read x s quiet c.1 ≡ ok id) (sym (e1 ∙ e2 ∙ e3 ∙ e4)) bound in
    (held, binding_required _ id valid held)
