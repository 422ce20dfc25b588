-- ===== src/Start/Prepared.antt =====
-- prepareStartupWithClaim of cmd/cosmosigner/cmd/start.go: under which claim a signer starts.
use cosmosigner.Prelude.{
  ◌≡◌, refl, sym, ap, ◌∙◌, subst, ◌⊎◌, inl, inr, Bytes, bytes_eq, bytes_eq_iff, Bool, true, false,
  true≢false, not, Option, none, some, Result, ok, err, ◌>>=◌, fail_if, fail_if_ok, passes,
  chain_ok, ok_inj, if◌then◌else◌, Bool-cases, Result-cases,
}
use cosmosigner.ClusterId
use cosmosigner.Backend.{
  BindingError, unclaimed, corrupt, unreadable, mismatch, unsupported, invalid_id, cancelled,
  io_failed, valid_id, require_cluster_binding,
}
use cosmosigner.Start.{
  no_preflight, context_done, no_renewal, StartEnv, Start, has_failed, finish, is_unclaimed,
  try_claim, claim_if, prepare_with, prepare_named, prepare_startup,
}

required :
    (r : Result BindingError Bytes) (id : Bytes) → require_cluster_binding r id ≡ ok tt → r ≡ ok id
unfolding require_cluster_binding
required r id h =
    let (u, rest, valid) = chain_ok (valid_id id) h in
    let (actual, last, read) = chain_ok r rest in
    read ∙ ap ok (same_id actual (fail_if_ok (not (bytes_eq actual id)) mismatch last))
  where
    same_id : (actual : Bytes) → not (bytes_eq actual id) ≡ false → actual ≡ id
    same_id actual off = elim (Bool-cases (bytes_eq actual id)) [
      | inl same ↦ (bytes_eq_iff actual id).0 same
      | inr other ↦ absurd (true≢false (sym (ap not other) ∙ off))
    ]

-- The start goes on after the binding.
abbrev Goes : StartEnv → Type 0
Goes e = (has_failed e.preflight ≡ false) × (e.is_done ≡ false) × (has_failed e.renewal ≡ false)

finish_ok :
    (e : StartEnv) (id out : Bytes) (bound : Result BindingError (Unit {0}))
    → finish e id bound ≡ ok out
    → (out ≡ id) × (bound ≡ ok tt) × Goes e
unfolding finish
finish_ok e id out (err b) h = cc h
finish_ok e id out (ok u) h =
    let (a, h1) = passes (has_failed e.preflight) no_preflight _ out h in
    let (b, h2) = passes e.is_done context_done _ out h1 in
    let (c, h3) = passes (has_failed e.renewal) no_renewal (ok id) out h2 in
    (sym (ok_inj h3), refl, (a, b, c))

-- The binding that the start rests on: the first one, without a claim, or the one after its claim.
abbrev Bound : StartEnv → Bytes → Start → Type 0
Bound e id s =
    ((e.first_binding ≡ ok id) × (s.1 ≡ false))
    ⊎ ((e.second_binding ≡ ok id) × (e.claim ≡ some (ok tt)) × (s.1 ≡ true))

abbrev Rests : StartEnv → Bytes → Bytes → Start → Type 0
Rests e id out s = (out ≡ id) × Bound e id s × Goes e

unclaimed_first :
    (e : StartEnv) (id out : Bytes)
    → finish e id (require_cluster_binding e.first_binding id) ≡ ok out
    → Rests e id out (finish e id (require_cluster_binding e.first_binding id), false)
unclaimed_first e id out h =
    let (same, bound, goes) = finish_ok e id out (require_cluster_binding e.first_binding id) h in
    (same, inl (required e.first_binding id bound, refl), goes)

try_claim-Rests :
    (e : StartEnv) (id out : Bytes) (c : Result BindingError (Unit {0}))
    → e.claim ≡ some c
    → (try_claim e id c).0 ≡ ok out
    → Rests e id out (try_claim e id c)
unfolding try_claim
try_claim-Rests e id out (err b) there h = cc h
try_claim-Rests e id out (ok u) there h =
    let (same, bound, goes) = finish_ok e id out (require_cluster_binding e.second_binding id) h in
    (same, inr (required e.second_binding id bound, there, refl), goes)

claim_if-Rests :
    (e : StartEnv) (id out : Bytes) (c : Option (Result BindingError (Unit {0})))
    → e.claim ≡ c
    → (claim_if e id c (require_cluster_binding e.first_binding id)).0 ≡ ok out
    → Rests e id out (claim_if e id c (require_cluster_binding e.first_binding id))
claim_if-Rests e id out none there h = unclaimed_first e id out h
claim_if-Rests e id out (some c) there h =
    choose (is_unclaimed (require_cluster_binding e.first_binding id)) h
  where
    choose :
        (b : Bool)
        → (if b
            then try_claim e id c
            else (finish e id (require_cluster_binding e.first_binding id), false)).0
          ≡ ok out
        → Rests e id out (
            if b
            then try_claim e id c
            else (finish e id (require_cluster_binding e.first_binding id), false))
    choose true h = try_claim-Rests e id out c there h
    choose false h = unclaimed_first e id out h

named-Rests :
    (e : StartEnv) (id : Bytes) (named : Option Bytes)
    → e.cluster_id ≡ named
    → (prepare_named e false named).0 ≡ ok id
    → (e.cluster_id ≡ some id) × Bound e id (prepare_named e false named) × Goes e
unfolding prepare_named prepare_with
named-Rests e id none there h = cc h
named-Rests e id (some own) there h =
    let (same, bound, goes) = claim_if-Rests e own id e.claim refl h in
    (
      there ∙ ap some (sym same),
      subst (λ i. Bound e i (claim_if e own e.claim (require_cluster_binding e.first_binding own)))
          (sym same) bound,
      goes,
    )

-- A signer starts only under a claim that names its cluster: the identity that the start returns is
-- Raft's, and the runtime backend has read it from the key, at once or after this start has claimed
-- the key; the preflight, the renewal and the context have not failed.
pub prepare_startup-Rests :
    (e : StartEnv) (id : Bytes)
    → (prepare_startup e false).0 ≡ ok id
    → (e.cluster_id ≡ some id)
      × (((e.first_binding ≡ ok id) × ((prepare_startup e false).1 ≡ false))
          ⊎ ((e.second_binding ≡ ok id)
              × (e.claim ≡ some (ok tt))
              × ((prepare_startup e false).1 ≡ true)))
      × ((has_failed e.preflight ≡ false) × (e.is_done ≡ false) × (has_failed e.renewal ≡ false))
unfolding prepare_startup
prepare_startup-Rests e id h = named-Rests e id e.cluster_id refl h

read_error :
    (r : Result BindingError Bytes) (id : Bytes)
    → is_unclaimed (r >>= λ actual. fail_if (not (bytes_eq actual id)) mismatch) ≡ true
    → r ≡ err unclaimed
read_error (ok actual) id h = elim (Bool-cases (bytes_eq actual id)) [
  | inl same ↦ cc (rw same at h)
  | inr other ↦ cc (rw other at h)
]
read_error (err unclaimed) id h = refl
read_error (err corrupt) id h = cc h
read_error (err unreadable) id h = cc h
read_error (err mismatch) id h = cc h
read_error (err unsupported) id h = cc h
read_error (err invalid_id) id h = cc h
read_error (err cancelled) id h = cc h
read_error (err io_failed) id h = cc h

id_cases : (id : Bytes) → (valid_id id ≡ ok tt) ⊎ (valid_id id ≡ err invalid_id)
id_cases id = elim (Result-cases (ClusterId.validate id)) [
  | inl (u, good) ↦ inl (rw (good, valid_id))
  | inr (b, bad) ↦ inr (rw (bad, valid_id))
]

abbrev ReadUnder : Result BindingError Bytes → Bytes → Result BindingError (Unit {0}) → Type 0
ReadUnder r id v =
    is_unclaimed (v >>= λ u. r >>= λ actual. fail_if (not (bytes_eq actual id)) mismatch) ≡ true

unclaimed_read :
    (r : Result BindingError Bytes) (id : Bytes)
    → is_unclaimed (require_cluster_binding r id) ≡ true
    → r ≡ err unclaimed
unfolding require_cluster_binding
unclaimed_read r id h = elim (id_cases id) [
  | inl good ↦ read_error r id (subst (ReadUnder r id) good h)
  | inr bad ↦ absurd (true≢false (sym (subst (ReadUnder r id) bad h)))
]

named_unowned :
    (e : StartEnv) (initialize_only : Bool) (named : Option Bytes)
    → (prepare_named e initialize_only named).1 ≡ true
    → (initialize_only ≡ false) × (e.first_binding ≡ err unclaimed)
unfolding prepare_named prepare_with
named_unowned e initialize_only none h = absurd (true≢false (sym h))
named_unowned e true (some id) h = absurd (true≢false (sym h))
named_unowned e false (some id) h = (refl, asked e.claim h)
  where
    asked :
        (c : Option (Result BindingError (Unit {0})))
        → (claim_if e id c (require_cluster_binding e.first_binding id)).1 ≡ true
        → e.first_binding ≡ err unclaimed
    asked none h = absurd (true≢false (sym h))
    asked (some c) h =
        elim (Bool-cases (is_unclaimed (require_cluster_binding e.first_binding id))) [
          | inl none_there ↦ unclaimed_read e.first_binding id none_there
          | inr other ↦ absurd (true≢false (sym (rw other at h)))
        ]

-- A key that somebody owns is never claimed: a start calls the claim only where the runtime backend has
-- read that the key has no owner.
pub claims_unowned :
    (e : StartEnv) (initialize_only : Bool)
    → (prepare_startup e initialize_only).1 ≡ true
    → (initialize_only ≡ false) × (e.first_binding ≡ err unclaimed)
unfolding prepare_startup
claims_unowned e initialize_only h = named_unowned e initialize_only e.cluster_id h
