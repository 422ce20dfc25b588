-- ===== src/Backend/Awskms/Reading.antt =====
-- ClusterBinding of internal/backend/awskms_binding.go: what a whole reading of a key's tags is, and what the
-- scan of the pages finds.
use cosmosigner.Prelude.{
  ◌≡◌, refl, ap, ◌∙◌, sym, Bytes, bytes_eq, is_empty, if◌then◌else◌, ◌++◌, ok_inj, chain_ok, subst,
  ◌>>=◌, Bool, true, false, Option, none, some, List, [], ◌∷◌, Result, ok, err,
}
use cosmosigner.ClusterId
use cosmosigner.Backend.{BindingError, unclaimed, corrupt}
use cosmosigner.Backend.Awskms.{page, Tags, tag_key, valid_tag, first_tag, scan}

-- A reading from one call on: the pages follow the markers, every page before the last promises more and
-- names the next marker, and the last one promises no more. The list is all their tags.
abbrev pub Reading : Tags → Option Bytes → List Bytes → List (Bytes × Bytes) → Type 0
Reading t m [] all = (next : Bytes) × (t m ≡ page all false next)
Reading t m (n ∷ ns) all =
    (tags : List (Bytes × Bytes)) × (rest : List (Bytes × Bytes)) × (t m ≡ page tags true n)
    × (is_empty n ≡ false)
    × (all ≡ tags ++ rest)
    × Reading t (some n) ns rest

-- The values of the cluster tag.
abbrev pub cluster_tags : List (Bytes × Bytes) → List Bytes
cluster_tags [] = []
cluster_tags ((k, v) ∷ tags) =
    let more = cluster_tags tags in if bytes_eq k tag_key then v ∷ more else more

abbrev pub Tagged : Option Bytes → List Bytes → Type 0
Tagged none vs = vs ≡ []
Tagged (some id) vs = (vs ≡ id ∷ []) × (ClusterId.validate id ≡ ok tt)

-- An identity is the one cluster tag of a whole reading, and a key is unclaimed where that has none.
abbrev pub IsRead : Tags → Result BindingError Bytes → Type 0
IsRead t (ok id) =
    (ms : List Bytes) × (all : List (Bytes × Bytes)) × Reading t none ms all
    × (cluster_tags all ≡ id ∷ [])
    × (ClusterId.validate id ≡ ok tt)
IsRead t (err unclaimed) =
    (ms : List Bytes) × (all : List (Bytes × Bytes)) × Reading t none ms all
    × (cluster_tags all ≡ [])
IsRead t (err e) = Unit

valid_ok :
    (v : Bytes) (id : Bytes) → valid_tag v ≡ ok id → (v ≡ id) × (ClusterId.validate v ≡ ok tt)
valid_ok v id h = go (ClusterId.validate v) h
  where
    go :
        (r : Result ClusterId.Error (Unit {0}))
        → ◌≡◌ {A = Result BindingError Bytes} (elim r [ err e ↦ err corrupt | ok u ↦ ok v ]) (ok id)
        → (v ≡ id) × (r ≡ ok tt)
    go (err e) h = cc h
    go (ok u) h = (ok_inj h, refl)

scan_tagged :
    (tags : List (Bytes × Bytes)) (id : Bytes) (o : Option Bytes)
    → scan tags (some id) ≡ ok o
    → (o ≡ some id) × (cluster_tags tags ≡ [])
unfolding scan
scan_tagged [] id o h = (sym (ok_inj h), refl)
scan_tagged ((k, v) ∷ tags) id o h = go (bytes_eq k tag_key) (scan_tagged tags id o) h
  where
    go :
        (b : Bool)
        → (scan tags (some id) ≡ ok o → (o ≡ some id) × (cluster_tags tags ≡ []))
        → (if b then first_tag (some id) v >>= scan tags else scan tags (some id)) ≡ ok o
        → (o ≡ some id) × ((if b then v ∷ cluster_tags tags else cluster_tags tags) ≡ [])
    go true later h = cc h
    go false later h = later h

pub scan_all :
    (tags : List (Bytes × Bytes)) (o : Option Bytes)
    → scan tags none ≡ ok o
    → Tagged o (cluster_tags tags)
unfolding scan
scan_all [] o h = subst (λ o. Tagged o []) (ok_inj h) refl
scan_all ((k, v) ∷ tags) o h = go (bytes_eq k tag_key) (scan_all tags o) h
  where
    go :
        (b : Bool)
        → (scan tags none ≡ ok o → Tagged o (cluster_tags tags))
        → (if b then first_tag none v >>= scan tags else scan tags none) ≡ ok o
        → Tagged o (if b then v ∷ cluster_tags tags else cluster_tags tags)
    go true later h =
        let (first, rest, one) = chain_ok (first_tag none v) h in
        let (id, same, valid) = chain_ok (valid_tag v) one in
        let (name, good) = valid_ok v id valid in
        let (same_o, no_more) = scan_tagged tags id o (ap (scan tags) (ok_inj same) ∙ rest) in
        subst (λ o. Tagged o (v ∷ cluster_tags tags)) (sym same_o)
          (
            ap (◌∷◌ v) no_more ∙ ap (λ w. w ∷ []) name,
            subst (λ w. ClusterId.validate w ≡ ok tt) name good,
          )
    go false later h = later h

pub scan-append :
    (tags rest : List (Bytes × Bytes)) (found id : Option Bytes)
    → scan tags found ≡ ok id
    → scan (tags ++ rest) found ≡ scan rest id
unfolding scan
scan-append [] rest found id h = ap (scan rest) (ok_inj h)
scan-append ((k, v) ∷ tags) rest found id h =
    go (bytes_eq k tag_key) (λ first. scan-append tags rest first id) h
  where
    go :
        (b : Bool)
        → ((first : Option Bytes)
            → scan tags first ≡ ok id
            → scan (tags ++ rest) first ≡ scan rest id)
        → (if b then first_tag found v >>= scan tags else scan tags found) ≡ ok id
        → (if b then first_tag found v >>= scan (tags ++ rest) else scan (tags ++ rest) found)
          ≡ scan rest id
    go true later h =
        let (first, told, one) = chain_ok (first_tag found v) h in
        ap (λ r. r >>= scan (tags ++ rest)) one ∙ later first told
    go false later h = later found h

pub scan_err :
    (tags : List (Bytes × Bytes)) (found : Option Bytes) (e : BindingError)
    → scan tags found ≡ err e
    → e ≡ corrupt
unfolding scan
scan_err [] found e h = cc h
scan_err ((k, v) ∷ tags) found e h = go (bytes_eq k tag_key) (λ first. scan_err tags first e) h
  where
    valid_err :
        (r : Result ClusterId.Error (Unit {0}))
        → ((first : Option Bytes) → scan tags first ≡ err e → e ≡ corrupt)
        → (((elim r [ err x ↦ err corrupt | ok u ↦ ok v ]) >>= λ id. ok (some id)) >>= scan tags)
          ≡ err e
        → e ≡ corrupt
    valid_err (err x) later h = cc h
    valid_err (ok u) later h = later (some v) h

    first_err :
        (o : Option Bytes)
        → ((first : Option Bytes) → scan tags first ≡ err e → e ≡ corrupt)
        → (first_tag o v >>= scan tags) ≡ err e
        → e ≡ corrupt
    first_err (some id) later h = cc h
    first_err none later h = valid_err (ClusterId.validate v) later h

    go :
        (b : Bool)
        → ((first : Option Bytes) → scan tags first ≡ err e → e ≡ corrupt)
        → (if b then first_tag found v >>= scan tags else scan tags found) ≡ err e
        → e ≡ corrupt
    go true later h = first_err found later h
    go false later h = later found h
