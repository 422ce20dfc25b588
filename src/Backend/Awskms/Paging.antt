-- ===== src/Backend/Awskms/Paging.antt =====
-- ClusterBinding of internal/backend/awskms_binding.go: its loop over the pages of tags ends.
use cosmosigner.Prelude.{
  ◌≡◌, refl, ap, ◌∙◌, sym, inl, inr, ℕ, zero, suc, ◌+◌, ◌≤◌, Bytes, bytes_eq, bytes_eq_iff,
  is_empty, ◌++◌, subst, Bool, true, false, true≢false, ◌||◌, Option, none, some, List, [], ◌∷◌,
  length, All, In, Result, ok, err, arith,
}
use cosmosigner.Backend.{
  BindingError, unclaimed, corrupt, unreadable, mismatch, unsupported, invalid_id, cancelled,
  io_failed,
}
use cosmosigner.Backend.Awskms.{
  Page, failed_page, empty_page, page, Tags, scan, found_tag, is_seen, read_pages, cluster_binding,
}
use cosmosigner.Backend.Awskms.Reading.{Reading, IsRead, scan_all, scan-append, scan_err}

abbrev Distinct : List Bytes → Type 0
Distinct [] = Unit
Distinct (x ∷ xs) = (is_seen x xs ≡ false) × Distinct xs

abbrev Within : List Bytes → List Bytes → Type 0
Within ms xs = All (λ x. In x ms) xs

-- A list without one of its items.
record Without (x : Bytes) (ms : List Bytes) : Type 0 where
  rest : List Bytes
  one_less : length ms ≡ suc (length rest)
  others : (y : Bytes) → In y ms → bytes_eq y x ≡ false → In y rest

without : (x : Bytes) (ms : List Bytes) → In x ms → Without x ms
without x [] h = absurd h
without x (m ∷ ms) (inl e) = record { rest = ms; one_less = refl; others = other }
  where
    other : (y : Bytes) → In y (m ∷ ms) → bytes_eq y x ≡ false → In y ms
    other y (inl f) off = absurd (true≢false (sym ((bytes_eq_iff y x).1 (f ∙ sym e)) ∙ off))
    other y (inr k) off = k
without x (m ∷ ms) (inr k) =
    let w = without x ms k in
    record { rest = m ∷ w.rest; one_less = ap suc w.one_less; others = other w }
  where
    other :
        (w : Without x ms) (y : Bytes) → In y (m ∷ ms) → bytes_eq y x ≡ false → In y (m ∷ w.rest)
    other w y (inl f) off = inl f
    other w y (inr j) off = inr (w.others y j off)

none_first : (a b : Bool) → (a || b) ≡ false → (a ≡ false) × (b ≡ false)
none_first true b h = cc h
none_first false b h = (refl, h)

narrowed :
    (x : Bytes) (ms : List Bytes) (w : Without x ms) (xs : List Bytes)
    → is_seen x xs ≡ false
    → Within ms xs
    → Within w.rest xs
narrowed x ms w [] h v = tt
narrowed x ms w (y ∷ xs) h (first, later) =
    let (off, rest) = none_first (bytes_eq y x) (is_seen x xs) h in
    (w.others y first off, narrowed x ms w xs rest later)

pigeonhole : (xs ms : List Bytes) → Distinct xs → Within ms xs → length xs ≤ length ms
pigeonhole [] ms d v = omega arith
pigeonhole (x ∷ xs) ms (new, d) (there, v) =
    let w = without x ms there in
    omega (arith, w.one_less, pigeonhole xs w.rest d (narrowed x ms w xs new v))

-- The markers that a service hands out.
abbrev pub IsMarked : List Bytes → Page → Type 0
IsMarked markers failed_page = Unit
IsMarked markers empty_page = Unit
IsMarked markers (page tags truncated next) = In next markers

module _ (t : Tags) where
  -- What a reading from one call on tells, after the tags of the pages before.
  abbrev From : Option Bytes → Option Bytes → Result BindingError Bytes → Type 0
  From m found (ok id) =
      (ms : List Bytes) × (all : List (Bytes × Bytes)) × Reading t m ms all
      × (scan all found ≡ ok (some id))
  From m found (err unclaimed) =
      (ms : List Bytes) × (all : List (Bytes × Bytes)) × Reading t m ms all
      × (scan all found ≡ ok none)
  From m found (err e) = Unit

  abbrev Ends : Option Bytes → Option Bytes → Option (Result BindingError Bytes) → Type 0
  Ends m found o = (r : Result BindingError Bytes) × (o ≡ some r) × From m found r

  longer :
      (m found id : Option Bytes) (tags : List (Bytes × Bytes)) (n : Bytes)
      (o : Option (Result BindingError Bytes))
      → t m ≡ page tags true n
      → is_empty n ≡ false
      → scan tags found ≡ ok id
      → Ends (some n) id o
      → Ends m found o
  longer m found id tags n o told full scanned (r, same, from) = (r, same, go r from)
    where
      go : (r : Result BindingError Bytes) → From (some n) id r → From m found r
      go (ok i) (ms, all, reading, last) = (
        n ∷ ms,
        tags ++ all,
        (tags, all, told, full, refl, reading),
        scan-append tags all found id scanned ∙ last,
      )
      go (err unclaimed) (ms, all, reading, last) = (
        n ∷ ms,
        tags ++ all,
        (tags, all, told, full, refl, reading),
        scan-append tags all found id scanned ∙ last,
      )
      go (err corrupt) f = tt
      go (err unreadable) f = tt
      go (err mismatch) f = tt
      go (err unsupported) f = tt
      go (err invalid_id) f = tt
      go (err cancelled) f = tt
      go (err io_failed) f = tt

  after_scan :
      (m found : Option Bytes) (tags : List (Bytes × Bytes)) (next : Bytes) (truncated stop : Bool)
      (r : Result BindingError (Option Bytes))
      (rest : Option Bytes → Option (Result BindingError Bytes))
      → t m ≡ page tags truncated next
      → scan tags found ≡ r
      → (truncated ≡ true
          → stop ≡ false
          → (id : Option Bytes) → scan tags found ≡ ok id
          → Ends m found (rest id))
      → Ends m found (elim r [
        | err e ↦ some (err e)
        | ok id ↦ elim truncated [
          | false ↦ some (found_tag id)
          | true ↦ elim stop [ true ↦ some (err unreadable) | false ↦ rest id ]
        ]
      ])
  after_scan m found tags next truncated stop (err e) rest told same h =
      (err e, refl, subst (λ x. From m found (err x)) (sym (scan_err tags found e same)) tt)
  after_scan m found tags next false stop (ok none) rest told same h =
      (err unclaimed, refl, ([], tags, (next, told), same))
  after_scan m found tags next false stop (ok (some id)) rest told same h =
      (ok id, refl, ([], tags, (next, told), same))
  after_scan m found tags next true true (ok id) rest told same h = (err unreadable, refl, tt)
  after_scan m found tags next true false (ok id) rest told same h = h refl refl id same

module _ (t : Tags) (markers : List Bytes)
    (marked : (m : Option Bytes) → IsMarked markers (t m)) where
  pages-Ends :
      (fuel : ℕ) (m : Option Bytes) (p : Page) (seen : List Bytes) (found : Option Bytes)
      → t m ≡ p
      → IsMarked markers p
      → Distinct seen
      → Within markers seen
      → fuel + length seen ≡ suc (length markers)
      → Ends t m found (read_pages fuel t p seen found)
  unfolding read_pages
  pages-Ends fuel m failed_page seen found told at d v len = (err unreadable, refl, tt)
  pages-Ends fuel m empty_page seen found told at d v len = (err unreadable, refl, tt)
  pages-Ends zero m (page tags truncated next) seen found told at d v len =
      let few = pigeonhole seen markers d v in absurd (omega arith)
  pages-Ends (suc fuel) m (page tags truncated next) seen found told at d v len =
      after_scan t m found tags next truncated (is_empty next || is_seen next seen)
        (scan tags found) _ told refl
        λ more fresh id scanned.
          let (full, unseen) = none_first (is_empty next) (is_seen next seen) fresh in
          longer t m found id tags next _ (subst (λ b. t m ≡ page tags b next) more told) full
            scanned
            (pages-Ends fuel (some next) (t (some next)) (next ∷ seen) id refl (marked (some next))
              (unseen, d) (at, v) (omega (arith, len)))

  From-IsRead : (r : Result BindingError Bytes) → From t none none r → IsRead t r
  From-IsRead (ok id) (ms, all, reading, last) =
      let (one, valid) = scan_all all (some id) last in (ms, all, reading, one, valid)
  From-IsRead (err unclaimed) (ms, all, reading, last) = (ms, all, reading, scan_all all none last)
  From-IsRead (err corrupt) f = tt
  From-IsRead (err unreadable) f = tt
  From-IsRead (err mismatch) f = tt
  From-IsRead (err unsupported) f = tt
  From-IsRead (err invalid_id) f = tt
  From-IsRead (err cancelled) f = tt
  From-IsRead (err io_failed) f = tt

  -- The loop of ClusterBinding ends, after at most one call more than the service has markers. It answers
  -- with an identity only where that is valid and the one cluster tag of all the pages, from the first to
  -- one that promises no more, and with an unclaimed key only where none of them has the tag. So a marker
  -- that comes back, or none where more was promised, is neither.
  pub binding_ends :
      (r : Result BindingError Bytes) × (cluster_binding (suc (length markers)) t ≡ some r)
      × IsRead t r
  unfolding cluster_binding
  binding_ends =
      let (r, same, from) =
        pages-Ends (suc (length markers)) none (t none) [] none refl (marked none) tt tt
          (omega arith) in
      (r, same, From-IsRead r from)
