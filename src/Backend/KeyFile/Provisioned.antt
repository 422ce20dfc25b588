-- ===== src/Backend/KeyFile/Provisioned.antt =====
-- ProvisionSoftwareKey of internal/backend/software_file.go: what a provisioning leaves at the key's path,
-- wherever it fails.
use cosmosigner.Prelude.{
  ◌≡◌, refl, sym, ap, ◌∙◌, subst, ◌⊎◌, inl, inr, ◌==◌, ==_iff, Bytes, Bool, true, false, not,
  Option, none, some, [], ◌∷◌, length, take, Result, ok, err, ok_inj, fail_if, fail_if_ok, or_fail,
  if◌then◌else◌,
}
use cosmosigner.Prelude.Exec.{
  Lands, Leads, bind-leads, if_eq-leads, lift-leads, lift_eq-leads, check-leads, gets-leads,
  modify-leads, skip-leads, pure-leads,
}
use cosmosigner.Backend.KeyFile.{KeyFileError, KeyCodec, not_encoded, short_write, not_unlocked}
use cosmosigner.Backend.KeyFile.Provision.{
  Files, Filing, ProvisionEnv, failing, is_some, fresh_key, remove_temporary, removed, removing,
  fill, sync_directory, write_body, write_then_answer, write_atomically, check_existing,
  check_replaceable, replace, unlocked, unlocking, with_lock, provision,
}

take_all : (b : Bytes) → take (length b) b ≡ b
take_all [] = refl
take_all (x ∷ b) = ap (◌∷◌ x) (take_all b)

not_some : (o : Option Bytes) → is_some o ≡ false → o ≡ none
not_some none h = refl
not_some (some a) h = cc h

encoded :
    (o : Option Bytes) {c : Bytes}
    → ◌≡◌ {A = Result KeyFileError Bytes} (or_fail o not_encoded) (ok c)
    → o ≡ some c
encoded none h = cc h
encoded (some d) h = ap some (ok_inj h)

module _ (x : KeyCodec) (e : ProvisionEnv) (s₀ : Files) where
  -- A replacement is allowed: nothing claims the key, and it is new or to be overwritten.
  abbrev pub IsAllowed : Type 0
  IsAllowed = (s₀.marker ≡ none) × ((s₀.key ≡ none) ⊎ (e.overwrite ≡ true))

  -- The key file holds the whole text of the new key.
  abbrev pub HoldsFresh : Files → Type 0
  HoldsFresh s = (text : Bytes) × (x.encode (fresh_key e) ≡ some text) × (s.key ≡ some text)

  -- The key file is as it was.
  abbrev pub IsKept : Files → Type 0
  IsKept s = (s.key ≡ s₀.key) × (s.marker ≡ s₀.marker)

  abbrev pub IsReplaced : Files → Type 0
  IsReplaced s = HoldsFresh s × IsAllowed × (s.marker ≡ s₀.marker)

  abbrev pub IsWhole : Files → Type 0
  IsWhole s = IsKept s ⊎ IsReplaced s

  abbrev Step : (Files → Type 0) → Filing (Unit {0}) → (Files → Type 0) → Type 0
  Step P m Q = Leads P m (λ u. Q) IsWhole

  kept-failing :
      {P : Files → Type 0} (b : Bool) (er : KeyFileError)
      → ((s : Files) → P s → IsWhole s)
      → Step P (failing b er) P
  kept-failing b er h = lift-leads _ (λ u s p. p) h

  abbrev Written : Bytes → Files → Type 0
  Written t s = IsKept s × (s.temporary ≡ some t)

  fill-Step : (t : Bytes) → Step IsKept (fill e t) (Written t)
  unfolding fill
  fill-Step t =
      bind-leads
        (bind-leads
          (bind-leads
            (bind-leads
              (bind-leads (kept-failing _ _ λ s k. inl k) λ u.
                modify-leads {Q = λ u. Written (take e.written t)} {R = IsWhole} _ λ s k. (k, refl))
              λ u. kept-failing _ _ λ s k. inl k.0)
            λ u.
              lift_eq-leads {Q = λ u. Written t} _ (λ u h s k. (k.0, k.1 ∙ ap some (all_of h)))
                λ s k. inl k.0)
          λ u. kept-failing _ _ λ s k. inl k.0)
        λ u. kept-failing _ _ λ s k. inl k.0
    where
      unflip : (b : Bool) → not b ≡ false → b ≡ true
      unflip true h = refl
      unflip false h = cc h

      all_of :
          {u : Unit {0}}
          → ◌≡◌ {A = Result KeyFileError (Unit {0})}
              (fail_if (not (e.written == length t)) short_write)
              (ok u)
          → take e.written t ≡ t
      all_of h =
          subst (λ n. take n t ≡ t)
            (sym ((==_iff e.written (length t)).0 (unflip _ (fail_if_ok _ _ h)))) (take_all t)

  abbrev Encoded : Bytes → Type 0
  Encoded t = x.encode (fresh_key e) ≡ some t

  sync-Step : Step IsReplaced (sync_directory e) IsReplaced
  unfolding sync_directory
  sync-Step = bind-leads (bind-leads (replaced _ _) λ u. replaced _ _) λ u. replaced _ _
    where
      replaced : (b : Bool) (er : KeyFileError) → Step IsReplaced (failing b er) IsReplaced
      replaced b er = kept-failing b er λ s k. inr k

  published : (t : Bytes) → Encoded t → IsAllowed → Step IsKept (write_body e t) IsReplaced
  unfolding write_body
  published t same may =
      bind-leads
        (bind-leads
          (bind-leads (bind-leads (fill-Step t) λ u. kept-failing _ _ λ s k. inl k.0)
            λ u. kept-failing _ _ λ s k. inl k.0)
          λ u.
            modify-leads {Q = λ u. IsReplaced} {R = IsWhole} _ λ s k. ((t, same, k.1), may, k.0.1))
        λ u. sync-Step

  -- Dropping the temporary file touches neither the key nor the marker.
  removing-Step :
      {m : Filing (Unit {0})} → Step IsKept m IsReplaced → Step IsKept (removing e m) IsReplaced
  unfolding removing
  removing-Step {m = m} l = record { at = λ s p. landed (m s) (l.at s p) }
    where
      untouched :
          (s : Files)
          → ((remove_temporary e s).key ≡ s.key) × ((remove_temporary e s).marker ≡ s.marker)
      untouched s = (fst_part e.remove_fails, snd_part e.remove_fails)
        where
          fst_part : (b : Bool) → (if b then s else record s { temporary = none }).key ≡ s.key
          fst_part true = refl
          fst_part false = refl

          snd_part : (b : Bool) → (if b then s else record s { temporary = none }).marker ≡ s.marker
          snd_part true = refl
          snd_part false = refl

      replaced : (s : Files) → IsReplaced s → IsReplaced (remove_temporary e s)
      replaced s ((t, same, k), may, m) = ((t, same, (untouched s).0 ∙ k), may, (untouched s).1 ∙ m)

      landed :
          (r : Result KeyFileError (Unit {0}) × Files)
          → Lands (λ u. IsReplaced) IsWhole r
          → Lands (λ u. IsReplaced) IsWhole (removed e r)
      landed (ok u, s) k = replaced s k
      landed (err z, s) (inl k) = inl ((untouched s).0 ∙ k.0, (untouched s).1 ∙ k.1)
      landed (err z, s) (inr k) = inr (replaced s k)

  write-Step : (t : Bytes) → Encoded t → IsAllowed → Step IsKept (write_atomically e t) IsReplaced
  unfolding write_atomically
  write-Step t same may =
      bind-leads
        (bind-leads (kept-failing _ _ λ s k. inl k)
          λ u. modify-leads {Q = λ u. IsKept} {R = IsWhole} _ λ s k. k)
        λ u. removing-Step (published t same may)

  abbrev Found : Bool → Files → Type 0
  Found b s = IsKept s × (s₀.marker ≡ none) × (is_some s₀.key ≡ b)

  abbrev Replaceable : Files → Type 0
  Replaceable s = IsKept s × IsAllowed

  existing-Step : (b : Bool) → Step (Found b) (check_existing e b) Replaceable
  unfolding check_existing
  existing-Step b =
      if_eq-leads b
        (λ h.
          bind-leads
            (bind-leads (lift-leads _ (λ u s k. k) λ s k. inl k.0)
              λ u. kept-failing _ _ λ s k. inl k.0)
            λ u.
              lift_eq-leads {Q = λ u. Replaceable} _
                (λ u h s k. (k.0, (k.1, inr (unflip _ (fail_if_ok _ _ h))))) λ s k. inl k.0)
        λ h. skip-leads λ s k. (k.0, (k.1, inl (not_some _ (k.2 ∙ h))))
    where
      unflip : (b : Bool) → not b ≡ false → b ≡ true
      unflip true h = refl
      unflip false h = cc h

  check_replaceable-Step : Step IsKept (check_replaceable e) Replaceable
  unfolding check_replaceable
  check_replaceable-Step =
      bind-leads
        (bind-leads
          (bind-leads
            (bind-leads (kept-failing _ _ λ s k. inl k) λ u.
              check-leads {Q = λ u s. IsKept s × (s₀.marker ≡ none)} {R = IsWhole} _ _
                (λ s k h. (k, sym k.1 ∙ not_some _ h)) λ s k. inl k)
            λ u. kept-failing _ _ λ s k. inl k.0)
          λ u. gets-leads {Q = Found} {R = IsWhole} _ λ s k. (k.0, k.1, ap is_some (sym k.0.0)))
        existing-Step

  abbrev pub Provisioned : Bytes → Files → Type 0
  Provisioned p s = (p ≡ e.fresh_public) × IsReplaced s

  abbrev Provisions : Filing Bytes → Type 0
  Provisions m = Leads IsKept m Provisioned IsWhole

  replace-Provisions : Provisions (replace e x)
  unfolding replace write_then_answer
  replace-Provisions =
      bind-leads
        (bind-leads check_replaceable-Step λ u.
          lift_eq-leads {Q = λ t s. Encoded t × Replaceable s} {R = IsWhole} _
            (λ t h s k. (encoded _ h, k)) λ s k. inl k.0)
        λ t. written t
    where
      written :
          (t : Bytes)
          → Leads (λ s. Encoded t × Replaceable s) (write_then_answer e t) Provisioned IsWhole
      written t = record {
        at = λ s k.
            (bind-leads (write-Step t k.0 k.1.1)
                λ u. pure-leads {Q = Provisioned} {R = IsWhole} _ λ s k. (refl, k)).at
              s k.1.0;
      }

  unlocking-Provisions : {m : Filing Bytes} → Provisions m → Provisions (unlocking e m)
  unfolding unlocking
  unlocking-Provisions {m = m} l = record { at = λ s p. landed (m s) (l.at s p) }
    where
      answered :
          (b : Bool) (p : Bytes) (s : Files)
          → Provisioned p s
          → Lands Provisioned IsWhole (if b then err not_unlocked else ok p, s)
      answered true p s k = inr k.1
      answered false p s k = k

      landed :
          (r : Result KeyFileError Bytes × Files)
          → Lands Provisioned IsWhole r
          → Lands Provisioned IsWhole (unlocked e r)
      landed (ok p, s) k = answered e.unlock_fails p s k
      landed (err z, s) k = k

  lock-Provisions : {m : Filing Bytes} → Provisions m → Provisions (with_lock e m)
  unfolding with_lock
  lock-Provisions l =
      bind-leads (lift-leads _ (λ u s k. k) λ s k. inl k)
        λ u. unlocking-Provisions (bind-leads (kept-failing _ _ λ s k. inl k) λ u. l)

  provision-Provisions : Provisions (provision e x)
  unfolding provision
  provision-Provisions =
      bind-leads (lift-leads {Q = λ p. IsKept} _ (λ p s k. k) λ s k. inl k)
        λ p. lock-Provisions replace-Provisions

  -- Wherever a provisioning fails, the key file ends as it was or with the whole text of the new key, and in
  -- the second case no marker claims the key, and there was no key file or overwriting was asked for.
  -- Where it returns a public key, that is the new key's, and the file holds the new key. The marker stays.
  pub provision-Lands : Lands Provisioned IsWhole (provision e x s₀)
  provision-Lands = provision-Provisions.at s₀ (refl, refl)
