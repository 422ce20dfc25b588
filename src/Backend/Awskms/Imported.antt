-- ===== src/Backend/Awskms/Imported.antt =====
-- AWSImportKey of internal/backend/awskms_import.go: into which keys material is imported, and when a key is
-- ready.
use cosmosigner.Prelude.{
  ◌≡◌, refl, sym, ap, ◌∙◌, subst, ◌⊎◌, inl, inr, Bytes, codes, is_empty, has_prefix, Bool, true,
  false, Option, none, some, List, [], ◌∷◌, Result, ok, ok_inj, or_fail, if◌then◌else◌,
}
use cosmosigner.Prelude.Exec.{
  Lands, Leads, bind-leads, if-leads, if_eq-leads, lift-leads, lift_eq-leads, gets-leads,
  modify-leads, skip-leads, pure-leads, raise-leads, weaken-leads,
}
use cosmosigner.Backend.Awskms.{Arn, attempts}
use cosmosigner.Backend.Awskms.Import.{
  ImportError, not_ed25519, enabled, pending_import, external, Metadata, same_state, any_state,
  Created, create_fails, create_empty, made, Described, describe_fails, not_found, describe_empty,
  described, ImportEnv, Write, creates_key, creates_alias, imports, Progress, put, aim,
  check_metadata, arn_of, created_target, new_target, new_alias, pending_arn, known_target,
  described_target, find_target, reads, read_back, import_into, import_unless, import_wanted,
  import_key,
}
use cosmosigner.Backend.Awskms.Importing.{
  still_pending, only_pending, metadata_ok, Reads, ToldBack, enabled_ok, read_back_ok,
}

abbrev pub start : Progress
start = record { target = []; is_imported = false; writes = [] }

module _ (parse : Bytes → Option Arn) (parse_key : Bytes → Option Bytes) (e : ImportEnv) where
  -- AWS told in this import that the key waits for its material.
  abbrev pub IsPending : Bytes → Type 0
  IsPending arn =
      (m : Metadata) × (arn ≡ m.arn)
      × (m.state ≡ pending_import)
      × ((e.created ≡ made (some m)) ⊎ (e.described ≡ described (some m)))

  -- Material was imported into such keys only.
  abbrev pub AllPending : List Write → Type 0
  AllPending [] = Unit
  AllPending (creates_key ∷ ws) = AllPending ws
  AllPending (creates_alias a b ∷ ws) = AllPending ws
  AllPending (imports arn material ∷ ws) = IsPending arn × AllPending ws

  -- The target was read back, or the described key was read, to have the public key of the material.
  abbrev pub Holds : Bytes → Progress → Type 0
  Holds want s =
      Reads parse parse_key (ToldBack parse parse_key e attempts) want s.target
      ⊎ ((m : Metadata) × (e.described ≡ described (some m))
          × Reads parse parse_key (λ a. e.public_key ≡ reads a) want m.arn)

  abbrev pub Answered : Bool → Progress → Type 0
  Answered true s = (want : Bytes) × (e.source ≡ some want) × Holds want s
  Answered false s = Unit

  abbrev pub Safe : Progress → Type 0
  Safe s = AllPending s.writes

  abbrev Aimed : Progress → Type 0
  Aimed s = Safe s × IsPending s.target

  put-Leads :
      (P Q : Progress → Type 0) (w : Write)
      → ((s : Progress) → P s → Q (record s { writes = w ∷ s.writes }))
      → Leads P (put w) (λ u. Q) Safe
  unfolding put
  put-Leads P Q w h = modify-leads {Q = λ u. Q} {R = Safe} _ h

  aim-Safe : (arn : Bytes) → Leads Safe (aim arn) (λ u s. Safe s × (s.target ≡ arn)) Safe
  unfolding aim
  aim-Safe arn = modify-leads _ λ s p. (p, refl)

  created_target-Aimed :
      (c : Created)
      → e.created ≡ c
      → Leads Safe (created_target parse parse_key c) (λ u. Aimed) Safe
  unfolding created_target
  created_target-Aimed create_fails same = raise-leads _ λ s k. k
  created_target-Aimed create_empty same = raise-leads _ λ s k. k
  created_target-Aimed (made o) same =
      bind-leads
        (bind-leads (bind-leads (put-Leads Safe Safe creates_key λ s k. k) λ u. aim-Safe _) λ u.
          lift_eq-leads {Q = λ m. Aimed} {R = Safe} _ (λ m h s k. (k.0, pending m h s k.1))
            λ s k. k.0)
        λ m. skip-leads λ s k. k
    where
      pending :
          (m : Metadata)
          → check_metadata parse parse_key o [] external (pending_import ∷ []) ≡ ok m
          → (s : Progress) → s.target ≡ arn_of parse parse_key o
          → IsPending s.target
      pending m h s t =
          let checked = metadata_ok parse parse_key o [] (pending_import ∷ []) m h in
          (
            m,
            t ∙ ap (arn_of parse parse_key) checked.0,
            only_pending m.state checked.1,
            inl (same ∙ ap made checked.0),
          )

  new_target-Aimed : Leads Safe (new_target parse parse_key e) (λ u. Aimed) Safe
  unfolding new_target
  new_target-Aimed = created_target-Aimed e.created refl

  new_alias-Aimed : Leads Safe (new_alias parse parse_key e) (λ u. Aimed) Safe
  unfolding new_alias
  new_alias-Aimed =
      bind-leads
        (bind-leads new_target-Aimed λ u. gets-leads {Q = λ arn. Aimed} {R = Safe} _ λ s k. k)
        λ arn.
          bind-leads (lift-leads {Q = λ u. Aimed} _ (λ u s k. k) λ s k. k.0)
            λ u. put-Leads Aimed Aimed (creates_alias e.key_id arn) λ s k. k

  abbrev Found : Bytes → Bool → Progress → Type 0
  Found want true s = Safe s × Holds want s
  Found want false s = Aimed s

  known_target-Found :
      (want : Bytes) (m : Metadata)
      → e.described ≡ described (some m)
      → any_state (pending_import ∷ enabled ∷ []) m.state ≡ true
      → Leads Safe (known_target parse parse_key e want m) (Found want) Safe
  unfolding known_target
  known_target-Found want m told state =
      bind-leads
        (bind-leads (aim-Safe _) λ u.
          lift-leads {Q = λ u s. Safe s × (s.target ≡ pending_arn parse parse_key e m)} {R = Safe} _
            (λ u s k. k) λ s k. k.0)
        λ u.
          if_eq-leads (same_state m.state enabled)
            (λ h.
              bind-leads
                (lift_eq-leads {Q = λ u s. Safe s × Holds want s} {R = Safe} _
                  (λ u h s k.
                    (k.0, inr (m, told, enabled_ok parse parse_key want m.arn e.public_key u h)))
                  λ s k. k.0)
                λ u. pure-leads {Q = Found want} true λ s k. k)
            λ h. pure-leads {Q = Found want} false λ s k. (k.0, waiting h s k.1)
    where
      waiting :
          same_state m.state enabled ≡ false
          → (s : Progress) → s.target ≡ pending_arn parse parse_key e m
          → IsPending s.target
      waiting h s t =
          let pending = still_pending m.state state h in
          (
            m,
            t ∙ ap (λ k. if same_state k pending_import then m.arn else []) pending,
            pending,
            inr told,
          )

  described_target-Found :
      (want : Bytes) (d : Described)
      → e.described ≡ d
      → Leads Safe (described_target parse parse_key e want d) (Found want) Safe
  unfolding described_target
  described_target-Found want describe_fails told = raise-leads _ λ s k. k
  described_target-Found want describe_empty told = raise-leads _ λ s k. k
  described_target-Found want not_found told =
      if-leads (has_prefix e.key_id (codes "alias/"))
        (bind-leads new_alias-Aimed λ u. pure-leads {Q = Found want} false λ s k. k)
        (raise-leads _ λ s k. k)
  described_target-Found want (described o) told =
      bind-leads
        (lift_eq-leads {Q = λ m s. Safe s × Known m} {R = Safe} _ (λ m h s k. (k, known m h))
          λ s k. k)
        λ m. record { at = λ s k. (known_target-Found want m k.1.0 k.1.1).at s k.0 }
    where
      Known : Metadata → Type 0
      Known m =
          (e.described ≡ described (some m))
          × (any_state (pending_import ∷ enabled ∷ []) m.state ≡ true)

      known :
          (m : Metadata)
          → check_metadata parse parse_key o e.key_id external (pending_import ∷ enabled ∷ [])
            ≡ ok m
          → Known m
      known m h =
          let checked =
            metadata_ok parse parse_key o e.key_id (pending_import ∷ enabled ∷ []) m h in
          (told ∙ ap described checked.0, checked.1)

  find_target-Found :
      (want : Bytes) → Leads Safe (find_target parse parse_key e want) (Found want) Safe
  unfolding find_target
  find_target-Found want =
      if-leads (is_empty e.key_id)
        (bind-leads new_target-Aimed λ u. pure-leads {Q = Found want} false λ s k. k)
        (described_target-Found want e.described refl)

  abbrev Ready : Bytes → Bool → Progress → Type 0
  Ready want true s = Safe s × Holds want s
  Ready want false s = Safe s

  abbrev AimedAt : Bytes → Progress → Type 0
  AimedAt arn s = Aimed s × (s.target ≡ arn)

  import_into-Ready :
      (want arn : Bytes)
      → Leads (AimedAt arn) (import_into parse parse_key e want arn) (Ready want) Safe
  unfolding import_into
  import_into-Ready want arn =
      bind-leads (lift-leads {Q = λ p. AimedAt arn} _ (λ p s k. k) λ s k. k.0.0) λ p.
        bind-leads (lift-leads {Q = λ material. AimedAt arn} _ (λ material s k. k) λ s k. k.0.0)
          λ material.
            bind-leads
              (bind-leads
                (bind-leads
                  (put-Leads (AimedAt arn) Sent (imports arn material)
                    λ s k. ((subst IsPending k.1 k.0.1, k.0.0), k.1))
                  λ u. modify-leads {Q = λ u. Sent} {R = Safe} _ λ s k. k)
                λ u. lift-leads {Q = λ u. Sent} _ (λ u s k. k) λ s k. k.0)
              λ u. lift_eq-leads {Q = Ready want} {R = Safe} _ ready λ s k. k.0
    where
      Sent : Progress → Type 0
      Sent s = Safe s × (s.target ≡ arn)

      ready :
          (r : Bool)
          → read_back parse parse_key e want arn attempts ≡ ok r
          → (s : Progress) → Sent s
          → Ready want r s
      ready true h s k = (
        k.0,
        inl (
            subst (Reads parse parse_key (ToldBack parse parse_key e attempts) want) (sym k.1)
              (read_back_ok parse parse_key e want arn attempts h)),
      )
      ready false h s k = k.0

  import_unless-Ready :
      (want : Bytes) (held : Bool)
      → Leads (Found want held) (import_unless parse parse_key e want held) (Ready want) Safe
  unfolding import_unless
  import_unless-Ready want true = pure-leads {Q = Ready want} true λ s k. k
  import_unless-Ready want false =
      bind-leads (gets-leads {Q = AimedAt} {R = Safe} _ λ s k. (k, refl))
        λ arn. import_into-Ready want arn

  abbrev pub Done : Bool → Progress → Type 0
  Done r s = Safe s × Answered r s

  import_wanted-Ready :
      (want : Bytes) → Leads Safe (import_wanted parse parse_key e want) (Ready want) Safe
  unfolding import_wanted
  import_wanted-Ready want =
      bind-leads
        (bind-leads (lift-leads {Q = λ u. Safe} _ (λ u s k. k) λ s k. k)
          λ u. find_target-Found want)
        (import_unless-Ready want)

  import_key-Done : Leads Safe (import_key parse parse_key e) Done Safe
  unfolding import_key
  import_key-Done =
      bind-leads
        (lift_eq-leads {Q = λ want s. Safe s × (e.source ≡ some want)} {R = Safe} _
          (λ want h s k. (k, source_of e.source h)) λ s k. k)
        λ want. record {
          at = λ s k.
              (weaken-leads (Ready want) (answered want k.1) (import_wanted-Ready want)).at s k.0;
        }
    where
      source_of :
          (o : Option Bytes) {want : Bytes}
          → ◌≡◌ {A = Result ImportError Bytes} (or_fail o not_ed25519) (ok want)
          → o ≡ some want
      source_of none h = cc h
      source_of (some p) h = ap some (ok_inj h)

      answered :
          (want : Bytes)
          → e.source ≡ some want
          → (r : Bool) (s : Progress) → Ready want r s
          → Done r s
      answered want told true s k = (k.0, (want, told, k.1))
      answered want told false s k = (k, tt)

  -- Whatever AWS answers and wherever the import fails, material is imported only into keys that AWS told in
  -- this import, when it made or described them, to be waiting for their material; and where the import
  -- ends with a key that is ready, an answer of AWS in this import, about the target when it was read
  -- back or about the described key when that was read, has that very key and the public key of the
  -- material.
  pub import_key-Lands : Lands Done Safe (import_key parse parse_key e start)
  import_key-Lands = import_key-Done.at start tt
