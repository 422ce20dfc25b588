-- ===== src/State/Fsm/Marks.antt =====
-- The mark that an accepted Reserve or Commit leaves behind (internal/state/fsm.go).
use cosmosigner.Prelude.{
  ◌≡◌, refl, ◌⊎◌, inl, inr, sym, ap, ◌∙◌, Bytes, bytes_eq_iff, bytes_eq_refl, is_empty, true, false,
  Option, none, some, arith, ◌≢◌, [], ◌∷◌, subst,
}
use cosmosigner.Prelude.Int.{eqb_ℤ→eq}
use cosmosigner.Prelude.Assoc.{lookup, insert, lookup-insert}
use cosmosigner.State.{SignState, Command, ApplyResult, Codec, regression}
use cosmosigner.State.Hrs.{Position, below, equal, above, compare_hrs, Hrs, hrs, equal_lem}
use cosmosigner.State.Fsm.{
  Fsm, reserve_again, reserve_against, apply_reserve, fresh_mark, fail, commit_against,
  apply_commit,
}

abbrev pub asked : Command → Hrs
asked c = record { height = c.height; round = c.round; step = c.step }

-- A successful answer against mark `m`: sign its payload, or take its signature.
abbrev pub Answers : SignState → ApplyResult → Type 0
Answers m r =
    ((r.reuse ≡ false) × (r.sign_bytes ≡ m.sign_bytes) × (m.signature ≡ []))
    ⊎ ((r.reuse ≡ true) × (r.signature ≡ m.signature) × (m.signature ≢ []))

pub empty_cases : (b : Bytes) → ((is_empty b ≡ true) × (b ≡ [])) ⊎ ((is_empty b ≡ false) × (b ≢ []))
empty_cases [] = inl (refl, refl)
empty_cases (b ∷ bs) = inr (refl, λ e. cc)

module _ (x : Codec) (c : Command) where
  reserve_again-Answers :
      (cur : SignState) → (reserve_again x c cur).error ≡ none → Answers cur (reserve_again x c cur)
  unfolding reserve_again
  reserve_again-Answers cur h = ground (arith, empty_cases cur.signature)

  lookup-insert_self :
      (k : Bytes) (m : SignState) (f : Fsm) → lookup k (insert k m f.state) ≡ some m
  lookup-insert_self k m f = rw (lookup-insert, bytes_eq_refl)

  abbrev Leaves : Fsm × ApplyResult → Type 0
  Leaves out =
      (m : SignState) × (lookup c.chain_id out.0.state ≡ some m)
      × (hrs m ≡ asked c)
      × Answers m out.1

  Leaves-fresh : (f : Fsm) → Leaves (reserve_against x c f none)
  unfolding reserve_against
  Leaves-fresh f =
      (fresh_mark c, lookup-insert_self c.chain_id (fresh_mark c) f, refl, inl (refl, refl, refl))

  module _ (f : Fsm) (cur : SignState) where
    abbrev compared : Position
    compared = compare_hrs (some cur) c.height c.round c.step

    pub reserve_below : compared ≡ below → reserve_against x c f (some cur) ≡ (f, fail regression)
    unfolding reserve_against
    reserve_below q = rw (q, reserve_against)

    pub reserve_equal :
        compared ≡ equal → reserve_against x c f (some cur) ≡ (f, reserve_again x c cur)
    unfolding reserve_against
    reserve_equal q = rw (q, reserve_against)

    pub reserve_above :
        compared ≡ above → reserve_against x c f (some cur) ≡ reserve_against x c f none
    unfolding reserve_against
    reserve_above q = rw (q, reserve_against)

  Leaves-against :
      (f : Fsm) (o : Option SignState)
      → lookup c.chain_id f.state ≡ o
      → (reserve_against x c f o).1.error ≡ none
      → Leaves (reserve_against x c f o)
  Leaves-against f none e h = Leaves-fresh f
  Leaves-against f (some cur) e h = go (compared f cur) refl
    where
      go : (p : Position) → compared f cur ≡ p → Leaves (reserve_against x c f (some cur))
      go below q = cc (h, ap (λ (t : Fsm × ApplyResult). t.1.error) (reserve_below f cur q))
      go equal q = subst Leaves (sym (reserve_equal f cur q)) (
        cur,
        e,
        equal_lem cur c.height c.round c.step q,
        reserve_again-Answers cur
            (sym (ap (λ (t : Fsm × ApplyResult). t.1.error) (reserve_equal f cur q)) ∙ h),
      )
      go above q = subst Leaves (sym (reserve_above f cur q)) (Leaves-fresh f)

  -- An accepted Reserve leaves the mark at the asked place, and answers by that mark.
  pub reserve_mark : (f : Fsm) → (apply_reserve x c f).1.error ≡ none → Leaves (apply_reserve x c f)
  unfolding apply_reserve
  reserve_mark f h = Leaves-against f (lookup c.chain_id f.state) refl h

  -- An accepted Commit leaves the mark at the asked place with the committed payload and signature.
  abbrev Commits : Fsm → Type 0
  Commits f =
      (m : SignState) × (lookup c.chain_id f.state ≡ some m)
      × (hrs m ≡ asked c)
      × (m.sign_bytes ≡ c.sign_bytes)
      × (m.signature ≡ c.signature)

  commits_cases :
      (f : Fsm) (cur : SignState)
      → (commit_against c f (some cur)).1.error ≡ none
      → (hrs cur ≡ asked c)
        × (cur.sign_bytes ≡ c.sign_bytes)
        × ((((commit_against c f (some cur)).0 ≡ f) × (cur.signature ≡ c.signature))
            ⊎ ((commit_against c f (some cur)).0 ≡ record f {
              state = insert c.chain_id (record cur { signature = c.signature }) f.state;
            }))
  unfolding commit_against
  commits_cases f cur h = ground (
    arith,
    eqb_ℤ→eq cur.height c.height,
    eqb_ℤ→eq cur.round c.round,
    eqb_ℤ→eq cur.step c.step,
    bytes_eq_iff cur.sign_bytes c.sign_bytes,
    bytes_eq_iff cur.signature c.signature,
  )

  commit_against-Commits :
      (f : Fsm) (o : Option SignState)
      → lookup c.chain_id f.state ≡ o
      → (commit_against c f o).1.error ≡ none
      → Commits (commit_against c f o).0
  commit_against-Commits f none e h = unfold commit_against in cc h
  commit_against-Commits f (some cur) e h =
      let (place, bytes, outcome) = commits_cases f cur h in
      elim outcome [
        | inl (same, sig) ↦ subst Commits (sym same) (cur, e, place, bytes, sig)
        | inr wrote ↦ subst Commits (sym wrote) (
          record cur { signature = c.signature },
          lookup-insert_self c.chain_id (record cur { signature = c.signature }) f,
          place,
          bytes,
          refl,
        )
      ]

  pub commit_mark : (f : Fsm) → (apply_commit c f).1.error ≡ none → Commits (apply_commit c f).0
  unfolding apply_commit
  commit_mark f h = commit_against-Commits f (lookup c.chain_id f.state) refl h
