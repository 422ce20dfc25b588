-- ===== src/State/Fsm/Grants.antt =====
-- At one place of one chain, one payload: what the replicated log lets the signers sign
-- (internal/state/fsm.go, applyReserve and applyCommit).
use cosmosigner.Prelude.{
  ◌≡◌, inl, inr, sym, ap, ◌∙◌, subst, Bytes, true, false, Option, none, some, List, arith, ◌≢◌, [],
}
use cosmosigner.Prelude.Assoc.{lookup}
use cosmosigner.State.{SignState, reserve, commit, Command, ApplyResult, Codec}
use cosmosigner.State.Hrs.{hrs, HrsLt, HrsLt-irrefl}
use cosmosigner.State.Fsm.{Fsm, apply_reserve, apply_commit, apply_command, dispatch, replay}
use cosmosigner.State.Fsm.Marks.{asked, Answers, reserve_mark, commit_mark}
use cosmosigner.State.Fsm.Evolution.{
  Follows, Evolves, Evolves-trans, replay-Evolves, apply_command-Evolves,
}

-- Two commands about the same chain, height, round and step.
abbrev pub SamePlace : Command → Command → Type 0
SamePlace c d = (c.chain_id ≡ d.chain_id) × (asked c ≡ asked d)

module _ (x : Codec) where
  -- The command is a Reserve whose answer asks the caller to sign `payload`.
  abbrev pub Grants : Command → Fsm → Bytes → Type 0
  Grants c f payload =
      (c.op ≡ reserve)
      × ((apply_command x c f).1.error ≡ none)
      × ((apply_command x c f).1.reuse ≡ false)
      × ((apply_command x c f).1.sign_bytes ≡ payload)

  -- The command is a Reserve whose answer hands out `signature`.
  abbrev pub Reuses : Command → Fsm → Bytes → Type 0
  Reuses c f signature =
      (c.op ≡ reserve)
      × ((apply_command x c f).1.error ≡ none)
      × ((apply_command x c f).1.reuse ≡ true)
      × ((apply_command x c f).1.signature ≡ signature)

  -- The command is a Commit that the machine accepted.
  abbrev pub Commits : Command → Fsm → Type 0
  Commits c f = (c.op ≡ commit) × ((apply_command x c f).1.error ≡ none)

  pub apply_command-reserve :
      (c : Command) (f : Fsm) → c.op ≡ reserve → apply_command x c f ≡ apply_reserve x c f
  unfolding apply_command
  apply_command-reserve c f e = rw (e, dispatch)

  pub apply_command-commit :
      (c : Command) (f : Fsm) → c.op ≡ commit → apply_command x c f ≡ apply_commit c f
  unfolding apply_command
  apply_command-commit c f e = rw (e, dispatch)

  -- The mark of the chain after an accepted Reserve.
  pub reserve_leaves :
      (c : Command) (f : Fsm)
      → c.op ≡ reserve
      → (apply_command x c f).1.error ≡ none
      → (m : SignState) × (lookup c.chain_id (apply_command x c f).0.state ≡ some m)
        × (hrs m ≡ asked c)
        × Answers m (apply_command x c f).1
  reserve_leaves c f e =
      subst
        (λ (out : Fsm × ApplyResult).
          out.1.error ≡ none
          → (m : SignState) × (lookup c.chain_id out.0.state ≡ some m)
            × (hrs m ≡ asked c)
            × Answers m out.1)
        (sym (apply_command-reserve c f e)) (reserve_mark x c f)

  -- The mark of the chain after an accepted Commit.
  pub commit_leaves :
      (c : Command) (f : Fsm)
      → c.op ≡ commit
      → (apply_command x c f).1.error ≡ none
      → (m : SignState) × (lookup c.chain_id (apply_command x c f).0.state ≡ some m)
        × (hrs m ≡ asked c)
        × (m.sign_bytes ≡ c.sign_bytes)
        × (m.signature ≡ c.signature)
  commit_leaves c f e =
      subst
        (λ (out : Fsm × ApplyResult).
          out.1.error ≡ none
          → (m : SignState) × (lookup c.chain_id out.0.state ≡ some m)
            × (hrs m ≡ asked c)
            × (m.sign_bytes ≡ c.sign_bytes)
            × (m.signature ≡ c.signature))
        (sym (apply_command-commit c f e)) (commit_mark x c f)

-- Of two marks at the same place, the later has the payload of the earlier.
pub same_payload : (a b : SignState) → Follows a b → hrs a ≡ hrs b → a.sign_bytes ≡ b.sign_bytes
same_payload a b (inl lt) e = absurd (HrsLt-irrefl (hrs b) (subst (λ h. HrsLt h (hrs b)) e lt))
same_payload a b (inr same) e = same.1

pub same_signature :
    (a b : SignState) → Follows a b → hrs a ≡ hrs b → a.signature ≢ [] → a.signature ≡ b.signature
same_signature a b (inl lt) e n = absurd (HrsLt-irrefl (hrs b) (subst (λ h. HrsLt h (hrs b)) e lt))
same_signature a b (inr same) e n = elim same.3 [ inl s ↦ s | inr empty ↦ absurd (n empty) ]

module _ (x : Codec) (c d : Command) (log : List Bytes) (f : Fsm) where
  abbrev between : Fsm
  between = replay x log (apply_command x c f).0

  -- From the mark of a chain after the first command to the mark after the second one.
  pub later_mark :
      (a b : SignState)
      → c.chain_id ≡ d.chain_id
      → lookup c.chain_id (apply_command x c f).0.state ≡ some a
      → lookup d.chain_id (apply_command x d between).0.state ≡ some b
      → Follows a b
  later_mark a b chain p q =
      subst (λ (o : Option SignState). Evolves o (some b)) p
        (subst
          (λ (o : Option SignState). Evolves (lookup c.chain_id (apply_command x c f).0.state) o)
          (ap (λ (k : Bytes). lookup k (apply_command x d between).0.state) chain ∙ q)
          (Evolves-trans (lookup c.chain_id (apply_command x c f).0.state)
            (lookup c.chain_id between.state)
            (lookup c.chain_id (apply_command x d between).0.state)
            (replay-Evolves x log (apply_command x c f).0 c.chain_id)
            (apply_command-Evolves x d between c.chain_id)))

  -- Of two Reserves of one log about the same chain, height, round and step that both ask their
  -- callers to sign, whatever entries stand between them, both name the same payload.
  pub one_payload : (p q : Bytes) → SamePlace c d → Grants x c f p → Grants x d between q → p ≡ q
  one_payload p q (chain, place) (op, good, grant, bytes) (op', good', grant', bytes') =
      let (a, at, here, answer) = reserve_leaves x c f op good in
      let (b, at', here', answer') = reserve_leaves x d between op' good' in
      let same : a.sign_bytes ≡ b.sign_bytes =
        same_payload a b (later_mark a b chain at at') (here ∙ place ∙ sym here') in
      ground arith

  -- Once a Commit of a signature is accepted, every accepted Reserve at its place hands out that
  -- very signature, and none asks its caller to sign again.
  pub commit_then_reuse :
      SamePlace c d
      → c.signature ≢ []
      → Commits x c f
      → d.op ≡ reserve
      → (apply_command x d between).1.error ≡ none
      → Reuses x d between c.signature
  commit_then_reuse (chain, place) full (op, good) op' good' =
      let (a, at, here, bytes, sig) = commit_leaves x c f op good in
      let (b, at', here', answer') = reserve_leaves x d between op' good' in
      let same : a.signature ≢ [] → a.signature ≡ b.signature =
        same_signature a b (later_mark a b chain at at') (here ∙ place ∙ sym here') in
      let kept : a.signature ≡ b.signature = same (λ e. full (sym sig ∙ e)) in
      elim answer' [
        | inl (grant, payload, empty) ↦ absurd (full (sym sig ∙ kept ∙ empty))
        | inr (reuse, sig', signed) ↦ (op', good', reuse, sig' ∙ sym kept ∙ sig)
      ]
