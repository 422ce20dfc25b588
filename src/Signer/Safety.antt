-- ===== src/Signer/Safety.antt =====
-- No double signing, whatever the interleaving (internal/signer/privval.go, internal/state/fsm.go).
use cosmosigner.Prelude.{
  ℕ, ◌≡◌, refl, sym, ap, ◌∙◌, subst, ◌⊎◌, inl, inr, Bytes, Option, none, some, List, [], ◌∷◌, arith,
  ◌==◌, Bool-cases, some_inj, In,
}
use cosmosigner.Prelude.Assoc.{lookup}
use cosmosigner.State.{SignState, Command, Codec}
use cosmosigner.State.Hrs.{Hrs, hrs, HrsLt, HrsLt-trans, HrsLt-irrefl}
use cosmosigner.State.Fsm.{Fsm}
use cosmosigner.State.Fsm.Marks.{asked}
use cosmosigner.State.Fsm.Evolution.{Follows, Evolves, apply_command-Evolves}
use cosmosigner.State.Fsm.Grants.{Grants, SamePlace, reserve_leaves}
use cosmosigner.Signer.{Grant}
use cosmosigner.Signer.Cluster.{
  idle, holds, Cluster, update, after, Step, logged, granted, hands, stops, Reach, here, next,
}

abbrev pub Agree : Grant → Grant → Type 0
Agree a b = SamePlace a.request b.request → a.payload ≡ b.payload

-- The mark has passed the grant's place, or stands there with the grant's payload.
abbrev Passed : Grant → SignState → Type 0
Passed g m =
    HrsLt (asked g.request) (hrs m) ⊎ ((hrs m ≡ asked g.request) × (m.sign_bytes ≡ g.payload))

abbrev Covers : Fsm → Grant → Type 0
Covers f g = (m : SignState) × (lookup g.request.chain_id f.state ≡ some m) × Passed g m

Passed-Follows : (g : Grant) (a b : SignState) → Follows a b → Passed g a → Passed g b
Passed-Follows g a b f p = ground (arith, HrsLt-trans (asked g.request) (hrs a) (hrs b))

Covers-Evolves :
    (g : Grant) (m : SignState) (o : Option SignState)
    → Evolves (some m) o
    → Passed g m
    → (b : SignState) × (o ≡ some b) × Passed g b
Covers-Evolves g m none e p = absurd e
Covers-Evolves g m (some b) e p = (b, refl, Passed-Follows g m b e p)

Covers-after : (x : Codec) (c : Command) (f : Fsm) (g : Grant) → Covers f g → Covers (after x c f) g
Covers-after x c f g (m, at, p) =
    Covers-Evolves g m (lookup g.request.chain_id (after x c f).state)
      (subst (λ (o : Option SignState). Evolves o (lookup g.request.chain_id (after x c f).state))
        at (apply_command-Evolves x c f g.request.chain_id))
      p

-- A new grant agrees with every grant that the machine before it has covered.
module _ (x : Codec) (f : Fsm) (g : Grant) (given : Grants x g.request f g.payload) where
  granted_mark :
      (m : SignState) × (lookup g.request.chain_id (after x g.request f).state ≡ some m)
      × (hrs m ≡ asked g.request)
      × (m.sign_bytes ≡ g.payload)
  granted_mark =
      let (m, at, place, answer) = reserve_leaves x g.request f given.0 given.1 in
      (m, at, place, ground arith)

  granted_covered : Covers (after x g.request f) g
  granted_covered = let (m, at, place, payload) = granted_mark in (m, at, inr (place, payload))

  agrees_with_new : (a : Grant) → Covers f a → Agree a g
  agrees_with_new a covered (chain, place) =
      let (b, at, passed) = Covers-after x g.request f a covered in
      let (m, at', place', payload) = granted_mark in
      let same : b ≡ m =
        some_inj.0
          (sym at ∙ ap (λ (k : Bytes). lookup k (after x g.request f).state) chain ∙ at') in
      elim passed [
        | inl lt ↦ absurd (
            HrsLt-irrefl (asked g.request) (
              subst (λ (h : Hrs). HrsLt h (asked g.request)) place
                (subst (λ (h : Hrs). HrsLt (asked a.request) h) (ap hrs same ∙ place') lt)))
        | inr (_, kept) ↦ sym kept ∙ ap (λ (t : SignState). t.sign_bytes) same ∙ payload
      ]

-- Every payload that a thread holds or that was handed out has been granted; the marks cover all
-- grants, and grants for one place agree.
pub record Inv (s : Cluster) : Type 0 where
  pub grants : List Grant
  pub covered : (g : Grant) → In g grants → Covers s.fsm g
  pub agree : (a b : Grant) → In a grants → In b grants → Agree a b
  pub held : (t : ℕ) (g : Grant) → s.threads t ≡ holds g → In g grants
  pub handed : (g : Grant) → In g s.handed → In g grants

-- A cluster in which no request is being served and nothing has been handed out.
abbrev pub resting : Fsm → Cluster
resting f = record { fsm = f; threads = λ _. idle; handed = [] }

resting-Inv : (f : Fsm) → Inv (resting f)
resting-Inv f = record {
  grants = [];
  covered = λ g h. absurd h;
  agree = λ a b h. absurd h;
  held = λ t g h. cc h;
  handed = λ g h. absurd h;
}

holds_same : (g a : Grant) → holds g ≡ holds a → a ≡ g
holds_same g a h = cc

module _ (x : Codec) (s : Cluster) (v : Inv s) where
  logged-Inv : (c : Command) → Inv (record s { fsm = after x c s.fsm })
  logged-Inv c = record {
    grants = v.grants;
    covered = λ g h. Covers-after x c s.fsm g (v.covered g h);
    agree = v.agree;
    held = v.held;
    handed = v.handed;
  }

  idled : (t u : ℕ) (g : Grant) → update s.threads t idle u ≡ holds g → In g v.grants
  idled t u g h = elim (Bool-cases (t == u)) [
    | inl e ↦ cc (rw e at h)
    | inr e ↦ v.held u g (rw e at h)
  ]

  stops-Inv : (t : ℕ) → Inv (record s { threads = update s.threads t idle })
  stops-Inv t = record {
    grants = v.grants;
    covered = v.covered;
    agree = v.agree;
    held = idled t;
    handed = v.handed;
  }

  hands-Inv :
      (t : ℕ) (g : Grant)
      → s.threads t ≡ holds g
      → Inv (record s { threads = update s.threads t idle; handed = g ∷ s.handed })
  hands-Inv t g h = record {
    grants = v.grants;
    covered = v.covered;
    agree = v.agree;
    held = idled t;
    handed = λ a m. elim m [
      | inl e ↦ subst (λ (b : Grant). In b v.grants) (sym e) (v.held t g h)
      | inr old ↦ v.handed a old
    ];
  }

  granted-Inv :
      (t : ℕ) (g : Grant)
      → Grants x g.request s.fsm g.payload
      → Inv (record s { fsm = after x g.request s.fsm; threads = update s.threads t (holds g) })
  granted-Inv t g given = record {
    grants = g ∷ v.grants;
    covered = λ a m. elim m [
      | inl e ↦ subst (Covers (after x g.request s.fsm)) (sym e) (granted_covered x s.fsm g given)
      | inr old ↦ Covers-after x g.request s.fsm a (v.covered a old)
    ];
    agree = agree;
    held = λ u a h. elim (Bool-cases (t == u)) [
      | inl e ↦ inl (holds_same g a (rw e at h))
      | inr e ↦ inr (v.held u a (rw e at h))
    ];
    handed = λ a m. inr (v.handed a m);
  }
    where
      new : (a : Grant) → In a v.grants → Agree a g
      new a m = agrees_with_new x s.fsm g given a (v.covered a m)

      flip : (a b : Grant) → Agree a b → Agree b a
      flip a b h (chain, place) = sym (h (sym chain, sym place))

      agree : (a b : Grant) → In a (g ∷ v.grants) → In b (g ∷ v.grants) → Agree a b
      agree a b (inl e) (inl e') = λ _. ap (λ (t : Grant). t.payload) (e ∙ sym e')
      agree a b (inl e) (inr m) = subst (λ (t : Grant). Agree t b) (sym e) (flip b g (new b m))
      agree a b (inr m) (inl e) = subst (Agree a) (sym e) (new a m)
      agree a b (inr m) (inr m') = v.agree a b m m'

Step-Inv : (x : Codec) {s s' : Cluster} → Step x s s' → Inv s → Inv s'
Step-Inv x {s} (logged c e) v = subst Inv (sym e) (logged-Inv x s v c)
Step-Inv x {s} (granted t g i given e) v = subst Inv (sym e) (granted-Inv x s v t g given)
Step-Inv x {s} (hands t g h e) v = subst Inv (sym e) (hands-Inv x s v t g h)
Step-Inv x {s} (stops t e) v = subst Inv (sym e) (stops-Inv x s v t)

pub Reach-Inv : (x : Codec) {s s' : Cluster} → Reach x s s' → Inv s → Inv s'
Reach-Inv x here v = v
Reach-Inv x (next r st) v = Step-Inv x st (Reach-Inv x r v)

-- From any state of the replicated machine, whatever the interleaving of the replicas' requests, log
-- entries, lost answers and crashes, two payloads that are handed to the key for the same chain,
-- height, round and step are the same bytes.
pub no_double_sign :
    (x : Codec) (f : Fsm) (s : Cluster) (a b : Grant)
    → Reach x (resting f) s
    → In a s.handed
    → In b s.handed
    → SamePlace a.request b.request
    → a.payload ≡ b.payload
no_double_sign x f s a b run m m' =
    let v : Inv s = Reach-Inv x run (resting-Inv f) in v.agree a b (v.handed a m) (v.handed b m')
