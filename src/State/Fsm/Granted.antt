-- ===== src/State/Fsm/Granted.antt =====
-- Where the marks of a machine come from, and so what a Commit can be accepted for
-- (internal/state/fsm.go, applyReserve and applyCommit).
use cosmosigner.Prelude.{
  ◌≡◌, refl, sym, ap, ◌∙◌, subst, ◌⊎◌, inl, inr, Bytes, bytes_eq, bytes_eq_iff, true, false, Option,
  none, some, some_inj, List, [], ◌∷◌, ◌++◌, Bool-cases, Option-cases, Result-cases,
}
use cosmosigner.Prelude.Assoc.{lookup, insert, lookup-insert}
use cosmosigner.ClusterId
use cosmosigner.State.{
  SignState, Op, reserve, commit, init_cluster, unknown, unmarshal, Command, ApplyResult, Codec,
}
use cosmosigner.State.Hrs.{Position, below, equal, above, compare_hrs, Hrs, hrs}
use cosmosigner.State.Fsm.{
  fail, Fsm, apply_init_cluster, apply_reserve, reserve_against, advance, apply_commit,
  commit_against, dispatch, fresh_mark, apply_command, apply, replay,
}
use cosmosigner.State.Fsm.Marks.{asked}
use cosmosigner.State.Fsm.Evolution.{signed, commit_against-cases, apply_decoded}
use cosmosigner.State.Fsm.Grants.{Grants, Commits, commit_leaves}

-- A mark of the chain with the place and the payload of `m`.
abbrev Keeps : Bytes → SignState → Fsm → Type 0
Keeps j m f =
    (a : SignState) × (lookup j f.state ≡ some a) × (hrs a ≡ hrs m) × (a.sign_bytes ≡ m.sign_bytes)

-- The answer asks to sign the payload of `m`, at its place.
abbrev Asks : Command → Bytes → SignState → ApplyResult → Type 0
Asks c j m r =
    (r.error ≡ none)
    × (r.reuse ≡ false)
    × (r.sign_bytes ≡ m.sign_bytes)
    × (c.chain_id ≡ j)
    × (asked c ≡ hrs m)

kept : (f : Fsm) (j : Bytes) (m : SignState) → lookup j f.state ≡ some m → Keeps j m f
kept f j m h = (m, h, refl, refl)

-- The mark at one key after a write at another or the same one.
written :
    (f : Fsm) (k j : Bytes) (n m : SignState)
    → lookup j (insert k n f.state) ≡ some m
    → (lookup j f.state ≡ some m) ⊎ ((k ≡ j) × (n ≡ m))
written f k j n m h = elim (Bool-cases (bytes_eq k j)) [
  | inl e ↦ inr ((bytes_eq_iff k j).0 e, some_inj.0 (sym (at_key e) ∙ h))
  | inr e ↦ inl (sym (off_key e) ∙ h)
]
  where
    at_key : bytes_eq k j ≡ true → lookup j (insert k n f.state) ≡ some n
    at_key e = rw (lookup-insert, e)

    off_key : bytes_eq k j ≡ false → lookup j (insert k n f.state) ≡ lookup j f.state
    off_key e = rw (lookup-insert, e)

module _ (x : Codec) (c : Command) (f : Fsm) (j : Bytes) (m : SignState) where
  abbrev Comes : Fsm × ApplyResult → Type 0
  Comes out = lookup j out.0.state ≡ some m → Keeps j m f ⊎ Asks c j m out.1

  advance-Comes : Comes (advance c f)
  unfolding advance
  advance-Comes h = elim (written f c.chain_id j (fresh_mark c) m h) [
    | inl there ↦ inl (kept f j m there)
    | inr (same, mark) ↦ inr (refl, refl, ap (λ n. n.sign_bytes) mark, same, ap hrs mark)
  ]

  reserve_against-Comes : (o : Option SignState) → Comes (reserve_against x c f o)
  unfolding reserve_against
  reserve_against-Comes none = advance-Comes
  reserve_against-Comes (some cur) = go (compare_hrs (some cur) c.height c.round c.step) refl
    where
      go :
          (p : Position)
          → compare_hrs (some cur) c.height c.round c.step ≡ p
          → Comes (reserve_against x c f (some cur))
      go below q = rw (q, reserve_against) λ h. inl (kept f j m h)
      go equal q = rw (q, reserve_against) λ h. inl (kept f j m h)
      go above q = rw (q, reserve_against) advance-Comes

  commit_against-Keeps :
      (o : Option SignState)
      → lookup c.chain_id f.state ≡ o
      → lookup j (commit_against c f o).0.state ≡ some m
      → Keeps j m f
  unfolding commit_against signed
  commit_against-Keeps none e h = kept f j m h
  commit_against-Keeps (some cur) e h = elim (commit_against-cases x c f j cur) [
    | inl same ↦ kept f j m (sym (ap (λ g. lookup j g.state) same) ∙ h)
    | inr (wrote, empty) ↦
        elim (written f c.chain_id j (record cur { signature = c.signature }) m
          (sym (ap (λ g. lookup j g.state) wrote) ∙ h)) [
            | inl there ↦ kept f j m there
            | inr (same, mark) ↦ (
              cur,
              subst (λ k. lookup k f.state ≡ some cur) same e,
              ap hrs mark,
              ap (λ n. n.sign_bytes) mark,
            )
          ]
  ]

  init_cluster-Keeps : lookup j (apply_init_cluster c f).0.state ≡ some m → Keeps j m f
  unfolding apply_init_cluster
  init_cluster-Keeps = elim (Result-cases (ClusterId.validate c.cluster_id)) [
    | inl (u, e) ↦ rw (e, apply_init_cluster) λ h. kept f j m h
    | inr (u, e) ↦ rw (e, apply_init_cluster) λ h. kept f j m h
  ]

  -- Where the mark comes from: it was there, or this command is the Reserve that asked for its payload.
  abbrev Origin : Op → Fsm × ApplyResult → Type 0
  Origin op out = lookup j out.0.state ≡ some m → Keeps j m f ⊎ ((op ≡ reserve) × Asks c j m out.1)

  dispatch-Origin : (op : Op) → Origin op (dispatch x op c f)
  unfolding dispatch apply_reserve apply_commit
  dispatch-Origin reserve h = elim (reserve_against-Comes (lookup c.chain_id f.state) h) [
    | inl k ↦ inl k
    | inr a ↦ inr (refl, a)
  ]
  dispatch-Origin commit h = inl (commit_against-Keeps (lookup c.chain_id f.state) refl h)
  dispatch-Origin init_cluster h = inl (init_cluster-Keeps h)
  dispatch-Origin (unknown op) h = inl (kept f j m h)

  apply_command-Origin : Origin c.op (apply_command x c f)
  unfolding apply_command
  apply_command-Origin = dispatch-Origin c.op

-- An entry of the log is a Reserve of this payload at this place of the chain, which asked its caller to sign.
abbrev GrantedIn : Codec → List Bytes → Fsm → Bytes → Hrs → Bytes → Type 0
GrantedIn x log f j place payload =
    (before : List Bytes) × (entry : Bytes) × (rest : List Bytes) × (c : Command) × (log
      ≡ before ++ (entry ∷ rest))
    × (x.unmarshal_command entry ≡ some c)
    × Grants x c (replay x before f) payload
    × (c.chain_id ≡ j)
    × (asked c ≡ place)

abbrev pub HasGrant : Codec → List Bytes → Fsm → Command → Type 0
HasGrant x log f d = GrantedIn x log f d.chain_id (asked d) d.sign_bytes

module _ (x : Codec) (j : Bytes) (m : SignState) where
  granted_first :
      (c : Command) (entry : Bytes) (log : List Bytes) (f : Fsm)
      → x.unmarshal_command entry ≡ some c
      → c.op ≡ reserve
      → Asks c j m (apply_command x c f).1
      → GrantedIn x (entry ∷ log) f j (hrs m) m.sign_bytes
  unfolding replay
  granted_first c entry log f decoded op (good, grant, bytes, chain, place) =
      ([], entry, log, c, refl, decoded, (op, good, grant, bytes), chain, place)

  granted_later :
      (entry : Bytes) (log : List Bytes) (f : Fsm)
      → GrantedIn x log (apply x entry f).0 j (hrs m) m.sign_bytes
      → GrantedIn x (entry ∷ log) f j (hrs m) m.sign_bytes
  unfolding replay
  granted_later entry log f (before, e, rest, c, split, decoded, grants, chain, place) =
      (entry ∷ before, e, rest, c, ap (◌∷◌ entry) split, decoded, grants, chain, place)

  entry-Origin :
      (entry : Bytes) (log : List Bytes) (f : Fsm) (a : SignState)
      → lookup j (apply x entry f).0.state ≡ some a
      → hrs a ≡ hrs m
      → a.sign_bytes ≡ m.sign_bytes
      → Keeps j m f ⊎ GrantedIn x (entry ∷ log) f j (hrs m) m.sign_bytes
  entry-Origin entry log f a there place bytes = elim (Option-cases (x.unmarshal_command entry)) [
    | inl e ↦ inl (a, sym (ap (λ g. lookup j g.0.state) (undecoded e)) ∙ there, place, bytes)
    | inr (c, e) ↦
        elim (apply_command-Origin x c f j a
          (sym (ap (λ g. lookup j g.0.state) (apply_decoded x entry c f e)) ∙ there)) [
            | inl (b, at, same, payload) ↦ inl (b, at, same ∙ place, payload ∙ bytes)
            | inr (op, (good, grant, payload, chain, here)) ↦ inr (
                granted_first c entry log f e op
                  (good, grant, payload ∙ bytes, chain, here ∙ place))
          ]
  ]
    where
      undecoded : x.unmarshal_command entry ≡ none → apply x entry f ≡ (f, fail unmarshal)
      undecoded e = unfold apply in rw (e, apply)

  -- A mark after a log was there before it, or an entry of the log asked for its payload.
  replay-Origin :
      (log : List Bytes) (f : Fsm)
      → lookup j (replay x log f).state ≡ some m
      → Keeps j m f ⊎ GrantedIn x log f j (hrs m) m.sign_bytes
  unfolding replay
  replay-Origin [] f h = inl (kept f j m h)
  replay-Origin (entry ∷ log) f h = elim (replay-Origin log (apply x entry f).0 h) [
    | inr later ↦ inr (granted_later entry log f later)
    | inl (a, there, place, bytes) ↦ entry-Origin entry log f a there place bytes
  ]

-- On a machine that starts without a mark of the chain, a Commit is accepted only where an earlier
-- entry of the log is a Reserve at the same height, round and step of the chain that asked its
-- caller to sign the very bytes that are committed.
pub commit_of_granted :
    (x : Codec) (d : Command) (log : List Bytes) (f : Fsm)
    → lookup d.chain_id f.state ≡ none
    → Commits x d (replay x log f)
    → HasGrant x log f d
commit_of_granted x d log f fresh (op, good) =
    let (b, at, here, bytes, sig) = commit_leaves x d (replay x log f) op good in
    elim (apply_command-Origin x d (replay x log f) d.chain_id b at) [
      | inr (other, asks) ↦ cc (op, other)
      | inl (a, there, place, payload) ↦ elim (replay-Origin x d.chain_id a log f there) [
        | inl (e, old, there_too, same) ↦ cc (fresh, old)
        | inr granted ↦
            subst (λ p. GrantedIn x log f d.chain_id p d.sign_bytes) (place ∙ here)
              (subst (λ s. GrantedIn x log f d.chain_id (hrs a) s) (payload ∙ bytes) granted)
      ]
    ]
