-- ===== src/State/Fsm/Evolution.antt =====
-- How the mark of a chain changes from one log entry to the next (internal/state/fsm.go).
use cosmosigner.Prelude.{
  ◌≡◌, refl, ◌⊎◌, inl, inr, Bytes, bytes_eq, bytes_eq_iff, Option, none, some, List, [], ◌∷◌, arith,
  Option-cases, Bool-cases, Result-cases, subst, sym,
}
use cosmosigner.Prelude.Assoc.{lookup, insert, lookup-insert}
use cosmosigner.ClusterId
use cosmosigner.State.{SignState, Op, reserve, commit, init_cluster, unknown, Command, Codec}
use cosmosigner.State.Hrs.{
  Position, below, equal, above, compare_hrs, hrs, HrsLt, HrsLt-trans, above_lem,
}
use cosmosigner.State.Fsm.{
  Fsm, apply_init_cluster, apply_reserve, reserve_against, apply_commit, commit_against, dispatch,
  fresh_mark, apply_command, apply, replay,
}

-- The later mark is further on, or it is the same mark, whose signature may have been filled in.
abbrev pub Follows : SignState → SignState → Type 0
Follows a b =
    HrsLt (hrs a) (hrs b)
    ⊎ ((hrs a ≡ hrs b)
        × (a.sign_bytes ≡ b.sign_bytes)
        × (a.timestamp ≡ b.timestamp)
        × ((a.signature ≡ b.signature) ⊎ (a.signature ≡ [])))

abbrev pub Evolves : Option SignState → Option SignState → Type 0
Evolves none b = Unit
Evolves (some a) none = ⊥
Evolves (some a) (some b) = Follows a b

pub Evolves-refl : (a : Option SignState) → Evolves a a
Evolves-refl none = tt
Evolves-refl (some a) = inr (refl, refl, refl, inl refl)

Follows-trans : (a b c : SignState) → Follows a b → Follows b c → Follows a c
Follows-trans a b c p q = ground (arith, HrsLt-trans (hrs a) (hrs b) (hrs c))

pub Evolves-trans : (a b c : Option SignState) → Evolves a b → Evolves b c → Evolves a c
Evolves-trans none b c p q = tt
Evolves-trans (some a) none c p q = absurd p
Evolves-trans (some a) (some b) none p q = absurd q
Evolves-trans (some a) (some b) (some c) p q = Follows-trans a b c p q

-- A write at one key, where the new mark follows the one that was there.
Evolves-insert :
    (f : Fsm) (k j : Bytes) (m : SignState)
    → Evolves (lookup k f.state) (some m)
    → Evolves (lookup j f.state) (lookup j (insert k m f.state))
Evolves-insert f k j m h = rw lookup-insert (elim (Bool-cases (bytes_eq k j)) [
  | inl e ↦ rw (e, ← (bytes_eq_iff k j).0 e) h
  | inr e ↦ rw e (Evolves-refl (lookup j f.state))
])

module _ (x : Codec) (c : Command) (f : Fsm) (j : Bytes) where
  reserve_against-Evolves :
      (o : Option SignState)
      → lookup c.chain_id f.state ≡ o
      → Evolves (lookup j f.state) (lookup j (reserve_against x c f o).0.state)
  unfolding reserve_against
  reserve_against-Evolves none e = Evolves-insert f c.chain_id j (fresh_mark c) (rw e tt)
  reserve_against-Evolves (some cur) e = go (compare_hrs (some cur) c.height c.round c.step) refl
    where
      go :
          (p : Position)
          → compare_hrs (some cur) c.height c.round c.step ≡ p
          → Evolves (lookup j f.state) (lookup j (reserve_against x c f (some cur)).0.state)
      go below q = rw (q, reserve_against) (Evolves-refl (lookup j f.state))
      go equal q = rw (q, reserve_against) (Evolves-refl (lookup j f.state))
      go above q =
          rw (q, reserve_against)
            (Evolves-insert f c.chain_id j (fresh_mark c)
              (rw e (inl (above_lem cur c.height c.round c.step q))))

  unfoldable pub signed : SignState → Fsm
  signed cur = record f {
    state = insert c.chain_id (record cur { signature = c.signature }) f.state;
  }

  pub commit_against-cases :
      (cur : SignState)
      → ((commit_against c f (some cur)).0 ≡ f)
        ⊎ (((commit_against c f (some cur)).0 ≡ signed cur) × (cur.signature ≡ []))
  unfolding commit_against signed
  commit_against-cases cur = ground arith

  commit_against-Evolves :
      (o : Option SignState)
      → lookup c.chain_id f.state ≡ o
      → Evolves (lookup j f.state) (lookup j (commit_against c f o).0.state)
  unfolding commit_against signed
  commit_against-Evolves none e = Evolves-refl (lookup j f.state)
  commit_against-Evolves (some cur) e = elim (commit_against-cases cur) [
    | inl same ↦
        subst (λ g. Evolves (lookup j f.state) (lookup j g.state)) (sym same)
          (Evolves-refl (lookup j f.state))
    | inr (wrote, empty) ↦
        subst (λ g. Evolves (lookup j f.state) (lookup j g.state)) (sym wrote)
          (Evolves-insert f c.chain_id j (record cur { signature = c.signature })
            (rw e (inr (refl, refl, refl, inr empty))))
  ]

  apply_init_cluster-Evolves :
      Evolves (lookup j f.state) (lookup j (apply_init_cluster c f).0.state)
  unfolding apply_init_cluster
  apply_init_cluster-Evolves = elim (Result-cases (ClusterId.validate c.cluster_id)) [
    | inl (u, e) ↦ rw (e, apply_init_cluster) (Evolves-refl (lookup j f.state))
    | inr (u, e) ↦ rw (e, apply_init_cluster) (Evolves-refl (lookup j f.state))
  ]

dispatch-Evolves :
    (x : Codec) (op : Op) (c : Command) (f : Fsm) (j : Bytes)
    → Evolves (lookup j f.state) (lookup j (dispatch x op c f).0.state)
unfolding dispatch apply_reserve apply_commit
dispatch-Evolves x reserve c f j = reserve_against-Evolves x c f j (lookup c.chain_id f.state) refl
dispatch-Evolves x commit c f j = commit_against-Evolves x c f j (lookup c.chain_id f.state) refl
dispatch-Evolves x init_cluster c f j = apply_init_cluster-Evolves x c f j
dispatch-Evolves x (unknown op) c f j = Evolves-refl (lookup j f.state)

pub apply_command-Evolves :
    (x : Codec) (c : Command) (f : Fsm) (j : Bytes)
    → Evolves (lookup j f.state) (lookup j (apply_command x c f).0.state)
unfolding apply_command
apply_command-Evolves x c f j = dispatch-Evolves x c.op c f j

pub apply_decoded :
    (x : Codec) (log_data : Bytes) (c : Command) (f : Fsm)
    → x.unmarshal_command log_data ≡ some c
    → apply x log_data f ≡ apply_command x c f
unfolding apply
apply_decoded x log_data c f e = rw (e, apply)

apply-Evolves :
    (x : Codec) (log_data : Bytes) (f : Fsm) (j : Bytes)
    → Evolves (lookup j f.state) (lookup j (apply x log_data f).0.state)
apply-Evolves x log_data f j = elim (Option-cases (x.unmarshal_command log_data)) [
  | inl e ↦ unfold apply in rw (e, apply) (Evolves-refl (lookup j f.state))
  | inr (c, e) ↦ rw (apply_decoded x log_data c f e) (apply_command-Evolves x c f j)
]

-- Whatever entries the log holds, the mark of no chain goes back: it moves to a later height, round
-- and step, or keeps its place, payload and time, and then its signature is only ever filled in.
pub replay-Evolves :
    (x : Codec) (log : List Bytes) (f : Fsm) (j : Bytes)
    → Evolves (lookup j f.state) (lookup j (replay x log f).state)
unfolding replay
replay-Evolves x [] f j = Evolves-refl (lookup j f.state)
replay-Evolves x (log_data ∷ rest) f j =
    Evolves-trans (lookup j f.state) (lookup j (apply x log_data f).0.state) _
      (apply-Evolves x log_data f j) (replay-Evolves x rest (apply x log_data f).0 j)
