-- ===== src/State/RaftStore/Membership.antt =====
-- RaftMembership, TransferLeadership and Close of internal/state/raftstore.go.
use cosmosigner.Prelude.{
  ℕ, suc, ◌<◌, ◌≡◌, refl, sym, ap, ◌∙◌, ◌≢◌, ◌⊎◌, inl, inr, Bytes, bytes_eq, bytes_eq_iff, is_empty,
  Bool, true, false, true≢false, not, ◌&&◌, Option, none, some, List, [], ◌∷◌, length, ltb, ltb→lt,
  Result, ok, err, if◌then◌else◌, Bool-cases,
}
use cosmosigner.State.RaftStore.{RaftError, not_raft_leader}
use cosmosigner.State.RaftStore.Naming.{Stop, context_done}

pub record RaftMembership : Type 0 where
  pub members : ℕ
  pub voters : ℕ

-- A server of Raft's configuration, by whether its suffrage is a vote.
pub record RaftServer : Type 0 where
  pub id : Bytes
  pub is_voter : Bool

unfoldable pub count_voters : List RaftServer → ℕ
count_voters [] = 0
count_voters (s ∷ rest) = let n = count_voters rest in if s.is_voter then suc n else n

pub data MemberError : Type 0 where
  stopped : Stop → MemberError
  unread : MemberError

-- What the select of RaftMembership receives.
pub data Answer : Type 0 where
  stops : Stop → Answer
  fails : Answer
  configured : List RaftServer → Answer

unfoldable pub raft_membership : Bool → Answer → Result MemberError RaftMembership
raft_membership true answer = err (stopped context_done)
raft_membership false (stops s) = err (stopped s)
raft_membership false fails = err unread
raft_membership false (configured servers) =
    ok (record { members = length servers; voters = count_voters servers })

pub data TransferError : Type 0 where
  membership : MemberError → TransferError
  transfer : RaftError → TransferError
  transfer_stopped observe_stopped : Stop → TransferError

-- The transfer's future: done, failed, or not waited for.
pub data Handoff : Type 0 where
  transferred : Handoff
  handoff_failed : RaftError → Handoff
  handoff_stopped : Stop → Handoff

-- One look at the leader, and what ends the wait after it.
pub record Look : Type 0 where
  pub leader_id : Bytes
  pub stop_waiting : Option Stop

-- Looks until another node leads; a list that ends leaves the loop running.
unfoldable pub observe : Bytes → List Look → Option (Result TransferError (Unit {0}))
observe local_id [] = none
observe local_id (l ∷ rest) =
    let later = observe local_id rest in
    if not (is_empty l.leader_id) && not (bytes_eq l.leader_id local_id)
    then some (ok tt)
    else elim l.stop_waiting [ none ↦ later | some s ↦ some (err (observe_stopped s)) ]

abbrev pub is_not_leader : RaftError → Bool
is_not_leader not_raft_leader = true
is_not_leader _ = false

abbrev pub after_handoff :
    Handoff → Option (Result TransferError (Unit {0})) → Option (Result TransferError (Unit {0}))
after_handoff transferred observed = observed
after_handoff (handoff_failed e) observed =
    if is_not_leader e then observed else some (err (transfer e))
after_handoff (handoff_stopped s) observed = some (err (transfer_stopped s))

abbrev pub with_members :
    Result MemberError RaftMembership
    → Option (Result TransferError (Unit {0}))
    → Option (Result TransferError (Unit {0}))
with_members (err e) rest = some (err (membership e))
with_members (ok m) rest = if ltb m.voters 2 then some (ok tt) else rest

-- TransferLeadership
unfoldable pub transfer_leadership :
    Bytes
    → Bool
    → Result MemberError RaftMembership
    → Handoff
    → List Look
    → Option (Result TransferError (Unit {0}))
transfer_leadership local_id is_leader members handoff looks =
    if not is_leader
    then some (ok tt)
    else with_members members (after_handoff handoff (observe local_id looks))

-- Another node was seen to lead.
abbrev pub SeenOther : Bytes → List Look → Type 0
SeenOther local_id [] = ⊥
SeenOther local_id (l ∷ rest) =
    ((l.leader_id ≢ []) × (l.leader_id ≢ local_id)) ⊎ SeenOther local_id rest

other_leader :
    (leader local_id : Bytes)
    → not (is_empty leader) && not (bytes_eq leader local_id) ≡ true
    → (leader ≢ []) × (leader ≢ local_id)
other_leader [] local_id h = absurd (true≢false (sym h))
other_leader (b ∷ bs) local_id h = (
  λ e. true≢false (sym (ap is_empty e)),
  λ e. absurd (true≢false (sym h ∙ ap not ((bytes_eq_iff (b ∷ bs) local_id).1 e))),
)

later_look :
    (s : Option Stop) (later : Option (Result TransferError (Unit {0})))
    → ◌≡◌ {A = Option (Result TransferError (Unit {0}))}
        (elim s [ none ↦ later | some t ↦ some (err (observe_stopped t)) ])
        (some (ok tt))
    → later ≡ some (ok tt)
later_look none later h = h
later_look (some t) later h = cc h

observe_seen :
    (local_id : Bytes) (looks : List Look)
    → observe local_id looks ≡ some (ok tt)
    → SeenOther local_id looks
unfolding observe
observe_seen local_id [] h = cc h
observe_seen local_id (l ∷ rest) h =
    elim (Bool-cases (not (is_empty l.leader_id) && not (bytes_eq l.leader_id local_id))) [
      | inl seen ↦ inl (other_leader l.leader_id local_id seen)
      | inr unseen ↦
          inr (observe_seen local_id rest (later_look l.stop_waiting _ (sym (rw unseen) ∙ h)))
    ]

with_members_ok :
    (members : Result MemberError RaftMembership) (rest : Option (Result TransferError (Unit {0})))
    → with_members members rest ≡ some (ok tt)
    → ((m : RaftMembership) × (members ≡ ok m) × (m.voters < 2)) ⊎ (rest ≡ some (ok tt))
with_members_ok (err e) rest h = cc h
with_members_ok (ok m) rest h = elim (Bool-cases (ltb m.voters 2)) [
  | inl few ↦ inl (m, refl, ltb→lt m.voters 2 few)
  | inr more ↦ inr (sym (rw more) ∙ h)
]

handoff_ok :
    (handoff : Handoff) (observed : Option (Result TransferError (Unit {0})))
    → after_handoff handoff observed ≡ some (ok tt)
    → observed ≡ some (ok tt)
handoff_ok transferred observed h = h
handoff_ok (handoff_failed e) observed h = elim (Bool-cases (is_not_leader e)) [
  | inl lost ↦ sym (rw lost) ∙ h
  | inr other ↦ cc (rw other at h)
]
handoff_ok (handoff_stopped s) observed h = cc h

-- TransferLeadership succeeds only where there is nothing to hand off (this node does not lead, or
-- the configuration has no other voter) or where another node was seen to lead.
pub transfer_returns :
    (local_id : Bytes) (is_leader : Bool) (members : Result MemberError RaftMembership)
    (handoff : Handoff) (looks : List Look)
    → transfer_leadership local_id is_leader members handoff looks ≡ some (ok tt)
    → (is_leader ≡ false)
      ⊎ ((m : RaftMembership) × (members ≡ ok m) × (m.voters < 2))
      ⊎ SeenOther local_id looks
unfolding transfer_leadership
transfer_returns local_id false members handoff looks h = inl refl
transfer_returns local_id true members handoff looks h = elim (with_members_ok members _ h) [
  | inl few ↦ inr (inl few)
  | inr rest ↦ inr (inr (observe_seen local_id looks (handoff_ok handoff _ rest)))
]
