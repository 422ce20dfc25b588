-- ===== src/State/RaftStore/Seeding.antt =====
-- When NewRaftStoreContext of internal/state/raftstore.go seeds a cluster, and with which members.
use cosmosigner.Prelude.{
  ◌≡◌, refl, sym, ap, ◌∙◌, subst, ◌⊎◌, inl, inr, Bytes, bytes_eq, bytes_eq_refl, Bool, true, false,
  true≢false, not, ◌&&◌, ◌||◌, Option, none, some, List, [], ◌∷◌, ◌++◌, any, In, Result, ok, err,
  ◌>>=◌, if◌then◌else◌, chain_ok, ok_inj, arith,
}
use cosmosigner.State.RaftStore.Startup.{
  Member, RaftConfig, StartError, check_transport, with_defaults, check_members, bootstrap_servers,
  servers_from, check_config, not_a_member,
}
use cosmosigner.State.RaftStore.Opening.{
  Resource, opened, shut, seeded, Act, Outside, Opening, holding, require, require_value, check,
  seed, start_node, with_transport, with_state, with_bolt, open_all, new_raft_store,
}

-- Each seeding among the acts satisfies the predicate.
abbrev Seeds : (List Member → Type 0) → Opening → Type 0
Seeds P o = (servers : List Member) → In (seeded servers) o.1 → P servers

is_seeding : Act → Bool
is_seeding (seeded s) = true
is_seeding _ = false

not_opened : {r : Resource} {s : List Member} → seeded s ≡ opened r → ⊥
unfolding is_seeding
not_opened e = true≢false (ap is_seeding e)

In-shut :
    (s : List Member) (acts : List Act) (r : Resource)
    → In (seeded s) (acts ++ (shut r ∷ []))
    → In (seeded s) acts
unfolding is_seeding
In-shut s [] r (inl e) = absurd (true≢false (ap is_seeding e))
In-shut s [] r (inr at) = elim at [ ]
In-shut s (a ∷ acts) r (inl e) = inl e
In-shut s (a ∷ acts) r (inr at) = inr (In-shut s acts r at)

module _ (P : List Member → Type 0) where
  holding-Seeds : (r : Resource) (o : Opening) → Seeds P o → Seeds P (holding r o)
  unfolding holding
  holding-Seeds r (ok u, acts) h s (inl e) = absurd (not_opened e)
  holding-Seeds r (ok u, acts) h s (inr at) = h s at
  holding-Seeds r (err e, acts) h s (inl f) = absurd (not_opened f)
  holding-Seeds r (err e, acts) h s (inr at) = h s (In-shut s acts r at)

  require-Seeds : (b : Bool) (e : StartError) (o : Opening) → Seeds P o → Seeds P (require b e o)
  require-Seeds true e o h s at = h s at
  require-Seeds false e o h s at = elim at [ ]

  require_value-Seeds :
      {A : Type 0} (v : Option A) (e : StartError) (o : A → Opening)
      → ((a : A) → v ≡ some a → Seeds P (o a))
      → Seeds P (require_value v e o)
  require_value-Seeds none e o h s at = elim at [ ]
  require_value-Seeds (some a) e o h s at = h a refl s at

  check-Seeds :
      {A : Type 0} (r : Result StartError A) (o : A → Opening)
      → ((a : A) → r ≡ ok a → Seeds P (o a))
      → Seeds P (check r o)
  check-Seeds (err e) o h s at = elim at [ ]
  check-Seeds (ok a) o h s at = h a refl s at

  if-Seeds :
      (b : Bool) (o p : Opening) → (b ≡ true → Seeds P o) → Seeds P p → Seeds P (if b then o else p)
  if-Seeds true o p h k = h refl
  if-Seeds false o p h k = k

abbrev pub has_member : Bytes → List Member → Bool
has_member id servers = any (λ (m : Member). bytes_eq m.id id) servers

checked_self :
    (id : Bytes) (ms : List Member) (found : Bool)
    → check_members id ms found ≡ ok true
    → (found ≡ true) ⊎ (has_member id ms ≡ true)
unfolding check_members
checked_self id [] found h = inl (ok_inj h)
checked_self id (m ∷ ms) found h = ground (arith, checked_self id ms (bytes_eq m.id id || found))

kept_found :
    (found : Bool) (ms servers : List Member)
    → ◌≡◌ {A = Result StartError (List Member)}
        (if not found then err not_a_member else ok ms)
        (ok servers)
    → (found ≡ true) × (ms ≡ servers)
kept_found true ms servers h = (refl, ok_inj h)
kept_found false ms servers h = cc h

servers_self :
    (single : Bool) (id addr : Bytes) (ms servers : List Member)
    → servers_from single id addr ms ≡ ok servers
    → has_member id servers ≡ true
unfolding servers_from
servers_self true id addr [] servers h =
    subst (λ s. has_member id s ≡ true) (ok_inj h) (rw (bytes_eq_refl id))
servers_self false id addr [] servers h = cc h
servers_self single id addr (m ∷ ms) servers h =
    let (found, told, checked) = chain_ok (check_members id (m ∷ ms) false) h in
    let (self, same) = kept_found found (m ∷ ms) servers told in
    subst (λ s. has_member id s ≡ true) same
      (elim (checked_self id (m ∷ ms) false (checked ∙ ap ok self)) [
        | inl never ↦ absurd (true≢false (sym never))
        | inr there ↦ there
      ])

completed :
    (asked : Bool) (servers : Result StartError (List Member)) (cfg full : RaftConfig)
    → (if asked then (servers >>= λ _. ok cfg) else ok cfg) ≡ ok full
    → full ≡ cfg
completed true (ok ms) cfg full h = sym (ok_inj h)
completed true (err e) cfg full h = cc h
completed false servers cfg full h = sym (ok_inj h)

members_of : Act → List Member
members_of (seeded s) = s
members_of _ = []

asked_fresh :
    (asked has_state : Bool) → asked && not has_state ≡ true → (asked ≡ true) × (has_state ≡ false)
asked_fresh true false h = (refl, refl)
asked_fresh true true h = absurd (true≢false (sym h))
asked_fresh false has_state h = absurd (true≢false (sym h))

check_config_full : (cfg full : RaftConfig) → check_config cfg ≡ ok full → full ≡ with_defaults cfg
unfolding check_config
check_config_full cfg full h =
    let (passed, told, checked) = chain_ok (check_transport cfg) h in
    completed (with_defaults cfg).bootstrap _ (with_defaults cfg) full told

seeded_inj : (s made : List Member) → In (seeded s) (seeded made ∷ []) → s ≡ made
unfolding members_of
seeded_inj s made (inl e) = ap members_of e
seeded_inj s made (inr at) = elim at [ ]

open_all-Seeds :
    (cfg full : RaftConfig) (out : Outside)
    → full ≡ with_defaults cfg
    → Seeds
        (λ s.
          (cfg.bootstrap ≡ true) × (out.has_state ≡ some false) × (has_member cfg.node_id s ≡ true))
        (open_all full out)
unfolding open_all with_bolt with_state with_transport start_node seed with_defaults
    bootstrap_servers
open_all-Seeds cfg full out same = require-Seeds _ out.make_dir _ _ (
    require-Seeds _ out.open_bolt _ _ (
      holding-Seeds _ _ _ (
        require-Seeds _ out.open_snapshots _ _ (
          require_value-Seeds _ out.has_state _ _ λ has_state state.
            require-Seeds _ out.resolves _ _ (
              require_value-Seeds _ out.local_addr _ _ λ addr at_addr. holding-Seeds _ _ _ (
                require-Seeds _ out.raft_starts _ _ (
                  holding-Seeds _ _ _ (
                    if-Seeds _ (full.bootstrap && not has_state) _ _
                      (λ fresh.
                        check-Seeds _ (bootstrap_servers full full.node_id addr) _ λ made good.
                          require-Seeds _ out.bootstraps _ _ λ s at.
                            let (asked, none_there) = asked_fresh full.bootstrap has_state fresh in
                            (
                              sym (ap (λ (c : RaftConfig). c.bootstrap) same) ∙ asked,
                              state ∙ ap some none_there,
                              subst (λ i. has_member i s ≡ true)
                                  (ap (λ (c : RaftConfig). c.node_id) same)
                                  (servers_self full.single_node full.node_id addr full.members s
                                    (good ∙ ap ok (sym (seeded_inj s made at)))),
                            ))
                      (λ s at. elim at [ ])))))))))

-- A cluster is seeded only where bootstrapping was asked for and no Raft state was there, and then with
-- a member list that holds this node.
pub seeds_with_self :
    (cfg : RaftConfig) (out : Outside) (servers : List Member)
    → In (seeded servers) (new_raft_store cfg out).1
    → (cfg.bootstrap ≡ true)
      × (out.has_state ≡ some false)
      × (has_member cfg.node_id servers ≡ true)
unfolding new_raft_store
seeds_with_self cfg out servers at =
    check-Seeds
      (λ s.
        (cfg.bootstrap ≡ true) × (out.has_state ≡ some false) × (has_member cfg.node_id s ≡ true))
      (check_config cfg) _
      (λ full good. open_all-Seeds cfg full out (check_config_full cfg full good)) servers at
