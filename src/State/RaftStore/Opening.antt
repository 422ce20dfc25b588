-- ===== src/State/RaftStore/Opening.antt =====
-- What NewRaftStoreContext of internal/state/raftstore.go opens, and closes again when it fails.
use cosmosigner.Prelude.{
  ◌≡◌, refl, ap, ◌∙◌, Bytes, Bool, true, false, not, ◌&&◌, Option, none, some, List, [], ◌∷◌, ◌++◌,
  Result, ok, err, is_ok, if◌then◌else◌,
}
use cosmosigner.State.RaftStore.Startup.{
  Member, RaftConfig, StartError, data_dir, bolt, snapshots, existing_state, resolve, transport,
  new_raft, bootstrap_cluster, bootstrap_servers, check_config,
}

pub data Resource : Type 0 where
  bolt_db raft_transport raft_node : Resource

pub data Act : Type 0 where
  opened shut : Resource → Act
  seeded : List Member → Act

-- What the calls answer: `none` and `false` are errors. `transport` is the transport's LocalAddr.
pub record Outside : Type 0 where
  pub make_dir : Bool
  pub open_bolt : Bool
  pub open_snapshots : Bool
  pub has_state : Option Bool
  pub resolves : Bool
  pub local_addr : Option Bytes
  pub raft_starts : Bool
  pub bootstraps : Bool

abbrev pub Opening : Type 0
Opening = Result StartError (Unit {0}) × List Act

abbrev pub refuse : StartError → Opening
refuse e = (err e, [])

-- A resource that is open while the rest runs: the deferred function closes it unless all succeed.
unfoldable pub holding : Resource → Opening → Opening
holding r (ok u, acts) = (ok u, opened r ∷ acts)
holding r (err e, acts) = (err e, opened r ∷ (acts ++ (shut r ∷ [])))

-- `if err != nil { return nil, err }` after a call that answers with nothing, a value, or a result.
abbrev pub require : Bool → StartError → Opening → Opening
require true e rest = rest
require false e rest = refuse e

abbrev pub require_value : {A : Type 0} → Option A → StartError → (A → Opening) → Opening
require_value none e rest = refuse e
require_value (some a) e rest = rest a

abbrev pub check : {A : Type 0} → Result StartError A → (A → Opening) → Opening
check (err e) rest = refuse e
check (ok a) rest = rest a

unfoldable pub seed : Outside → List Member → Opening
seed out servers = require out.bootstraps bootstrap_cluster (ok tt, seeded servers ∷ [])

unfoldable pub start_node : RaftConfig → Outside → Bool → Bytes → Opening
start_node cfg out has_state local_addr =
    if cfg.bootstrap && not has_state
    then check (bootstrap_servers cfg cfg.node_id local_addr) (seed out)
    else (ok tt, [])

unfoldable pub with_transport : RaftConfig → Outside → Bool → Bytes → Opening
with_transport cfg out has_state local_addr =
    require out.raft_starts new_raft (holding raft_node (start_node cfg out has_state local_addr))

unfoldable pub with_state : RaftConfig → Outside → Bool → Opening
with_state cfg out has_state = require out.resolves resolve (
    require_value out.local_addr transport
      λ addr. holding raft_transport (with_transport cfg out has_state addr))

unfoldable pub with_bolt : RaftConfig → Outside → Opening
with_bolt cfg out =
    require out.open_snapshots snapshots
      (require_value out.has_state existing_state (with_state cfg out))

unfoldable pub open_all : RaftConfig → Outside → Opening
open_all cfg out =
    require out.make_dir data_dir (require out.open_bolt bolt (holding bolt_db (with_bolt cfg out)))

-- NewRaftStoreContext
unfoldable pub new_raft_store : RaftConfig → Outside → Opening
new_raft_store cfg out = check (check_config cfg) λ full. open_all full out

abbrev same_resource : Resource → Resource → Bool
same_resource bolt_db bolt_db = true
same_resource raft_transport raft_transport = true
same_resource raft_node raft_node = true
same_resource _ _ = false

-- A close of anything but the resource opened last is no close.
abbrev pub release : Resource → List Resource → List Resource
release r [] = []
release r (q ∷ held) = if same_resource r q then held else q ∷ held

-- The resources that are open after the acts, the last one first.
abbrev pub held_after : List Resource → List Act → List Resource
held_after held [] = held
held_after held (opened r ∷ acts) = held_after (r ∷ held) acts
held_after held (shut r ∷ acts) = held_after (release r held) acts
held_after held (seeded servers ∷ acts) = held_after held acts

-- What the acts leave open: `f` of what was open where they succeed, and the same where they fail.
abbrev Leaves : (List Resource → List Resource) → Opening → Type 0
Leaves f o = (held : List Resource) → held_after held o.1 ≡ (if is_ok o.0 then f held else held)

held_after-append :
    (a b : List Act) (held : List Resource)
    → held_after held (a ++ b) ≡ held_after (held_after held a) b
held_after-append [] b held = refl
held_after-append (opened r ∷ a) b held = held_after-append a b (r ∷ held)
held_after-append (shut r ∷ a) b held = held_after-append a b (release r held)
held_after-append (seeded s ∷ a) b held = held_after-append a b held

release-same : (r : Resource) (held : List Resource) → release r (r ∷ held) ≡ held
release-same bolt_db held = refl
release-same raft_transport held = refl
release-same raft_node held = refl

holding-Leaves :
    (r : Resource) (f : List Resource → List Resource) (o : Opening)
    → Leaves f o
    → Leaves (λ held. f (r ∷ held)) (holding r o)
unfolding holding
holding-Leaves r f (ok u, acts) h held = h (r ∷ held)
holding-Leaves r f (err e, acts) h held =
    held_after-append acts (shut r ∷ []) (r ∷ held)
    ∙ ap (release r) (h (r ∷ held))
    ∙ release-same r held

require-Leaves :
    (b : Bool) (e : StartError) (f : List Resource → List Resource) (o : Opening)
    → Leaves f o
    → Leaves f (require b e o)
require-Leaves true e f o h held = h held
require-Leaves false e f o h held = refl

require_value-Leaves :
    {A : Type 0} (v : Option A) (e : StartError) (f : List Resource → List Resource)
    (o : A → Opening)
    → ((a : A) → Leaves f (o a))
    → Leaves f (require_value v e o)
require_value-Leaves none e f o h held = refl
require_value-Leaves (some a) e f o h held = h a held

check-Leaves :
    {A : Type 0} (r : Result StartError A) (f : List Resource → List Resource) (o : A → Opening)
    → ((a : A) → Leaves f (o a))
    → Leaves f (check r o)
check-Leaves (err e) f o h held = refl
check-Leaves (ok a) f o h held = h a held

if-Leaves :
    (b : Bool) (f : List Resource → List Resource) (o p : Opening)
    → Leaves f o
    → Leaves f p
    → Leaves f (if b then o else p)
if-Leaves true f o p h k = h
if-Leaves false f o p h k = k

module _ (cfg : RaftConfig) (out : Outside) where
  start_node-Leaves :
      (has_state : Bool) (addr : Bytes) → Leaves (λ held. held) (start_node cfg out has_state addr)
  unfolding start_node seed
  start_node-Leaves has_state addr =
      if-Leaves (cfg.bootstrap && not has_state) (λ held. held) _ _
        (check-Leaves (bootstrap_servers cfg cfg.node_id addr) _ (seed out)
          λ servers. require-Leaves out.bootstraps _ _ _ λ held. refl)
        (λ held. refl)

  with_transport-Leaves :
      (has_state : Bool) (addr : Bytes)
      → Leaves (λ held. raft_node ∷ held) (with_transport cfg out has_state addr)
  unfolding with_transport
  with_transport-Leaves has_state addr = require-Leaves out.raft_starts _ _ _ (
      holding-Leaves raft_node (λ h. h) (start_node cfg out has_state addr)
        (start_node-Leaves has_state addr))

  with_state-Leaves :
      (has_state : Bool)
      → Leaves (λ held. raft_node ∷ raft_transport ∷ held) (with_state cfg out has_state)
  unfolding with_state
  with_state-Leaves has_state = require-Leaves out.resolves _ _ _ (
      require_value-Leaves out.local_addr _ _ _ λ addr.
        holding-Leaves raft_transport (λ h. raft_node ∷ h) (with_transport cfg out has_state addr)
          (with_transport-Leaves has_state addr))

  open_all-Leaves : Leaves (λ held. raft_node ∷ raft_transport ∷ bolt_db ∷ held) (open_all cfg out)
  unfolding open_all with_bolt
  open_all-Leaves = require-Leaves out.make_dir _ _ _ (
      require-Leaves out.open_bolt _ _ _ (
        holding-Leaves bolt_db (λ h. raft_node ∷ raft_transport ∷ h) (with_bolt cfg out)
          (require-Leaves out.open_snapshots _ _ _
            (require_value-Leaves out.has_state _ _ (with_state cfg out) with_state-Leaves))))

-- A store that starts leaves its database, its transport and its Raft node open, and one that fails
-- to start, wherever it fails, leaves nothing open.
pub start_leaves :
    (cfg : RaftConfig) (out : Outside)
    → held_after [] (new_raft_store cfg out).1
      ≡ (if is_ok (new_raft_store cfg out).0 then raft_node ∷ raft_transport ∷ bolt_db ∷ [] else [])
unfolding new_raft_store
start_leaves cfg out =
    check-Leaves (check_config cfg) (λ held. raft_node ∷ raft_transport ∷ bolt_db ∷ held) _
      (λ full. open_all-Leaves full out) []
