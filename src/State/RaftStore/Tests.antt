-- ===== src/State/RaftStore/Tests.antt =====
-- Start-ups of internal/state/raftstore.go.
use cosmosigner.Prelude.{
  Result, none, List, ok, ◌≡◌, refl, inl, inr, codes, bytes_eq, true, false, some, [], ◌∷◌, err,
}
use cosmosigner.State.RaftStore.Startup.{
  Member, RaftConfig, not_a_member, tls_incomplete, check_transport, check_members, servers_from,
  bootstrap_servers, with_defaults, check_config,
}
use cosmosigner.State.RaftStore.Opening.{
  bolt_db, raft_transport, raft_node, seeded, opened, shut, Outside, holding, seed, start_node,
  with_transport, with_state, with_bolt, open_all, new_raft_store,
}
use cosmosigner.State.RaftStore.Seeding.{has_member, seeds_with_self}
use cosmosigner.ClusterId
use cosmosigner.State.Fsm.{apply_init_cluster, apply_command, apply, replay}
use cosmosigner.State.Sample.{codec, first_id, blank}
use cosmosigner.State.RaftStore.{delivered, failed, leadership_lost, apply_entry}
use cosmosigner.State.RaftStore.Naming.{
  Pass, finished, Verdict, is_retried, known_or, candidate_of, propose, ensure_cluster_id,
}
use cosmosigner.State.RaftStore.Membership.{
  RaftMembership, MemberError, configured, count_voters, raft_membership, Look, observe,
  transfer_leadership,
}

naming : Unit {0}
unfolding bytes_eq ClusterId.validate ClusterId.is_hex apply_init_cluster apply_command apply replay
    apply_entry is_retried known_or candidate_of propose ensure_cluster_id count_voters
    raft_membership observe transfer_leadership
naming = tt

machine : Unit {0}
unfolding bytes_eq check_transport check_members servers_from bootstrap_servers with_defaults
    check_config holding seed start_node with_transport with_state with_bolt open_all new_raft_store
machine = tt

abbrev self : Member
self = record { id = codes "n1"; address = codes "n1:7070" }

abbrev peer : Member
peer = record { id = codes "n2"; address = codes "n2:7070" }

abbrev cfg : RaftConfig
cfg = record {
  node_id = codes "n1";
  bind_addr = codes "0.0.0.0:7070";
  advertise = [];
  data_dir = codes "d";
  bootstrap = true;
  single_node = false;
  insecure = true;
  members = self ∷ peer ∷ [];
  apply_timeout = 0;
  tls = record { cert_file = []; key_file = []; ca_file = [] };
}

abbrev fresh : Outside
fresh = record {
  make_dir = true;
  open_bolt = true;
  open_snapshots = true;
  has_state = some false;
  resolves = true;
  local_addr = some (codes "10.0.0.1:7070");
  raft_starts = true;
  bootstraps = true;
}

opens :
    (new_raft_store cfg fresh).1
    ≡ opened bolt_db ∷ opened raft_transport ∷ opened raft_node ∷ seeded (self ∷ peer ∷ []) ∷ []
unfolding machine
opens = refl

closes_again :
    (new_raft_store cfg (record fresh { bootstraps = false })).1
    ≡ opened bolt_db
      ∷ opened raft_transport
      ∷ opened raft_node
      ∷ shut raft_node
      ∷ shut raft_transport
      ∷ shut bolt_db
      ∷ []
unfolding machine
closes_again = refl

half_tls :
    (new_raft_store
      (record cfg { tls = record { cert_file = codes "c"; key_file = []; ca_file = [] } })
      fresh).0
    ≡ err tls_incomplete
unfolding machine
half_tls = refl

stranger : (new_raft_store (record cfg { node_id = codes "n3" }) fresh).0 ≡ err not_a_member
unfolding machine
stranger = refl

seeds_with_self_example :
    (true ≡ true) × (some false ≡ some false) × (has_member (codes "n1") (self ∷ peer ∷ []) ≡ true)
unfolding machine
seeds_with_self_example = seeds_with_self cfg fresh (self ∷ peer ∷ []) (inr (inr (inr (inl refl))))

-- A leader whose first try is lost with its leadership, and whose second one is answered.
abbrev lost_pass : Pass
lost_pass = record {
  entries = [];
  stop_first = none;
  is_leader = true;
  random = none;
  applied = finished (failed leadership_lost false);
  stop_after = none;
  stop_waiting = none;
}

abbrev passes : List Pass
passes = lost_pass ∷ record lost_pass { applied = finished delivered } ∷ []

abbrev named_here : Verdict
named_here = ensure_cluster_id codec first_id passes blank

abbrev looks : List Look
looks =
    record { leader_id = []; stop_waiting = none }
    ∷ record { leader_id = codes "n2"; stop_waiting = none }
    ∷ []

abbrev two_voters : Result MemberError RaftMembership
two_voters = raft_membership false (
    configured (
      record { id = codes "n1"; is_voter = true }
      ∷ record { id = codes "n2"; is_voter = true }
      ∷ []))

two_counted : two_voters ≡ ok (record { members = 2; voters = 2 })
unfolding naming
two_counted = refl
