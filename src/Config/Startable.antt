-- ===== src/Config/Startable.antt =====
-- Validate of internal/config/config.go against the start-up checks of internal/state/raftstore.go.
use cosmosigner.Prelude.{
  ◌==◌, ◌≡◌, refl, sym, ap, Bytes, bytes_eq, is_empty, Bool, true, false, true≢false, not, ◌&&◌,
  ◌||◌, List, [], ◌∷◌, map, Result, ok, err, ◌>>=◌, fail_if, if◌then◌else◌, chain_ok, passes,
  fail_if_ok, ok_inj,
}
use cosmosigner.State.RaftStore.Startup
use cosmosigner.State.RaftStore.Startup.{
  StartError, check_members, servers_from, bootstrap_servers, check_transport, with_defaults,
  check_config, not_a_member,
}
use cosmosigner.Config.{
  Config, RaftConfig, Member, ConfigError, validate, validate_nodes, validate_backend,
  validate_claim, validate_raft, validate_bootstrap, validate_members, chain_id_required,
  node_id_required, bind_addr_required, data_dir_required, validate_tls, set_files, tls_incomplete,
  tls_and_insecure, no_tls, empty_members, state_config, state_member,
}

members_agree :
    (id : Bytes) (ms : List Member) (found result : Bool)
    → validate_members id ms found ≡ ok result
    → check_members id (map state_member ms) found ≡ ok result
unfolding validate_members check_members
members_agree id [] found result h = ap ok (ok_inj h)
members_agree id (m ∷ ms) found result h =
    let (whole, told) = passes (is_empty m.id || is_empty m.address) _ _ _ h in
    rw whole (members_agree id ms (bytes_eq m.id id || found) result told)

same_tests :
    {E F : Type 0} (a b c : Bool) (e1 e2 e3 : E) (f1 f2 f3 : F)
    → ◌≡◌ {A = Result E (Unit {0})}
        (if a then err e1 else if b then err e2 else fail_if c e3)
        (ok tt)
    → ◌≡◌ {A = Result F (Unit {0})}
        (if a then err f1 else if b then err f2 else fail_if c f3)
        (ok tt)
same_tests true b c e1 e2 e3 f1 f2 f3 h = cc h
same_tests false true c e1 e2 e3 f1 f2 f3 h = cc h
same_tests false false true e1 e2 e3 f1 f2 f3 h = cc h
same_tests false false false e1 e2 e3 f1 f2 f3 h = refl

tls_agrees : (r : RaftConfig) → validate_tls r ≡ ok tt → check_transport (state_config r) ≡ ok tt
unfolding validate_tls check_transport state_config
tls_agrees r h =
    let n = set_files (r.tls_cert ∷ r.tls_key ∷ r.tls_ca ∷ []) in
    same_tests (not (n == 0) && not (n == 3)) (r.insecure && not (n == 0))
      (n == 0 && not r.insecure) tls_incomplete tls_and_insecure no_tls Startup.tls_incomplete
      Startup.tls_and_insecure Startup.no_tls h

single_asked :
    (asked single : Bool) (other : Result ConfigError (Unit {0}))
    → asked ≡ true
    → (if asked && true && not single then err empty_members else other) ≡ ok tt
    → single ≡ true
single_asked true true other e h = refl
single_asked true false other e h = cc h
single_asked false single other e h = absurd (true≢false (sym e))

members_asked :
    (asked : Bool) (single : Bool) (checked : Result ConfigError (Unit {0}))
    → asked ≡ true
    → (if asked && false && not single
        then err empty_members
        else if asked && true
        then checked
        else ok tt)
      ≡ ok tt
    → checked ≡ ok tt
members_asked true single checked e h = h
members_asked false single checked e h = absurd (true≢false (sym e))

found_ok :
    (found : Bool) (ms : List Startup.Member)
    → not found ≡ false
    → ◌≡◌ {A = Result StartError (List Startup.Member)}
        (if not found then err not_a_member else ok ms)
        (ok ms)
found_ok found ms h = rw h

listed :
    (r : RaftConfig) (addr : Bytes) (ms : List Member)
    → r.bootstrap ≡ true
    → validate_bootstrap (record r { members = ms }) ≡ ok tt
    → (servers : List Startup.Member) × (servers_from r.single_node r.node_id addr
          (map state_member ms)
        ≡ ok servers)
unfolding validate_bootstrap servers_from
listed r addr [] asked h = (
  record { id = r.node_id; address = addr } ∷ [],
  rw (single_asked r.bootstrap r.single_node _ asked h),
)
listed r addr (m ∷ ms) asked h =
    let (found, told, checked) =
      chain_ok (validate_members r.node_id (m ∷ ms) false)
        (members_asked r.bootstrap r.single_node _ asked h) in
    (
      map state_member (m ∷ ms),
      rw (members_agree r.node_id (m ∷ ms) false found checked)
          (found_ok found (map state_member (m ∷ ms)) (fail_if_ok (not found) _ told)),
    )

raft_passes :
    (r : RaftConfig)
    → validate_raft r ≡ ok tt
    → (validate_tls r ≡ ok tt) × (validate_bootstrap r ≡ ok tt)
unfolding validate_raft
raft_passes r h =
    let (b, h5) = passes (is_empty r.node_id) node_id_required _ tt h in
    let (d, h6) = passes (is_empty r.bind_addr) bind_addr_required _ tt h5 in
    let (e, h7) = passes (is_empty r.data_dir) data_dir_required _ tt h6 in
    let (x, tls, boot) = chain_ok (validate_bootstrap r) h7 in (tls, boot)

validate_raft_part : (c : Config) → validate c ≡ ok tt → validate_raft c.raft ≡ ok tt
unfolding validate
validate_raft_part c h =
    let (a, h1) = passes (is_empty c.chain_id) chain_id_required _ tt h in
    let (u, h2, nodes) = chain_ok (validate_nodes c) h1 in
    let (v, h3, backend) = chain_ok (validate_backend c.backend) h2 in
    let (w, h4, claim) = chain_ok (validate_claim c) {rest = λ w. validate_raft c.raft} h3 in h4

seeding_passes :
    (asked : Bool) (servers : Result StartError (List Startup.Member)) (full : Startup.RaftConfig)
    → (asked ≡ true → (made : List Startup.Member) × (servers ≡ ok made))
    → ◌≡◌ {A = Result StartError Startup.RaftConfig}
        (if asked then (servers >>= λ made. ok full) else ok full)
        (ok full)
seeding_passes false servers full h = refl
seeding_passes true servers full h = let (made, good) = h refl in rw good

servers_pass :
    (r : RaftConfig)
    → validate_bootstrap r ≡ ok tt
    → (with_defaults (state_config r)).bootstrap ≡ true
    → (made : List Startup.Member) × (bootstrap_servers
          (with_defaults (state_config r))
          (with_defaults (state_config r)).node_id
          (with_defaults (state_config r)).advertise
        ≡ ok made)
unfolding bootstrap_servers with_defaults state_config
servers_pass r boot asked = listed r _ r.members asked boot

-- A configuration that Validate accepts passes every check that the Raft store makes before it
-- opens anything: its transport is secured or opted out, and a bootstrap's members are complete.
pub validate_starts :
    (c : Config)
    → validate c ≡ ok tt
    → check_config (state_config c.raft) ≡ ok (with_defaults (state_config c.raft))
unfolding check_config
validate_starts c h =
    let (tls, boot) = raft_passes c.raft (validate_raft_part c h) in
    let full = with_defaults (state_config c.raft) in
    rw (tls_agrees c.raft tls) (seeding_passes full.bootstrap _ full (servers_pass c.raft boot))
