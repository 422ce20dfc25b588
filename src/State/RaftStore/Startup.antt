-- ===== src/State/RaftStore/Startup.antt =====
-- NewRaftStoreContext and bootstrapServers of internal/state/raftstore.go, TLSConfig of
-- internal/state/transport.go. What the file system, the resolver and Raft answer is an argument.
use cosmosigner.Prelude.{
  ℕ, ◌+◌, ◌==◌, Bytes, bytes_eq, is_empty, Bool, false, not, ◌&&◌, ◌||◌, List, [], ◌∷◌, Result, ok,
  err, ◌>>=◌, ◌>>◌, fail_if, if◌then◌else◌,
}

pub record TlsConfig : Type 0 where
  pub cert_file : Bytes
  pub key_file : Bytes
  pub ca_file : Bytes

pub record Member : Type 0 where
  pub id : Bytes
  pub address : Bytes

-- The fields of RaftConfig; a timeout that is not positive is 0.
pub record RaftConfig : Type 0 where
  pub node_id : Bytes
  pub bind_addr : Bytes
  pub advertise : Bytes
  pub data_dir : Bytes
  pub bootstrap : Bool
  pub single_node : Bool
  pub insecure : Bool
  pub members : List Member
  pub apply_timeout : ℕ
  pub tls : TlsConfig

pub data StartError : Type 0 where
  tls_incomplete tls_and_insecure no_tls : StartError
  empty_members member_incomplete not_a_member : StartError
  data_dir bolt snapshots existing_state resolve transport new_raft bootstrap_cluster : StartError

abbrev pub count_set : List Bytes → ℕ
count_set [] = 0
count_set (path ∷ rest) = (if is_empty path then 0 else 1) + count_set rest

abbrev pub tls_files : TlsConfig → ℕ
tls_files t = count_set (t.cert_file ∷ t.key_file ∷ t.ca_file ∷ [])

-- Enabled
unfoldable pub tls_enabled : TlsConfig → Bool
tls_enabled t = not (is_empty t.cert_file) && not (is_empty t.key_file) && not (is_empty t.ca_file)

unfoldable pub check_transport : RaftConfig → Result StartError (Unit {0})
check_transport cfg =
    let n = tls_files cfg.tls in
    if not (n == 0) && not (n == 3)
    then err tls_incomplete
    else if cfg.insecure && not (n == 0)
    then err tls_and_insecure
    else fail_if (n == 0 && not cfg.insecure) no_tls

-- The loop of bootstrapServers: the servers so far, in reverse, and whether this node was found.
unfoldable pub check_members : Bytes → List Member → Bool → Result StartError Bool
check_members local_id [] found = ok found
check_members local_id (m ∷ rest) found =
    let later = check_members local_id rest (bytes_eq m.id local_id || found) in
    if is_empty m.id || is_empty m.address then err member_incomplete else later

-- bootstrapServers. A raft.Server is a member: the default suffrage is a vote.
unfoldable pub servers_from : Bool → Bytes → Bytes → List Member → Result StartError (List Member)
servers_from single_node local_id local_addr [] =
    if not single_node
    then err empty_members
    else ok (record { id = local_id; address = local_addr } ∷ [])
servers_from single_node local_id local_addr (m ∷ rest) =
    check_members local_id (m ∷ rest) false >>= λ found.
    if not found then err not_a_member else ok (m ∷ rest)

unfoldable pub bootstrap_servers : RaftConfig → Bytes → Bytes → Result StartError (List Member)
bootstrap_servers cfg local_id local_addr =
    servers_from cfg.single_node local_id local_addr cfg.members

-- The defaults of the two fields that have one: a timeout of ten seconds, and the bind address.
unfoldable pub with_defaults : RaftConfig → RaftConfig
with_defaults cfg = record cfg {
  apply_timeout = if cfg.apply_timeout == 0 then 10000000000 else cfg.apply_timeout;
  advertise = if is_empty cfg.advertise then cfg.bind_addr else cfg.advertise;
}

-- The checks that run before anything is opened; they answer with the completed configuration.
unfoldable pub check_config : RaftConfig → Result StartError RaftConfig
check_config cfg = do
  check_transport cfg
  let full = with_defaults cfg in
      if full.bootstrap
      then (bootstrap_servers full full.node_id full.advertise >>= λ _. ok full)
      else ok full
