-- ===== src/Lib.antt =====
-- Verification library of cosmosigner, a remote signer for CometBFT validators.
--
-- The program. Replicas of the signer share one replicated machine over Raft, which keeps for each
-- chain the height, round and step that was signed last, the payload reserved there and its
-- signature. A node's request reaches the leader over a connection that the leader dials
-- (internal/server), is answered by the gated validator (internal/signer/privval.go), which first
-- reserves the payload in the machine (internal/state), hands what was reserved to the key backend
-- (internal/backend), and commits the signature before the node gets it. At start-up the
-- configuration is checked (internal/config), the Raft store is opened, and the key's durable claim
-- must name this cluster's identity (internal/clusterid).
--
-- The files, and the code that each one models:
--   Prelude     names that all share: strings as lists of numbers, results, signed integers, maps;
--               Prelude.Exec is for methods that change a state and may fail, Prelude.Base64 for the
--               standard encoding of encoding/base64
--   ClusterId   internal/clusterid/id.go: New from its random bytes, Validate
--   State       internal/state/store.go: marks, commands and answers; the parameters `Codec`
--   State.Hrs   the order of heights, rounds and steps, compareHRS of internal/state/fsm.go
--   State.Fsm   internal/state/fsm.go: Apply with its three commands, replay of a log, get
--   State.Snapshot   internal/state/snapshot.go: Snapshot and Restore
--   State.RaftStore  internal/state/raftstore.go: Reserve, Commit, Get; below it the start-up checks,
--               resolveAdvertise, bootstrapServers, what NewRaftStoreContext opens and closes, Close,
--               the retries of EnsureClusterID, RaftMembership and TransferLeadership
--   State.Sample     a codec for the witnesses
--   Signer      internal/signer/privval.go: gatedSign, SignVote, SignProposal; Signer.Cluster is a
--               cluster of threads that reserve, sign and crash, as a step relation
--   Server      internal/server/lifecycle.go: the connection of one node; Server.Sockets interleaves
--               its dial with its retirement, Server.Lifecycle is the serving set, its reconcile,
--               its health scan and its status, Server.Lifecycle.Run the select of Run as events,
--               Server.Lifecycle.Shutdown what Run does once its context is cancelled;
--               Server.Nodes is internal/server/nodes.go, the node addresses of one discovery
--   Backend     internal/backend/backend.go: the configuration, RequireClusterBinding; Backend.FileBinding
--               is binding_file.go, Backend.VaultBinding is vault_binding.go, Backend.Addressing the
--               checks of vault_binding.go and pkcs11.go; Backend.Token is pkcs11.go, the sessions of a
--               token; Backend.Transit is vault.go, with the renewal of the token, and vault_import.go;
--               Backend.Awskms is the claims of awskms_binding.go and the signing of awskms.go,
--               with awskms_import.go and the making of a key in awskms_provision.go,
--               Backend.Gcpkms the claims of gcpkms_binding.go; Backend.KeyFile is software_file.go, with
--               the key files of software.go and keyfile.go and the lock of software_lock_unix.go
--   Health      internal/health/health.go: what the endpoints answer
--   Config      internal/config/config.go: Validate, and the Raft configuration that
--               cmd/cosmosigner/cmd/start.go makes of it
--   Start       cmd/cosmosigner/cmd/start.go: prepareStartupWithClaim, parseMembers; Start.Run is
--               runStart and runStartWithContext, as the effects that they have, and Start.Claimer
--               claimWithConfig
-- In each, a struct is a record with the fields that the code reads or writes, and a function or a
-- handler keeps its name in snake case. Helpers by clauses stand for the branches of a function.
--
-- Numbers. Heights, rounds, steps and versions are signed integers without bounds, since the code
-- only compares them; a time is the number of nanoseconds since the zero time of Go, and a
-- duration that is not positive is 0 where the code treats the two alike. Loops follow a list (a
-- log, a member list, a serving set, a list of events, the passes of the renewal), or count the
-- attempts of a constant, so that most functions are total. Two take fuel: the reading of a key's
-- tags in Backend.Awskms takes one more than the number of page markers that AWS gives out, since
-- it stops at a marker that it has seen, and the digits of a number in Backend.Transit take one
-- more than the number itself.
--
-- What is outside. CometBFT's protobuf messages and encoding/json are the parameters of `Codec`,
-- `SnapshotCodec` and `MarkerCodec`, the canonical sign-bytes those of `Canonical`, and CometBFT's
-- request handler is `Handler`. Raft answers a call through an `Attempt`, whose failure leaves
-- open whether the entry is applied; the key backend, the file system, the resolver and the clock
-- answer through the records `Env`, `Outside`, `ReadEnv`, `ClaimEnv`, `ClaimMoments`, `StartEnv`,
-- `EndEnv` and `RunEnv`. A PKCS#11 token is a `Device`, whose answers depend on a state of its
-- own; Vault's answers are those of a `Pass` and of `ImportEnv`, the pages of AWS are `Tags`, the
-- provisioning of a key file asks a `ProvisionEnv`. What a theorem needs of them (a text that
-- decodes from its encoding, a message that is equal to its own copy) is a hypothesis, with a
-- witness. A store's answer names the machine that applied the entry; the replicas' copies of it
-- are one machine here, as Raft keeps them.
--
-- Not modelled: the import and the provisioning of Google KMS keys, the command line, the cgo module of
-- PKCS#11, TLS set-up, the flags that overlay a configuration and the loading of it, the file with the
-- connection's key, the serving of HTTP and of JSON, the callback that ends the readiness at the signal,
-- and logging: these are mostly calls of libraries and of the system.
pub mod Prelude
pub mod ClusterId
pub mod State
pub mod Signer
pub mod Server
pub mod Health
pub mod Backend
pub mod Config
pub mod Start
