-- ===== src/Server/Nodes.antt =====
-- internal/server/nodes.go: the nodes to dial, a fixed list or the addresses behind a headless service.
pub mod Discovered
pub mod Tests
use cosmosigner.Prelude.{
  ℕ, ◌==◌, Bytes, bytes_lt, is_empty, Bool, true, false, not, ◌&&◌, ◌||◌, Option, none, some, List,
  [], ◌∷◌, ◌++◌, any, map, Result, ok, err, ◌>>=◌, or_fail, fail_if, if◌then◌else◌,
}

pub data NodeError : Type 0 where
  bad_address lookup_failed : NodeError

abbrev pub colon : ℕ
colon = 58

abbrev pub open_bracket : ℕ
open_bracket = 91

abbrev pub close_bracket : ℕ
close_bracket = 93

abbrev pub has : ℕ → Bytes → Bool
has c s = any (λ d. d == c) s

abbrev pub before_cut : ℕ → Option (Bytes × Bytes) → Option (Bytes × Bytes)
before_cut c none = none
before_cut c (some p) = some (c ∷ p.0, p.1)

-- The text before the last colon, and after it.
unfoldable pub cut_last : Bytes → Option (Bytes × Bytes)
cut_last [] = none
cut_last (c ∷ s) =
    let later = cut_last s in
    if has colon s then before_cut c later else if c == colon then some ([], s) else none

-- The text in front of a bracket that ends it.
unfoldable pub unbracket : Bytes → Option Bytes
unbracket [] = none
unbracket (c ∷ []) = if c == close_bracket then some [] else none
unbracket (c ∷ d ∷ s) =
    let rest = unbracket (d ∷ s) in
    if c == close_bracket then none else elim rest [ none ↦ none | some h ↦ some (c ∷ h) ]

abbrev pub plain_host : Bytes × Bytes → Option (Bytes × Bytes)
plain_host p =
    if has colon p.0 || has open_bracket (p.0 ++ p.1) || has close_bracket (p.0 ++ p.1)
    then none
    else some p

abbrev pub bracketed_host : Option Bytes → Bytes → Option (Bytes × Bytes)
bracketed_host none port = none
bracketed_host (some host) port =
    if has open_bracket (host ++ port) || has close_bracket port then none else some (host, port)

abbrev pub host_and_port : Bytes × Bytes → Option (Bytes × Bytes)
host_and_port ([], port) = plain_host ([], port)
host_and_port (c ∷ host, port) =
    if c == open_bracket then bracketed_host (unbracket host) port else plain_host (c ∷ host, port)

-- net.SplitHostPort: the host, without its brackets, and the port.
unfoldable pub split_host_port : Bytes → Option (Bytes × Bytes)
split_host_port s = elim (cut_last s) [ none ↦ none | some p ↦ host_and_port p ]

-- net.JoinHostPort
unfoldable pub join_host_port : Bytes → Bytes → Bytes
join_host_port host port =
    if has colon host
    then open_bracket ∷ (host ++ (close_bracket ∷ colon ∷ port))
    else host ++ (colon ∷ port)

-- StaticNodes, or a service's host and port.
pub data NodeSource : Type 0 where
  static : List Bytes → NodeSource
  headless : Bytes → Bytes → NodeSource

-- NewHeadlessServiceNodes
unfoldable pub new_headless : Bytes → Result NodeError NodeSource
new_headless host_port = or_fail (split_host_port host_port) bad_address >>= λ p.
    if is_empty p.0 || is_empty p.1 then err bad_address else ok (headless p.0 p.1)

-- sort.Strings
unfoldable pub insert_address : Bytes → List Bytes → List Bytes
insert_address a [] = a ∷ []
insert_address a (b ∷ bs) =
    let rest = insert_address a bs in if bytes_lt b a then b ∷ rest else a ∷ b ∷ bs

unfoldable pub sort_addresses : List Bytes → List Bytes
sort_addresses [] = []
sort_addresses (a ∷ rest) = insert_address a (sort_addresses rest)

-- Nodes; `looked_up` is what the resolver answers for the service's host.
unfoldable pub nodes : NodeSource → Option (List Bytes) → Result NodeError (List Bytes)
nodes (static addrs) looked_up = ok addrs
nodes (headless host port) none = err lookup_failed
nodes (headless host port) (some ips) = ok (sort_addresses (map (λ ip. join_host_port ip port) ips))

-- buildNodeSource of cmd/cosmosigner/cmd/start.go
unfoldable pub build_node_source : Bytes → List Bytes → Result NodeError NodeSource
build_node_source node_service node_addrs =
    if not (is_empty node_service) then new_headless node_service else ok (static node_addrs)
