-- ===== src/Server/Nodes/Tests.antt =====
-- Runs of internal/server/nodes.go.
use cosmosigner.Prelude.{◌≡◌, refl, Bytes, codes, bytes_lt, some, List, [], ◌∷◌, ok, err}
use cosmosigner.Server.Nodes.{
  headless, bad_address, cut_last, unbracket, split_host_port, join_host_port, new_headless,
  insert_address, sort_addresses, nodes, build_node_source,
}
use cosmosigner.Server.Nodes.Discovered.{split_host_port-join}

machine : Unit {0}
unfolding bytes_lt cut_last unbracket split_host_port join_host_port new_headless insert_address
    sort_addresses nodes build_node_source
machine = tt

service :
    build_node_source (codes "nodes.ns:26659") [] ≡ ok (headless (codes "nodes.ns") (codes "26659"))
unfolding machine
service = refl

no_port : build_node_source (codes "nodes.ns") [] ≡ err bad_address
unfolding machine
no_port = refl

abbrev ips : List Bytes
ips = codes "10.0.0.2" ∷ codes "fd00::1" ∷ codes "10.0.0.1" ∷ []

abbrev addrs : List Bytes
addrs = codes "10.0.0.1:26659" ∷ codes "10.0.0.2:26659" ∷ codes "[fd00::1]:26659" ∷ []

split_host_port-join_example :
    split_host_port (join_host_port (codes "fd00::1") (codes "26659"))
    ≡ some (codes "fd00::1", codes "26659")
split_host_port-join_example =
    split_host_port-join (codes "fd00::1") (codes "26659") refl refl refl refl refl
