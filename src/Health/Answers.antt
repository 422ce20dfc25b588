-- ===== src/Health/Answers.antt =====
-- internal/health/health.go: the endpoints after any calls of the setters.
use cosmosigner.Prelude.{◌≡◌, refl, codes, Bool, Option, none, some, List, [], ◌∷◌}
use cosmosigner.Health.{
  Role, Node, Info, HealthServer, set_ready, set_raft, set_nodes, readyz, status, start,
}

-- A call of SetReady, SetRaft or SetNodes.
data Call : Type 0 where
  readies : Bool → Call
  takes_role : Role → Call
  takes_nodes : List Node → Call

perform : Call → Option HealthServer → Option HealthServer
perform (readies b) s = set_ready b s
perform (takes_role r) s = set_raft r s
perform (takes_nodes ns) s = set_nodes ns s

performed : List Call → Option HealthServer → Option HealthServer
performed [] s = s
performed (c ∷ cs) s = performed cs (perform c s)

-- What was set last.
last_ready : Bool → List Call → Bool
last_ready b [] = b
last_ready b (readies c ∷ cs) = last_ready c cs
last_ready b (takes_role r ∷ cs) = last_ready b cs
last_ready b (takes_nodes ns ∷ cs) = last_ready b cs

last_role : Option Role → List Call → Option Role
last_role o [] = o
last_role o (readies c ∷ cs) = last_role o cs
last_role o (takes_role r ∷ cs) = last_role (some r) cs
last_role o (takes_nodes ns ∷ cs) = last_role o cs

last_nodes : Option (List Node) → List Call → Option (List Node)
last_nodes o [] = o
last_nodes o (readies c ∷ cs) = last_nodes o cs
last_nodes o (takes_role r ∷ cs) = last_nodes o cs
last_nodes o (takes_nodes ns ∷ cs) = last_nodes (some ns) cs

-- The server holds what each setter was given last.
performed-last :
    (cs : List Call) (s : HealthServer)
    → performed cs (some s)
      ≡ some (record {
        info = s.info;
        ready = last_ready s.ready cs;
        raft = last_role s.raft cs;
        nodes = last_nodes s.nodes cs;
      })
unfolding performed perform set_ready set_raft set_nodes last_ready last_role last_nodes
performed-last [] s = refl
performed-last (readies b ∷ cs) s = performed-last cs (record s { ready = b })
performed-last (takes_role r ∷ cs) s = performed-last cs (record s { raft = some r })
performed-last (takes_nodes ns ∷ cs) s = performed-last cs (record s { nodes = some ns })

-- A server that is switched off stays off.
performed-nil : (cs : List Call) → performed cs none ≡ none
unfolding performed perform set_ready set_raft set_nodes
performed-nil [] = refl
performed-nil (readies b ∷ cs) = performed-nil cs
performed-nil (takes_role r ∷ cs) = performed-nil cs
performed-nil (takes_nodes ns ∷ cs) = performed-nil cs

abbrev info : Info
info = record { version = codes "v1"; chain_id = codes "chain"; raft_node_id = codes "n1" }

starts_not_ready : readyz (start info) ≡ (503, codes "not ready")
unfolding start readyz
starts_not_ready = refl

says_unknown : (status (start info)).state ≡ codes "unknown"
unfolding start status
says_unknown = refl
