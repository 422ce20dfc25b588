-- ===== src/State/RaftStore/Closing.antt =====
-- Close of internal/state/raftstore.go: the parts of a store are closed once, each whatever the others answer.
use cosmosigner.Prelude.{◌≡◌, refl, Bool, true, false, List, [], ◌∷◌, ◌++◌, if◌then◌else◌}

pub data CloseError : Type 0 where
  raft_shutdown transport_unclosed store_unclosed : CloseError

-- Which part refuses to close, and whether the store has a transport.
pub record CloseEnv : Type 0 where
  pub shutdown_fails : Bool
  pub has_transport : Bool
  pub transport_fails : Bool
  pub bolt_fails : Bool

pub data Closes : Type 0 where
  signals_closed shuts_raft closes_transport closes_bolt : Closes

-- closeOnce, closeErr and what was closed, the latest first; no errors are a nil error.
pub record Closing : Type 0 where
  pub is_done : Bool
  pub errors : List CloseError
  pub closed : List Closes

abbrev pub refused : Bool → CloseError → List CloseError
refused true e = e ∷ []
refused false e = []

abbrev pub close_errors : CloseEnv → List CloseError
close_errors e =
    refused e.shutdown_fails raft_shutdown
    ++ (if e.has_transport then refused e.transport_fails transport_unclosed else [])
    ++ refused e.bolt_fails store_unclosed

abbrev pub close_parts : Bool → List Closes → List Closes
close_parts true done = closes_bolt ∷ closes_transport ∷ shuts_raft ∷ signals_closed ∷ done
close_parts false done = closes_bolt ∷ shuts_raft ∷ signals_closed ∷ done

abbrev pub close_first : CloseEnv → Closing → Closing
close_first e s = record {
  is_done = true;
  errors = close_errors e;
  closed = close_parts e.has_transport s.closed;
}

-- Close: the state after it, whose errors are the answer.
unfoldable pub close : CloseEnv → Closing → Closing
close e s = if s.is_done then s else close_first e s

closed_once :
    (e d : CloseEnv) (s : Closing) (b : Bool)
    → s.is_done ≡ b
    → close d (if b then s else close_first e s) ≡ (if b then s else close_first e s)
unfolding close
closed_once e d s true h = rw h
closed_once e d s false h = refl

-- A second Close closes nothing and answers as the first one did.
pub close-twice : (e d : CloseEnv) (s : Closing) → close d (close e s) ≡ close e s
unfolding close
close-twice e d s = closed_once e d s s.is_done refl
