-- ===== src/Server/Sockets.antt =====
-- dial, dialOnce and retire of internal/server/lifecycle.go, interleaved: the dialing goroutine runs
-- between the flag, the cancellation and the close of a retirement. Each step is one critical
-- section of the source or one call of the network.
pub mod Closing
use cosmosigner.Prelude.{
  ℕ, suc, ◌<◌, ◌≡◌, refl, ◌⊎◌, inl, inr, Bool, true, false, Option, some, List, [], ◌∷◌, In, arith,
  subst, Bool-cases, Option-cases, true≢false, sym, ap, ◌∙◌, Bytes,
}
use cosmosigner.Server.{NodeServer, new_node_server, track, hand_over, close_conn, disable}

-- Where the dial of a connector stands.
pub data Phase : Type 0 where
  waiting ended : Phase
  opened tracked delivered : ℕ → Phase

-- `finished` once retire has closed the connector's socket.
pub record Link : Type 0 where
  pub ns : NodeServer
  pub phase : Phase
  pub finished : Bool
  pub next_socket : ℕ
  pub closed : List ℕ

unfoldable pub new_link : Bytes → ℕ → Link
new_link addr now = record {
  ns = new_node_server addr now;
  phase = waiting;
  finished = false;
  next_socket = 0;
  closed = [];
}

abbrev pub dropped : ℕ → Link → Link
dropped s k = record k { phase = waiting; closed = s ∷ k.closed }

-- `connect_failed` ends the dial where dialCtx is cancelled, and tries again otherwise.
pub data Step : Link → Link → Type 0 where
  connects :
      (k : Link)
      → k.phase ≡ waiting
      → Step k (record k { phase = opened k.next_socket; next_socket = suc k.next_socket })
  gives_up :
      (k : Link) → k.phase ≡ waiting → k.ns.cancelled ≡ true → Step k (record k { phase = ended })
  tracks :
      (k : Link) (s : ℕ)
      → k.phase ≡ opened s
      → (track s k.ns).0 ≡ true
      → Step k (record k { ns = (track s k.ns).1; phase = tracked s })
  untracked :
      (k : Link) (s : ℕ) → k.phase ≡ opened s → (track s k.ns).0 ≡ false → Step k (dropped s k)
  handshake_failed : (k : Link) (s : ℕ) → k.phase ≡ tracked s → Step k (dropped s k)
  hands_over :
      (k : Link) (s : ℕ)
      → k.phase ≡ tracked s
      → hand_over k.ns ≡ true
      → Step k (record k { phase = delivered s })
  withheld :
      (k : Link) (s : ℕ) → k.phase ≡ tracked s → hand_over k.ns ≡ false → Step k (dropped s k)
  endpoint_drops : (k : Link) (s : ℕ) → k.phase ≡ delivered s → Step k (dropped s k)
  flags : (k : Link) → Step k (record k { ns = disable k.ns })
  closes :
      (k : Link)
      → k.ns.retired ≡ true
      → Step k (record k { finished = true; closed = close_conn k.ns k.closed })

pub data Reach (k : Link) : Link → Type 0 where
  here : Reach k k
  next : {m n : Link} → Reach k m → Step m n → Reach k n
