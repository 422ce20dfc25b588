-- ===== src/Server/Sockets/Closing.antt =====
-- Who closes the sockets of a connector of internal/server/lifecycle.go.
use cosmosigner.Prelude.{
  ℕ, ◌<◌, ◌≡◌, refl, ◌⊎◌, inl, inr, Bool, true, false, Option, some, List, In, arith, subst,
  Bool-cases, Option-cases, true≢false, sym, ap, ◌∙◌, Bytes,
}
use cosmosigner.Server.{NodeServer, track, hand_over, close_conn, disable}
use cosmosigner.Server.Sockets.{
  Phase, waiting, ended, opened, tracked, delivered, Link, new_link, dropped, Step, connects,
  gives_up, tracks, untracked, handshake_failed, hands_over, withheld, endpoint_drops, flags,
  closes, Reach, here, next,
}

-- What the phase says of the connector's recorded socket, of a socket, and after the closing.
abbrev Recorded : Phase → Option ℕ → Type 0
Recorded waiting conn = Unit
Recorded ended conn = Unit
Recorded (opened s) conn = Unit
Recorded (tracked s) conn = conn ≡ some s
Recorded (delivered s) conn = conn ≡ some s

abbrev Holds : ℕ → Phase → Type 0
Holds s waiting = ⊥
Holds s ended = ⊥
Holds s (opened t) = s ≡ t
Holds s (tracked t) = s ≡ t
Holds s (delivered t) = s ≡ t

abbrev Shut : Phase → List ℕ → Type 0
Shut waiting closed = Unit
Shut ended closed = Unit
Shut (opened s) closed = Unit
Shut (tracked s) closed = In s closed
Shut (delivered s) closed = In s closed

record Sound (k : Link) : Type 0 where
  recorded : Recorded k.phase k.ns.conn
  kept : (s : ℕ) → s < k.next_socket → In s k.closed ⊎ Holds s k.phase
  done : (k.finished ≡ false) ⊎ ((k.ns.retired ≡ true) × Shut k.phase k.closed)

-- The socket that the phase holds is the only one that is not closed.
held :
    {k : Link}
    → Sound k
    → {p : Phase} → k.phase ≡ p
    → (t : ℕ) → t < k.next_socket
    → In t k.closed ⊎ Holds t p
held {k} i at t under = subst (λ q. In t k.closed ⊎ Holds t q) at (i.kept t under)

shut :
    {k : Link}
    → Sound k
    → {p : Phase} → k.phase ≡ p
    → (k.finished ≡ false) ⊎ ((k.ns.retired ≡ true) × Shut p k.closed)
shut {k} i at =
    subst (λ q. (k.finished ≡ false) ⊎ ((k.ns.retired ≡ true) × Shut q k.closed)) at i.done

abbrev OneHeld : Phase → ℕ → Type 0
OneHeld p s = (p ≡ opened s) ⊎ (p ≡ tracked s) ⊎ (p ≡ delivered s)

Holds-OneHeld : (p : Phase) (s t : ℕ) → OneHeld p s → Holds t p → t ≡ s
Holds-OneHeld p s t (inl e) h = subst (Holds t) e h
Holds-OneHeld p s t (inr (inl e)) h = subst (Holds t) e h
Holds-OneHeld p s t (inr (inr e)) h = subst (Holds t) e h

dropped-Sound : (k : Link) (s : ℕ) → OneHeld k.phase s → Sound k → Sound (dropped s k)
dropped-Sound k s one i = record {
  recorded = tt;
  kept = λ t under. elim (i.kept t under) [
    | inl c ↦ inl (inr c)
    | inr h ↦ inl (inl (Holds-OneHeld k.phase s t one h))
  ];
  done = elim i.done [ inl d ↦ inl d | inr (off, c) ↦ inr (off, tt) ];
}

track_live :
    (s : ℕ) (ns : NodeServer)
    → (track s ns).0 ≡ true
    → (ns.retired ≡ false) × (track s ns ≡ (true, record ns { conn = some s }))
unfolding track
track_live s ns ok = elim (Bool-cases ns.retired) [
  | inl off ↦ absurd (true≢false (sym ok ∙ rw off))
  | inr on ↦ (on, rw on)
]

close_keeps :
    (ns : NodeServer) (closed : List ℕ) (t : ℕ) → In t closed → In t (close_conn ns closed)
unfolding close_conn
close_keeps ns closed t c = elim (Option-cases ns.conn) [
  | inl nothing ↦ rw nothing c
  | inr (s, has) ↦ rw has (inr c)
]

close_shuts :
    (ns : NodeServer) (closed : List ℕ) (p : Phase)
    → Recorded p ns.conn
    → Shut p (close_conn ns closed)
unfolding close_conn
close_shuts ns closed waiting h = tt
close_shuts ns closed ended h = tt
close_shuts ns closed (opened s) h = tt
close_shuts ns closed (tracked s) h = rw h (inl refl)
close_shuts ns closed (delivered s) h = rw h (inl refl)

Step-Sound : {k m : Link} → Step k m → Sound k → Sound m
unfolding disable close_conn hand_over
Step-Sound (connects k at) i = record {
  recorded = tt;
  kept = λ t under. ground (arith, held i at t);
  done = elim (shut i at) [ inl d ↦ inl d | inr (off, c) ↦ inr (off, tt) ];
}
Step-Sound (gives_up k at off) i = record {
  recorded = tt;
  kept = λ t under. elim (held i at t under) [ inl c ↦ inl c | inr h ↦ absurd h ];
  done = elim i.done [ inl d ↦ inl d | inr (off, c) ↦ inr (off, tt) ];
}
Step-Sound (tracks k s at ok) i =
    let (on, told) = track_live s k.ns ok in
    record {
      recorded = ap (λ (r : Bool × NodeServer). r.1.conn) told;
      kept = held i at;
      done = elim (shut i at) [ inl d ↦ inl d | inr (off, c) ↦ absurd (true≢false (sym off ∙ on)) ];
    }
Step-Sound (untracked k s at full) i = dropped-Sound k s (inl at) i
Step-Sound (handshake_failed k s at) i = dropped-Sound k s (inr (inl at)) i
Step-Sound (hands_over k s at ok) i = record {
  recorded = subst (λ p. Recorded p k.ns.conn) at i.recorded;
  kept = held i at;
  done = shut i at;
}
Step-Sound (withheld k s at full) i = dropped-Sound k s (inr (inl at)) i
Step-Sound (endpoint_drops k s at) i = dropped-Sound k s (inr (inr at)) i
Step-Sound (flags k) i = record {
  recorded = i.recorded;
  kept = i.kept;
  done = elim i.done [ inl d ↦ inl d | inr (off, c) ↦ inr (refl, c) ];
}
Step-Sound (closes k off) i = record {
  recorded = i.recorded;
  kept = λ t under. elim (i.kept t under) [
    | inl c ↦ inl (close_keeps k.ns k.closed t c)
    | inr h ↦ inr h
  ];
  done = inr (off, close_shuts k.ns k.closed k.phase i.recorded);
}

Reach-Sound : {k m : Link} → Reach k m → Sound k → Sound m
Reach-Sound here i = i
Reach-Sound (next r step) i = Step-Sound step (Reach-Sound r i)

new_link-Sound : (addr : Bytes) (now : ℕ) → Sound (new_link addr now)
unfolding new_link
new_link-Sound addr now = record { recorded = tt; kept = λ s under. omega arith; done = inl refl }

finished_held :
    (s : ℕ) (p : Phase) (closed : List ℕ)
    → In s closed ⊎ Holds s p
    → Shut p closed
    → In s closed ⊎ (p ≡ opened s)
finished_held s p closed (inl c) h = inl c
finished_held s waiting closed (inr e) h = elim e [ ]
finished_held s ended closed (inr e) h = elim e [ ]
finished_held s (opened t) closed (inr e) h = inr (ap opened (sym e))
finished_held s (tracked t) closed (inr e) h = inl (subst (λ u. In u closed) (sym e) h)
finished_held s (delivered t) closed (inr e) h = inl (subst (λ u. In u closed) (sym e) h)

Holds-phase : (s : ℕ) (p : Phase) → Holds s p → OneHeld p s
Holds-phase s waiting e = elim e [ ]
Holds-phase s ended e = elim e [ ]
Holds-phase s (opened t) e = inl (ap opened (sym e))
Holds-phase s (tracked t) e = inr (inl (ap tracked (sym e)))
Holds-phase s (delivered t) e = inr (inr (ap delivered (sym e)))

refused_track : (s : ℕ) (ns : NodeServer) → ns.retired ≡ true → (track s ns).0 ≡ false
unfolding track
refused_track s ns off = rw off

-- No socket of a connector leaks, whatever the interleaving of its dial with its retirement: each
-- one that was opened is closed, or is the one that the dial or the endpoint still holds.
pub socket_kept :
    (addr : Bytes) (now : ℕ) (k : Link) (s : ℕ)
    → Reach (new_link addr now) k
    → s < k.next_socket
    → In s k.closed ⊎ ((k.phase ≡ opened s) ⊎ (k.phase ≡ tracked s) ⊎ (k.phase ≡ delivered s))
socket_kept addr now k s r under =
    let i = Reach-Sound r (new_link-Sound addr now) in
    elim (i.kept s under) [ inl c ↦ inl c | inr h ↦ inr (Holds-phase s k.phase h) ]

-- Once a retirement has closed its socket, every socket of the connector is closed, but for one whose
-- connect has just returned: that one is refused by track, which closes it.
pub retired_sockets_closed :
    (addr : Bytes) (now : ℕ) (k : Link) (s : ℕ)
    → Reach (new_link addr now) k
    → k.finished ≡ true
    → s < k.next_socket
    → In s k.closed ⊎ ((k.phase ≡ opened s) × ((track s k.ns).0 ≡ false))
retired_sockets_closed addr now k s r fin under =
    let i = Reach-Sound r (new_link-Sound addr now) in
    elim i.done [
      | inl running ↦ absurd (true≢false (sym fin ∙ running))
      | inr (off, shuts) ↦ elim (finished_held s k.phase k.closed (i.kept s under) shuts) [
        | inl c ↦ inl c
        | inr at ↦ inr (at, refused_track s k.ns off)
      ]
    ]
