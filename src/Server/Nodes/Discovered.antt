-- ===== src/Server/Nodes/Discovered.antt =====
-- internal/server/nodes.go: the addresses of a headless service come sorted, one per address of its host.
use mathlib.Core.List.{Perm}
use mathlib.Core.List.Perm
use cosmosigner.Prelude.{
  ◌≡◌, refl, ap, ◌∙◌, subst, inl, inr, Bytes, bytes_lt, Bool, true, false, none, some, List, [],
  ◌∷◌, map, ok, ok_inj, Bool-cases, ◌++◌, ◌||◌, ℕ, ◌==◌, arith, if◌then◌else◌,
}
use cosmosigner.Server.Nodes.{
  headless, colon, open_bracket, close_bracket, has, cut_last, unbracket, plain_host,
  bracketed_host, host_and_port, split_host_port, join_host_port, insert_address, sort_addresses,
  nodes,
}

-- No address is followed by a smaller one.
abbrev Under : Bytes → List Bytes → Type 0
Under a [] = Unit
Under a (b ∷ bs) = bytes_lt b a ≡ false

abbrev pub IsSorted : List Bytes → Type 0
IsSorted [] = Unit
IsSorted (a ∷ bs) = Under a bs × IsSorted bs

insert-Under :
    (a b : Bytes) (bs : List Bytes)
    → bytes_lt a b ≡ false
    → Under b bs
    → Under b (insert_address a bs)
unfolding insert_address
insert-Under a b [] h u = h
insert-Under a b (c ∷ bs) h u = elim (Bool-cases (bytes_lt c a)) [
  | inl under ↦ rw under u
  | inr over ↦ rw over h
]

bytes_lt-asym : (a b : Bytes) → bytes_lt a b ≡ true → bytes_lt b a ≡ false
unfolding bytes_lt
bytes_lt-asym a [] h = cc h
bytes_lt-asym [] (y ∷ b) h = refl
bytes_lt-asym (x ∷ a) (y ∷ b) h = ground (arith, bytes_lt-asym a b)

insert-IsSorted : (a : Bytes) (bs : List Bytes) → IsSorted bs → IsSorted (insert_address a bs)
unfolding insert_address
insert-IsSorted a [] s = (tt, tt)
insert-IsSorted a (b ∷ bs) (u, s) = elim (Bool-cases (bytes_lt b a)) [
  | inl under ↦ rw under (insert-Under a b bs (bytes_lt-asym b a under) u, insert-IsSorted a bs s)
  | inr over ↦ rw over (over, (u, s))
]

insert-Perm : (a : Bytes) (bs : List Bytes) → Perm (insert_address a bs) (a ∷ bs)
unfolding insert_address
insert-Perm a [] = Perm.refl _
insert-Perm a (b ∷ bs) = elim (Bool-cases (bytes_lt b a)) [
  | inl under ↦ rw under (Perm.trans (Perm.cons b (insert-Perm a bs)) (Perm.swap a b bs))
  | inr over ↦ rw over (Perm.refl _)
]

sort-IsSorted : (as_found : List Bytes) → IsSorted (sort_addresses as_found)
unfolding sort_addresses
sort-IsSorted [] = tt
sort-IsSorted (a ∷ rest) = insert-IsSorted a (sort_addresses rest) (sort-IsSorted rest)

sort-Perm : (as_found : List Bytes) → Perm (sort_addresses as_found) as_found
unfolding sort_addresses
sort-Perm [] = Perm.refl []
sort-Perm (a ∷ rest) =
    Perm.trans (insert-Perm a (sort_addresses rest)) (Perm.cons a (sort-Perm rest))

-- The nodes of a headless service are sorted, and are the addresses that the resolver found, each with the
-- service's port, no more and no fewer.
pub headless_nodes-IsSorted :
    (host port : Bytes) (ips addrs : List Bytes)
    → nodes (headless host port) (some ips) ≡ ok addrs
    → IsSorted addrs × Perm addrs (map (λ ip. join_host_port ip port) ips)
unfolding nodes
headless_nodes-IsSorted host port ips addrs h =
    let found = map (λ ip. join_host_port ip port) ips in
    subst (λ l. IsSorted l × Perm l found) (ok_inj h) (sort-IsSorted found, sort-Perm found)

has-append : (c : ℕ) (s t : Bytes) → has c (s ++ t) ≡ (has c s || has c t)
has-append c [] t = refl
has-append c (d ∷ s) t = ground (arith, has-append c s t)

or_true : (b : Bool) → (b || true) ≡ true
or_true true = refl
or_true false = refl

cut_last-colon :
    (host port : Bytes)
    → has colon port ≡ false
    → cut_last (host ++ (colon ∷ port)) ≡ some (host, port)
unfolding cut_last
cut_last-colon [] port h = rw h refl
cut_last-colon (c ∷ host) port h =
    rw (has-append colon host (colon ∷ port), cut_last-colon host port h)
      (rw (or_true (has colon host)) refl)

neither : (a b : Bool) → (a || b) ≡ false → (a ≡ false) × (b ≡ false)
neither true b h = cc h
neither false b h = (refl, h)

unbracket-closed :
    (host : Bytes)
    → has close_bracket host ≡ false
    → unbracket (host ++ (close_bracket ∷ [])) ≡ some host
unfolding unbracket
unbracket-closed [] h = refl
unbracket-closed (c ∷ []) h = rw (neither (c == close_bracket) false h).0 refl
unbracket-closed (c ∷ d ∷ host) h =
    let (other, rest) = neither (c == close_bracket) (has close_bracket (d ∷ host)) h in
    rw (other, unbracket-closed (d ∷ host) rest) refl

closed_first :
    (host port : Bytes)
    → host ++ (close_bracket ∷ colon ∷ port) ≡ (host ++ (close_bracket ∷ [])) ++ (colon ∷ port)
closed_first [] port = refl
closed_first (c ∷ host) port = ap (◌∷◌ c) (closed_first host port)

no_either : {a b : Bool} → a ≡ false → b ≡ false → (a || b) ≡ false
no_either h k = rw (h, k) refl

bracketed :
    (host port : Bytes)
    → has open_bracket host ≡ false
    → has close_bracket host ≡ false
    → has colon port ≡ false
    → has open_bracket port ≡ false
    → has close_bracket port ≡ false
    → split_host_port (open_bracket ∷ (host ++ (close_bracket ∷ colon ∷ port))) ≡ some (host, port)
unfolding split_host_port
bracketed host port no_open no_close p_colon p_open p_close =
    ap (λ s. split_host_port (open_bracket ∷ s)) (closed_first host port)
    ∙ ap (λ o. elim o [ none ↦ none | some p ↦ host_and_port p ])
        (cut_last-colon (open_bracket ∷ (host ++ (close_bracket ∷ []))) port p_colon)
    ∙ rw
        (
          unbracket-closed host no_close,
          has-append open_bracket host port,
          no_open,
          p_open,
          p_close,
        )
        refl

plain_host-ok :
    (host port : Bytes)
    → has colon host ≡ false
    → has open_bracket (host ++ port) ≡ false
    → has close_bracket (host ++ port) ≡ false
    → plain_host (host, port) ≡ some (host, port)
plain_host-ok host port h_colon no_open no_close = rw (h_colon, no_open, no_close) refl

plain :
    (host port : Bytes)
    → has colon host ≡ false
    → has open_bracket host ≡ false
    → has close_bracket host ≡ false
    → has open_bracket port ≡ false
    → has close_bracket port ≡ false
    → host_and_port (host, port) ≡ some (host, port)
plain [] port h_colon no_open no_close p_open p_close = plain_host-ok [] port refl p_open p_close
plain (c ∷ host) port h_colon no_open no_close p_open p_close =
    let whole =
      plain_host-ok (c ∷ host) port h_colon
        (has-append open_bracket (c ∷ host) port ∙ no_either no_open p_open)
        (has-append close_bracket (c ∷ host) port ∙ no_either no_close p_close) in
    ap (λ b. if b then bracketed_host (unbracket host) port else plain_host (c ∷ host, port))
      (neither (c == open_bracket) (has open_bracket host) no_open).0
    ∙ whole

-- An address that is joined of a host and a port is split into the same two, an IPv6 address among the
-- hosts included, where neither has a bracket and the port no colon.
pub split_host_port-join :
    (host port : Bytes)
    → has open_bracket host ≡ false
    → has close_bracket host ≡ false
    → has colon port ≡ false
    → has open_bracket port ≡ false
    → has close_bracket port ≡ false
    → split_host_port (join_host_port host port) ≡ some (host, port)
unfolding split_host_port join_host_port
split_host_port-join host port no_open no_close p_colon p_open p_close =
    elim (Bool-cases (has colon host)) [
      | inl six ↦ rw six (bracketed host port no_open no_close p_colon p_open p_close)
      | inr four ↦ rw four (
          ap (λ o. elim o [ none ↦ none | some p ↦ host_and_port p ])
            (cut_last-colon host port p_colon)
          ∙ plain host port four no_open no_close p_open p_close)
    ]
