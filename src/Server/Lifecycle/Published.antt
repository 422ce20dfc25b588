-- ===== src/Server/Lifecycle/Published.antt =====
-- Status of internal/server/lifecycle.go.
use cosmosigner.Prelude.{
  ℕ, ◌≡◌, sym, ap, ◌∙◌, ◌↔◌, ◌⊎◌, inl, inr, Bytes, bytes_lt, bytes_lt-total, Bool, true, false,
  true≢false, some, List, [], ◌∷◌, Bool-cases,
}
use cosmosigner.Server.{NodeServer, Config}
use cosmosigner.Server.Lifecycle.{
  Lifecycle, Env, ServedNode, NodeStatus, is_served, insert_node, sort_nodes, status_of,
  node_statuses, current_status, publish_status, reconcile, reconcile_nodes, sweep, serve_all,
  stop_all, retire_all, new,
}
use cosmosigner.Server.Lifecycle.Serving.{Servers, served_at, In-served, Distinct}
use cosmosigner.Server.Lifecycle.Connectors.{IsSound}
use cosmosigner.Server.Lifecycle.Passes.{reconcile-Sound}
use cosmosigner.Server.Lifecycle.Run.{Event, run, run-Sound, new-Sound}

-- The addresses are strictly increasing.
abbrev Before : Bytes → List ServedNode → Type 0
Before a [] = Unit
Before a (n ∷ rest) = bytes_lt a n.addr ≡ true

abbrev Sorted : List ServedNode → Type 0
Sorted [] = Unit
Sorted (n ∷ rest) = Before n.addr rest × Sorted rest

abbrev Holds : Bytes → List ServedNode → Type 0
Holds a [] = ⊥
Holds a (n ∷ rest) = (a ≡ n.addr) ⊎ Holds a rest

insert-Before :
    (a : Bytes) (n : ServedNode) (rest : List ServedNode)
    → bytes_lt a n.addr ≡ true
    → Before a rest
    → Before a (insert_node n rest)
unfolding insert_node
insert-Before a n [] less h = less
insert-Before a n (m ∷ rest) less h = elim (Bool-cases (bytes_lt m.addr n.addr)) [
  | inl under ↦ rw under h
  | inr over ↦ rw over less
]

insert-Sorted :
    (n : ServedNode) (rest : List ServedNode)
    → (Holds n.addr rest → ⊥)
    → Sorted rest
    → Sorted (insert_node n rest)
unfolding insert_node
insert-Sorted n [] fresh s = (tt, tt)
insert-Sorted n (m ∷ rest) fresh (first, s) = elim (Bool-cases (bytes_lt m.addr n.addr)) [
  | inl under ↦
      rw under
        (insert-Before m.addr n rest under first, insert-Sorted n rest (λ h. fresh (inr h)) s)
  | inr over ↦ rw over (
    elim (bytes_lt-total m.addr n.addr) [
      | inl under ↦ absurd (true≢false (sym under ∙ over))
      | inr (inl same) ↦ absurd (fresh (inl (sym same)))
      | inr (inr less) ↦ less
    ],
    (first, s),
  )
]

insert-Holds :
    (a : Bytes) (n : ServedNode) (rest : List ServedNode)
    → Holds a (insert_node n rest) ↔ Holds a (n ∷ rest)
unfolding insert_node
insert-Holds a n [] = (λ h. h, λ h. h)
insert-Holds a n (m ∷ rest) = elim (Bool-cases (bytes_lt m.addr n.addr)) [
  | inl under ↦
      let (there, back) = insert-Holds a n rest in
      rw under (
        λ h. elim h [
          | inl e ↦ inr (inl e)
          | inr at ↦ elim (there at) [ inl e ↦ inl e | inr later ↦ inr (inr later) ]
        ],
        λ h. elim h [
          | inl e ↦ inr (back (inl e))
          | inr (inl e) ↦ inl e
          | inr (inr later) ↦ inr (back (inr later))
        ],
      )
  | inr over ↦ rw over (λ h. h, λ h. h)
]

sort-Holds : (a : Bytes) (ns : List ServedNode) → Holds a (sort_nodes ns) ↔ Holds a ns
unfolding sort_nodes
sort-Holds a [] = (λ h. h, λ h. h)
sort-Holds a (n ∷ rest) =
    let (there, back) = insert-Holds a n (sort_nodes rest) in
    let (t, b) = sort-Holds a rest in
    (
      λ h. elim (there h) [ inl e ↦ inl e | inr later ↦ inr (t later) ],
      λ h. back (elim h [ inl e ↦ inl e | inr later ↦ inr (b later) ]),
    )

of_Holds :
    (h : ℕ → NodeServer) (a : Bytes) (xs : Servers)
    → Holds a (status_of h xs) ↔ (is_served a xs ≡ true)
unfolding status_of is_served
of_Holds h a [] = (λ e. elim e [ ], λ e. absurd (true≢false (sym e)))
of_Holds h a ((b, i) ∷ xs) =
    let (there, back) = of_Holds h a xs in
    (
      λ at. elim at [
        | inl e ↦ In-served a i ((b, i) ∷ xs) (inl (ap (λ (c : Bytes). (c, i)) e))
        | inr later ↦
            let (j, entry) = served_at a xs (there later) in In-served a j ((b, i) ∷ xs) (inr entry)
      ],
      λ e.
          let (j, entry) = served_at a ((b, i) ∷ xs) e in
          elim entry [
            | inl same ↦ inl (ap (λ (q : Bytes × ℕ). q.0) same)
            | inr later ↦ inr (back (In-served a j xs later))
          ],
    )

Sorted-status :
    (h : ℕ → NodeServer) (xs : Servers) → Distinct xs → Sorted (sort_nodes (status_of h xs))
unfolding sort_nodes status_of
Sorted-status h [] d = tt
Sorted-status h ((b, i) ∷ xs) (fresh, d) =
    insert-Sorted (record { addr = b; connected = (h i).connected; ns = i })
      (sort_nodes (status_of h xs))
      (λ at.
        absurd
          (true≢false (sym ((of_Holds h b xs).0 ((sort-Holds b (status_of h xs)).0 at)) ∙ fresh)))
      (Sorted-status h xs d)

abbrev pub Shows : Bytes → List NodeStatus → Type 0
Shows a [] = ⊥
Shows a (n ∷ rest) = (a ≡ n.address) ⊎ Shows a rest

abbrev pub After : Bytes → List NodeStatus → Type 0
After a [] = Unit
After a (n ∷ rest) = bytes_lt a n.address ≡ true

abbrev pub AddressesSorted : List NodeStatus → Type 0
AddressesSorted [] = Unit
AddressesSorted (n ∷ rest) = After n.address rest × AddressesSorted rest

read-After :
    (h : ℕ → NodeServer) (a : Bytes) (ns : List ServedNode)
    → Before a ns
    → After a (node_statuses h ns)
unfolding node_statuses
read-After h a [] b = tt
read-After h a (n ∷ rest) b = b

read-Sorted :
    (h : ℕ → NodeServer) (ns : List ServedNode) → Sorted ns → AddressesSorted (node_statuses h ns)
unfolding node_statuses
read-Sorted h [] s = tt
read-Sorted h (n ∷ rest) (b, s) = (read-After h n.addr rest b, read-Sorted h rest s)

read-Shows :
    (h : ℕ → NodeServer) (a : Bytes) (ns : List ServedNode)
    → Holds a ns ↔ Shows a (node_statuses h ns)
unfolding node_statuses
read-Shows h a [] = (λ e. e, λ e. e)
read-Shows h a (n ∷ rest) =
    let (there, back) = read-Shows h a rest in
    (
      λ at. elim at [ inl e ↦ inl e | inr later ↦ inr (there later) ],
      λ at. elim at [ inl e ↦ inl e | inr later ↦ inr (back later) ],
    )

published :
    (l : Lifecycle) (a : Bytes)
    → IsSound l
    → AddressesSorted (current_status (publish_status l))
      × ((is_served a (publish_status l).servers ≡ true)
          ↔ Shows a (current_status (publish_status l)))
unfolding publish_status
published l a s =
    let (read, unread) =
      read-Shows l.connectors a (sort_nodes (status_of l.connectors l.servers)) in
    let (sorted, unsorted) = sort-Holds a (status_of l.connectors l.servers) in
    let (told, shown) = of_Holds l.connectors a l.servers in
    (
      read-Sorted l.connectors _ (Sorted-status l.connectors l.servers s.distinct),
      (λ h. read (unsorted (shown h)), λ h. told (sorted (unread h))),
    )

reconciled :
    (e : Env) (leader : Bool) (want : List Bytes) (l : Lifecycle) (a : Bytes)
    → IsSound l
    → AddressesSorted (current_status (reconcile e leader (some want) l))
      × ((is_served a (reconcile e leader (some want) l).servers ≡ true)
          ↔ Shows a (current_status (reconcile e leader (some want) l)))
unfolding reconcile reconcile_nodes stop_all publish_status
reconciled e false want l a s =
    published (retire_all e.now l.servers l) a (reconcile-Sound e false (some want) l s)
reconciled e true want l a s =
    published (serve_all e want (sweep e want l.servers l)) a
      (reconcile-Sound e true (some want) l s)

-- After a reconcile that knows the leadership and the nodes, at the end of any events, the status
-- lists the served addresses, each once and in increasing order.
pub status-Published :
    (cfg : Config) (events : List Event) (e : Env) (leader : Bool) (want : List Bytes) (a : Bytes)
    → AddressesSorted (current_status (reconcile e leader (some want) (run events (new cfg))))
      × ((is_served a (reconcile e leader (some want) (run events (new cfg))).servers ≡ true)
          ↔ Shows a (current_status (reconcile e leader (some want) (run events (new cfg)))))
status-Published cfg events e leader want a =
    reconciled e leader want (run events (new cfg)) a (run-Sound events (new cfg) (new-Sound cfg))
