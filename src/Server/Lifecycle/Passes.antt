-- ===== src/Server/Lifecycle/Passes.antt =====
-- The passes of the lifecycle keep its connectors sound.
use cosmosigner.Prelude.{
  ℕ, ◌≡◌, refl, sym, ap, subst, ◌≢◌, ◌⊎◌, inl, inr, Bytes, Bool, true, false, not, ◌||◌, ltb,
  Option, none, some, List, [], ◌∷◌, In, Bool-cases,
}
use cosmosigner.Server.{RetireReason, retire_none, retire_silent}
use cosmosigner.Server.Lifecycle.{
  Lifecycle, Env, remove, is_served, wanted, retire, publish_status, observe_stored, is_silent,
  sweep_one, sweep, start_one, serve_one, serve_all, retire_all, stop_all, reconcile_nodes,
  reconcile, scan, needs_fast_discovery,
}
use cosmosigner.Server.Lifecycle.Serving.{Servers, In-remove, remove-In, unserved, Distinct}
use cosmosigner.Server.Lifecycle.Connectors.{
  IsSound, retire-Sound, observe_stored-Sound, started-Sound,
}

reason_cases : (r : RetireReason) → (r ≡ retire_none) ⊎ (r ≡ retire_silent)
reason_cases retire_none = inl refl
reason_cases retire_silent = inr refl

-- What the visit of one server leaves in the map: the rest, or all of it where the server is wanted.
sweep_one_servers :
    (e : Env) (want : List Bytes) (addr : Bytes) (i : ℕ) (l : Lifecycle)
    → ((sweep_one e want addr i l).servers ≡ remove addr l.servers)
      ⊎ (((sweep_one e want addr i l).servers ≡ l.servers) × (wanted addr want ≡ true))
unfolding sweep_one retire observe_stored
sweep_one_servers e want addr i l = elim (Bool-cases (wanted addr want)) [
  | inl asked ↦ elim (reason_cases (observe_stored e i l).0) [
    | inl keep ↦ inr (rw (asked, keep), asked)
    | inr silent ↦ inl (rw (asked, silent))
  ]
  | inr off ↦ inl (rw off)
]

sweep_one-Sound :
    (e : Env) (want : List Bytes) (addr : Bytes) (i : ℕ) (l : Lifecycle)
    → In (addr, i) l.servers
    → IsSound l
    → IsSound (sweep_one e want addr i l)
unfolding sweep_one observe_stored
sweep_one-Sound e want addr i l here s = elim (Bool-cases (wanted addr want)) [
  | inl asked ↦ elim (reason_cases (observe_stored e i l).0) [
    | inl keep ↦ rw (asked, keep) (observe_stored-Sound e i l s)
    | inr silent ↦
        rw (asked, silent)
          (retire-Sound e.now addr i (observe_stored e i l).1 here (observe_stored-Sound e i l s))
  ]
  | inr off ↦ rw off (retire-Sound e.now addr i l here s)
]

module _ (e : Env) (want : List Bytes) where
  sweep_one_keeps :
      (addr : Bytes) (i : ℕ) (l : Lifecycle) (p : Bytes × ℕ)
      → In p l.servers
      → p.0 ≢ addr
      → In p (sweep_one e want addr i l).servers
  sweep_one_keeps addr i l p at other = elim (sweep_one_servers e want addr i l) [
    | inl less ↦ subst (In p) (sym less) (remove-In addr p l.servers at other)
    | inr (same, asked) ↦ subst (In p) (sym same) at
  ]

  sweep_one_within :
      (addr : Bytes) (i : ℕ) (l : Lifecycle) (p : Bytes × ℕ)
      → In p (sweep_one e want addr i l).servers
      → In p l.servers × ((p.0 ≢ addr) ⊎ (wanted addr want ≡ true))
  sweep_one_within addr i l p at = elim (sweep_one_servers e want addr i l) [
    | inl less ↦
        let (here, other) = In-remove addr p l.servers (subst (In p) less at) in (here, inl other)
    | inr (same, asked) ↦ (subst (In p) same at, inr asked)
  ]

  sweep-Sound :
      (xs : Servers) (l : Lifecycle)
      → Distinct xs
      → ((p : Bytes × ℕ) → In p xs → In p l.servers)
      → IsSound l
      → IsSound (sweep e want xs l)
  unfolding sweep
  sweep-Sound [] l d there s = s
  sweep-Sound ((addr, i) ∷ xs) l (fresh, d) there s =
      sweep-Sound xs (sweep_one e want addr i l) d
        (λ p at. sweep_one_keeps addr i l p (there p (inr at)) (unserved addr xs p fresh at))
        (sweep_one-Sound e want addr i l (there (addr, i) (inl refl)) s)

  -- What a sweep leaves was there before, and is wanted where the sweep visited it.
  pub sweep_within :
      (xs : Servers) (l : Lifecycle) (p : Bytes × ℕ)
      → In p (sweep e want xs l).servers
      → In p l.servers × (In p xs → wanted p.0 want ≡ true)
  unfolding sweep
  sweep_within [] l p at = (at, λ h. elim h [ ])
  sweep_within ((addr, i) ∷ xs) l p at =
      let (later, asked) = sweep_within xs (sweep_one e want addr i l) p at in
      let (here, first) = sweep_one_within addr i l p later in
      (
        here,
        λ visit. elim visit [
          | inl same ↦ elim first [
            | inl other ↦ absurd (other (ap (λ (q : Bytes × ℕ). q.0) same))
            | inr head ↦
                subst (λ a. wanted a want ≡ true) (sym (ap (λ (q : Bytes × ℕ). q.0) same)) head
          ]
          | inr rest ↦ asked rest
        ],
      )

serve_one-Sound :
    (e : Env) (addr : Bytes) (l : Lifecycle) → IsSound l → IsSound (serve_one e addr l)
unfolding serve_one start_one
serve_one-Sound e addr l s = elim (Bool-cases (is_served addr l.servers)) [
  | inl there ↦ rw there s
  | inr fresh ↦ elim (Bool-cases (e.starts addr)) [
    | inl up ↦ rw (fresh, up) (started-Sound addr e.now fresh s)
    | inr down ↦ rw (fresh, down) s
  ]
]

serve_all-Sound :
    (e : Env) (want : List Bytes) (l : Lifecycle) → IsSound l → IsSound (serve_all e want l)
unfolding serve_all
serve_all-Sound e [] l s = s
serve_all-Sound e (addr ∷ rest) l s =
    serve_all-Sound e rest (serve_one e addr l) (serve_one-Sound e addr l s)

pub retire_all-Sound :
    (now : ℕ) (xs : Servers) (l : Lifecycle)
    → Distinct xs
    → ((p : Bytes × ℕ) → In p xs → In p l.servers)
    → IsSound l
    → IsSound (retire_all now xs l)
unfolding retire_all retire
retire_all-Sound now [] l d there s = s
retire_all-Sound now ((addr, i) ∷ xs) l (fresh, d) there s =
    retire_all-Sound now xs (retire now addr i l) d
      (λ p at. remove-In addr p l.servers (there p (inr at)) (unserved addr xs p fresh at))
      (retire-Sound now addr i l (there (addr, i) (inl refl)) s)

pub stop_all-Sound : (now : ℕ) (l : Lifecycle) → IsSound l → IsSound (stop_all now l)
unfolding stop_all publish_status
stop_all-Sound now l s =
    let r = retire_all-Sound now l.servers l s.distinct (λ p at. at) s in
    record { live = r.live; others = r.others; distinct = r.distinct }

pub reconcile-Sound :
    (e : Env) (leader : Bool) (nodes : Option (List Bytes)) (l : Lifecycle)
    → IsSound l
    → IsSound (reconcile e leader nodes l)
unfolding reconcile reconcile_nodes publish_status
reconcile-Sound e false nodes l s = stop_all-Sound e.now l s
reconcile-Sound e true none l s = s
reconcile-Sound e true (some want) l s =
    let r =
      serve_all-Sound e want (sweep e want l.servers l)
        (sweep-Sound e want l.servers l s.distinct (λ p at. at) s) in
    record { live = r.live; others = r.others; distinct = r.distinct }

scan-Sound : (e : Env) (xs : Servers) (l : Lifecycle) → IsSound l → IsSound (scan e xs l).1
unfolding scan
scan-Sound e [] l s = s
scan-Sound e ((addr, i) ∷ xs) l s =
    let here = observe_stored-Sound e i l s in
    elim (Bool-cases (
      is_silent (observe_stored e i l).0
      || not ((observe_stored e i l).1.connectors i).connected)) [
        | inl calls ↦ rw calls here
        | inr quiet ↦ rw quiet (scan-Sound e xs (observe_stored e i l).1 here)
      ]

pub needs_fast_discovery-Sound :
    (e : Env) (l : Lifecycle) → IsSound l → IsSound (needs_fast_discovery e l).1
unfolding needs_fast_discovery publish_status
needs_fast_discovery-Sound e l s =
    let r = scan-Sound e l.servers l s in
    elim (Bool-cases (ltb e.now l.discovery_pending_until)) [
      | inl pending ↦
          rw pending (record { live = s.live; others = s.others; distinct = s.distinct })
      | inr past ↦ rw past (record { live = r.live; others = r.others; distinct = r.distinct })
    ]
