-- ===== src/Server/Lifecycle/Connectors.antt =====
-- Who may sign: the connectors of the serving set and no other, after any operations of the lifecycle.
use cosmosigner.Prelude.{
  ℕ, suc, ◌<◌, ◌≡◌, refl, sym, ap, ◌∙◌, subst, ◌≢◌, ◌⊎◌, inl, inr, Bytes, Bool, true, false,
  true≢false, ◌∷◌, In, Bool-cases, ◌==◌, ==_iff, arith,
}
use cosmosigner.Server.{
  NodeServer, disable, observe, observe_connected, silent_past, touch, new_node_server,
}
use cosmosigner.Server.Lifecycle.{
  Lifecycle, Env, store_connector, remove, is_served, retire, observe_stored,
}
use cosmosigner.Server.Lifecycle.Serving.{
  Servers, In-remove, remove-In, Distinct, Distinct-remove, Distinct-one, stored_same, stored_other,
}

abbrev pub Live : (ℕ → NodeServer) → ℕ → Bytes × ℕ → Type 0
Live h n p = (p.1 < n) × ((h p.1).retired ≡ false) × ((h p.1).addr ≡ p.0)

pub record Sound (xs : Servers) (h : ℕ → NodeServer) (n : ℕ) : Type 0 where
  pub live : (p : Bytes × ℕ) → In p xs → Live h n p
  pub others : (i : ℕ) → i < n → ((h i).retired ≡ true) ⊎ In ((h i).addr, i) xs
  pub distinct : Distinct xs

abbrev pub IsSound : Lifecycle → Type 0
IsSound l = Sound l.servers l.connectors l.started

-- A connector that is changed in fields other than its address and its retirement.
pub stored-Sound :
    {xs : Servers} {h : ℕ → NodeServer} {n : ℕ} (i : ℕ) (ns : NodeServer)
    → ns.retired ≡ (h i).retired
    → ns.addr ≡ (h i).addr
    → Sound xs h n
    → Sound xs (store_connector i ns h) n
stored-Sound {xs} {h} {n} i ns same_retired same_addr s =
    let kept : (j : ℕ)
        → ((store_connector i ns h j).retired ≡ (h j).retired)
          × ((store_connector i ns h j).addr ≡ (h j).addr) =
      λ j. elim (Bool-cases (j == i)) [
        | inl same ↦
            subst
              (λ k.
                ((store_connector i ns h k).retired ≡ (h k).retired)
                × ((store_connector i ns h k).addr ≡ (h k).addr))
              (sym ((==_iff j i).0 same))
              (rw (stored_same i ns h) same_retired, rw (stored_same i ns h) same_addr)
        | inr off ↦
            let other : j ≢ i = λ e. absurd (true≢false (sym ((==_iff j i).1 e) ∙ off)) in
            (rw (stored_other i j ns h other), rw (stored_other i j ns h other))
      ] in
    record {
      live = λ p at.
          let (under, on, name) = s.live p at in (under, (kept p.1).0 ∙ on, (kept p.1).1 ∙ name);
      others = λ j under. elim (s.others j under) [
        | inl off ↦ inl ((kept j).0 ∙ off)
        | inr at ↦ inr (subst (λ a. In (a, j) xs) (sym (kept j).1) at)
      ];
      distinct = s.distinct;
    }

removed-Sound :
    {xs : Servers} {h : ℕ → NodeServer} {n : ℕ} (addr : Bytes) (i : ℕ)
    → In (addr, i) xs
    → Sound xs h n
    → Sound (remove addr xs) (store_connector i (disable (h i)) h) n
unfolding disable
removed-Sound {xs} {h} {n} addr i here s =
    let (under_i, on_i, name_i) = s.live (addr, i) here in
    record {
      live = λ p at.
          let (in_xs, elsewhere) = In-remove addr p xs at in
          let (under, on, name) = s.live p in_xs in
          let other : p.1 ≢ i = λ e. elsewhere (sym name ∙ ap (λ k. (h k).addr) e ∙ name_i) in
          (
            under,
            rw (stored_other i p.1 (disable (h i)) h other) on,
            rw (stored_other i p.1 (disable (h i)) h other) name,
          );
      others = λ j under. elim (Bool-cases (j == i)) [
        | inl same ↦ inl (
            subst (λ k. (store_connector i (disable (h i)) h k).retired ≡ true)
              (sym ((==_iff j i).0 same)) (rw (stored_same i (disable (h i)) h)))
        | inr off ↦
            let other : j ≢ i = λ e. absurd (true≢false (sym ((==_iff j i).1 e) ∙ off)) in
            rw (stored_other i j (disable (h i)) h other) (elim (s.others j under) [
              | inl gone ↦ inl gone
              | inr at ↦ inr (
                  remove-In addr ((h j).addr, j) xs at
                    (λ e. other (
                      ap (λ (q : Bytes × ℕ). q.1)
                        (Distinct-one xs ((h j).addr, j) (addr, i) s.distinct at here e))))
            ])
      ];
      distinct = Distinct-remove addr xs s.distinct;
    }

pub retire-Sound :
    (now : ℕ) (addr : Bytes) (i : ℕ) (l : Lifecycle)
    → In (addr, i) l.servers
    → IsSound l
    → IsSound (retire now addr i l)
unfolding retire
retire-Sound now addr i l here s = removed-Sound addr i here s

observed_kept :
    (stale now : ℕ) (up : Bool) (ns : NodeServer)
    → ((observe stale now up ns).1.retired ≡ ns.retired)
      × ((observe stale now up ns).1.addr ≡ ns.addr)
unfolding observe observe_connected touch silent_past
observed_kept stale now true ns = elim (Bool-cases ns.connected) [
  | inl seen ↦ elim (Bool-cases (silent_past stale now ns)) [
    | inl silent ↦ rw (seen, silent) (refl, refl)
    | inr live ↦ rw (seen, live) (refl, refl)
  ]
  | inr unseen ↦ rw unseen (refl, refl)
]
observed_kept stale now false ns = (refl, refl)

pub observe_stored-Sound :
    (e : Env) (i : ℕ) (l : Lifecycle) → IsSound l → IsSound (observe_stored e i l).1
unfolding observe_stored
observe_stored-Sound e i l s =
    let (a, b) = observed_kept l.cfg.stale_conn_timeout e.now (e.is_connected i) (l.connectors i) in
    stored-Sound i _ a b s

pub started-Sound :
    {xs : Servers} {h : ℕ → NodeServer} {n : ℕ} (addr : Bytes) (now : ℕ)
    → is_served addr xs ≡ false
    → Sound xs h n
    → Sound ((addr, n) ∷ xs) (store_connector n (new_node_server addr now) h) (suc n)
unfolding new_node_server
started-Sound {xs} {h} {n} addr now fresh s =
    let before : (j : ℕ) → j < n → store_connector n (new_node_server addr now) h j ≡ h j =
      λ j under. stored_other n j (new_node_server addr now) h (λ e. omega (arith, under, e)) in
    record {
      live = λ p at. elim at [
        | inl e ↦ subst (Live (store_connector n (new_node_server addr now) h) (suc n)) (sym e) (
          omega arith,
          rw (stored_same n (new_node_server addr now) h),
          rw (stored_same n (new_node_server addr now) h),
        )
        | inr old ↦
            let (under, on, name) = s.live p old in
            (omega (arith, under), rw (before p.1 under) on, rw (before p.1 under) name)
      ];
      others = λ j under. elim (Bool-cases (j == n)) [
        | inl same ↦
            subst
              (λ k.
                ((store_connector n (new_node_server addr now) h k).retired ≡ true)
                ⊎ In ((store_connector n (new_node_server addr now) h k).addr, k) ((addr, n) ∷ xs))
              (sym ((==_iff j n).0 same))
              (rw (stored_same n (new_node_server addr now) h) (inr (inl refl)))
        | inr off ↦
            let below : j < n = ground (arith, off, under, ==_iff j n) in
            subst (λ (ns : NodeServer). (ns.retired ≡ true) ⊎ In (ns.addr, j) ((addr, n) ∷ xs))
              (sym (before j below))
              (elim (s.others j below) [ inl gone ↦ inl gone | inr at ↦ inr (inr at) ])
      ];
      distinct = (fresh, s.distinct);
    }
