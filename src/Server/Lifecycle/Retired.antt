-- ===== src/Server/Lifecycle/Retired.antt =====
-- Who answers requests: nobody but the serving set, and nobody once leadership is lost or given up.
use cosmosigner.Prelude.{
  ℕ, ◌<◌, ◌≡◌, refl, sym, ap, subst, inl, inr, Bytes, bytes_eq, true, false, List, [], ◌∷◌, In,
}
use cosmosigner.Server.{Config, Handler, handle_request, retired_chain_id}
use cosmosigner.Server.Lifecycle.{Lifecycle, retire, retire_all, stop_all, publish_status, new}
use cosmosigner.Server.Lifecycle.Serving.{Servers, In-remove, Distinct-one}
use cosmosigner.Server.Lifecycle.Connectors.{IsSound}
use cosmosigner.Server.Lifecycle.Passes.{stop_all-Sound}
use cosmosigner.Server.Lifecycle.Run.{Event, run, run-Sound, new-Sound}

retire_all_within :
    (now : ℕ) (xs : Servers) (l : Lifecycle) (p : Bytes × ℕ)
    → In p (retire_all now xs l).servers
    → In p l.servers × (In p xs → ⊥)
unfolding retire_all retire
retire_all_within now [] l p at = (at, λ h. elim h [ ])
retire_all_within now ((addr, i) ∷ xs) l p at =
    let (later, gone) = retire_all_within now xs (retire now addr i l) p at in
    let (here, other) = In-remove addr p l.servers later in
    (
      here,
      λ h. elim h [ inl e ↦ absurd (other (ap (λ (q : Bytes × ℕ). q.0) e)) | inr rest ↦ gone rest ],
    )

retire_all_started :
    (now : ℕ) (xs : Servers) (l : Lifecycle) → (retire_all now xs l).started ≡ l.started
unfolding retire_all retire
retire_all_started now [] l = refl
retire_all_started now ((addr, i) ∷ xs) l = retire_all_started now xs (retire now addr i l)

nothing-In : (xs : Servers) → ((p : Bytes × ℕ) → In p xs → ⊥) → xs ≡ []
nothing-In [] h = refl
nothing-In (p ∷ xs) h = absurd (h p (inl refl))

pub stopped :
    (now : ℕ) (l : Lifecycle) (i : ℕ)
    → IsSound l
    → i < l.started
    → ((stop_all now l).servers ≡ []) × (((stop_all now l).connectors i).retired ≡ true)
unfolding stop_all publish_status
stopped now l i s under =
    let none_left =
      nothing-In (retire_all now l.servers l).servers
        (λ p at. let (here, gone) = retire_all_within now l.servers l p at in gone here) in
    (
      none_left,
      elim ((stop_all-Sound now l s).others i
          (subst (λ n. i < n) (sym (retire_all_started now l.servers l)) under)) [
            | inl off ↦ off
            | inr at ↦
                elim (subst (λ xs. In (((retire_all now l.servers l).connectors i).addr, i) xs)
                  none_left at) [ ]
          ],
    )

-- Only the serving set signs: after any events, a connector that is not in it passes no request on,
-- also where its address is served by another one. The validator's state is as it was, for any request
-- that does not name the sentinel of a retired connection as its chain, given that CometBFT's
-- handler leaves the validator alone on a mismatch.
pub unserved_never_signs :
    (h : Handler) (chain_of : h.Request → Bytes)
    → ((req : h.Request) (chain : Bytes) (w : h.World)
        → bytes_eq (chain_of req) chain ≡ false
        → (h.handle req chain w).1 ≡ w)
    → (cfg : Config) (events : List Event) (i : ℕ) → i < (run events (new cfg)).started
    → ((addr : Bytes) → In (addr, i) (run events (new cfg)).servers → ⊥)
    → (req : h.Request) (w : h.World) (now : ℕ) (closed : List ℕ)
    → bytes_eq (chain_of req) retired_chain_id ≡ false
    → (handle_request h req cfg.chain_id now w ((run events (new cfg)).connectors i) closed).0.1 ≡ w
unfolding handle_request
unserved_never_signs h chain_of refuses cfg events i under gone req w now closed real =
    let s = run-Sound events (new cfg) (new-Sound cfg) in
    elim (s.others i under) [
      | inl off ↦ rw off (refuses req retired_chain_id w real)
      | inr at ↦ absurd (gone _ at)
    ]

-- One live connector serves an address: after any events, the entries of the serving set with one
-- address name one connector, which is not retired and dials that address.
pub one_connector :
    (cfg : Config) (events : List Event) (addr : Bytes) (i j : ℕ)
    → In (addr, i) (run events (new cfg)).servers
    → In (addr, j) (run events (new cfg)).servers
    → (i ≡ j)
      × (((run events (new cfg)).connectors i).retired ≡ false)
      × (((run events (new cfg)).connectors i).addr ≡ addr)
one_connector cfg events addr i j at_i at_j =
    let s = run-Sound events (new cfg) (new-Sound cfg) in
    let (under, on, name) = s.live (addr, i) at_i in
    (
      ap (λ (p : Bytes × ℕ). p.1) (Distinct-one _ (addr, i) (addr, j) s.distinct at_i at_j refl),
      on,
      name,
    )
