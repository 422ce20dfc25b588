-- ===== src/State/Fsm/Reserving.antt =====
-- Every branch of Reserve (internal/state/fsm.go, applyReserve), told apart by the order of places.
use cosmosigner.Prelude.{
  ◌≡◌, refl, bytes_eq, bytes_eq_iff, is_empty, Bool, true, false, Option, none, some, ◌≢◌,
  if◌then◌else◌, Bool-cases, inl, inr, not, ◌∙◌,
}
use cosmosigner.Prelude.Assoc.{lookup, insert}
use cosmosigner.State.{Time, SignState, Command, ApplyResult, Codec, regression, conflict}
use cosmosigner.State.Hrs.{
  Position, below, equal, above, compare_hrs, hrs, HrsLt, below_lem, equal_lem, above_lem,
}
use cosmosigner.State.Fsm.{
  Fsm, succeed, fail, fresh_mark, only_differs_by_timestamp, reserve_again, reserve_against,
  apply_reserve,
}
use cosmosigner.State.Fsm.Marks.{asked, reserve_below, reserve_equal, reserve_above}

-- The signature of the mark, or its payload where it has none yet, with the given time.
abbrev pub answer_by : SignState → Time → ApplyResult
answer_by m ts =
    if not (is_empty m.signature)
    then record succeed { reuse = true; signature = m.signature; timestamp = ts }
    else record succeed { sign_bytes = m.sign_bytes; timestamp = ts }

abbrev pub advanced : Command → Fsm → Fsm × ApplyResult
advanced c f = (
  record f { state = insert c.chain_id (fresh_mark c) f.state },
  record succeed { sign_bytes = c.sign_bytes; timestamp = c.timestamp },
)

abbrev pub retiming : Codec → Command → SignState → Time × Bool
retiming x c m = only_differs_by_timestamp x m.sign_bytes c.sign_bytes c.step

-- What a Reserve does, by the mark that it meets.
pub data Reserved (x : Codec) (c : Command) (f : Fsm) (out : Fsm × ApplyResult) : Type 0 where
  first : lookup c.chain_id f.state ≡ none → out ≡ advanced c f → Reserved x c f out
  later :
      (m : SignState)
      → lookup c.chain_id f.state ≡ some m
      → HrsLt (hrs m) (asked c)
      → out ≡ advanced c f
      → Reserved x c f out
  earlier :
      (m : SignState)
      → lookup c.chain_id f.state ≡ some m
      → HrsLt (asked c) (hrs m)
      → out ≡ (f, fail regression)
      → Reserved x c f out
  repeated :
      (m : SignState)
      → lookup c.chain_id f.state ≡ some m
      → hrs m ≡ asked c
      → m.sign_bytes ≡ c.sign_bytes
      → out ≡ (f, answer_by m m.timestamp)
      → Reserved x c f out
  retimed :
      (m : SignState)
      → lookup c.chain_id f.state ≡ some m
      → hrs m ≡ asked c
      → m.sign_bytes ≢ c.sign_bytes
      → (retiming x c m).1 ≡ true
      → out ≡ (f, answer_by m (retiming x c m).0)
      → Reserved x c f out
  conflicting :
      (m : SignState)
      → lookup c.chain_id f.state ≡ some m
      → hrs m ≡ asked c
      → m.sign_bytes ≢ c.sign_bytes
      → (retiming x c m).1 ≡ false
      → out ≡ (f, fail conflict)
      → Reserved x c f out

module _ (x : Codec) (c : Command) (f : Fsm) where
  again_repeated :
      (m : SignState)
      → bytes_eq m.sign_bytes c.sign_bytes ≡ true
      → reserve_again x c m ≡ answer_by m m.timestamp
  unfolding reserve_again
  again_repeated m e = rw e

  again_retimed :
      (m : SignState)
      → bytes_eq m.sign_bytes c.sign_bytes ≡ false
      → (retiming x c m).1 ≡ true
      → reserve_again x c m ≡ answer_by m (retiming x c m).0
  unfolding reserve_again
  again_retimed m e t = rw (e, t)

  again_conflicting :
      (m : SignState)
      → bytes_eq m.sign_bytes c.sign_bytes ≡ false
      → (retiming x c m).1 ≡ false
      → reserve_again x c m ≡ fail conflict
  unfolding reserve_again
  again_conflicting m e t = rw (e, t)

  at_the_mark :
      (m : SignState)
      → lookup c.chain_id f.state ≡ some m
      → hrs m ≡ asked c
      → Reserved x c f (f, reserve_again x c m)
  at_the_mark m at here = elim (Bool-cases (bytes_eq m.sign_bytes c.sign_bytes)) [
    | inl e ↦ repeated m at here ((bytes_eq_iff _ _).0 e) (rw (again_repeated m e))
    | inr e ↦ elim (Bool-cases (retiming x c m).1) [
      | inl t ↦
          retimed m at here (λ p. cc (e, (bytes_eq_iff m.sign_bytes c.sign_bytes).1 p)) t
            (rw (again_retimed m e t))
      | inr t ↦
          conflicting m at here (λ p. cc (e, (bytes_eq_iff m.sign_bytes c.sign_bytes).1 p)) t
            (rw (again_conflicting m e t))
    ]
  ]

  against_Reserved :
      (o : Option SignState)
      → lookup c.chain_id f.state ≡ o
      → Reserved x c f (reserve_against x c f o)
  against_Reserved none at = first at (unfold reserve_against in refl)
  against_Reserved (some m) at = go (compare_hrs (some m) c.height c.round c.step) refl
    where
      go :
          (p : Position)
          → compare_hrs (some m) c.height c.round c.step ≡ p
          → Reserved x c f (reserve_against x c f (some m))
      go below q = earlier m at (below_lem m c.height c.round c.step q) (reserve_below x c f m q)
      go equal q =
          rw (reserve_equal x c f m q) (at_the_mark m at (equal_lem m c.height c.round c.step q))
      go above q =
          later m at (above_lem m c.height c.round c.step q)
            (reserve_above x c f m q ∙ (unfold reserve_against in refl))

  -- Reserve at a chain without a mark, or after the mark's place, moves the mark and asks to sign
  -- the request's own payload. Before the mark it is refused as a regression. At the mark it changes
  -- nothing: the mark's payload, or one that differs in its time alone, is answered from the mark
  -- with the mark's time or that of its payload, and any other payload is refused as a conflict.
  pub reserve_branches : Reserved x c f (apply_reserve x c f)
  unfolding apply_reserve
  reserve_branches = against_Reserved (lookup c.chain_id f.state) refl
