-- ===== src/State/RaftStore/Accepted.antt =====
-- What a successful call of the gate says of the replicated machine (internal/state/raftstore.go).
use cosmosigner.Prelude.{
  ◌≡◌, refl, ap, ◌∙◌, ◌⊎◌, inl, inr, Bytes, true, false, none, some, Result, ok, err, arith,
  Option-cases, Bool-cases,
}
use cosmosigner.State.{ReserveResult, Command, ApplyResult, Codec}
use cosmosigner.State.Fsm.{Fsm, apply, apply_command}
use cosmosigner.State.Fsm.Evolution.{apply_decoded}
use cosmosigner.State.RaftStore.{
  Attempt, Outcome, delivered, failed, StoreError, respond, submit, apply_entry, reserved,
  committed, reserve_with, commit_with,
}

-- The JSON of a command decodes to it, as it does where its text is valid UTF-8.
abbrev pub RoundTrips : Codec → Command → Type 0
RoundTrips x c =
    (log_data : Bytes) → x.marshal_command c ≡ some log_data → x.unmarshal_command log_data ≡ some c

-- The call leaves the machine alone, or applies the command's entry.
abbrev pub Touches : Codec → Command → Fsm → Fsm → Type 0
Touches x c f g = (g ≡ f) ⊎ (g ≡ (apply_command x c f).0)

abbrev pub result_of : ApplyResult → ReserveResult
result_of r = record {
  reuse = r.reuse;
  sign_bytes = r.sign_bytes;
  signature = r.signature;
  timestamp = r.timestamp;
}

reserved-state : (out : Result StoreError ApplyResult × Fsm) → (reserved out).1 ≡ out.1
reserved-state (ok r, g) = refl
reserved-state (err e, g) = refl

committed-state : (out : Result StoreError ApplyResult × Fsm) → (committed out).1 ≡ out.1
committed-state (ok r, g) = refl
committed-state (err e, g) = refl

reserved-ok :
    (out : Result StoreError ApplyResult × Fsm) (res : ReserveResult)
    → (reserved out).0 ≡ ok res
    → (r : ApplyResult) × (out.0 ≡ ok r) × (res ≡ result_of r)
reserved-ok (ok r, g) res h = (r, refl, ground arith)
reserved-ok (err e, g) res h = cc h

committed-ok :
    (out : Result StoreError ApplyResult × Fsm)
    → (committed out).0 ≡ ok tt
    → (r : ApplyResult) × (out.0 ≡ ok r)
committed-ok (ok r, g) h = (r, refl)
committed-ok (err e, g) h = cc h

module _ (x : Codec) (c : Command) (f : Fsm) (law : RoundTrips x c) where
  submitted :
      (o : Outcome) (log_data : Bytes)
      → apply x log_data f ≡ apply_command x c f
      → Touches x c f (submit x o log_data f).1
  submitted delivered log_data e = inr (rw e)
  submitted (failed r true) log_data e = inr (rw e)
  submitted (failed r false) log_data e = inl refl

  decoded :
      (log_data : Bytes)
      → x.marshal_command c ≡ some log_data
      → apply x log_data f ≡ apply_command x c f
  decoded log_data e = apply_decoded x log_data c f (law log_data e)

  apply_entry-Touches : (o : Outcome) → Touches x c f (apply_entry x o c f).1
  unfolding apply_entry
  apply_entry-Touches o = elim (Option-cases (x.marshal_command c)) [
    | inl e ↦ rw (e, apply_entry) (inl refl)
    | inr (log_data, e) ↦ rw (e, apply_entry) (submitted o log_data (decoded log_data e))
  ]

  -- The answer is the machine's to the command, and is a success.
  abbrev pub Answered : ApplyResult → Fsm → Type 0
  Answered r g =
      (g ≡ (apply_command x c f).0)
      × (r ≡ (apply_command x c f).1)
      × ((apply_command x c f).1.error ≡ none)

  respond-ok :
      (out : Fsm × ApplyResult) (r : ApplyResult)
      → (respond out).0 ≡ ok r
      → ((respond out).1 ≡ out.0) × (r ≡ out.1) × (out.1.error ≡ none)
  respond-ok (g, a) r h = ground (arith, Option-cases a.error)

  submit-ok :
      (o : Outcome) (log_data : Bytes) (r : ApplyResult)
      → apply x log_data f ≡ apply_command x c f
      → (submit x o log_data f).0 ≡ ok r
      → Answered r (submit x o log_data f).1
  submit-ok delivered log_data r e h =
      let told : Answered r (respond (apply_command x c f)).1 =
        respond-ok (apply_command x c f) r (rw e at h) in
      rw e told
  submit-ok (failed q true) log_data r e h = cc h
  submit-ok (failed q false) log_data r e h = cc h

  pub apply_entry-ok :
      (o : Outcome) (r : ApplyResult)
      → (apply_entry x o c f).0 ≡ ok r
      → Answered r (apply_entry x o c f).1
  unfolding apply_entry
  apply_entry-ok o r h = elim (Option-cases (x.marshal_command c)) [
    | inl e ↦ cc (h, unmarshalled e)
    | inr (log_data, e) ↦
        rw (e, apply_entry) (submit-ok o log_data r (decoded log_data e) (rw (e, apply_entry) at h))
  ]
    where
      unmarshalled : x.marshal_command c ≡ none → (apply_entry x o c f).0 ≡ err StoreError.marshal
      unmarshalled e = rw (e, apply_entry)

  led :
      (a : Attempt)
      → a.is_leader ≡ true
      → reserve_with x a c f ≡ reserved (apply_entry x a.outcome c f)
  unfolding reserve_with
  led a e = rw (e, reserve_with)

  unled :
      (a : Attempt) → a.is_leader ≡ false → reserve_with x a c f ≡ (err StoreError.not_leader, f)
  unfolding reserve_with
  unled a e = rw (e, reserve_with)

  led_commit :
      (a : Attempt)
      → a.is_leader ≡ true
      → commit_with x a c f ≡ committed (apply_entry x a.outcome c f)
  unfolding commit_with
  led_commit a e = rw (e, commit_with)

  unled_commit :
      (a : Attempt) → a.is_leader ≡ false → commit_with x a c f ≡ (err StoreError.not_leader, f)
  unfolding commit_with
  unled_commit a e = rw (e, commit_with)

  -- A call of Reserve, whatever its outcome, leaves the machine alone or applies its command.
  pub reserve-Touches : (a : Attempt) → Touches x c f (reserve_with x a c f).1
  reserve-Touches a = elim (Bool-cases a.is_leader) [
    | inl e ↦
        rw (led a e, reserved-state (apply_entry x a.outcome c f)) (apply_entry-Touches a.outcome)
    | inr e ↦ rw (unled a e) (inl refl)
  ]

  -- A successful Reserve has applied its command, and returns the machine's answer.
  pub reserve-ok :
      (a : Attempt) (res : ReserveResult)
      → (reserve_with x a c f).0 ≡ ok res
      → ((reserve_with x a c f).1 ≡ (apply_command x c f).0)
        × ((apply_command x c f).1.error ≡ none)
        × (res ≡ result_of (apply_command x c f).1)
  reserve-ok a res h = elim (Bool-cases a.is_leader) [
    | inr e ↦ cc (h, unled a e)
    | inl e ↦
        let (r, answer, same) = reserved-ok (apply_entry x a.outcome c f) res (rw (led a e) at h) in
        let (state, told, good) = apply_entry-ok a.outcome r answer in
        (
          rw (led a e, reserved-state (apply_entry x a.outcome c f)) state,
          good,
          same ∙ ap result_of told,
        )
  ]

  pub commit-Touches : (a : Attempt) → Touches x c f (commit_with x a c f).1
  commit-Touches a = elim (Bool-cases a.is_leader) [
    | inl e ↦
        rw (led_commit a e, committed-state (apply_entry x a.outcome c f))
          (apply_entry-Touches a.outcome)
    | inr e ↦ rw (unled_commit a e) (inl refl)
  ]

  -- A successful Commit has applied its command, which the machine accepted.
  pub commit-ok :
      (a : Attempt)
      → (commit_with x a c f).0 ≡ ok tt
      → ((commit_with x a c f).1 ≡ (apply_command x c f).0) × ((apply_command x c f).1.error ≡ none)
  commit-ok a h = elim (Bool-cases a.is_leader) [
    | inr e ↦ cc (h, unled_commit a e)
    | inl e ↦
        let (r, answer) = committed-ok (apply_entry x a.outcome c f) (rw (led_commit a e) at h) in
        let (state, told, good) = apply_entry-ok a.outcome r answer in
        (rw (led_commit a e, committed-state (apply_entry x a.outcome c f)) state, good)
  ]
