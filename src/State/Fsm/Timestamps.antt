-- ===== src/State/Fsm/Timestamps.antt =====
-- Requests that differ in their time alone (internal/state/fsm.go, onlyDiffersByTimestamp).
use cosmosigner.Prelude.{
  ◌≡◌, ◌↔◌, sym, ap, ◌∙◌, Bytes, Bool, true, false, none, some, Option-cases, inl, inr,
  if◌then◌else◌, Bool-cases,
}
use cosmosigner.Prelude.Int.{ℤ, eqb_ℤ}
use cosmosigner.State.{Time, zero_time, step_propose, Message, Codec}
use cosmosigner.State.Fsm.{differs_by_timestamp, only_differs_by_timestamp}

-- What the generated code of a message with a time field does.
pub record IsLawful (m : Message) : Type 0 where
  pub equal_iff : (a b : m.Payload) → (m.equal a b ≡ true) ↔ (a ≡ b)
  pub set_set :
      (a : m.Payload) (s t : Time) → m.set_timestamp (m.set_timestamp a s) t ≡ m.set_timestamp a t
  pub set_get : (a : m.Payload) → m.set_timestamp a (m.timestamp a) ≡ a

-- The two texts decode, and the second becomes the first by taking over its time.
pub record Retimes (m : Message) (last new : Bytes) (ts : Time) : Type 0 where
  pub old : m.Payload
  pub next : m.Payload
  pub old_decoded : m.unmarshal last ≡ some old
  pub next_decoded : m.unmarshal new ≡ some next
  pub time : ts ≡ m.timestamp old
  pub restamped : m.set_timestamp next ts ≡ old

module _ (m : Message) (last new : Bytes) where
  same_but_time :
      (a b : m.Payload)
      → m.unmarshal last ≡ some a
      → m.unmarshal new ≡ some b
      → differs_by_timestamp m last new
        ≡ (m.timestamp a, m.equal (m.set_timestamp a zero_time) (m.set_timestamp b zero_time))
  unfolding differs_by_timestamp
  same_but_time a b p q = rw (p, q, differs_by_timestamp)

  undecoded_last : m.unmarshal last ≡ none → differs_by_timestamp m last new ≡ (zero_time, false)
  unfolding differs_by_timestamp
  undecoded_last p = rw (p, differs_by_timestamp)

  undecoded_new :
      (a : m.Payload)
      → m.unmarshal last ≡ some a
      → m.unmarshal new ≡ none
      → differs_by_timestamp m last new ≡ (zero_time, false)
  unfolding differs_by_timestamp
  undecoded_new a p q = rw (p, q, differs_by_timestamp)

  module _ (law : IsLawful m) (ts : Time) where
    restamp :
        (a b : m.Payload)
        → m.set_timestamp a zero_time ≡ m.set_timestamp b zero_time
        → m.set_timestamp b (m.timestamp a) ≡ a
    restamp a b e =
        sym (law.set_set b zero_time (m.timestamp a))
        ∙ ap (λ t. m.set_timestamp t (m.timestamp a)) (sym e)
        ∙ law.set_set a zero_time (m.timestamp a)
        ∙ law.set_get a

    sound : differs_by_timestamp m last new ≡ (ts, true) → Retimes m last new ts
    sound h = elim (Option-cases (m.unmarshal last)) [
      | inl p ↦ cc (h, undecoded_last p)
      | inr (a, p) ↦ elim (Option-cases (m.unmarshal new)) [
        | inl q ↦ cc (h, undecoded_new a p q)
        | inr (b, q) ↦
            let found = sym h ∙ same_but_time a b p q in
            let time : ts ≡ m.timestamp a = ap (λ (t : Time × Bool). t.0) found in
            let same : m.set_timestamp a zero_time ≡ m.set_timestamp b zero_time =
              (law.equal_iff _ _).0 (sym (ap (λ (t : Time × Bool). t.1) found)) in
            record {
              old = a;
              next = b;
              old_decoded = p;
              next_decoded = q;
              time = time;
              restamped = rw time (restamp a b same);
            }
      ]
    ]

    complete : Retimes m last new ts → differs_by_timestamp m last new ≡ (ts, true)
    complete r =
        let same : m.set_timestamp r.old zero_time ≡ m.set_timestamp r.next zero_time =
          ap (λ t. m.set_timestamp t zero_time) (sym r.restamped)
          ∙ law.set_set r.next ts zero_time in
        same_but_time r.old r.next r.old_decoded r.next_decoded
        ∙ (λ i. (sym r.time i, (law.equal_iff _ _).1 same i))

    differs_iff : (differs_by_timestamp m last new ≡ (ts, true)) ↔ Retimes m last new ts
    differs_iff = (sound, complete)

-- The kind of message that is signed at a step.
abbrev pub message_at : Codec → ℤ → Message
message_at x step = if eqb_ℤ step step_propose then x.proposal else x.vote

-- Over lawful messages, two payloads are told to differ in their time alone exactly when both decode
-- as messages of the step and the new one, stamped with the returned time, is the reserved one.
pub only_differs_by_timestamp-Retimes :
    (x : Codec) (last new : Bytes) (step : ℤ) (ts : Time)
    → IsLawful x.proposal
    → IsLawful x.vote
    → (only_differs_by_timestamp x last new step ≡ (ts, true))
      ↔ Retimes (message_at x step) last new ts
unfolding only_differs_by_timestamp
only_differs_by_timestamp-Retimes x last new step ts p v =
    elim (Bool-cases (eqb_ℤ step step_propose)) [
      | inl e ↦ rw e (differs_iff x.proposal last new p ts)
      | inr e ↦ rw e (differs_iff x.vote last new v ts)
    ]
