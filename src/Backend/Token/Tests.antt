-- ===== src/Backend/Token/Tests.antt =====
-- Runs of internal/backend/pkcs11.go over a token whose Sign calls fail as a list says.
use cosmosigner.Prelude.{
  ℕ, zero, suc, ◌+◌, ◌≤◌, ◌≡◌, ◌++◌, refl, Bytes, codes, bytes_eq, Bool, true, false, none, some,
  List, [], ◌∷◌, length, Result, ok, err, if◌then◌else◌,
}
use cosmosigner.Prelude.Exec.{pure, raise, lift, gets, modify, check, skip, ◌>>=◌}
use cosmosigner.Backend.{Pkcs11Config}
use cosmosigner.Backend.Addressing.{validate_pkcs11}
use cosmosigner.Backend.Token.{
  Fault, Key, Device, pin_latched, sign_failed, eddsa, trim_right, matching, check_key, raw_point,
  call, ask, drop_session, or_drop, find_key, keys, logged_in, log_in, same_keys, begin_session,
  pin_text, find_slot, reopen,
}
use cosmosigner.Backend.Token.Serving.{
  Cancellation, probe, call_sign, ensure_open, sign, verify_can_sign, or_corrupt, check_claim,
  close_open, close, new_pkcs11, Op, signs, verifies, checks_claim, closes, perform, run,
}
use cosmosigner.Backend.Token.Sessions.{counted}
use cosmosigner.Backend.Token.Calls.{started, one_refused_pin}
use cosmosigner.Backend.Token.Signing.{signs_with_first_key}

machine : Unit {0}
unfolding bytes_eq pure raise lift gets modify check skip ◌>>=◌ validate_pkcs11 trim_right matching
    check_key raw_point call ask drop_session or_drop find_key keys logged_in log_in same_keys
    begin_session pin_text find_slot reopen call_sign ensure_open sign verify_can_sign or_corrupt
    check_claim close_open close new_pkcs11 perform run
machine = tt

abbrev repeat : ℕ → ℕ → Bytes
repeat zero c = []
repeat (suc n) c = c ∷ repeat n c

abbrev token_key : Bool → Key
token_key is_private = record {
  class = if is_private then 3 else 2;
  key_type = 64;
  signs = true;
  sensitive = true;
  non_extractable = true;
  params = 6 ∷ 3 ∷ 43 ∷ 101 ∷ 112 ∷ [];
  point = 4 ∷ 32 ∷ repeat 32 9;
}

-- The signature of a call, or the code of its error.
abbrev next_call : List ℕ → Result Fault Bytes × List ℕ
next_call [] = (ok (repeat 64 9), [])
next_call (zero ∷ rest) = (ok (repeat 64 9), rest)
next_call (suc c ∷ rest) = (err (some (suc c)), rest)

-- A token with the PIN 1234; `pin` is the content of the PIN's file.
abbrev token : Bytes → Device (List ℕ)
token pin = record {
  tokens = λ w. (ok (record { slot = 2; label = codes "validator" } ∷ []), w);
  mechanisms = λ slot w. (ok (1 ∷ eddsa ∷ []), w);
  open_session = λ slot w. (ok 5, w);
  close_session = λ session w. (ok tt, w);
  login = λ session p w. (if bytes_eq p (codes "1234") then ok tt else err (some 160), w);
  find = λ session is_private cfg w. (ok (7 ∷ []), w);
  key = λ session object is_private w. (ok (token_key is_private), w);
  sign = λ session object msg w. next_call w;
  read_pin = λ w. (ok pin, w);
  release = λ w. (ok tt, w);
}

abbrev config : Pkcs11Config
config = record {
  mod_path = codes "/lib/token.so";
  token_label = codes "validator";
  slot = none;
  key_label = codes "consensus";
  key_id = [];
  pin_file = codes "/pin";
  binding_file = codes "/binding";
}

abbrev verify : Bytes → Bytes → Bytes → Bool
verify key msg sig = bytes_eq sig (repeat 64 9)

abbrev right_pin : Bytes
right_pin = codes "1234" ++ (10 ∷ [])

-- A lost session is opened again, once.
recovers :
    (sign
      (counted (token right_pin))
      config
      verify
      probe
      (started (token right_pin) config verify (ok tt) (257 ∷ [])).1).0
    ≡ ok (repeat 64 9)
unfolding machine
recovers = refl

lost_twice :
    (sign
      (counted (token right_pin))
      config
      verify
      probe
      (started (token right_pin) config verify (ok tt) (257 ∷ 257 ∷ [])).1).0
    ≡ err sign_failed
unfolding machine
lost_twice = refl

refused : (started (token (codes "0000")) config verify (ok tt) []).0 ≡ err pin_latched
unfolding machine
refused = refl

abbrev always : Cancellation
always = record { at_start = false; between = false; at_end = false }

abbrev calls : List Op
calls = verifies always ∷ signs (codes "vote") ∷ checks_claim always ∷ closes ∷ []

one_refused_pin_example : (0 ≤ 1) × (◌≡◌ {A = ℕ} 2 (2 + 0))
unfolding machine
one_refused_pin_example =
    one_refused_pin (token right_pin) config verify (ok tt) (0 ∷ 257 ∷ []) calls

signs_with_first_key_example :
    (◌≡◌ {A = ℕ} (length (repeat 64 9)) 64)
    × (verify (repeat 32 9) (codes "vote") (repeat 64 9) ≡ true)
unfolding machine
signs_with_first_key_example =
    signs_with_first_key (token right_pin) config verify (ok tt) (0 ∷ 257 ∷ [])
      (verifies always ∷ []) (codes "vote") (repeat 64 9) refl refl
