-- ===== src/Backend/Token.antt =====
-- internal/backend/pkcs11.go: the key backend of a PKCS#11 token, one session that is recovered after
-- an error and that stops for good at a refused PIN. The token and the PIN's file are a `Device`.
pub mod Serving
pub mod Sessions
pub mod Reopening
pub mod Calls
pub mod Signing
pub mod Tests
use cosmosigner.Prelude.{
  ℕ, Bytes, bytes_eq, is_empty, codes, Bool, true, false, not, ◌&&◌, ◌||◌, ◌==◌, Option, none, some,
  List, [], ◌∷◌, ◌++◌, length, any, Result, ok, err, fail_if, if◌then◌else◌,
}
use cosmosigner.Prelude.Exec.{Exec, pure, raise, lift, gets, modify, check, skip, ◌>>=◌, ◌>>◌}
use cosmosigner.Backend.{Pkcs11Config}
use cosmosigner.Backend.Addressing.{AddressError, validate_pkcs11}

-- The code of a pkcs11Error; any other error has none.
abbrev pub Fault : Type 0
Fault = Option ℕ

-- pkcs11Code
abbrev pub has_code : List ℕ → Fault → Bool
has_code codes (some c) = any (λ d. c == d) codes
has_code codes none = false

-- pkcs11Token
pub record Token : Type 0 where
  pub slot : ℕ
  pub label : Bytes

-- pkcs11Key
pub record Key : Type 0 where
  pub class : ℕ
  pub key_type : ℕ
  pub signs : Bool
  pub sensitive : Bool
  pub non_extractable : Bool
  pub params : Bytes
  pub point : Bytes

abbrev pub edwards : ℕ
edwards = 64

abbrev pub eddsa : ℕ
eddsa = 4183

abbrev pub Call : Type 0 → Type 0 → Type 0
Call W A = W → Result Fault A × W

-- pkcs11Module, the file of the PIN and the release of the module, over the state of the token.
pub record Device (W : Type 0) : Type 0 where
  pub tokens : Call W (List Token)
  pub mechanisms : ℕ → Call W (List ℕ)
  pub open_session : ℕ → Call W ℕ
  pub close_session : ℕ → Call W (Unit {0})
  pub login : ℕ → Bytes → Call W (Unit {0})
  pub find : ℕ → Bool → Pkcs11Config → Call W (List ℕ)
  pub key : ℕ → ℕ → Bool → Call W Key
  pub sign : ℕ → ℕ → Bytes → Call W Bytes
  pub read_pin : Call W Bytes
  pub release : Call W (Unit {0})

-- PKCS11, beside the state of its device. An empty `pub_key` is nil.
pub record Pkcs11 (W : Type 0) : Type 0 where
  pub session : ℕ
  pub session_open : Bool
  pub private : ℕ
  pub pub_key : Bytes
  pub pin_failure : Bool
  pub closed : Bool
  pub device : W

pub data TokenError : Type 0 where
  bad_config : AddressError → TokenError
  pin_latched pin_unreadable pin_empty login_failed : TokenError
  tokens_failed selector_ambiguous mechanisms_failed no_eddsa open_failed : TokenError
  find_failed key_ambiguous key_unreadable wrong_key wrong_params exportable wrong_point :
      TokenError
  key_changed sign_failed bad_signature not_deterministic is_closed cancelled : TokenError
  close_failed release_failed : TokenError
  binding_corrupt : TokenError → TokenError

abbrev pub as_error : {A : Type 0} → TokenError → Result Fault A → Result TokenError A
as_error e (ok a) = ok a
as_error e (err f) = err e

abbrev pub the_only : TokenError → List ℕ → Result TokenError ℕ
the_only e (x ∷ []) = ok x
the_only e _ = err e

abbrev pub is_line_end : ℕ → Bool
is_line_end c = c == 13 || c == 10

-- strings.TrimRight(s, "\r\n")
unfoldable pub trim_right : Bytes → Bytes
trim_right [] = []
trim_right (c ∷ s) =
    let rest = trim_right s in if is_empty rest && is_line_end c then [] else c ∷ rest

abbrev pub is_selected : Pkcs11Config → Token → Bool
is_selected cfg t = elim cfg.slot [ some n ↦ t.slot == n | none ↦ bytes_eq t.label cfg.token_label ]

unfoldable pub matching : Pkcs11Config → List Token → List ℕ
matching cfg [] = []
matching cfg (t ∷ ts) =
    let rest = matching cfg ts in if is_selected cfg t then t.slot ∷ rest else rest

-- The object identifier of Ed25519, in its two encodings.
abbrev pub is_ed25519 : Bytes → Bool
is_ed25519 params =
    bytes_eq params (6 ∷ 3 ∷ 43 ∷ 101 ∷ 112 ∷ [])
    || bytes_eq params (19 ∷ 12 ∷ codes "edwards25519")

abbrev pub wanted_class : Bool → ℕ
wanted_class true = 3
wanted_class false = 2

unfoldable pub check_key : Bool → Key → Result TokenError (Unit {0})
check_key is_private k =
    if not (k.class == wanted_class is_private)
      || not (k.key_type == edwards)
      || (is_private && not k.signs)
    then err wrong_key
    else if not (is_ed25519 k.params)
    then err wrong_params
    else fail_if (is_private && (not k.sensitive || not k.non_extractable)) exportable

-- The point, out of its DER octet string.
unfoldable pub raw_point : Bytes → Bytes
raw_point (a ∷ b ∷ p) = if length p == 32 && a == 4 && b == 32 then p else a ∷ b ∷ p
raw_point p = p

-- A method of the backend over the token's state.
abbrev pub M : Type 0 → Type 0 → Type 0
M W A = Exec TokenError (Pkcs11 W) A

module _ {W A : Type 0} where
  abbrev pub answered :
      Pkcs11 W → Result Fault A × W → Result TokenError (Result Fault A) × Pkcs11 W
  answered s (r, w) = (ok r, record s { device = w })

  -- A call of the device, with its error as a value.
  unfoldable pub call : Call W A → M W (Result Fault A)
  call c s = answered s (c s.device)

  -- A call whose error ends the method.
  unfoldable pub ask : Call W A → TokenError → M W A
  ask c e = call c >>= λ r. lift (as_error e r)

-- What a new session is known by; the public key is that of the first one.
abbrev pub adopt : {W : Type 0} → ℕ × Bytes → Pkcs11 W → Pkcs11 W
adopt k s = record s { private = k.0; pub_key = if is_empty s.pub_key then k.1 else s.pub_key }

module _ {W : Type 0} (d : Device W) (cfg : Pkcs11Config) where
  -- dropSession
  unfoldable pub drop_session : M W (Unit {0})
  drop_session = gets (λ s. s.session_open) >>= λ is_open.
      (if is_open
        then (gets (λ s. s.session) >>= λ session.
            call (d.close_session session) >>= λ r. modify (λ s. record s { session_open = false }))
        else skip)
      >> modify (λ s. record s { private = 0 })

  abbrev pub drop_after :
      {A : Type 0} → Result TokenError A × Pkcs11 W → Result TokenError A × Pkcs11 W
  drop_after (ok a, s) = (ok a, s)
  drop_after (err e, s) = (drop_session >> raise e) s

  -- `if err != nil { b.dropSession(); return err }`
  unfoldable pub or_drop : {A : Type 0} → M W A → M W A
  or_drop m s = drop_after (m s)

  unfoldable pub find_key : Bool → M W (ℕ × Key)
  find_key is_private = gets (λ s. s.session) >>= λ session.
      ask (d.find session is_private cfg) find_failed >>= λ objects.
      lift (the_only key_ambiguous objects) >>= λ object.
      ask (d.key session object is_private) key_unreadable >>= λ k.
      lift (check_key is_private k) >> pure (object, k)

  -- keys: the handle of the private key, and the public key.
  unfoldable pub keys : M W (ℕ × Bytes)
  keys = find_key true >>= λ p. find_key false >>= λ q.
      check (λ s. not (length (raw_point q.1.point) == 32)) wrong_point
      >> pure (p.0, raw_point q.1.point)

  unfoldable pub logged_in : Result Fault (Unit {0}) → M W (Unit {0})
  logged_in (ok u) = skip
  logged_in (err f) =
      if has_code (256 ∷ []) f
      then skip
      else if has_code (160 ∷ 164 ∷ []) f
      then modify (λ s. record s { pin_failure = true }) >> drop_session >> raise pin_latched
      else drop_session >> raise login_failed

  unfoldable pub log_in : Bytes → M W (Unit {0})
  log_in pin = gets (λ s. s.session) >>= λ session. call (d.login session pin) >>= λ r. logged_in r

  -- The keys of a new session, whose public key must be the one that is known.
  unfoldable pub same_keys : M W (ℕ × Bytes)
  same_keys = keys >>= λ k.
      check (λ s. not (is_empty s.pub_key) && not (bytes_eq s.pub_key k.1)) key_changed >> pure k

  unfoldable pub begin_session : ℕ → M W (Unit {0})
  begin_session slot = ask (d.open_session slot) open_failed >>= λ session.
      modify (λ s. record s { session = session; session_open = true })

  -- The PIN, of which only line ends are cut off.
  unfoldable pub pin_text : M W Bytes
  pin_text = ask d.read_pin pin_unreadable >>= λ content.
      check (λ s. is_empty (trim_right content)) pin_empty >> pure (trim_right content)

  unfoldable pub find_slot : M W ℕ
  find_slot = ask d.tokens tokens_failed >>= λ tokens.
      lift (the_only selector_ambiguous (matching cfg tokens)) >>= λ slot.
      ask (d.mechanisms slot) mechanisms_failed >>= λ mechanisms.
      check (λ s. not (any (λ m. m == eddsa) mechanisms)) no_eddsa >> pure slot

  unfoldable pub reopen : M W (Unit {0})
  reopen = check (λ s. s.pin_failure) pin_latched >> drop_session >> find_slot >>= λ slot.
      pin_text >>= λ pin.
      begin_session slot >> log_in pin >> or_drop same_keys >>= λ k. modify (adopt k)
