-- ===== src/State/RaftStore/Advertise.antt =====
-- resolveAdvertise of internal/state/raftstore.go: the address that a replica's peers reach it by. What the
-- resolver and the clock answer is an argument.
use cosmosigner.Prelude.{
  ◌≡◌, refl, sym, ap, ◌⊎◌, ok_inj, passes, ℕ, Bytes, is_empty, Bool, ◌||◌, Option, none, some, List,
  [], ◌∷◌, In, inl, inr, Result, ok, err, ◌>>=◌, fail_if, or_fail, if◌then◌else◌,
}

pub data AdvertiseError : Type 0 where
  unparsed bad_port no_host zone_on_v4 empty_zone unresolved : AdvertiseError

-- A host before its last percent sign, where that is an IP literal: whether it is one of IPv4, and the text
-- after the sign.
pub record Zoned : Type 0 where
  pub is_v4 : Bool
  pub zone : Bytes

pub record IpAddr : Type 0 where
  pub ip : Bytes
  pub zone : Bytes

pub record TcpAddr : Type 0 where
  pub ip : Bytes
  pub port : ℕ
  pub zone : Bytes

-- One lookup: its addresses, none where it failed; whether the context has ended after it, or ends in the
-- pause that follows.
pub record Lookup : Type 0 where
  pub addrs : List IpAddr
  pub is_ended : Bool
  pub ends_waiting : Bool

unfoldable pub check_zone : Option Zoned → Result AdvertiseError (Unit {0})
check_zone none = ok tt
check_zone (some z) = if z.is_v4 then err zone_on_v4 else fail_if (is_empty z.zone) empty_zone

-- The loop of lookups; the budget is spent after the last of them.
unfoldable pub look_up : ℕ → List Lookup → Result AdvertiseError TcpAddr
look_up port [] = err unresolved
look_up port (l ∷ ls) =
    let later = look_up port ls in
    elim l.addrs [
      | [] ↦ if l.is_ended || l.ends_waiting then err unresolved else later
      | a ∷ rest ↦ ok (record { ip = a.ip; port = port; zone = a.zone })
    ]

-- resolveAdvertise, on the host and the port that the address splits into and the answer for its port.
unfoldable pub resolve_advertise :
    Option Bytes
    → Option ℕ
    → (Bytes → Option Zoned)
    → (Bytes → List Lookup)
    → Result AdvertiseError TcpAddr
resolve_advertise host port zoned lookups = or_fail host unparsed >>= λ h.
    or_fail port bad_port >>= λ p.
    fail_if (is_empty h) no_host >>= λ u. check_zone (zoned h) >>= λ u. look_up p (lookups h)

-- An address that was resolved is the first one of a lookup.
abbrev IsFirst : List Lookup → TcpAddr → Type 0
IsFirst ls t =
    (l : Lookup) × In l ls
    × (a : IpAddr) × (rest : List IpAddr) × (l.addrs ≡ a ∷ rest)
    × (t.ip ≡ a.ip)
    × (t.zone ≡ a.zone)

answered :
    (l : Lookup) (ls : List Lookup) (port : ℕ) (t : TcpAddr) (addrs : List IpAddr)
    → l.addrs ≡ addrs
    → (look_up port ls ≡ ok t → IsFirst ls t)
    → (elim addrs [
      | [] ↦ if l.is_ended || l.ends_waiting then err unresolved else look_up port ls
      | a ∷ rest ↦ ok (record { ip = a.ip; port = port; zone = a.zone })
    ])
      ≡ ok t
    → IsFirst ls t ⊎ IsFirst (l ∷ []) t
answered l ls port t [] same k h =
    inl (k (passes (l.is_ended || l.ends_waiting) unresolved _ t h).1)
answered l ls port t (a ∷ rest) same k h =
    inr (
      l,
      inl refl,
      a,
      rest,
      same,
      ap (λ x. x.ip) (sym (ok_inj h)),
      ap (λ x. x.zone) (sym (ok_inj h)),
    )

joined :
    (l : Lookup) (ls : List Lookup) (t : TcpAddr)
    → IsFirst ls t ⊎ IsFirst (l ∷ []) t
    → IsFirst (l ∷ ls) t
joined l ls t (inl (x, i, a, r, q, ip, z)) = (x, inr i, a, r, q, ip, z)
joined l ls t (inr (x, inl here, a, r, q, ip, z)) = (x, inl here, a, r, q, ip, z)
joined l ls t (inr (x, inr there, a, r, q, ip, z)) = absurd there

-- The loop answers with the first address of a lookup that it made.
pub look_up-IsFirst :
    (port : ℕ) (ls : List Lookup) (t : TcpAddr) → look_up port ls ≡ ok t → IsFirst ls t
unfolding look_up
look_up-IsFirst port [] t h = cc h
look_up-IsFirst port (l ∷ ls) t h =
    joined l ls t (answered l ls port t l.addrs refl (look_up-IsFirst port ls t) h)
