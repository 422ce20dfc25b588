-- ===== src/Start/Members.antt =====
-- parseMembers of cmd/cosmosigner/cmd/start.go.
use cosmosigner.Prelude.{
  suc, ◌≡◌, refl, sym, ap, subst, Bytes, is_empty, Bool, true, false, not, ◌||◌, Option, none, some,
  some_inj, List, [], ◌∷◌, All, length, if◌then◌else◌,
}
use cosmosigner.Backend.Addressing.{trim_space}
use cosmosigner.Config.{Member}
use cosmosigner.Start.{cut, equals_sign, parse_member, push, parse_members}

abbrev pub IsComplete : Member → Type 0
IsComplete m = (is_empty m.id ≡ false) × (is_empty m.address ≡ false)

complete :
    (bad no_id no_addr : Bool) (m made : Member)
    → is_empty made.id ≡ no_id
    → is_empty made.address ≡ no_addr
    → (if bad || no_id || no_addr then none else some made) ≡ some m
    → IsComplete m
complete false false false m made a b h = subst IsComplete (some_inj.0 h) (a, b)
complete true no_id no_addr m made a b h = cc h
complete false true no_addr m made a b h = cc h
complete false false true m made a b h = cc h

parse_member-IsComplete : (raw : Bytes) (m : Member) → parse_member raw ≡ some m → IsComplete m
unfolding parse_member
parse_member-IsComplete raw m h =
    let parts = cut equals_sign (trim_space raw) in
    complete (not parts.2) (is_empty (trim_space parts.0)) (is_empty (trim_space parts.1)) m _ refl
      refl h

pushed :
    (o : Option Member) (rest : Option (List Member)) (ms : List Member)
    → push o rest ≡ some ms
    → (m : Member) × (tail : List Member) × (o ≡ some m) × (rest ≡ some tail) × (ms ≡ m ∷ tail)
pushed none rest ms h = cc h
pushed (some m) none ms h = cc h
pushed (some m) (some tail) ms h = (m, tail, refl, refl, sym (some_inj.0 h))

-- The members that the command line is read as are one for each flag, in their number, and each has
-- an id and an address.
pub parse_members-All :
    (raw : List Bytes) (ms : List Member)
    → parse_members raw ≡ some ms
    → All IsComplete ms × (length ms ≡ length raw)
unfolding parse_members
parse_members-All [] ms h =
    subst (λ (l : List Member). All IsComplete l × (length l ≡ 0)) (some_inj.0 h) (tt, refl)
parse_members-All (raw ∷ rest) ms h =
    let (m, tail, first, later, whole) = pushed (parse_member raw) (parse_members rest) ms h in
    let (complete_tail, count) = parse_members-All rest tail later in
    subst (λ (l : List Member). All IsComplete l × (length l ≡ suc (length rest))) (sym whole)
      ((parse_member-IsComplete raw m first, complete_tail), ap suc count)
