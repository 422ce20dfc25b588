-- ===== src/State/Hrs.antt =====
-- compareHRS of internal/state/fsm.go against the lexicographic order on height, round and step.
use cosmosigner.Prelude.{◌≡◌, ◌⊎◌, Option, none, some, arith, if◌then◌else◌}
use cosmosigner.Prelude.Int.{ℤ, ◌<ℤ◌, ltb_ℤ, eq_of_parts}
use cosmosigner.State.{SignState}

-- The results -1, 0 and +1.
pub data Position : Type 0 where
  below equal above : Position

unfoldable pub compare_hrs : Option SignState → ℤ → ℤ → ℤ → Position
compare_hrs none h r s = above
compare_hrs (some cur) h r s =
    if ltb_ℤ h cur.height
    then below
    else if ltb_ℤ cur.height h
    then above
    else if ltb_ℤ r cur.round
    then below
    else if ltb_ℤ cur.round r
    then above
    else if ltb_ℤ s cur.step
    then below
    else if ltb_ℤ cur.step s
    then above
    else equal

-- A place in the consensus of one chain.
pub record Hrs : Type 0 where
  pub height : ℤ
  pub round : ℤ
  pub step : ℤ

abbrev pub hrs : SignState → Hrs
hrs m = record { height = m.height; round = m.round; step = m.step }

abbrev pub HrsLt : Hrs → Hrs → Type 0
HrsLt a b =
    (a.height <ℤ b.height)
    ⊎ ((a.height ≡ b.height) × ((a.round <ℤ b.round) ⊎ ((a.round ≡ b.round) × (a.step <ℤ b.step))))

pub HrsLt-trans : (a b c : Hrs) → HrsLt a b → HrsLt b c → HrsLt a c
HrsLt-trans a b c p q = ground arith

pub HrsLt-irrefl : (a : Hrs) → ¬ HrsLt a a
HrsLt-irrefl a p = ground arith

module _ (cur : SignState) (h r s : ℤ) where
  abbrev asked : Hrs
  asked = record { height = h; round = r; step = s }

  pub below_lem : compare_hrs (some cur) h r s ≡ below → HrsLt asked (hrs cur)
  unfolding compare_hrs
  below_lem e = ground (arith, eq_of_parts h cur.height, eq_of_parts r cur.round)

  pub above_lem : compare_hrs (some cur) h r s ≡ above → HrsLt (hrs cur) asked
  unfolding compare_hrs
  above_lem e = ground (arith, eq_of_parts cur.height h, eq_of_parts cur.round r)

  pub equal_lem : compare_hrs (some cur) h r s ≡ equal → hrs cur ≡ asked
  unfolding compare_hrs
  equal_lem e =
      ground (arith, eq_of_parts cur.height h, eq_of_parts cur.round r, eq_of_parts cur.step s)

  pub below-compare_hrs : HrsLt asked (hrs cur) → compare_hrs (some cur) h r s ≡ below
  unfolding compare_hrs
  below-compare_hrs e = ground arith

  pub above-compare_hrs : HrsLt (hrs cur) asked → compare_hrs (some cur) h r s ≡ above
  unfolding compare_hrs
  above-compare_hrs e = ground arith

  pub equal-compare_hrs : hrs cur ≡ asked → compare_hrs (some cur) h r s ≡ equal
  unfolding compare_hrs
  equal-compare_hrs e = ground arith
