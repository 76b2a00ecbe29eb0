-- ===== src/Field/Group.antt =====
-- field.go: the group of rows that holds a field's integers. A column stores its value less the
-- base, in sign and magnitude. The name and the type of a group do not matter here.
pub mod Bounds
use pilosa.Common.{ℕ, suc, ◌+◌, ◌^◌, ◌≤◌, ◌<◌, ◌%◌, Bool, true, false, ◌||◌, if◌then◌else◌, shl1}
use pilosa.Common.Int.{ℤ, pos, negsuc, ltb_ℤ, ◌+ℤ◌, ◌-ℤ◌}
use pilosa.Common.Int64.{int64}
use pilosa.Pql.Token.{Token}

pub record BsiGroup : Type 0 where
  pub min : ℤ
  pub max : ℤ
  pub base : ℤ
  pub bit_depth : ℕ

-- `bsiBase`.
unfoldable pub bsi_base : ℤ → ℤ → ℤ
bsi_base min max = if ltb_ℤ (pos 0) min then min else if ltb_ℤ max (pos 0) then max else pos 0

unfoldable pub bit_depth_min : BsiGroup → ℤ
bit_depth_min g = int64 (int64 (g.base -ℤ int64 (pos (shl1 g.bit_depth))) +ℤ pos 1)

unfoldable pub bit_depth_max : BsiGroup → ℤ
bit_depth_max g = int64 (int64 (g.base +ℤ int64 (pos (shl1 g.bit_depth))) -ℤ pos 1)

-- The branches of `baseValue`: the value to query for, and outOfRange.
abbrev pub base_value_above : BsiGroup → ℤ → ℤ × Bool
base_value_above g value =
    if ltb_ℤ (bit_depth_max g) value
    then (pos 0, true)
    else if ltb_ℤ (bit_depth_min g) value
    then (int64 (value -ℤ g.base), false)
    else (pos 0, false)

abbrev pub base_value_below : BsiGroup → ℤ → ℤ × Bool
base_value_below g value =
    if ltb_ℤ value (bit_depth_min g)
    then (pos 0, true)
    else if ltb_ℤ (bit_depth_max g) value
    then (int64 (bit_depth_max g -ℤ g.base), false)
    else (int64 (value -ℤ g.base), false)

abbrev pub base_value_at : BsiGroup → ℤ → ℤ × Bool
base_value_at g value =
    if ltb_ℤ value (bit_depth_min g) || ltb_ℤ (bit_depth_max g) value
    then (pos 0, true)
    else (int64 (value -ℤ g.base), false)

unfoldable pub base_value : BsiGroup → Token → ℤ → ℤ × Bool
base_value g Token.gt value = base_value_above g value
base_value g Token.gte value = base_value_above g value
base_value g Token.lt value = base_value_below g value
base_value g Token.lte value = base_value_below g value
base_value g Token.eq value = base_value_at g value
base_value g Token.neq value = base_value_at g value
base_value g _ value = (pos 0, false)

-- `baseValueBetween`.
unfoldable pub base_value_between : BsiGroup → ℤ → ℤ → ℤ × ℤ × Bool
base_value_between g lo hi =
    let min = bit_depth_min g in
    let max = bit_depth_max g in
    if ltb_ℤ hi min || ltb_ℤ max lo then (pos 0, pos 0, true) else (
      int64 ((if ltb_ℤ lo min then min else lo) -ℤ g.base),
      int64 ((if ltb_ℤ max hi then max else hi) -ℤ g.base),
      false,
    )
