-- ===== src/Fragment/Range.antt =====
-- The range queries of fragment.go over a bit-sliced integer field. None of the functions under
-- `rangeOp` returns an error, so they return the row alone.
pub mod Between
pub mod Operator
pub mod Compare
use pilosa.Common.{
  ℕ, zero, suc, ◌+◌, Bool, true, false, not, ◌&&◌, ◌||◌, ltb, ◌==◌, if◌then◌else◌, bit_at, Option,
  none, some,
}
use pilosa.Common.Int.{ℤ, pos, negsuc, ltb_ℤ, leb_ℤ, abs_ℕ}
use pilosa.Row.{RowOps}
use pilosa.Pql.Token.{Token}
use pilosa.Fragment.Bsi.{
  bsi_exists_bit, bsi_sign_bit, bsi_offset_bit, eq_loop, range_lt_unsigned, range_gt_unsigned,
}

module _ (R : RowOps) (row : ℕ → R.Row) where
  open R use {Row, empty, intersect, union, difference}

  pub range_eq : ℕ → ℤ → Row
  range_eq depth predicate =
      let b = row bsi_exists_bit in
      eq_loop R row depth (abs_ℕ predicate) (
        if ltb_ℤ predicate (pos 0)
        then intersect b (row bsi_sign_bit)
        else difference b (row bsi_sign_bit))

  pub range_neq : ℕ → ℤ → Row
  unfolding range_eq
  range_neq depth predicate = difference (row bsi_exists_bit) (range_eq depth predicate)

  -- The test that `rangeLT` and `rangeGT` share.
  abbrev pub takes_positives : ℤ → Bool → Bool
  takes_positives predicate allow_equality =
      leb_ℤ (pos 0) predicate && allow_equality || leb_ℤ (negsuc 0) predicate && not allow_equality

  pub range_lt : ℕ → ℤ → Bool → Row
  range_lt depth predicate allow_equality =
      let b = row bsi_exists_bit in
      let sign = row bsi_sign_bit in
      if takes_positives predicate allow_equality
      then union sign
          (range_lt_unsigned R row (difference b sign) depth (abs_ℕ predicate) allow_equality)
      else range_gt_unsigned R row (intersect b sign) depth (abs_ℕ predicate) allow_equality

  pub range_gt : ℕ → ℤ → Bool → Row
  range_gt depth predicate allow_equality =
      let b = row bsi_exists_bit in
      let sign = row bsi_sign_bit in
      if takes_positives predicate allow_equality
      then range_gt_unsigned R row (difference b sign) depth (abs_ℕ predicate) allow_equality
      else union (difference b sign)
          (range_lt_unsigned R row (intersect b sign) depth (abs_ℕ predicate) allow_equality)

  unfoldable pub not_null : Row
  not_null = row bsi_exists_bit

  -- The loop of `rangeBetweenUnsigned`: `keep1` for the lower end, `keep2` for the upper.
  pub between_loop : ℕ → ℕ → ℕ → Row → Row → Row → Row
  between_loop zero lo hi filter keep1 keep2 = filter
  between_loop (suc i) lo hi filter keep1 keep2 =
      let r = row (bsi_offset_bit + i) in
      let filter1 =
        (if bit_at lo i == 1
          then difference filter (difference (difference filter r) keep1)
          else filter) in
      let keep1' =
        (if bit_at lo i == 1
          then keep1
          else if ltb 0 i
          then union keep1 (intersect filter r)
          else keep1) in
      between_loop i lo hi
        (if bit_at hi i == 0 then difference filter1 (difference r keep2) else filter1) keep1'
        (if bit_at hi i == 0
          then keep2
          else if ltb 0 i
          then union keep2 (difference filter1 r)
          else keep2)

  pub range_between_unsigned : Row → ℕ → ℕ → ℕ → Row
  unfolding between_loop
  range_between_unsigned filter depth lo hi = between_loop depth lo hi filter empty empty

  pub range_between : ℕ → ℤ → ℤ → Row
  unfolding range_between_unsigned
  range_between depth lo hi =
      let b = row bsi_exists_bit in
      let sign = row bsi_sign_bit in
      if leb_ℤ (pos 0) lo
      then range_between_unsigned (difference b sign) depth (abs_ℕ lo) (abs_ℕ hi)
      else if ltb_ℤ hi (pos 0)
      then range_between_unsigned (intersect b sign) depth (abs_ℕ hi) (abs_ℕ lo)
      else union (range_lt_unsigned R row (difference b sign) depth (abs_ℕ hi) true)
          (range_lt_unsigned R row (intersect b sign) depth (abs_ℕ lo) true)

  -- `none` is ErrInvalidRangeOperation.
  pub range_op : Token → ℕ → ℤ → Option Row
  unfolding range_eq range_neq range_lt range_gt
  range_op Token.eq depth predicate = some (range_eq depth predicate)
  range_op Token.neq depth predicate = some (range_neq depth predicate)
  range_op Token.lt depth predicate = some (range_lt depth predicate false)
  range_op Token.lte depth predicate = some (range_lt depth predicate true)
  range_op Token.gt depth predicate = some (range_gt depth predicate false)
  range_op Token.gte depth predicate = some (range_gt depth predicate true)
  range_op _ depth predicate = none
