-- ===== src/Fragment/Bsi.antt =====
-- The bit-sliced integers of fragment.go: row 0 marks the columns that hold a value, row 1 the
-- negative ones, and row 2 + i holds bit i of each absolute value.
pub mod Loops
use pilosa.Common.{
  ℕ, zero, suc, ◌+◌, ◌^◌, ◌<◌, ◌≡◌, Bool, true, false, not, ◌&&◌, arith, ltb, ◌==◌, if◌then◌else◌,
  bit_at, pow_double,
}
use pilosa.Row.{RowOps}

abbrev pub bsi_exists_bit : ℕ
bsi_exists_bit = 0

abbrev pub bsi_sign_bit : ℕ
bsi_sign_bit = 1

abbrev pub bsi_offset_bit : ℕ
bsi_offset_bit = 2

module _ (R : RowOps) (row : ℕ → R.Row) where
  open R use {Row, contains, empty, intersect, union, difference, count}

  -- The bits of a column below `n`, read as a number.
  unfoldable pub magnitude : ℕ → ℕ → ℕ
  magnitude zero c = 0
  magnitude (suc i) c = magnitude i c + (if contains (row (bsi_offset_bit + i)) c then 2 ^ i else 0)

  pub magnitude-lt : (n c : ℕ) → magnitude n c < 2 ^ n
  unfolding magnitude
  magnitude-lt zero c = omega arith
  magnitude-lt (suc n) c = ground (arith, pow_double n, magnitude-lt n c)

  -- The loop of `rangeEQ`, with the rounds left.
  pub eq_loop : ℕ → ℕ → Row → Row
  eq_loop zero p b = b
  eq_loop (suc i) p b =
      let r = row (bsi_offset_bit + i) in
      eq_loop i p (if bit_at p i == 1 then intersect b r else difference b r)

  -- The loop of `rangeLTUnsigned`: round `i` decides bit `i`.
  pub lt_loop : Bool → ℕ → ℕ → Bool → Row → Row → Row
  lt_loop allow_equality zero p leading_zeros filter keep = filter
  lt_loop allow_equality (suc i) p leading_zeros filter keep =
      let r = row (bsi_offset_bit + i) in
      let skip = lt_loop allow_equality i p leading_zeros (difference filter r) keep in
      let drop_ones =
        lt_loop allow_equality i p false (difference filter (difference r keep)) keep in
      let keep_zeros =
        lt_loop allow_equality i p false filter
          (if ltb 0 i then union keep (difference filter r) else keep) in
      if leading_zeros && bit_at p i == 0
      then skip
      else if i == 0 && not allow_equality
      then (if bit_at p i == 0 then keep else difference filter (difference r keep))
      else if bit_at p i == 0
      then drop_ones
      else keep_zeros

  unfoldable pub range_lt_unsigned : Row → ℕ → ℕ → Bool → Row
  unfolding lt_loop
  range_lt_unsigned filter depth p allow_equality = lt_loop allow_equality depth p true filter empty

  -- The loop of `rangeGTUnsigned`.
  pub gt_loop : Bool → ℕ → ℕ → Row → Row → Row
  gt_loop allow_equality zero p filter keep = filter
  gt_loop allow_equality (suc i) p filter keep =
      let r = row (bsi_offset_bit + i) in
      let keep_ones =
        gt_loop allow_equality i p (difference filter (difference (difference filter r) keep))
          keep in
      let add_ones =
        gt_loop allow_equality i p filter
          (if ltb 0 i then union keep (intersect filter r) else keep) in
      if i == 0 && not allow_equality
      then (if bit_at p i == 1
          then keep
          else difference filter (difference (difference filter r) keep))
      else if bit_at p i == 1
      then keep_ones
      else add_ones

  unfoldable pub range_gt_unsigned : Row → ℕ → ℕ → Bool → Row
  unfolding gt_loop
  range_gt_unsigned filter depth p allow_equality = gt_loop allow_equality depth p filter empty
