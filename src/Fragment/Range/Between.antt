-- ===== src/Fragment/Range/Between.antt =====
-- `rangeBetween` returns the columns whose value lies between its two ends.
use pilosa.Common.{
  ℕ, zero, suc, ◌+◌, ◌^◌, ◌<◌, ◌≡◌, true, ◌&&◌, ◌||◌, arith, ltb, leb, ◌==◌, if◌then◌else◌, bit_at,
  low_part, low_part-lt, low_part_of_lt,
}
use pilosa.Common.Int.{ℤ, leb_ℤ, abs_ℕ}
use pilosa.Row.{RowOps}
use pilosa.Fragment.Bsi.{
  bsi_exists_bit, bsi_sign_bit, bsi_offset_bit, magnitude, magnitude-lt, range_lt_unsigned,
}
use pilosa.Fragment.Bsi.Loops.{contains-lt_loop_leading}
use pilosa.Fragment.Range.{between_loop, range_between}
use pilosa.Fragment.Range.Compare.{signed, IsWellFormed}

module _ (R : RowOps) (row : ℕ → R.Row) (c : ℕ) where
  open R use {
    Row, contains, empty, intersect, union, difference, contains-empty, contains-intersect,
    contains-union, contains-difference,
  }

  abbrev M : ℕ → ℕ
  M n = magnitude R row n c

  -- One round, on a column: is it at least `lo` or kept by `keep1`, and at most `hi` or kept by
  -- `keep2`, in the bits below `n`.
  abbrev Within : ℕ → ℕ → ℕ → Type 0
  Within n lo hi =
      (filter keep1 keep2 : Row)
      → contains (between_loop R row n lo hi filter keep1 keep2) c ≡ (
          contains filter c
          && ((contains keep1 c || leb (low_part n lo) (M n))
              && (contains keep2 c || leb (M n) (low_part n hi))))

  between_round : (n lo hi : ℕ) → Within n lo hi → Within (suc n) lo hi
  unfolding between_loop magnitude low_part
  between_round n lo hi rest filter keep1 keep2 = ground (
    arith,
    rest (if bit_at hi n == 0 then difference filter1 (difference r keep2) else filter1) keep1' (
        if bit_at hi n == 0
        then keep2
        else if ltb 0 n
        then union keep2 (difference filter1 r)
        else keep2),
    contains-difference filter (difference (difference filter r) keep1) c,
    contains-difference (difference filter r) keep1 c,
    contains-difference filter r c,
    contains-union keep1 (intersect filter r) c,
    contains-intersect filter r c,
    contains-difference filter1 (difference r keep2) c,
    contains-difference r keep2 c,
    contains-difference filter1 r c,
    contains-union keep2 (difference filter1 r) c,
    magnitude-lt R row n c,
    low_part-lt n lo,
    low_part-lt n hi,
  )
    where
      r : Row
      r = row (bsi_offset_bit + n)

      filter1 : Row
      filter1 =
          if bit_at lo n == 1
          then difference filter (difference (difference filter r) keep1)
          else filter

      keep1' : Row
      keep1' =
          if bit_at lo n == 1
          then keep1
          else if ltb 0 n
          then union keep1 (intersect filter r)
          else keep1

  contains-between_loop : (n lo hi : ℕ) → Within n lo hi
  unfolding between_loop magnitude low_part
  contains-between_loop zero lo hi = λ filter keep1 keep2. ground arith
  contains-between_loop (suc n) lo hi = between_round n lo hi (contains-between_loop n lo hi)

module _ (R : RowOps) (row : ℕ → R.Row) (depth : ℕ) (wf : IsWellFormed R row depth) where
  open R use {
    contains, empty, intersect, union, difference, contains-empty, contains-intersect,
    contains-union, contains-difference,
  }

  -- On a well-formed field and for ends in order that fit the bit depth, rangeBetween returns
  -- exactly the columns that hold a value between the two ends, ends included.
  pub contains-range_between :
      (lo hi : ℤ) (c : ℕ)
      → leb_ℤ lo hi ≡ true
      → abs_ℕ lo < 2 ^ depth
      → abs_ℕ hi < 2 ^ depth
      → contains (range_between R row depth lo hi) c ≡ (
          contains (row bsi_exists_bit) c
          && (leb_ℤ lo (signed R row depth c) && leb_ℤ (signed R row depth c) hi))
  unfolding range_between range_lt_unsigned
  contains-range_between lo hi c ordered fits_lo fits_hi =
      let b = row bsi_exists_bit in
      let sign = row bsi_sign_bit in
      let l = abs_ℕ lo in
      let h = abs_ℕ hi in
      ground (
        arith,
        contains-between_loop R row c depth l h (difference b sign) empty empty,
        contains-between_loop R row c depth h l (intersect b sign) empty empty,
        contains-lt_loop_leading R row c depth h (difference b sign),
        contains-lt_loop_leading R row c depth l (intersect b sign),
        contains-union (range_lt_unsigned R row (difference b sign) depth h true)
            (range_lt_unsigned R row (intersect b sign) depth l true) c,
        contains-intersect b sign c,
        contains-difference b sign c,
        contains-empty c,
        low_part_of_lt depth l fits_lo,
        low_part_of_lt depth h fits_hi,
        wf.negative_pos c,
        wf.negative-exists c,
      )
