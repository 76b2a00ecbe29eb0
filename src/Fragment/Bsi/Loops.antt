-- ===== src/Fragment/Bsi/Loops.antt =====
-- What the bit loops of fragment.go keep, column by column.
use pilosa.Common.{
  ℕ, zero, suc, ◌+◌, ◌≡◌, true, false, ◌&&◌, ◌||◌, arith, ltb, leb, ◌==◌, if◌then◌else◌, low_part,
  low_part-lt,
}
use pilosa.Row.{RowOps}
use pilosa.Fragment.Bsi.{bsi_offset_bit, magnitude, magnitude-lt, eq_loop, lt_loop, gt_loop}

module _ (R : RowOps) (row : ℕ → R.Row) (c : ℕ) where
  open R use {
    Row, contains, empty, intersect, union, difference, contains-empty, contains-intersect,
    contains-union, contains-difference,
  }

  abbrev M : ℕ → ℕ
  M n = magnitude R row n c

  pub contains-eq_loop :
      (n p : ℕ) (b : Row) → contains (eq_loop R row n p b) c ≡ (contains b c && M n == low_part n p)
  unfolding eq_loop magnitude low_part
  contains-eq_loop zero p b = ground arith
  contains-eq_loop (suc n) p b =
      let r = row (bsi_offset_bit + n) in
      ground (
        arith,
        contains-eq_loop n p (intersect b r),
        contains-eq_loop n p (difference b r),
        contains-intersect b r c,
        contains-difference b r c,
        magnitude-lt R row n c,
        low_part-lt n p,
      )

  -- `c` is kept, or its low bits are at most those of `p`.
  pub contains-lt_loop_le :
      (n p : ℕ) (filter keep : Row)
      → contains (lt_loop R row true n p false filter keep) c
        ≡ (contains filter c && (contains keep c || leb (M n) (low_part n p)))
  unfolding lt_loop magnitude low_part
  contains-lt_loop_le zero p filter keep = ground arith
  contains-lt_loop_le (suc n) p filter keep =
      let r = row (bsi_offset_bit + n) in
      ground (
        arith,
        contains-lt_loop_le n p (difference filter (difference r keep)) keep,
        contains-lt_loop_le n p filter keep,
        contains-lt_loop_le n p filter (union keep (difference filter r)),
        contains-difference filter (difference r keep) c,
        contains-difference r keep c,
        contains-difference filter r c,
        contains-union keep (difference filter r) c,
        magnitude-lt R row n c,
        low_part-lt n p,
      )

  -- The strict loop; its last round is its own.
  abbrev Below : ℕ → ℕ → Type 0
  Below n p =
      (filter keep : Row)
      → (contains keep c ≡ true → contains filter c ≡ true)
      → contains (lt_loop R row false (suc n) p false filter keep) c
        ≡ (contains filter c && (contains keep c || ltb (M (suc n)) (low_part (suc n) p)))

  lt_loop_last : (p : ℕ) → Below 0 p
  unfolding lt_loop magnitude low_part
  lt_loop_last p filter keep h =
      let r = row (bsi_offset_bit + 0) in
      ground (arith, contains-difference filter (difference r keep) c, contains-difference r keep c)

  lt_loop_round : (n p : ℕ) → Below n p → Below (suc n) p
  unfolding lt_loop magnitude low_part
  lt_loop_round n p rest filter keep h =
      let r = row (bsi_offset_bit + suc n) in
      ground (
        arith,
        rest (difference filter (difference r keep)) keep,
        rest filter (union keep (difference filter r)),
        contains-difference filter (difference r keep) c,
        contains-difference r keep c,
        contains-difference filter r c,
        contains-union keep (difference filter r) c,
        magnitude-lt R row (suc n) c,
        low_part-lt (suc n) p,
      )

  pub contains-lt_loop_lt : (n p : ℕ) → Below n p
  contains-lt_loop_lt zero p = lt_loop_last p
  contains-lt_loop_lt (suc n) p = lt_loop_round n p (contains-lt_loop_lt n p)

  -- The whole loop: while the bits of `p` are zero, columns with a one are dropped.
  pub contains-lt_loop_leading :
      (n p : ℕ) (filter : Row)
      → contains (lt_loop R row true n p true filter empty) c
        ≡ (contains filter c && leb (M n) (low_part n p))
  unfolding lt_loop magnitude low_part
  contains-lt_loop_leading zero p filter = ground arith
  contains-lt_loop_leading (suc n) p filter =
      let r = row (bsi_offset_bit + n) in
      ground (
        arith,
        contains-lt_loop_leading n p (difference filter r),
        contains-lt_loop_le n p filter empty,
        contains-lt_loop_le n p filter (union empty (difference filter r)),
        contains-empty c,
        contains-difference filter r c,
        contains-union empty (difference filter r) c,
        magnitude-lt R row n c,
        low_part-lt n p,
      )

  -- The strict loop keeps the zeros of a zero predicate.
  abbrev Leading : ℕ → ℕ → Type 0
  Leading n p =
      (filter : Row)
      → contains (lt_loop R row false n p true filter empty) c
        ≡ (contains filter c && (if low_part n p == 0 then M n == 0 else ltb (M n) (low_part n p)))

  Leading-last : (p : ℕ) → Leading 1 p
  unfolding lt_loop magnitude low_part
  Leading-last p filter =
      let r = row (bsi_offset_bit + 0) in
      ground (
        arith,
        contains-difference filter r c,
        contains-difference filter (difference r empty) c,
        contains-difference r empty c,
        contains-empty c,
      )

  Leading-round : (n p : ℕ) → Leading (suc n) p → Leading (suc (suc n)) p
  unfolding lt_loop magnitude low_part
  Leading-round n p rest filter =
      let r = row (bsi_offset_bit + suc n) in
      ground (
        arith,
        rest (difference filter r),
        contains-lt_loop_lt (suc n) p filter empty,
        contains-lt_loop_lt n p filter (union empty (difference filter r)),
        contains-empty c,
        contains-difference filter r c,
        contains-union empty (difference filter r) c,
        magnitude-lt R row (suc n) c,
        low_part-lt (suc n) p,
      )

  pub contains-lt_loop-Leading : (n p : ℕ) → Leading n p
  unfolding lt_loop magnitude low_part
  contains-lt_loop-Leading zero p = λ filter. ground arith
  contains-lt_loop-Leading (suc zero) p = Leading-last p
  contains-lt_loop-Leading (suc (suc n)) p = Leading-round n p (contains-lt_loop-Leading (suc n) p)

  pub contains-gt_loop_le :
      (n p : ℕ) (filter keep : Row)
      → contains (gt_loop R row true n p filter keep) c
        ≡ (contains filter c && (contains keep c || leb (low_part n p) (M n)))
  unfolding gt_loop magnitude low_part
  contains-gt_loop_le zero p filter keep = ground arith
  contains-gt_loop_le (suc n) p filter keep =
      let r = row (bsi_offset_bit + n) in
      ground (
        arith,
        contains-gt_loop_le n p (difference filter (difference (difference filter r) keep)) keep,
        contains-gt_loop_le n p filter keep,
        contains-gt_loop_le n p filter (union keep (intersect filter r)),
        contains-difference filter (difference (difference filter r) keep) c,
        contains-difference (difference filter r) keep c,
        contains-difference filter r c,
        contains-intersect filter r c,
        contains-union keep (intersect filter r) c,
        magnitude-lt R row n c,
        low_part-lt n p,
      )

  abbrev Above : ℕ → ℕ → Type 0
  Above n p =
      (filter keep : Row)
      → (contains keep c ≡ true → contains filter c ≡ true)
      → contains (gt_loop R row false (suc n) p filter keep) c
        ≡ (contains filter c && (contains keep c || ltb (low_part (suc n) p) (M (suc n))))

  gt_loop_last : (p : ℕ) → Above 0 p
  unfolding gt_loop magnitude low_part
  gt_loop_last p filter keep h =
      let r = row (bsi_offset_bit + 0) in
      ground (
        arith,
        contains-difference filter (difference (difference filter r) keep) c,
        contains-difference (difference filter r) keep c,
        contains-difference filter r c,
      )

  gt_loop_round : (n p : ℕ) → Above n p → Above (suc n) p
  unfolding gt_loop magnitude low_part
  gt_loop_round n p rest filter keep h =
      let r = row (bsi_offset_bit + suc n) in
      ground (
        arith,
        rest (difference filter (difference (difference filter r) keep)) keep,
        rest filter (union keep (intersect filter r)),
        contains-difference filter (difference (difference filter r) keep) c,
        contains-difference (difference filter r) keep c,
        contains-difference filter r c,
        contains-intersect filter r c,
        contains-union keep (intersect filter r) c,
        magnitude-lt R row (suc n) c,
        low_part-lt (suc n) p,
      )

  pub contains-gt_loop_lt : (n p : ℕ) → Above n p
  contains-gt_loop_lt zero p = gt_loop_last p
  contains-gt_loop_lt (suc n) p = gt_loop_round n p (contains-gt_loop_lt n p)
