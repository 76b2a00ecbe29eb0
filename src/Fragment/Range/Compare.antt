-- ===== src/Fragment/Range/Compare.antt =====
-- The range queries return the columns whose value compares as asked.
use pilosa.Common.{
  ℕ, suc, ◌^◌, ◌<◌, ◌≡◌, ◌≢◌, ◌⊎◌, true, false, not, ◌&&◌, arith, if◌then◌else◌, low_part_of_lt,
}
use pilosa.Common.Int.{ℤ, pos, negsuc, ltb_ℤ, leb_ℤ, eq_ℤ, abs_ℕ, sub_ℕ}
use pilosa.Row.{RowOps}
use pilosa.Fragment.Bsi.{
  bsi_exists_bit, bsi_sign_bit, magnitude, range_lt_unsigned, range_gt_unsigned,
}
use pilosa.Fragment.Bsi.Loops.{
  contains-eq_loop, contains-lt_loop_leading, contains-lt_loop-Leading, contains-gt_loop_le,
  contains-gt_loop_lt,
}
use pilosa.Fragment.Range.{range_eq, range_neq, range_lt, range_gt}

module _ (R : RowOps) (row : ℕ → R.Row) where
  open R use {
    Row, contains, empty, intersect, union, difference, contains-empty, contains-intersect,
    contains-union, contains-difference,
  }

  -- The value of a column at a bit depth, as `fragment.value` reads it.
  abbrev pub signed : ℕ → ℕ → ℤ
  signed depth c =
      if contains (row bsi_sign_bit) c
      then sub_ℕ 0 (magnitude R row depth c)
      else pos (magnitude R row depth c)

  -- A negative column holds a value, and not zero.
  pub record IsWellFormed (depth : ℕ) : Type 0 where
    pub negative-exists :
        (c : ℕ) → contains (row bsi_sign_bit) c ≡ true → contains (row bsi_exists_bit) c ≡ true
    pub negative_pos : (c : ℕ) → contains (row bsi_sign_bit) c ≡ true → 0 < magnitude R row depth c

  module _ (depth : ℕ) (wf : IsWellFormed depth) (p : ℤ) (fits : abs_ℕ p < 2 ^ depth) (c : ℕ) where
    pub contains-range_eq :
        contains (range_eq R row depth p) c
        ≡ (contains (row bsi_exists_bit) c && eq_ℤ (signed depth c) p)
    unfolding range_eq
    contains-range_eq =
        let b = row bsi_exists_bit in
        let sign = row bsi_sign_bit in
        ground (
          arith,
          contains-eq_loop R row c depth (abs_ℕ p) (intersect b sign),
          contains-eq_loop R row c depth (abs_ℕ p) (difference b sign),
          contains-intersect b sign c,
          contains-difference b sign c,
          low_part_of_lt depth (abs_ℕ p) fits,
          wf.negative_pos c,
        )

    pub contains-range_neq :
        contains (range_neq R row depth p) c
        ≡ (contains (row bsi_exists_bit) c && not (eq_ℤ (signed depth c) p))
    unfolding range_neq
    contains-range_neq = ground (
      arith,
      contains-range_eq,
      contains-difference (row bsi_exists_bit) (range_eq R row depth p) c,
    )

    pub contains-range_lte :
        contains (range_lt R row depth p true) c
        ≡ (contains (row bsi_exists_bit) c && leb_ℤ (signed depth c) p)
    unfolding range_lt range_lt_unsigned range_gt_unsigned
    contains-range_lte =
        let b = row bsi_exists_bit in
        let sign = row bsi_sign_bit in
        let u = abs_ℕ p in
        ground (
          arith,
          contains-lt_loop_leading R row c depth u (difference b sign),
          contains-gt_loop_le R row c depth u (intersect b sign) empty,
          contains-union sign (range_lt_unsigned R row (difference b sign) depth u true) c,
          contains-intersect b sign c,
          contains-difference b sign c,
          contains-empty c,
          low_part_of_lt depth u fits,
          wf.negative_pos c,
          wf.negative-exists c,
        )

    pub contains-range_gte :
        contains (range_gt R row depth p true) c
        ≡ (contains (row bsi_exists_bit) c && leb_ℤ p (signed depth c))
    unfolding range_gt range_lt_unsigned range_gt_unsigned
    contains-range_gte =
        let b = row bsi_exists_bit in
        let sign = row bsi_sign_bit in
        let u = abs_ℕ p in
        ground (
          arith,
          contains-lt_loop_leading R row c depth u (intersect b sign),
          contains-gt_loop_le R row c depth u (difference b sign) empty,
          contains-union (difference b sign)
              (range_lt_unsigned R row (intersect b sign) depth u true) c,
          contains-intersect b sign c,
          contains-difference b sign c,
          contains-empty c,
          low_part_of_lt depth u fits,
          wf.negative_pos c,
          wf.negative-exists c,
        )

  module _ (n : ℕ) (wf : IsWellFormed (suc n)) (p : ℤ) (fits : abs_ℕ p < 2 ^ suc n) (c : ℕ) where
    abbrev U : ℕ
    U = abs_ℕ p

    abbrev B : Row
    B = row bsi_exists_bit

    abbrev S : Row
    S = row bsi_sign_bit

    pub contains-range_lt :
        p ≢ pos 0
        → p ≢ negsuc 0
        → contains (range_lt R row (suc n) p false) c ≡ (contains B c && ltb_ℤ (signed (suc n) c) p)
    unfolding range_lt range_lt_unsigned range_gt_unsigned
    contains-range_lt h k = ground (
      arith,
      contains-lt_loop-Leading R row c (suc n) U (difference B S),
      contains-gt_loop_lt R row c n U (intersect B S) empty,
      contains-union S (range_lt_unsigned R row (difference B S) (suc n) U false) c,
      contains-intersect B S c,
      contains-difference B S c,
      contains-empty c,
      low_part_of_lt (suc n) U fits,
      wf.negative_pos c,
      wf.negative-exists c,
    )

    -- At a bit depth of at least one, on a well-formed field and for the predicates 0 and -1 that
    -- fit the depth, rangeLT without equality returns the columns whose value is at most 0.
    pub contains-range_lt_edge :
        (p ≡ pos 0) ⊎ (p ≡ negsuc 0)
        → contains (range_lt R row (suc n) p false) c
          ≡ (contains B c && leb_ℤ (signed (suc n) c) (pos 0))
    unfolding range_lt range_lt_unsigned range_gt_unsigned
    contains-range_lt_edge h = ground (
      arith,
      contains-lt_loop-Leading R row c (suc n) U (difference B S),
      contains-union S (range_lt_unsigned R row (difference B S) (suc n) U false) c,
      contains-difference B S c,
      low_part_of_lt (suc n) U fits,
      wf.negative_pos c,
      wf.negative-exists c,
    )

    pub contains-range_gt :
        p ≢ negsuc 0
        → contains (range_gt R row (suc n) p false) c ≡ (contains B c && ltb_ℤ p (signed (suc n) c))
    unfolding range_gt range_lt_unsigned range_gt_unsigned
    contains-range_gt k = ground (
      arith,
      contains-lt_loop-Leading R row c (suc n) U (intersect B S),
      contains-gt_loop_lt R row c n U (difference B S) empty,
      contains-union (difference B S) (range_lt_unsigned R row (intersect B S) (suc n) U false) c,
      contains-intersect B S c,
      contains-difference B S c,
      contains-empty c,
      low_part_of_lt (suc n) U fits,
      wf.negative_pos c,
      wf.negative-exists c,
    )

    -- At a bit depth of at least one, on a well-formed field and for the predicate -1 that fits
    -- the depth, rangeGT without equality returns the columns whose value is above 1.
    pub contains-range_gt_edge :
        p ≡ negsuc 0
        → contains (range_gt R row (suc n) p false) c
          ≡ (contains B c && ltb_ℤ (pos 1) (signed (suc n) c))
    unfolding range_gt range_lt_unsigned range_gt_unsigned
    contains-range_gt_edge k = ground (
      arith,
      contains-gt_loop_lt R row c n U (difference B S) empty,
      contains-difference B S c,
      contains-empty c,
      low_part_of_lt (suc n) U fits,
      wf.negative_pos c,
      wf.negative-exists c,
    )
