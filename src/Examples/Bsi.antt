-- ===== src/Examples/Bsi.antt =====
-- A field of three bits: column 1 holds 5, column 2 holds -3, column 3 holds 0, column 7 holds -1.
use pilosa.Common.{ℕ, zero, suc, ◌≡◌, refl, List, [], ◌∷◌, false, ◌&&◌, arith, none, inr}
use pilosa.Common.Int.{pos, negsuc, leb_ℤ, ltb_ℤ}
use pilosa.Pql.Token.{Token}
use pilosa.Roaring.Sorted.{AscendingFrom}
use pilosa.Roaring.Rows.{array_rows}
use pilosa.Row.{RowOps}
use pilosa.Fragment.Bsi.{bsi_exists_bit, magnitude}
use pilosa.Fragment.Range.{range_op, range_lt, range_gt, range_between}
use pilosa.Fragment.Range.Compare.{
  signed, IsWellFormed, contains-range_lt_edge, contains-range_gt_edge,
}
use pilosa.Fragment.Range.Between.{contains-range_between}
use pilosa.Fragment.Range.Operator.{holds, member_of, range_op-holds}
use pilosa.Fragment.Extreme.{min, max}
use pilosa.Fragment.Extreme.Minimum.{IsMin, min-IsMin}
use pilosa.Fragment.Extreme.Maximum.{IsMax, max-IsMax}

abbrev Columns : Type 0
Columns = (xs : List ℕ) × AscendingFrom 0 xs

abbrev rows : ℕ → Columns
rows zero = (1 ∷ 2 ∷ 3 ∷ 7 ∷ [], omega arith)
rows (suc zero) = (2 ∷ 7 ∷ [], omega arith)
rows (suc (suc zero)) = (1 ∷ 2 ∷ 7 ∷ [], omega arith)
rows (suc (suc (suc zero))) = (2 ∷ [], omega arith)
rows (suc (suc (suc (suc zero)))) = (1 ∷ [], omega arith)
rows _ = ([], tt)

unfoldable pub R : RowOps
R = array_rows

unfoldable pub row : ℕ → R.Row
unfolding R array_rows
row = rows

pub rows-IsWellFormed : IsWellFormed R row 3
unfolding R array_rows row magnitude
rows-IsWellFormed = record {
  negative-exists = λ c h. ground arith;
  negative_pos = λ c h. ground arith;
}

range_op-holds_example :
    member_of (λ r. R.contains r 2) (range_op R row Token.lt 3 (pos 2))
    ≡ member_of
        (λ h. R.contains (row bsi_exists_bit) 2 && h)
        (holds Token.lt (signed R row 3 2) (pos 2))
range_op-holds_example =
    range_op-holds R row 2 (pos 2) 2 Token.lt rows-IsWellFormed (omega arith)
      (ground arith, ground arith)

range_lt_edge_example :
    R.contains (range_lt R row 3 (negsuc 0) false) 3
    ≡ (R.contains (row bsi_exists_bit) 3 && leb_ℤ (signed R row 3 3) (pos 0))
range_lt_edge_example =
    contains-range_lt_edge R row 2 rows-IsWellFormed (negsuc 0) (omega arith) 3 (inr refl)

range_gt_edge_example :
    R.contains (range_gt R row 3 (negsuc 0) false) 3
    ≡ (R.contains (row bsi_exists_bit) 3 && ltb_ℤ (pos 1) (signed R row 3 3))
range_gt_edge_example =
    contains-range_gt_edge R row 2 rows-IsWellFormed (negsuc 0) (omega arith) 3 refl

range_between_example : R.contains (range_between R row 3 (negsuc 2) (pos 4)) 7 ≡ (
    R.contains (row bsi_exists_bit) 7
    && (leb_ℤ (negsuc 2) (signed R row 3 7) && leb_ℤ (signed R row 3 7) (pos 4)))
range_between_example =
    contains-range_between R row 3 rows-IsWellFormed (negsuc 2) (pos 4) 7 (ground arith)
      (omega arith) (omega arith)

min-IsMin_example : IsMin R row none 3 (min R row none 3).0 (min R row none 3).1
unfolding R array_rows row
min-IsMin_example = min-IsMin R row 2 (omega arith) rows-IsWellFormed none (1, refl)

max-IsMax_example : IsMax R row none 3 (max R row none 3).0 (max R row none 3).1
unfolding R array_rows row
max-IsMax_example = max-IsMax R row 2 (omega arith) rows-IsWellFormed none (1, refl)
