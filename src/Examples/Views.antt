-- ===== src/Examples/Views.antt =====
-- A view of two fragments at concrete inputs.
use pilosa.Common.{ℕ, true, false, ◌≡◌, refl, List, [], ◌∷◌, arith, none}
use pilosa.Common.Int.{pos, negsuc}
use pilosa.Pql.Token.{Token}
use pilosa.Roaring.Rows.{array_rows}
use pilosa.Fragment.Extreme.{min}
use pilosa.Fragment.Extreme.Minimum.{min-IsMin}
use pilosa.Fragment.Range.Operator.{member_of}
use pilosa.View.{answers, min_answers, view_min, view_range_op}
use pilosa.View.Range.{any_holds, view_range_op-holds}
use pilosa.View.Extreme.{IsLeastOf, some_counts, view_min-IsLeastOf}
use pilosa.Examples.Bsi.{R, row, rows-IsWellFormed}

abbrev fragments : List (ℕ → R.Row)
fragments = row ∷ row ∷ []

min_answers_test :
    min_answers ((pos 4, 2) ∷ (pos 0, 0) ∷ (negsuc 0, 1) ∷ []) (pos 0) 0 false ≡ (negsuc 0, 3)
unfolding min_answers
min_answers_test = refl

view_range_op-holds_example :
    member_of (λ r. R.contains r 2) (view_range_op R fragments Token.lt 3 (pos 2))
    ≡ any_holds R Token.lt 3 (pos 2) 2 fragments
view_range_op-holds_example =
    view_range_op-holds R 2 (pos 2) 2 Token.lt fragments
      (rows-IsWellFormed, (rows-IsWellFormed, tt)) (omega arith) (ground arith, ground arith)

counts : some_counts (answers R (λ row. min R row none 3) fragments) ≡ true
unfolding R array_rows row
counts =
    let m = min-IsMin R row 2 (omega arith) rows-IsWellFormed none (1, refl) in
    ground (
      arith,
      m.counted,
      m.columns m.winner,
      m.attained,
      m.value,
      R.count-pos_of_contains m.winners m.winner,
    )

view_min-IsLeastOf_example :
    IsLeastOf (answers R (λ row. min R row none 3) fragments) (view_min R fragments none 3).0
view_min-IsLeastOf_example = view_min-IsLeastOf R fragments none 3 counts
