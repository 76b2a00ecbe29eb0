-- ===== src/View.antt =====
-- view.go: a view asks each of its fragments, given by their rows, and combines the answers.
pub mod Range
pub mod Extreme
use pilosa.Common.{
  ℕ, zero, suc, ◌+◌, ◌%◌, List, [], ◌∷◌, Bool, true, false, ltb, ◌==◌, if◌then◌else◌, Option, none,
  some, add64,
}
use pilosa.Common.Int.{ℤ, pos, ltb_ℤ}
use pilosa.Pql.Token.{Token}
use pilosa.Row.{RowOps}
use pilosa.Fragment.Range.{range_op}
use pilosa.Fragment.Extreme.{min, max}

-- The loop of `view.min` over the fragments' answers: min, count and minHasValue so far.
unfoldable pub min_answers : List (ℤ × ℕ) → ℤ → ℕ → Bool → ℤ × ℕ
min_answers [] best n has_value = (best, n)
min_answers ((fmin, fcount) ∷ answers) best n has_value =
    let same = min_answers answers best n has_value in
    let first = min_answers answers fmin (add64 n fcount) true in
    if fcount == 0
    then same
    else if has_value
    then (if ltb_ℤ fmin best then first else same)
    else first

module _ (R : RowOps) where
  open R use {Row, empty, union}

  abbrev pub answers : ((ℕ → Row) → ℤ × ℕ) → List (ℕ → Row) → List (ℤ × ℕ)
  answers ask [] = []
  answers ask (row ∷ rows) = ask row ∷ answers ask rows

  pub view_min : List (ℕ → Row) → Option Row → ℕ → ℤ × ℕ
  view_min fragments filter depth =
      min_answers (answers (λ row. min R row filter depth) fragments) (pos 0) 0 false

  -- The loop of `view.rangeOp`.
  abbrev pub union_answer : Option Row → Row → (Row → Option Row) → Option Row
  union_answer none r next = none
  union_answer (some other) r next = next (union r other)

  unfoldable pub range_loop : Token → ℕ → ℤ → List (ℕ → Row) → Row → Option Row
  range_loop op depth predicate [] r = some r
  range_loop op depth predicate (row ∷ rows) r =
      union_answer (range_op R row op depth predicate) r (range_loop op depth predicate rows)

  unfoldable pub view_range_op : List (ℕ → Row) → Token → ℕ → ℤ → Option Row
  view_range_op fragments op depth predicate = range_loop op depth predicate fragments empty
