-- ===== src/View/Range.antt =====
-- `rangeOp` of view.go answers for all the fragments of a view.
use pilosa.Common.{
  ℕ, suc, ◌^◌, ◌<◌, ◌≡◌, refl, ◌∙◌, List, [], ◌∷◌, Bool, false, ◌&&◌, ◌||◌, Option, none, some,
  arith,
}
use pilosa.Common.Int.{ℤ, abs_ℕ}
use pilosa.Pql.Token.{Token}
use pilosa.Row.{RowOps}
use pilosa.Fragment.Bsi.{bsi_exists_bit}
use pilosa.Fragment.Range.{range_op}
use pilosa.Fragment.Range.Compare.{signed, IsWellFormed}
use pilosa.Fragment.Range.Operator.{holds, IsExact, member_of, range_op-holds}
use pilosa.View.{union_answer, range_loop, view_range_op}

abbrev or_holds : Option Bool → Option Bool → Option Bool
or_holds none b = none
or_holds (some a) none = none
or_holds (some a) (some b) = some (a || b)

module _ (R : RowOps) where
  open R use {Row, contains, contains-union, contains-empty}

  abbrev pub AreWellFormed : ℕ → List (ℕ → Row) → Type 0
  AreWellFormed depth [] = Unit
  AreWellFormed depth (row ∷ rows) = IsWellFormed R row depth × AreWellFormed depth rows

  -- Whether some fragment's column holds a value that the comparison holds of.
  abbrev pub any_holds : Token → ℕ → ℤ → ℕ → List (ℕ → Row) → Option Bool
  any_holds op depth p c [] = some false
  any_holds op depth p c (row ∷ rows) =
      or_holds
        (member_of (λ h. contains (row bsi_exists_bit) c && h) (holds op (signed R row depth c) p))
        (any_holds op depth p c rows)

  union_answer_lem :
      (c : ℕ) (o : Option Row) (r : Row) (next : Row → Option Row) (h rest : Option Bool)
      → member_of (λ r. contains r c) o ≡ h
      → ((s : Row) → member_of (λ r. contains r c) (next s) ≡ or_holds (some (contains s c)) rest)
      → member_of (λ r. contains r c) (union_answer R o r next)
        ≡ or_holds (some (contains r c)) (or_holds h rest)
  union_answer_lem c none r next none rest e k = refl
  union_answer_lem c none r next (some b) rest e k = ground arith
  union_answer_lem c (some o) r next none rest e k = ground arith
  union_answer_lem c (some o) r next (some b) none e k = k (R.union r o)
  union_answer_lem c (some o) r next (some b) (some d) e k =
      ground (arith, k (R.union r o), contains-union r o c, e)

  range_loop_lem :
      (n : ℕ) (p : ℤ) (c : ℕ) (op : Token) (rows : List (ℕ → Row)) (r : Row)
      → AreWellFormed (suc n) rows
      → abs_ℕ p < 2 ^ suc n
      → IsExact op p
      → member_of (λ r. contains r c) (range_loop R op (suc n) p rows r)
        ≡ or_holds (some (contains r c)) (any_holds op (suc n) p c rows)
  unfolding range_loop
  range_loop_lem n p c op [] r wf fits x = ground arith
  range_loop_lem n p c op (row ∷ rows) r wf fits x =
      union_answer_lem c (range_op R row op (suc n) p) r (range_loop R op (suc n) p rows)
        (member_of (λ h. contains (row bsi_exists_bit) c && h)
          (holds op (signed R row (suc n) c) p))
        (any_holds op (suc n) p c rows) (range_op-holds R row n p c op wf.0 fits x)
        (λ s. range_loop_lem n p c op rows s wf.1 fits x)

  or_false : (o : Option Bool) (b : Bool) → b ≡ false → or_holds (some b) o ≡ o
  or_false none b e = refl
  or_false (some a) b e = ground arith

  -- At a bit depth of at least one, on well-formed fragments and for a predicate whose absolute
  -- value fits the depth, rangeOp of a view returns a row that contains a column exactly if in
  -- some fragment the column holds a value and the comparison holds of that value and the
  -- predicate, and the error if there is a fragment and the operator is no comparison; < is taken
  -- away from the predicates 0 and -1, and > away from -1.
  pub view_range_op-holds :
      (n : ℕ) (p : ℤ) (c : ℕ) (op : Token) (fragments : List (ℕ → Row))
      → AreWellFormed (suc n) fragments
      → abs_ℕ p < 2 ^ suc n
      → IsExact op p
      → member_of (λ r. contains r c) (view_range_op R fragments op (suc n) p)
        ≡ any_holds op (suc n) p c fragments
  unfolding view_range_op
  view_range_op-holds n p c op fragments wf fits x =
      range_loop_lem n p c op fragments R.empty wf fits x
      ∙ or_false (any_holds op (suc n) p c fragments) (contains R.empty c) (contains-empty c)
