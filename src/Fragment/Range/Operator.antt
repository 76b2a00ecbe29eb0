-- ===== src/Fragment/Range/Operator.antt =====
-- `rangeOp` as a whole: each comparison is answered with the columns for which it holds.
use pilosa.Common.{ℕ, suc, ◌^◌, ◌<◌, ◌≡◌, ◌≢◌, refl, ap, Bool, not, ◌&&◌, Option, none, some}
use pilosa.Common.Int.{ℤ, pos, negsuc, ltb_ℤ, leb_ℤ, eq_ℤ, abs_ℕ}
use pilosa.Pql.Token.{Token}
use pilosa.Row.{RowOps}
use pilosa.Fragment.Bsi.{bsi_exists_bit}
use pilosa.Fragment.Range.{range_op}
use pilosa.Fragment.Range.Compare.{
  signed, IsWellFormed, contains-range_eq, contains-range_neq, contains-range_lt,
  contains-range_lte, contains-range_gt, contains-range_gte,
}

-- What an operator says of a value and a predicate; `none` for no comparison.
abbrev pub holds : Token → ℤ → ℤ → Option Bool
holds Token.eq a p = some (eq_ℤ a p)
holds Token.neq a p = some (not (eq_ℤ a p))
holds Token.lt a p = some (ltb_ℤ a p)
holds Token.lte a p = some (leb_ℤ a p)
holds Token.gt a p = some (ltb_ℤ p a)
holds Token.gte a p = some (leb_ℤ p a)
holds _ a p = none

-- The strict comparisons are exact away from -1, and `<` away from 0 too.
abbrev pub IsExact : Token → ℤ → Type 0
IsExact Token.lt p = (p ≢ pos 0) × (p ≢ negsuc 0)
IsExact Token.gt p = p ≢ negsuc 0
IsExact _ p = Unit

abbrev pub member_of {ℓ} : {A : Type ℓ} → (A → Bool) → Option A → Option Bool
member_of f none = none
member_of f (some r) = some (f r)

module _ (R : RowOps) (row : ℕ → R.Row) where
  open R use {contains}

  -- At a bit depth of at least one and on a well-formed field, rangeOp with a predicate whose
  -- absolute value fits the depth answers each comparison operator with a row that contains a
  -- column exactly if the column holds a value and the comparison holds of that value and the
  -- predicate, and answers any other operator with the error; the strict comparison < is taken
  -- away from the predicates 0 and -1, and > away from -1.
  pub range_op-holds :
      (n : ℕ) (p : ℤ) (c : ℕ) (op : Token)
      → IsWellFormed R row (suc n)
      → abs_ℕ p < 2 ^ suc n
      → IsExact op p
      → member_of (λ r. contains r c) (range_op R row op (suc n) p)
        ≡ member_of
            (λ h. contains (row bsi_exists_bit) c && h)
            (holds op (signed R row (suc n) c) p)
  unfolding range_op
  range_op-holds n p c Token.illegal wf fits x = refl
  range_op-holds n p c Token.assign wf fits x = refl
  range_op-holds n p c Token.between wf fits x = refl
  range_op-holds n p c Token.eq wf fits x = ap some (contains-range_eq R row (suc n) wf p fits c)
  range_op-holds n p c Token.neq wf fits x = ap some (contains-range_neq R row (suc n) wf p fits c)
  range_op-holds n p c Token.lt wf fits x = ap some (contains-range_lt R row n wf p fits c x.0 x.1)
  range_op-holds n p c Token.lte wf fits x = ap some (contains-range_lte R row (suc n) wf p fits c)
  range_op-holds n p c Token.gt wf fits x = ap some (contains-range_gt R row n wf p fits c x)
  range_op-holds n p c Token.gte wf fits x = ap some (contains-range_gte R row (suc n) wf p fits c)
