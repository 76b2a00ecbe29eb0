-- ===== src/Pql/Condition.antt =====
-- pql/ast.go: a condition on a field, and the list of integers that BETWEEN takes.
use pilosa.Common.{ℕ, List, [], ◌∷◌, Option, none, some}
use pilosa.Common.Int.{ℤ}
use pilosa.Common.Int64.{of_bits64}
use pilosa.Pql.Token.{Token}

-- An element of a list of values; a uint64 is below 2^64.
pub data Element : Type 0 where
  int64 : ℤ → Element
  uint64 : ℕ → Element
  other : Element

pub data Value : Type 0 where
  null : Value
  int : ℤ → Value
  list : List Element → Value
  other : Value

pub record Condition : Type 0 where
  pub op : Token
  pub value : Value

-- The loop of `IntSliceValue`; `none` is its error.
abbrev pub int_elements : List Element → Option (List ℤ)
int_elements [] = some []
int_elements (Element.int64 v ∷ rest) = elim (int_elements rest) [
  | none ↦ none
  | some vs ↦ some (v ∷ vs)
]
int_elements (Element.uint64 v ∷ rest) = elim (int_elements rest) [
  | none ↦ none
  | some vs ↦ some (of_bits64 v ∷ vs)
]
int_elements (Element.other ∷ rest) = none

unfoldable pub int_slice_value : Value → Option (List ℤ)
int_slice_value (Value.list elements) = int_elements elements
int_slice_value _ = none
