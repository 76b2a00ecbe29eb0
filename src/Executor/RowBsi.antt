-- ===== src/Executor/RowBsi.antt =====
-- `executeRowBSIGroupShard` of executor.go: a condition on an integer field, on one shard. The
-- holder gives a field (with its group, if it has one) and the fragment of a field's integers in
-- the shard; names are numbers. Tracing and statistics are left out.
pub mod Offset
pub mod Compare
pub mod Operators
pub mod Results
pub mod Between
use pilosa.Common.{
  ℕ, zero, suc, List, [], ◌∷◌, Bool, true, false, not, ◌&&◌, ◌||◌, if◌then◌else◌, Option, none,
  some,
}
use pilosa.Common.Int.{ℤ, pos, ltb_ℤ, leb_ℤ}
use pilosa.Common.Int64.{of_bits64}
use pilosa.Pql.Token.{Token}
use pilosa.Pql.Condition.{Condition, Value, int_slice_value}
use pilosa.Row.{RowOps}
use pilosa.Field.Group.{BsiGroup, base_value, base_value_between}
use pilosa.Fragment.Range.{range_op, range_between, not_null}

pub data Failure : Type 0 where
  condition_required too_many_arguments expected_condition field_not_found group_not_found
        bad_values not_two_values not_an_integer invalid_operation :
      Failure

pub data Answer (A : Type 0) : Type 0 where
  answer : A → Answer A
  failure : Failure → Answer A

-- An argument of the call: a condition, or another value.
pub data Argument : Type 0 where
  condition : Condition → Argument
  other : Argument

abbrev pub is_neq : Token → Bool
is_neq Token.neq = true
is_neq _ = false

-- Whether the range of the condition takes in the whole range of the group.
abbrev pub covers : BsiGroup → Token → ℤ → Bool
covers g Token.lt value = ltb_ℤ g.max value
covers g Token.lte value = leb_ℤ g.max value
covers g Token.gt value = ltb_ℤ value g.min
covers g Token.gte value = leb_ℤ value g.min
covers g _ value = false

module _ (R : RowOps) where
  open R use {Row, empty}

  abbrev pub or_invalid : Option Row → Answer Row
  or_invalid none = failure invalid_operation
  or_invalid (some r) = answer r

  -- The fragment is missing: `NewRow()`.
  abbrev pub in_fragment : Option (ℕ → Row) → ((ℕ → Row) → Answer Row) → Answer Row
  in_fragment none ask = answer empty
  in_fragment (some row) ask = ask row

  unfoldable pub execute_not_null : Option BsiGroup → Option (ℕ → Row) → Answer Row
  execute_not_null none frag = failure group_not_found
  execute_not_null (some g) frag = in_fragment frag (λ row. answer (not_null R row))

  unfoldable pub execute_between : BsiGroup → Option (ℕ → Row) → ℤ → ℤ → Answer Row
  execute_between g frag lo hi =
      let (base_lo, base_hi, out_of_range) = base_value_between g lo hi in
      if out_of_range
      then answer empty
      else in_fragment frag (λ row.
        if leb_ℤ lo g.min && leb_ℤ g.max hi
        then answer (not_null R row)
        else answer (range_between R row g.bit_depth base_lo base_hi))

  -- What follows `baseValue`.
  abbrev pub compare_base : BsiGroup → Option (ℕ → Row) → Token → ℤ → ℤ × Bool → Answer Row
  compare_base g frag op value (base, out_of_range) =
      if out_of_range && not (is_neq op)
      then answer empty
      else in_fragment frag (λ row.
        if covers g op value
        then answer (not_null R row)
        else if out_of_range && is_neq op
        then answer (not_null R row)
        else or_invalid (range_op R row op g.bit_depth base))

  unfoldable pub execute_compare : BsiGroup → Option (ℕ → Row) → Token → ℤ → Answer Row
  execute_compare g frag op value = compare_base g frag op value (base_value g op value)

  abbrev pub between_values : Option BsiGroup → Option (ℕ → Row) → Option (List ℤ) → Answer Row
  between_values group frag none = failure bad_values
  between_values none frag (some (lo ∷ hi ∷ [])) = failure group_not_found
  between_values (some g) frag (some (lo ∷ hi ∷ [])) = execute_between g frag lo hi
  between_values group frag (some _) = failure not_two_values

  abbrev pub compare_value : Option BsiGroup → Option (ℕ → Row) → Token → Value → Answer Row
  compare_value none frag op (Value.int value) = failure group_not_found
  compare_value (some g) frag op (Value.int value) = execute_compare g frag op value
  compare_value group frag op _ = failure not_an_integer

  -- The three branches, on a field with its group and fragment.
  unfoldable pub execute_condition : Option BsiGroup → Option (ℕ → Row) → Token → Value → Answer Row
  execute_condition group frag Token.neq Value.null = execute_not_null group frag
  execute_condition group frag Token.between value =
      between_values group frag (int_slice_value value)
  execute_condition group frag op value = compare_value group frag op value

  abbrev pub execute_field : Option (Option BsiGroup) → Option (ℕ → Row) → Condition → Answer Row
  execute_field none frag c = failure field_not_found
  execute_field (some group) frag c = execute_condition group frag c.op c.value

  unfoldable pub execute_row_bsi :
      (ℕ → Option (Option BsiGroup)) → (ℕ → Option (ℕ → Row)) → List (ℕ × Argument) → Answer Row
  execute_row_bsi field fragment [] = failure condition_required
  execute_row_bsi field fragment ((name, other) ∷ []) = failure expected_condition
  execute_row_bsi field fragment ((name, condition c) ∷ []) =
      execute_field (field name) (fragment name) c
  execute_row_bsi field fragment (a ∷ b ∷ rest) = failure too_many_arguments
