-- ===== src/Examples/Fields.antt =====
-- Integer fields at concrete inputs: the three-bit field of Bsi, whose values have the base 100.
use pilosa.Common.{◌≡◌, refl, [], ◌∷◌, true, false, ◌&&◌, arith, none, some}
use pilosa.Common.Int.{pos, negsuc, leb_ℤ, ltb_ℤ, ◌+ℤ◌, ◌-ℤ◌}
use pilosa.Pql.Token.{Token}
use pilosa.Pql.Condition.{Value, Element}
use pilosa.Field.Group.{BsiGroup, bsi_base, bit_depth_min, bit_depth_max}
use pilosa.Fragment.Bsi.{bsi_exists_bit, magnitude-lt}
use pilosa.Executor.RowBsi.{execute_condition}
use pilosa.Executor.RowBsi.Compare.{IsField, IsRight, reachable, actual, answer_member}
use pilosa.Executor.RowBsi.Results.{execute_condition-IsRight, execute_condition-below_bounds}
use pilosa.Executor.RowBsi.Between.{execute_condition-between}
use pilosa.Fragment.State.{
  set_bit, clear_bit, set_stored, clear_stored, after_change, bit, position, place,
}
use pilosa.Fragment.Value.{value, set_value, set_value_base, read_bits, put_bit, put_bits}
use pilosa.Field.Depth.{bit_depth_int64, bit_depth, bit_depth_loop}
use pilosa.Common.Int64.{int64}
use pilosa.Field.Values.{
  IntField, Disk, done, set_field_value, field_value, read_in_group, store, set_in_group,
}
use pilosa.Examples.Fragments.{D, start, count_from, eight-IsShardWidth}
use pilosa.Fragment.Range.Operator.{IsExact}
use pilosa.Field.Values.RoundTrip.{field_value-set_field_value}
use pilosa.Examples.Bsi.{R, row, rows-IsWellFormed}

program : Unit {0}
unfolding set_value value read_bits put_bit put_bits set_value_base bit position set_bit clear_bit
    set_stored clear_stored after_change place count_from set_field_value field_value read_in_group
    store set_in_group bit_depth_int64 bit_depth bit_depth_loop int64 ◌-ℤ◌ ◌+ℤ◌
program = tt

abbrev group : BsiGroup
group = record { min = pos 50; max = pos 150; base = pos 100; bit_depth = 3 }

group-IsField : IsField R row group
unfolding ◌+ℤ◌
group-IsField = record {
  bounded = record { shallow = omega arith; base_low = omega arith; base_high = omega arith };
  deep = omega arith;
  well_formed = rows-IsWellFormed;
  at_least = λ c h. ground (arith, magnitude-lt R row 3 c);
  at_most = λ c h. ground (arith, magnitude-lt R row 3 c);
}

reached : reachable group Token.lt (pos 102) ≡ true
unfolding bit_depth_max bit_depth_min int64 ◌-ℤ◌ ◌+ℤ◌
reached = refl

low : leb_ℤ (pos 60) (bit_depth_min group) ≡ true
unfolding bit_depth_max bit_depth_min int64 ◌-ℤ◌ ◌+ℤ◌
low = refl

execute_condition-IsRight_example :
    IsRight R row group 2 Token.lt
      (pos 102)
      (execute_condition R (some group) (some row) Token.lt (Value.int (pos 102)))
unfolding ◌-ℤ◌
execute_condition-IsRight_example =
    execute_condition-IsRight R row group group-IsField 2 (pos 102) Token.lt reached exact
  where
    exact : IsExact Token.lt (pos 102 -ℤ pos 100)
    exact = (ground arith, ground arith)

execute_condition-below_bounds_example :
    (answer_member R 2 (execute_condition R (some group) (some row) Token.gt (Value.int (pos 60)))
      ≡ some (R.contains (row bsi_exists_bit) 2 && ltb_ℤ (pos 100) (actual R row group 2)))
    × (answer_member R 2
          (execute_condition R (some group) (some row) Token.gte (Value.int (pos 60)))
        ≡ some (R.contains (row bsi_exists_bit) 2 && leb_ℤ (pos 100) (actual R row group 2)))
execute_condition-below_bounds_example =
    execute_condition-below_bounds R row group group-IsField 2 (pos 60) low refl

execute_condition-between_example :
    answer_member R 2 (
      execute_condition R
        (some group)
        (some row)
        Token.between
        (Value.list (Element.int64 (pos 90) ∷ Element.int64 (pos 101) ∷ [])))
    ≡ some (
        R.contains (row bsi_exists_bit) 2
        && (leb_ℤ (pos 90) (actual R row group 2) && leb_ℤ (actual R row group 2) (pos 101)))
execute_condition-between_example =
    execute_condition-between R row group group-IsField 2 (pos 90) (pos 101) refl

abbrev signed_group : BsiGroup
signed_group = record { min = negsuc 999; max = pos 1000; base = pos 0; bit_depth = 1 }

abbrev signed_field : IntField D
signed_field = record { group = some signed_group; has_view = false; fragments = λ s. none }

abbrev disk : Disk D
disk = record { saves_meta = true; opens_view = true; opens_fragment = λ s. some start }

stored : (set_field_value D 8 disk signed_field 13 (negsuc 4)).1 ≡ done true
unfolding program
stored = refl

field_value-set_field_value_example :
    (field_value D 8 disk (set_field_value D 8 disk signed_field 13 (negsuc 4)).0 13).1
    ≡ done (some (negsuc 4))
unfolding ◌-ℤ◌
field_value-set_field_value_example =
    field_value-set_field_value D 8 disk eight-IsShardWidth signed_field signed_group 13 (negsuc 4)
      true refl is_base (omega arith) (omega arith) (omega arith) stored
  where
    is_base : pos 0 ≡ bsi_base (negsuc 999) (pos 1000)
    is_base = unfold bsi_base in refl
