-- ===== src/Executor/RowBsi/Results.antt =====
-- What a comparison on an integer field answers as a whole, and where it goes wrong.
use pilosa.Common.{ℕ, ◌<◌, pow_pos, ◌≡◌, refl, ap, sym, ◌∙◌, true, false, ◌&&◌, some, arith, leb}
use pilosa.Common.Int.{ℤ, pos, abs_ℕ, pos_part, ltb_ℤ, leb_ℤ, ◌-ℤ◌, ◌+ℤ◌}
use pilosa.Pql.Token.{Token}
use pilosa.Pql.Condition.{Value, int_slice_value}
use pilosa.Row.{RowOps}
use pilosa.Field.Group.{BsiGroup, base_value, bit_depth_min}
use pilosa.Field.Group.Bounds.{bit_depth_min_lem}
use pilosa.Fragment.Range.{range_op}
use pilosa.Fragment.Range.Operator.{holds, IsExact, member_of}
use pilosa.Executor.RowBsi.{or_invalid, covers, compare_base, execute_compare, execute_condition}
use pilosa.Executor.RowBsi.Offset.{holds-add}
use pilosa.Executor.RowBsi.Compare.{answer_member, actual, reachable, IsField, IsRight}
use pilosa.Executor.RowBsi.Compare
use pilosa.Executor.RowBsi.Operators

module _ (R : RowOps) (row : ℕ → R.Row) (g : BsiGroup) (f : IsField R row g) (c : ℕ) (v : ℤ) where
  abbrev q : ℕ
  q = Compare.q R row g f c

  -- The answer of rangeOp for a predicate that fits, on the values less the base.
  stored_lem :
      (op : Token) (p : ℤ)
      → abs_ℕ p < q
      → IsExact op p
      → answer_member R c (or_invalid R (range_op R row op g.bit_depth p))
        ≡ member_of (λ h. Compare.held R row g f c && h) (holds op (Compare.s R row g f c) p)
  stored_lem op p fits x =
      Compare.or_invalid_lem R row g c (range_op R row op g.bit_depth p)
      ∙ Compare.range_op_at R row g g.bit_depth p c op f.deep f.well_formed fits x

  -- On an integer field whose bit depth is from 1 to 62, whose base is less than 2^62 either way,
  -- whose rows are well-formed and whose values lie in the range of its group, a comparison with
  -- an integer returns a row that contains a column exactly if the column holds a value and the
  -- comparison holds of it, base included, and fails for an operator that is no comparison. The
  -- predicates of <, > and >= that lie past the bounds of the bit depth but inside the range of
  -- the group are left out, as are those of < at the base and one below it and of > at one below
  -- the base.
  pub execute_condition-IsRight :
      (op : Token)
      → reachable g op v ≡ true
      → IsExact op (v -ℤ g.base)
      → IsRight R row g c op v (execute_condition R (some g) (some row) op (Value.int v))
  unfolding execute_condition execute_compare base_value int_slice_value
  execute_condition-IsRight Token.illegal r x =
      stored_lem Token.illegal (pos 0) (pow_pos g.bit_depth) tt
  execute_condition-IsRight Token.assign r x =
      stored_lem Token.assign (pos 0) (pow_pos g.bit_depth) tt
  execute_condition-IsRight Token.between r x = refl
  execute_condition-IsRight Token.eq r x = Operators.compare-eq R row g f c v
  execute_condition-IsRight Token.neq r x = Operators.compare-neq R row g f c v
  execute_condition-IsRight Token.lt r x = Operators.compare-lt R row g f c v r x
  execute_condition-IsRight Token.lte r x = Operators.compare-lte R row g f c v
  execute_condition-IsRight Token.gt r x = Operators.compare-gt R row g f c v r x
  execute_condition-IsRight Token.gte r x = Operators.compare-gte R row g f c v r

  zero_offset : (b : ℤ) → b -ℤ b ≡ pos 0
  unfolding ◌-ℤ◌
  zero_offset b = ground arith

  low_answer :
      (op : Token)
      → IsExact op (pos 0)
      → covers g op v ≡ false
      → answer_member R c (compare_base R g (some row) op v (pos 0, false))
        ≡ member_of (λ h. Compare.held R row g f c && h) (holds op (actual R row g c) g.base)
  low_answer op x h =
      rw (compare_base, h)
        (stored_lem op (pos 0) (pow_pos g.bit_depth) x
          ∙ ap
              (λ p.
                member_of (λ h. Compare.held R row g f c && h) (holds op (Compare.s R row g f c) p))
              (sym (zero_offset g.base))
          ∙ ap (member_of (λ h. Compare.held R row g f c && h))
              (sym (holds-add op (Compare.s R row g f c) g.base g.base)))

  low_offset :
      (b v : ℤ) (q : ℕ)
      → 0 < q
      → leb_ℤ v (b -ℤ pos q +ℤ pos 1) ≡ true
      → leb q (pos_part (v -ℤ b)) ≡ false
  unfolding ◌-ℤ◌ ◌+ℤ◌
  low_offset b v q h k = ground arith

  low_fits : leb_ℤ v (bit_depth_min g) ≡ true → leb q (pos_part (v -ℤ g.base)) ≡ false
  low_fits h = low_offset g.base v q (pow_pos g.bit_depth) (rw (← bit_depth_min_lem g f.bounded) h)

  -- On an integer field whose bit depth is from 1 to 62, whose base is less than 2^62 either way,
  -- whose rows are well-formed and whose values lie in the range of its group, for a predicate
  -- that is at most the least value of the bit depth and above the least value of the group, >
  -- returns the columns with a value above the base and >= those with a value of at least the
  -- base, whatever the predicate.
  pub execute_condition-below_bounds :
      leb_ℤ v (bit_depth_min g) ≡ true
      → leb_ℤ v g.min ≡ false
      → (answer_member R c (execute_condition R (some g) (some row) Token.gt (Value.int v))
          ≡ some (Compare.held R row g f c && ltb_ℤ g.base (actual R row g c)))
        × (answer_member R c (execute_condition R (some g) (some row) Token.gte (Value.int v))
            ≡ some (Compare.held R row g f c && leb_ℤ g.base (actual R row g c)))
  unfolding execute_condition execute_compare base_value
  execute_condition-below_bounds h k =
      let e = low_fits h in
      let t : ltb_ℤ (bit_depth_min g) v ≡ false = ground arith in
      (
        rw (Operators.above_past_low R row g f c v e t)
            (low_answer Token.gt (ground arith) (ground arith)),
        rw (Operators.above_past_low R row g f c v e t) (low_answer Token.gte tt (ground arith)),
      )
