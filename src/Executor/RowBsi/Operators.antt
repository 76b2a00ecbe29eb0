-- ===== src/Executor/RowBsi/Operators.antt =====
-- Each comparison of executor.go on an integer field, by its operator.
use pilosa.Common.{
  ℕ, ◌-◌, ◌≡◌, refl, ap, sym, ◌∙◌, Bool, true, false, ◌&&◌, ◌||◌, ◌<◌, some, arith, leb, Bool-cases,
  inl, inr,
}
use pilosa.Common.Int.{ℤ, pos, pos_part, neg_part, eq_ℤ, ltb_ℤ}
use pilosa.Pql.Token.{Token}
use pilosa.Row.{RowOps}
use pilosa.Field.Group.{
  BsiGroup, base_value, base_value_above, base_value_below, base_value_at, bit_depth_min,
  bit_depth_max,
}
use pilosa.Field.Group.Bounds.{ltb-bit_depth_min, ltb-bit_depth_max, int64-max_offset}
use pilosa.Fragment.Range.{range_op, not_null}
use pilosa.Fragment.Range.Operator.{holds, IsExact, member_of}
use pilosa.Executor.RowBsi.{covers, compare_base, execute_compare}
use pilosa.Executor.RowBsi.Offset.{holds-add, past_low, past_high}
use pilosa.Executor.RowBsi.Compare.{reachable, IsField, IsRight}
use pilosa.Executor.RowBsi.Compare

module _ (R : RowOps) (row : ℕ → R.Row) (g : BsiGroup) (f : IsField R row g) (c : ℕ) (v : ℤ) where
  abbrev q : ℕ
  q = Compare.q R row g f c

  abbrev s : ℤ
  s = Compare.s R row g f c

  abbrev d : ℤ
  d = Compare.d R row g f c v

  abbrev Answers : Token → ℤ × Bool → Type 0
  Answers op b = IsRight R row g c op v (compare_base R g (some row) op v b)

  pub small : (pos_part s < q) × (neg_part s < q)
  small = Compare.stored_small R row g f c

  low_test : ltb_ℤ v (bit_depth_min g) ≡ leb q (neg_part d)
  low_test = ltb-bit_depth_min g f.bounded v

  high_test : ltb_ℤ (bit_depth_max g) v ≡ leb q (pos_part d)
  high_test = ltb-bit_depth_max g f.bounded v

  below_past_low : leb q (neg_part d) ≡ true → base_value_below g v ≡ (pos 0, true)
  below_past_low e = rw (low_test, e) refl

  pub below_past_high :
      leb q (neg_part d) ≡ false
      → leb q (pos_part d) ≡ true
      → base_value_below g v ≡ (pos (q - 1), false)
  below_past_high e h = rw (low_test, e, high_test, h, int64-max_offset g f.bounded) refl

  above_past_high : leb q (pos_part d) ≡ true → base_value_above g v ≡ (pos 0, true)
  above_past_high e = rw (high_test, e) refl

  pub above_past_low :
      leb q (pos_part d) ≡ false
      → ltb_ℤ (bit_depth_min g) v ≡ false
      → base_value_above g v ≡ (pos 0, false)
  above_past_low e h = rw (high_test, e, h) refl

  above_inside :
      leb q (pos_part d) ≡ false
      → ltb_ℤ (bit_depth_min g) v ≡ true
      → base_value_above g v ≡ (d, false)
  above_inside e h =
      let low : leb q (neg_part d) ≡ false = ground (arith, low_test, h) in
      rw (high_test, e, h, Compare.offset_lem R row g f c v low e) refl

  at_past : (leb q (neg_part d) || leb q (pos_part d)) ≡ true → base_value_at g v ≡ (pos 0, true)
  at_past e = rw (low_test, high_test, e) refl

  inside :
      (op : Token)
      → leb q (neg_part d) ≡ false
      → leb q (pos_part d) ≡ false
      → IsExact op d
      → Answers op (d, false)
  inside op e h x = Compare.inside-IsRight R row g f c v e h op x

  pub compare-lt :
      reachable g Token.lt v ≡ true
      → IsExact Token.lt d
      → IsRight R row g c Token.lt v (execute_compare R g (some row) Token.lt v)
  unfolding execute_compare base_value
  compare-lt r x = elim (Bool-cases (leb q (neg_part d))) [
    | inl e ↦ rw (below_past_low e) (
        Compare.empty_lem R row g f c Token.lt v
          (ap some (past_low q s d (ground arith) small.1).1))
    | inr e ↦ elim (Bool-cases (leb q (pos_part d))) [
      | inl h ↦ rw (below_past_high e h) (
          Compare.covered_lem R row g f c Token.lt v (pos (q - 1))
            (ground (arith, r, high_test, h)))
      | inr h ↦ rw (Compare.below_inside R row g f c v e h) (inside Token.lt e h x)
    ]
  ]

  lte_past_high : leb q (pos_part d) ≡ true → Answers Token.lte (pos (q - 1), false)
  lte_past_high h = elim (Bool-cases (covers g Token.lte v)) [
    | inl k ↦ Compare.covered_lem R row g f c Token.lte v (pos (q - 1)) k
    | inr k ↦
        let lhs : holds Token.lte s (pos (q - 1)) ≡ some true = ground (arith, small) in
        let rhs : holds Token.lte s d ≡ some true =
          ap some (past_high q s d (ground arith) small.0).3 in
        rw (compare_base, k)
          (Compare.or_invalid_lem R row g c (range_op R row Token.lte g.bit_depth (pos (q - 1)))
            ∙ Compare.range_op_at R row g g.bit_depth (pos (q - 1)) c Token.lte f.deep f.well_formed
                (ground (arith, small)) tt
            ∙ ap (member_of (λ h. Compare.held R row g f c && h))
                (lhs ∙ sym rhs ∙ sym (holds-add Token.lte s g.base v)))
  ]

  pub compare-lte : IsRight R row g c Token.lte v (execute_compare R g (some row) Token.lte v)
  unfolding execute_compare base_value
  compare-lte = elim (Bool-cases (leb q (neg_part d))) [
    | inl e ↦ rw (below_past_low e) (
        Compare.empty_lem R row g f c Token.lte v
          (ap some (past_low q s d (ground arith) small.1).2))
    | inr e ↦ elim (Bool-cases (leb q (pos_part d))) [
      | inl h ↦ rw (below_past_high e h) (lte_past_high h)
      | inr h ↦ rw (Compare.below_inside R row g f c v e h) (inside Token.lte e h tt)
    ]
  ]

  pub compare-gt :
      reachable g Token.gt v ≡ true
      → IsExact Token.gt d
      → IsRight R row g c Token.gt v (execute_compare R g (some row) Token.gt v)
  unfolding execute_compare base_value
  compare-gt r x = elim (Bool-cases (leb q (pos_part d))) [
    | inl e ↦ rw (above_past_high e) (
        Compare.empty_lem R row g f c Token.gt v
          (ap some (past_high q s d (ground arith) small.0).1))
    | inr e ↦ elim (Bool-cases (ltb_ℤ (bit_depth_min g) v)) [
      | inl h ↦ rw (above_inside e h) (inside Token.gt (ground (arith, low_test, h)) e x)
      | inr h ↦
          rw (above_past_low e h)
            (Compare.covered_lem R row g f c Token.gt v (pos 0) (ground (arith, r, h)))
    ]
  ]

  pub compare-gte :
      reachable g Token.gte v ≡ true
      → IsRight R row g c Token.gte v (execute_compare R g (some row) Token.gte v)
  unfolding execute_compare base_value
  compare-gte r = elim (Bool-cases (leb q (pos_part d))) [
    | inl e ↦ rw (above_past_high e) (
        Compare.empty_lem R row g f c Token.gte v
          (ap some (past_high q s d (ground arith) small.0).2))
    | inr e ↦ elim (Bool-cases (ltb_ℤ (bit_depth_min g) v)) [
      | inl h ↦ rw (above_inside e h) (inside Token.gte (ground (arith, low_test, h)) e tt)
      | inr h ↦
          rw (above_past_low e h)
            (Compare.covered_lem R row g f c Token.gte v (pos 0) (ground (arith, r, h)))
    ]
  ]

  past_eq : (leb q (neg_part d) || leb q (pos_part d)) ≡ true → eq_ℤ s d ≡ false
  past_eq e = ground (arith, small, e)

  pub compare-eq : IsRight R row g c Token.eq v (execute_compare R g (some row) Token.eq v)
  unfolding execute_compare base_value
  compare-eq = elim (Bool-cases (leb q (neg_part d) || leb q (pos_part d))) [
    | inl e ↦ rw (at_past e) (Compare.empty_lem R row g f c Token.eq v (ap some (past_eq e)))
    | inr e ↦
        let low : leb q (neg_part d) ≡ false = ground arith in
        let high : leb q (pos_part d) ≡ false = ground arith in
        rw (Compare.at_inside R row g f c v low high) (inside Token.eq low high tt)
  ]

  pub compare-neq : IsRight R row g c Token.neq v (execute_compare R g (some row) Token.neq v)
  unfolding execute_compare base_value not_null
  compare-neq = elim (Bool-cases (leb q (neg_part d) || leb q (pos_part d))) [
    | inl e ↦ rw (at_past e) (ground (arith, holds-add Token.neq s g.base v, past_eq e))
    | inr e ↦
        let low : leb q (neg_part d) ≡ false = ground arith in
        let high : leb q (pos_part d) ≡ false = ground arith in
        rw (Compare.at_inside R row g f c v low high) (inside Token.neq low high tt)
  ]
