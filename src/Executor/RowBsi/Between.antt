-- ===== src/Executor/RowBsi/Between.antt =====
-- BETWEEN of executor.go on an integer field.
use pilosa.Common.{
  ℕ, [], ◌∷◌, ◌-◌, ◌<◌, ◌≡◌, refl, ap, sym, ◌∙◌, Bool, true, false, ◌&&◌, ◌||◌, some, arith, leb,
  Bool-cases, inl, inr, if◌then◌else◌, pow_pos,
}
use pilosa.Common.Int.{ℤ, pos, abs_ℕ, pos_part, neg_part, ltb_ℤ, leb_ℤ, sub_ℕ, ◌≤ℤ◌, ◌-ℤ◌, ◌+ℤ◌}
use pilosa.Common.Int64.{int64}
use pilosa.Pql.Token.{Token}
use pilosa.Pql.Condition.{Value, Element, int_slice_value}
use pilosa.Row.{RowOps}
use pilosa.Field.Group.{BsiGroup, base_value_between, bit_depth_min, bit_depth_max}
use pilosa.Field.Group.Bounds.{
  ltb-bit_depth_min, ltb-bit_depth_max, int64-offset, int64-max_offset, int64-min_offset,
}
use pilosa.Fragment.Range.{range_between, not_null}
use pilosa.Fragment.Range.Between.{contains-range_between}
use pilosa.Executor.RowBsi.{execute_between, execute_condition}
use pilosa.Executor.RowBsi.Offset.{geb_shift, leb_shift}
use pilosa.Executor.RowBsi.Compare.{answer_member, actual, IsField}
use pilosa.Executor.RowBsi.Compare

-- The ends, brought within the bounds of the depth.
abbrev clamp_low : ℕ → ℤ → ℤ
clamp_low q d = if leb q (neg_part d) then sub_ℕ 0 (q - 1) else d

abbrev clamp_high : ℕ → ℤ → ℤ
clamp_high q d = if leb q (pos_part d) then pos (q - 1) else d

clamp_lem :
    (q : ℕ) (s lo hi : ℤ)
    → 0 < q
    → pos_part s < q
    → neg_part s < q
    → leb_ℤ lo hi ≡ true
    → leb q (neg_part hi) ≡ false
    → leb q (pos_part lo) ≡ false
    → (leb_ℤ (clamp_low q lo) (clamp_high q hi) ≡ true)
      × (abs_ℕ (clamp_low q lo) < q)
      × (abs_ℕ (clamp_high q hi) < q)
      × ((leb_ℤ (clamp_low q lo) s && leb_ℤ s (clamp_high q hi)) ≡ (leb_ℤ lo s && leb_ℤ s hi))
clamp_lem q s lo hi p a b o h k = ground arith

offset_order : (b lo hi : ℤ) → leb_ℤ (lo -ℤ b) (hi -ℤ b) ≡ leb_ℤ lo hi
unfolding ◌-ℤ◌
offset_order b lo hi = ground arith

between_shift :
    (s b lo hi : ℤ)
    → (leb_ℤ lo (s +ℤ b) && leb_ℤ (s +ℤ b) hi) ≡ (leb_ℤ (lo -ℤ b) s && leb_ℤ s (hi -ℤ b))
between_shift s b lo hi = rw (geb_shift s b lo, leb_shift s b hi) refl

between_out :
    (q : ℕ) (s lo hi : ℤ)
    → pos_part s < q
    → neg_part s < q
    → (leb q (neg_part hi) || leb q (pos_part lo)) ≡ true
    → (leb_ℤ lo s && leb_ℤ s hi) ≡ false
between_out q s lo hi a b h = ground arith

whole_order :
    (min max lo hi a : ℤ) (b : Bool)
    → b ≡ true
    → min ≤ℤ a
    → a ≤ℤ max
    → leb_ℤ lo min ≡ true
    → leb_ℤ max hi ≡ true
    → b ≡ (b && (leb_ℤ lo a && leb_ℤ a hi))
whole_order min max lo hi a b e h k m n = ground arith

module _ (R : RowOps) (row : ℕ → R.Row) (g : BsiGroup) (f : IsField R row g) (c : ℕ)
    (lo hi : ℤ) where
  abbrev q : ℕ
  q = Compare.q R row g f c

  abbrev held : Bool
  held = Compare.held R row g f c

  abbrev s : ℤ
  s = Compare.s R row g f c

  abbrev l : ℤ
  l = lo -ℤ g.base

  abbrev h : ℤ
  h = hi -ℤ g.base

  abbrev inside : Bool
  inside = leb_ℤ lo (actual R row g c) && leb_ℤ (actual R row g c) hi

  low_end :
      leb q (pos_part l) ≡ false
      → int64 ((if ltb_ℤ lo (bit_depth_min g) then bit_depth_min g else lo) -ℤ g.base)
        ≡ clamp_low q l
  low_end e = elim (Bool-cases (leb q (neg_part l))) [
    | inl k ↦ rw (ltb-bit_depth_min g f.bounded lo, k) (int64-min_offset g f.bounded)
    | inr k ↦
        rw (ltb-bit_depth_min g f.bounded lo, k)
          (int64-offset g f.bounded lo (ground arith) (ground arith))
  ]

  high_end :
      leb q (neg_part h) ≡ false
      → int64 ((if ltb_ℤ (bit_depth_max g) hi then bit_depth_max g else hi) -ℤ g.base)
        ≡ clamp_high q h
  high_end e = elim (Bool-cases (leb q (pos_part h))) [
    | inl k ↦ rw (ltb-bit_depth_max g f.bounded hi, k) (int64-max_offset g f.bounded)
    | inr k ↦
        rw (ltb-bit_depth_max g f.bounded hi, k)
          (int64-offset g f.bounded hi (ground arith) (ground arith))
  ]

  base_out :
      (leb q (neg_part h) || leb q (pos_part l)) ≡ true
      → base_value_between g lo hi ≡ (pos 0, pos 0, true)
  unfolding base_value_between
  base_out e = rw (ltb-bit_depth_min g f.bounded hi, ltb-bit_depth_max g f.bounded lo, e) refl

  base_in :
      leb q (neg_part h) ≡ false
      → leb q (pos_part l) ≡ false
      → base_value_between g lo hi ≡ (clamp_low q l, clamp_high q h, false)
  unfolding base_value_between
  base_in e k =
      rw
        (
          ltb-bit_depth_min g f.bounded hi,
          e,
          ltb-bit_depth_max g f.bounded lo,
          k,
          low_end k,
          high_end e,
        )
        refl

  whole_range : leb_ℤ lo g.min ≡ true → leb_ℤ g.max hi ≡ true → held ≡ (held && inside)
  whole_range a b = elim (Bool-cases held) [
    | inl e ↦
        whole_order g.min g.max lo hi (actual R row g c) held e (f.at_least c e) (f.at_most c e) a b
    | inr e ↦ rw e refl
  ]

  between_in :
      leb_ℤ lo hi ≡ true
      → leb q (neg_part h) ≡ false
      → leb q (pos_part l) ≡ false
      → R.contains (range_between R row g.bit_depth (clamp_low q l) (clamp_high q h)) c
        ≡ (held && inside)
  between_in o e k =
      let small = Compare.stored_small R row g f c in
      let b =
        clamp_lem q s l h (pow_pos g.bit_depth) small.0 small.1 (offset_order g.base lo hi ∙ o) e
          k in
      contains-range_between R row g.bit_depth f.well_formed (clamp_low q l) (clamp_high q h) c b.0
        b.1 b.2
      ∙ ap (λ t. held && t) (b.3 ∙ sym (between_shift s g.base lo hi))

  -- On an integer field whose bit depth is from 1 to 62, whose base is less than 2^62 either way,
  -- whose rows are well-formed and whose values lie in the range of its group, BETWEEN with two
  -- int64 in order returns a row that contains a column exactly if the column holds a value
  -- between the two, ends included.
  pub execute_condition-between :
      leb_ℤ lo hi ≡ true
      → answer_member R c (
          execute_condition R
            (some g)
            (some row)
            Token.between
            (Value.list (Element.int64 lo ∷ Element.int64 hi ∷ [])))
        ≡ some (held && inside)
  unfolding execute_condition int_slice_value execute_between not_null
  execute_condition-between o = elim (Bool-cases (leb q (neg_part h) || leb q (pos_part l))) [
    | inl e ↦
        let small = Compare.stored_small R row g f c in
        rw (base_out e) (
          ground (
            arith,
            R.contains-empty c,
            between_shift s g.base lo hi,
            between_out q s l h small.0 small.1 e,
          ))
    | inr e ↦
        let low : leb q (pos_part l) ≡ false = ground arith in
        let high : leb q (neg_part h) ≡ false = ground arith in
        elim (Bool-cases (leb_ℤ lo g.min && leb_ℤ g.max hi)) [
          | inl k ↦ rw (base_in high low, k) (ap some (whole_range (ground arith) (ground arith)))
          | inr k ↦ rw (base_in high low, k) (ap some (between_in o high low))
        ]
  ]
