-- ===== src/Field/Group/Bounds.antt =====
-- The bounds of a bsiGroup in field.go, where no int64 overflows.
use pilosa.Common.{ℕ, ◌-◌, ◌^◌, ◌≤◌, ◌<◌, ◌≡◌, ap, ◌∙◌, arith, pow_pos, shl1, leb}
use native.Mathlib.Nat.{mod-eq_of_lt, pow-le-pow_right}
use pilosa.Common.Int.{ℤ, pos, pos_part, neg_part, ◌+ℤ◌, ◌-ℤ◌, ltb_ℤ, sub_ℕ}
use pilosa.Common.Int64.{int64, int64_of_fits, int64-add, int64-sub, sub-parts_le, add-parts_le}
use pilosa.Field.Group.{BsiGroup, bit_depth_min, bit_depth_max}

abbrev pub quarter64 : ℕ
quarter64 = 0x4000_0000_0000_0000

-- A depth of at most 62 bits and a base of less than 2^62 either way.
pub record IsBounded (g : BsiGroup) : Type 0 where
  pub shallow : g.bit_depth ≤ 62
  pub base_low : neg_part g.base < quarter64
  pub base_high : pos_part g.base < quarter64

pub pow-le_quarter : (d : ℕ) → d ≤ 62 → 2 ^ d ≤ quarter64
pow-le_quarter d h = pow-le-pow_right (omega arith) h

shift_lem : (d : ℕ) → d ≤ 62 → int64 (pos (shl1 d)) ≡ pos (2 ^ d)
shift_lem d h =
    let small = pow-le_quarter d h in
    ap (λ n. int64 (pos n)) (mod-eq_of_lt (omega (arith, small)))
    ∙ int64_of_fits (pos (2 ^ d)) (omega (arith, small))

ltb_min : (v b : ℤ) (q : ℕ) → 0 < q → ltb_ℤ v (b -ℤ pos q +ℤ pos 1) ≡ leb q (neg_part (v -ℤ b))
unfolding ◌-ℤ◌ ◌+ℤ◌
ltb_min v b q h = ground arith

ltb_max : (v b : ℤ) (q : ℕ) → 0 < q → ltb_ℤ (b +ℤ pos q -ℤ pos 1) v ≡ leb q (pos_part (v -ℤ b))
unfolding ◌-ℤ◌ ◌+ℤ◌
ltb_max v b q h = ground arith

max_offset : (b : ℤ) (q : ℕ) → 0 < q → b +ℤ pos q -ℤ pos 1 -ℤ b ≡ pos (q - 1)
unfolding ◌-ℤ◌ ◌+ℤ◌
max_offset b q h = ground arith

min_offset : (b : ℤ) (q : ℕ) → 0 < q → b -ℤ pos q +ℤ pos 1 -ℤ b ≡ sub_ℕ 0 (q - 1)
unfolding ◌-ℤ◌ ◌+ℤ◌
min_offset b q h = ground arith

module _ (g : BsiGroup) (b : IsBounded g) where
  abbrev q : ℕ
  q = 2 ^ g.bit_depth

  small : q ≤ quarter64
  small = pow-le_quarter g.bit_depth b.shallow

  pub bit_depth_min_lem : bit_depth_min g ≡ g.base -ℤ pos q +ℤ pos 1
  unfolding bit_depth_min
  bit_depth_min_lem =
      ap (λ s. int64 (int64 (g.base -ℤ s) +ℤ pos 1)) (shift_lem g.bit_depth b.shallow)
      ∙ ap (λ s. int64 (s +ℤ pos 1))
          (int64-sub g.base (pos q) (omega (arith, b.base_high, small))
            (omega (arith, b.base_low, small)))
      ∙ int64-add (g.base -ℤ pos q) (pos 1)
          (omega (arith, b.base_high, small, (sub-parts_le g.base (pos q)).0))
          (omega (arith, b.base_low, small, (sub-parts_le g.base (pos q)).1))

  pub bit_depth_max_lem : bit_depth_max g ≡ g.base +ℤ pos q -ℤ pos 1
  unfolding bit_depth_max
  bit_depth_max_lem =
      ap (λ s. int64 (int64 (g.base +ℤ s) -ℤ pos 1)) (shift_lem g.bit_depth b.shallow)
      ∙ ap (λ s. int64 (s -ℤ pos 1))
          (int64-add g.base (pos q) (omega (arith, b.base_high, small))
            (omega (arith, b.base_low, small)))
      ∙ int64-sub (g.base +ℤ pos q) (pos 1)
          (omega (arith, b.base_high, small, (add-parts_le g.base (pos q)).0))
          (omega (arith, b.base_low, small, (add-parts_le g.base (pos q)).1))

  q_pos : 0 < q
  q_pos = pow_pos g.bit_depth

  -- The bounds of the depth, read off the value less the base.
  pub ltb-bit_depth_min : (v : ℤ) → ltb_ℤ v (bit_depth_min g) ≡ leb q (neg_part (v -ℤ g.base))
  ltb-bit_depth_min v = rw bit_depth_min_lem (ltb_min v g.base q q_pos)

  pub ltb-bit_depth_max : (v : ℤ) → ltb_ℤ (bit_depth_max g) v ≡ leb q (pos_part (v -ℤ g.base))
  ltb-bit_depth_max v = rw bit_depth_max_lem (ltb_max v g.base q q_pos)

  -- Within the bounds the value less the base does not wrap.
  pub int64-offset :
      (v : ℤ)
      → pos_part (v -ℤ g.base) < q
      → neg_part (v -ℤ g.base) < q
      → int64 (v -ℤ g.base) ≡ v -ℤ g.base
  int64-offset v h k =
      int64_of_fits (v -ℤ g.base) (omega (arith, small, h), omega (arith, small, k))

  pub int64-max_offset : int64 (bit_depth_max g -ℤ g.base) ≡ pos (q - 1)
  int64-max_offset = rw bit_depth_max_lem (
      ap int64 (max_offset g.base q q_pos)
      ∙ int64_of_fits (pos (q - 1)) (omega (arith, small), omega arith))

  pub int64-min_offset : int64 (bit_depth_min g -ℤ g.base) ≡ sub_ℕ 0 (q - 1)
  int64-min_offset = rw bit_depth_min_lem (
      ap int64 (min_offset g.base q q_pos)
      ∙ int64_of_fits (sub_ℕ 0 (q - 1)) (ground (arith, small)))
