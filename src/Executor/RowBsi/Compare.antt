-- ===== src/Executor/RowBsi/Compare.antt =====
-- A comparison on an integer field is answered with the columns for which it holds.
use pilosa.Common.{
  ℕ, zero, suc, ◌^◌, ◌<◌, ◌≡◌, refl, ap, sym, ◌∙◌, Bool, true, false, ◌&&◌, ◌||◌, Option, none,
  some, arith, leb, Bool-cases, inl, inr,
}
use pilosa.Common.Int.{ℤ, pos_part, neg_part, ltb_ℤ, leb_ℤ, abs_ℕ, ◌+ℤ◌, ◌-ℤ◌, ◌≤ℤ◌}
use pilosa.Common.Int64.{int64}
use pilosa.Pql.Token.{Token}
use pilosa.Row.{RowOps}
use pilosa.Field.Group.{BsiGroup, base_value_below, base_value_at, bit_depth_min, bit_depth_max}
use pilosa.Field.Group.Bounds.{IsBounded, ltb-bit_depth_min, ltb-bit_depth_max, int64-offset}
use pilosa.Fragment.Bsi.{bsi_exists_bit, magnitude-lt}
use pilosa.Fragment.Range.{range_op, not_null}
use pilosa.Fragment.Range.Compare.{signed, IsWellFormed}
use pilosa.Fragment.Range.Operator.{holds, IsExact, member_of, range_op-holds}
use pilosa.Executor.RowBsi.{Answer, answer, failure, covers, or_invalid, compare_base}
use pilosa.Executor.RowBsi.Offset.{holds-add, holds_of_covers, holds_unheld, compares_of_covers}

-- Whether the answer is a row with the column; `none` for a failure.
abbrev pub answer_member : (R : RowOps) → ℕ → Answer R.Row → Option Bool
answer_member R c (answer r) = some (R.contains r c)
answer_member R c (failure e) = none

-- The predicates that the bounds of the depth do not cut off from the values that they could reach.
abbrev pub reachable : BsiGroup → Token → ℤ → Bool
reachable g Token.lt v = leb_ℤ v (bit_depth_max g) || ltb_ℤ g.max v
reachable g Token.gt v = ltb_ℤ (bit_depth_min g) v || ltb_ℤ v g.min
reachable g Token.gte v = ltb_ℤ (bit_depth_min g) v || leb_ℤ v g.min
reachable g _ v = true

module _ (R : RowOps) (row : ℕ → R.Row) (g : BsiGroup) where
  open R use {contains}

  -- The value of a column: what it stores, with the base.
  abbrev pub actual : ℕ → ℤ
  actual c = signed R row g.bit_depth c +ℤ g.base

  -- A group with stored columns: each value lies in the group's range.
  pub record IsField : Type 0 where
    pub bounded : IsBounded g
    pub deep : 0 < g.bit_depth
    pub well_formed : IsWellFormed R row g.bit_depth
    pub at_least : (c : ℕ) → contains (row bsi_exists_bit) c ≡ true → g.min ≤ℤ actual c
    pub at_most : (c : ℕ) → contains (row bsi_exists_bit) c ≡ true → actual c ≤ℤ g.max

  -- The column is in the answer exactly if it holds a value that compares as asked.
  abbrev pub IsRight : ℕ → Token → ℤ → Answer R.Row → Type 0
  IsRight c op v r =
      answer_member R c r
      ≡ member_of (λ h. contains (row bsi_exists_bit) c && h) (holds op (actual c) v)

  pub range_op_at :
      (k : ℕ) (p : ℤ) (c : ℕ) (op : Token)
      → 0 < k
      → IsWellFormed R row k
      → abs_ℕ p < 2 ^ k
      → IsExact op p
      → member_of (λ r. contains r c) (range_op R row op k p)
        ≡ member_of (λ h. contains (row bsi_exists_bit) c && h) (holds op (signed R row k c) p)
  range_op_at zero p c op k wf fits x = absurd (omega arith)
  range_op_at (suc n) p c op k wf fits x = range_op-holds R row n p c op wf fits x

  pub or_invalid_lem :
      (c : ℕ) (o : Option R.Row)
      → answer_member R c (or_invalid R o) ≡ member_of (λ r. contains r c) o
  or_invalid_lem c none = refl
  or_invalid_lem c (some r) = refl

  module _ (f : IsField) (c : ℕ) where
    abbrev pub held : Bool
    held = contains (row bsi_exists_bit) c

    abbrev pub s : ℤ
    s = signed R row g.bit_depth c

    abbrev pub q : ℕ
    q = 2 ^ g.bit_depth

    pub stored_small : (pos_part s < q) × (neg_part s < q)
    stored_small = ground (arith, magnitude-lt R row g.bit_depth c)

    abbrev pub right : Token → ℤ → Option Bool
    right op v = member_of (λ h. held && h) (holds op (actual c) v)

    -- The condition covers the range, and the answer is every column that holds a value.
    pub not_null_lem : (op : Token) (v : ℤ) → covers g op v ≡ true → some held ≡ right op v
    not_null_lem op v h = elim (Bool-cases held) [
      | inl e ↦
          rw (holds_of_covers g op (actual c) v h (f.at_least c e) (f.at_most c e))
            (ground (arith, e))
      | inr e ↦ rw e (sym (holds_unheld op (actual c) v (compares_of_covers g op v h)))
    ]

    pub covered_lem :
        (op : Token) (v base : ℤ)
        → covers g op v ≡ true
        → IsRight c op v (compare_base R g (some row) op v (base, false))
    unfolding not_null
    covered_lem op v base h = rw (compare_base, h) (not_null_lem op v h)

    -- The predicate lies within the bounds.
    inside_lem :
        (op : Token) (v : ℤ)
        → pos_part (v -ℤ g.base) < q
        → neg_part (v -ℤ g.base) < q
        → IsExact op (v -ℤ g.base)
        → IsRight c op v (compare_base R g (some row) op v (v -ℤ g.base, false))
    inside_lem op v h k x = elim (Bool-cases (covers g op v)) [
      | inl e ↦ covered_lem op v (v -ℤ g.base) e
      | inr e ↦
          rw (compare_base, e)
            (or_invalid_lem c (range_op R row op g.bit_depth (v -ℤ g.base))
              ∙ range_op_at g.bit_depth (v -ℤ g.base) c op f.deep f.well_formed
                  (ground (arith, h, k)) x
              ∙ ap (member_of (λ h. held && h)) (sym (holds-add op s g.base v)))
    ]

    -- Nothing compares: the answer is the empty row.
    pub empty_lem :
        (op : Token) (v : ℤ)
        → holds op s (v -ℤ g.base) ≡ some false
        → some (contains R.empty c) ≡ right op v
    empty_lem op v h = ground (arith, R.contains-empty c, holds-add op s g.base v, h)

    module _ (v : ℤ) where
      abbrev pub d : ℤ
      d = v -ℤ g.base

      module _ (low : leb q (neg_part d) ≡ false) (high : leb q (pos_part d) ≡ false) where
        pub offset_lem : int64 d ≡ d
        offset_lem = int64-offset g f.bounded v (ground arith) (ground arith)

        pub below_inside : base_value_below g v ≡ (d, false)
        below_inside =
            rw
              (
                ltb-bit_depth_min g f.bounded v,
                low,
                ltb-bit_depth_max g f.bounded v,
                high,
                offset_lem,
              )
              refl

        pub at_inside : base_value_at g v ≡ (d, false)
        at_inside =
            rw
              (
                ltb-bit_depth_min g f.bounded v,
                low,
                ltb-bit_depth_max g f.bounded v,
                high,
                offset_lem,
              )
              refl

        pub inside-IsRight :
            (op : Token)
            → IsExact op d
            → IsRight c op v (compare_base R g (some row) op v (d, false))
        inside-IsRight op x = inside_lem op v (ground arith) (ground arith) x
