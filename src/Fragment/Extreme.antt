-- ===== src/Fragment/Extreme.antt =====
-- fragment.go: the minimum and the maximum of a bit-sliced integer field. A filter row is
-- an `Option`: `none` is Go's nil.
pub mod Least
pub mod Greatest
pub mod Minimum
pub mod Maximum
use pilosa.Common.{
  ℕ, zero, suc, ◌+◌, ◌≡◌, refl, Bool, ◌&&◌, ltb, ◌==◌, if◌then◌else◌, Option, none, some, add64,
  shl1,
}
use pilosa.Common.Int.{ℤ, pos, neg_ℤ}
use pilosa.Row.{RowOps}
use pilosa.Fragment.Bsi.{bsi_exists_bit, bsi_sign_bit, bsi_offset_bit}

module _ (R : RowOps) (row : ℕ → R.Row) where
  open R use {Row, contains, contains-intersect, intersect, difference, count, any}

  -- The loop of `minUnsigned`: rounds left, filter, min and count.
  pub min_loop : ℕ → Row → ℕ → ℕ → ℕ × ℕ
  min_loop zero filter m n = (m, n)
  min_loop (suc i) filter m n =
      let r = difference filter (row (bsi_offset_bit + i)) in
      let zeros = min_loop i r m (count r) in
      let ones = min_loop i filter (add64 m (shl1 i)) (if i == 0 then count filter else count r) in
      if ltb 0 (count r) then zeros else ones

  pub min_unsigned : Row → ℕ → ℕ × ℕ
  unfolding min_loop
  min_unsigned filter depth = min_loop depth filter 0 0

  -- The loop of `maxUnsigned`.
  pub max_loop : ℕ → Row → ℕ → ℕ → ℕ × ℕ
  max_loop zero filter m n = (m, n)
  max_loop (suc i) filter m n =
      let r = intersect (row (bsi_offset_bit + i)) filter in
      let ones = max_loop i r (add64 m (shl1 i)) (count r) in
      let zeros = max_loop i filter m (if i == 0 then count filter else count r) in
      if ltb 0 (count r) then ones else zeros

  pub max_unsigned : Row → ℕ → ℕ × ℕ
  unfolding max_loop
  max_unsigned filter depth = max_loop depth filter 0 0

  -- The columns that hold a value, those of the filter if there is one.
  pub consider : Option Row → Row
  consider none = row bsi_exists_bit
  consider (some filter) = intersect (row bsi_exists_bit) filter

  -- Whether a column holds a value and passes the filter.
  abbrev pub considered : Option Row → ℕ → Bool
  considered none c = contains (row bsi_exists_bit) c
  considered (some filter) c = contains (row bsi_exists_bit) c && contains filter c

  pub contains-consider :
      (filter : Option Row) (c : ℕ) → contains (consider filter) c ≡ considered filter c
  unfolding consider
  contains-consider none c = refl
  contains-consider (some filter) c = contains-intersect (row bsi_exists_bit) filter c

  pub min : Option Row → ℕ → ℤ × ℕ
  unfolding min_unsigned max_unsigned consider
  min filter depth =
      let considered = consider filter in
      let negatives = intersect (row bsi_sign_bit) considered in
      let (high, high_count) = max_unsigned negatives depth in
      let (low, low_count) = min_unsigned considered depth in
      if count considered == 0
      then (pos 0, 0)
      else if any negatives
      then (neg_ℤ (pos high), high_count)
      else (pos low, low_count)

  pub max : Option Row → ℕ → ℤ × ℕ
  unfolding min_unsigned max_unsigned consider
  max filter depth =
      let considered = consider filter in
      let positives = difference considered (row bsi_sign_bit) in
      let (high, high_count) = max_unsigned positives depth in
      let (low, low_count) = min_unsigned considered depth in
      if any considered
      then (if any positives then (pos high, high_count) else (neg_ℤ (pos low), low_count))
      else (pos 0, 0)
