-- ===== src/Roaring/Rows.antt =====
-- Array containers meet the interface of rows: a row of columns below 2^16 is an ascending array,
-- and the operations are those of roaring/roaring.go on arrays (the difference by the values that
-- `differenceArrayArray` keeps within the size of an array container).
use pilosa.Common.{ℕ, ◌<◌, ◌≡◌, refl, List, [], ◌∷◌, true, arith, length, ltb}
use pilosa.Row.{RowOps}
use pilosa.Roaring.Sorted.{AscendingFrom, mem}
use pilosa.Roaring.Array.{intersect_array_array, union_array_array, intersection_count_array_array}
use pilosa.Roaring.Array.Merge.{
  mem-intersect_array_array, mem-union_array_array, AscendingFrom-intersect_array_array,
  AscendingFrom-union_array_array,
}
use pilosa.Roaring.Array.Count.{intersection_count-eq-length}
use pilosa.Roaring.Difference.Sets.{keep, mem-keep, AscendingFrom-keep}

pub member_of_nonempty : (xs : List ℕ) → 0 < length xs → (c : ℕ) × (mem c xs ≡ true)
member_of_nonempty [] h = absurd (omega arith)
member_of_nonempty (x ∷ xs) h = (x, ground arith)

pub nonempty_of_member : (xs : List ℕ) (c : ℕ) → mem c xs ≡ true → 0 < length xs
nonempty_of_member [] c h = absurd (ground arith)
nonempty_of_member (x ∷ xs) c h = omega arith

unfoldable pub array_rows : RowOps
array_rows = record {
  Row = (xs : List ℕ) × AscendingFrom 0 xs;
  contains = λ r c. mem c r.0;
  empty = ([], tt);
  intersect =
      λ a b. (intersect_array_array a.0 b.0, AscendingFrom-intersect_array_array 0 a.0 b.0 a.1);
  union = λ a b. (union_array_array a.0 b.0, AscendingFrom-union_array_array 0 a.0 b.0 a.1 b.1);
  difference = λ a b. (keep a.0 b.0, AscendingFrom-keep 0 a.0 b.0 a.1);
  count = λ a. length a.0;
  any = λ a. ltb 0 (length a.0);
  intersection_count = λ a b. intersection_count_array_array a.0 b.0;
  contains-empty = λ c. refl;
  contains-intersect = λ a b c. mem-intersect_array_array c 0 a.0 b.0 a.1 b.1;
  contains-union = λ a b c. mem-union_array_array c a.0 b.0;
  contains-difference = λ a b c. mem-keep 0 c a.0 b.0 a.1 b.1;
  any-eq-count_pos = λ a. refl;
  intersection_count-eq-count = λ a b. intersection_count-eq-length a.0 b.0 a.1 b.1;
  count_pos = λ a h. member_of_nonempty a.0 h;
  count-pos_of_contains = λ a c h. nonempty_of_member a.0 c h;
}
