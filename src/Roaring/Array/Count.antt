-- ===== src/Roaring/Array/Count.antt =====
-- `intersectionCountArrayArray` counts what `intersectArrayArray` keeps.
use pilosa.Common.{ℕ, suc, ◌+◌, ◌≤◌, ◌≡◌, refl, List, [], ◌∷◌, ◌⊎◌, arith, length, inl, inr}
use pilosa.Roaring.Sorted.{AscendingFrom, AscendingFrom-weaken}
use pilosa.Roaring.Array.{
  intersect_array_array, skip_below, count_common, intersection_count_array_array,
}

List-cases : (xs : List ℕ) → (xs ≡ []) ⊎ ((x : ℕ) × (r : List ℕ) × (xs ≡ x ∷ r))
List-cases [] = inl refl
List-cases (x ∷ r) = inr (x, r, refl)

skip_below-AscendingFrom :
    (lo v : ℕ) (ys : List ℕ) → AscendingFrom lo ys → AscendingFrom lo (skip_below v ys)
unfolding skip_below
skip_below-AscendingFrom lo v [] q = tt
skip_below-AscendingFrom lo v (y ∷ ys) q =
    ground (
      arith,
      skip_below-AscendingFrom lo v ys (AscendingFrom-weaken lo (suc y) ys (omega arith) q.1),
    )

intersect-skip_below :
    (v : ℕ) (xs ys : List ℕ)
    → intersect_array_array (v ∷ xs) ys ≡ intersect_array_array (v ∷ xs) (skip_below v ys)
unfolding intersect_array_array skip_below
intersect-skip_below v xs [] = refl
intersect-skip_below v xs (y ∷ ys) = ground (arith, intersect-skip_below v xs ys)

skip_below_head : (v b : ℕ) (ys bs : List ℕ) → skip_below v ys ≡ b ∷ bs → v ≤ b
unfolding skip_below
skip_below_head v b [] bs e = absurd (ground arith)
skip_below_head v b (y ∷ ys) bs e = ground (arith, skip_below_head v b ys bs)

intersect-skip_first :
    (b : ℕ) (xs bs : List ℕ)
    → AscendingFrom (suc b) xs
    → intersect_array_array xs (b ∷ bs) ≡ intersect_array_array xs bs
unfolding intersect_array_array
intersect-skip_first b [] bs p = refl
intersect-skip_first b (x ∷ xs) bs p = ground arith

intersect_comm : (xs ys : List ℕ) → intersect_array_array xs ys ≡ intersect_array_array ys xs
unfolding intersect_array_array
intersect_comm [] [] = refl
intersect_comm [] (y ∷ ys) = refl
intersect_comm (x ∷ xs) [] = refl
intersect_comm (x ∷ xs) (y ∷ ys) =
    ground (arith, intersect_comm xs (y ∷ ys), intersect_comm (x ∷ xs) ys, intersect_comm xs ys)

intersect-nil : (xs : List ℕ) → intersect_array_array xs [] ≡ []
unfolding intersect_array_array
intersect-nil [] = refl
intersect-nil (x ∷ xs) = refl

count_common-eq-length :
    (lo : ℕ) (xs ys : List ℕ) (n : ℕ)
    → AscendingFrom lo xs
    → count_common xs ys n ≡ n + length (intersect_array_array xs ys)
unfolding count_common intersect_array_array
count_common-eq-length lo [] ys n p = omega arith
count_common-eq-length lo (x ∷ xs) ys n p = elim (List-cases (skip_below x ys)) [
  | inl out ↦ ground (arith, intersect-skip_below x xs ys)
  | inr (b, bs, rest) ↦ ground (
    arith,
    intersect-skip_below x xs ys,
    skip_below_head x b ys bs rest,
    count_common-eq-length (suc x) xs (b ∷ bs) n p.1,
    count_common-eq-length (suc x) xs (b ∷ bs) (n + 1) p.1,
    intersect-skip_first b xs bs,
  )
]

-- On ascending arrays intersectionCountArrayArray returns the number of values that
-- intersectArrayArray keeps, whichever array is shorter.
pub intersection_count-eq-length :
    (xs ys : List ℕ)
    → AscendingFrom 0 xs
    → AscendingFrom 0 ys
    → intersection_count_array_array xs ys ≡ length (intersect_array_array xs ys)
unfolding intersection_count_array_array
intersection_count-eq-length xs ys p q = ground (
  arith,
  count_common-eq-length 0 xs ys 0 p,
  count_common-eq-length 0 ys xs 0 q,
  intersect_comm xs ys,
)
