-- ===== src/Roaring/Array/Merge.antt =====
-- Each merge of two array containers is ascending and holds the columns that its set operation
-- names.
use pilosa.Common.{
  ℕ, suc, ◌≡◌, refl, List, [], ◌∷◌, not, ◌&&◌, ◌||◌, arith, ltb, if◌then◌else◌, Bool-cases, ltb→lt,
  inl, inr,
}
use pilosa.Roaring.Sorted.{AscendingFrom, mem, mem_below, AscendingFrom-weaken}
use pilosa.Roaring.Array.{intersect_array_array, union_array_array, xor_array_array}

module _ (c : ℕ) where
  -- On arrays that ascend from one bound, intersectArrayArray contains a value exactly if both
  -- arrays do.
  pub mem-intersect_array_array :
      (lo : ℕ) (xs ys : List ℕ)
      → AscendingFrom lo xs
      → AscendingFrom lo ys
      → mem c (intersect_array_array xs ys) ≡ (mem c xs && mem c ys)
  unfolding intersect_array_array
  mem-intersect_array_array lo [] ys p q = refl
  mem-intersect_array_array lo (x ∷ xs) [] p q = ground arith
  mem-intersect_array_array lo (x ∷ xs) (y ∷ ys) p q = ground (
    arith,
    mem-intersect_array_array lo xs (y ∷ ys) (AscendingFrom-weaken lo (suc x) xs (omega arith) p.1)
        q,
    mem-intersect_array_array lo (x ∷ xs) ys p
        (AscendingFrom-weaken lo (suc y) ys (omega arith) q.1),
    mem-intersect_array_array lo xs ys (AscendingFrom-weaken lo (suc x) xs (omega arith) p.1)
        (AscendingFrom-weaken lo (suc y) ys (omega arith) q.1),
    mem_below (suc x) c xs p.1,
    mem_below (suc y) c ys q.1,
  )

  pub mem-union_array_array :
      (xs ys : List ℕ) → mem c (union_array_array xs ys) ≡ (mem c xs || mem c ys)
  unfolding union_array_array
  mem-union_array_array [] ys = refl
  mem-union_array_array (x ∷ xs) [] = ground arith
  mem-union_array_array (x ∷ xs) (y ∷ ys) = ground (
    arith,
    mem-union_array_array xs (y ∷ ys),
    mem-union_array_array (x ∷ xs) ys,
    mem-union_array_array xs ys,
  )

  -- On arrays that ascend from one bound, xorArrayArray contains a value exactly if one of the
  -- arrays does and the other does not.
  pub mem-xor_array_array :
      (lo : ℕ) (xs ys : List ℕ)
      → AscendingFrom lo xs
      → AscendingFrom lo ys
      → mem c (xor_array_array xs ys) ≡ (if mem c xs then not (mem c ys) else mem c ys)
  unfolding xor_array_array
  mem-xor_array_array lo [] ys p q = ground arith
  mem-xor_array_array lo (x ∷ xs) [] p q = ground arith
  mem-xor_array_array lo (x ∷ xs) (y ∷ ys) p q = ground (
    arith,
    mem-xor_array_array lo xs (y ∷ ys) (AscendingFrom-weaken lo (suc x) xs (omega arith) p.1) q,
    mem-xor_array_array lo (x ∷ xs) ys p (AscendingFrom-weaken lo (suc y) ys (omega arith) q.1),
    mem-xor_array_array lo xs ys (AscendingFrom-weaken lo (suc x) xs (omega arith) p.1)
        (AscendingFrom-weaken lo (suc y) ys (omega arith) q.1),
    mem_below (suc x) c xs p.1,
    mem_below (suc y) c ys q.1,
  )

pub AscendingFrom-intersect_array_array :
    (lo : ℕ) (xs ys : List ℕ) → AscendingFrom lo xs → AscendingFrom lo (intersect_array_array xs ys)
unfolding intersect_array_array
AscendingFrom-intersect_array_array lo [] ys p = tt
AscendingFrom-intersect_array_array lo (x ∷ xs) [] p = tt
AscendingFrom-intersect_array_array lo (x ∷ xs) (y ∷ ys) p = ground (
  arith,
  AscendingFrom-intersect_array_array lo xs (y ∷ ys)
      (AscendingFrom-weaken lo (suc x) xs (omega arith) p.1),
  AscendingFrom-intersect_array_array lo (x ∷ xs) ys p,
  AscendingFrom-intersect_array_array (suc x) xs ys p.1,
)

pub AscendingFrom-union_array_array :
    (lo : ℕ) (xs ys : List ℕ)
    → AscendingFrom lo xs
    → AscendingFrom lo ys
    → AscendingFrom lo (union_array_array xs ys)
unfolding union_array_array
AscendingFrom-union_array_array lo [] ys p q = q
AscendingFrom-union_array_array lo (x ∷ xs) [] p q = p
AscendingFrom-union_array_array lo (x ∷ xs) (y ∷ ys) p q = elim (Bool-cases (ltb x y)) [
  | inl below ↦
      rw below
        (p.0, AscendingFrom-union_array_array (suc x) xs (y ∷ ys) p.1 (ltb→lt x y below, q.1))
  | inr above ↦ elim (Bool-cases (ltb y x)) [
    | inl below ↦
        rw (above, below)
          (q.0, AscendingFrom-union_array_array (suc y) (x ∷ xs) ys (ltb→lt y x below, p.1) q.1)
    | inr same ↦
        let e : x ≡ y = ground arith in
        rw (above, same) (p.0, AscendingFrom-union_array_array (suc x) xs ys p.1 (rw e q.1))
  ]
]

-- An ascending array of the values of either of two.
abbrev pub IsUnion : ℕ → List ℕ → List ℕ → List ℕ → Type 0
IsUnion lo xs ys zs = AscendingFrom lo zs × ((c : ℕ) → mem c zs ≡ (mem c xs || mem c ys))

-- The union of two arrays that ascend from one bound ascends from it, so no value is repeated, and
-- contains a value exactly if one of the arrays does.
pub union_array_array-IsUnion :
    (lo : ℕ) (xs ys : List ℕ)
    → AscendingFrom lo xs
    → AscendingFrom lo ys
    → IsUnion lo xs ys (union_array_array xs ys)
union_array_array-IsUnion lo xs ys p q =
    (AscendingFrom-union_array_array lo xs ys p q, λ c. mem-union_array_array c xs ys)

pub AscendingFrom-xor_array_array :
    (lo : ℕ) (xs ys : List ℕ)
    → AscendingFrom lo xs
    → AscendingFrom lo ys
    → AscendingFrom lo (xor_array_array xs ys)
unfolding xor_array_array
AscendingFrom-xor_array_array lo [] ys p q = q
AscendingFrom-xor_array_array lo (x ∷ xs) [] p q = p
AscendingFrom-xor_array_array lo (x ∷ xs) (y ∷ ys) p q = elim (Bool-cases (ltb x y)) [
  | inl below ↦
      rw below (p.0, AscendingFrom-xor_array_array (suc x) xs (y ∷ ys) p.1 (ltb→lt x y below, q.1))
  | inr above ↦ elim (Bool-cases (ltb y x)) [
    | inl below ↦
        rw (above, below)
          (q.0, AscendingFrom-xor_array_array (suc y) (x ∷ xs) ys (ltb→lt y x below, p.1) q.1)
    | inr same ↦
        rw (above, same)
          (AscendingFrom-xor_array_array lo xs ys
            (AscendingFrom-weaken lo (suc x) xs (omega arith) p.1)
            (AscendingFrom-weaken lo (suc y) ys (omega arith) q.1))
  ]
]
