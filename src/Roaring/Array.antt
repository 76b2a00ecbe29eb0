-- ===== src/Roaring/Array.antt =====
-- The array containers of roaring/roaring.go: ascending lists of 16-bit values. A Go loop over two
-- indices is a recursion on what the indices have left.
pub mod Merge
pub mod Count
use pilosa.Common.{
  ℕ, zero, suc, ◌+◌, ◌-◌, ◌/◌, List, [], ◌∷◌, ◌++◌, Bool, true, false, not, ◌&&◌, ltb, leb, ◌==◌,
  if◌then◌else◌, length, get_or, take, drop,
}

abbrev pub array_max_size : ℕ
array_max_size = 4096

pub intersect_array_array : List ℕ → List ℕ → List ℕ
intersect_array_array [] bs = []
intersect_array_array (a ∷ as') [] = []
intersect_array_array (a ∷ as') (b ∷ bs) =
    let skip_a = intersect_array_array as' (b ∷ bs) in
    let skip_b = intersect_array_array (a ∷ as') bs in
    let both = a ∷ intersect_array_array as' bs in
    if ltb a b then skip_a else if ltb b a then skip_b else both

pub union_array_array : List ℕ → List ℕ → List ℕ
union_array_array [] bs = bs
union_array_array (a ∷ as') [] = a ∷ as'
union_array_array (a ∷ as') (b ∷ bs) =
    let first = a ∷ union_array_array as' (b ∷ bs) in
    let second = b ∷ union_array_array (a ∷ as') bs in
    let both = a ∷ union_array_array as' bs in
    if ltb a b then first else if ltb b a then second else both

pub xor_array_array : List ℕ → List ℕ → List ℕ
xor_array_array [] bs = bs
xor_array_array (a ∷ as') [] = a ∷ as'
xor_array_array (a ∷ as') (b ∷ bs) =
    let first = a ∷ xor_array_array as' (b ∷ bs) in
    let second = b ∷ xor_array_array (a ∷ as') bs in
    let neither = xor_array_array as' bs in
    if ltb a b then first else if ltb b a then second else neither

-- The inner loop of `intersectionCountArrayArray`: `cb[j:]` from the first value not below `va`.
pub skip_below : ℕ → List ℕ → List ℕ
skip_below va [] = []
skip_below va (b ∷ bs) = let rest = skip_below va bs in if ltb b va then rest else b ∷ bs

-- Its outer loop, over the shorter array; it stops when the longer one runs out.
pub count_common : List ℕ → List ℕ → ℕ → ℕ
unfolding skip_below
count_common [] bs n = n
count_common (a ∷ as') bs n = elim (skip_below a bs) [
  | [] ↦ n
  | b ∷ bs' ↦ count_common as' (b ∷ bs') (if b == a then n + 1 else n)
]

pub intersection_count_array_array : List ℕ → List ℕ → ℕ
unfolding count_common
intersection_count_array_array ca cb =
    if ltb (length cb) (length ca) then count_common cb ca 0 else count_common ca cb 0
