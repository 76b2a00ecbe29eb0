-- ===== src/Roaring/Difference/Sets.antt =====
-- The difference of two array containers holds the values of the first that the second lacks.
use pilosa.Common.{
  ℕ, suc, ◌<◌, ◌≡◌, refl, List, [], ◌∷◌, true, not, ◌&&◌, ◌||◌, arith, ltb, if◌then◌else◌, some,
  Bool-cases, inl, inr,
}
use pilosa.Roaring.Sorted.{AscendingFrom, mem, mem_below, AscendingFrom-weaken}
use pilosa.Roaring.Container.{Container, container_array}
use pilosa.Roaring.Container.Kinds.{container_width, IsArray, IsContainer, members}
use pilosa.Roaring.Container.Sets.{add-Adds}
use pilosa.Roaring.Intersect.Values.{Holds}
use pilosa.Roaring.Difference.{push, difference_loop, difference_array_array}

-- The values that the loop keeps.
pub keep : List ℕ → List ℕ → List ℕ
keep [] bs = []
keep (a ∷ as') [] = a ∷ keep as' []
keep (a ∷ as') (b ∷ bs) =
    let keep_a = a ∷ keep as' (b ∷ bs) in
    let skip_b = keep (a ∷ as') bs in
    let drop_both = keep as' bs in if ltb a b then keep_a else if ltb b a then skip_b else drop_both

pub mem-keep :
    (lo c : ℕ) (xs ys : List ℕ)
    → AscendingFrom lo xs
    → AscendingFrom lo ys
    → mem c (keep xs ys) ≡ (mem c xs && not (mem c ys))
unfolding keep
mem-keep lo c [] ys p q = refl
mem-keep lo c (x ∷ xs) [] p q = ground (arith, mem-keep (suc x) c xs [] p.1 tt)
mem-keep lo c (x ∷ xs) (y ∷ ys) p q = ground (
  arith,
  mem-keep lo c xs (y ∷ ys) (AscendingFrom-weaken lo (suc x) xs (omega arith) p.1) q,
  mem-keep lo c (x ∷ xs) ys p (AscendingFrom-weaken lo (suc y) ys (omega arith) q.1),
  mem-keep lo c xs ys (AscendingFrom-weaken lo (suc x) xs (omega arith) p.1)
      (AscendingFrom-weaken lo (suc y) ys (omega arith) q.1),
  mem_below (suc x) c xs p.1,
  mem_below (suc y) c ys q.1,
)

pub AscendingFrom-keep :
    (lo : ℕ) (xs ys : List ℕ) → AscendingFrom lo xs → AscendingFrom lo (keep xs ys)
unfolding keep
AscendingFrom-keep lo [] ys p = tt
AscendingFrom-keep lo (x ∷ xs) [] p = (p.0, AscendingFrom-keep (suc x) xs [] p.1)
AscendingFrom-keep lo (x ∷ xs) (y ∷ ys) p = ground (
  arith,
  AscendingFrom-keep (suc x) xs (y ∷ ys) p.1,
  AscendingFrom-keep lo (x ∷ xs) ys p,
  AscendingFrom-keep lo xs ys (AscendingFrom-weaken lo (suc x) xs (omega arith) p.1),
)

-- A container with the values of the old one and those of a list.
abbrev Grows : Container → List ℕ → Container → Type 0
Grows c kept c' =
    IsContainer (some c') × ((u : ℕ) → members (some c') u ≡ (members (some c) u || mem u kept))

push-Grows :
    (c : Container) (v : ℕ) (kept : List ℕ) (c' : Container)
    → IsContainer (some c)
    → v < container_width
    → Grows (push c v) kept c'
    → Grows c (v ∷ kept) c'
unfolding push
push-Grows c v kept c' p h (shape, holds) =
    let (report, whole, added) = add-Adds (some c) v p h in
    (shape, λ u. ground (arith, holds u, added u))

push-IsContainer :
    (c : Container) (v : ℕ)
    → IsContainer (some c)
    → v < container_width
    → IsContainer (some (push c v))
unfolding push
push-IsContainer c v p h = (add-Adds (some c) v p h).1

abbrev Values16 : List ℕ → Type 0
Values16 xs = (c : ℕ) → mem c xs ≡ true → c < container_width

first : (x : ℕ) (xs : List ℕ) → Values16 (x ∷ xs) → x < container_width
first x xs b = b x (ground arith)

rest : (x : ℕ) (xs : List ℕ) → Values16 (x ∷ xs) → Values16 xs
rest x xs b c e = b c (ground arith)

difference_loop-Grows :
    (xs ys : List ℕ) (c : Container)
    → Values16 xs
    → IsContainer (some c)
    → Grows c (keep xs ys) (difference_loop xs ys c)
unfolding difference_loop keep
difference_loop-Grows [] ys c b p = (p, λ u. ground arith)
difference_loop-Grows (x ∷ xs) [] c b p =
    push-Grows c x (keep xs []) (difference_loop xs [] (push c x)) p (first x xs b)
      (difference_loop-Grows xs [] (push c x) (rest x xs b) (push-IsContainer c x p (first x xs b)))
difference_loop-Grows (x ∷ xs) (y ∷ ys) c b p = elim (Bool-cases (ltb x y)) [
  | inl less ↦ rw less (
      push-Grows c x (keep xs (y ∷ ys)) (difference_loop xs (y ∷ ys) (push c x)) p (first x xs b) (
        difference_loop-Grows xs (y ∷ ys) (push c x) (rest x xs b)
          (push-IsContainer c x p (first x xs b))))
  | inr not_less ↦ elim (Bool-cases (ltb y x)) [
    | inl more ↦ rw (not_less, more) (difference_loop-Grows (x ∷ xs) ys c b p)
    | inr same ↦ rw (not_less, same) (difference_loop-Grows xs ys c (rest x xs b) p)
  ]
]

-- For ascending arrays of 16-bit values, of any length, differenceArrayArray returns a well-formed
-- container, with its cardinality right, of the values of the first that are not in the second.
pub difference_array_array-Holds :
    (xs ys : List ℕ)
    → IsArray xs
    → IsArray ys
    → Holds (λ (u : ℕ). mem u xs && not (mem u ys)) (difference_array_array xs ys)
unfolding difference_array_array
difference_array_array-Holds xs ys p q =
    let (shape, holds) =
      difference_loop-Grows xs ys (container_array []) p.1 (tt, λ c e. ground arith) in
    (shape, λ u. ground (arith, holds u, mem-keep 0 u xs ys p.0 q.0))
