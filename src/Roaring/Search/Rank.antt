-- ===== src/Roaring/Search/Rank.antt =====
-- The number of values of an ascending array below a value, which is where the value belongs.
use pilosa.Common.{
  ℕ, zero, suc, ◌<◌, ◌≤◌, ◌≡◌, refl, List, [], ◌∷◌, false, arith, length, ltb, get_or,
  if◌then◌else◌, ◌==◌,
}
use pilosa.Roaring.Sorted.{AscendingFrom, mem, mem_below}

unfoldable pub rank : List ℕ → ℕ → ℕ
rank [] v = 0
rank (x ∷ xs) v = if ltb x v then suc (rank xs v) else 0

pub rank-le-length : (xs : List ℕ) (v : ℕ) → rank xs v ≤ length xs
unfolding rank
rank-le-length [] v = omega arith
rank-le-length (x ∷ xs) v = ground (arith, rank-le-length xs v)

pub get_below_rank : (xs : List ℕ) (v i : ℕ) → i < rank xs v → get_or xs i 0 < v
unfolding rank
get_below_rank [] v i h = absurd (omega arith)
get_below_rank (x ∷ xs) v zero h = ground arith
get_below_rank (x ∷ xs) v (suc i) h = ground (arith, get_below_rank xs v i)

-- From the rank on every value is at least `v`; past it, above.
pub get_from :
    (lo : ℕ) (xs : List ℕ) (i : ℕ) → AscendingFrom lo xs → i < length xs → lo ≤ get_or xs i 0
get_from lo [] i p h = absurd (omega arith)
get_from lo (x ∷ xs) zero p h = p.0
get_from lo (x ∷ xs) (suc i) p h = omega (arith, p.0, get_from (suc x) xs i p.1 (omega arith))

pub get_from_rank :
    (lo : ℕ) (xs : List ℕ) (v i : ℕ)
    → AscendingFrom lo xs
    → rank xs v ≤ i
    → i < length xs
    → v ≤ get_or xs i 0
unfolding rank
get_from_rank lo [] v i p h k = absurd (omega arith)
get_from_rank lo (x ∷ xs) v zero p h k = ground arith
get_from_rank lo (x ∷ xs) v (suc i) p h k =
    ground (arith, get_from_rank (suc x) xs v i p.1, get_from (suc x) xs i p.1)

pub get_past_rank :
    (lo : ℕ) (xs : List ℕ) (v i : ℕ)
    → AscendingFrom lo xs
    → rank xs v < i
    → i < length xs
    → v < get_or xs i 0
unfolding rank
get_past_rank lo [] v i p h k = absurd (omega arith)
get_past_rank lo (x ∷ xs) v zero p h k = absurd (omega arith)
get_past_rank lo (x ∷ xs) v (suc i) p h k =
    ground (arith, get_past_rank (suc x) xs v i p.1, get_from (suc x) xs i p.1)

-- A value is a member exactly when it stands at its rank.
pub mem_at_rank :
    (lo : ℕ) (xs : List ℕ) (v : ℕ)
    → AscendingFrom lo xs
    → mem v xs ≡ (if ltb (rank xs v) (length xs) then get_or xs (rank xs v) 0 == v else false)
unfolding rank
mem_at_rank lo [] v p = refl
mem_at_rank lo (x ∷ xs) v p =
    ground (arith, mem_at_rank (suc x) xs v p.1, mem_below (suc x) v xs p.1)
