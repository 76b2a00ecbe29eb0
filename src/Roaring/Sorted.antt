-- ===== src/Roaring/Sorted.antt =====
-- Strictly ascending lists of numbers: what an array container holds.
use pilosa.Common.{ℕ, suc, ◌<◌, ◌≤◌, ◌≡◌, refl, List, [], ◌∷◌, Bool, false, ◌||◌, ◌==◌, arith}

-- Each value is at least `lo` and above the one before it.
abbrev pub AscendingFrom : ℕ → List ℕ → Type 0
AscendingFrom lo [] = Unit
AscendingFrom lo (x ∷ xs) = (lo ≤ x) × AscendingFrom (suc x) xs

abbrev pub mem : ℕ → List ℕ → Bool
mem c [] = false
mem c (x ∷ xs) = c == x || mem c xs

pub AscendingFrom-weaken :
    (lo lo' : ℕ) (xs : List ℕ) → lo ≤ lo' → AscendingFrom lo' xs → AscendingFrom lo xs
AscendingFrom-weaken lo lo' [] h a = tt
AscendingFrom-weaken lo lo' (x ∷ xs) h a = (omega arith, a.1)

pub mem_below : (lo c : ℕ) (xs : List ℕ) → AscendingFrom lo xs → c < lo → mem c xs ≡ false
mem_below lo c [] a h = refl
mem_below lo c (x ∷ xs) a h = ground (arith, mem_below (suc x) c xs a.1)
