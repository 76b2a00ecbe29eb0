-- ===== src/Roaring/Run/Sets.antt =====
-- The set of values that runs stand for.
use pilosa.Common.{
  ℕ, suc, ◌+◌, ◌<◌, ◌≤◌, ◌≡◌, refl, List, [], ◌∷◌, Bool, false, ◌&&◌, ◌||◌, arith, leb,
}
use pilosa.Roaring.Run.{Interval16, max_container_val, runlen}

abbrev pub in_run : ℕ → Interval16 → Bool
in_run c r = leb r.start c && leb c r.last

abbrev pub run_mem : ℕ → List Interval16 → Bool
run_mem c [] = false
run_mem c (r ∷ rs) = in_run c r || run_mem c rs

-- The number of values.
abbrev pub cardinality : List Interval16 → ℕ
cardinality [] = 0
cardinality (r ∷ rs) = runlen r + cardinality rs

-- A run of 16-bit values, not empty.
abbrev pub IsRun : Interval16 → Type 0
IsRun r = (r.start ≤ r.last) × (r.last ≤ max_container_val)

-- Runs from `lo` on, in order and apart.
abbrev pub RunsFrom : ℕ → List Interval16 → Type 0
RunsFrom lo [] = Unit
RunsFrom lo (r ∷ rs) = (lo ≤ r.start) × IsRun r × RunsFrom (suc r.last) rs

pub RunsFrom-weaken :
    (lo lo' : ℕ) (rs : List Interval16) → lo ≤ lo' → RunsFrom lo' rs → RunsFrom lo rs
RunsFrom-weaken lo lo' [] h a = tt
RunsFrom-weaken lo lo' (r ∷ rs) h a = (omega arith, a.1, a.2)

pub run_mem_below :
    (lo c : ℕ) (rs : List Interval16) → RunsFrom lo rs → c < lo → run_mem c rs ≡ false
run_mem_below lo c [] a h = refl
run_mem_below lo c (r ∷ rs) a h = ground (arith, run_mem_below (suc r.last) c rs a.2)
