-- ===== src/Roaring/Run/Append.antt =====
-- `runAppendInterval` adds an interval that starts no earlier than the last run.
use pilosa.Common.{ℕ, suc, ◌+◌, ◌≤◌, ◌≡◌, List, [], ◌∷◌, ◌||◌, arith}
use pilosa.Roaring.Run.{Interval16, run_append_interval}
use pilosa.Roaring.Run.Sets.{in_run, run_mem, cardinality, IsRun, RunsFrom}

-- The last run starts at `x` or before.
abbrev pub LastStarts : ℕ → List Interval16 → Type 0
LastStarts x [] = Unit
LastStarts x (r ∷ []) = r.start ≤ x
LastStarts x (r ∷ s ∷ rs) = LastStarts x (s ∷ rs)

pub mem-run_append_interval :
    (c lo : ℕ) (rs : List Interval16) (v : Interval16)
    → RunsFrom lo rs
    → IsRun v
    → LastStarts v.start rs
    → run_mem c (run_append_interval rs v).0 ≡ (run_mem c rs || in_run c v)
unfolding run_append_interval
mem-run_append_interval c lo [] v w i l = ground arith
mem-run_append_interval c lo (r ∷ []) v w i l = ground arith
mem-run_append_interval c lo (r ∷ s ∷ rs) v w i l =
    ground (arith, mem-run_append_interval c (suc r.last) (s ∷ rs) v w.2 i l)

last_start_from :
    (lo x : ℕ) (r : Interval16) (rs : List Interval16)
    → RunsFrom lo (r ∷ rs)
    → LastStarts x (r ∷ rs)
    → lo ≤ x
last_start_from lo x r [] w l = ground arith
last_start_from lo x r (s ∷ rs) w l = ground (arith, last_start_from (suc r.last) x s rs w.2 l)

pub RunsFrom-run_append_interval :
    (lo : ℕ) (rs : List Interval16) (v : Interval16)
    → lo ≤ v.start
    → RunsFrom lo rs
    → IsRun v
    → LastStarts v.start rs
    → RunsFrom lo (run_append_interval rs v).0
unfolding run_append_interval
RunsFrom-run_append_interval lo [] v b w i l = (b, i, tt)
RunsFrom-run_append_interval lo (r ∷ []) v b w i l = ground arith
RunsFrom-run_append_interval lo (r ∷ s ∷ rs) v b w i l = (
  w.0,
  w.1,
  RunsFrom-run_append_interval (suc r.last) (s ∷ rs) v
      (last_start_from (suc r.last) v.start s rs w.2 l) w.2 i l,
)

pub LastStarts-run_append_interval :
    (x lo : ℕ) (rs : List Interval16) (v : Interval16)
    → v.start ≤ x
    → RunsFrom lo rs
    → LastStarts v.start rs
    → LastStarts x (run_append_interval rs v).0
unfolding run_append_interval
LastStarts-run_append_interval x lo [] v h w l = h
LastStarts-run_append_interval x lo (r ∷ []) v h w l = ground arith
LastStarts-run_append_interval x lo (r ∷ s ∷ []) v h w l = ground arith
LastStarts-run_append_interval x lo (r ∷ s ∷ t ∷ rs) v h w l =
    LastStarts-run_append_interval x (suc r.last) (s ∷ t ∷ rs) v h w.2 l

pub cardinality-run_append_interval :
    (lo : ℕ) (rs : List Interval16) (v : Interval16)
    → RunsFrom lo rs
    → IsRun v
    → LastStarts v.start rs
    → cardinality (run_append_interval rs v).0 ≡ cardinality rs + (run_append_interval rs v).1
unfolding run_append_interval
cardinality-run_append_interval lo [] v w i l = ground arith
cardinality-run_append_interval lo (r ∷ []) v w i l = ground arith
cardinality-run_append_interval lo (r ∷ s ∷ rs) v w i l =
    ground (arith, cardinality-run_append_interval (suc r.last) (s ∷ rs) v w.2 i l)
