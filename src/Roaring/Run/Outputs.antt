-- ===== src/Roaring/Run/Outputs.antt =====
-- An output container of roaring/roaring.go under construction: what appending an interval keeps.
use pilosa.Common.{ℕ, suc, ◌≤◌, ◌≡◌, List, [], ◌∷◌, Bool, ◌||◌, arith}
use pilosa.Roaring.Run.{Interval16, append_to, Output}
use pilosa.Roaring.Run.Sets.{in_run, run_mem, cardinality, IsRun, RunsFrom, RunsFrom-weaken}
use pilosa.Roaring.Run.Append.{
  LastStarts, mem-run_append_interval, RunsFrom-run_append_interval, LastStarts-run_append_interval,
  cardinality-run_append_interval,
}

-- Runs in order and apart, the last of which starts at `x` or before, with their cardinality.
abbrev pub IsOutput : ℕ → Output → Type 0
IsOutput x (runs, n) = RunsFrom 0 runs × LastStarts x runs × (n ≡ cardinality runs)

LastStarts-weaken : (x y : ℕ) (rs : List Interval16) → x ≤ y → LastStarts x rs → LastStarts y rs
LastStarts-weaken x y [] h l = tt
LastStarts-weaken x y (r ∷ []) h l = omega arith
LastStarts-weaken x y (r ∷ s ∷ rs) h l = LastStarts-weaken x y (s ∷ rs) h l

pub IsOutput-append_to :
    (x : ℕ) (out : Output) (v : Interval16)
    → IsOutput x out
    → x ≤ v.start
    → IsRun v
    → IsOutput v.start (append_to out v)
unfolding append_to
IsOutput-append_to x (runs, n) v (w, l, k) h i =
    let l' = LastStarts-weaken x v.start runs h l in
    (
      RunsFrom-run_append_interval 0 runs v (omega arith) w i l',
      LastStarts-run_append_interval v.start 0 runs v (omega arith) w l',
      ground (arith, cardinality-run_append_interval 0 runs v w i l'),
    )

pub mem-append_to :
    (c x : ℕ) (out : Output) (v : Interval16)
    → IsOutput x out
    → x ≤ v.start
    → IsRun v
    → run_mem c (append_to out v).0 ≡ (run_mem c out.0 || in_run c v)
unfolding append_to
mem-append_to c x (runs, n) v (w, l, k) h i =
    mem-run_append_interval c 0 runs v w i (LastStarts-weaken x v.start runs h l)

-- What a loop owes for the set `s` of values: well-formed runs, their cardinality, their members.
abbrev pub Builds : (ℕ → Bool) → Output → Type 0
Builds s (runs, n) = RunsFrom 0 runs × (n ≡ cardinality runs) × ((c : ℕ) → run_mem c runs ≡ s c)

pub RunsFrom-after :
    (x : ℕ) (a : Interval16) (rs : List Interval16) → RunsFrom x (a ∷ rs) → RunsFrom a.start rs
RunsFrom-after x a rs w = RunsFrom-weaken a.start (suc a.last) rs (omega arith) w.2

-- A step appends an interval and builds the rest.
pub Builds-append_to :
    (x : ℕ) (v : Interval16) (out : Output) (s t : ℕ → Bool)
    → IsOutput x out
    → x ≤ v.start
    → IsRun v
    → ((c : ℕ) → (in_run c v || s c) ≡ t c)
    → (result : Output) → Builds (λ c. run_mem c (append_to out v).0 || s c) result
    → Builds (λ c. run_mem c out.0 || t c) result
Builds-append_to x v out s t o h i e result b =
    (b.0, b.1, λ c. ground (arith, b.2 c, e c, mem-append_to c x out v o h i))

pub Builds-ap :
    (s t : ℕ → Bool) (result : Output) → ((c : ℕ) → s c ≡ t c) → Builds s result → Builds t result
Builds-ap s t result e b = (b.0, b.1, λ c. ground (arith, b.2 c, e c))
