-- ===== src/Roaring/Run/Update.antt =====
-- `runAdd`, `runContains` and `runRemove` of roaring/roaring.go: one value of a run container. A
-- run container is its runs and its cardinality.
pub mod Places
pub mod Inserts
pub mod Sets
pub mod Cuts
use pilosa.Common.{
  ℕ, suc, ◌+◌, ◌-◌, List, [], ◌∷◌, ◌++◌, Bool, true, false, not, ◌&&◌, ltb, leb, ◌==◌,
  if◌then◌else◌, length, get_or, take, drop, Option, none, some,
}
use pilosa.Roaring.Run.{Interval16, Output, next16, prev16}

-- `sort.Search` for the first run that ends at `v` or after it, and the number of runs if none
-- does.
unfoldable pub search_last : ℕ → List Interval16 → ℕ
search_last v [] = 0
search_last v (r ∷ rs) = let rest = search_last v rs in if leb v r.last then 0 else suc rest

abbrev pub zero_run : Interval16
zero_run = record { start = 0; last = 0 }

-- `runs[i]`.
abbrev pub run_at : List Interval16 → ℕ → Interval16
run_at runs i = get_or runs i zero_run

-- `runs` with `middle` in place of the runs from `i` to `j`, the latter excluded.
abbrev pub splice : List Interval16 → ℕ → List Interval16 → ℕ → List Interval16
splice runs i middle j = take i runs ++ (middle ++ drop j runs)

-- The cases of `runAdd` for a value outside the run that the search found.
unfoldable pub run_insert : List Interval16 → ℕ → ℕ → List Interval16
run_insert runs i v =
    let iv = run_at runs i in
    let before = run_at runs (i - 1) in
    let alone : Interval16 = record { start = v; last = v } in
    if ltb iv.last v
    then (if iv.last == prev16 v
        then splice runs i (record iv { last = next16 iv.last } ∷ []) (suc i)
        else runs ++ alone ∷ [])
    else if next16 v == iv.start
    then (if ltb 0 i && before.last == prev16 v
        then splice runs (i - 1) (record before { last = iv.last } ∷ []) (suc i)
        else splice runs i (record iv { start = prev16 iv.start } ∷ []) (suc i))
    else if ltb 0 i && prev16 v == before.last
    then splice runs (i - 1) (record before { last = next16 before.last } ∷ []) i
    else splice runs i (alone ∷ []) i

-- The index that `runAdd` looks at.
abbrev pub index_for : List Interval16 → ℕ → ℕ
index_for runs v = let i = search_last v runs in if i == length runs then i - 1 else i

unfoldable pub run_add : List Interval16 → ℕ → ℕ → Output × Bool
run_add runs n v =
    let i = index_for runs v in
    let iv = run_at runs i in
    if length runs == 0
    then ((record { start = v; last = v } ∷ [], 1), true)
    else if leb iv.start v && leb v iv.last
    then ((runs, n), false)
    else ((run_insert runs i v, n + 1), true)

-- `binSearchRuns`: the index, and whether the run there holds the value.
unfoldable pub bin_search_runs : ℕ → List Interval16 → ℕ × Bool
bin_search_runs v runs =
    let i = search_last v runs in
    let iv = run_at runs i in (i, ltb i (length runs) && (leb iv.start v && leb v iv.last))

pub run_contains : List Interval16 → ℕ → Bool
run_contains runs v = (bin_search_runs v runs).1

-- The cases of `runRemove` for a value of the run at `i`.
unfoldable pub run_cut : List Interval16 → ℕ → ℕ → List Interval16
run_cut runs i v =
    let iv = run_at runs i in
    if v == iv.last && v == iv.start
    then splice runs i [] (suc i)
    else if v == iv.last
    then splice runs i (record iv { last = prev16 iv.last } ∷ []) (suc i)
    else if v == iv.start
    then splice runs i (record iv { start = next16 iv.start } ∷ []) (suc i)
    else if ltb iv.start v
    then splice runs i
        (record iv { last = prev16 v } ∷ record { start = next16 v; last = iv.last } ∷ []) (suc i)
    else runs

-- `none` is the nil container.
unfoldable pub run_remove : List Interval16 → ℕ → ℕ → Option Output × Bool
run_remove runs n v =
    let (i, contains) = bin_search_runs v runs in
    if not contains
    then (some (runs, n), false)
    else if n == 1
    then (none, true)
    else (some (run_cut runs i v, n - 1), true)
