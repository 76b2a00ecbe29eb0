-- ===== src/Examples/Runs.antt =====
-- Run containers at concrete inputs.
use pilosa.Common.{ℕ, ◌≡◌, refl, List, [], ◌∷◌, true, some, arith}
use pilosa.Roaring.Sorted.{AscendingFrom}
use pilosa.Roaring.Run.{Interval16, union_loop, append_to, run_append_interval}
use pilosa.Roaring.Run.Sets.{RunsFrom}
use pilosa.Roaring.Run.Range.{count_range_loop}
use pilosa.Roaring.Run.Update.{
  search_last, run_add, run_insert, run_remove, run_cut, bin_search_runs,
}
use pilosa.Roaring.Run.Arrays.{Values16}

abbrev pub run : ℕ → ℕ → Interval16
run a b = record { start = a; last = b }

abbrev pub left : List Interval16
left = run 1 4 ∷ run 8 9 ∷ run 12 20 ∷ []

abbrev pub right : List Interval16
right = run 3 5 ∷ run 10 10 ∷ run 13 14 ∷ []

abbrev pub values : List ℕ
values = 2 ∷ 6 ∷ 13 ∷ []

pub left-RunsFrom : RunsFrom 0 left
left-RunsFrom = omega arith

pub right-RunsFrom : RunsFrom 0 right
right-RunsFrom = omega arith

pub values-AscendingFrom : AscendingFrom 0 values
values-AscendingFrom = omega arith

values-Values16 : Values16 values
values-Values16 = omega arith

union_test : union_loop left right ([], 0) ≡ (run 1 5 ∷ run 8 10 ∷ run 12 20 ∷ [], 17)
unfolding union_loop append_to run_append_interval
union_test = refl

-- The value between two runs joins them.
run_add_test : run_add (run 1 4 ∷ run 6 9 ∷ []) 8 5 ≡ ((run 1 9 ∷ [], 9), true)
unfolding run_add run_insert search_last
run_add_test = refl

-- A value inside a run splits it.
run_remove_test :
    run_remove left 15 15 ≡ (some (run 1 4 ∷ run 8 9 ∷ run 12 14 ∷ run 16 20 ∷ [], 14), true)
unfolding run_remove run_cut bin_search_runs search_last
run_remove_test = refl

-- The run from 8 to 9 is counted, and once more its part below 9.
run_count_range_test : count_range_loop left 5 9 0 ≡ 3
unfolding count_range_loop
run_count_range_test = refl
