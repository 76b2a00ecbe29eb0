-- ===== src/Roaring/Run/Union.antt =====
-- The unions of roaring/roaring.go that build a run container.
use pilosa.Common.{ℕ, refl, List, [], ◌∷◌, false, ◌||◌, arith, ltb, Bool-cases, inl, inr}
use pilosa.Roaring.Run.{Interval16, append_to, Output, union_loop, union_run_run}
use pilosa.Roaring.Run.Sets.{run_mem, RunsFrom}
use pilosa.Roaring.Run.Outputs.{
  IsOutput, IsOutput-append_to, Builds, Builds-append_to, RunsFrom-after,
}

union_loop_lem :
    (x : ℕ) (ra rb : List Interval16) (out : Output)
    → RunsFrom x ra
    → RunsFrom x rb
    → IsOutput x out
    → Builds (λ c. run_mem c out.0 || (run_mem c ra || run_mem c rb)) (union_loop ra rb out)
unfolding union_loop
union_loop_lem x [] [] out wa wb o = (o.0, o.2, λ c. ground arith)
union_loop_lem x [] (b ∷ bs) out wa wb o =
    Builds-append_to x b out (λ c. run_mem c bs) (λ c. run_mem c (b ∷ bs)) o wb.0 wb.1 (λ c. refl)
      (union_loop [] bs (append_to out b))
      (union_loop_lem b.start [] bs (append_to out b) tt (RunsFrom-after x b bs wb)
        (IsOutput-append_to x out b o wb.0 wb.1))
union_loop_lem x (a ∷ as') [] out wa wb o =
    Builds-append_to x a out (λ c. run_mem c as' || false) (λ c. run_mem c (a ∷ as') || false) o
      wa.0 wa.1 (λ c. ground arith) (union_loop as' [] (append_to out a))
      (union_loop_lem a.start as' [] (append_to out a) (RunsFrom-after x a as' wa) tt
        (IsOutput-append_to x out a o wa.0 wa.1))
union_loop_lem x (a ∷ as') (b ∷ bs) out wa wb o = elim (Bool-cases (ltb a.start b.start)) [
  | inl e ↦ rw e (
      Builds-append_to x a out (λ c. run_mem c as' || run_mem c (b ∷ bs))
        (λ c. run_mem c (a ∷ as') || run_mem c (b ∷ bs)) o wa.0 wa.1 (λ c. ground arith)
        (union_loop as' (b ∷ bs) (append_to out a))
        (union_loop_lem a.start as' (b ∷ bs) (append_to out a) (RunsFrom-after x a as' wa)
          (ground arith, wb.1, wb.2) (IsOutput-append_to x out a o wa.0 wa.1)))
  | inr e ↦ rw e (
      Builds-append_to x b out (λ c. run_mem c (a ∷ as') || run_mem c bs)
        (λ c. run_mem c (a ∷ as') || run_mem c (b ∷ bs)) o wb.0 wb.1 (λ c. ground arith)
        (union_loop (a ∷ as') bs (append_to out b))
        (union_loop_lem b.start (a ∷ as') bs (append_to out b) (ground arith, wa.1, wa.2)
          (RunsFrom-after x b bs wb) (IsOutput-append_to x out b o wb.0 wb.1)))
]

-- For run containers whose runs are 16-bit, in order and apart, unionRunRun returns such runs,
-- which contain a value exactly if one of the containers does, and sets the cardinality to their
-- number of values.
pub union_run_run-Builds :
    (ra rb : List Interval16)
    → RunsFrom 0 ra
    → RunsFrom 0 rb
    → Builds (λ c. run_mem c ra || run_mem c rb) (union_run_run ra rb)
unfolding union_run_run
union_run_run-Builds ra rb wa wb = union_loop_lem 0 ra rb ([], 0) wa wb (tt, tt, refl)
