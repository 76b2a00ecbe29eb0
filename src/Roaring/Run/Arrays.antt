-- ===== src/Roaring/Run/Arrays.antt =====
-- The operations of roaring/roaring.go on an array container and a run container.
use pilosa.Common.{
  ℕ, suc, ◌≤◌, ◌≡◌, ap, refl, List, [], ◌∷◌, ◌&&◌, ◌||◌, arith, ltb, Bool-cases, inl, inr,
}
use pilosa.Roaring.Sorted.{AscendingFrom, AscendingFrom-weaken, mem, mem_below}
use pilosa.Roaring.Run.{
  Interval16, append_to, Output, union_loop, union_run_run, union_array_loop, union_array_run,
  intersect_array_run, max_container_val,
}
use pilosa.Roaring.Run.Sets.{run_mem, run_mem_below, RunsFrom}
use pilosa.Roaring.Run.Outputs.{Builds, Builds-ap}
use pilosa.Roaring.Run.Union.{union_run_run-Builds}

-- The values are 16 bits wide.
abbrev pub Values16 : List ℕ → Type 0
Values16 [] = Unit
Values16 (x ∷ xs) = (x ≤ max_container_val) × Values16 xs

-- The array as runs of one value each.
abbrev unit_runs : List ℕ → List Interval16
unit_runs [] = []
unit_runs (x ∷ xs) = record { start = x; last = x } ∷ unit_runs xs

RunsFrom-unit_runs :
    (lo : ℕ) (xs : List ℕ) → AscendingFrom lo xs → Values16 xs → RunsFrom lo (unit_runs xs)
RunsFrom-unit_runs lo [] a v = tt
RunsFrom-unit_runs lo (x ∷ xs) a v =
    (a.0, (omega arith, v.0), RunsFrom-unit_runs (suc x) xs a.1 v.1)

mem-unit_runs : (c : ℕ) (xs : List ℕ) → run_mem c (unit_runs xs) ≡ mem c xs
mem-unit_runs c [] = refl
mem-unit_runs c (x ∷ xs) = ground (arith, mem-unit_runs c xs)

union_array_loop_lem :
    (aa : List ℕ) (rb : List Interval16) (out : Output)
    → union_array_loop aa rb out ≡ union_loop (unit_runs aa) rb out
unfolding union_array_loop union_loop
union_array_loop_lem [] [] out = refl
union_array_loop_lem [] (b ∷ bs) out = union_array_loop_lem [] bs (append_to out b)
union_array_loop_lem (a ∷ as') [] out =
    union_array_loop_lem as' [] (append_to out (record { start = a; last = a }))
union_array_loop_lem (a ∷ as') (b ∷ bs) out = elim (Bool-cases (ltb a b.start)) [
  | inl e ↦
      rw e (union_array_loop_lem as' (b ∷ bs) (append_to out (record { start = a; last = a })))
  | inr e ↦ rw e (union_array_loop_lem (a ∷ as') bs (append_to out b))
]

-- For an ascending array of 16-bit values and a run container whose runs are 16-bit, in order and
-- apart, unionArrayRun returns such runs, which contain a value exactly if the array or the run
-- container does, and sets the cardinality to their number of values.
pub union_array_run-Builds :
    (aa : List ℕ) (rb : List Interval16)
    → AscendingFrom 0 aa
    → Values16 aa
    → RunsFrom 0 rb
    → Builds (λ c. mem c aa || run_mem c rb) (union_array_run aa rb)
unfolding union_array_run union_run_run
union_array_run-Builds aa rb a v w = rw (union_array_loop_lem aa rb ([], 0)) (
    Builds-ap (λ c. run_mem c (unit_runs aa) || run_mem c rb) (λ c. mem c aa || run_mem c rb)
      (union_run_run (unit_runs aa) rb) (λ c. ap (λ b. b || run_mem c rb) (mem-unit_runs c aa))
      (union_run_run-Builds (unit_runs aa) rb (RunsFrom-unit_runs 0 aa a v) w))

-- For an array that ascends from a bound and a run container whose runs are 16-bit, in order and
-- apart, intersectArrayRun returns an array that ascends from the bound and contains a value
-- exactly if both containers do.
pub intersect_array_run-eq-both :
    (lo lb : ℕ) (aa : List ℕ) (rb : List Interval16)
    → AscendingFrom lo aa
    → RunsFrom lb rb
    → AscendingFrom lo (intersect_array_run aa rb)
      × ((c : ℕ) → mem c (intersect_array_run aa rb) ≡ (mem c aa && run_mem c rb))
unfolding intersect_array_run
intersect_array_run-eq-both lo lb [] rb a w = (tt, λ c. refl)
intersect_array_run-eq-both lo lb (x ∷ xs) [] a w = (tt, λ c. ground arith)
intersect_array_run-eq-both lo lb (x ∷ xs) (b ∷ bs) a w = elim (Bool-cases (ltb x b.start)) [
  | inl e ↦ rw e (
      let rest = intersect_array_run-eq-both (suc x) lb xs (b ∷ bs) a.1 w in
      (
        AscendingFrom-weaken lo (suc x) (intersect_array_run xs (b ∷ bs)) (omega (arith, a.0))
            rest.0,
        λ c. ground (arith, rest.1 c, run_mem_below (suc b.last) c bs w.2),
      ))
  | inr e ↦ elim (Bool-cases (ltb b.last x)) [
    | inl f ↦
        rw (e, f)
          (let rest = intersect_array_run-eq-both lo (suc b.last) (x ∷ xs) bs a w.2 in
            (rest.0, λ c. ground (arith, rest.1 c, mem_below (suc x) c xs a.1)))
    | inr f ↦
        rw (e, f)
          (let rest = intersect_array_run-eq-both (suc x) lb xs (b ∷ bs) a.1 w in
            ((a.0, rest.0), λ c. ground (arith, rest.1 c, run_mem_below (suc b.last) c bs w.2)))
  ]
]
