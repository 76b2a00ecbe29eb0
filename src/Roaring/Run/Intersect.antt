-- ===== src/Roaring/Run/Intersect.antt =====
-- The intersections of roaring/roaring.go of run containers.
use pilosa.Common.{
  ℕ, suc, ◌≤◌, ◌≡◌, refl, List, [], ◌∷◌, Bool, true, ◌||◌, ◌&&◌, arith, ltb, leb, Bool-cases, inl,
  inr, ◌⊎◌,
}
use pilosa.Roaring.Run.{Interval16, append_to, Output, intersect_loop, intersect_run_run}
use pilosa.Roaring.Run.Sets.{in_run, run_mem, run_mem_below, IsRun, RunsFrom, RunsFrom-weaken}
use pilosa.Roaring.Run.Outputs.{
  IsOutput, IsOutput-append_to, Builds, Builds-ap, Builds-append_to, RunsFrom-after,
}

-- One of the lists starts at `x` or after, so that every common value does.
abbrev pub EitherFrom : ℕ → List Interval16 → List Interval16 → Type 0
EitherFrom x ra rb = RunsFrom x ra ⊎ RunsFrom x rb

abbrev pub both : Output → List Interval16 → List Interval16 → ℕ → Bool
both out ra rb c = run_mem c out.0 || run_mem c ra && run_mem c rb

pub skip_left :
    (x lo : ℕ) (a : Interval16) (ra rb : List Interval16)
    → RunsFrom lo (a ∷ ra)
    → EitherFrom x (a ∷ ra) rb
    → EitherFrom x ra rb
skip_left x lo a ra rb w (inl h) = inl (RunsFrom-weaken x (suc a.last) ra (omega arith) h.2)
skip_left x lo a ra rb w (inr h) = inr h

pub skip_right :
    (x lo : ℕ) (b : Interval16) (ra rb : List Interval16)
    → RunsFrom lo (b ∷ rb)
    → EitherFrom x ra (b ∷ rb)
    → EitherFrom x ra rb
skip_right x lo b ra rb w (inl h) = inl h
skip_right x lo b ra rb w (inr h) = inr (RunsFrom-weaken x (suc b.last) rb (omega arith) h.2)

from_both :
    (x s : ℕ) (a b : Interval16) (ra rb : List Interval16)
    → EitherFrom x (a ∷ ra) (b ∷ rb)
    → a.start ≤ s
    → b.start ≤ s
    → x ≤ s
from_both x s a b ra rb (inl h) ha hb = omega (arith, h.0)
from_both x s a b ra rb (inr h) ha hb = omega (arith, h.0)

-- A round that appends the interval `v` and goes on with `ra` and `rb`.
meet_lem :
    (x : ℕ) (a b v : Interval16) (as' bs ra rb : List Interval16) (out r : Output)
    → EitherFrom x (a ∷ as') (b ∷ bs)
    → IsOutput x out
    → a.start ≤ v.start
    → b.start ≤ v.start
    → IsRun v
    → ((c : ℕ)
        → (in_run c v || run_mem c ra && run_mem c rb)
          ≡ (run_mem c (a ∷ as') && run_mem c (b ∷ bs)))
    → (IsOutput v.start (append_to out v) → Builds (both (append_to out v) ra rb) r)
    → Builds (both out (a ∷ as') (b ∷ bs)) r
meet_lem x a b v as' bs ra rb out r w o ha hb i e rest =
    let h = from_both x v.start a b as' bs w ha hb in
    Builds-append_to x v out (λ c. run_mem c ra && run_mem c rb)
      (λ c. run_mem c (a ∷ as') && run_mem c (b ∷ bs)) o h i e r
      (rest (IsOutput-append_to x out v o h i))

intersect_loop_lem :
    (x la lb : ℕ) (ra rb : List Interval16) (out : Output)
    → RunsFrom la ra
    → RunsFrom lb rb
    → EitherFrom x ra rb
    → IsOutput x out
    → Builds (both out ra rb) (intersect_loop ra rb out)
unfolding intersect_loop
intersect_loop_lem x la lb [] rb out wa wb w o = (o.0, o.2, λ c. ground arith)
intersect_loop_lem x la lb (a ∷ as') [] out wa wb w o = (o.0, o.2, λ c. ground arith)
intersect_loop_lem x la lb (a ∷ as') (b ∷ bs) out wa wb w o =
    elim (Bool-cases (ltb a.last b.start)) [
      | inl e ↦ rw e (
          Builds-ap (both out as' (b ∷ bs)) (both out (a ∷ as') (b ∷ bs))
            (intersect_loop as' (b ∷ bs) out)
            (λ c. ground (arith, run_mem_below (suc b.last) c bs wb.2))
            (intersect_loop_lem x (suc a.last) lb as' (b ∷ bs) out wa.2 wb
              (skip_left x la a as' (b ∷ bs) wa w) o))
      | inr e ↦ elim (Bool-cases (ltb b.last a.start)) [
        | inl f ↦
            rw (e, f)
              (Builds-ap (both out (a ∷ as') bs) (both out (a ∷ as') (b ∷ bs))
                (intersect_loop (a ∷ as') bs out)
                (λ c. ground (arith, run_mem_below (suc a.last) c as' wa.2))
                (intersect_loop_lem x la (suc b.last) (a ∷ as') bs out wa wb.2
                  (skip_right x lb b (a ∷ as') bs wb w) o))
        | inr f ↦ elim (Bool-cases (ltb b.last a.last)) [
          | inl g ↦ elim (Bool-cases (leb b.start a.start)) [
            | inl h ↦
                rw (e, f, g, h)
                  (let v : Interval16 = record { start = a.start; last = b.last } in
                    meet_lem x a b v as' bs (a ∷ as') bs out
                      (intersect_loop (a ∷ as') bs (append_to out v)) w o (ground arith)
                      (ground arith) (ground arith)
                      (λ c. ground (
                        arith,
                        run_mem_below (suc b.last) c bs wb.2,
                        run_mem_below (suc a.last) c as' wa.2,
                      ))
                      (intersect_loop_lem a.start la (suc b.last) (a ∷ as') bs (append_to out v) wa
                        wb.2 (inl (omega arith, wa.1, wa.2))))
            | inr h ↦
                let h2 : ltb a.start b.start ≡ true = ground arith in
                rw (e, f, g, h, h2)
                  (meet_lem x a b b as' bs (a ∷ as') bs out
                    (intersect_loop (a ∷ as') bs (append_to out b)) w o (ground arith)
                    (ground arith) (ground arith)
                    (λ c. ground (
                      arith,
                      run_mem_below (suc b.last) c bs wb.2,
                      run_mem_below (suc a.last) c as' wa.2,
                    ))
                    (intersect_loop_lem b.start la (suc b.last) (a ∷ as') bs (append_to out b) wa
                      wb.2 (inr (RunsFrom-after lb b bs wb))))
          ]
          | inr g ↦
              let g2 : leb a.last b.last ≡ true = ground arith in
              elim (Bool-cases (leb b.start a.start)) [
                | inl h ↦
                    rw (e, f, g, g2, h)
                      (meet_lem x a b a as' bs as' (b ∷ bs) out
                        (intersect_loop as' (b ∷ bs) (append_to out a)) w o (ground arith)
                        (ground arith) (ground arith)
                        (λ c. ground (
                          arith,
                          run_mem_below (suc b.last) c bs wb.2,
                          run_mem_below (suc a.last) c as' wa.2,
                        ))
                        (intersect_loop_lem a.start (suc a.last) lb as' (b ∷ bs) (append_to out a)
                          wa.2 wb (inl (RunsFrom-after la a as' wa))))
                | inr h ↦
                    let h2 : ltb a.start b.start ≡ true = ground arith in
                    rw (e, f, g, g2, h, h2)
                      (let v : Interval16 = record { start = b.start; last = a.last } in
                        meet_lem x a b v as' bs as' (b ∷ bs) out
                          (intersect_loop as' (b ∷ bs) (append_to out v)) w o (ground arith)
                          (ground arith) (ground arith)
                          (λ c. ground (
                            arith,
                            run_mem_below (suc b.last) c bs wb.2,
                            run_mem_below (suc a.last) c as' wa.2,
                          ))
                          (intersect_loop_lem b.start (suc a.last) lb as' (b ∷ bs) (append_to out v)
                            wa.2 wb (inr (omega arith, wb.1, wb.2))))
              ]
        ]
      ]
    ]

-- For run containers whose runs are 16-bit, in order and apart, intersectRunRun returns such runs,
-- which contain a value exactly if both containers do, and sets the cardinality to their number of
-- values.
pub intersect_run_run-Builds :
    (ra rb : List Interval16)
    → RunsFrom 0 ra
    → RunsFrom 0 rb
    → Builds (λ c. run_mem c ra && run_mem c rb) (intersect_run_run ra rb)
unfolding intersect_run_run
intersect_run_run-Builds ra rb wa wb =
    intersect_loop_lem 0 0 0 ra rb ([], 0) wa wb (inl wa) (tt, tt, refl)
