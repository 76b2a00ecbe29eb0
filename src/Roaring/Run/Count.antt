-- ===== src/Roaring/Run/Count.antt =====
-- `intersectionCountRunRun` of roaring/roaring.go counts what `intersectRunRun` builds.
use pilosa.Common.{
  ℕ, suc, ◌+◌, ◌≤◌, ◌<◌, ◌≡◌, ◌∙◌, ap, sym, refl, List, [], ◌∷◌, true, arith, ltb, leb, Bool-cases,
  inl, inr,
}
use pilosa.Roaring.Run.{
  Interval16, append_to, run_append_interval, runlen, Output, intersect_loop, intersect_run_run,
  intersection_count_loop, intersection_count_run_run,
}
use pilosa.Roaring.Run.Sets.{IsRun, RunsFrom}
use pilosa.Roaring.Run.Intersect.{EitherFrom, skip_left, skip_right}

-- The last run ends before `x`.
abbrev LastEnds : ℕ → List Interval16 → Type 0
LastEnds x [] = Unit
LastEnds x (r ∷ []) = r.last < x
LastEnds x (r ∷ s ∷ rs) = LastEnds x (s ∷ rs)

LastEnds-weaken : (x y : ℕ) (rs : List Interval16) → x ≤ y → LastEnds x rs → LastEnds y rs
LastEnds-weaken x y [] h l = tt
LastEnds-weaken x y (r ∷ []) h l = omega arith
LastEnds-weaken x y (r ∷ s ∷ rs) h l = LastEnds-weaken x y (s ∷ rs) h l

growth-run_append_interval :
    (rs : List Interval16) (v : Interval16)
    → LastEnds v.start rs
    → IsRun v
    → (run_append_interval rs v).1 ≡ runlen v
unfolding run_append_interval
growth-run_append_interval [] v l i = refl
growth-run_append_interval (r ∷ []) v l i = ground arith
growth-run_append_interval (r ∷ s ∷ rs) v l i = growth-run_append_interval (s ∷ rs) v l i

growth_lem :
    (out : Output) (v : Interval16)
    → LastEnds v.start out.0
    → IsRun v
    → (append_to out v).1 ≡ out.1 + runlen v
unfolding append_to
growth_lem (runs, n) v l i = ap (λ k. n + k) (growth-run_append_interval runs v l i)

LastEnds-run_append_interval :
    (rs : List Interval16) (v : Interval16)
    → LastEnds v.start rs
    → IsRun v
    → LastEnds (suc v.last) (run_append_interval rs v).0
unfolding run_append_interval
LastEnds-run_append_interval [] v l i = omega arith
LastEnds-run_append_interval (r ∷ []) v l i = ground arith
LastEnds-run_append_interval (r ∷ s ∷ []) v l i = ground arith
LastEnds-run_append_interval (r ∷ s ∷ t ∷ rs) v l i =
    LastEnds-run_append_interval (s ∷ t ∷ rs) v l i

LastEnds-append_to :
    (out : Output) (v : Interval16)
    → LastEnds v.start out.0
    → IsRun v
    → LastEnds (suc v.last) (append_to out v).0
unfolding append_to
LastEnds-append_to (runs, n) v l i = LastEnds-run_append_interval runs v l i

LastEnds-both :
    (x s : ℕ) (a b : Interval16) (ra rb rs : List Interval16)
    → EitherFrom x (a ∷ ra) (b ∷ rb)
    → LastEnds x rs
    → a.start ≤ s
    → b.start ≤ s
    → LastEnds s rs
LastEnds-both x s a b ra rb rs (inl h) l ha hb = LastEnds-weaken x s rs (omega (arith, h.0)) l
LastEnds-both x s a b ra rb rs (inr h) l ha hb = LastEnds-weaken x s rs (omega (arith, h.0)) l

count_loop_lem :
    (x la lb : ℕ) (ra rb : List Interval16) (out : Output)
    → RunsFrom la ra
    → RunsFrom lb rb
    → EitherFrom x ra rb
    → LastEnds x out.0
    → (intersect_loop ra rb out).1 ≡ intersection_count_loop ra rb out.1
unfolding intersect_loop intersection_count_loop
count_loop_lem x la lb [] rb out wa wb w o = refl
count_loop_lem x la lb (a ∷ as') [] out wa wb w o = refl
count_loop_lem x la lb (a ∷ as') (b ∷ bs) out wa wb w o = elim (Bool-cases (ltb a.last b.start)) [
  | inl e ↦ rw e (
      count_loop_lem x (suc a.last) lb as' (b ∷ bs) out wa.2 wb (skip_left x la a as' (b ∷ bs) wa w)
        o
      ∙ ap (intersection_count_loop as' (b ∷ bs)) (omega arith))
  | inr e ↦ elim (Bool-cases (ltb b.last a.start)) [
    | inl f ↦
        rw (e, f)
          (count_loop_lem x la (suc b.last) (a ∷ as') bs out wa wb.2
              (skip_right x lb b (a ∷ as') bs wb w) o
            ∙ ap (intersection_count_loop (a ∷ as') bs) (omega arith))
    | inr f ↦ elim (Bool-cases (ltb b.last a.last)) [
      | inl g ↦ elim (Bool-cases (leb b.start a.start)) [
        | inl h ↦
            rw (e, f, g, h)
              (let v : Interval16 = record { start = a.start; last = b.last } in
                let l =
                  LastEnds-both x v.start a b as' bs out.0 w o (ground arith) (ground arith) in
                count_loop_lem (suc b.last) la (suc b.last) (a ∷ as') bs (append_to out v) wa wb.2
                  (inr wb.2) (LastEnds-append_to out v l (ground arith))
                ∙ ap (intersection_count_loop (a ∷ as') bs)
                    (ground (arith, growth_lem out v l (ground arith))))
        | inr h ↦
            let h2 : ltb a.start b.start ≡ true = ground arith in
            rw (e, f, g, h, h2)
              (let l = LastEnds-both x b.start a b as' bs out.0 w o (ground arith) (ground arith) in
                count_loop_lem (suc b.last) la (suc b.last) (a ∷ as') bs (append_to out b) wa wb.2
                  (inr wb.2) (LastEnds-append_to out b l (ground arith))
                ∙ ap (intersection_count_loop (a ∷ as') bs)
                    (ground (arith, growth_lem out b l (ground arith))))
      ]
      | inr g ↦
          let g2 : leb a.last b.last ≡ true = ground arith in
          elim (Bool-cases (leb b.start a.start)) [
            | inl h ↦
                rw (e, f, g, g2, h)
                  (let l =
                      LastEnds-both x a.start a b as' bs out.0 w o (ground arith) (ground arith) in
                    count_loop_lem (suc a.last) (suc a.last) lb as' (b ∷ bs) (append_to out a) wa.2
                      wb (inl wa.2) (LastEnds-append_to out a l (ground arith))
                    ∙ ap (intersection_count_loop as' (b ∷ bs))
                        (ground (arith, growth_lem out a l (ground arith))))
            | inr h ↦
                let h2 : ltb a.start b.start ≡ true = ground arith in
                rw (e, f, g, g2, h, h2)
                  (let v : Interval16 = record { start = b.start; last = a.last } in
                    let l =
                      LastEnds-both x v.start a b as' bs out.0 w o (ground arith) (ground arith) in
                    count_loop_lem (suc a.last) (suc a.last) lb as' (b ∷ bs) (append_to out v) wa.2
                      wb (inl wa.2) (LastEnds-append_to out v l (ground arith))
                    ∙ ap (intersection_count_loop as' (b ∷ bs))
                        (ground (arith, growth_lem out v l (ground arith))))
          ]
    ]
  ]
]

-- For run containers whose runs are 16-bit, in order and apart, intersectionCountRunRun returns
-- the cardinality that intersectRunRun sets.
pub intersection_count_run_run-eq-intersect_run_run :
    (ra rb : List Interval16)
    → RunsFrom 0 ra
    → RunsFrom 0 rb
    → intersection_count_run_run ra rb ≡ (intersect_run_run ra rb).1
unfolding intersect_run_run intersection_count_run_run
intersection_count_run_run-eq-intersect_run_run ra rb wa wb =
    sym (count_loop_lem 0 0 0 ra rb ([], 0) wa wb (inl wa) tt)
