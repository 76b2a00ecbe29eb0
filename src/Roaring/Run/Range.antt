-- ===== src/Roaring/Run/Range.antt =====
-- `runCountRange` of roaring/roaring.go: the number of values of a run container from `start` up
-- to `end`, the latter excluded.
use pilosa.Common.{
  ℕ, suc, ◌+◌, ◌-◌, ◌<◌, ◌≤◌, ◌≡◌, refl, ◌∙◌, ◌⊎◌, inl, inr, List, [], ◌∷◌, false, ◌&&◌, ◌||◌, ◌==◌,
  arith, ltb, leb, Bool-cases, if◌then◌else◌,
}
use pilosa.Roaring.Size.{size, size-same, size-interval, size-either, size-empty}
use pilosa.Roaring.Run.{Interval16, runlen}
use pilosa.Roaring.Run.Sets.{run_mem, in_run, RunsFrom, run_mem_below}

-- What one run adds: all of it if it lies in the range, and the parts that overlap its ends.
abbrev pub run_share : ℕ → ℕ → Interval16 → ℕ
run_share start end iv =
    (if leb start iv.start && leb iv.last end then runlen iv else 0)
    + (if ltb iv.start start && ltb iv.last end then iv.last - start + 1 else 0)
    + (if ltb start iv.start && leb end iv.last then end - iv.start else 0)

unfoldable pub count_range_loop : List Interval16 → ℕ → ℕ → ℕ → ℕ
count_range_loop [] start end n = n
count_range_loop (iv ∷ runs) start end n =
    let rest = λ (k : ℕ). count_range_loop runs start end k in
    if ltb iv.last start
    then rest n
    else if ltb end iv.start
    then n
    else if leb iv.start start && leb end iv.last
    then end - start
    else rest (n + run_share start end iv)

pub run_count_range : List Interval16 → ℕ → ℕ → ℕ
run_count_range runs start end = count_range_loop runs start end 0

-- No run ends at `end`.
abbrev pub EndElsewhere : ℕ → List Interval16 → Type 0
EndElsewhere end [] = Unit
EndElsewhere end (iv ∷ runs) = ((iv.last == end) ≡ false) × EndElsewhere end runs

-- The number of values of the runs in the range.
abbrev pub values_between : List Interval16 → ℕ → ℕ → ℕ
values_between runs start end = size (λ (c : ℕ). leb start c && run_mem c runs) end

-- The values of one run in the range.
abbrev share : Interval16 → ℕ → ℕ → ℕ
share iv start end = size (λ (c : ℕ). leb start c && in_run c iv) end

values_between-cons :
    (iv : Interval16) (runs : List Interval16) (start end lo : ℕ)
    → RunsFrom lo (iv ∷ runs)
    → values_between (iv ∷ runs) start end ≡ share iv start end + values_between runs start end
values_between-cons iv runs start end lo p =
    size-same (λ (c : ℕ). leb start c && run_mem c (iv ∷ runs))
      (λ (c : ℕ). leb start c && in_run c iv || leb start c && run_mem c runs) end
      (λ c h. ground arith)
    ∙ size-either (λ (c : ℕ). leb start c && in_run c iv) (λ (c : ℕ). leb start c && run_mem c runs)
        end (λ c e. ground (arith, run_mem_below (suc iv.last) c runs p.2))

-- The runs from `lo` on have nothing below it.
values_between-past :
    (runs : List Interval16) (start end lo : ℕ)
    → RunsFrom lo runs
    → end ≤ lo
    → values_between runs start end ≡ 0
values_between-past runs start end lo p h =
    size-empty (λ (c : ℕ). leb start c && run_mem c runs) end
      (λ c b. ground (arith, run_mem_below lo c runs p (omega arith)))

share-before : (iv : Interval16) (start end : ℕ) → iv.last < start → share iv start end ≡ 0
share-before iv start end h =
    size-empty (λ (c : ℕ). leb start c && in_run c iv) end (λ c b. ground arith)

share-from :
    (iv : Interval16) (start end : ℕ)
    → start ≤ iv.last
    → iv.start ≤ iv.last
    → share iv start end ≡ (
        let a = if leb start iv.start then iv.start else start in
        if leb end a then 0 else if leb end iv.last then end - a else suc iv.last - a)
share-from iv start end h k = elim (Bool-cases (leb start iv.start)) [
  | inl inside ↦ rw inside (
      size-same (λ (c : ℕ). leb start c && in_run c iv) (λ (c : ℕ). in_run c iv) end
        (λ c b. ground arith)
      ∙ size-interval iv.start iv.last end (omega arith))
  | inr overlap ↦ rw overlap (
      size-same (λ (c : ℕ). leb start c && in_run c iv) (λ (c : ℕ). leb start c && leb c iv.last)
        end (λ c b. ground arith)
      ∙ size-interval start iv.last end (omega arith))
]

run_share-eq-share :
    (iv : Interval16) (start end : ℕ)
    → start ≤ end
    → start ≤ iv.last
    → iv.start ≤ iv.last
    → iv.start ≤ end
    → (leb iv.start start && leb end iv.last) ≡ false
    → (iv.last == end) ≡ false
    → run_share start end iv ≡ share iv start end
run_share-eq-share iv start end o h k b no_cover e = elim (Bool-cases (leb start iv.start)) [
  | inl inside ↦ elim (Bool-cases (leb iv.last end)) [
    | inl whole ↦ rw (share-from iv start end h k, inside, whole) (ground arith)
    | inr cut ↦ rw (share-from iv start end h k, inside, cut) (ground arith)
  ]
  | inr overlap ↦ rw (share-from iv start end h k, overlap) (ground arith)
]

count_range_loop-values :
    (runs : List Interval16) (start end n lo : ℕ)
    → RunsFrom lo runs
    → start ≤ end
    → EndElsewhere end runs
    → (n ≡ 0) ⊎ (start < lo)
    → count_range_loop runs start end n ≡ n + values_between runs start end
unfolding count_range_loop
count_range_loop-values [] start end n lo p o e z =
    omega (arith, values_between-past [] start end end tt (omega arith))
count_range_loop-values (iv ∷ runs) start end n lo p o e z =
    let all = values_between-cons iv runs start end lo p in
    elim (Bool-cases (ltb iv.last start)) [
      | inl before ↦
          let none_yet : n ≡ 0 = elim z [ inl y ↦ y | inr y ↦ absurd (ground arith) ] in
          let rest =
            count_range_loop-values runs start end n (suc iv.last) p.2 o e.1 (inl none_yet) in
          let nothing = share-before iv start end (ground arith) in
          rw before (omega (arith, rest, all, nothing))
      | inr from ↦ elim (Bool-cases (ltb end iv.start)) [
        | inl past ↦
            let nothing =
              values_between-past (iv ∷ runs) start end iv.start (omega arith, p.1, p.2)
                (ground arith) in
            rw (from, past) (omega (arith, nothing))
        | inr here ↦ elim (Bool-cases (leb iv.start start && leb end iv.last)) [
          | inl covers ↦
              let none_yet : n ≡ 0 = elim z [ inl y ↦ y | inr y ↦ absurd (ground arith) ] in
              let nothing = values_between-past runs start end (suc iv.last) p.2 (ground arith) in
              let whole : share iv start end ≡ end - start =
                ground (arith, share-from iv start end) in
              rw (from, here, covers) (omega (arith, all, nothing, whole, none_yet))
          | inr no_cover ↦
              let rest =
                count_range_loop-values runs start end (n + run_share start end iv) (suc iv.last)
                  p.2 o e.1 (inr (ground arith)) in
              let same =
                run_share-eq-share iv start end o (ground arith) p.1.0 (ground arith) no_cover
                  e.0 in
              rw (from, here, no_cover) (omega (arith, rest, all, same))
        ]
      ]
    ]

-- For a container whose runs are 16-bit, in order and apart, of which none ends exactly at `end`,
-- runCountRange returns the number of values from `start` up to `end`, the latter excluded.
pub run_count_range-eq-values :
    (runs : List Interval16) (start end : ℕ)
    → RunsFrom 0 runs
    → start ≤ end
    → EndElsewhere end runs
    → run_count_range runs start end ≡ values_between runs start end
unfolding run_count_range
run_count_range-eq-values runs start end p o e =
    count_range_loop-values runs start end 0 0 p o e (inl refl) ∙ omega arith
