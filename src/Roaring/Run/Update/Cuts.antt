-- ===== src/Roaring/Run/Update/Cuts.antt =====
-- Removing a value from a run container takes that value alone out of its set, and keeps its runs
-- in order and its cardinality right.
use pilosa.Common.{
  ℕ, suc, ◌-◌, ◌<◌, ◌≡◌, refl, sym, List, ◌∷◌, ◌++◌, Bool, true, false, not, ◌&&◌, ◌||◌, ◌==◌,
  arith, length, take, drop, ltb, leb, Bool-cases, inl, inr, Option, some, none, if◌then◌else◌,
}
use mathlib.Core.Path.{subst}
use pilosa.Roaring.Run.{Interval16, Output, next16, prev16}
use pilosa.Roaring.Run.Sets.{
  run_mem, in_run, cardinality, RunsFrom, RunsFrom-weaken, run_mem_below, IsRun,
}
use pilosa.Roaring.Run.Update.{search_last, run_at, bin_search_runs, run_cut, run_remove}
use pilosa.Roaring.Run.Update.Places.{OneLess, OneLess-append, EndBelow-take, split_at, RunsFrom-at}
use pilosa.Roaring.Run.Update.Sets.{run_mem-search}

-- The runs that take the place of the run `r`, which holds `v`.
abbrev left_of_run : Interval16 → ℕ → List Interval16 → List Interval16
left_of_run r v rest =
    if v == r.last && v == r.start
    then rest
    else if v == r.last
    then record r { last = prev16 r.last } ∷ rest
    else if v == r.start
    then record r { start = next16 r.start } ∷ rest
    else record r { last = prev16 v } ∷ record { start = next16 v; last = r.last } ∷ rest

split_mem :
    (c v s l : ℕ) (b : Bool)
    → s < v
    → v < l
    → ((c == v) ≡ true → b ≡ false)
    → (leb s c && leb c (v - 1) || (leb (suc v) c && leb c l || b))
      ≡ (not (c == v) && (leb s c && leb c l || b))
split_mem c v s l b h k away = elim (Bool-cases (c == v)) [
  | inl same ↦ rw (same, away same) (ground arith)
  | inr other ↦ elim (Bool-cases (ltb c v)) [ inl below ↦ ground arith | inr above ↦ ground arith ]
]

cut_run :
    (v : ℕ) (r : Interval16) (rest : List Interval16)
    → IsRun r
    → in_run v r ≡ true
    → OneLess v (r ∷ rest) (left_of_run r v rest)
cut_run v r rest (ordered, high) q = elim (Bool-cases (v == r.last)) [
  | inl at_last ↦ elim (Bool-cases (v == r.start)) [
    | inl at_start ↦
        rw (at_last, at_start)
          (
            λ lo p. RunsFrom-weaken lo (suc r.last) rest (omega (arith, p.0)) p.2,
            λ lo c p. ground (arith, run_mem_below (suc r.last) v rest p.2),
            ground arith,
          )
    | inr above ↦
        let e : prev16 r.last ≡ r.last - 1 = ground arith in
        let s : suc (r.last - 1) ≡ r.last = ground arith in
        rw (at_last, above, e)
          (
            λ lo p. (
              p.0,
              (ground arith, omega arith),
              RunsFrom-weaken (suc (r.last - 1)) (suc r.last) rest (omega arith) p.2,
            ),
            λ lo c p. ground (arith, run_mem_below (suc r.last) v rest p.2),
            ground arith,
          )
  ]
  | inr below ↦ elim (Bool-cases (v == r.start)) [
    | inl at_start ↦
        let e : next16 r.start ≡ suc r.start = ground arith in
        rw (below, at_start, e)
          (
            λ lo p. (omega (arith, p.0), (ground arith, high), p.2),
            λ lo c p. ground (arith, run_mem_below (suc r.last) v rest p.2),
            ground arith,
          )
    | inr above ↦
        let e : next16 v ≡ suc v = ground arith in
        let d : prev16 v ≡ v - 1 = ground arith in
        rw (below, above, e, d)
          (
            λ lo p. (p.0, (ground arith, ground arith), (ground arith, (ground arith, high), p.2)),
            λ lo c p.
                split_mem c v r.start r.last (run_mem c rest) (ground arith) (ground arith)
                  (λ same. run_mem_below (suc r.last) c rest p.2 (ground arith)),
            ground arith,
          )
  ]
]

run_cut-left_of_run :
    (rs : List Interval16) (i v : ℕ)
    → in_run v (run_at rs i) ≡ true
    → run_cut rs i v ≡ take i rs ++ left_of_run (run_at rs i) v (drop (suc i) rs)
unfolding run_cut
run_cut-left_of_run rs i v q =
    let iv = run_at rs i in
    elim (Bool-cases (v == iv.last)) [
      | inl at_last ↦ elim (Bool-cases (v == iv.start)) [
        | inl at_start ↦ rw (at_last, at_start) refl
        | inr above ↦ rw (at_last, above) refl
      ]
      | inr below ↦ elim (Bool-cases (v == iv.start)) [
        | inl at_start ↦ rw (below, at_start) refl
        | inr above ↦
            let more : ltb iv.start v ≡ true = ground arith in rw (below, above, more) refl
      ]
    ]

-- Every case of `runRemove` past its two guards.
run_cut-OneLess :
    (rs : List Interval16) (v : ℕ)
    → RunsFrom 0 rs
    → search_last v rs < length rs
    → in_run v (run_at rs (search_last v rs)) ≡ true
    → OneLess v rs (run_cut rs (search_last v rs) v)
run_cut-OneLess rs v p h q =
    let i = search_last v rs in
    let iv = run_at rs i in
    let (low, ordered, high) = RunsFrom-at 0 i rs p h in
    let rest = drop (suc i) rs in
    let less : OneLess v (take i rs ++ iv ∷ rest) (take i rs ++ left_of_run iv v rest) =
      OneLess-append v (take i rs) (iv ∷ rest) (left_of_run iv v rest)
        (EndBelow-take v i rs (omega arith)) (cut_run v iv rest (ordered, high) q) in
    subst (λ (xs : List Interval16). OneLess v rs xs) (sym (run_cut-left_of_run rs i v q))
      (subst (λ (xs : List Interval16). OneLess v xs (take i rs ++ left_of_run iv v rest))
        (sym (split_at i rs h)) less)

-- What `runRemove` answers: the container as it was for a value that it does not hold, none for
-- its only value, and else runs with the value less and the cardinality one smaller.
abbrev pub RemovesFromRuns : ℕ → List Interval16 → Option Output × Bool → Type 0
RemovesFromRuns v rs (none, changed) =
    (changed ≡ true) × (run_mem v rs ≡ true) × (cardinality rs ≡ 1)
RemovesFromRuns v rs (some (rs', n'), changed) =
    (changed ≡ run_mem v rs)
    × RunsFrom 0 rs'
    × (n' ≡ cardinality rs')
    × ((c : ℕ) → run_mem c rs' ≡ (not (c == v) && run_mem c rs))

not_member :
    (v c : ℕ) (rs : List Interval16)
    → run_mem v rs ≡ false
    → run_mem c rs ≡ (not (c == v) && run_mem c rs)
not_member v c rs q = elim (Bool-cases (c == v)) [
  | inl same ↦
      let e : c ≡ v = ground arith in
      subst (λ (x : ℕ). run_mem x rs ≡ (not (x == v) && run_mem x rs)) (sym e) (rw q (ground arith))
  | inr other ↦ rw other refl
]

-- For a run container whose runs are 16-bit, in order and apart, with the cardinality right, runRemove returns such a container, which holds what the old one held but the value,
-- or no container exactly if the value was the only one, and reports whether the value was there.
pub run_remove-RemovesFromRuns :
    (rs : List Interval16) (n v : ℕ)
    → RunsFrom 0 rs
    → n ≡ cardinality rs
    → RemovesFromRuns v rs (run_remove rs n v)
unfolding run_remove bin_search_runs
run_remove-RemovesFromRuns rs n v p e =
    let i = search_last v rs in
    let found = ltb i (length rs) && in_run v (run_at rs i) in
    let member : run_mem v rs ≡ found = run_mem-search v rs p in
    elim (Bool-cases found) [
      | inr miss ↦
          let made : run_remove rs n v ≡ (some (rs, n), false) = rw miss refl in
          subst (λ (o : Option Output × Bool). RemovesFromRuns v rs o) (sym made)
            (ground arith, p, e, λ c. not_member v c rs (ground arith))
      | inl hit ↦ elim (Bool-cases (n == 1)) [
        | inl single ↦
            let made : run_remove rs n v ≡ (none, true) = rw (hit, single) refl in
            subst (λ (o : Option Output × Bool). RemovesFromRuns v rs o) (sym made)
              (refl, ground arith, ground arith)
        | inr more ↦
            let made : run_remove rs n v ≡ (some (run_cut rs i v, n - 1), true) =
              rw (hit, more) refl in
            let less = run_cut-OneLess rs v p (ground arith) (ground arith) in
            subst (λ (o : Option Output × Bool). RemovesFromRuns v rs o) (sym made)
              (ground arith, less.0 0 p, omega (arith, less.2), λ c. less.1 0 c p)
      ]
    ]
