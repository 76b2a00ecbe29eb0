-- ===== src/Roaring/Run/Update/Sets.antt =====
-- Adding a value to a run container and removing one changes its set by that value alone, and
-- keeps its runs in order and its cardinality right.
use pilosa.Common.{
  ℕ, zero, suc, ◌+◌, ◌-◌, ◌<◌, ◌≤◌, ◌≡◌, refl, sym, List, [], ◌∷◌, Bool, true, false, not, ◌&&◌,
  ◌||◌, ◌==◌, arith, length, take, drop, ltb, Bool-cases, ◌⊎◌, inl, inr,
}
use mathlib.Core.Path.{subst}
use pilosa.Roaring.Run.{Interval16, Output, prev16, max_container_val}
use pilosa.Roaring.Run.Sets.{run_mem, in_run, cardinality, RunsFrom, run_mem_below}
use pilosa.Roaring.Run.Update.{
  search_last, run_at, run_insert, index_for, run_add, bin_search_runs, run_contains,
}
use pilosa.Roaring.Run.Update.Places.{
  EndBelow, OneMore, search_last-le-length, EndBelow-take, last_at, drop_at, drop_all,
  RunsFrom-drop,
}
use pilosa.Roaring.Run.Update.Inserts.{insert_after, insert_before, insert_between}

-- What `runAdd` answers: the runs as they were for a member, and else runs with the value more and
-- the cardinality one larger.
abbrev pub AddsToRuns : ℕ → List Interval16 → ℕ → Output × Bool → Type 0
AddsToRuns v rs n ((rs', n'), changed) =
    (changed ≡ not (run_mem v rs))
    × RunsFrom 0 rs'
    × (n' ≡ cardinality rs')
    × ((c : ℕ) → run_mem c rs' ≡ (c == v || run_mem c rs))

run_mem-take :
    (v c i : ℕ) (rs : List Interval16)
    → EndBelow v (take i rs)
    → v ≤ c
    → run_mem c rs ≡ run_mem c (drop i rs)
run_mem-take v c zero rs b h = refl
run_mem-take v c (suc i) [] b h = refl
run_mem-take v c (suc i) (r ∷ rs) b h = ground (arith, run_mem-take v c i rs b.1 h, b.0)

-- Membership of the value sought is membership of the run that the search found.
pub run_mem-search :
    (v : ℕ) (rs : List Interval16)
    → RunsFrom 0 rs
    → run_mem v rs ≡ (ltb (search_last v rs) (length rs) && in_run v (run_at rs (search_last v rs)))
run_mem-search v rs p =
    let i = search_last v rs in
    let skip : run_mem v rs ≡ run_mem v (drop i rs) =
      run_mem-take v v i rs (EndBelow-take v i rs (omega arith)) (omega arith) in
    elim (Bool-cases (ltb i (length rs))) [
      | inl inside ↦
          let h : i < length rs = ground arith in
          let tail : run_mem v (drop (suc i) rs) ≡ false =
            run_mem_below (suc (run_at rs i).last) v (drop (suc i) rs) (RunsFrom-drop 0 i rs p h)
              (omega (arith, last_at v rs h)) in
          rw (inside, skip, drop_at i rs h, tail) (ground arith)
      | inr past ↦ rw (past, skip, drop_all i rs (ground (arith, search_last-le-length v rs))) refl
    ]

-- On a run container whose runs are 16-bit, in order and apart, binSearchRuns tells whether the
-- container holds the value.
pub run_contains-eq-run_mem :
    (rs : List Interval16) (v : ℕ) → RunsFrom 0 rs → run_contains rs v ≡ run_mem v rs
unfolding run_contains bin_search_runs
run_contains-eq-run_mem rs v p = ground (arith, run_mem-search v rs p)

one_more :
    (v n : ℕ) (rs rs' : List Interval16)
    → RunsFrom 0 rs
    → n ≡ cardinality rs
    → run_mem v rs ≡ false
    → OneMore v rs rs'
    → AddsToRuns v rs n ((rs', n + 1), true)
one_more v n rs rs' p e new more =
    (ground arith, more.0 0 (omega arith) p, omega (arith, more.2), more.1)

ℕ-cases : (n : ℕ) → (n ≡ 0) ⊎ ((m : ℕ) × (n ≡ suc m))
ℕ-cases zero = inl refl
ℕ-cases (suc m) = inr (m, refl)

-- Every case of `runAdd` past its two guards.
run_insert-OneMore :
    (v : ℕ) (rs : List Interval16)
    → RunsFrom 0 rs
    → v ≤ max_container_val
    → 0 < length rs
    → in_run v (run_at rs (index_for rs v)) ≡ false
    → OneMore v rs (run_insert rs (index_for rs v) v) × (run_mem v rs ≡ false)
run_insert-OneMore v rs p fits some_run out = elim (Bool-cases (search_last v rs == length rs)) [
  | inl past ↦
      let m = length rs - 1 in
      let i : index_for rs v ≡ m = ground arith in
      let new : run_mem v rs ≡ false = ground (arith, run_mem-search v rs p) in
      subst (λ (k : ℕ). OneMore v rs (run_insert rs k v) × (run_mem v rs ≡ false)) (sym i)
        (insert_after v rs p fits m (omega arith) (ground arith), new)
  | inr inside ↦
      let s = search_last v rs in
      let i : index_for rs v ≡ s = ground arith in
      let h : s < length rs = ground (arith, search_last-le-length v rs) in
      let missed : in_run v (run_at rs s) ≡ false =
        subst (λ (k : ℕ). in_run v (run_at rs k) ≡ false) i out in
      let b : v < (run_at rs s).start = ground (arith, last_at v rs h) in
      let new : run_mem v rs ≡ false = ground (arith, run_mem-search v rs p) in
      subst (λ (k : ℕ). OneMore v rs (run_insert rs k v) × (run_mem v rs ≡ false)) (sym i)
        (inserted s h refl b, new)
]
  where
    inserted :
        (i : ℕ)
        → i < length rs
        → search_last v rs ≡ i
        → v < (run_at rs i).start
        → OneMore v rs (run_insert rs i v)
    inserted zero h s b = insert_before v rs p fits 0 h s b (ground arith) (ground arith)
    inserted (suc j) h s b =
        let e : suc j - 1 ≡ j = omega arith in
        elim (Bool-cases ((run_at rs j).last == prev16 v)) [
          | inl next ↦ insert_between v rs p fits j h s b (ground arith)
          | inr far ↦
              insert_before v rs p fits (suc j) h s b (rw e (ground arith)) (rw e (ground arith))
        ]

run_mem_at :
    (v i : ℕ) (rs : List Interval16)
    → i < length rs
    → in_run v (run_at rs i) ≡ true
    → run_mem v rs ≡ true
run_mem_at v i [] h q = absurd (omega arith)
run_mem_at v zero (r ∷ rs) h q = ground arith
run_mem_at v (suc i) (r ∷ rs) h q = ground (arith, run_mem_at v i rs (omega arith) q)

old_member :
    (v c : ℕ) (rs : List Interval16) → run_mem v rs ≡ true → run_mem c rs ≡ (c == v || run_mem c rs)
old_member v c rs q = elim (Bool-cases (c == v)) [
  | inl same ↦
      let e : c ≡ v = ground arith in
      subst (λ (x : ℕ). run_mem x rs ≡ (x == v || run_mem x rs)) (sym e) (rw q (ground arith))
  | inr other ↦ rw other refl
]

-- For a value of 16 bits and a run container whose runs are 16-bit, in order and apart, with the
-- cardinality right, runAdd returns such a container, which holds the value and what the old one
-- held, and reports whether the value is new.
pub run_add-AddsToRuns :
    (rs : List Interval16) (n v : ℕ)
    → RunsFrom 0 rs
    → n ≡ cardinality rs
    → v ≤ max_container_val
    → AddsToRuns v rs n (run_add rs n v)
unfolding run_add
run_add-AddsToRuns [] n v p e fits =
    (refl, (omega arith, (omega arith, fits), tt), ground arith, λ c. ground arith)
run_add-AddsToRuns (r ∷ rs) n v p e fits =
    let runs : List Interval16 = r ∷ rs in
    let i = index_for runs v in
    let some_run : (length runs == 0) ≡ false = ground arith in
    elim (Bool-cases (in_run v (run_at runs i))) [
      | inl old ↦
          let inside : i < length runs = ground (arith, search_last-le-length v runs) in
          let member : run_mem v runs ≡ true = run_mem_at v i runs inside old in
          let made : run_add runs n v ≡ ((runs, n), false) = rw (some_run, old) refl in
          subst (λ (o : Output × Bool). AddsToRuns v runs n o) (sym made)
            (ground arith, p, e, λ c. old_member v c runs member)
      | inr out ↦
          let (more, new) = run_insert-OneMore v runs p fits (omega arith) out in
          let made : run_add runs n v ≡ ((run_insert runs i v, n + 1), true) =
            rw (some_run, out) refl in
          subst (λ (o : Output × Bool). AddsToRuns v runs n o) (sym made)
            (one_more v n runs (run_insert runs i v) p e new more)
    ]
