-- ===== src/Roaring/Run/Update/Inserts.antt =====
-- What `runAdd` makes of the runs at the place that it found holds the value more.
use pilosa.Common.{
  ℕ, suc, ◌-◌, ◌<◌, ◌≤◌, ◌≡◌, refl, sym, List, [], ◌∷◌, ◌++◌, true, false, ◌&&◌, ◌==◌, arith,
  length, take, drop, ltb, Bool-cases, inl, inr,
}
use mathlib.Core.Path.{subst}
use pilosa.Roaring.Run.{Interval16, next16, prev16, max_container_val}
use pilosa.Roaring.Run.Sets.{RunsFrom, RunsFrom-weaken}
use pilosa.Roaring.Run.Update.{search_last, run_at, run_insert}
use pilosa.Roaring.Run.Update.Places.{
  OneMore, OneMore-append, EndBelow-take, last_before, split_at, drop_at, take-drop, RunsFrom-at,
  drop_all, take_all, RunsFrom-drop,
}

-- The changes of a run or two that `runAdd` makes.
extend :
    (v : ℕ) (r : Interval16) (rest : List Interval16)
    → v ≡ suc r.last
    → r.start ≤ r.last
    → v ≤ max_container_val
    → (RunsFrom v rest → RunsFrom (suc v) rest)
    → OneMore v (r ∷ rest) (record r { last = v } ∷ rest)
extend v r rest e h m apart = (
  λ lo l p. (p.0, (omega arith, m), apart (RunsFrom-weaken v (suc r.last) rest (omega arith) p.2)),
  λ c. ground arith,
  omega arith,
)

pull :
    (v : ℕ) (r : Interval16) (rest : List Interval16)
    → suc v ≡ r.start
    → r.start ≤ r.last
    → OneMore v (r ∷ rest) (record r { start = v } ∷ rest)
pull v r rest e h = (λ lo l p. (l, (omega arith, p.1.1), p.2), λ c. ground arith, omega arith)

join :
    (v : ℕ) (p r : Interval16) (rest : List Interval16)
    → v ≡ suc p.last
    → suc v ≡ r.start
    → p.start ≤ p.last
    → r.start ≤ r.last
    → OneMore v (p ∷ r ∷ rest) (record p { last = r.last } ∷ rest)
join v p r rest e f h k =
    (λ lo l q. (q.0, (omega arith, q.2.1.1), q.2.2), λ c. ground arith, omega arith)

alone :
    (v : ℕ) (rest : List Interval16)
    → v ≤ max_container_val
    → ((lo : ℕ) → RunsFrom lo rest → RunsFrom (suc v) rest)
    → OneMore v rest (record { start = v; last = v } ∷ rest)
alone v rest m apart = (λ lo l p. (l, (omega arith, m), apart lo p), λ c. ground arith, omega arith)

module _ (v : ℕ) (rs : List Interval16) (p : RunsFrom 0 rs) (fits : v ≤ max_container_val) where
  -- A change of the run at `i`, and of the two runs at `i` and `suc i`.
  change_one :
      (i : ℕ) (B : List Interval16)
      → i < length rs
      → i ≤ search_last v rs
      → OneMore v (run_at rs i ∷ drop (suc i) rs) B
      → OneMore v rs (take i rs ++ B)
  change_one i B h k more =
      subst (λ (xs : List Interval16). OneMore v xs (take i rs ++ B)) (sym (split_at i rs h))
        (OneMore-append v (take i rs) (run_at rs i ∷ drop (suc i) rs) B (EndBelow-take v i rs k)
          more)

  change_at :
      (i : ℕ) (B : List Interval16)
      → i ≤ search_last v rs
      → OneMore v (drop i rs) B
      → OneMore v rs (take i rs ++ B)
  change_at i B k more =
      subst (λ (xs : List Interval16). OneMore v xs (take i rs ++ B)) (sym (take-drop i rs))
        (OneMore-append v (take i rs) (drop i rs) B (EndBelow-take v i rs k) more)

  prev_v : 0 < v → suc (prev16 v) ≡ v
  prev_v h = omega arith

  next_of : (x : ℕ) → x < v → next16 x ≡ suc x
  next_of x h = omega arith

  -- A list of runs that a change produced.
  produced :
      {B : List Interval16} (B' : List Interval16) → B' ≡ B → OneMore v rs B → OneMore v rs B'
  produced B' e more = subst (λ (xs : List Interval16). OneMore v rs xs) (sym e) more

  -- Past every run: the last run grows, or a new run follows.
  pub insert_after :
      (m : ℕ) → length rs ≡ suc m → search_last v rs ≡ suc m → OneMore v rs (run_insert rs m v)
  unfolding run_insert
  insert_after m e s =
      let iv = run_at rs m in
      let below : iv.last < v = last_before v m rs (omega arith) in
      let is : ltb iv.last v ≡ true = ground arith in
      let (low, ordered, high) = RunsFrom-at 0 m rs p (omega arith) in
      let none_left : drop (suc m) rs ≡ [] = drop_all (suc m) rs (omega arith) in
      let new : Interval16 = record { start = v; last = v } in
      elim (Bool-cases (iv.last == prev16 v)) [
        | inl touch ↦
            let grown : next16 iv.last ≡ v = ground arith in
            let made : run_insert rs m v ≡ take m rs ++ record iv { last = v } ∷ drop (suc m) rs =
              rw (is, touch, grown) refl in
            produced (run_insert rs m v) made (
              change_one m (record iv { last = v } ∷ drop (suc m) rs) (omega arith) (omega arith) (
                extend v iv (drop (suc m) rs) (ground arith) ordered fits
                  (λ q. subst (λ (d : List Interval16). RunsFrom (suc v) d) (sym none_left) tt)))
        | inr apart ↦
            let all : take (suc m) rs ≡ rs = take_all (suc m) rs (omega arith) in
            let made : run_insert rs m v ≡ take (suc m) rs ++ new ∷ [] = rw (is, apart, all) refl in
            produced (run_insert rs m v) made (
              change_at (suc m) (new ∷ []) (omega arith) (
                subst (λ (d : List Interval16). OneMore v d (new ∷ [])) (sym none_left)
                  (alone v [] fits (λ lo q. tt))))
      ]

  -- Before the run at `i`, away from the run before it: that run grows down, or a new run stands
  -- between.
  pub insert_before :
      (i : ℕ)
      → i < length rs
      → search_last v rs ≡ i
      → v < (run_at rs i).start
      → (ltb 0 i && (run_at rs (i - 1)).last == prev16 v) ≡ false
      → (ltb 0 i && prev16 v == (run_at rs (i - 1)).last) ≡ false
      → OneMore v rs (run_insert rs i v)
  unfolding run_insert
  insert_before i h s b far far' =
      let iv = run_at rs i in
      let (low, ordered, high) = RunsFrom-at 0 i rs p h in
      let is : ltb iv.last v ≡ false = ground arith in
      let new : Interval16 = record { start = v; last = v } in
      elim (Bool-cases (next16 v == iv.start)) [
        | inl touch ↦
            let grown : prev16 iv.start ≡ v = ground arith in
            let made : run_insert rs i v ≡ take i rs ++ record iv { start = v } ∷ drop (suc i) rs =
              rw (is, touch, far, grown) refl in
            produced (run_insert rs i v) made (
              change_one i (record iv { start = v } ∷ drop (suc i) rs) h (omega arith)
                (pull v iv (drop (suc i) rs) (ground arith) ordered))
        | inr apart ↦
            let made : run_insert rs i v ≡ take i rs ++ new ∷ drop i rs =
              rw (is, apart, far') refl in
            produced (run_insert rs i v) made (
              change_at i (new ∷ drop i rs) (omega arith) (
                alone v (drop i rs) fits (λ lo q.
                  subst (λ (d : List Interval16). RunsFrom (suc v) d) (sym (drop_at i rs h))
                    (omega arith, (ordered, high), RunsFrom-drop 0 i rs p h))))
      ]

  -- Before the run at `suc j`, next to the run at `j`: the two join, or that run grows up.
  pub insert_between :
      (j : ℕ)
      → suc j < length rs
      → search_last v rs ≡ suc j
      → v < (run_at rs (suc j)).start
      → (run_at rs j).last ≡ prev16 v
      → OneMore v rs (run_insert rs (suc j) v)
  unfolding run_insert
  insert_between j h s b next =
      let iv = run_at rs (suc j) in
      let before = run_at rs j in
      let below : before.last < v = last_before v j rs (omega arith) in
      let (low, ordered, high) = RunsFrom-at 0 (suc j) rs p h in
      let (low', ordered', high') = RunsFrom-at 0 j rs p (omega arith) in
      let is : ltb iv.last v ≡ false = ground arith in
      let is_next : before.last == prev16 v ≡ true = ground arith in
      let is_next' : prev16 v == before.last ≡ true = ground arith in
      let i : suc j - 1 ≡ j = omega arith in
      let pos : ltb 0 (suc j) ≡ true = ground arith in
      let pair : drop (suc j) rs ≡ iv ∷ drop (suc (suc j)) rs = drop_at (suc j) rs h in
      let grown : next16 before.last ≡ v = ground arith in
      elim (Bool-cases (next16 v == iv.start)) [
        | inl touch ↦
            let joined : List Interval16 =
              record before { last = iv.last } ∷ drop (suc (suc j)) rs in
            let made : run_insert rs (suc j) v ≡ take j rs ++ joined =
              rw (i, pos, is, touch, is_next) refl in
            produced (run_insert rs (suc j) v) made (
              change_one j joined (omega arith) (omega arith) (
                subst (λ (d : List Interval16). OneMore v (before ∷ d) joined) (sym pair)
                  (join v before iv (drop (suc (suc j)) rs) (ground arith) (ground arith) ordered'
                    ordered)))
        | inr apart ↦
            let raised : List Interval16 = record before { last = v } ∷ drop (suc j) rs in
            let made : run_insert rs (suc j) v ≡ take j rs ++ raised =
              rw (i, pos, is, apart, is_next', grown) refl in
            produced (run_insert rs (suc j) v) made (
              change_one j raised (omega arith) (omega arith) (
                extend v before (drop (suc j) rs) (ground arith) ordered' fits (λ q.
                  subst (λ (d : List Interval16). RunsFrom (suc v) d) (sym pair)
                    (omega arith, (ordered, high), RunsFrom-drop 0 (suc j) rs p h))))
      ]
