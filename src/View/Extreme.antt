-- ===== src/View/Extreme.antt =====
-- `min` of view.go finds the least of its fragments' minima.
use pilosa.Common.{
  ℕ, ◌≡◌, refl, List, [], ◌∷◌, Bool, true, false, arith, add64, ◌&&◌, ◌||◌, ltb, ◌==◌, Option,
  Bool-cases, inl, inr, ap, ◌∙◌,
}
use mathlib.Core.Path.{subst, sym}
use pilosa.Common.Int.{ℤ, pos, leb_ℤ, eq_ℤ, ltb_ℤ}
use pilosa.Row.{RowOps}
use pilosa.Fragment.Extreme.{min}
use pilosa.View.{min_answers, answers, view_min}

-- Whether an answer that counts columns is below `best`.
abbrev pub some_below : ℤ → List (ℤ × ℕ) → Bool
some_below best [] = false
some_below best ((m, n) ∷ rest) = ltb 0 n && ltb_ℤ m best || some_below best rest

-- Whether an answer that counts columns is `best`.
abbrev pub some_is : ℤ → List (ℤ × ℕ) → Bool
some_is best [] = false
some_is best ((m, n) ∷ rest) = ltb 0 n && eq_ℤ m best || some_is best rest

-- Whether an answer counts columns.
abbrev pub some_counts : List (ℤ × ℕ) → Bool
some_counts [] = false
some_counts ((m, n) ∷ rest) = ltb 0 n || some_counts rest

-- A best answer below `best` or equal to it, and equal to it or among the answers.
abbrev FoundFrom : ℤ → List (ℤ × ℕ) → ℤ → Type 0
FoundFrom best l r =
    (some_below r l ≡ false) × (leb_ℤ r best ≡ true) × ((eq_ℤ r best || some_is r l) ≡ true)

below_lem : (r m best : ℤ) → leb_ℤ r m ≡ true → ltb_ℤ m best ≡ true → leb_ℤ r best ≡ true
below_lem r m best h k = ground arith

above_lem : (r m best : ℤ) → leb_ℤ r best ≡ true → ltb_ℤ m best ≡ false → ltb_ℤ m r ≡ false
above_lem r m best h k = ground arith

not_above : (r m : ℤ) → leb_ℤ r m ≡ true → ltb_ℤ m r ≡ false
not_above r m h = ground arith

eq_sym : (r m : ℤ) → eq_ℤ r m ≡ eq_ℤ m r
eq_sym r m = ground arith

join_lem :
    (counts is_first below is_here is_below is_best : Bool)
    → counts ≡ true
    → below ≡ false
    → is_below ≡ false
    → (is_first || is_here) ≡ true
    → ((counts && below || is_below) ≡ false)
      × ((is_best || (counts && is_first || is_here)) ≡ true)
join_lem counts is_first below is_here is_below is_best a b c d = ground arith

stay_lem :
    (counts is_first below is_here is_below is_best : Bool)
    → (counts && below) ≡ false
    → is_below ≡ false
    → (is_best || is_here) ≡ true
    → ((counts && below || is_below) ≡ false)
      × ((is_best || (counts && is_first || is_here)) ≡ true)
stay_lem counts is_first below is_here is_below is_best a b c = ground arith

after_first : (l : List (ℤ × ℕ)) (best : ℤ) (n : ℕ) → FoundFrom best l (min_answers l best n true).0
unfolding min_answers
after_first [] best n = (refl, ground arith, ground arith)
after_first ((m, k) ∷ l) best n = elim (Bool-cases (k == 0)) [
  | inl e ↦
      let q = after_first l best n in
      let r = (min_answers l best n true).0 in
      let s =
        stay_lem (ltb 0 k) (eq_ℤ m r) (ltb_ℤ m r) (some_is r l) (some_below r l) (eq_ℤ r best)
          (ground (arith, e)) q.0 q.2 in
      let go : min_answers ((m, k) ∷ l) best n true ≡ min_answers l best n true = rw e refl in
      subst (λ p. FoundFrom best ((m, k) ∷ l) p.0) (sym go) (s.0, q.1, s.1)
  | inr e ↦ elim (Bool-cases (ltb_ℤ m best)) [
    | inl f ↦
        let q = after_first l m (add64 n k) in
        let r = (min_answers l m (add64 n k) true).0 in
        let s =
          join_lem (ltb 0 k) (eq_ℤ m r) (ltb_ℤ m r) (some_is r l) (some_below r l) (eq_ℤ r best)
            (ground (arith, e)) (not_above r m q.1) q.0
            (ap (λ b. b || some_is r l) (eq_sym m r) ∙ q.2) in
        let go : min_answers ((m, k) ∷ l) best n true ≡ min_answers l m (add64 n k) true =
          rw (e, f) refl in
        subst (λ p. FoundFrom best ((m, k) ∷ l) p.0) (sym go) (s.0, below_lem r m best q.1 f, s.1)
    | inr f ↦
        let q = after_first l best n in
        let r = (min_answers l best n true).0 in
        let s =
          stay_lem (ltb 0 k) (eq_ℤ m r) (ltb_ℤ m r) (some_is r l) (some_below r l) (eq_ℤ r best)
            (ap (λ b. ltb 0 k && b) (above_lem r m best q.1 f) ∙ ground arith) q.0 q.2 in
        let go : min_answers ((m, k) ∷ l) best n true ≡ min_answers l best n true =
          rw (e, f) refl in
        subst (λ p. FoundFrom best ((m, k) ∷ l) p.0) (sym go) (s.0, q.1, s.1)
  ]
]

-- An answer that counts columns, and none of those is below it.
abbrev pub IsLeastOf : List (ℤ × ℕ) → ℤ → Type 0
IsLeastOf l r = (some_below r l ≡ false) × (some_is r l ≡ true)

least_answer :
    (l : List (ℤ × ℕ)) (best : ℤ) (n : ℕ)
    → some_counts l ≡ true
    → IsLeastOf l (min_answers l best n false).0
unfolding min_answers
least_answer [] best n h = ground arith
least_answer ((m, k) ∷ l) best n h = elim (Bool-cases (k == 0)) [
  | inl e ↦
      let q = least_answer l best n (ground (arith, h, e)) in
      let r = (min_answers l best n false).0 in
      let s =
        stay_lem (ltb 0 k) (eq_ℤ m r) (ltb_ℤ m r) (some_is r l) (some_below r l) false
          (ground (arith, e)) q.0 q.1 in
      let go : min_answers ((m, k) ∷ l) best n false ≡ min_answers l best n false = rw e refl in
      subst (λ p. IsLeastOf ((m, k) ∷ l) p.0) (sym go) s
  | inr e ↦
      let q = after_first l m (add64 n k) in
      let r = (min_answers l m (add64 n k) true).0 in
      let go : min_answers ((m, k) ∷ l) best n false ≡ min_answers l m (add64 n k) true =
        rw e refl in
      subst (λ p. IsLeastOf ((m, k) ∷ l) p.0) (sym go)
        (join_lem (ltb 0 k) (eq_ℤ m r) (ltb_ℤ m r) (some_is r l) (some_below r l) false
          (ground (arith, e)) (not_above r m q.1) q.0
          (ap (λ b. b || some_is r l) (eq_sym m r) ∙ q.2))
]

module _ (R : RowOps) where
  open R use {Row}

  -- If the min of some fragment counts columns, min of the view returns one of the values that
  -- fragments with a count answer, and no such fragment answers a lower one.
  pub view_min-IsLeastOf :
      (fragments : List (ℕ → Row)) (filter : Option Row) (depth : ℕ)
      → some_counts (answers R (λ row. min R row filter depth) fragments) ≡ true
      → IsLeastOf
          (answers R (λ row. min R row filter depth) fragments)
          (view_min R fragments filter depth).0
  unfolding view_min
  view_min-IsLeastOf fragments filter depth h =
      least_answer (answers R (λ row. min R row filter depth) fragments) (pos 0) 0 h
