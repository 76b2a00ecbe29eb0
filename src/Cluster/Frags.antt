-- ===== src/Cluster/Frags.antt =====
-- The fragments that a node lacks, in cluster.go. The names of fields and views are numbers, of
-- which the program uses equality.
use pilosa.Common.{
  ℕ, ◌+◌, ◌-◌, ◌≡◌, ap, ◌∙◌, List, [], ◌∷◌, Bool, true, ◌&&◌, arith, ltb, ◌==◌, if◌then◌else◌,
  Bool-cases, inl, inr,
}

pub record Frag : Type 0 where
  pub field : ℕ
  pub view : ℕ
  pub shard : ℕ

-- Equality of the keys of Go's map.
abbrev pub same_frag : Frag → Frag → Bool
same_frag x y = x.field == y.field && x.view == y.view && x.shard == y.shard

-- The map's entry for a key set to a number.
abbrev pub with_count : Frag → ℕ → (Frag → ℕ) → Frag → ℕ
with_count x n m y = if same_frag y x then n else m y

-- The first loop of `fragsDiff`.
unfoldable pub count_frags : List Frag → (Frag → ℕ) → Frag → ℕ
count_frags [] m = m
count_frags (y ∷ ys) m = count_frags ys (with_count y (m y + 1) m)

-- The second loop of `fragsDiff`.
unfoldable pub diff_loop : (Frag → ℕ) → List Frag → List Frag
diff_loop m [] = []
diff_loop m (x ∷ xs) =
    let skip = diff_loop (with_count x (m x - 1) m) xs in
    let keep = x ∷ diff_loop m xs in if ltb 0 (m x) then skip else keep

pub frags_diff : List Frag → List Frag → List Frag
frags_diff a b = diff_loop (count_frags b (λ f. 0)) a

-- How often a fragment occurs.
abbrev pub occurrences : Frag → List Frag → ℕ
occurrences f [] = 0
occurrences f (x ∷ xs) = (if same_frag f x then 1 else 0) + occurrences f xs

same_frag-eq : (f x : Frag) → same_frag f x ≡ true → f ≡ x
same_frag-eq f x e = ground arith

count_lem : (f : Frag) (b : List Frag) (m : Frag → ℕ) → count_frags b m f ≡ m f + occurrences f b
unfolding count_frags
count_lem f [] m = omega arith
count_lem f (y ∷ ys) m = elim (Bool-cases (same_frag f y)) [
  | inl e ↦
      let q : m f ≡ m y = ap m (same_frag-eq f y e) in
      (count_lem f ys (with_count y (m y + 1) m) ∙ rw e (omega (arith, q)))
  | inr e ↦ (count_lem f ys (with_count y (m y + 1) m) ∙ rw e (omega arith))
]

diff_lem :
    (f : Frag) (m : Frag → ℕ) (a : List Frag)
    → occurrences f (diff_loop m a) ≡ occurrences f a - m f
unfolding diff_loop
diff_lem f m [] = omega arith
diff_lem f m (x ∷ xs) = elim (Bool-cases (same_frag f x)) [
  | inl e ↦
      let q : m f ≡ m x = ap m (same_frag-eq f x e) in
      elim (Bool-cases (ltb 0 (m x))) [
        | inl h ↦ rw h (diff_lem f (with_count x (m x - 1) m) xs ∙ rw e (ground (arith, q, h)))
        | inr h ↦ rw h (ground (arith, q, e, h, diff_lem f m xs))
      ]
  | inr e ↦ elim (Bool-cases (ltb 0 (m x))) [
    | inl h ↦ rw h (diff_lem f (with_count x (m x - 1) m) xs ∙ rw e (omega arith))
    | inr h ↦ rw h (ground (arith, e, diff_lem f m xs))
  ]
]

-- fragsDiff is the difference of multisets: a fragment occurs in the result as often as in the
-- first list, less as often as it occurs in the second, and not at all if that is more.
pub occurrences-frags_diff :
    (f : Frag) (a b : List Frag)
    → occurrences f (frags_diff a b) ≡ occurrences f a - occurrences f b
unfolding frags_diff
occurrences-frags_diff f a b =
    diff_lem f (count_frags b (λ f. 0)) a ∙ omega (arith, count_lem f b (λ f. 0))
