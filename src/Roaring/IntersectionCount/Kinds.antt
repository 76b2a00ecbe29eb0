-- ===== src/Roaring/IntersectionCount/Kinds.antt =====
-- `intersectionCount` counts what `intersect` holds, whatever the kinds of the containers.
use pilosa.Common.Booleans.{and_swap}
use pilosa.Common.{
  ℕ, ◌+◌, ◌≡◌, refl, ap, sym, ◌∙◌, List, Bool, ◌&&◌, ◌||◌, ◌==◌, arith, Bool-cases, inl, inr,
  Option, none, some,
}
use pilosa.Roaring.Array.{intersect_array_array}
use pilosa.Roaring.Array.Count.{intersection_count-eq-length}
use pilosa.Roaring.Size.{size, size-same, size-none}
use pilosa.Roaring.Bitset.{bitmap_contains}
use pilosa.Roaring.Run.{
  Interval16, intersect_run_run, intersect_array_run, intersection_count_run_run, max_container_val,
}
use pilosa.Roaring.Run.Sets.{run_mem, RunsFrom}
use pilosa.Roaring.Run.Intersect.{intersect_run_run-Builds}
use pilosa.Roaring.Run.Count.{intersection_count_run_run-eq-intersect_run_run}
use pilosa.Roaring.Container.{Container, container_array, container_bitmap, container_run}
use pilosa.Roaring.Container.Kinds.{container_width, IsContainer, members}
use pilosa.Roaring.Intersect.{
  Counted, cardinal, keep_contained, intersect_words, intersect_array_bitmap, as_counted,
  intersect_kinds, intersect,
}
use pilosa.Roaring.Intersect.Values.{Holds, cardinality-eq-size}
use pilosa.Roaring.Intersect.Sets.{
  common, IsIntersection, cardinal-eq-size, intersect_kinds-Holds, intersect-IsIntersection,
}
use pilosa.Roaring.IntersectionCount.{count_kinds, intersection_count}
use pilosa.Roaring.IntersectionCount.Loops.{
  count_array_run-eq-length, count_array_bitmap-eq-length, popcount_and_slice-eq-intersect_words,
  count_bitmap_run-eq-size,
}

-- The cardinality of a container for a set.
Holds-cardinal : (s : ℕ → Bool) (c : Container) → Holds s c → cardinal c ≡ size s container_width
Holds-cardinal s c (shape, holds) =
    cardinal-eq-size c shape
    ∙ size-same (λ (u : ℕ). members (some c) u) s container_width (λ u l. holds u)

cardinal-as_counted : (out : Counted) → cardinal (as_counted out) ≡ out.1
unfolding as_counted
cardinal-as_counted (words, n) = refl

runs_common :
    (rs ss : List Interval16) (n m : ℕ)
    → RunsFrom 0 rs
    → RunsFrom 0 ss
    → intersection_count_run_run rs ss
      ≡ size (common (container_run rs n) (container_run ss m)) container_width
runs_common rs ss n m p q =
    let (shape, count, holds) = intersect_run_run-Builds rs ss p q in
    intersection_count_run_run-eq-intersect_run_run rs ss p q
    ∙ count
    ∙ cardinality-eq-size (intersect_run_run rs ss).0 shape
    ∙ size-same (λ (c : ℕ). run_mem c (intersect_run_run rs ss).0)
        (common (container_run rs n) (container_run ss m)) container_width (λ c l. holds c)

from_zero : {m n : ℕ} → m ≡ 0 + n → m ≡ n
from_zero e = omega (arith, e)

some_from_zero : {n : ℕ} {answer : Option ℕ} → answer ≡ some (0 + n) → answer ≡ some n
some_from_zero e = e ∙ ap (λ (t : ℕ). some t) (omega arith)

count_kinds-eq-size :
    (a b : Container)
    → IsContainer (some a)
    → IsContainer (some b)
    → count_kinds a b ≡ some (size (common a b) container_width)
unfolding count_kinds intersect_kinds intersect_array_bitmap
count_kinds-eq-size (container_array xs) (container_array ys) p q =
    ap (λ (t : ℕ). some t)
      (intersection_count-eq-length xs ys p.0 q.0
        ∙ Holds-cardinal (common (container_array xs) (container_array ys))
            (container_array (intersect_array_array xs ys))
            (intersect_kinds-Holds (container_array xs) (container_array ys) p q))
count_kinds-eq-size (container_array xs) (container_run rs n) p q =
    ap (λ (t : ℕ). some t)
      (from_zero (count_array_run-eq-length xs rs 0)
        ∙ Holds-cardinal (common (container_array xs) (container_run rs n))
            (container_array (intersect_array_run xs rs))
            (intersect_kinds-Holds (container_array xs) (container_run rs n) p q))
count_kinds-eq-size (container_array xs) (container_bitmap ws n) p q =
    ap (λ (t : ℕ). some t)
      (from_zero (count_array_bitmap-eq-length xs ws 0)
        ∙ Holds-cardinal (common (container_array xs) (container_bitmap ws n))
            (container_array (keep_contained ws xs))
            (intersect_kinds-Holds (container_array xs) (container_bitmap ws n) p q))
count_kinds-eq-size (container_run rs n) (container_array xs) p q =
    ap (λ (t : ℕ). some t)
      (from_zero (count_array_run-eq-length xs rs 0)
        ∙ Holds-cardinal (common (container_run rs n) (container_array xs))
            (container_array (intersect_array_run xs rs))
            (intersect_kinds-Holds (container_run rs n) (container_array xs) p q))
count_kinds-eq-size (container_run rs n) (container_run ss m) p q =
    ap (λ (t : ℕ). some t) (runs_common rs ss n m p.0 q.0)
count_kinds-eq-size (container_run rs n) (container_bitmap ws m) p q =
    some_from_zero (count_bitmap_run-eq-size ws 0 rs 0 q.0 p.0)
count_kinds-eq-size (container_bitmap ws n) (container_array xs) p q =
    ap (λ (t : ℕ). some t)
      (from_zero (count_array_bitmap-eq-length xs ws 0)
        ∙ Holds-cardinal (common (container_bitmap ws n) (container_array xs))
            (container_array (keep_contained ws xs))
            (intersect_kinds-Holds (container_bitmap ws n) (container_array xs) p q))
count_kinds-eq-size (container_bitmap ws n) (container_run rs m) p q =
    some_from_zero (count_bitmap_run-eq-size ws 0 rs 0 p.0 q.0)
    ∙ ap (λ (t : ℕ). some t)
        (size-same (λ (c : ℕ). run_mem c rs && bitmap_contains ws c)
          (common (container_bitmap ws n) (container_run rs m)) container_width
          (λ c l. and_swap (run_mem c rs) (bitmap_contains ws c)))
count_kinds-eq-size (container_bitmap ws n) (container_bitmap vs m) p q =
    ap (λ (t : ℕ). some t)
      (from_zero (popcount_and_slice-eq-intersect_words ws vs 0)
        ∙ sym (cardinal-as_counted (intersect_words ws vs))
        ∙ Holds-cardinal (common (container_bitmap ws n) (container_bitmap vs m))
            (as_counted (intersect_words ws vs))
            (intersect_kinds-Holds (container_bitmap ws n) (container_bitmap vs m) p q))

-- `N()` of a container or of none.
abbrev pub cardinal? : Option Container → ℕ
cardinal? none = 0
cardinal? (some c) = cardinal c

intersection-cardinal :
    (a b : Container) (c : Option Container)
    → IsIntersection a b c
    → cardinal? c ≡ size (common a b) container_width
intersection-cardinal a b none (shape, holds) =
    sym (size-none (common a b) container_width (λ u. sym (holds u)))
intersection-cardinal a b (some c) p = Holds-cardinal (common a b) c p

count-eq-cardinal :
    (a b : Container)
    → IsContainer (some a)
    → IsContainer (some b)
    → intersection_count a b ≡ some (cardinal? (intersect a b))
unfolding intersection_count intersect
count-eq-cardinal a b p q = elim (Bool-cases (cardinal a == max_container_val + 1)) [
  | inl full ↦ rw full refl
  | inr not_a ↦ elim (Bool-cases (cardinal b == max_container_val + 1)) [
    | inl full ↦ rw (not_a, full) refl
    | inr not_b ↦ elim (Bool-cases (cardinal a == 0 || cardinal b == 0)) [
      | inl empty ↦ rw (not_a, not_b, empty) refl
      | inr some_value ↦
          rw (not_a, not_b, some_value)
            (count_kinds-eq-size a b p q
              ∙ ap (λ (t : ℕ). some t)
                  (sym (
                    Holds-cardinal (common a b) (intersect_kinds a b)
                      (intersect_kinds-Holds a b p q))))
    ]
  ]
]

-- For two containers of any kinds, each well-formed with its cardinality right, intersectionCount
-- does not panic and returns the number of values that both contain, which is the cardinality of
-- what intersect returns.
pub intersection_count-eq-size :
    (a b : Container)
    → IsContainer (some a)
    → IsContainer (some b)
    → (intersection_count a b ≡ some (size (common a b) container_width))
      × (intersection_count a b ≡ some (cardinal? (intersect a b)))
intersection_count-eq-size a b p q =
    let same = count-eq-cardinal a b p q in
    (
      same
          ∙ ap (λ (t : ℕ). some t)
              (intersection-cardinal a b (intersect a b) (intersect-IsIntersection a b p q)),
      same,
    )
