-- ===== src/Roaring/Intersect/Sets.antt =====
-- `intersect` holds the common values of two containers, whatever their kinds.
use pilosa.Common.Booleans.{and_false, and_swap}
use mathlib.Core.Path.{subst}
use pilosa.Common.{
  ℕ, ◌+◌, ◌≡◌, refl, sym, ap, ◌∙◌, List, Bool, true, false, ◌&&◌, ◌||◌, leb, ◌==◌, arith,
  Bool-cases, inl, inr, Option, none, some,
}
use pilosa.Roaring.Sorted.{mem}
use pilosa.Roaring.Array.{array_max_size, intersect_array_array}
use pilosa.Roaring.Array.Merge.{mem-intersect_array_array, AscendingFrom-intersect_array_array}
use pilosa.Roaring.Size.{size, size-full, size-zero}
use pilosa.Roaring.Bitset.{bitmap_n, bitmap_contains, zeros}
use pilosa.Roaring.Bitset.Sets.{IsBitset}
use pilosa.Roaring.Bitset.Arrays.{length-zeros, Words64-zeros, contains-zeros}
use pilosa.Roaring.Bitset.Count.{ones_sum-zeros}
use pilosa.Roaring.Run.{Interval16, intersect_run_run, intersect_array_run, max_container_val}
use pilosa.Roaring.Run.Sets.{run_mem, RunsFrom}
use pilosa.Roaring.Run.Intersect.{intersect_run_run-Builds}
use pilosa.Roaring.Run.Arrays.{intersect_array_run-eq-both}
use pilosa.Roaring.Container.{Container, container_array, container_bitmap, container_run}
use pilosa.Roaring.Container.Kinds.{container_width, IsArray, IsContainer, members, length-eq-size}
use pilosa.Roaring.Container.Removal.{bitmap-contains-lt}
use pilosa.Roaring.Intersect.{
  cardinal, keep_contained, intersect_array_bitmap, intersect_words, as_counted, mask_runs,
  intersect_bitmap_run, intersect_kinds, intersect, run_values,
}
use pilosa.Roaring.Intersect.Values.{
  Holds, Holds-as, fit_runs-Holds, run_values-mem, run_values-IsArray, cardinality-eq-size,
  run_mem-lt,
}
use pilosa.Roaring.Intersect.Masked.{Masks}
use pilosa.Roaring.Intersect.Runs.{Masks-ap, mask_runs-Masks}
use pilosa.Roaring.Intersect.Kept.{
  as_counted-Holds, keep_contained-Holds, intersect_words-Masks, and_left,
}

-- What both containers contain.
abbrev pub common : Container → Container → ℕ → Bool
common a b u = members (some a) u && members (some b) u

intersect_bitmap_run-Holds :
    (ws : List ℕ) (n : ℕ) (rs : List Interval16) (m : ℕ)
    → IsBitset ws
    → RunsFrom 0 rs
    → Holds (λ c. bitmap_contains ws c && run_mem c rs) (intersect_bitmap_run ws n rs m)
unfolding intersect_bitmap_run
intersect_bitmap_run-Holds ws n rs m p q =
    let s : ℕ → Bool = λ c. bitmap_contains ws c && run_mem c rs in
    elim (Bool-cases (leb m array_max_size || leb n array_max_size)) [
      | inl few ↦
          Holds-as s (container_array (keep_contained ws (run_values rs)))
            (intersect_bitmap_run ws n rs m) (rw few refl)
            (keep_contained-Holds s ws (run_values rs) (run_values-IsArray rs q) (λ c.
              and_swap (bitmap_contains ws c) (run_mem c rs)
              ∙ ap (λ (b : Bool). b && bitmap_contains ws c) (sym ((run_values-mem 0 rs q).1 c))))
      | inr many ↦
          let empty : Masks (λ c. false) (zeros bitmap_n, 0) = (
            (length-zeros bitmap_n, Words64-zeros bitmap_n),
            sym (ones_sum-zeros bitmap_n),
            λ c. contains-zeros bitmap_n c,
          ) in
          let masks =
            mask_runs-Masks ws 0 rs (λ c. false) (zeros bitmap_n, 0) p q (λ c h. refl) empty in
          Holds-as s (as_counted (mask_runs ws rs (zeros bitmap_n, 0)))
            (intersect_bitmap_run ws n rs m) (rw many refl)
            (as_counted-Holds s (mask_runs ws rs (zeros bitmap_n, 0)) (
              Masks-ap (λ c. false || run_mem c rs && bitmap_contains ws c) s
                (mask_runs ws rs (zeros bitmap_n, 0))
                (λ c. and_swap (run_mem c rs) (bitmap_contains ws c)) masks))
    ]

pub Holds-ap : (s t : ℕ → Bool) (c : Container) → ((u : ℕ) → s u ≡ t u) → Holds s c → Holds t c
Holds-ap s t c e (shape, holds) = (shape, λ u. holds u ∙ e u)

arrays-Holds :
    (xs ys : List ℕ)
    → IsArray xs
    → IsArray ys
    → Holds (λ c. mem c xs && mem c ys) (container_array (intersect_array_array xs ys))
arrays-Holds xs ys p q =
    let both : (c : ℕ) → mem c (intersect_array_array xs ys) ≡ (mem c xs && mem c ys) =
      λ c. mem-intersect_array_array c 0 xs ys p.0 q.0 in
    (
      (
        AscendingFrom-intersect_array_array 0 xs ys p.0,
        λ c m. p.1 c (and_left (mem c xs) (mem c ys) (sym (both c) ∙ m)),
      ),
      both,
    )

array_run-Holds :
    (xs : List ℕ) (rs : List Interval16)
    → IsArray xs
    → RunsFrom 0 rs
    → Holds (λ c. mem c xs && run_mem c rs) (container_array (intersect_array_run xs rs))
array_run-Holds xs rs p q =
    let both = intersect_array_run-eq-both 0 0 xs rs p.0 q in
    (
      (both.0, λ c m. p.1 c (and_left (mem c xs) (run_mem c rs) (sym (both.1 c) ∙ m))),
      λ u. both.1 u,
    )

pub intersect_kinds-Holds :
    (a b : Container)
    → IsContainer (some a)
    → IsContainer (some b)
    → Holds (common a b) (intersect_kinds a b)
unfolding intersect_kinds intersect_array_bitmap
intersect_kinds-Holds (container_array xs) (container_array ys) p q = arrays-Holds xs ys p q
intersect_kinds-Holds (container_array xs) (container_run rs n) p q = array_run-Holds xs rs p q.0
intersect_kinds-Holds (container_array xs) (container_bitmap ws n) p q =
    keep_contained-Holds (common (container_array xs) (container_bitmap ws n)) ws xs p (λ c. refl)
intersect_kinds-Holds (container_run rs n) (container_array xs) p q =
    Holds-ap (λ c. mem c xs && run_mem c rs) (common (container_run rs n) (container_array xs))
      (container_array (intersect_array_run xs rs)) (λ u. and_swap (mem u xs) (run_mem u rs))
      (array_run-Holds xs rs q p.0)
intersect_kinds-Holds (container_run rs n) (container_run ss m) p q =
    fit_runs-Holds (common (container_run rs n) (container_run ss m)) (intersect_run_run rs ss)
      (intersect_run_run-Builds rs ss p.0 q.0)
intersect_kinds-Holds (container_run rs n) (container_bitmap ws m) p q =
    Holds-ap (λ c. bitmap_contains ws c && run_mem c rs)
      (common (container_run rs n) (container_bitmap ws m)) (intersect_bitmap_run ws m rs n)
      (λ u. and_swap (bitmap_contains ws u) (run_mem u rs))
      (intersect_bitmap_run-Holds ws m rs n q.0 p.0)
intersect_kinds-Holds (container_bitmap ws n) (container_array xs) p q =
    keep_contained-Holds (common (container_bitmap ws n) (container_array xs)) ws xs q
      (λ c. and_swap (bitmap_contains ws c) (mem c xs))
intersect_kinds-Holds (container_bitmap ws n) (container_run rs m) p q =
    intersect_bitmap_run-Holds ws n rs m p.0 q.0
intersect_kinds-Holds (container_bitmap ws n) (container_bitmap vs m) p q =
    as_counted-Holds (common (container_bitmap ws n) (container_bitmap vs m))
      (intersect_words ws vs) (intersect_words-Masks ws vs p.0 q.0)

-- `N()` is the number of values, which are of 16 bits.
pub cardinal-eq-size :
    (c : Container)
    → IsContainer (some c)
    → cardinal c ≡ size (λ (u : ℕ). members (some c) u) container_width
cardinal-eq-size (container_array xs) p = length-eq-size 0 xs p.0 p.1
cardinal-eq-size (container_bitmap ws n) p = p.1
cardinal-eq-size (container_run rs n) p = p.1 ∙ cardinality-eq-size rs p.0

pub members-lt :
    (c : Container) (u : ℕ)
    → IsContainer (some c)
    → leb container_width u ≡ true
    → members (some c) u ≡ false
members-lt (container_array xs) u p h = ground (arith, p.1 u)
members-lt (container_bitmap ws n) u p h = bitmap-contains-lt ws u p.0 h
members-lt (container_run rs n) u p h = ground (arith, run_mem-lt 0 u rs p.0)

-- A full container has every value, and an empty one has none.
pub full_members :
    (c : Container) (u : ℕ)
    → IsContainer (some c)
    → cardinal c ≡ container_width
    → leb container_width u ≡ false
    → members (some c) u ≡ true
full_members c u p e h =
    size-full (λ (x : ℕ). members (some c) x) container_width u (sym (cardinal-eq-size c p) ∙ e)
      (ground arith)

empty_members :
    (c : Container) (u : ℕ) → IsContainer (some c) → cardinal c ≡ 0 → members (some c) u ≡ false
empty_members c u p e = elim (Bool-cases (leb container_width u)) [
  | inl past ↦ members-lt c u p past
  | inr here ↦
      size-zero (λ (x : ℕ). members (some c) x) container_width u (sym (cardinal-eq-size c p) ∙ e)
        (ground arith)
]

-- What the intersection of two containers is: a container, or none, of the common values.
abbrev pub IsIntersection : Container → Container → Option Container → Type 0
IsIntersection a b c = IsContainer c × ((u : ℕ) → members c u ≡ common a b u)

with_full :
    (a b : Container) (u : ℕ)
    → IsContainer (some a)
    → IsContainer (some b)
    → cardinal a ≡ container_width
    → members (some b) u ≡ common a b u
with_full a b u p q e = elim (Bool-cases (leb container_width u)) [
  | inl past ↦ rw (members-lt b u q past) (sym (and_false (members (some a) u)))
  | inr here ↦ rw (full_members a u p e here) refl
]

-- For two containers of any kinds, each well-formed with its cardinality right, intersect returns
-- a well-formed container with its cardinality right, or none, which contains a value exactly if
-- both contain it.
pub intersect-IsIntersection :
    (a b : Container)
    → IsContainer (some a)
    → IsContainer (some b)
    → IsIntersection a b (intersect a b)
unfolding intersect
intersect-IsIntersection a b p q =
    let result : Option Container → Type 0 = λ c. IsIntersection a b c in
    elim (Bool-cases (cardinal a == max_container_val + 1)) [
      | inl full ↦
          let made : intersect a b ≡ some b = rw full refl in
          subst result (sym made) (q, λ u. with_full a b u p q (ground arith))
      | inr not_a ↦ elim (Bool-cases (cardinal b == max_container_val + 1)) [
        | inl full ↦
            let made : intersect a b ≡ some a = rw (not_a, full) refl in
            subst result (sym made) (
              p,
              λ u.
                  with_full b a u q p (ground arith)
                  ∙ and_swap (members (some b) u) (members (some a) u),
            )
        | inr not_b ↦ elim (Bool-cases (cardinal a == 0 || cardinal b == 0)) [
          | inl empty ↦
              let made : intersect a b ≡ none = rw (not_a, not_b, empty) refl in
              subst result (sym made) (tt, λ u. nothing_common u empty)
          | inr some_value ↦
              let made : intersect a b ≡ some (intersect_kinds a b) =
                rw (not_a, not_b, some_value) refl in
              subst result (sym made) (intersect_kinds-Holds a b p q)
        ]
      ]
    ]
  where
    nothing_common : (u : ℕ) → (cardinal a == 0 || cardinal b == 0) ≡ true → false ≡ common a b u
    nothing_common u e = elim (Bool-cases (cardinal a == 0)) [
      | inl none_a ↦ rw (empty_members a u p (ground arith)) refl
      | inr some_a ↦ rw (empty_members b u q (ground arith)) (sym (and_false (members (some a) u)))
    ]
