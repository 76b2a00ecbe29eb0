-- ===== src/Roaring/Union/Sets.antt =====
-- `union` holds the values of either of two containers, whatever their kinds.
use pilosa.Common.Booleans.{or_swap}
use pilosa.Common.{
  ℕ, ◌+◌, ◌<◌, ◌≡◌, refl, sym, ◌∙◌, List, [], ◌∷◌, Bool, true, false, ◌||◌, ltb, leb, ◌==◌, arith,
  length, Bool-cases, inl, inr, some,
}
use pilosa.Roaring.Sorted.{mem}
use pilosa.Roaring.Array.{array_max_size, union_array_array}
use pilosa.Roaring.Array.Merge.{union_array_array-IsUnion}
use pilosa.Roaring.Bitset.{bitmap_contains}
use pilosa.Roaring.Bitset.Count.{ones_sum-eq-size}
use pilosa.Roaring.Run.{Interval16, Output, union_run_run, union_array_run, max_container_val}
use pilosa.Roaring.Run.Sets.{run_mem, RunsFrom}
use pilosa.Roaring.Run.Outputs.{Builds}
use pilosa.Roaring.Run.Union.{union_run_run-Builds}
use pilosa.Roaring.Run.Arrays.{Values16, union_array_run-Builds}
use pilosa.Roaring.Container.{Container, container_array, container_bitmap, container_run}
use pilosa.Roaring.Container.Kinds.{container_width, IsArray, IsBitmap, IsContainer, members}
use pilosa.Roaring.Intersect.{cardinal, run_max_size, run_to_array, run_to_bitmap, as_counted}
use pilosa.Roaring.Intersect.Values.{Holds, Holds-as, run_to_array-Holds, run_to_bitmap-Holds}
use pilosa.Roaring.Intersect.Kept.{as_counted-Holds}
use pilosa.Roaring.Intersect.Sets.{Holds-ap, full_members, members-lt}
use pilosa.Roaring.Union.{
  union_bitmap_run, union_array_bitmap, union_words, shorten_runs, fit_union, union_kinds,
  full_container, union,
}
use pilosa.Roaring.Union.Words.{
  union_bitmap_run-Masks, union_array_bitmap-IsBitmapOf, union_words-Masks,
}

-- What one of two containers contains.
abbrev pub either : Container → Container → ℕ → Bool
either a b u = members (some a) u || members (some b) u

arrays-Holds :
    (xs ys : List ℕ)
    → IsArray xs
    → IsArray ys
    → Holds (λ c. mem c xs || mem c ys) (container_array (union_array_array xs ys))
arrays-Holds xs ys p q =
    let (up, holds) = union_array_array-IsUnion 0 xs ys p.0 q.0 in
    (
      (
        up,
        λ c m. elim (Bool-cases (mem c xs)) [
          | inl first ↦ p.1 c first
          | inr second ↦ q.1 c (ground (arith, holds c))
        ],
      ),
      holds,
    )

shorten_runs-Holds : (s : ℕ → Bool) (out : Output) → Builds s out → Holds s (shorten_runs out)
unfolding shorten_runs
shorten_runs-Holds s (runs, n) (p, count, holds) =
    elim (Bool-cases (ltb run_max_size (length runs))) [
      | inl long ↦
          let same = run_to_bitmap-Holds runs n (p, count) in
          Holds-as s (container_bitmap (run_to_bitmap runs n) n) (shorten_runs (runs, n))
            (rw long refl) (same.0, λ u. same.1 u ∙ holds u)
      | inr short ↦
          Holds-as s (container_run runs n) (shorten_runs (runs, n)) (rw short refl)
            ((p, count), holds)
    ]

fit_union-Holds : (s : ℕ → Bool) (out : Output) → Builds s out → Holds s (fit_union out)
unfolding fit_union
fit_union-Holds s (runs, n) (p, count, holds) = elim (Bool-cases (ltb n array_max_size)) [
  | inl few ↦
      let same = run_to_array-Holds runs n (p, count) in
      Holds-as s (container_array (run_to_array runs n)) (fit_union (runs, n)) (rw few refl)
        (same.0, λ u. same.1 u ∙ holds u)
  | inr many ↦
      Holds-as s (shorten_runs (runs, n)) (fit_union (runs, n)) (rw many refl)
        (shorten_runs-Holds s (runs, n) (p, count, holds))
]

values16 : (xs : List ℕ) → ((c : ℕ) → mem c xs ≡ true → c < container_width) → Values16 xs
values16 [] b = tt
values16 (x ∷ xs) b =
    let first : x < container_width = b x (ground arith) in
    (omega (arith, first), values16 xs (λ c e. b c (ground arith)))

array_run-Holds :
    (xs : List ℕ) (rs : List Interval16)
    → IsArray xs
    → RunsFrom 0 rs
    → Holds (λ c. mem c xs || run_mem c rs) (fit_union (union_array_run xs rs))
array_run-Holds xs rs p q =
    fit_union-Holds (λ c. mem c xs || run_mem c rs) (union_array_run xs rs)
      (union_array_run-Builds xs rs p.0 (values16 xs p.1) q)

array_bitmap-Holds :
    (xs ws : List ℕ) (n : ℕ)
    → IsArray xs
    → IsBitmap ws n
    → Holds (λ c. bitmap_contains ws c || mem c xs) (as_counted (union_array_bitmap xs (ws, n)))
unfolding as_counted
array_bitmap-Holds xs ws n p q =
    union_array_bitmap-IsBitmapOf xs (λ c. bitmap_contains ws c) (ws, n) p.1 (q, λ c. refl)

bitmap_run-Holds :
    (ws : List ℕ) (n : ℕ) (rs : List Interval16)
    → IsBitmap ws n
    → RunsFrom 0 rs
    → Holds (λ c. bitmap_contains ws c || run_mem c rs) (as_counted (union_bitmap_run (ws, n) rs))
bitmap_run-Holds ws n rs p q =
    as_counted-Holds (λ c. bitmap_contains ws c || run_mem c rs) (union_bitmap_run (ws, n) rs)
      (union_bitmap_run-Masks 0 rs (λ c. bitmap_contains ws c) (ws, n) q
        (p.0, p.1 ∙ sym (ones_sum-eq-size ws p.0), λ c. refl))

union_kinds-Holds :
    (a b : Container)
    → IsContainer (some a)
    → IsContainer (some b)
    → Holds (either a b) (union_kinds a b)
unfolding union_kinds
union_kinds-Holds (container_array xs) (container_array ys) p q = arrays-Holds xs ys p q
union_kinds-Holds (container_array xs) (container_run rs n) p q = array_run-Holds xs rs p q.0
union_kinds-Holds (container_array xs) (container_bitmap ws n) p q =
    Holds-ap (λ c. bitmap_contains ws c || mem c xs)
      (either (container_array xs) (container_bitmap ws n))
      (as_counted (union_array_bitmap xs (ws, n))) (λ u. or_swap (bitmap_contains ws u) (mem u xs))
      (array_bitmap-Holds xs ws n p q)
union_kinds-Holds (container_run rs n) (container_array xs) p q =
    Holds-ap (λ c. mem c xs || run_mem c rs) (either (container_run rs n) (container_array xs))
      (fit_union (union_array_run xs rs)) (λ u. or_swap (mem u xs) (run_mem u rs))
      (array_run-Holds xs rs q p.0)
union_kinds-Holds (container_run rs n) (container_run ss m) p q =
    shorten_runs-Holds (either (container_run rs n) (container_run ss m)) (union_run_run rs ss)
      (union_run_run-Builds rs ss p.0 q.0)
union_kinds-Holds (container_run rs n) (container_bitmap ws m) p q =
    Holds-ap (λ c. bitmap_contains ws c || run_mem c rs)
      (either (container_run rs n) (container_bitmap ws m))
      (as_counted (union_bitmap_run (ws, m) rs))
      (λ u. or_swap (bitmap_contains ws u) (run_mem u rs)) (bitmap_run-Holds ws m rs q p.0)
union_kinds-Holds (container_bitmap ws n) (container_array xs) p q = array_bitmap-Holds xs ws n q p
union_kinds-Holds (container_bitmap ws n) (container_run rs m) p q = bitmap_run-Holds ws n rs p q.0
union_kinds-Holds (container_bitmap ws n) (container_bitmap vs m) p q =
    as_counted-Holds (either (container_bitmap ws n) (container_bitmap vs m)) (union_words ws vs)
      (union_words-Masks ws vs p.0 q.0)

-- The full container has the values of 16 bits.
full_container-Holds :
    (s : ℕ → Bool) → ((u : ℕ) → s u ≡ leb u max_container_val) → Holds s full_container
full_container-Holds s e =
    (((omega arith, (omega arith, omega arith), tt), refl), λ u. ground (arith, e u))

-- The union with a full container.
with_full :
    (a b : Container) (u : ℕ)
    → IsContainer (some a)
    → IsContainer (some b)
    → (cardinal a == max_container_val + 1 || cardinal b == max_container_val + 1) ≡ true
    → either a b u ≡ leb u max_container_val
with_full a b u p q e = elim (Bool-cases (leb container_width u)) [
  | inl past ↦
      let out : leb u max_container_val ≡ false = ground arith in
      rw (members-lt a u p past, members-lt b u q past, out) refl
  | inr here ↦
      let inside : leb u max_container_val ≡ true = ground arith in
      elim (Bool-cases (cardinal a == max_container_val + 1)) [
        | inl full ↦ rw (full_members a u p (ground arith) here, inside) refl
        | inr other ↦
            rw (full_members b u q (ground arith) here, inside) (or_swap (members (some a) u) true)
      ]
]

-- For two containers of any kinds, each well-formed with its cardinality right, union returns a
-- well-formed container with its cardinality right, which contains a value exactly if one of the
-- two does.
pub union-Holds :
    (a b : Container) → IsContainer (some a) → IsContainer (some b) → Holds (either a b) (union a b)
unfolding union
union-Holds a b p q =
    elim (Bool-cases (cardinal a == max_container_val + 1 || cardinal b == max_container_val + 1)) [
      | inl full ↦
          Holds-as (either a b) full_container (union a b) (rw full refl)
            (full_container-Holds (either a b) (λ u. with_full a b u p q full))
      | inr some_room ↦
          Holds-as (either a b) (union_kinds a b) (union a b) (rw some_room refl)
            (union_kinds-Holds a b p q)
    ]
