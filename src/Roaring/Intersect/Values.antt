-- ===== src/Roaring/Intersect/Values.antt =====
-- The values of runs one by one, and the conversions of a run container.
use mathlib.Core.Path.{subst}
use pilosa.Common.{
  ℕ, zero, suc, ◌+◌, ◌/◌, ◌<◌, ◌≡◌, refl, sym, ap, ◌∙◌, List, [], ◌∷◌, Bool, true, false, ◌&&◌, ltb,
  leb, ◌==◌, arith, length, length-append, Bool-cases, inl, inr, some,
}
use pilosa.Roaring.Sorted.{AscendingFrom, mem, AscendingFrom-weaken}
use pilosa.Roaring.Array.{array_max_size}
use pilosa.Roaring.Size.{size, size-same}
use pilosa.Roaring.Run.{Interval16, runlen, Output}
use pilosa.Roaring.Run.Sets.{run_mem, cardinality, RunsFrom}
use pilosa.Roaring.Run.Outputs.{Builds}
use pilosa.Roaring.Bitset.{bitmap_n, bitmap_contains, zeros, array_to_bitmap}
use pilosa.Roaring.Bitset.Arrays.{
  AscendingFrom-append, mem-append, array_to_bitmap-IsBitset, length-zeros, Words64-zeros,
  contains-zeros,
}
use pilosa.Roaring.Bitset.Sets.{IsBitset}
use pilosa.Roaring.Container.{Container, container_array, container_bitmap, container_run}
use pilosa.Roaring.Container.Kinds.{
  container_width, IsArray, IsRuns, IsContainer, members, Values16-IsArray, length-eq-size,
}
use pilosa.Roaring.Intersect.{
  values_from, run_values, run_to_array, run_to_bitmap, fit_runs, run_max_size,
}

values_from-mem :
    (rounds v : ℕ)
    → AscendingFrom v (values_from rounds v)
      × ((c : ℕ) → mem c (values_from rounds v) ≡ (leb v c && ltb c (v + rounds)))
values_from-mem zero v = (tt, λ c. ground arith)
values_from-mem (suc rounds) v =
    let rest = values_from-mem rounds (suc v) in
    ((omega arith, rest.0), λ c. ground (arith, rest.1 c))

pub run_values-mem :
    (lo : ℕ) (runs : List Interval16)
    → RunsFrom lo runs
    → AscendingFrom lo (run_values runs) × ((c : ℕ) → mem c (run_values runs) ≡ run_mem c runs)
run_values-mem lo [] p = (tt, λ c. refl)
run_values-mem lo (r ∷ runs) p =
    let first = values_from-mem (runlen r) r.start in
    let rest = run_values-mem (suc r.last) runs p.2 in
    (
      AscendingFrom-append lo (suc r.last) (values_from (runlen r) r.start) (run_values runs)
          (AscendingFrom-weaken lo r.start (values_from (runlen r) r.start) p.0 first.0)
          (λ c e. ground (arith, first.1 c)) (omega arith) rest.0,
      λ c.
          mem-append c (values_from (runlen r) r.start) (run_values runs)
          ∙ ground (arith, first.1 c, rest.1 c),
    )

pub run_mem-lt :
    (lo c : ℕ) (runs : List Interval16)
    → RunsFrom lo runs
    → run_mem c runs ≡ true
    → c < container_width
run_mem-lt lo c [] p e = absurd (ground arith)
run_mem-lt lo c (r ∷ runs) p e = ground (arith, run_mem-lt (suc r.last) c runs p.2)

pub run_values-IsArray : (runs : List Interval16) → RunsFrom 0 runs → IsArray (run_values runs)
run_values-IsArray runs p =
    let values = run_values-mem 0 runs p in
    (values.0, λ c e. run_mem-lt 0 c runs p (sym (values.1 c) ∙ e))

length-values_from : (rounds v : ℕ) → length (values_from rounds v) ≡ rounds
length-values_from zero v = refl
length-values_from (suc rounds) v = ap suc (length-values_from rounds (suc v))

length-run_values : (runs : List Interval16) → length (run_values runs) ≡ cardinality runs
length-run_values [] = refl
length-run_values (r ∷ runs) =
    length-append (values_from (runlen r) r.start) (run_values runs)
    ∙ omega (arith, length-values_from (runlen r) r.start, length-run_values runs)

-- The cardinality of runs is the number of their values.
pub cardinality-eq-size :
    (runs : List Interval16)
    → RunsFrom 0 runs
    → cardinality runs ≡ size (λ (c : ℕ). run_mem c runs) container_width
cardinality-eq-size runs p =
    let array = run_values-IsArray runs p in
    let values = run_values-mem 0 runs p in
    sym (length-run_values runs)
    ∙ length-eq-size 0 (run_values runs) array.0 array.1
    ∙ size-same (λ (c : ℕ). mem c (run_values runs)) (λ (c : ℕ). run_mem c runs) container_width
        (λ c h. values.1 c)

-- A container for a set.
abbrev pub Holds : (ℕ → Bool) → Container → Type 0
Holds s c = IsContainer (some c) × ((u : ℕ) → members (some c) u ≡ s u)

-- Another container with the same content.
pub Holds-as : (s : ℕ → Bool) (c c' : Container) → c' ≡ c → Holds s c → Holds s c'
Holds-as s c c' e h = subst (λ (x : Container). Holds s x) (sym e) h

no_values : (runs : List Interval16) (c : ℕ) → cardinality runs ≡ 0 → run_mem c runs ≡ false
no_values [] c e = refl
no_values (r ∷ runs) c e = absurd (omega arith)

pub run_to_array-Holds :
    (runs : List Interval16) (n : ℕ)
    → IsRuns runs n
    → Holds (λ (c : ℕ). run_mem c runs) (container_array (run_to_array runs n))
unfolding run_to_array
run_to_array-Holds runs n (p, count) = elim (Bool-cases (n == 0)) [
  | inl empty ↦
      Holds-as (λ (c : ℕ). run_mem c runs) (container_array [])
        (container_array (run_to_array runs n)) (rw empty refl)
        ((tt, λ c e. absurd (ground arith)), λ u. sym (no_values runs u (ground arith)))
  | inr some_value ↦
      Holds-as (λ (c : ℕ). run_mem c runs) (container_array (run_values runs))
        (container_array (run_to_array runs n)) (rw some_value refl)
        (run_values-IsArray runs p, (run_values-mem 0 runs p).1)
]

pub run_to_bitmap-Holds :
    (runs : List Interval16) (n : ℕ)
    → IsRuns runs n
    → Holds (λ (c : ℕ). run_mem c runs) (container_bitmap (run_to_bitmap runs n) n)
unfolding run_to_bitmap array_to_bitmap
run_to_bitmap-Holds runs n (p, count) =
    let bits : IsBitset (run_to_bitmap runs n)
        × ((c : ℕ) → bitmap_contains (run_to_bitmap runs n) c ≡ run_mem c runs) =
      elim (Bool-cases (n == 0)) [
        | inl empty ↦
            let made : run_to_bitmap runs n ≡ zeros bitmap_n = rw empty refl in
            subst
              (λ (words : List ℕ).
                IsBitset words × ((c : ℕ) → bitmap_contains words c ≡ run_mem c runs))
              (sym made)
              (
                (length-zeros bitmap_n, Words64-zeros bitmap_n),
                λ c. contains-zeros bitmap_n c ∙ sym (no_values runs c (ground arith)),
              )
        | inr some_value ↦
            let array = run_values-IsArray runs p in
            let all =
              array_to_bitmap-IsBitset (run_values runs)
                (Values16-IsArray (run_values runs) array.1) in
            let made : run_to_bitmap runs n ≡ array_to_bitmap (run_values runs) =
              rw some_value refl in
            subst
              (λ (words : List ℕ).
                IsBitset words × ((c : ℕ) → bitmap_contains words c ≡ run_mem c runs))
              (sym made) (all.0, λ c. all.1 c ∙ (run_values-mem 0 runs p).1 c)
      ] in
    (
      (
        bits.0,
        count
            ∙ cardinality-eq-size runs p
            ∙ size-same (λ (c : ℕ). run_mem c runs)
                (λ (c : ℕ). bitmap_contains (run_to_bitmap runs n) c) container_width
                (λ c h. sym (bits.1 c)),
      ),
      bits.1,
    )

pub fit_runs-Holds : (s : ℕ → Bool) (out : Output) → Builds s out → Holds s (fit_runs out)
unfolding fit_runs
fit_runs-Holds s (runs, n) (p, count, holds) =
    elim (Bool-cases (ltb n array_max_size && ltb (n / 2) (length runs))) [
      | inl sparse ↦
          let same = run_to_array-Holds runs n (p, count) in
          Holds-as s (container_array (run_to_array runs n)) (fit_runs (runs, n)) (rw sparse refl)
            (same.0, λ u. same.1 u ∙ holds u)
      | inr dense ↦ elim (Bool-cases (ltb run_max_size (length runs))) [
        | inl long ↦
            let same = run_to_bitmap-Holds runs n (p, count) in
            Holds-as s (container_bitmap (run_to_bitmap runs n) n) (fit_runs (runs, n))
              (rw (dense, long) refl) (same.0, λ u. same.1 u ∙ holds u)
        | inr short ↦
            Holds-as s (container_run runs n) (fit_runs (runs, n)) (rw (dense, short) refl)
              ((p, count), holds)
      ]
    ]
