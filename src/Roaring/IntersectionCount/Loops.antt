-- ===== src/Roaring/IntersectionCount/Loops.antt =====
-- The loops that count common values count what `intersect` would keep.
use Prim.Native.Nat.{bit_and}
use pilosa.Common.{
  ℕ, suc, ◌+◌, ◌-◌, ◌≤◌, ◌≡◌, refl, sym, ◌∙◌, List, [], ◌∷◌, Bool, true, false, ◌&&◌, ◌||◌, leb,
  arith, length, Bool-cases, inl, inr, ap, some,
}
use pilosa.Common.Digits.{ones_count}
use pilosa.Roaring.Size.{size, size-same, size-either, size-none, size-empty, size-append}
use pilosa.Roaring.Bitset.{bitmap_contains}
use pilosa.Roaring.Bitset.Sets.{IsBitset}
use pilosa.Roaring.Bitset.Range.{bitmap_count_range, bitmap_count_range-eq-size}
use pilosa.Roaring.Run.{Interval16, intersect_array_run, max_container_val}
use pilosa.Roaring.Run.Sets.{run_mem, in_run, RunsFrom, run_mem_below}
use pilosa.Roaring.Container.Kinds.{container_width}
use pilosa.Roaring.Intersect.{keep_contained, intersect_words}
use pilosa.Roaring.IntersectionCount.{
  count_array_run, count_array_bitmap, count_bitmap_run, popcount_and_slice,
}

pub count_array_run-eq-length :
    (xs : List ℕ) (rs : List Interval16) (n : ℕ)
    → count_array_run xs rs n ≡ n + length (intersect_array_run xs rs)
unfolding count_array_run intersect_array_run
count_array_run-eq-length [] rs n = omega arith
count_array_run-eq-length (x ∷ xs) [] n = omega arith
count_array_run-eq-length (x ∷ xs) (r ∷ rs) n = ground (
  arith,
  count_array_run-eq-length xs (r ∷ rs) n,
  count_array_run-eq-length xs (r ∷ rs) (n + 1),
  count_array_run-eq-length (x ∷ xs) rs n,
)

pub count_array_bitmap-eq-length :
    (xs words : List ℕ) (n : ℕ)
    → count_array_bitmap xs words n ≡ n + length (keep_contained words xs)
unfolding count_array_bitmap keep_contained
count_array_bitmap-eq-length [] words n = omega arith
count_array_bitmap-eq-length (x ∷ xs) words n = elim (Bool-cases (bitmap_contains words x)) [
  | inl kept ↦ rw kept (omega (arith, count_array_bitmap-eq-length xs words (n + 1)))
  | inr dropped ↦ rw dropped (omega (arith, count_array_bitmap-eq-length xs words (n + 0)))
]

pub popcount_and_slice-eq-intersect_words :
    (as' bs : List ℕ) (n : ℕ) → popcount_and_slice as' bs n ≡ n + (intersect_words as' bs).1
unfolding popcount_and_slice intersect_words
popcount_and_slice-eq-intersect_words [] bs n = omega arith
popcount_and_slice-eq-intersect_words (a ∷ as') [] n = omega arith
popcount_and_slice-eq-intersect_words (a ∷ as') (b ∷ bs) n =
    omega (arith, popcount_and_slice-eq-intersect_words as' bs (n + ones_count 64 (bit_and a b)))

-- The values of one run that a bitmap contains.
count_run :
    (words : List ℕ) (r : Interval16)
    → IsBitset words
    → r.start ≤ r.last
    → r.last ≤ max_container_val
    → bitmap_count_range words r.start (r.last + 1)
      ≡ some (size (λ (c : ℕ). in_run c r && bitmap_contains words c) container_width)
count_run words r p o t =
    let f : ℕ → Bool = λ (c : ℕ). in_run c r && bitmap_contains words c in
    let rest = container_width - (r.last + 1) in
    let past : size (λ (c : ℕ). f (r.last + 1 + c)) rest ≡ 0 =
      size-empty (λ (c : ℕ). f (r.last + 1 + c)) rest
        (λ c l. let out : in_run (r.last + 1 + c) r ≡ false = ground arith in rw out refl) in
    bitmap_count_range-eq-size words p r.start (r.last + 1) (omega arith) (omega arith)
      (omega arith)
    ∙ ap (λ (t : ℕ). some t)
        (size-same (λ (c : ℕ). leb r.start c && bitmap_contains words c) f (r.last + 1)
            (λ c l. let below : leb c r.last ≡ true = ground arith in rw below (ground arith))
          ∙ sym
              (size-append f (r.last + 1) rest container_width (omega arith) ∙ omega (arith, past)))

not_inside : (a b x : Bool) → a ≡ false → (a && b) ≡ true → x ≡ false
not_inside a b x e h = ground arith

pub count_bitmap_run-eq-size :
    (words : List ℕ) (lo : ℕ) (rs : List Interval16) (n : ℕ)
    → IsBitset words
    → RunsFrom lo rs
    → count_bitmap_run words rs n
      ≡ some (n + size (λ (c : ℕ). run_mem c rs && bitmap_contains words c) container_width)
unfolding count_bitmap_run
count_bitmap_run-eq-size words lo [] n p q =
    ap (λ (t : ℕ). some t)
      (omega (
        arith,
        size-none (λ (c : ℕ). false && bitmap_contains words c) container_width (λ c. refl),
      ))
count_bitmap_run-eq-size words lo (r ∷ rs) n p q =
    let one = size (λ (c : ℕ). in_run c r && bitmap_contains words c) container_width in
    let both =
      size-same (λ (c : ℕ). run_mem c (r ∷ rs) && bitmap_contains words c)
        (λ (c : ℕ).
          in_run c r && bitmap_contains words c || run_mem c rs && bitmap_contains words c)
        container_width (λ c l. spread (in_run c r) (run_mem c rs) (bitmap_contains words c))
      ∙ size-either (λ (c : ℕ). in_run c r && bitmap_contains words c)
          (λ (c : ℕ). run_mem c rs && bitmap_contains words c) container_width (λ c e. apart c e) in
    rw (count_run words r p q.1.0 q.1.1, count_bitmap_run)
      (count_bitmap_run-eq-size words (suc r.last) rs (n + one) p q.2
        ∙ ap (λ (t : ℕ). some t) (omega (arith, both)))
  where
    apart :
        (c : ℕ)
        → (in_run c r && bitmap_contains words c) ≡ true
        → (run_mem c rs && bitmap_contains words c) ≡ false
    apart c e = elim (Bool-cases (in_run c r)) [
      | inl inside ↦
          let out : run_mem c rs ≡ false = run_mem_below (suc r.last) c rs q.2 (ground arith) in
          rw out refl
      | inr outside ↦
          not_inside (in_run c r) (bitmap_contains words c)
            (run_mem c rs && bitmap_contains words c) outside e
    ]

    spread : (a b x : Bool) → ((a || b) && x) ≡ (a && x || b && x)
    spread true true true = refl
    spread true false true = refl
    spread true true false = refl
    spread true false false = refl
    spread false b x = refl
