-- ===== src/Roaring/Intersect/Runs.antt =====
-- The loops of `intersectBitmapRun` over the words of a run, and over the runs.
use pilosa.Common.{
  ℕ, zero, suc, ◌+◌, ◌-◌, ◌*◌, ◌/◌, ◌≤◌, ◌≡◌, refl, ◌∙◌, List, [], ◌∷◌, Bool, true, false, ◌&&◌,
  ◌||◌, leb, ◌==◌, arith, Bool-cases, inl, inr,
}
use pilosa.Roaring.Bitset.{bitmap_n, bitmap_contains}
use pilosa.Roaring.Bitset.Sets.{IsBitset}
use pilosa.Roaring.Run.{Interval16}
use pilosa.Roaring.Run.Sets.{in_run, run_mem, RunsFrom}
use pilosa.Roaring.Intersect.{Counted, write_word, mask_run, mask_runs}
use pilosa.Roaring.Intersect.Masked.{Masks, write_word-Masks, with_part}

pub Masks-ap : (s t : ℕ → Bool) (out : Counted) → ((c : ℕ) → s c ≡ t c) → Masks s out → Masks t out
Masks-ap s t (ob, n) e (bits, count, holds) = (bits, count, λ c. holds c ∙ e c)

-- The values of a run from a word on.
abbrev from_word : List ℕ → Interval16 → (ℕ → Bool) → ℕ → ℕ → Bool
from_word words iv s i c = s c || (leb i (c / 64) && (in_run c iv && bitmap_contains words c))

this_or_later :
    (i k : ℕ) (b x : Bool) → ((b || (i == k && x)) || (leb (suc i) k && x)) ≡ (b || (leb i k && x))
this_or_later i k true x = refl
this_or_later i k false x = elim (Bool-cases (leb (suc i) k)) [
  | inl later ↦
      let below : leb i k ≡ true = ground arith in
      let other : (i == k) ≡ false = ground arith in rw (later, below, other) refl
  | inr here ↦
      let same : leb i k ≡ (i == k) = ground arith in rw (here, same) (or_false (i == k && x))
]
  where
    or_false : (b : Bool) → (b || false) ≡ b
    or_false true = refl
    or_false false = refl

mask_run-Masks :
    (rounds : ℕ) (words : List ℕ) (iv : Interval16) (i : ℕ) (s : ℕ → Bool) (out : Counted)
    → IsBitset words
    → i + rounds ≡ bitmap_n
    → iv.start ≤ iv.last
    → iv.last ≤ 0xffff
    → iv.start ≤ i * 64 + 63
    → ((c : ℕ) → in_run c iv ≡ true → i ≤ c / 64 → s c ≡ false)
    → Masks s out
    → Masks (from_word words iv s i) (mask_run rounds words iv i out)
unfolding mask_run
mask_run-Masks zero words iv i s out p e o top f apart masks =
    Masks-ap s (from_word words iv s i) out (λ c. none_past c) masks
  where
    none_past : (c : ℕ) → s c ≡ from_word words iv s i c
    none_past c = ground arith
mask_run-Masks (suc rounds) words iv i s out p e o top f apart masks =
    elim (Bool-cases (leb iv.start (i * 64 + 63) && leb (i * 64) iv.last)) [
      | inl more ↦
          let step =
            write_word-Masks words iv i s out p (omega arith) o f (ground arith)
              (λ c m h. apart c m (omega arith)) masks in
          rw more (
            Masks-ap (from_word words iv (with_part words iv i s) (suc i)) (from_word words iv s i)
              (mask_run rounds words iv (suc i) (write_word words iv i out)) (λ c. both c)
              (mask_run-Masks rounds words iv (suc i) (with_part words iv i s)
                (write_word words iv i out) p (omega arith) o top (omega arith)
                (λ c m h. later c m h) step))
      | inr done ↦ rw done (Masks-ap s (from_word words iv s i) out (past done) masks)
    ]
  where
    both :
        (c : ℕ) → from_word words iv (with_part words iv i s) (suc i) c ≡ from_word words iv s i c
    both c = this_or_later i (c / 64) (s c) (in_run c iv && bitmap_contains words c)

    later : (c : ℕ) → in_run c iv ≡ true → suc i ≤ c / 64 → with_part words iv i s c ≡ false
    later c m h = ground (arith, apart c m)

    past :
        (leb iv.start (i * 64 + 63) && leb (i * 64) iv.last) ≡ false
        → (c : ℕ) → s c ≡ from_word words iv s i c
    past done c = ground arith

one_run :
    (b l m r x : Bool)
    → (m ≡ true → l ≡ true)
    → ((b || (l && (m && x))) || (r && x)) ≡ (b || ((m || r) && x))
one_run true l m r x h = refl
one_run false l false r x h = ground arith
one_run false l true r true h = rw (h refl) refl
one_run false l true true false h = rw (h refl) refl
one_run false l true false false h = rw (h refl) refl

pub mask_runs-Masks :
    (words : List ℕ) (lo : ℕ) (runs : List Interval16) (s : ℕ → Bool) (out : Counted)
    → IsBitset words
    → RunsFrom lo runs
    → ((c : ℕ) → lo ≤ c → s c ≡ false)
    → Masks s out
    → Masks (λ c. s c || (run_mem c runs && bitmap_contains words c)) (mask_runs words runs out)
unfolding mask_runs
mask_runs-Masks words lo [] s out p w apart masks =
    Masks-ap s (λ c. s c || false && bitmap_contains words c) out (λ c. ground arith) masks
mask_runs-Masks words lo (iv ∷ runs) s out p w apart masks =
    let i = iv.start / 64 in
    let t = from_word words iv s i in
    let step =
      mask_run-Masks (bitmap_n - i) words iv i s out p (omega (arith, w.1)) w.1.0 w.1.1
        (omega arith) (λ c m h. apart c (ground (arith, w.0))) masks in
    Masks-ap (λ c. t c || run_mem c runs && bitmap_contains words c)
      (λ c. s c || run_mem c (iv ∷ runs) && bitmap_contains words c)
      (mask_runs words runs (mask_run (bitmap_n - i) words iv i out)) (λ c. every c)
      (mask_runs-Masks words (suc iv.last) runs t (mask_run (bitmap_n - i) words iv i out) p w.2
        (λ c h. ground (arith, apart c, w.0, w.1.0)) step)
  where
    every :
        (c : ℕ)
        → (from_word words iv s (iv.start / 64) c || run_mem c runs && bitmap_contains words c)
          ≡ (s c || run_mem c (iv ∷ runs) && bitmap_contains words c)
    every c =
        one_run (s c) (leb (iv.start / 64) (c / 64)) (in_run c iv) (run_mem c runs)
          (bitmap_contains words c) (λ m. ground arith)
