-- ===== src/Roaring/Union/Words.antt =====
-- The unions with a bitmap container: by words, by the runs and by the values of an array.
use pilosa.Common.Booleans.{or_assoc, or_swap}
use pilosa.Common.{
  ℕ, zero, suc, ◌+◌, ◌/◌, ◌%◌, ◌<◌, ◌≡◌, refl, sym, ap, ◌∙◌, List, [], ◌∷◌, Bool, true, false, ◌||◌,
  ◌==◌, arith, length,
}
use pilosa.Common.Shifts.{digit, digit-or, digit-none, bit_or-lt}
use pilosa.Roaring.Sorted.{mem}
use pilosa.Roaring.Bitset.{word_at, bitmap_contains, bitmap_add}
use pilosa.Roaring.Bitset.Sets.{IsBitset, Words64}
use pilosa.Roaring.Bitset.Count.{ones_sum}
use pilosa.Roaring.Run.{Interval16}
use pilosa.Roaring.Run.Sets.{in_run, run_mem, RunsFrom}
use pilosa.Roaring.Container.Kinds.{container_width, IsBitmap}
use pilosa.Roaring.Container.Sets.{bitmap_add-Adds}
use pilosa.Roaring.Intersect.{Counted}
use pilosa.Roaring.Intersect.Masked.{Masks}
use pilosa.Roaring.Intersect.Runs.{Masks-ap}
use pilosa.Roaring.Union.{union_bitmap_run, set_range, union_array_bitmap, union_words}
use pilosa.Roaring.Union.Range.{set_range-Masks}

pub union_bitmap_run-Masks :
    (lo : ℕ) (runs : List Interval16) (s : ℕ → Bool) (out : Counted)
    → RunsFrom lo runs
    → Masks s out
    → Masks (λ c. s c || run_mem c runs) (union_bitmap_run out runs)
unfolding union_bitmap_run
union_bitmap_run-Masks lo [] s out w p =
    Masks-ap s (λ c. s c || false) out (λ c. or_swap false (s c)) p
union_bitmap_run-Masks lo (r ∷ runs) s out w p =
    let next = set_range r.start (r.last + 1) out in
    Masks-ap (λ c. (s c || in_run c r) || run_mem c runs) (λ c. s c || run_mem c (r ∷ runs))
      (union_bitmap_run next runs) (λ c. or_assoc (s c) (in_run c r) (run_mem c runs))
      (union_bitmap_run-Masks (suc r.last) runs (λ c. s c || in_run c r) next w.2
        (set_range-Masks s r out w.1.0 w.1.1 p))

-- A bitmap of a set, with the number of its values.
abbrev pub IsBitmapOf : (ℕ → Bool) → Counted → Type 0
IsBitmapOf s (words, n) = IsBitmap words n × ((c : ℕ) → bitmap_contains words c ≡ s c)

one_first : (a x m : Bool) → (a || (x || m)) ≡ ((x || a) || m)
one_first true true m = refl
one_first true false m = refl
one_first false true m = refl
one_first false false m = refl

bitmap_add-IsBitmapOf :
    (s : ℕ → Bool) (words : List ℕ) (n v : ℕ)
    → v < container_width
    → IsBitmapOf s (words, n)
    → IsBitmapOf (λ c. c == v || s c) (bitmap_add words n v).0
bitmap_add-IsBitmapOf s words n v h (shape, holds) =
    let (report, shape', holds') = bitmap_add-Adds words n v shape h in
    (shape', λ c. holds' c ∙ ap (λ (b : Bool). c == v || b) (holds c))

pub union_array_bitmap-IsBitmapOf :
    (xs : List ℕ) (s : ℕ → Bool) (out : Counted)
    → ((c : ℕ) → mem c xs ≡ true → c < container_width)
    → IsBitmapOf s out
    → IsBitmapOf (λ c. s c || mem c xs) (union_array_bitmap xs out)
unfolding union_array_bitmap
union_array_bitmap-IsBitmapOf [] s (words, n) b (shape, holds) =
    (shape, λ c. holds c ∙ or_swap false (s c))
union_array_bitmap-IsBitmapOf (x ∷ xs) s (words, n) b p =
    let next = (bitmap_add words n x).0 in
    let rest =
      union_array_bitmap-IsBitmapOf xs (λ c. c == x || s c) next (λ c e. b c (ground arith))
        (bitmap_add-IsBitmapOf s words n x (b x (ground arith)) p) in
    (rest.0, λ c. rest.1 c ∙ sym (one_first (s c) (c == x) (mem c xs)))

union_words-digits :
    (as' bs : List ℕ)
    → length as' ≡ length bs
    → Words64 as'
    → Words64 bs
    → (length (union_words as' bs).0 ≡ length as')
      × Words64 (union_words as' bs).0
      × ((union_words as' bs).1 ≡ ones_sum (union_words as' bs).0)
unfolding union_words
union_words-digits [] bs e p q = (refl, tt, refl)
union_words-digits (a ∷ as') [] e p q = absurd (omega arith)
union_words-digits (a ∷ as') (b ∷ bs) e p q =
    let rest = union_words-digits as' bs (omega arith) p.1 q.1 in
    (ap suc rest.0, (bit_or-lt 64 a b p.0 q.0, rest.1), omega (arith, rest.2))

digit-union_words :
    (as' bs : List ℕ) (i j : ℕ)
    → length as' ≡ length bs
    → digit (word_at (union_words as' bs).0 i) j
      ≡ (digit (word_at as' i) j || digit (word_at bs i) j)
unfolding union_words
digit-union_words [] [] i j e = rw (digit-none j) refl
digit-union_words [] (b ∷ bs) i j e = absurd (omega arith)
digit-union_words (a ∷ as') [] i j e = absurd (omega arith)
digit-union_words (a ∷ as') (b ∷ bs) zero j e = digit-or a b j
digit-union_words (a ∷ as') (b ∷ bs) (suc i) j e = digit-union_words as' bs i j (omega arith)

pub union_words-Masks :
    (as' bs : List ℕ)
    → IsBitset as'
    → IsBitset bs
    → Masks (λ c. bitmap_contains as' c || bitmap_contains bs c) (union_words as' bs)
union_words-Masks as' bs p q =
    let e : length as' ≡ length bs = omega (arith, p.0, q.0) in
    let words = union_words-digits as' bs e p.1 q.1 in
    ((words.0 ∙ p.0, words.1), words.2, λ c. digit-union_words as' bs (c / 64) (c % 64) e)
