-- ===== src/Roaring/Intersect/Kept.antt =====
-- The values of an array that a bitmap contains, and the words of two bitmaps, in `intersect`.
use mathlib.Core.Path.{subst}
use pilosa.Common.{
  ℕ, zero, suc, ◌/◌, ◌%◌, ◌≡◌, refl, sym, ap, ◌∙◌, List, [], ◌∷◌, Bool, true, false, ◌&&◌, ◌||◌,
  ◌==◌, arith, length, Bool-cases, inl, inr,
}
use pilosa.Common.Shifts.{digit, digit-and, digit-none, bit_and-lt}
use pilosa.Roaring.Sorted.{AscendingFrom, mem, AscendingFrom-weaken}
use pilosa.Roaring.Bitset.{word_at, bitmap_contains}
use pilosa.Roaring.Bitset.Sets.{IsBitset, Words64}
use pilosa.Roaring.Bitset.Count.{ones_sum, ones_sum-eq-size}
use pilosa.Roaring.Container.{container_array}
use pilosa.Roaring.Container.Kinds.{IsArray}
use pilosa.Roaring.Intersect.{keep_contained, intersect_words, Counted, as_counted}
use pilosa.Roaring.Intersect.Values.{Holds}
use pilosa.Roaring.Intersect.Masked.{Masks}

-- Words with the count of their ones are a bitmap container.
pub as_counted-Holds : (s : ℕ → Bool) (out : Counted) → Masks s out → Holds s (as_counted out)
unfolding as_counted
as_counted-Holds s (words, n) (bits, count, holds) =
    ((bits, count ∙ ones_sum-eq-size words bits), holds)

-- A test that a value passes, or does not, tells nothing of the others.
kept_value :
    (f : ℕ → Bool) (x c : ℕ) (m : Bool)
    → f x ≡ true
    → (c == x || (m && f c)) ≡ ((c == x || m) && f c)
kept_value f x c m e = elim (Bool-cases (c == x)) [
  | inl same ↦
      let eq : c ≡ x = ground arith in rw same (sym (subst (λ (y : ℕ). f y ≡ true) (sym eq) e))
  | inr other ↦ rw other refl
]

dropped_value :
    (f : ℕ → Bool) (x c : ℕ) (m : Bool) → f x ≡ false → (m && f c) ≡ ((c == x || m) && f c)
dropped_value f x c m e = elim (Bool-cases (c == x)) [
  | inl same ↦
      let eq : c ≡ x = ground arith in
      let gone : f c ≡ false = subst (λ (y : ℕ). f y ≡ false) (sym eq) e in
      rw (same, gone) (ground arith)
  | inr other ↦ rw other refl
]

keep_contained-mem :
    (lo : ℕ) (words xs : List ℕ)
    → AscendingFrom lo xs
    → AscendingFrom lo (keep_contained words xs)
      × ((c : ℕ) → mem c (keep_contained words xs) ≡ (mem c xs && bitmap_contains words c))
unfolding keep_contained
keep_contained-mem lo words [] p = (tt, λ c. refl)
keep_contained-mem lo words (x ∷ xs) p =
    let rest = keep_contained-mem (suc x) words xs p.1 in
    let f : ℕ → Bool = λ (c : ℕ). bitmap_contains words c in
    elim (Bool-cases (bitmap_contains words x)) [
      | inl kept ↦ rw kept (
        (p.0, rest.0),
        λ c. ap (λ (b : Bool). c == x || b) (rest.1 c) ∙ kept_value f x c (mem c xs) kept,
      )
      | inr dropped ↦ rw dropped (
        AscendingFrom-weaken lo (suc x) (keep_contained words xs) (omega (arith, p.0)) rest.0,
        λ c. rest.1 c ∙ dropped_value f x c (mem c xs) dropped,
      )
    ]

pub and_left : (a b : Bool) → (a && b) ≡ true → a ≡ true
and_left true b h = refl
and_left false b h = h

pub keep_contained-Holds :
    (s : ℕ → Bool) (words xs : List ℕ)
    → IsArray xs
    → ((c : ℕ) → s c ≡ (mem c xs && bitmap_contains words c))
    → Holds s (container_array (keep_contained words xs))
keep_contained-Holds s words xs p e =
    let kept = keep_contained-mem 0 words xs p.0 in
    (
      (kept.0, λ c m. p.1 c (and_left (mem c xs) (bitmap_contains words c) (sym (kept.1 c) ∙ m))),
      λ u. kept.1 u ∙ sym (e u),
    )

intersect_words-digits :
    (as' bs : List ℕ)
    → length as' ≡ length bs
    → Words64 as'
    → (length (intersect_words as' bs).0 ≡ length as')
      × Words64 (intersect_words as' bs).0
      × ((intersect_words as' bs).1 ≡ ones_sum (intersect_words as' bs).0)
unfolding intersect_words
intersect_words-digits [] bs e p = (refl, tt, refl)
intersect_words-digits (a ∷ as') [] e p = absurd (omega arith)
intersect_words-digits (a ∷ as') (b ∷ bs) e p =
    let rest = intersect_words-digits as' bs (omega arith) p.1 in
    (ap suc rest.0, (bit_and-lt 64 a b p.0, rest.1), omega (arith, rest.2))

digit-intersect_words :
    (as' bs : List ℕ) (i j : ℕ)
    → length as' ≡ length bs
    → digit (word_at (intersect_words as' bs).0 i) j
      ≡ (digit (word_at as' i) j && digit (word_at bs i) j)
unfolding intersect_words
digit-intersect_words [] bs i j e = rw (digit-none j) refl
digit-intersect_words (a ∷ as') [] i j e = absurd (omega arith)
digit-intersect_words (a ∷ as') (b ∷ bs) zero j e = digit-and a b j
digit-intersect_words (a ∷ as') (b ∷ bs) (suc i) j e =
    digit-intersect_words as' bs i j (omega arith)

pub intersect_words-Masks :
    (as' bs : List ℕ)
    → IsBitset as'
    → IsBitset bs
    → Masks (λ c. bitmap_contains as' c && bitmap_contains bs c) (intersect_words as' bs)
intersect_words-Masks as' bs p q =
    let e : length as' ≡ length bs = omega (arith, p.0, q.0) in
    let words = intersect_words-digits as' bs e p.1 in
    ((words.0 ∙ p.0, words.1), words.2, λ c. digit-intersect_words as' bs (c / 64) (c % 64) e)
