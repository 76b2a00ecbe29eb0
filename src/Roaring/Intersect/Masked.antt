-- ===== src/Roaring/Intersect/Masked.antt =====
-- The loop of `intersectBitmapRun` over the words of every run builds the bitmap of the common
-- values and counts them.
use pilosa.Common.Booleans.{and_false, and_swap}
use pilosa.Common.{
  ℕ, zero, suc, ◌+◌, ◌*◌, ◌/◌, ◌%◌, ◌^◌, ◌<◌, ◌≤◌, ◌≡◌, refl, ap, ◌∙◌, List, [], ◌∷◌, Bool, true,
  false, ◌&&◌, ◌||◌, ltb, leb, ◌==◌, arith, length, Bool-cases, inl, inr,
}
use pilosa.Common.Digits.{ones_count}
use pilosa.Common.Shifts.{digit, digit-or, digit-past, bit_or-lt}
use pilosa.Roaring.Size.{size-same, size-either}
use pilosa.Roaring.Bitset.{bitmap_n, word_at, with_word, bitmap_contains}
use pilosa.Roaring.Bitset.Sets.{
  IsBitset, word_at-lt, word_at-with_word, length-with_word, Words64-with_word,
}
use pilosa.Roaring.Bitset.Count.{ones_sum, ones_count-eq-size}
use pilosa.Roaring.Run.{Interval16}
use pilosa.Roaring.Run.Sets.{in_run}
use pilosa.Roaring.Intersect.{part_of_word, written_word, Counted, write_word}
use pilosa.Roaring.Intersect.Part.{digit-part_of_word, part_of_word-lt, part_of_word-whole}

-- Words that stand for the set `s`, with the number of their ones.
abbrev pub Masks : (ℕ → Bool) → Counted → Type 0
Masks s (words, n) =
    IsBitset words × (n ≡ ones_sum words) × ((c : ℕ) → bitmap_contains words c ≡ s c)

pub ones_sum-with_word :
    (words : List ℕ) (i w : ℕ)
    → i < length words
    → ones_sum (with_word words i w) + ones_count 64 (word_at words i)
      ≡ ones_sum words + ones_count 64 w
ones_sum-with_word [] i w h = absurd (omega arith)
ones_sum-with_word (x ∷ xs) zero w h = omega arith
ones_sum-with_word (x ∷ xs) (suc i) w h = omega (arith, ones_sum-with_word xs i w (omega arith))

-- The ones of a word that joins two without a common one.
ones_count-joined :
    (x y z : ℕ)
    → x < 2 ^ 64
    → ((j : ℕ) → j < 64 → digit z j ≡ (digit x j || digit y j))
    → ((j : ℕ) → j < 64 → digit x j ≡ true → digit y j ≡ false)
    → ones_count 64 z ≡ ones_count 64 x + ones_count 64 y
ones_count-joined x y z h joined apart =
    ones_count-eq-size 64 z
    ∙ size-same (λ (j : ℕ). digit z j) (λ (j : ℕ). digit x j || digit y j) 64 joined
    ∙ size-either (λ (j : ℕ). digit x j) (λ (j : ℕ). digit y j) 64
        (λ j e. elim (Bool-cases (ltb j 64)) [
          | inl low ↦ apart j (ground arith) e
          | inr high ↦ absurd (ground (arith, digit-past 64 x j h (ground arith)))
        ])
    ∙ omega (arith, ones_count-eq-size 64 x, ones_count-eq-size 64 y)

digit-written_word :
    (old w first j : ℕ) (iv : Interval16)
    → ((leb iv.start first && leb (first + 63) iv.last) ≡ true → digit old j ≡ false)
    → digit (written_word old w first iv) j ≡ (digit old j || digit (part_of_word w first iv) j)
unfolding written_word
digit-written_word old w first j iv empty =
    elim (Bool-cases (leb iv.start first && leb (first + 63) iv.last)) [
      | inl whole ↦
          let all : part_of_word w first iv ≡ w = part_of_word-whole w first iv whole in
          rw (whole, all, empty whole) refl
      | inr partly ↦ rw partly (digit-or old (part_of_word w first iv) j)
    ]

written_word-lt :
    (old w first : ℕ) (iv : Interval16)
    → w < 2 ^ 64
    → old < 2 ^ 64
    → written_word old w first iv < 2 ^ 64
unfolding written_word
written_word-lt old w first iv h k =
    elim (Bool-cases (leb iv.start first && leb (first + 63) iv.last)) [
      | inl whole ↦ rw whole h
      | inr partly ↦
          rw partly (bit_or-lt 64 old (part_of_word w first iv) k (part_of_word-lt w first iv h))
    ]

-- One word of one run.
module _ (words : List ℕ) (iv : Interval16) (i : ℕ) (s : ℕ → Bool) where
  abbrev pub with_part : ℕ → Bool
  with_part c = s c || (i == c / 64 && (in_run c iv && bitmap_contains words c))

  pub write_word-Masks :
      (out : Counted)
      → IsBitset words
      → i < bitmap_n
      → iv.start ≤ iv.last
      → iv.start ≤ i * 64 + 63
      → i * 64 ≤ iv.last
      → ((c : ℕ) → in_run c iv ≡ true → c / 64 ≡ i → s c ≡ false)
      → Masks s out
      → Masks with_part (write_word words iv i out)
  unfolding write_word
  write_word-Masks (ob, n) p small o f b apart (bits, count, holds) =
      let w = word_at words i in
      let old = word_at ob i in
      let part = part_of_word w (i * 64) iv in
      let new = written_word old w (i * 64) iv in
      let inside : i < length ob = omega (arith, bits.0) in
      let w-lt = word_at-lt words i p.1 in
      let old-lt = word_at-lt ob i bits.1 in
      let in_part : (j : ℕ) → j < 64 → digit part j ≡ (digit w j && in_run (i * 64 + j) iv) =
        λ j l. digit-part_of_word w (i * 64) j iv w-lt l o f b in
      let in_old : (j : ℕ) → j < 64 → digit old j ≡ s (i * 64 + j) =
        λ j l. at_word ob i j l ∙ holds (i * 64 + j) in
      let disjoint : (j : ℕ) → j < 64 → digit old j ≡ true → digit part j ≡ false = λ j l e.
        elim (Bool-cases (in_run (i * 64 + j) iv)) [
          | inl in_iv ↦
              let here : (i * 64 + j) / 64 ≡ i = omega arith in
              let none_old = apart (i * 64 + j) in_iv here in absurd (ground (arith, in_old j l))
          | inr out_iv ↦ in_part j l ∙ rw out_iv (and_false (digit w j))
        ] in
      let joined : (j : ℕ) → j < 64 → digit new j ≡ (digit old j || digit part j) = λ j l.
        digit-written_word old w (i * 64) j iv (λ whole.
          let in_iv : in_run (i * 64 + j) iv ≡ true = ground arith in
          let here : (i * 64 + j) / 64 ≡ i = omega arith in
          in_old j l ∙ apart (i * 64 + j) in_iv here) in
      let new-lt : new < 2 ^ 64 = written_word-lt old w (i * 64) iv w-lt old-lt in
      (
        (
          omega (arith, length-with_word ob i new inside, bits.0),
          Words64-with_word ob i new inside new-lt bits.1,
        ),
        omega (
          arith,
          ones_sum-with_word ob i new inside,
          ones_count-joined old part new old-lt joined disjoint,
          count,
        ),
        λ c.
            ap (λ (x : ℕ). digit x (c % 64)) (word_at-with_word ob i new (c / 64) inside)
            ∙ elim (Bool-cases (i == c / 64)) [
              | inl same ↦
                  let e : c / 64 ≡ i = ground arith in
                  let at_c : i * 64 + c % 64 ≡ c = omega arith in
                  let low : c % 64 < 64 = omega arith in
                  rw same (
                    joined (c % 64) low
                    ∙ ap (λ (x : Bool). x || digit part (c % 64)) (in_old (c % 64) low)
                    ∙ ap (λ (x : Bool). s (i * 64 + c % 64) || x) (in_part (c % 64) low)
                    ∙ rw (at_c, e)
                        (ap (λ (x : Bool). s c || x) (and_swap (digit w (c % 64)) (in_run c iv))))
              | inr other ↦ rw other (holds c ∙ ground arith)
            ],
      )
    where
      at_word :
          (ws : List ℕ) (k j : ℕ)
          → j < 64
          → digit (word_at ws k) j ≡ bitmap_contains ws (k * 64 + j)
      at_word ws k j l =
          let high : (k * 64 + j) / 64 ≡ k = omega arith in
          let low : (k * 64 + j) % 64 ≡ j = omega arith in rw (high, low) refl
