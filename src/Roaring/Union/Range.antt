-- ===== src/Roaring/Union/Range.antt =====
-- `bitmapSetRange` adds the values of a run to a bitmap and counts the new ones.
use mathlib.Core.Path.{subst}
use native.Mathlib.Nat.{mod-lt, div-le_self}
use Prim.Native.Nat.{bit_and, bit_or}
use pilosa.Common.{
  ℕ, zero, suc, ◌+◌, ◌-◌, ◌*◌, ◌/◌, ◌%◌, ◌^◌, ◌<◌, ◌≤◌, ◌≡◌, refl, sym, ap, ◌∙◌, List, Bool, true,
  false, ◌&&◌, ◌||◌, ltb, leb, ◌==◌, arith, length, Bool-cases, inl, inr,
}
use pilosa.Common.Digits.{ones_count}
use pilosa.Common.Shifts.{
  digit, shl64, shr64, digit-and, digit-or, digit-shr, bit_and-lt, bit_or-lt,
}
use pilosa.Roaring.Size.{size-same, size-le, size-interval}
use pilosa.Roaring.Bitset.{bitmap_n, word_at, with_word}
use pilosa.Roaring.Bitset.Sets.{word_at-lt, word_at-with_word, length-with_word, Words64-with_word}
use pilosa.Roaring.Bitset.Count.{ones_count-eq-size}
use pilosa.Roaring.Run.{Interval16}
use pilosa.Roaring.Run.Sets.{in_run}
use pilosa.Roaring.Intersect.{Counted}
use pilosa.Roaring.Intersect.Part.{digit-ones, digit-shl}
use pilosa.Roaring.Intersect.Masked.{Masks, ones_sum-with_word}
use pilosa.Roaring.Intersect.Runs.{Masks-ap}
use pilosa.Roaring.Union.{max_bitmap, or_word, fill_words, set_range}
use pilosa.Roaring.Union.Ones.{
  digit-max_bitmap, ones_count-max_bitmap, ones_count-or, ones_count-and_le,
}

-- The set, and the values of a run in the words below `k`.
abbrev upto : (ℕ → Bool) → Interval16 → ℕ → ℕ → Bool
upto s iv k c = s c || (ltb (c / 64) k && in_run c iv)

module _ (s : ℕ → Bool) (iv : Interval16) where
  -- A word that gets the values of the run in it.
  join_word-Masks :
      (words : List ℕ) (n k new n' : ℕ)
      → k < bitmap_n
      → new < 2 ^ 64
      → ((j : ℕ) → j < 64 → digit new j ≡ (digit (word_at words k) j || in_run (k * 64 + j) iv))
      → n' + ones_count 64 (word_at words k) ≡ n + ones_count 64 new
      → Masks (upto s iv k) (words, n)
      → Masks (upto s iv (suc k)) (with_word words k new, n')
  join_word-Masks words n k new n' h l joined grown (bits, count, holds) =
      let inside : k < length words = omega (arith, bits.0) in
      (
        (
          omega (arith, length-with_word words k new inside, bits.0),
          Words64-with_word words k new inside l bits.1,
        ),
        omega (arith, ones_sum-with_word words k new inside, grown, count),
        λ c.
            ap (λ (x : ℕ). digit x (c % 64)) (word_at-with_word words k new (c / 64) inside)
            ∙ elim (Bool-cases (k == c / 64)) [
              | inl same ↦
                  let e : c / 64 ≡ k = ground arith in
                  let at_c : k * 64 + c % 64 ≡ c = omega arith in
                  let low : c % 64 < 64 = omega arith in
                  let old : digit (word_at words k) (c % 64) ≡ upto s iv k c =
                    ap (λ (i : ℕ). digit (word_at words i) (c % 64)) (sym e) ∙ holds c in
                  let here : ltb (c / 64) k ≡ false = ground arith in
                  let next : ltb (c / 64) (suc k) ≡ true = ground arith in
                  rw same (
                    joined (c % 64) low
                    ∙ ap (λ (x : Bool). x || in_run (k * 64 + c % 64) iv) old
                    ∙ rw (at_c, here, next) (ground arith))
              | inr other ↦
                  let below : ltb (c / 64) (suc k) ≡ ltb (c / 64) k = ground arith in
                  rw (other, below) (holds c)
            ],
      )

  or_word-Masks :
      (out : Counted) (k mask gained : ℕ)
      → k < bitmap_n
      → mask < 2 ^ 64
      → gained ≡ ones_count 64 mask
      → ((j : ℕ) → j < 64 → digit mask j ≡ in_run (k * 64 + j) iv)
      → Masks (upto s iv k) out
      → Masks (upto s iv (suc k)) (or_word k mask gained out)
  unfolding or_word
  or_word-Masks (words, n) k mask gained h l g masked p =
      let old = word_at words k in
      join_word-Masks words n k (bit_or old mask) (n + (gained - ones_count 64 (bit_and old mask)))
        h (bit_or-lt 64 old mask (word_at-lt words k p.0.1) l)
        (λ j i. digit-or old mask j ∙ ap (λ (x : Bool). digit old j || x) (masked j i))
        (omega (arith, g, ones_count-or old mask, ones_count-and_le old mask)) p

  fill_words-Masks :
      (rounds k : ℕ) (out : Counted)
      → k + rounds ≤ bitmap_n
      → iv.start ≤ k * 64
      → (k + rounds) * 64 ≤ iv.last
      → Masks (upto s iv k) out
      → Masks (upto s iv (k + rounds)) (fill_words rounds k out)
  unfolding fill_words
  fill_words-Masks zero k out h f b p = let same : k + 0 ≡ k = omega arith in rw same p
  fill_words-Masks (suc rounds) k (words, n) h f b p =
      let same : k + suc rounds ≡ suc k + rounds = omega arith in
      let old = word_at words k in
      let few : ones_count 64 old ≤ 64 =
        omega (arith, ones_count-eq-size 64 old, size-le (λ (j : ℕ). digit old j) 64) in
      rw same (
        fill_words-Masks rounds (suc k) (with_word words k max_bitmap, n + (64 - ones_count 64 old))
          (omega arith) (omega arith) (omega arith)
          (join_word-Masks words n k max_bitmap (n + (64 - ones_count 64 old)) (omega arith)
            (omega arith)
            (λ j i.
              let inside : in_run (k * 64 + j) iv ≡ true = ground arith in
              digit-max_bitmap j i ∙ rw inside (ground arith))
            (omega (arith, few, ones_count-max_bitmap)) p))

  -- The two masks hold the values of the run in the first and in the last word.
  digit-front :
      (j : ℕ) → j < 64 → digit (shl64 max_bitmap (iv.start % 64)) j ≡ leb (iv.start % 64) j
  digit-front j l =
      digit-shl max_bitmap (iv.start % 64) j l
      ∙ ap (λ (x : Bool). leb (iv.start % 64) j && x)
          (digit-max_bitmap (j - iv.start % 64) (omega arith))
      ∙ ground arith

  digit-back :
      (j : ℕ) → j < 64 → digit (shr64 max_bitmap (63 - iv.last % 64)) j ≡ leb j (iv.last % 64)
  digit-back j l =
      digit-shr max_bitmap (63 - iv.last % 64) j
      ∙ digit-ones 64 (63 - iv.last % 64 + j)
      ∙ ground arith

  front-lt : shl64 max_bitmap (iv.start % 64) < 2 ^ 64
  front-lt = mod-lt (max_bitmap * 2 ^ (iv.start % 64)) (omega arith)

  back-lt : shr64 max_bitmap (63 - iv.last % 64) < 2 ^ 64
  back-lt = omega (arith, div-le_self max_bitmap (2 ^ (63 - iv.last % 64)))

  -- A run that lies in one word.
  one_word-Masks :
      (out : Counted)
      → iv.start ≤ iv.last
      → iv.last ≤ 0xffff
      → iv.start / 64 ≡ iv.last / 64
      → Masks (upto s iv (iv.start / 64)) out
      → Masks (upto s iv (suc (iv.start / 64))) (
          or_word
            (iv.start / 64)
            (bit_and (shl64 max_bitmap (iv.start % 64)) (shr64 max_bitmap (63 - iv.last % 64)))
            (iv.last + 1 - iv.start)
            out)
  one_word-Masks out o top e p =
      let front = shl64 max_bitmap (iv.start % 64) in
      let back = shr64 max_bitmap (63 - iv.last % 64) in
      let bits : (j : ℕ)
          → j < 64
          → digit (bit_and front back) j ≡ (leb (iv.start % 64) j && leb j (iv.last % 64)) =
        λ j l.
          digit-and front back j
          ∙ ap (λ (x : Bool). x && digit back j) (digit-front j l)
          ∙ ap (λ (x : Bool). leb (iv.start % 64) j && x) (digit-back j l) in
      let count =
        ones_count-eq-size 64 (bit_and front back)
        ∙ size-same (λ (j : ℕ). digit (bit_and front back) j)
            (λ (j : ℕ). leb (iv.start % 64) j && leb j (iv.last % 64)) 64 bits
        ∙ size-interval (iv.start % 64) (iv.last % 64) 64 (omega (arith, e)) in
      or_word-Masks out (iv.start / 64) (bit_and front back) (iv.last + 1 - iv.start) (omega arith)
        (bit_and-lt 64 front back front-lt) (ground (arith, count, e))
        (λ j l. bits j l ∙ ground (arith, e)) p

  -- A run over several words.
  more_words-Masks :
      (out : Counted)
      → iv.start ≤ iv.last
      → iv.last ≤ 0xffff
      → iv.start / 64 < iv.last / 64
      → Masks (upto s iv (iv.start / 64)) out
      → Masks (upto s iv (suc (iv.last / 64))) (
          or_word
            (iv.last / 64)
            (shr64 max_bitmap (63 - iv.last % 64))
            (ones_count 64 (shr64 max_bitmap (63 - iv.last % 64)))
            (fill_words (iv.last / 64 - suc (iv.start / 64)) (suc (iv.start / 64)) (
              or_word
                (iv.start / 64)
                (shl64 max_bitmap (iv.start % 64))
                (ones_count 64 (shl64 max_bitmap (iv.start % 64)))
                out)))
  more_words-Masks out o top h p =
      let x = iv.start / 64 in
      let y = iv.last / 64 in
      let front = shl64 max_bitmap (iv.start % 64) in
      let back = shr64 max_bitmap (63 - iv.last % 64) in
      let first = or_word x front (ones_count 64 front) out in
      let first-Masks : Masks (upto s iv (suc x)) first =
        or_word-Masks out x front (ones_count 64 front) (omega arith) front-lt refl
          (λ j l. digit-front j l ∙ ground arith) p in
      let to_last : suc x + (y - suc x) ≡ y = omega (arith, h) in
      let middle : Masks (upto s iv y) (fill_words (y - suc x) (suc x) first) =
        subst (λ (k : ℕ). Masks (upto s iv k) (fill_words (y - suc x) (suc x) first)) to_last
          (fill_words-Masks (y - suc x) (suc x) first (omega arith) (omega arith) (omega arith)
            first-Masks) in
      or_word-Masks (fill_words (y - suc x) (suc x) first) y back (ones_count 64 back) (omega arith)
        back-lt refl (λ j l. digit-back j l ∙ ground arith) middle

  pub set_range-Masks :
      (out : Counted)
      → iv.start ≤ iv.last
      → iv.last ≤ 0xffff
      → Masks s out
      → Masks (λ c. s c || in_run c iv) (set_range iv.start (iv.last + 1) out)
  unfolding set_range
  set_range-Masks out o top p =
      let x = iv.start / 64 in
      let last : iv.last + 1 - 1 ≡ iv.last = omega arith in
      let started : Masks (upto s iv x) out = Masks-ap s (upto s iv x) out (λ c. ground arith) p in
      elim (Bool-cases (x == iv.last / 64)) [
        | inl one ↦
            rw (last, one)
              (Masks-ap (upto s iv (suc x)) (λ c. s c || in_run c iv)
                (or_word x
                  (bit_and (shl64 max_bitmap (iv.start % 64))
                    (shr64 max_bitmap (63 - iv.last % 64)))
                  (iv.last + 1 - iv.start) out)
                (λ c. ground arith) (one_word-Masks out o top (ground arith) started))
        | inr more ↦
            rw (last, more)
              (Masks-ap (upto s iv (suc (iv.last / 64))) (λ c. s c || in_run c iv) _
                (λ c. ground arith) (more_words-Masks out o top (ground arith) started))
      ]
