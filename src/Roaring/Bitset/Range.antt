-- ===== src/Roaring/Bitset/Range.antt =====
-- `bitmapCountRange` of roaring/roaring.go: the number of values of a bitmap container from
-- `start` up to `end`, the latter excluded.
use pilosa.Common.{
  ℕ, zero, suc, ◌+◌, ◌-◌, ◌*◌, ◌/◌, ◌%◌, ◌^◌, ◌<◌, ◌≤◌, ◌≡◌, refl, ap, ◌∙◌, List, [], ◌∷◌, true,
  false, ◌&&◌, ltb, leb, ◌==◌, arith, length, Bool-cases, inl, inr, if◌then◌else◌, Option, none,
  some, get_elem?,
}
use pilosa.Common.Digits.{ones_count}
use pilosa.Common.Shifts.{
  digit, shl64, shr64, digit-shr, digit-times_pow, digit-mod_pow, digit-past, digit-none,
}
use pilosa.Roaring.Size.{size, size-same, size-append, size-empty, size-from}
use pilosa.Roaring.Bitset.{word_at, bitmap_contains}
use pilosa.Roaring.Bitset.Sets.{IsBitset, word_at-lt, word_past}
use pilosa.Roaring.Bitset.Count.{ones_count-eq-size}

-- The words in between, with the rounds left. `none` is a panic, at an index out of range.
unfoldable pub count_words : ℕ → List ℕ → ℕ → ℕ → Option ℕ
count_words zero words i n = some n
count_words (suc rounds) words i n = elim (get_elem? words i) [
  | none ↦ none
  | some word ↦ count_words rounds words (suc i) (n + ones_count 64 word)
]

-- The partial word at the end, if the container has it.
unfoldable pub count_last : List ℕ → ℕ → ℕ → ℕ
count_last words end n =
    let j = end / 64 in
    if ltb j (length words) then n + ones_count 64 (shl64 (word_at words j) (64 - end % 64)) else n

-- After the partial word at the start: the words in between and the partial word at the end.
unfoldable pub count_to_end : List ℕ → ℕ → ℕ → ℕ → Option ℕ
count_to_end words i end n = elim (count_words (end / 64 - i) words i n) [
  | none ↦ none
  | some between ↦ some (count_last words end between)
]

unfoldable pub bitmap_count_range : List ℕ → ℕ → ℕ → Option ℕ
bitmap_count_range words start end =
    let i = start / 64 in
    let off = start % 64 in
    if i == end / 64
    then elim (get_elem? words i) [
      | none ↦ none
      | some first ↦ some (ones_count 64 (shl64 (shr64 first off) (64 - end % 64 + off)))
    ]
    else if off == 0
    then count_to_end words i end 0
    else elim (get_elem? words i) [
      | none ↦ none
      | some first ↦ count_to_end words (suc i) end (ones_count 64 (shr64 first off))
    ]

get_elem?-word_at :
    (words : List ℕ) (i : ℕ) → i < length words → get_elem? words i ≡ some (word_at words i)
get_elem?-word_at [] i h = absurd (omega arith)
get_elem?-word_at (w ∷ ws) zero h = refl
get_elem?-word_at (w ∷ ws) (suc i) h = get_elem?-word_at ws i (omega arith)

-- The ones among the lowest `r` digits.
abbrev low_ones : ℕ → ℕ → ℕ
low_ones w r = size (λ (i : ℕ). digit w i) r

ones-shr : (w o : ℕ) → w < 2 ^ 64 → low_ones w o + ones_count 64 (shr64 w o) ≡ ones_count 64 w
ones-shr w o h =
    let shifted : ones_count 64 (shr64 w o) ≡ size (λ (i : ℕ). digit w (o + i)) 64 =
      ones_count-eq-size 64 (shr64 w o)
      ∙ size-same (λ (i : ℕ). digit (shr64 w o) i) (λ (i : ℕ). digit w (o + i)) 64
          (λ i l. digit-shr w o i) in
    let high : size (λ (i : ℕ). digit w (64 + i)) o ≡ 0 =
      size-empty (λ (i : ℕ). digit w (64 + i)) o
        (λ i l. digit-past 64 w (64 + i) h (omega arith)) in
    omega (
      arith,
      shifted,
      high,
      size-append (λ (i : ℕ). digit w i) o 64 (64 + o) (omega arith),
      size-append (λ (i : ℕ). digit w i) 64 o (64 + o) refl,
      ones_count-eq-size 64 w,
    )

ones-shl : (w r : ℕ) → r ≤ 64 → ones_count 64 (shl64 w (64 - r)) ≡ low_ones w r
ones-shl w r h =
    let o = 64 - r in
    let below : size (λ (i : ℕ). digit (shl64 w o) i) o ≡ 0 =
      size-empty (λ (i : ℕ). digit (shl64 w o) i) o
        (λ i l.
          let past : leb o i ≡ false = ground arith in
          let low : ltb i 64 ≡ true = ground arith in
          digit-mod_pow 64 (w * 2 ^ o) i ∙ rw (low, digit-times_pow w o i, past) refl) in
    let above : size (λ (i : ℕ). digit (shl64 w o) (o + i)) r ≡ low_ones w r =
      size-same (λ (i : ℕ). digit (shl64 w o) (o + i)) (λ (i : ℕ). digit w i) r
        (λ i l.
          let past : leb o (o + i) ≡ true = ground arith in
          let low : ltb (o + i) 64 ≡ true = ground arith in
          let n : o + i - o ≡ i = omega arith in
          digit-mod_pow 64 (w * 2 ^ o) (o + i)
          ∙ rw (low, digit-times_pow w o (o + i), past, n) refl) in
    ones_count-eq-size 64 (shl64 w o)
    ∙ size-append (λ (i : ℕ). digit (shl64 w o) i) o r 64 (omega arith)
    ∙ omega (arith, below, above)

-- Part of one word.
ones-within :
    (w a r : ℕ)
    → r ≤ 64
    → low_ones w (a + r) ≡ low_ones w a + ones_count 64 (shl64 (shr64 w a) (64 - r))
ones-within w a r h =
    let shifted : low_ones (shr64 w a) r ≡ size (λ (i : ℕ). digit w (a + i)) r =
      size-same (λ (i : ℕ). digit (shr64 w a) i) (λ (i : ℕ). digit w (a + i)) r
        (λ i l. digit-shr w a i) in
    size-append (λ (i : ℕ). digit w i) a r (a + r) refl
    ∙ omega (arith, shifted, ones-shl (shr64 w a) r h)

-- The values below a bound.
module _ (words : List ℕ) (p : IsBitset words) where
  abbrev upto : ℕ → ℕ
  upto n = size (λ (c : ℕ). bitmap_contains words c) n

  upto-word :
      (i r n : ℕ) → r ≤ 64 → n ≡ i * 64 + r → upto n ≡ upto (i * 64) + low_ones (word_at words i) r
  upto-word i r n h e =
      let tail : size (λ (c : ℕ). bitmap_contains words (i * 64 + c)) r
          ≡ low_ones (word_at words i) r =
        size-same (λ (c : ℕ). bitmap_contains words (i * 64 + c))
          (λ (c : ℕ). digit (word_at words i) c) r
          (λ c l.
            let high : (i * 64 + c) / 64 ≡ i = omega arith in
            let low : (i * 64 + c) % 64 ≡ c = omega arith in rw (high, low) refl) in
      size-append (λ (c : ℕ). bitmap_contains words c) (i * 64) r n e ∙ omega (arith, tail)

  upto-suc : (i : ℕ) → upto (suc i * 64) ≡ upto (i * 64) + ones_count 64 (word_at words i)
  upto-suc i =
      upto-word i 64 (suc i * 64) (omega arith) (omega arith)
      ∙ omega (arith, ones_count-eq-size 64 (word_at words i))

  -- A count that does not panic and that takes the number `from` to the number `to`.
  abbrev Counts : Option ℕ → ℕ → ℕ → Type 0
  Counts answer from to = (k : ℕ) × (answer ≡ some k) × (from + k ≡ to)

  count_words-Counts :
      (rounds i n : ℕ)
      → i + rounds ≤ length words
      → Counts (count_words rounds words i n) (upto (i * 64)) (upto ((i + rounds) * 64) + n)
  unfolding count_words
  count_words-Counts zero i n h =
      let e : (i + 0) * 64 ≡ i * 64 = omega arith in (n, refl, rw e refl)
  count_words-Counts (suc rounds) i n h =
      let word = word_at words i in
      let (k, made, sum) =
        count_words-Counts rounds (suc i) (n + ones_count 64 word) (omega arith) in
      let e : (i + suc rounds) * 64 ≡ (suc i + rounds) * 64 = omega arith in
      let here = get_elem?-word_at words i (omega arith) in
      (k, rw (here, count_words) made, rw e (omega (arith, upto-suc i, sum)))

  count_last-upto : (end k : ℕ) → count_last words end k + upto (end / 64 * 64) ≡ upto end + k
  unfolding count_last
  count_last-upto end k =
      let j = end / 64 in
      let r = end % 64 in
      let last : upto end ≡ upto (j * 64) + low_ones (word_at words j) r =
        upto-word j r end (omega arith) (omega arith) in
      elim (Bool-cases (ltb j (length words))) [
        | inl inside ↦ rw inside (omega (arith, last, ones-shl (word_at words j) r (omega arith)))
        | inr past ↦
            let none_left : low_ones (word_at words j) r ≡ 0 =
              ap (λ (w : ℕ). low_ones w r) (word_past words j (ground arith))
              ∙ size-empty (λ (c : ℕ). digit 0 c) r (λ c l. digit-none c) in
            rw past (omega (arith, last, none_left))
      ]

  count_to_end-Counts :
      (i end n : ℕ)
      → i ≤ end / 64
      → end / 64 ≤ length words
      → Counts (count_to_end words i end n) (upto (i * 64)) (upto end + n)
  unfolding count_to_end
  count_to_end-Counts i end n h inside =
      let j = end / 64 in
      let (k, made, sum) = count_words-Counts (j - i) i n (omega arith) in
      let reached : (i + (j - i)) * 64 ≡ j * 64 = omega arith in
      let between : upto (i * 64) + k ≡ upto (j * 64) + n =
        sum ∙ ap (λ (t : ℕ). upto t + n) reached in
      (
        count_last words end k,
        rw (made, count_to_end) refl,
        omega (arith, between, count_last-upto end k),
      )

  bitmap_count_range-Counts :
      (start end : ℕ)
      → start ≤ end
      → start / 64 < length words
      → end / 64 ≤ length words
      → Counts (bitmap_count_range words start end) (upto start) (upto end)
  unfolding bitmap_count_range
  bitmap_count_range-Counts start end h start_in end_in =
      let i = start / 64 in
      let off = start % 64 in
      let w = word_at words i in
      let here = get_elem?-word_at words i start_in in
      let from : upto start ≡ upto (i * 64) + low_ones w off =
        upto-word i off start (omega arith) (omega arith) in
      elim (Bool-cases (i == end / 64)) [
        | inl same ↦
            let r = end % 64 - off in
            let upto_end : upto end ≡ upto (i * 64) + low_ones w (off + r) =
              upto-word i (off + r) end (ground arith) (ground arith) in
            let shift : 64 - end % 64 + off ≡ 64 - r = ground arith in
            (
              ones_count 64 (shl64 (shr64 w off) (64 - r)),
              rw (same, here, shift) refl,
              omega (arith, from, upto_end, ones-within w off r (ground arith)),
            )
        | inr apart ↦ elim (Bool-cases (off == 0)) [
          | inl aligned ↦
              let e : i * 64 ≡ start = ground arith in
              let at_start : upto (i * 64) ≡ upto start = ap (λ (t : ℕ). upto t) e in
              let (k, made, sum) = count_to_end-Counts i end 0 (omega arith) end_in in
              (k, rw (apart, aligned) made, omega (arith, at_start, sum))
          | inr inside ↦
              let first = ones_count 64 (shr64 w off) in
              let (k, made, sum) = count_to_end-Counts (suc i) end first (ground arith) end_in in
              (
                k,
                rw (apart, inside, here) made,
                omega (arith, from, upto-suc i, ones-shr w off (word_at-lt words i p.1), sum),
              )
        ]
      ]

  -- For a start below the end of the container, bitmapCountRange does not panic and returns the
  -- number of values of a bitmap container from `start` up to `end`, the latter excluded.
  pub bitmap_count_range-eq-size :
      (start end : ℕ)
      → start ≤ end
      → start < 65536
      → end ≤ 65536
      → bitmap_count_range words start end
        ≡ some (size (λ (c : ℕ). leb start c && bitmap_contains words c) end)
  bitmap_count_range-eq-size start end h low high =
      let whole : length words ≡ 1024 = p.0 in
      let (k, made, sum) =
        bitmap_count_range-Counts start end h (omega (arith, whole)) (omega (arith, whole)) in
      made
      ∙ ap (λ (t : ℕ). some t)
          (omega (arith, sum, size-from (λ (c : ℕ). bitmap_contains words c) start end h))
