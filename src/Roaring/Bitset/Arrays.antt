-- ===== src/Roaring/Bitset/Arrays.antt =====
-- The change from an array container to a bitmap container and back keeps the set.
use pilosa.Common.{
  ℕ, zero, suc, ◌+◌, ◌-◌, ◌*◌, ◌/◌, ◌%◌, ◌^◌, ◌<◌, ◌≤◌, ◌≡◌, refl, ap, ◌∙◌, List, [], ◌∷◌, ◌++◌,
  Bool, true, false, not, ◌&&◌, ◌||◌, ◌==◌, arith, length, leb, ltb, bit_at, Bool-cases, inl, inr,
}
use pilosa.Common.Digits.{
  clear_digit, trailing_zeros, ones_count, bit-clear_digit, bit_at-trailing_zeros,
  bit_at-below_trailing, trailing_zeros-lt, ones_count-pred_pow, bit_at-high,
}
use pilosa.Roaring.Sorted.{AscendingFrom, mem, AscendingFrom-weaken}
use pilosa.Roaring.Bitset.{
  bitmap_n, word_at, bitmap_contains, set_word, zeros, set_all, array_to_bitmap, word_values,
  bitmap_values, bitmap_to_array,
}
use pilosa.Roaring.Bitset.Sets.{Words64, IsBitset, contains-set_word, set_word-IsBitset}

pub length-zeros : (n : ℕ) → length (zeros n) ≡ n
length-zeros zero = refl
length-zeros (suc n) = omega (arith, length-zeros n)

pub Words64-zeros : (n : ℕ) → Words64 (zeros n)
Words64-zeros zero = tt
Words64-zeros (suc n) = (omega arith, Words64-zeros n)

word_at-zeros : (n i : ℕ) → word_at (zeros n) i ≡ 0
word_at-zeros zero i = refl
word_at-zeros (suc n) zero = refl
word_at-zeros (suc n) (suc i) = word_at-zeros n i

pub contains-zeros : (n c : ℕ) → bitmap_contains (zeros n) c ≡ false
contains-zeros n c =
    let none_set = bit_at-high 0 0 (c % 64) (omega arith) (omega arith) in
    rw (word_at-zeros n (c / 64), none_set) (ground arith)

-- Every value of an array is of 16 bits.
abbrev pub Values16 : List ℕ → Type 0
Values16 [] = Unit
Values16 (x ∷ xs) = (x < 0x1_0000) × Values16 xs

set_all-IsBitset :
    (words xs : List ℕ)
    → IsBitset words
    → Values16 xs
    → IsBitset (set_all words xs)
      × ((c : ℕ) → bitmap_contains (set_all words xs) c ≡ (mem c xs || bitmap_contains words c))
set_all-IsBitset words [] p q = (p, λ c. refl)
set_all-IsBitset words (x ∷ xs) p q =
    let rest = set_all-IsBitset (set_word words x) xs (set_word-IsBitset words x p q.0) q.1 in
    (rest.0, λ c. ground (arith, rest.1 c, contains-set_word words x c (omega (arith, p.0, q.0))))

pub array_to_bitmap-IsBitset :
    (xs : List ℕ)
    → Values16 xs
    → IsBitset (array_to_bitmap xs) × ((c : ℕ) → bitmap_contains (array_to_bitmap xs) c ≡ mem c xs)
unfolding array_to_bitmap
array_to_bitmap-IsBitset xs q =
    let all =
      set_all-IsBitset (zeros bitmap_n) xs (length-zeros bitmap_n, Words64-zeros bitmap_n) q in
    (all.0, λ c. ground (arith, all.1 c, contains-zeros bitmap_n c))

-- No digit below `j` is set.
abbrev LowClear : ℕ → ℕ → Type 0
LowClear j word = (i : ℕ) → i < j → bit_at word i ≡ 0

abbrev in_word : ℕ → ℕ → ℕ → Bool
in_word base word c = leb base c && ltb c (base + 64) && bit_at word (c - base) == 1

one_at :
    (base c k : ℕ) (old new : Bool)
    → k < 64
    → new ≡ (not (k == c - base) && old)
    → ((c - base ≡ k) → old ≡ true)
    → (c == base + k || (leb base c && ltb c (base + 64) && new))
      ≡ (leb base c && ltb c (base + 64) && old)
one_at base c k old new h e one = elim (Bool-cases (c == base + k)) [
  | inl same ↦ let d : c - base ≡ k = ground arith in rw (same, one d) (ground arith)
  | inr other ↦ rw other (elim (Bool-cases (leb base c)) [
    | inl past ↦ let d : (k == c - base) ≡ false = ground arith in rw (e, d) refl
    | inr below ↦ rw below refl
  ])
]

zero_digit : (x i : ℕ) → (bit_at x i == 1) ≡ false → bit_at x i ≡ 0
zero_digit x i e = ground (arith, below_two (x / 2 ^ i))
  where
    below_two : (y : ℕ) → y % 2 < 2
    below_two y = omega arith

-- The word without its lowest one.
module _ (w : ℕ) (fits : w < 2 ^ 64) (some_one : 0 < w) where
  abbrev k : ℕ
  k = trailing_zeros 64 w

  next-eq-clear : w - 2 ^ k ≡ clear_digit w k
  next-eq-clear = ground (arith, bit_at-trailing_zeros 64 w fits some_one)

  next-bit : (i : ℕ) → (bit_at (w - 2 ^ k) i == 1) ≡ (not (k == i) && bit_at w i == 1)
  next-bit i = rw next-eq-clear (bit-clear_digit w k i)

  next-LowClear : LowClear (suc k) (w - 2 ^ k)
  next-LowClear i h =
      zero_digit (w - 2 ^ k) i (ground (arith, next-bit i, bit_at-below_trailing 64 w i))

  value-eq :
      (base : ℕ) → base + 64 ≤ 0x1_0000 → (base + ones_count 64 (2 ^ k - 1)) % 0x1_0000 ≡ base + k
  value-eq base h =
      let few = trailing_zeros-lt 64 w fits some_one in
      omega (arith, ones_count-pred_pow 64 k (omega arith), few)

word_values-mem :
    (rounds base w j : ℕ)
    → base + 64 ≤ 0x1_0000
    → w < 2 ^ 64
    → LowClear j w
    → 64 ≤ rounds + j
    → AscendingFrom (base + j) (word_values rounds base w)
      × ((c : ℕ) → mem c (word_values rounds base w) ≡ in_word base w c)
unfolding word_values
word_values-mem zero base w j b f l r = (tt, λ c. ground (arith, l (c - base)))
word_values-mem (suc rounds) base w j b f l r = elim (Bool-cases (w == 0)) [
  | inl empty ↦ rw empty (tt, λ c. ground (arith, bit_at-high 0 w (c - base)))
  | inr some_one ↦
      let pos : 0 < w = ground arith in
      let k = trailing_zeros 64 w in
      let one = bit_at-trailing_zeros 64 w f pos in
      let above : j ≤ k = ground (arith, l k) in
      let next = w - 2 ^ k in
      let rest =
        word_values-mem rounds base next (suc k) b (omega arith) (next-LowClear w f pos)
          (omega arith) in
      rw (some_one, value-eq w f pos base b)
        (
          (
            omega arith,
            AscendingFrom-weaken (suc (base + k)) (base + suc k) (word_values rounds base next)
                (omega arith) rest.0,
          ),
          λ c. rw (rest.1 c) (
              one_at base c k (bit_at w (c - base) == 1) (bit_at next (c - base) == 1)
                (trailing_zeros-lt 64 w f pos) (next-bit w f pos (c - base))
                (λ d.
                  let hit : bit_at w (c - base) ≡ 1 = ap (λ (i : ℕ). bit_at w i) d ∙ one in
                  ground arith)),
        )
]

-- The arrays of the words, one after the other.
pub AscendingFrom-append :
    (lo mid : ℕ) (xs ys : List ℕ)
    → AscendingFrom lo xs
    → ((c : ℕ) → mem c xs ≡ true → c < mid)
    → lo ≤ mid
    → AscendingFrom mid ys
    → AscendingFrom lo (xs ++ ys)
AscendingFrom-append lo mid [] ys p b h q = AscendingFrom-weaken lo mid ys h q
AscendingFrom-append lo mid (x ∷ xs) ys p b h q = (
  p.0,
  AscendingFrom-append (suc x) mid xs ys p.1 (λ c e. b c (ground arith))
      (omega (arith, b x (ground arith))) q,
)

pub mem-append : (c : ℕ) (xs ys : List ℕ) → mem c (xs ++ ys) ≡ (mem c xs || mem c ys)
mem-append c [] ys = refl
mem-append c (x ∷ xs) ys = ground (arith, mem-append c xs ys)

one_word :
    (i c w : ℕ) (ws : List ℕ)
    → (in_word (i * 64) w c
        || (leb (suc i * 64) c && (bit_at (word_at ws (c / 64 - suc i)) (c % 64) == 1)))
      ≡ (leb (i * 64) c && (bit_at (word_at (w ∷ ws) (c / 64 - i)) (c % 64) == 1))
one_word i c w ws = elim (Bool-cases (leb (i * 64) c)) [
  | inr before ↦
      let before' : leb (suc i * 64) c ≡ false = ground arith in rw (before, before') refl
  | inl from ↦ elim (Bool-cases (leb (suc i * 64) c)) [
    | inl past ↦
        let beyond : ltb c (i * 64 + 64) ≡ false = ground arith in
        let later : c / 64 - i ≡ suc (c / 64 - suc i) = ground arith in
        rw (from, past, beyond, later) refl
    | inr here ↦
        let within : ltb c (i * 64 + 64) ≡ true = ground arith in
        let first : c / 64 - i ≡ 0 = ground arith in
        let digit : c % 64 ≡ c - i * 64 = ground arith in
        rw (from, here, within, first, digit) (ground arith)
  ]
]

bitmap_values-mem :
    (i : ℕ) (words : List ℕ)
    → (i + length words) * 64 ≤ 0x1_0000
    → Words64 words
    → AscendingFrom (i * 64) (bitmap_values i words)
      × ((c : ℕ)
          → mem c (bitmap_values i words)
            ≡ (leb (i * 64) c && (bit_at (word_at words (c / 64 - i)) (c % 64) == 1)))
unfolding bitmap_values
bitmap_values-mem i [] h p = (tt, λ c. ground (arith, bit_at-high 0 0 (c % 64)))
bitmap_values-mem i (w ∷ ws) h p =
    let first =
      word_values-mem 64 (i * 64) w 0 (omega arith) p.0 (λ d k. absurd (omega arith))
        (omega arith) in
    let rest = bitmap_values-mem (suc i) ws (omega arith) p.1 in
    (
      AscendingFrom-append (i * 64) (suc i * 64) (word_values 64 (i * 64) w)
          (bitmap_values (suc i) ws)
          (AscendingFrom-weaken (i * 64) (i * 64 + 0) (word_values 64 (i * 64) w) (omega arith)
            first.0)
          (λ c e. ground (arith, first.1 c)) (omega arith) rest.0,
      λ c.
          rw
            (
              mem-append c (word_values 64 (i * 64) w) (bitmap_values (suc i) ws),
              first.1 c,
              rest.1 c,
            )
            (one_word i c w ws),
    )

-- On words of a bitmap container bitmapToArray returns an ascending array with the same members.
pub bitmap_to_array-mem :
    (words : List ℕ)
    → IsBitset words
    → AscendingFrom 0 (bitmap_to_array words)
      × ((c : ℕ) → mem c (bitmap_to_array words) ≡ bitmap_contains words c)
unfolding bitmap_to_array
bitmap_to_array-mem words p =
    let all = bitmap_values-mem 0 words (omega (arith, p.0)) p.1 in
    (all.0, λ c. let e : c / 64 - 0 ≡ c / 64 = omega arith in all.1 c ∙ rw e (ground arith))
