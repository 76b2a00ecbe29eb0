-- ===== src/Roaring/Bitset.antt =====
-- The bitmap containers of roaring/roaring.go: 1024 words of 64 bits and the cardinality.
pub mod Sets
pub mod Arrays
pub mod Count
pub mod Range
use pilosa.Common.{
  ℕ, zero, suc, ◌+◌, ◌-◌, ◌*◌, ◌/◌, ◌%◌, ◌^◌, List, [], ◌∷◌, ◌++◌, Bool, true, false, ◌==◌,
  if◌then◌else◌, get_or, take, drop, bit_at,
}
use pilosa.Common.Digits.{set_digit, clear_digit, trailing_zeros, ones_count}

abbrev pub bitmap_n : ℕ
bitmap_n = 1024

-- `bitmap[i]`, and the bitmap with another word there.
abbrev pub word_at : List ℕ → ℕ → ℕ
word_at words i = get_or words i 0

abbrev pub with_word : List ℕ → ℕ → ℕ → List ℕ
with_word words i word = take i words ++ word ∷ drop (suc i) words

abbrev pub bitmap_contains : List ℕ → ℕ → Bool
bitmap_contains words v = bit_at (word_at words (v / 64)) (v % 64) == 1

-- `bitmap[v/64] |= 1 << (v%64)`, and the same with `&^=`.
abbrev pub set_word : List ℕ → ℕ → List ℕ
set_word words v = with_word words (v / 64) (set_digit (word_at words (v / 64)) (v % 64))

abbrev pub clear_word : List ℕ → ℕ → List ℕ
clear_word words v = with_word words (v / 64) (clear_digit (word_at words (v / 64)) (v % 64))

unfoldable pub bitmap_add : List ℕ → ℕ → ℕ → (List ℕ × ℕ) × Bool
bitmap_add words n v =
    if bitmap_contains words v then ((words, n), false) else ((set_word words v, n + 1), true)

-- `make([]uint64, n)`.
abbrev pub zeros : ℕ → List ℕ
zeros zero = []
zeros (suc n) = 0 ∷ zeros n

abbrev pub set_all : List ℕ → List ℕ → List ℕ
set_all words [] = words
set_all words (v ∷ vs) = set_all (set_word words v) vs

-- `arrayToBitmap`, for the words; the cardinality stays.
unfoldable pub array_to_bitmap : List ℕ → List ℕ
array_to_bitmap array = set_all (zeros bitmap_n) array

-- The inner loop of `bitmapToArray` on the word that holds the values from `base` on, with
-- `word & -word` written as the power of two that it is. A word has 64 bits to take away at most.
unfoldable pub word_values : ℕ → ℕ → ℕ → List ℕ
word_values zero base word = []
word_values (suc rounds) base word =
    let t = 2 ^ trailing_zeros 64 word in
    let rest = word_values rounds base (word - t) in
    if word == 0 then [] else (base + ones_count 64 (t - 1)) % 0x1_0000 ∷ rest

unfoldable pub bitmap_values : ℕ → List ℕ → List ℕ
bitmap_values i [] = []
bitmap_values i (word ∷ words) = word_values 64 (i * 64) word ++ bitmap_values (suc i) words

-- The array of `bitmapToArray`, for a cardinality that is the number of values.
pub bitmap_to_array : List ℕ → List ℕ
bitmap_to_array words = bitmap_values 0 words
