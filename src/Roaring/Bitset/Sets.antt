-- ===== src/Roaring/Bitset/Sets.antt =====
-- Setting and clearing a bit of a bitmap container changes its set by that value alone.
use pilosa.Common.{
  ℕ, zero, suc, ◌/◌, ◌%◌, ◌^◌, ◌<◌, ◌≤◌, ◌≡◌, refl, sym, List, [], ◌∷◌, not, ◌&&◌, ◌||◌, ◌==◌,
  arith, length, Bool-cases, inl, inr, if◌then◌else◌,
}
use pilosa.Common.Digits.{
  set_digit, clear_digit, bit-set_digit, bit-clear_digit, set_digit-lt, clear_digit-le,
}
use pilosa.Roaring.Bitset.{bitmap_n, word_at, with_word, bitmap_contains, set_word, clear_word}

-- Every word has 64 bits.
abbrev pub Words64 : List ℕ → Type 0
Words64 [] = Unit
Words64 (w ∷ ws) = (w < 2 ^ 64) × Words64 ws

-- A bitmap container's words.
abbrev pub IsBitset : List ℕ → Type 0
IsBitset words = (length words ≡ bitmap_n) × Words64 words

pub word_at-with_word :
    (words : List ℕ) (i w j : ℕ)
    → i < length words
    → word_at (with_word words i w) j ≡ (if i == j then w else word_at words j)
word_at-with_word [] i w j h = absurd (omega arith)
word_at-with_word (x ∷ xs) zero w zero h = refl
word_at-with_word (x ∷ xs) zero w (suc j) h = ground arith
word_at-with_word (x ∷ xs) (suc i) w zero h = ground arith
word_at-with_word (x ∷ xs) (suc i) w (suc j) h =
    ground (arith, word_at-with_word xs i w j (omega arith))

pub length-with_word :
    (words : List ℕ) (i w : ℕ) → i < length words → length (with_word words i w) ≡ length words
length-with_word [] i w h = absurd (omega arith)
length-with_word (x ∷ xs) zero w h = refl
length-with_word (x ∷ xs) (suc i) w h = omega (arith, length-with_word xs i w (omega arith))

pub Words64-with_word :
    (words : List ℕ) (i w : ℕ)
    → i < length words
    → w < 2 ^ 64
    → Words64 words
    → Words64 (with_word words i w)
Words64-with_word [] i w h k p = absurd (omega arith)
Words64-with_word (x ∷ xs) zero w h k p = (k, p.1)
Words64-with_word (x ∷ xs) (suc i) w h k p = (p.0, Words64-with_word xs i w (omega arith) k p.1)

pub word_at-lt : (words : List ℕ) (i : ℕ) → Words64 words → word_at words i < 2 ^ 64
word_at-lt [] i p = omega arith
word_at-lt (w ∷ ws) zero p = p.0
word_at-lt (w ∷ ws) (suc i) p = word_at-lt ws i p.1

pub contains-set_word :
    (words : List ℕ) (v c : ℕ)
    → v / 64 < length words
    → bitmap_contains (set_word words v) c ≡ (c == v || bitmap_contains words c)
contains-set_word words v c h =
    let w = word_at words (v / 64) in
    rw (word_at-with_word words (v / 64) (set_digit w (v % 64)) (c / 64) h)
      (elim (Bool-cases (v / 64 == c / 64)) [
        | inl same ↦
            let e : v / 64 ≡ c / 64 = ground arith in
            rw (same, sym e, bit-set_digit w (v % 64) (c % 64)) (ground arith)
        | inr other ↦ rw other (ground arith)
      ])

pub contains-clear_word :
    (words : List ℕ) (v c : ℕ)
    → v / 64 < length words
    → bitmap_contains (clear_word words v) c ≡ (not (c == v) && bitmap_contains words c)
contains-clear_word words v c h =
    let w = word_at words (v / 64) in
    rw (word_at-with_word words (v / 64) (clear_digit w (v % 64)) (c / 64) h)
      (elim (Bool-cases (v / 64 == c / 64)) [
        | inl same ↦
            let e : v / 64 ≡ c / 64 = ground arith in
            rw (same, sym e, bit-clear_digit w (v % 64) (c % 64)) (ground arith)
        | inr other ↦ rw other (ground arith)
      ])

pub set_word-IsBitset :
    (words : List ℕ) (v : ℕ) → IsBitset words → v < 0x1_0000 → IsBitset (set_word words v)
set_word-IsBitset words v p h =
    let i : v / 64 < length words = omega (arith, p.0) in
    let w = word_at words (v / 64) in
    let fits = set_digit-lt 64 w (v % 64) (word_at-lt words (v / 64) p.1) (omega arith) in
    (
      omega (arith, length-with_word words (v / 64) (set_digit w (v % 64)) i, p.0),
      Words64-with_word words (v / 64) (set_digit w (v % 64)) i fits p.1,
    )

pub clear_word-IsBitset :
    (words : List ℕ) (v : ℕ) → IsBitset words → v < 0x1_0000 → IsBitset (clear_word words v)
clear_word-IsBitset words v p h =
    let i : v / 64 < length words = omega (arith, p.0) in
    let w = word_at words (v / 64) in
    let fits : clear_digit w (v % 64) < 2 ^ 64 =
      omega (arith, clear_digit-le w (v % 64), word_at-lt words (v / 64) p.1) in
    (
      omega (arith, length-with_word words (v / 64) (clear_digit w (v % 64)) i, p.0),
      Words64-with_word words (v / 64) (clear_digit w (v % 64)) i fits p.1,
    )

-- Past its words a bitmap reads as zero here.
pub word_past : (ws : List ℕ) (k : ℕ) → length ws ≤ k → word_at ws k ≡ 0
word_past [] k h = refl
word_past (w ∷ ws) zero h = absurd (omega arith)
word_past (w ∷ ws) (suc k) h = word_past ws k (omega arith)
