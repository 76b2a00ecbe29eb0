-- ===== src/Roaring/Bitset/Count.antt =====
-- The ones of a bitmap container's words, and the number of its values.
use pilosa.Common.{
  ℕ, zero, suc, ◌+◌, ◌*◌, ◌/◌, ◌%◌, ◌<◌, ◌≡◌, refl, sym, ap, ◌∙◌, List, [], ◌∷◌, ◌==◌, arith,
  length, if◌then◌else◌,
}
use pilosa.Common.Digits.{ones_count}
use pilosa.Common.Shifts.{digit, digit-zero, digit-half}
use pilosa.Roaring.Size.{size, size-same, size-append, size-nil, size-first}
use pilosa.Roaring.Bitset.{bitmap_contains, zeros}
use pilosa.Roaring.Bitset.Sets.{IsBitset}

pub ones_count-eq-size : (n w : ℕ) → ones_count n w ≡ size (λ (i : ℕ). digit w i) n
unfolding ones_count
ones_count-eq-size zero w = sym (size-nil (λ (i : ℕ). digit w i))
ones_count-eq-size (suc n) w =
    let front = size-append (λ (i : ℕ). digit w i) 1 n (suc n) (omega arith) in
    let rest : size (λ (i : ℕ). digit w (1 + i)) n ≡ ones_count n (w / 2) =
      size-same (λ (i : ℕ). digit w (1 + i)) (λ (i : ℕ). digit (w / 2) i) n
        (λ i h. let next : 1 + i ≡ suc i = omega arith in rw next (digit-half w i))
      ∙ sym (ones_count-eq-size n (w / 2)) in
    let first : size (λ (i : ℕ). digit w i) 1 ≡ w % 2 =
      size-first (λ (i : ℕ). digit w i) ∙ rw (digit-zero w) (odd (w % 2) (omega arith)) in
    sym (front ∙ omega (arith, first, rest))
  where
    odd : (d : ℕ) → d < 2 → (if d == 1 then 1 else 0) ≡ d
    odd d h = ground arith

-- The ones of all words.
abbrev pub ones_sum : List ℕ → ℕ
ones_sum [] = 0
ones_sum (w ∷ ws) = ones_count 64 w + ones_sum ws

size-words :
    (words : List ℕ)
    → size (λ (c : ℕ). bitmap_contains words c) (64 * length words) ≡ ones_sum words
size-words [] = size-nil (λ (c : ℕ). bitmap_contains [] c)
size-words (w ∷ ws) =
    let split =
      size-append (λ (c : ℕ). bitmap_contains (w ∷ ws) c) 64 (64 * length ws) (64 * suc (length ws))
        (omega arith) in
    let first : size (λ (c : ℕ). bitmap_contains (w ∷ ws) c) 64 ≡ ones_count 64 w =
      size-same (λ (c : ℕ). bitmap_contains (w ∷ ws) c) (λ (i : ℕ). digit w i) 64
        (λ c h.
          let at_first : c / 64 ≡ 0 = omega arith in
          let same : c % 64 ≡ c = omega arith in rw (at_first, same) refl)
      ∙ sym (ones_count-eq-size 64 w) in
    let rest : size (λ (c : ℕ). bitmap_contains (w ∷ ws) (64 + c)) (64 * length ws) ≡ ones_sum ws =
      size-same (λ (c : ℕ). bitmap_contains (w ∷ ws) (64 + c)) (λ (c : ℕ). bitmap_contains ws c)
        (64 * length ws)
        (λ c h.
          let later : (64 + c) / 64 ≡ suc (c / 64) = omega arith in
          let same : (64 + c) % 64 ≡ c % 64 = omega arith in rw (later, same) refl)
      ∙ size-words ws in
    split ∙ omega (arith, first, rest)

pub ones_sum-eq-size :
    (words : List ℕ)
    → IsBitset words
    → ones_sum words ≡ size (λ (c : ℕ). bitmap_contains words c) 0x1_0000
ones_sum-eq-size words p =
    let whole : 64 * length words ≡ 0x1_0000 = omega (arith, p.0) in
    sym (size-words words) ∙ ap (λ (n : ℕ). size (λ (c : ℕ). bitmap_contains words c) n) whole

ones_count-none : (n : ℕ) → ones_count n 0 ≡ 0
unfolding ones_count
ones_count-none zero = refl
ones_count-none (suc n) = omega (arith, ones_count-none n)

pub ones_sum-zeros : (n : ℕ) → ones_sum (zeros n) ≡ 0
ones_sum-zeros zero = refl
ones_sum-zeros (suc n) = omega (arith, ones_count-none 64, ones_sum-zeros n)
