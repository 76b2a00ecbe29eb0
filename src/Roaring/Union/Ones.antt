-- ===== src/Roaring/Union/Ones.antt =====
-- The ones of a word that joins two, as `bitmapSetRange` counts them.
use Prim.Native.Nat.{bit_and, bit_or}
use pilosa.Common.{ℕ, ◌+◌, ◌<◌, ◌≤◌, ◌≡◌, ◌∙◌, true, ◌&&◌, ◌||◌, leb, arith}
use pilosa.Common.Digits.{ones_count}
use pilosa.Common.Shifts.{digit, digit-and, digit-or}
use pilosa.Roaring.Size.{size-same, size-both, size-and_le, size-interval}
use pilosa.Roaring.Bitset.Count.{ones_count-eq-size}
use pilosa.Roaring.Intersect.Part.{digit-ones}
use pilosa.Roaring.Union.{max_bitmap}

pub digit-max_bitmap : (j : ℕ) → j < 64 → digit max_bitmap j ≡ true
digit-max_bitmap j l = digit-ones 64 j ∙ ground arith

pub ones_count-max_bitmap : ones_count 64 max_bitmap ≡ 64
ones_count-max_bitmap =
    ones_count-eq-size 64 max_bitmap
    ∙ size-same (λ (j : ℕ). digit max_bitmap j) (λ (j : ℕ). leb 0 j && leb j 63) 64
        (λ j l. digit-max_bitmap j l ∙ ground arith)
    ∙ size-interval 0 63 64 (omega arith)

-- The ones of a word that joins two.
pub ones_count-or :
    (x m : ℕ)
    → ones_count 64 (bit_or x m) + ones_count 64 (bit_and x m) ≡ ones_count 64 x + ones_count 64 m
ones_count-or x m =
    let either =
      ones_count-eq-size 64 (bit_or x m)
      ∙ size-same (λ (j : ℕ). digit (bit_or x m) j) (λ (j : ℕ). digit x j || digit m j) 64
          (λ j l. digit-or x m j) in
    let both =
      ones_count-eq-size 64 (bit_and x m)
      ∙ size-same (λ (j : ℕ). digit (bit_and x m) j) (λ (j : ℕ). digit x j && digit m j) 64
          (λ j l. digit-and x m j) in
    omega (
      arith,
      either,
      both,
      size-both (λ (j : ℕ). digit x j) (λ (j : ℕ). digit m j) 64,
      ones_count-eq-size 64 x,
      ones_count-eq-size 64 m,
    )

pub ones_count-and_le : (x m : ℕ) → ones_count 64 (bit_and x m) ≤ ones_count 64 m
ones_count-and_le x m =
    let both =
      ones_count-eq-size 64 (bit_and x m)
      ∙ size-same (λ (j : ℕ). digit (bit_and x m) j) (λ (j : ℕ). digit x j && digit m j) 64
          (λ j l. digit-and x m j) in
    omega (
      arith,
      both,
      size-and_le (λ (j : ℕ). digit x j) (λ (j : ℕ). digit m j) 64,
      ones_count-eq-size 64 m,
    )
