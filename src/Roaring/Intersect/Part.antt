-- ===== src/Roaring/Intersect/Part.antt =====
-- The masks of `intersectBitmapRun` keep the bits of a word that lie in the run.
use native.Mathlib.Nat.{mod-eq_of_lt, mod-lt, div-le_self, pow-le-pow_right}
use pilosa.Common.{
  ℕ, zero, suc, ◌+◌, ◌-◌, ◌*◌, ◌/◌, ◌%◌, ◌^◌, ◌<◌, ◌≤◌, ◌≡◌, refl, sym, ap, ◌∙◌, Bool, true, false,
  ◌&&◌, ltb, leb, arith, Bool-cases, inl, inr, pow_double, pow_pos,
}
use pilosa.Common.Shifts.{
  digit, shl64, shr64, digit-and, digit-shr, digit-times_pow, digit-mod_pow, digit-zero, digit-half,
  digit-none, bit_and-lt,
}
use pilosa.Roaring.Run.{Interval16}
use pilosa.Roaring.Run.Sets.{in_run}
use pilosa.Roaring.Intersect.{part_of_word}

-- The digits of `2 ^ k - 1`.
pub digit-ones : (k i : ℕ) → digit (2 ^ k - 1) i ≡ ltb i k
digit-ones zero i = let low : ltb i 0 ≡ false = ground arith in digit-none i ∙ sym low
digit-ones (suc k) zero =
    let odd : (2 ^ suc k - 1) % 2 ≡ 1 = omega (arith, pow_double k, pow_pos k) in
    digit-zero (2 ^ suc k - 1) ∙ rw odd (ground arith)
digit-ones (suc k) (suc i) =
    let half : (2 ^ suc k - 1) / 2 ≡ 2 ^ k - 1 = omega (arith, pow_double k, pow_pos k) in
    digit-half (2 ^ suc k - 1) i ∙ rw half (digit-ones k i ∙ ground arith)

pub digit-shl : (x o i : ℕ) → i < 64 → digit (shl64 x o) i ≡ (leb o i && digit x (i - o))
digit-shl x o i h =
    let low : ltb i 64 ≡ true = ground arith in
    digit-mod_pow 64 (x * 2 ^ o) i ∙ rw low (digit-times_pow x o i)

shl_one : (k : ℕ) → k < 64 → shl64 1 k ≡ 2 ^ k
shl_one k h =
    let small : 2 ^ k ≤ 2 ^ 63 =
      pow-le-pow_right {n = 2} (omega arith) {i = k} {j = 63} (omega arith) in
    let one : 1 * 2 ^ k ≡ 2 ^ k = omega arith in rw one (mod-eq_of_lt (omega arith))

-- The mask of a run inside the word.
digit-mask :
    (k o i : ℕ) → k < 64 → i < 64 → digit (shl64 (shl64 1 k - 1) o) i ≡ (leb o i && ltb (i - o) k)
digit-mask k o i h l =
    rw (shl_one k h)
      (digit-shl (2 ^ k - 1) o i l ∙ ap (λ (b : Bool). leb o i && b) (digit-ones k (i - o)))

digit-front : (w o i : ℕ) → i < 64 → digit (shl64 (shr64 w o) o) i ≡ (digit w i && leb o i)
digit-front w o i h = digit-shl (shr64 w o) o i h ∙ elim (Bool-cases (leb o i)) [
  | inl past ↦
      let n : o + (i - o) ≡ i = ground arith in
      rw past (digit-shr w o (i - o) ∙ rw n (both (digit w i)))
  | inr before ↦ rw before (none_of (digit w i))
]
  where
    both : (b : Bool) → b ≡ (b && true)
    both true = refl
    both false = refl

    none_of : (b : Bool) → false ≡ (b && false)
    none_of true = refl
    none_of false = refl

digit-back :
    (w o i : ℕ) → w < 2 ^ 64 → digit (shr64 (shl64 w o) o) i ≡ (digit w i && ltb (o + i) 64)
digit-back w o i h =
    let n : o + i - o ≡ i = omega arith in
    let low : leb o (o + i) ≡ true = ground arith in
    digit-shr (shl64 w o) o i
    ∙ digit-mod_pow 64 (w * 2 ^ o) (o + i)
    ∙ ap (λ (b : Bool). ltb (o + i) 64 && b) (digit-times_pow w o (o + i))
    ∙ rw (n, low) (ground arith)

pub digit-part_of_word :
    (w first i : ℕ) (iv : Interval16)
    → w < 2 ^ 64
    → i < 64
    → iv.start ≤ iv.last
    → iv.start ≤ first + 63
    → first ≤ iv.last
    → digit (part_of_word w first iv) i ≡ (digit w i && in_run (first + i) iv)
unfolding part_of_word
digit-part_of_word w first i iv h l o f b =
    elim (Bool-cases (leb iv.start first && leb (first + 63) iv.last)) [
      | inl whole ↦
          let inside : in_run (first + i) iv ≡ true = ground arith in
          rw (whole, inside) (ground arith)
      | inr partly ↦ elim (Bool-cases (leb first iv.start && leb iv.last (first + 63))) [
        | inl within ↦
            let k : iv.last - iv.start + 1 < 64 = ground arith in
            rw (partly, within)
              (digit-and w (shl64 (shl64 1 (iv.last - iv.start + 1) - 1) (iv.start - first)) i
                ∙ ap (λ (x : Bool). digit w i && x)
                    (digit-mask (iv.last - iv.start + 1) (iv.start - first) i k l ∙ ground arith))
        | inr across ↦ elim (Bool-cases (ltb first iv.start)) [
          | inl front ↦
              rw (partly, across, front)
                (digit-front w (64 - (1 + (first + 63) - iv.start)) i l
                  ∙ ap (λ (x : Bool). digit w i && x) (ground arith))
          | inr back ↦
              let before : ltb iv.start first ≡ true = ground arith in
              rw (partly, across, back, before)
                (digit-back w (64 - (1 + iv.last - first)) i h
                  ∙ ap (λ (x : Bool). digit w i && x) (ground arith))
        ]
      ]
    ]

pub part_of_word-lt :
    (w first : ℕ) (iv : Interval16) → w < 2 ^ 64 → part_of_word w first iv < 2 ^ 64
unfolding part_of_word
part_of_word-lt w first iv h = elim (Bool-cases (leb iv.start first && leb (first + 63) iv.last)) [
  | inl whole ↦ rw whole h
  | inr partly ↦ elim (Bool-cases (leb first iv.start && leb iv.last (first + 63))) [
    | inl within ↦
        rw (partly, within)
          (bit_and-lt 64 w (shl64 (shl64 1 (iv.last - iv.start + 1) - 1) (iv.start - first)) h)
    | inr across ↦ elim (Bool-cases (ltb first iv.start)) [
      | inl front ↦ rw (partly, across, front) (mod-lt _ (omega arith))
      | inr back ↦ elim (Bool-cases (ltb iv.start first)) [
        | inl before ↦
            let o = 64 - (1 + iv.last - first) in
            let shifted : shl64 w o < 2 ^ 64 = mod-lt (w * 2 ^ o) (omega arith) in
            rw (partly, across, back, before)
              (omega (arith, shifted, div-le_self (shl64 w o) (2 ^ o)))
        | inr after ↦ rw (partly, across, back, after) (omega arith)
      ]
    ]
  ]
]

pub part_of_word-whole :
    (w first : ℕ) (iv : Interval16)
    → (leb iv.start first && leb (first + 63) iv.last) ≡ true
    → part_of_word w first iv ≡ w
unfolding part_of_word
part_of_word-whole w first iv whole = rw whole refl
