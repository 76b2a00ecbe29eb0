-- ===== src/Common/Digits.antt =====
-- The binary digits of a number, one at a time: setting one and clearing one.
use native.Mathlib.Nat.{div-div-eq-div-mul}
use pilosa.Common.{
  ℕ, zero, suc, ◌+◌, ◌-◌, ◌/◌, ◌%◌, ◌^◌, ◌<◌, ◌≤◌, ◌≡◌, refl, sym, ap, ◌∙◌, arith, bit_at,
  pow_double, pow_pos, ◌==◌, if◌then◌else◌, Bool-cases, inl, inr, ◌⊎◌, not, ◌&&◌, ◌||◌,
}

-- `x | (1 << i)` and `x &^ (1 << i)`.
abbrev pub set_digit : ℕ → ℕ → ℕ
set_digit x i = if bit_at x i == 1 then x else x + 2 ^ i

abbrev pub clear_digit : ℕ → ℕ → ℕ
clear_digit x i = if bit_at x i == 1 then x - 2 ^ i else x

pub bit-zero : (x : ℕ) → bit_at x 0 ≡ x % 2
bit-zero x = omega arith

pub bit-suc : (x i : ℕ) → bit_at x (suc i) ≡ bit_at (x / 2) i
bit-suc x i =
    ap (λ (t : ℕ). t % 2)
      (ap (λ (m : ℕ). x / m) (pow_double i) ∙ sym (div-div-eq-div-mul x 2 (2 ^ i)))

set-zero : (x : ℕ) → (set_digit x 0 / 2 ≡ x / 2) × (set_digit x 0 % 2 ≡ 1)
set-zero x = ground (arith, bit-zero x)

set-suc :
    (x i : ℕ) → (set_digit x (suc i) / 2 ≡ set_digit (x / 2) i) × (set_digit x (suc i) % 2 ≡ x % 2)
set-suc x i = ground (arith, bit-suc x i, pow_double i)

digit-cases : (x i : ℕ) → (bit_at x i ≡ 0) ⊎ (bit_at x i ≡ 1)
digit-cases x i = elim (Bool-cases (bit_at x i == 1)) [
  | inl e ↦ inr (ground arith)
  | inr e ↦ inl (ground (arith, mod-lt_two (x / 2 ^ i)))
]
  where
    mod-lt_two : (y : ℕ) → y % 2 < 2
    mod-lt_two y = omega arith

place-le : (x i : ℕ) → bit_at x i ≡ 1 → 2 ^ i ≤ x
place-le x zero e = omega (arith, bit-zero x)
place-le x (suc i) e = omega (arith, place-le (x / 2) i (ground (arith, bit-suc x i)), pow_double i)

clear-zero : (x : ℕ) → (clear_digit x 0 / 2 ≡ x / 2) × (clear_digit x 0 % 2 ≡ 0)
clear-zero x = ground (arith, bit-zero x)

clear-suc :
    (x i : ℕ)
    → (clear_digit x (suc i) / 2 ≡ clear_digit (x / 2) i) × (clear_digit x (suc i) % 2 ≡ x % 2)
clear-suc x i = ground (arith, bit-suc x i, pow_double i, place-le (x / 2) i)

-- Only the digit in question changes.
pub bit-set_digit : (x i j : ℕ) → (bit_at (set_digit x i) j == 1) ≡ (i == j || bit_at x j == 1)
bit-set_digit x zero zero = ground (arith, bit-zero (set_digit x 0), set-zero x)
bit-set_digit x zero (suc j) =
    rw (bit-suc (set_digit x 0) j, bit-suc x j, (set-zero x).0) (ground arith)
bit-set_digit x (suc i) zero =
    ground (arith, bit-zero (set_digit x (suc i)), bit-zero x, set-suc x i)
bit-set_digit x (suc i) (suc j) =
    rw (bit-suc (set_digit x (suc i)) j, bit-suc x j, (set-suc x i).0)
      (ground (arith, bit-set_digit (x / 2) i j))

pub bit-clear_digit :
    (x i j : ℕ) → (bit_at (clear_digit x i) j == 1) ≡ (not (i == j) && bit_at x j == 1)
bit-clear_digit x zero zero = ground (arith, bit-zero (clear_digit x 0), clear-zero x)
bit-clear_digit x zero (suc j) =
    rw (bit-suc (clear_digit x 0) j, bit-suc x j, (clear-zero x).0) (ground arith)
bit-clear_digit x (suc i) zero =
    ground (arith, bit-zero (clear_digit x (suc i)), bit-zero x, clear-suc x i)
bit-clear_digit x (suc i) (suc j) =
    rw (bit-suc (clear_digit x (suc i)) j, bit-suc x j, (clear-suc x i).0)
      (ground (arith, bit-clear_digit (x / 2) i j))

pub set_digit-lt : (n x i : ℕ) → x < 2 ^ n → i < n → set_digit x i < 2 ^ n
set_digit-lt zero x i h k = absurd (omega arith)
set_digit-lt (suc n) x zero h k = omega (arith, pow_double n, set-zero x)
set_digit-lt (suc n) x (suc i) h k = omega (
  arith,
  pow_double n,
  set-suc x i,
  set_digit-lt n (x / 2) i (omega (arith, pow_double n)) (omega arith),
)

pub clear_digit-le : (x i : ℕ) → clear_digit x i ≤ x
clear_digit-le x i = ground arith

-- The place of the lowest one of a number with that many digits or fewer, which `bitmapToArray`
-- finds as `popcount(t-1)` for `t := word & -word`.
unfoldable pub trailing_zeros : ℕ → ℕ → ℕ
trailing_zeros zero x = 0
trailing_zeros (suc n) x = let rest = trailing_zeros n (x / 2) in if x % 2 == 1 then 0 else suc rest

-- `bits.OnesCount64`, for the lowest `n` digits.
unfoldable pub ones_count : ℕ → ℕ → ℕ
ones_count zero x = 0
ones_count (suc n) x = x % 2 + ones_count n (x / 2)

pub trailing_zeros-lt : (n x : ℕ) → x < 2 ^ n → 0 < x → trailing_zeros n x < n
unfolding trailing_zeros
trailing_zeros-lt zero x h k = absurd (omega arith)
trailing_zeros-lt (suc n) x h k = ground (arith, pow_double n, trailing_zeros-lt n (x / 2))

pub bit_at-trailing_zeros : (n x : ℕ) → x < 2 ^ n → 0 < x → bit_at x (trailing_zeros n x) ≡ 1
unfolding trailing_zeros
bit_at-trailing_zeros zero x h k = absurd (omega arith)
bit_at-trailing_zeros (suc n) x h k = elim (Bool-cases (x % 2 == 1)) [
  | inl odd ↦ rw odd (ground (arith, bit-zero x))
  | inr even ↦ rw even (
      bit-suc x (trailing_zeros n (x / 2))
      ∙ bit_at-trailing_zeros n (x / 2) (omega (arith, pow_double n)) (ground arith))
]

pub bit_at-below_trailing : (n x j : ℕ) → j < trailing_zeros n x → bit_at x j ≡ 0
unfolding trailing_zeros
bit_at-below_trailing zero x j h = absurd (omega arith)
bit_at-below_trailing (suc n) x zero h = ground (arith, bit-zero x)
bit_at-below_trailing (suc n) x (suc j) h =
    bit-suc x j ∙ bit_at-below_trailing n (x / 2) j (ground arith)

-- The ones below a power of two.
pub ones_count-pred_pow : (n k : ℕ) → k ≤ n → ones_count n (2 ^ k - 1) ≡ k
unfolding ones_count
ones_count-pred_pow zero zero h = refl
ones_count-pred_pow zero (suc k) h = absurd (omega arith)
ones_count-pred_pow (suc n) zero h = omega (arith, ones_count-pred_pow n 0 (omega arith))
ones_count-pred_pow (suc n) (suc k) h =
    let half : (2 ^ suc k - 1) / 2 ≡ 2 ^ k - 1 = omega (arith, pow_double k, pow_pos k) in
    let odd : (2 ^ suc k - 1) % 2 ≡ 1 = omega (arith, pow_double k, pow_pos k) in
    rw (half, odd) (omega (arith, ones_count-pred_pow n k (omega arith)))

pub bit_at-high : (n x j : ℕ) → x < 2 ^ n → n ≤ j → bit_at x j ≡ 0
bit_at-high zero x zero h k = omega (arith, bit-zero x)
bit_at-high zero x (suc j) h k = bit-suc x j ∙ bit_at-high 0 (x / 2) j (omega arith) (omega arith)
bit_at-high (suc n) x zero h k = absurd (omega arith)
bit_at-high (suc n) x (suc j) h k =
    bit-suc x j ∙ bit_at-high n (x / 2) j (omega (arith, pow_double n)) (omega arith)
