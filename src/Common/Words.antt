-- ===== src/Common/Words.antt =====
-- Go's uint64 and uint16 values: native numbers, with the wrap-around written out; and the
-- binary digits of a number, lowest first.
use Prim.Native.Nat.{ℕ, zero, suc, ◌+◌, ◌*◌, ◌/◌, ◌%◌, ◌^◌, ◌<◌, ◌≤◌}
use mathlib.Core.Path.{◌≡◌, sym, ap, ◌∙◌}
use native.Mathlib.Nat.{
  pow-suc, div-add-mod, mul-add-mod_self_left, mod-eq_of_lt, pow-le-pow_right, le_trans,
}
use pilosa.Common.Tests.{◌==◌, if◌then◌else◌}
use native.Mathlib.Omega.{arith}

abbrev pub word64 : ℕ
word64 = 0x1_0000_0000_0000_0000

-- `a + b` on uint64.
abbrev pub add64 : ℕ → ℕ → ℕ
add64 a b = (a + b) % word64

-- `1 << i` on uint64.
abbrev pub shl1 : ℕ → ℕ
shl1 i = 2 ^ i % word64

-- `(x >> i) & 1`.
abbrev pub bit_at : ℕ → ℕ → ℕ
bit_at x i = x / 2 ^ i % 2

-- The number that the lowest `n` binary digits of `x` stand for.
unfoldable pub low_part : ℕ → ℕ → ℕ
low_part zero x = 0
low_part (suc n) x = low_part n x + (if bit_at x n == 0 then 0 else 2 ^ n)

pub pow_double : (n : ℕ) → 2 ^ suc n ≡ 2 * 2 ^ n
pow_double n = omega (arith, pow-suc 2 n)

pub pow_pos : (n : ℕ) → 0 < 2 ^ n
pow_pos zero = omega arith
pow_pos (suc n) = omega (arith, pow_double n, pow_pos n)

split_mod : (x m : ℕ) → 0 < m → x % m + x / m % 2 * m ≡ x % (2 * m)
split_mod x m h =
    let q = x / m / 2 in
    let r = x % m + x / m % 2 * m in
    let low : r < 2 * m = below (x / m % 2) (omega arith) in
    let whole : x ≡ 2 * m * q + r =
      omega (arith, div-add-mod x m, ap (λ (t : ℕ). m * t) (div-add-mod (x / m) 2)) in
    sym (ap (λ (t : ℕ). t % (2 * m)) whole ∙ mul-add-mod_self_left (2 * m) q r ∙ mod-eq_of_lt low)
  where
    below : (d : ℕ) → d < 2 → x % m + d * m < 2 * m
    below zero p = omega arith
    below (suc zero) p = omega arith
    below (suc (suc d)) p = omega arith

pub low_part-lt : (n x : ℕ) → low_part n x < 2 ^ n
unfolding low_part
low_part-lt zero x = omega arith
low_part-lt (suc n) x = ground (arith, pow_double n, low_part-lt n x)

pub low_part-eq-mod : (n x : ℕ) → low_part n x ≡ x % 2 ^ n
unfolding low_part
low_part-eq-mod zero x = omega arith
low_part-eq-mod (suc n) x =
    rw (pow_double n) (
      rw (low_part-eq-mod n x) (digit (bit_at x n) (omega arith) ∙ split_mod x (2 ^ n) (pow_pos n)))
  where
    digit : (d : ℕ) → d < 2 → x % 2 ^ n + (if d == 0 then 0 else 2 ^ n) ≡ x % 2 ^ n + d * 2 ^ n
    digit zero p = omega arith
    digit (suc zero) p = omega arith
    digit (suc (suc d)) p = absurd (omega arith)

pub low_part_of_lt : (n x : ℕ) → x < 2 ^ n → low_part n x ≡ x
low_part_of_lt n x h = low_part-eq-mod n x ∙ mod-eq_of_lt h

-- The place value of bit `i` is added without wrapping.
pub added : (m i : ℕ) → m + 2 ^ i < word64 → add64 m (shl1 i) ≡ m + 2 ^ i
added m i h = omega (
  arith,
  mod-eq_of_lt {n = 2 ^ i} {m = word64} (omega arith),
  mod-eq_of_lt {n = m + 2 ^ i} {m = word64} h,
)

-- A bit depth that Go allows leaves room in an int64.
pub pow-le-word64 : (n : ℕ) → n ≤ 63 → 2 ^ n ≤ word64
pow-le-word64 n h = le_trans (pow-le-pow_right {n = 2} (omega arith) h) (omega arith)
