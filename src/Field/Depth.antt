-- ===== src/Field/Depth.antt =====
-- The number of bits of a value in field.go.
use pilosa.Common.{
  ℕ, zero, suc, ◌+◌, ◌^◌, ◌≤◌, ◌<◌, ◌≡◌, refl, ap, arith, ltb, leb, if◌then◌else◌, pow_double,
}
use pilosa.Common.Int.{ℤ, abs_ℕ}

-- The loop of `bitDepth`: its rounds left, and the bit it has come to.
unfoldable pub bit_depth_loop : ℕ → ℕ → ℕ → ℕ
bit_depth_loop v zero i = 63
bit_depth_loop v (suc rounds) i =
    let next = bit_depth_loop v rounds (i + 1) in if ltb v (2 ^ i) then i else next

unfoldable pub bit_depth : ℕ → ℕ
bit_depth v = bit_depth_loop v 63 0

-- `bitDepthInt64`.
unfoldable pub bit_depth_int64 : ℤ → ℕ
bit_depth_int64 v = bit_depth (abs_ℕ v)

pow_mono : (i d : ℕ) → 2 ^ i ≤ 2 ^ (i + d)
pow_mono i zero = ground arith
pow_mono i (suc d) = ground (arith, pow_mono i d, pow_double (i + d))

bit_depth_loop_from : (v rounds i : ℕ) → i + rounds ≡ 63 → i ≤ bit_depth_loop v rounds i
unfolding bit_depth_loop
bit_depth_loop_from v zero i h = omega arith
bit_depth_loop_from v (suc rounds) i h = ground (arith, bit_depth_loop_from v rounds (i + 1))

bit_depth_loop_lem :
    (v rounds i d : ℕ)
    → i + rounds ≡ 63
    → v < 2 ^ 63
    → ltb (i + d) (bit_depth_loop v rounds i) ≡ leb (2 ^ (i + d)) v
unfolding bit_depth_loop
bit_depth_loop_lem v zero i d h b =
    let at63 : i ≡ 63 = omega arith in ground (arith, pow_mono i d, ap (λ n. 2 ^ n) at63)
bit_depth_loop_lem v (suc rounds) i zero h b =
    ground (arith, bit_depth_loop_from v rounds (i + 1) (omega arith))
bit_depth_loop_lem v (suc rounds) i (suc d) h b = ground (
  arith,
  bit_depth_loop_lem v rounds (i + 1) d (omega arith) b,
  pow_mono i (suc d),
  bit_depth_loop_from v rounds (i + 1) (omega arith),
)

-- For a value whose absolute value is below 2^63, a number k is below bitDepthInt64 exactly if 2^k
-- is at most the absolute value, so the depth is the least number of bits that hold it.
pub lt-bit_depth_int64 :
    (v : ℤ) (k : ℕ) → abs_ℕ v < 2 ^ 63 → ltb k (bit_depth_int64 v) ≡ leb (2 ^ k) (abs_ℕ v)
unfolding bit_depth_int64 bit_depth
lt-bit_depth_int64 v k h =
    let start : 0 + k ≡ k = omega arith in rw start at (bit_depth_loop_lem (abs_ℕ v) 63 0 k refl h)
