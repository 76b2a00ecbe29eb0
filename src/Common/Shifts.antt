-- ===== src/Common/Shifts.antt =====
-- Go's `&`, `|`, `<<` and `>>` on uint64, digit by digit.
use Prim.Native.Nat.{min, max, digits, bit_and, bit_or, bit_and-bitwise, bit_or-bitwise}
use native.Mathlib.Nat.{
  div-div-eq-div-mul, div-add-mod, mul-add-mod_self_left, mod-eq_of_lt, mod-lt,
}
use pilosa.Common.{
  ℕ, zero, suc, ◌+◌, ◌-◌, ◌*◌, ◌/◌, ◌%◌, ◌^◌, ◌<◌, ◌≤◌, ◌≡◌, refl, sym, ap, ◌∙◌, arith, bit_at,
  word64, pow_double, pow_pos, ◌==◌, leb, ltb, true, false, ◌&&◌, ◌||◌, Bool,
}
use pilosa.Common.Digits.{bit-zero, bit-suc, bit_at-high}

abbrev pub digit : ℕ → ℕ → Bool
digit x i = bit_at x i == 1

-- A number from its half and its lowest digit.
digit-suc : (d e i : ℕ) → e < 2 → digit (d * 2 + e) (suc i) ≡ digit d i
digit-suc d e i h =
    let half : (d * 2 + e) / 2 ≡ d = omega arith in rw (bit-suc (d * 2 + e) i, half) refl

digit-first : (d e : ℕ) → e < 2 → digit (d * 2 + e) 0 ≡ (e == 1)
digit-first d e h =
    let low : (d * 2 + e) % 2 ≡ e = omega arith in rw (bit-zero (d * 2 + e), low) refl

pub digit-none : (i : ℕ) → digit 0 i ≡ false
digit-none i = rw (bit_at-high 0 0 i (omega arith) (omega arith)) refl

pub digit-zero : (x : ℕ) → digit x 0 ≡ (x % 2 == 1)
digit-zero x = rw (bit-zero x) refl

pub digit-half : (x i : ℕ) → digit x (suc i) ≡ digit (x / 2) i
digit-half x i = rw (bit-suc x i) refl

min-digit : (x y : ℕ) → x < 2 → y < 2 → ((min x y == 1) ≡ (x == 1 && y == 1)) × (min x y < 2)
min-digit zero zero h k = (refl, omega arith)
min-digit zero (suc zero) h k = (refl, omega arith)
min-digit zero (suc (suc y)) h k = absurd (omega arith)
min-digit (suc zero) zero h k = (refl, omega arith)
min-digit (suc zero) (suc zero) h k = (refl, omega arith)
min-digit (suc zero) (suc (suc y)) h k = absurd (omega arith)
min-digit (suc (suc x)) y h k = absurd (omega arith)

max-digit : (x y : ℕ) → x < 2 → y < 2 → ((max x y == 1) ≡ (x == 1 || y == 1)) × (max x y < 2)
max-digit zero zero h k = (refl, omega arith)
max-digit zero (suc zero) h k = (refl, omega arith)
max-digit zero (suc (suc y)) h k = absurd (omega arith)
max-digit (suc zero) zero h k = (refl, omega arith)
max-digit (suc zero) (suc zero) h k = (refl, omega arith)
max-digit (suc zero) (suc (suc y)) h k = absurd (omega arith)
max-digit (suc (suc x)) y h k = absurd (omega arith)

mod-lt_two : (x : ℕ) → x % 2 < 2
mod-lt_two x = omega arith

digits-and :
    (n a b i : ℕ) → a ≤ n → digit (digits (λ x. zero) min n a b) i ≡ (digit a i && digit b i)
digits-and zero a b i h = let e : a ≡ 0 = omega arith in rw (e, digit-none i) refl
digits-and (suc n) zero b i h = rw (digit-none i) refl
digits-and (suc n) (suc a) b zero h =
    let low = min-digit (suc a % 2) (b % 2) (mod-lt_two (suc a)) (mod-lt_two b) in
    digit-first (digits (λ x. zero) min n (suc a / 2) (b / 2)) (min (suc a % 2) (b % 2)) low.1
    ∙ low.0
    ∙ rw (digit-zero (suc a), digit-zero b) refl
digits-and (suc n) (suc a) b (suc i) h =
    let low = min-digit (suc a % 2) (b % 2) (mod-lt_two (suc a)) (mod-lt_two b) in
    digit-suc (digits (λ x. zero) min n (suc a / 2) (b / 2)) (min (suc a % 2) (b % 2)) i low.1
    ∙ digits-and n (suc a / 2) (b / 2) i (omega arith)
    ∙ rw (digit-half (suc a) i, digit-half b i) refl

digits-or : (n a b i : ℕ) → a ≤ n → digit (digits (λ x. x) max n a b) i ≡ (digit a i || digit b i)
digits-or zero a b i h = let e : a ≡ 0 = omega arith in rw (e, digit-none i) refl
digits-or (suc n) zero b i h = rw (digit-none i) refl
digits-or (suc n) (suc a) b zero h =
    let low = max-digit (suc a % 2) (b % 2) (mod-lt_two (suc a)) (mod-lt_two b) in
    digit-first (digits (λ x. x) max n (suc a / 2) (b / 2)) (max (suc a % 2) (b % 2)) low.1
    ∙ low.0
    ∙ rw (digit-zero (suc a), digit-zero b) refl
digits-or (suc n) (suc a) b (suc i) h =
    let low = max-digit (suc a % 2) (b % 2) (mod-lt_two (suc a)) (mod-lt_two b) in
    digit-suc (digits (λ x. x) max n (suc a / 2) (b / 2)) (max (suc a % 2) (b % 2)) i low.1
    ∙ digits-or n (suc a / 2) (b / 2) i (omega arith)
    ∙ rw (digit-half (suc a) i, digit-half b i) refl

pub digit-and : (a b i : ℕ) → digit (bit_and a b) i ≡ (digit a i && digit b i)
digit-and a b i = ap (λ (t : ℕ). digit t i) (bit_and-bitwise a b) ∙ digits-and a a b i (omega arith)

pub digit-or : (a b i : ℕ) → digit (bit_or a b) i ≡ (digit a i || digit b i)
digit-or a b i = ap (λ (t : ℕ). digit t i) (bit_or-bitwise a b) ∙ digits-or a a b i (omega arith)

-- A number without digits from `n` on is below `2 ^ n`, and the other way round.
pub lt_of_digits :
    (n bound x : ℕ) → x < 2 ^ bound → ((i : ℕ) → n ≤ i → digit x i ≡ false) → x < 2 ^ n
lt_of_digits n zero x h e = omega (arith, pow_pos n)
lt_of_digits zero (suc bound) x h e =
    let half =
      lt_of_digits 0 bound (x / 2) (omega (arith, pow_double bound))
        (λ i k. sym (digit-half x i) ∙ e (suc i) (omega arith)) in
    ground (arith, half, digit-zero x, e 0)
lt_of_digits (suc n) (suc bound) x h e =
    let half =
      lt_of_digits n bound (x / 2) (omega (arith, pow_double bound))
        (λ i k. sym (digit-half x i) ∙ e (suc i) (omega arith)) in
    omega (arith, half, pow_double n)

pub digit-past : (n x i : ℕ) → x < 2 ^ n → n ≤ i → digit x i ≡ false
digit-past n x i h k = rw (bit_at-high n x i h k) refl

lt-pow : (x : ℕ) → x < 2 ^ x
lt-pow zero = omega arith
lt-pow (suc x) = omega (arith, lt-pow x, pow_double x)

pub bit_and-lt : (n a b : ℕ) → a < 2 ^ n → bit_and a b < 2 ^ n
bit_and-lt n a b h =
    lt_of_digits n (bit_and a b) (bit_and a b) (lt-pow (bit_and a b))
      (λ i k. digit-and a b i ∙ rw (digit-past n a i h k) refl)

pub bit_or-lt : (n a b : ℕ) → a < 2 ^ n → b < 2 ^ n → bit_or a b < 2 ^ n
bit_or-lt n a b h g =
    lt_of_digits n (bit_or a b) (bit_or a b) (lt-pow (bit_or a b))
      (λ i k. digit-or a b i ∙ rw (digit-past n a i h k, digit-past n b i g k) refl)

-- `x << o` and `x >> o` on uint64, for less than 64 places.
abbrev pub shl64 : ℕ → ℕ → ℕ
shl64 x o = x * 2 ^ o % word64

abbrev pub shr64 : ℕ → ℕ → ℕ
shr64 x o = x / 2 ^ o

mod_pow-half : (n x : ℕ) → (x % 2 ^ suc n % 2 ≡ x % 2) × (x % 2 ^ suc n / 2 ≡ x / 2 % 2 ^ n)
mod_pow-half n x =
    let p = 2 ^ n in
    let q = x / 2 ^ suc n in
    let r = x % 2 ^ suc n in
    let whole : 2 * (p * q) + r ≡ x =
      omega (arith, ap (λ (t : ℕ). t * q) (pow_double n), div-add-mod x (2 ^ suc n)) in
    let small : r < 2 * p = omega (arith, mod-lt x (pow_pos (suc n)), pow_double n) in
    let half : x / 2 ≡ p * q + r / 2 = omega (arith, whole) in
    (
      omega (arith, whole),
      sym (
          ap (λ (t : ℕ). t % p) half
          ∙ mul-add-mod_self_left p q (r / 2)
          ∙ mod-eq_of_lt (omega (arith, small))),
    )

pub digit-shr : (x o i : ℕ) → digit (shr64 x o) i ≡ digit x (o + i)
digit-shr x zero i =
    let one : x / 2 ^ 0 ≡ x = omega arith in let n : 0 + i ≡ i = omega arith in rw (one, n) refl
digit-shr x (suc o) i =
    let half : x / 2 ^ suc o ≡ x / 2 / 2 ^ o =
      ap (λ (m : ℕ). x / m) (pow_double o) ∙ sym (div-div-eq-div-mul x 2 (2 ^ o)) in
    let n : suc o + i ≡ suc (o + i) = omega arith in
    ap (λ (t : ℕ). digit t i) half ∙ digit-shr (x / 2) o i ∙ sym (rw n (digit-half x (o + i)))

pub digit-times_pow : (x o i : ℕ) → digit (x * 2 ^ o) i ≡ (leb o i && digit x (i - o))
digit-times_pow x zero i =
    let one : x * 2 ^ 0 ≡ x = omega arith in
    let n : i - 0 ≡ i = omega arith in
    let low : leb 0 i ≡ true = ground arith in rw (one, n, low) refl
digit-times_pow x (suc o) zero =
    let even : x * 2 ^ suc o % 2 ≡ 0 = omega (arith, ap (λ (t : ℕ). x * t) (pow_double o)) in
    let low : leb (suc o) 0 ≡ false = ground arith in
    digit-zero (x * 2 ^ suc o) ∙ rw (even, low) refl
digit-times_pow x (suc o) (suc i) =
    let half : x * 2 ^ suc o / 2 ≡ x * 2 ^ o =
      omega (arith, ap (λ (t : ℕ). x * t) (pow_double o)) in
    let n : suc i - suc o ≡ i - o = omega arith in
    let low : leb (suc o) (suc i) ≡ leb o i = ground arith in
    digit-half (x * 2 ^ suc o) i
    ∙ ap (λ (t : ℕ). digit t i) half
    ∙ digit-times_pow x o i
    ∙ sym (rw (n, low) refl)

pub digit-mod_pow : (n x i : ℕ) → digit (x % 2 ^ n) i ≡ (ltb i n && digit x i)
digit-mod_pow zero x i =
    let none_left : x % 2 ^ 0 ≡ 0 = omega arith in
    let low : ltb i 0 ≡ false = ground arith in rw (none_left, digit-none i, low) refl
digit-mod_pow (suc n) x zero =
    let low : ltb 0 (suc n) ≡ true = ground arith in
    digit-zero (x % 2 ^ suc n) ∙ rw ((mod_pow-half n x).0, low) (sym (digit-zero x))
digit-mod_pow (suc n) x (suc i) =
    let low : ltb (suc i) (suc n) ≡ ltb i n = ground arith in
    digit-half (x % 2 ^ suc n) i
    ∙ ap (λ (t : ℕ). digit t i) (mod_pow-half n x).1
    ∙ digit-mod_pow n (x / 2) i
    ∙ rw (low, digit-half x i) refl
