-- ===== src/Fragment/State/Places.antt =====
-- Which bits have which positions in the storage of a fragment, for the widths that a build can have.
use mathlib.Core.Path.{subst}
use native.Mathlib.Nat.{
  mod-lt, mod-eq_of_lt, mod-mod, mod-mod_of_dvd, add-mul-mod_self_right, mul-le-mul,
  mul-le-mul_right, pow-le-pow_right, dvd-mul_right, dvd-mul_right_of_dvd, pow-suc, div-add-mod',
}
use Prim.Native.Nat.{◌∣◌}
use pilosa.Common.{
  ℕ, zero, suc, ◌+◌, ◌-◌, ◌*◌, ◌/◌, ◌%◌, ◌^◌, ◌<◌, ◌≤◌, ◌≡◌, sym, ap, ◌∙◌, arith, word64, true,
  pow_pos, ltb, Bool-cases, inl, inr,
}
use pilosa.Fragment.State.{place}

-- A ShardWidth: a power of two whose exponent is at most 32, as in every build.
abbrev pub IsShardWidth : ℕ → Type 0
IsShardWidth w = (exponent : ℕ) × (exponent ≤ 32) × (w ≡ 2 ^ exponent)

-- The positions of a row lie below 2^64, so no other such row has them.
abbrev pub RowFits : ℕ → ℕ → Type 0
RowFits w row_id = suc row_id * w ≤ word64

pub width_pos : (w : ℕ) → IsShardWidth w → 0 < w
width_pos w (e, small, same) = rw same (pow_pos e)

width-le : (w : ℕ) → IsShardWidth w → w ≤ 2 ^ 32
width-le w (e, small, same) = rw same (pow-le-pow_right {n = 2} (omega arith) small)

power_divides : (e k : ℕ) → 2 ^ e ∣ 2 ^ (e + k)
power_divides e zero =
    let same : 2 ^ e * 1 ≡ 2 ^ e = omega arith in
    let whole : e ≡ e + 0 = omega arith in
    subst (λ (t : ℕ). 2 ^ e ∣ 2 ^ t) whole
      (subst (λ (t : ℕ). 2 ^ e ∣ t) same (dvd-mul_right (2 ^ e) 1))
power_divides e (suc k) =
    let whole : suc (e + k) ≡ e + suc k = omega arith in
    let double : 2 ^ (e + k) * 2 ≡ 2 ^ suc (e + k) = sym (pow-suc 2 (e + k)) in
    subst (λ (t : ℕ). 2 ^ e ∣ 2 ^ t) whole
      (subst (λ (t : ℕ). 2 ^ e ∣ t) double (dvd-mul_right_of_dvd (2 ^ e) (power_divides e k) 2))

width_divides : (w : ℕ) → IsShardWidth w → w ∣ word64
width_divides w (e, small, same) =
    let rest : e + (64 - e) ≡ 64 = omega arith in
    rw same (subst (λ (t : ℕ). 2 ^ e ∣ 2 ^ t) rest (power_divides e (64 - e)))

-- The rows of a bit-sliced field of up to 63 bits.
pub RowFits-small : (w r : ℕ) → IsShardWidth w → r ≤ 64 → RowFits w r
RowFits-small w r p h =
    omega
      (arith, mul-le-mul {n₁ = suc r} {m₁ = w} {n₂ = 65} {m₂ = 2 ^ 32} (omega arith) (width-le w p))

-- The column of a position within its shard.
pub place-mod : (w r c : ℕ) → IsShardWidth w → place w r c % w ≡ c % w
unfolding place
place-mod w r c p =
    let swap : r * w + c % w ≡ c % w + r * w = omega arith in
    mod-mod_of_dvd w (r * w + c % w) (width_divides w p)
    ∙ ap (λ (t : ℕ). t % w) swap
    ∙ add-mul-mod_self_right (c % w) r w
    ∙ mod-mod c w

place_of_fits : (w r c : ℕ) → IsShardWidth w → RowFits w r → place w r c ≡ r * w + c % w
unfolding place
place_of_fits w r c p fits = let low = mod-lt c (width_pos w p) in mod-eq_of_lt (omega (arith, low))

-- Two rows that fit share no position.
pub place_injective :
    (w r s c d : ℕ) → IsShardWidth w → RowFits w r → RowFits w s → place w r c ≡ place w s d → r ≡ s
place_injective w r s c d p fits_r fits_s e =
    same_row (sym (place_of_fits w r c p fits_r) ∙ e ∙ place_of_fits w s d p fits_s)
      (mod-lt c (width_pos w p)) (mod-lt d (width_pos w p))
  where
    same_row : r * w + c % w ≡ s * w + d % w → c % w < w → d % w < w → r ≡ s
    same_row e low_c low_d = grind arith

-- Columns of one shard differ within it.
next : {a b : ℕ} → ltb a b ≡ true → suc a ≤ b
next h = ground arith

quotients :
    (w c d k : ℕ)
    → c % w ≡ d % w
    → c / w * w + c % w ≡ c
    → d / w * w + d % w ≡ d
    → k ≤ c
    → c < k + w
    → k ≤ d
    → d < k + w
    → d ≡ c
quotients w c d k e at_c at_d low_c high_c low_d high_d = elim (Bool-cases (ltb (c / w) (d / w))) [
  | inl less ↦ absurd (omega (arith, e, at_c, at_d, mul-le-mul_right w (next less)))
  | inr not_less ↦ elim (Bool-cases (ltb (d / w) (c / w))) [
    | inl more ↦ absurd (omega (arith, e, at_c, at_d, mul-le-mul_right w (next more)))
    | inr not_more ↦
        let same : c / w ≡ d / w = ground arith in
        omega (arith, e, at_c, at_d, ap (λ (t : ℕ). t * w) same)
  ]
]

pub column_apart : (w c d k : ℕ) → k ≤ c → c < k + w → k ≤ d → d < k + w → d % w ≡ c % w → d ≡ c
column_apart w c d k low_c high_c low_d high_d e =
    quotients w c d k (sym e) (div-add-mod' c w) (div-add-mod' d w) low_c high_c low_d high_d
