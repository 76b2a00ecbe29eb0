-- ===== src/Fragment/Value/Read.antt =====
-- What the loop of `value` in fragment.go reads: the bits of a column, as a number.
use native.Mathlib.Nat.{div-eq_of_lt, pow-le-pow_right, le_trans}
use pilosa.Common.{
  ℕ, zero, suc, ◌+◌, ◌/◌, ◌^◌, ◌<◌, ◌≤◌, ◌≡◌, refl, ◌∙◌, ◌==◌, if◌then◌else◌, arith, bit_at,
  low_part, low_part-lt, added, word64, pow_double,
}
use pilosa.Fragment.Bsi.{bsi_offset_bit}
use pilosa.Fragment.Storage.{StorageOps}
use pilosa.Fragment.State.{ok, Fragment, bit, place}
use pilosa.Fragment.State.Bits.{position_of_InShard, InShard}
use pilosa.Fragment.Value.{read_bits, or_bit}

low_part-suc :
    (i u : ℕ) → low_part (suc i) u ≡ low_part i u + (if bit_at u i == 0 then 0 else 2 ^ i)
unfolding low_part
low_part-suc i u = refl

pub low_part_zero : (u : ℕ) → low_part 0 u ≡ 0
unfolding low_part
low_part_zero u = refl

-- The bit that a round reads is not yet set.
or_bit-low_part : (i u : ℕ) → 2 ^ suc i ≤ word64 → or_bit (low_part i u) i ≡ low_part i u + 2 ^ i
or_bit-low_part i u fits =
    let free : low_part i u / 2 ^ i ≡ 0 = div-eq_of_lt (low_part-lt i u) in
    ground (arith, free, added (low_part i u) i (omega (arith, low_part-lt i u, pow_double i)))

module _ (D : StorageOps) (w : ℕ) where
  pub bit-eq-contains :
      (r c : ℕ) (f : Fragment D)
      → InShard D w f c
      → bit D w r c f ≡ ok (D.contains f.storage (place w r c))
  unfolding bit
  bit-eq-contains r c f h = ground (arith, position_of_InShard D w f r c h)

  read_round :
      (rounds i c u : ℕ) (f : Fragment D)
      → InShard D w f c
      → 2 ^ suc i ≤ word64
      → D.contains f.storage (place w (bsi_offset_bit + i) c) ≡ (bit_at u i == 1)
      → read_bits D w (suc rounds) i c (low_part i u) f
        ≡ read_bits D w rounds (suc i) c (low_part (suc i) u) f
  unfolding read_bits
  read_round rounds i c u f h fits stored =
      let s : i + 1 ≡ suc i = omega arith in
      ground (
        arith,
        bit-eq-contains (bsi_offset_bit + i) c f h,
        or_bit-low_part i u fits,
        low_part-suc i u,
        s,
      )

  pub read_bits-low_part :
      (rounds i c u : ℕ) (f : Fragment D)
      → InShard D w f c
      → 2 ^ (i + rounds) ≤ word64
      → ((j : ℕ)
          → i ≤ j
          → j < i + rounds
          → D.contains f.storage (place w (bsi_offset_bit + j) c) ≡ (bit_at u j == 1))
      → read_bits D w rounds i c (low_part i u) f ≡ ok (low_part (i + rounds) u)
  unfolding read_bits
  read_bits-low_part zero i c u f h fits bits = let e : i + 0 ≡ i = omega arith in rw e refl
  read_bits-low_part (suc rounds) i c u f h fits bits =
      let e : i + suc rounds ≡ suc i + rounds = omega arith in
      let room : 2 ^ suc i ≤ word64 =
        le_trans
          (pow-le-pow_right {n = 2} (omega arith) {i = suc i} {j = i + suc rounds} (omega arith))
          fits in
      read_round rounds i c u f h room (bits i (omega arith) (omega arith))
      ∙ rw e (
          read_bits-low_part rounds (suc i) c u f h (rw e at fits)
            (λ j low high. bits j (omega arith) (omega arith)))
