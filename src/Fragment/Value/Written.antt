-- ===== src/Fragment/Value/Written.antt =====
-- Which bits `set_value` writes.
use pilosa.Common.{
  ℕ, zero, suc, ◌+◌, ◌<◌, ◌≤◌, ◌≡◌, ◌≢◌, refl, ap, ◌∙◌, Bool, true, false, ◌||◌, ◌==◌, arith,
  bit_at, Bool-cases, inl, inr,
}
use pilosa.Fragment.Bsi.{bsi_offset_bit}
use pilosa.Fragment.Storage.{StorageOps}
use pilosa.Fragment.State.{Outcome, ok, err, Fragment, M, ◌>>=◌, bind_outcome, place}
use pilosa.Fragment.State.Places.{IsShardWidth, RowFits-small, place_injective}
use pilosa.Fragment.State.Bits.{Written, set_bit-Written, clear_bit-Written}
use pilosa.Fragment.Value.{put_bit, put_bits}

-- A chain succeeds only if its first step does.
pub >>=-eq-ok :
    {D : StorageOps} {A B : Type 0} (m : M D A) (k : A → M D B) (f : Fragment D) {b : B}
    → ((m >>= k) f).1 ≡ ok b
    → (a : A) × ((m f).1 ≡ ok a) × ((m >>= k) f ≡ k a (m f).0)
>>=-eq-ok {D = D} {A = A} {B = B} m k f {b = b} h = go (m f) refl h
  where
    go :
        (r : Fragment D × Outcome A)
        → m f ≡ r
        → (bind_outcome r k).1 ≡ ok b
        → (a : A) × ((m f).1 ≡ ok a) × (bind_outcome (m f) k ≡ k a (m f).0)
    go (g, ok a) e h = (a, ap (λ (t : Fragment D × Outcome A). t.1) e, ground (arith, e))
    go (g, err e') e h = absurd (ground arith)

module _ (D : StorageOps) (w : ℕ) where
  pub put_bit-Written :
      (on : Bool) (r c : ℕ) (f : Fragment D) {b : Bool}
      → (put_bit D w on r c f).1 ≡ ok b
      → Written D w f (put_bit D w on r c f).0 r c on
  unfolding put_bit
  put_bit-Written true r c f h = set_bit-Written D w r c f h
  put_bit-Written false r c f h = clear_bit-Written D w r c f h

  -- The bits of one column that a loop has written: those from `i` on, `rounds` of them.
  pub record Column (f g : Fragment D) (c i rounds u : ℕ) : Type 0 where
    pub shard : g.shard ≡ f.shard
    pub written :
        i + rounds ≤ 63
        → (j : ℕ) → i ≤ j
        → j < i + rounds
        → D.contains g.storage (place w (bsi_offset_bit + j) c) ≡ (bit_at u j == 1)
    pub others :
        (q : ℕ)
        → ((j : ℕ) → i ≤ j → j < i + rounds → q ≢ place w (bsi_offset_bit + j) c)
        → D.contains g.storage q ≡ D.contains f.storage q

  put_bits_round :
      (f g h : Fragment D) (c i rounds u : ℕ)
      → IsShardWidth w
      → Written D w f g (bsi_offset_bit + i) c (bit_at u i == 1)
      → Column g h c (i + 1) rounds u
      → Column f h c i (suc rounds) u
  put_bits_round f g h c i rounds u width one rest = record {
    shard = rest.shard ∙ one.shard;
    written = λ shallow j low high. elim (Bool-cases (j == i)) [
      | inl e ↦
          let same : j ≡ i = ground arith in
          rw same (
            rest.others (place w (bsi_offset_bit + i) c)
              (λ k low' high' e'. absurd (omega (arith, apart i k shallow (omega arith) high' e')))
            ∙ ground (arith, one.bits (place w (bsi_offset_bit + i) c)))
      | inr ne ↦ rest.written (omega arith) j (ground arith) (omega arith)
    ];
    others = λ q away.
        rest.others q (λ k low high. away k (omega arith) (omega arith))
        ∙ ground (arith, one.bits q, away i (omega arith) (omega arith));
  }
    where
      apart :
          (j k : ℕ)
          → i + suc rounds ≤ 63
          → j ≤ 62
          → k < i + 1 + rounds
          → place w (bsi_offset_bit + j) c ≡ place w (bsi_offset_bit + k) c
          → bsi_offset_bit + j ≡ bsi_offset_bit + k
      apart j k shallow low high e =
          place_injective w (bsi_offset_bit + j) (bsi_offset_bit + k) c c width
            (RowFits-small w (bsi_offset_bit + j) width (omega arith))
            (RowFits-small w (bsi_offset_bit + k) width (omega arith)) e

  pub put_bits-Column :
      (rounds i c u : ℕ) (changed : Bool) (f : Fragment D) {b : Bool}
      → IsShardWidth w
      → (put_bits D w rounds i c u changed f).1 ≡ ok b
      → Column f (put_bits D w rounds i c u changed f).0 c i rounds u
  unfolding put_bits
  put_bits-Column zero i c u changed f width h = record {
    shard = refl;
    written = λ shallow j low high. absurd (omega arith);
    others = λ q away. refl;
  }
  put_bits-Column (suc rounds) i c u changed f width h =
      let on = bit_at u i == 1 in
      let first = put_bit D w on (bsi_offset_bit + i) c in
      let (b, done, e) =
        >>=-eq-ok first (λ b. put_bits D w rounds (i + 1) c u (changed || b)) f h in
      let g = (first f).0 in
      let rest = put_bits-Column rounds (i + 1) c u (changed || b) g width (rw e at h) in
      rw e (
        put_bits_round f g (put_bits D w rounds (i + 1) c u (changed || b) g).0 c i rounds u width
          (put_bit-Written on (bsi_offset_bit + i) c f done) rest)
