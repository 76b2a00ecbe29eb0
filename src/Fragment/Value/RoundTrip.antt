-- ===== src/Fragment/Value/RoundTrip.antt =====
-- A value that `set_value` writes is the one that `value` reads back; no other column changes.
use native.Mathlib.Nat.{mod-le}
use pilosa.Common.{
  ℕ, zero, suc, ◌+◌, ◌%◌, ◌^◌, ◌<◌, ◌≤◌, ◌≡◌, ◌≢◌, refl, sym, ap, ◌∙◌, Bool, true, false, not, ◌||◌,
  ◌==◌, if◌then◌else◌, none, some, arith, bit_at, low_part, low_part_of_lt, word64, pow-le-word64,
}
use pilosa.Common.Int.{ℤ, pos, leb_ℤ, abs_ℕ}
use pilosa.Fragment.Bsi.{bsi_exists_bit, bsi_sign_bit, bsi_offset_bit}
use pilosa.Fragment.Storage.{StorageOps}
use pilosa.Fragment.State.{ok, Fragment, ◌>>=◌, return, bit, place, min_column_id}
use pilosa.Fragment.State.Places.{
  IsShardWidth, RowFits-small, place_injective, place-mod, column_apart,
}
use pilosa.Fragment.State.Bits.{Written, InShard}
use pilosa.Fragment.Value.{
  value, read_bits, or_bit, put_bit, put_bits, set_value_base, set_value, clear_value,
}
use pilosa.Fragment.Value.Written.{>>=-eq-ok, put_bit-Written, Column, put_bits-Column}
use pilosa.Fragment.Value.Read.{low_part_zero, bit-eq-contains, read_bits-low_part}

module _ (D : StorageOps) (w : ℕ) where
  -- What a successful `set_value_base` leaves.
  pub record Valued (f g : Fragment D) (c depth : ℕ) (v : ℤ) (clear : Bool) : Type 0 where
    pub within : InShard D w f c
    pub shard : g.shard ≡ f.shard
    pub exists : D.contains g.storage (place w bsi_exists_bit c) ≡ not clear
    pub sign :
        D.contains g.storage (place w bsi_sign_bit c)
        ≡ (if leb_ℤ (pos 0) v || clear then false else true)
    pub magnitude :
        depth ≤ 63
        → (j : ℕ) → j < depth
        → D.contains g.storage (place w (bsi_offset_bit + j) c) ≡ (bit_at (abs_ℕ v) j == 1)
    pub others :
        (r d : ℕ)
        → InShard D w f d
        → d ≢ c
        → D.contains g.storage (place w r d) ≡ D.contains f.storage (place w r d)

  -- Columns of one shard have their own positions.
  columns_apart :
      (f : Fragment D) (c d r s : ℕ)
      → IsShardWidth w
      → InShard D w f c
      → InShard D w f d
      → place w r d ≡ place w s c
      → d ≡ c
  columns_apart f c d r s width h k e =
      let start = min_column_id D w f in
      let end = mod-le (start + w) word64 in
      column_apart w c d start (omega arith) (omega (arith, end)) (omega arith) (omega (arith, end))
        (sym (place-mod w r d width) ∙ ap (λ (t : ℕ). t % w) e ∙ place-mod w s c width)

  module _ (f g h k : Fragment D) (c depth : ℕ) (v : ℤ) (clear : Bool) (width : IsShardWidth w)
      (column : Column D w f g c 0 depth (abs_ℕ v))
      (exist : Written D w g h bsi_exists_bit c (if clear then false else true))
      (signed : Written D w h k bsi_sign_bit c
        (if leb_ℤ (pos 0) v || clear then false else true)) where
    abbrev P : ℕ → ℕ → ℕ
    P r d = place w r d

    apart : (r s : ℕ) → r ≤ 64 → s ≤ 64 → P r c ≡ P s c → r ≡ s
    apart r s small_r small_s e =
        place_injective w r s c c width (RowFits-small w r width small_r)
          (RowFits-small w s width small_s) e

    within_f : InShard D w f c
    within_f = rw (← column.shard) exist.within

    -- Away from the rows 0 and 1 of the column only the loop wrote.
    unwritten :
        (q : ℕ)
        → q ≢ P bsi_exists_bit c
        → q ≢ P bsi_sign_bit c
        → D.contains k.storage q ≡ D.contains g.storage q
    unwritten q a b = ground (arith, signed.bits q, exist.bits q)

    combine : Valued f k c depth v clear
    combine = record {
      within = within_f;
      shard = signed.shard ∙ exist.shard ∙ column.shard;
      exists =
          let ne : P bsi_exists_bit c ≢ P bsi_sign_bit c = λ e.
            absurd
              (omega (arith, apart bsi_exists_bit bsi_sign_bit (omega arith) (omega arith) e)) in
          ground (arith, signed.bits (P bsi_exists_bit c), exist.bits (P bsi_exists_bit c));
      sign = ground (arith, signed.bits (P bsi_sign_bit c));
      magnitude = λ shallow j high.
          unwritten (P (bsi_offset_bit + j) c)
            (λ e. absurd (
              omega
                (arith, apart (bsi_offset_bit + j) bsi_exists_bit (omega arith) (omega arith) e)))
            (λ e. absurd (
              omega (arith, apart (bsi_offset_bit + j) bsi_sign_bit (omega arith) (omega arith) e)))
          ∙ column.written (omega arith) j (omega arith) (omega arith);
      others = λ r d inside other.
          unwritten (P r d)
            (λ e. other (columns_apart f c d r bsi_exists_bit width within_f inside e))
            (λ e. other (columns_apart f c d r bsi_sign_bit width within_f inside e))
          ∙ column.others (P r d) (λ j low high e.
            other (columns_apart f c d r (bsi_offset_bit + j) width within_f inside e));
    }

  set_value_base-Valued :
      (c depth : ℕ) (v : ℤ) (clear : Bool) (f : Fragment D) {b : Bool}
      → IsShardWidth w
      → (set_value_base D w c depth v clear f).1 ≡ ok b
      → Valued f (set_value_base D w c depth v clear f).0 c depth v clear
  unfolding set_value_base
  set_value_base-Valued c depth v clear f width h =
      let bits = put_bits D w depth 0 c (abs_ℕ v) false in
      let exist = put_bit D w (if clear then false else true) bsi_exists_bit c in
      let sign = put_bit D w (if leb_ℤ (pos 0) v || clear then false else true) bsi_sign_bit c in
      let last = λ (b e : Bool). sign >>= (λ s. return (b || e || s)) in
      let (b1, ok1, e1) = >>=-eq-ok bits (λ b. exist >>= last b) f h in
      let g1 = (bits f).0 in
      let (b2, ok2, e2) = >>=-eq-ok exist (last b1) g1 (rw e1 at h) in
      let g2 = (exist g1).0 in
      let (b3, ok3, e3) = >>=-eq-ok sign (λ s. return (b1 || b2 || s)) g2 (rw e2 at (rw e1 at h)) in
      rw (e1, e2, e3)
        (combine f g1 g2 (sign g2).0 c depth v clear width
          (put_bits-Column D w depth 0 c (abs_ℕ v) false f width ok1)
          (put_bit-Written D w (if clear then false else true) bsi_exists_bit c g1 ok2)
          (put_bit-Written D w (if leb_ℤ (pos 0) v || clear then false else true) bsi_sign_bit c g2
            ok3))

  -- What `value` reads where the bits of a value stand.
  value_of_Valued :
      (f g : Fragment D) (c depth : ℕ) (v : ℤ)
      → depth ≤ 63
      → abs_ℕ v < 2 ^ depth
      → Valued f g c depth v false
      → value D w c depth g ≡ ok (some v)
  unfolding value
  value_of_Valued f g c depth v fits small h =
      let within : InShard D w g c = rw h.shard h.within in
      let start : low_part 0 (abs_ℕ v) ≡ 0 = low_part_zero (abs_ℕ v) in
      let whole : 0 + depth ≡ depth = omega arith in
      let room : 2 ^ (0 + depth) ≤ word64 = rw whole (pow-le-word64 depth fits) in
      ground (
        arith,
        bit-eq-contains D w bsi_exists_bit c g within,
        bit-eq-contains D w bsi_sign_bit c g within,
        read_bits-low_part D w depth 0 c (abs_ℕ v) g within room
            (λ j low high. h.magnitude fits j (omega arith)),
        start,
        whole,
        low_part_of_lt depth (abs_ℕ v) small,
        h.exists,
        h.sign,
      )

  -- A column of the shard reads the same before and after a write of another column.
  read_bits-eq :
      (f g : Fragment D) (d rounds i a : ℕ)
      → ((r : ℕ) → bit D w r d g ≡ bit D w r d f)
      → read_bits D w rounds i d a g ≡ read_bits D w rounds i d a f
  unfolding read_bits
  read_bits-eq f g d zero i a same = refl
  read_bits-eq f g d (suc rounds) i a same = ground (
    arith,
    same (bsi_offset_bit + i),
    read_bits-eq f g d rounds (i + 1) a same,
    read_bits-eq f g d rounds (i + 1) (or_bit a i) same,
  )

  value-eq :
      (f g : Fragment D) (d depth : ℕ)
      → ((r : ℕ) → bit D w r d g ≡ bit D w r d f)
      → value D w d depth g ≡ value D w d depth f
  unfolding value
  value-eq f g d depth same =
      ground (arith, same bsi_exists_bit, same bsi_sign_bit, read_bits-eq f g d depth 0 0 same)

  module _ (f : Fragment D) (c depth : ℕ) (v : ℤ) (width : IsShardWidth w) where
    -- With a shard width that is a power of two with an exponent of at most 32, at a bit depth of
    -- at most 63, for a value whose absolute value fits the depth, value reads back from a column
    -- what a successful setValue has written there.
    pub value-set_value :
        {b : Bool}
        → depth ≤ 63
        → abs_ℕ v < 2 ^ depth
        → (set_value D w c depth v f).1 ≡ ok b
        → value D w c depth (set_value D w c depth v f).0 ≡ ok (some v)
    unfolding set_value
    value-set_value fits small h =
        value_of_Valued f (set_value_base D w c depth v false f).0 c depth v fits small
          (set_value_base-Valued c depth v false f width h)

    -- With a shard width that is a power of two with an exponent of at most 32, after a successful
    -- clearValue of a column, value reports that the column holds none.
    pub value-clear_value :
        {b : Bool}
        → (clear_value D w c depth v f).1 ≡ ok b
        → value D w c depth (clear_value D w c depth v f).0 ≡ ok none
    unfolding clear_value value
    value-clear_value h =
        let r = set_value_base-Valued c depth v true f width h in
        let g = (set_value_base D w c depth v true f).0 in
        let within : InShard D w g c = rw r.shard r.within in
        ground (arith, bit-eq-contains D w bsi_exists_bit c g within, r.exists)

    -- With a shard width that is a power of two with an exponent of at most 32, a successful
    -- setValue or clearValue of one column leaves what value reads, at any depth, from every other
    -- column of the shard.
    pub value-set_value_other :
        {b : Bool} (clear : Bool) (d depth' : ℕ)
        → (set_value_base D w c depth v clear f).1 ≡ ok b
        → InShard D w f d
        → d ≢ c
        → value D w d depth' (set_value_base D w c depth v clear f).0 ≡ value D w d depth' f
    value-set_value_other clear d depth' h inside other =
        let r = set_value_base-Valued c depth v clear f width h in
        let g = (set_value_base D w c depth v clear f).0 in
        let inside' : InShard D w g d = rw r.shard inside in
        value-eq f g d depth' (λ s.
          bit-eq-contains D w s d g inside'
          ∙ ap ok (r.others s d inside other)
          ∙ sym (bit-eq-contains D w s d f inside))
