-- ===== src/Field/Values/RoundTrip.antt =====
-- `Value` of field.go reads what `SetValue` has written.
use pilosa.Common.{
  ℕ, ◌/◌, ◌^◌, ◌<◌, ◌≤◌, ◌≡◌, refl, ap, sym, ◌∙◌, Bool, true, false, ◌||◌, ltb, if◌then◌else◌,
  Option, none, some, arith, Bool-cases, inl, inr,
}
use mathlib.Core.Path.{subst}
use pilosa.Common.Int.{ℤ, pos, pos_part, neg_part, abs_ℕ, ltb_ℤ, ◌+ℤ◌, ◌-ℤ◌}
use pilosa.Common.Int64.{int64, bits64, IsInt64, int64_of_fits}
use pilosa.Field.Depth.{bit_depth, bit_depth_int64, lt-bit_depth_int64}
use pilosa.Field.Group.{BsiGroup, bsi_base}
use pilosa.Fragment.Storage.{StorageOps}
use pilosa.Fragment.State.{Outcome, ok, err, Fragment}
use pilosa.Fragment.State.Places.{IsShardWidth}
use pilosa.Fragment.Value.{set_value}
use pilosa.Fragment.Value.RoundTrip.{value-set_value}
use pilosa.Field.Values.{
  done, of_outcome, IntField, Disk, fragment_of, store_in, store, raised, saved, set_in_group,
  set_in, set_field_value, read_in_group, field_value,
}

-- A depth computed from a number holds the number, in at most 63 bits.
depth_fits :
    (v : ℤ) → abs_ℕ v < 2 ^ 63 → (abs_ℕ v < 2 ^ bit_depth_int64 v) × (bit_depth_int64 v ≤ 63)
depth_fits v h = (
  ground (arith, lt-bit_depth_int64 v (bit_depth_int64 v) h),
  ground (arith, lt-bit_depth_int64 v 63 h),
)

-- A number below a power of two lies below the powers of the depths above.
fits_deeper : (v : ℤ) (k : ℕ) → abs_ℕ v < 2 ^ 63 → bit_depth_int64 v ≤ k → abs_ℕ v < 2 ^ k
fits_deeper v k h b = ground (arith, lt-bit_depth_int64 v k h)

of_outcome_done {ℓ} : {A : Type ℓ} (o : Outcome A) (a : A) → of_outcome o ≡ done a → o ≡ ok a
of_outcome_done (ok b) a e = ground arith
of_outcome_done (err x) a e = ground arith

-- The sign of the value is that of the value less the base, and its absolute value has the depth.
sign_lem :
    (min max base v : ℤ)
    → base ≡ bsi_base min max
    → ltb_ℤ v min ≡ false
    → ltb_ℤ max v ≡ false
    → (if ltb_ℤ v (pos 0) then pos_part (v -ℤ base) else neg_part (v -ℤ base)) ≡ 0
unfolding bsi_base ◌-ℤ◌
sign_lem min max base v e lo hi = ground arith

bits_pos : (z : ℤ) → neg_part z ≡ 0 → abs_ℕ z < 2 ^ 63 → bits64 z ≡ abs_ℕ z
bits_pos z e h = ground arith

bits_neg : (z : ℤ) → pos_part z ≡ 0 → abs_ℕ z < 2 ^ 63 → bits64 (int64 (pos 0 -ℤ z)) ≡ abs_ℕ z
unfolding int64 ◌-ℤ◌
bits_neg z e h = ground arith

add_back : (v b : ℤ) → v -ℤ b +ℤ b ≡ v
unfolding ◌-ℤ◌ ◌+ℤ◌
add_back v b = ground arith

module _ (D : StorageOps) (w : ℕ) (disk : Disk D) (width : IsShardWidth w) where
  store_in_lem :
      (m : Option (Fragment D)) (f : IntField D) (g : BsiGroup) (c : ℕ) (base : ℤ) (b : Bool)
      → f.group ≡ some g
      → g.bit_depth ≤ 63
      → abs_ℕ base < 2 ^ g.bit_depth
      → (store_in D w disk m f c g.bit_depth base).1 ≡ done b
      → (field_value D w disk (store_in D w disk m f c g.bit_depth base).0 c).1
        ≡ done (some (int64 (base +ℤ g.base)))
  unfolding field_value read_in_group
  store_in_lem none f g c base b e d s h = ground arith
  store_in_lem (some frag) f g c base b e d s h =
      let written =
        value-set_value D w frag c g.bit_depth base width d s
          (of_outcome_done (set_value D w c g.bit_depth base frag).1 b h) in
      ground (arith, written, e)

  store_lem :
      (f : IntField D) (g : BsiGroup) (c : ℕ) (base : ℤ) (b : Bool)
      → f.group ≡ some g
      → g.bit_depth ≤ 63
      → abs_ℕ base < 2 ^ g.bit_depth
      → (store D w disk f c g.bit_depth base).1 ≡ done b
      → (field_value D w disk (store D w disk f c g.bit_depth base).0 c).1
        ≡ done (some (int64 (base +ℤ g.base)))
  unfolding store
  store_lem f g c base b e d s = elim (Bool-cases (f.has_view || disk.opens_view)) [
    | inl k ↦ rw k (store_in_lem (fragment_of D w disk f (c / w)) f g c base b e d s)
    | inr k ↦ rw k (λ h. ground arith)
  ]

  saved_lem :
      (ready : Bool) (f : IntField D) (g : BsiGroup) (c : ℕ) (base : ℤ) (b : Bool)
      → f.group ≡ some g
      → g.bit_depth ≤ 63
      → abs_ℕ base < 2 ^ g.bit_depth
      → (saved D w disk ready f c g.bit_depth base).1 ≡ done b
      → (field_value D w disk (saved D w disk ready f c g.bit_depth base).0 c).1
        ≡ done (some (int64 (base +ℤ g.base)))
  saved_lem false f g c base b e d s h = ground arith
  saved_lem true f g c base b e d s h = store_lem f g c base b e d s h

  in_group :
      (f : IntField D) (g : BsiGroup) (c : ℕ) (v base : ℤ) (b : Bool)
      → f.group ≡ some g
      → g.bit_depth ≤ 63
      → abs_ℕ base < 2 ^ 63
      → int64 (v -ℤ g.base) ≡ base
      → (ltb_ℤ v g.min ≡ false
          → ltb_ℤ g.max v ≡ false
          → (raised D w disk g v base).bit_depth ≡ bit_depth_int64 base)
      → (set_in_group D w disk g f c v).1 ≡ done b
      → (field_value D w disk (set_in_group D w disk g f c v).0 c).1
        ≡ done (some (int64 (base +ℤ g.base)))
  unfolding set_in_group
  in_group f g c v base b e d s x r = elim (Bool-cases (ltb_ℤ v g.min)) [
    | inl k ↦ rw k (λ h. ground arith)
    | inr k ↦ elim (Bool-cases (ltb_ℤ g.max v)) [
      | inl l ↦ rw (k, l) (λ h. ground arith)
      | inr l ↦ elim (Bool-cases (ltb g.bit_depth (bit_depth_int64 base))) [
        | inl m ↦
            let g' = raised D w disk g v base in
            let deep = r k l in
            rw (k, l, x, m)
              (saved_lem disk.saves_meta (record f { group = some g' }) g' c base b refl
                (omega (arith, deep, (depth_fits base s).1)) (rw deep (depth_fits base s).0))
        | inr m ↦
            rw (k, l, x, m)
              (store_lem f g c base b e d (fits_deeper base g.bit_depth s (ground arith)))
      ]
    ]
  ]

  raised_depth :
      (g : BsiGroup) (v : ℤ)
      → g.base ≡ bsi_base g.min g.max
      → abs_ℕ (v -ℤ g.base) < 2 ^ 63
      → ltb_ℤ v g.min ≡ false
      → ltb_ℤ g.max v ≡ false
      → (raised D w disk g v (v -ℤ g.base)).bit_depth ≡ bit_depth_int64 (v -ℤ g.base)
  unfolding bit_depth_int64
  raised_depth g v e s lo hi = elim (Bool-cases (ltb_ℤ v (pos 0))) [
    | inl k ↦
        let z : pos_part (v -ℤ g.base) ≡ 0 =
          ground (arith, sign_lem g.min g.max g.base v e lo hi, k) in
        rw k (ap bit_depth (bits_neg (v -ℤ g.base) z s))
    | inr k ↦
        let z : neg_part (v -ℤ g.base) ≡ 0 =
          ground (arith, sign_lem g.min g.max g.base v e lo hi, k) in
        rw k (ap bit_depth (bits_pos (v -ℤ g.base) z s))
  ]

  -- With a shard width that is a power of two with an exponent of at most 32, on a field whose
  -- base is the one that bsiBase derives and whose bit depth is at most 63, and for an int64 that
  -- differs from the base by less than 2^63, Value returns the integer that a successful SetValue
  -- has written, whether or not SetValue had to raise the bit depth or to open the fragment.
  pub field_value-set_field_value :
      (f : IntField D) (g : BsiGroup) (c : ℕ) (v : ℤ) (b : Bool)
      → f.group ≡ some g
      → g.base ≡ bsi_base g.min g.max
      → g.bit_depth ≤ 63
      → IsInt64 v
      → abs_ℕ (v -ℤ g.base) < 2 ^ 63
      → (set_field_value D w disk f c v).1 ≡ done b
      → (field_value D w disk (set_field_value D w disk f c v).0 c).1 ≡ done (some v)
  unfolding set_field_value
  field_value-set_field_value f g c v b e is_base d i s = subst written_in (sym e) (λ h.
      in_group f g c v (v -ℤ g.base) b e d s (int64_of_fits (v -ℤ g.base) (ground (arith, s)))
        (raised_depth g v is_base s) h
      ∙ ap (λ z. done (some z)) (ap int64 (add_back v g.base) ∙ int64_of_fits v i))
    where
      written_in : Option BsiGroup → Type 0
      written_in m =
          (set_in D w disk m f c v).1 ≡ done b
          → (field_value D w disk (set_in D w disk m f c v).0 c).1 ≡ done (some v)
