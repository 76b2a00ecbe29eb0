-- ===== src/Fragment/Value.antt =====
-- The value of one column of a bit-sliced integer field in fragment.go: read bit by bit, and
-- written bit by bit. Each operation stops at its first error; what was written before it stays.
pub mod Written
pub mod Read
pub mod RoundTrip
use pilosa.Common.{
  ℕ, zero, suc, ◌+◌, ◌^◌, Bool, true, false, ◌&&◌, ◌||◌, ◌==◌, if◌then◌else◌, Option, none, some,
  add64, shl1, bit_at,
}
use pilosa.Common.Int.{ℤ, pos, neg_ℤ, ltb_ℤ, leb_ℤ, abs_ℕ}
use pilosa.Fragment.Bsi.{bsi_exists_bit, bsi_sign_bit, bsi_offset_bit}
use pilosa.Fragment.Storage.{StorageOps}
use pilosa.Fragment.State.{
  Error, Outcome, ok, err, Fragment, M, ◌>>=◌, bind_outcome, return, set_bit, clear_bit, bit,
  position,
}

-- `value |= (1 << i)`.
abbrev pub or_bit : ℕ → ℕ → ℕ
or_bit value i = if bit_at value i == 1 then value else add64 value (shl1 i)

module _ (D : StorageOps) (w : ℕ) where
  -- The loop of `value` over the rounds left, from bit `i`.
  unfoldable pub read_bits : ℕ → ℕ → ℕ → ℕ → Fragment D → Outcome ℕ
  read_bits zero i column_id value f = ok value
  read_bits (suc rounds) i column_id value f = elim (bit D w (bsi_offset_bit + i) column_id f) [
    | err e ↦ err e
    | ok false ↦ read_bits rounds (i + 1) column_id value f
    | ok true ↦ read_bits rounds (i + 1) column_id (or_bit value i) f
  ]

  -- `none` is Go's `exists == false`.
  unfoldable pub value : ℕ → ℕ → Fragment D → Outcome (Option ℤ)
  value column_id depth f = elim (bit D w bsi_exists_bit column_id f) [
    | err e ↦ err e
    | ok false ↦ ok none
    | ok true ↦ elim (read_bits depth 0 column_id 0 f) [
      | err e ↦ err e
      | ok v ↦ elim (bit D w bsi_sign_bit column_id f) [
        | err e ↦ err e
        | ok negative ↦ ok (some (if negative then neg_ℤ (pos v) else pos v))
      ]
    ]
  ]

  -- Sets the bit if `on`, else clears it.
  unfoldable pub put_bit : Bool → ℕ → ℕ → M D Bool
  put_bit true row_id column_id = set_bit D w row_id column_id
  put_bit false row_id column_id = clear_bit D w row_id column_id

  -- The loop of `setValueBase`.
  unfoldable pub put_bits : ℕ → ℕ → ℕ → ℕ → Bool → M D Bool
  put_bits zero i column_id uvalue changed = return changed
  put_bits (suc rounds) i column_id uvalue changed = do
    c ← put_bit (bit_at uvalue i == 1) (bsi_offset_bit + i) column_id
    put_bits rounds (i + 1) column_id uvalue (changed || c)

  unfoldable pub set_value_base : ℕ → ℕ → ℤ → Bool → M D Bool
  set_value_base column_id depth v clear = do
    bits ← put_bits depth 0 column_id (abs_ℕ v) false
    exists ← put_bit (if clear then false else true) bsi_exists_bit column_id
    sign ← put_bit (if leb_ℤ (pos 0) v || clear then false else true) bsi_sign_bit column_id
    return (bits || exists || sign)

  unfoldable pub set_value : ℕ → ℕ → ℤ → M D Bool
  unfolding set_value_base
  set_value column_id depth v = set_value_base column_id depth v false

  unfoldable pub clear_value : ℕ → ℕ → ℤ → M D Bool
  unfolding set_value_base
  clear_value column_id depth v = set_value_base column_id depth v true
