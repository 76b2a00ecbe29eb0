-- ===== src/Field/Values.antt =====
-- `SetValue` and `Value` of field.go, with `setValue` and `value` of view.go below them. A field
-- has its group, if it holds integers, and the fragments of that group's view by their shard. `w`
-- is the build's ShardWidth. Saving the field's metadata and opening a view or a fragment may fail.
pub mod RoundTrip
use pilosa.Common.{ℕ, ◌/◌, Bool, true, false, ◌==◌, ◌||◌, ltb, if◌then◌else◌, Option, none, some}
use pilosa.Common.Int.{ℤ, pos, ltb_ℤ, ◌+ℤ◌, ◌-ℤ◌}
use pilosa.Common.Int64.{int64, bits64}
use pilosa.Field.Depth.{bit_depth, bit_depth_int64}
use pilosa.Field.Group.{BsiGroup}
use pilosa.Fragment.Storage.{StorageOps}
use pilosa.Fragment.State.{Error, Outcome, ok, err, Fragment}
use pilosa.Fragment.Value
use pilosa.Fragment.Value.{set_value}

pub data Failure : Type 0 where
  group_not_found too_low too_high meta_not_saved view_not_opened fragment_not_opened : Failure
  in_fragment : Error → Failure

pub data Result {ℓ} (A : Type ℓ) : Type ℓ where
  done : A → Result A
  failed : Failure → Result A

abbrev pub of_outcome {ℓ} : {A : Type ℓ} → Outcome A → Result A
of_outcome (ok a) = done a
of_outcome (err e) = failed (in_fragment e)

pub record IntField (D : StorageOps) : Type 0 where
  pub group : Option BsiGroup
  pub has_view : Bool
  pub fragments : ℕ → Option (Fragment D)

-- What the file system answers: metadata saved, view opened, and the fragment opened for a shard.
pub record Disk (D : StorageOps) : Type 0 where
  pub saves_meta : Bool
  pub opens_view : Bool
  pub opens_fragment : ℕ → Option (Fragment D)

module _ (D : StorageOps) (w : ℕ) (disk : Disk D) where
  open disk use {saves_meta, opens_view, opens_fragment}

  abbrev pub with_fragment : ℕ → Fragment D → IntField D → IntField D
  with_fragment shard frag f = record f {
    has_view = true;
    fragments = λ s. if s == shard then some frag else f.fragments s;
  }

  -- `CreateFragmentIfNotExists`.
  abbrev pub fragment_of : IntField D → ℕ → Option (Fragment D)
  fragment_of f shard = elim (f.fragments shard) [
    | none ↦ opens_fragment shard
    | some frag ↦ some frag
  ]

  abbrev pub store_in : Option (Fragment D) → IntField D → ℕ → ℕ → ℤ → IntField D × Result Bool
  store_in none f column_id depth base = (record f { has_view = true }, failed fragment_not_opened)
  store_in (some frag) f column_id depth base =
      let (frag', changed) = set_value D w column_id depth base frag in
      (with_fragment (column_id / w) frag' f, of_outcome changed)

  -- `createViewIfNotExists`, then `view.setValue`.
  unfoldable pub store : IntField D → ℕ → ℕ → ℤ → IntField D × Result Bool
  store f column_id depth base =
      if f.has_view || opens_view
      then store_in (fragment_of f (column_id / w)) f column_id depth base
      else (f, failed view_not_opened)

  -- The depth that a value outgrows is raised before the metadata is saved.
  abbrev pub raised : BsiGroup → ℤ → ℤ → BsiGroup
  raised g value base =
      let uvalue = (if ltb_ℤ value (pos 0) then bits64 (int64 (pos 0 -ℤ base)) else bits64 base) in
      record g { bit_depth = bit_depth uvalue }

  -- `saveMeta`, and then the write.
  abbrev pub saved : Bool → IntField D → ℕ → ℕ → ℤ → IntField D × Result Bool
  saved false f column_id depth base = (f, failed meta_not_saved)
  saved true f column_id depth base = store f column_id depth base

  unfoldable pub set_in_group : BsiGroup → IntField D → ℕ → ℤ → IntField D × Result Bool
  set_in_group g f column_id value =
      let base = int64 (value -ℤ g.base) in
      let g' = raised g value base in
      let f' = record f { group = some g' } in
      if ltb_ℤ value g.min
      then (f, failed too_low)
      else if ltb_ℤ g.max value
      then (f, failed too_high)
      else if ltb g.bit_depth (bit_depth_int64 base)
      then saved saves_meta f' column_id g'.bit_depth base
      else store f column_id g.bit_depth base

  abbrev pub set_in : Option BsiGroup → IntField D → ℕ → ℤ → IntField D × Result Bool
  set_in none f column_id value = (f, failed group_not_found)
  set_in (some g) f column_id value = set_in_group g f column_id value

  unfoldable pub set_field_value : IntField D → ℕ → ℤ → IntField D × Result Bool
  set_field_value f column_id value = set_in f.group f column_id value

  abbrev pub add_base : BsiGroup → Outcome (Option ℤ) → Result (Option ℤ)
  add_base g (err e) = failed (in_fragment e)
  add_base g (ok none) = done none
  add_base g (ok (some v)) = done (some (int64 (v +ℤ g.base)))

  abbrev pub read_in :
      Option (Fragment D) → BsiGroup → IntField D → ℕ → IntField D × Result (Option ℤ)
  read_in none g f column_id = (f, failed fragment_not_opened)
  read_in (some frag) g f column_id = (
    with_fragment (column_id / w) frag f,
    add_base g (Value.value D w column_id g.bit_depth frag),
  )

  unfoldable pub read_in_group : BsiGroup → IntField D → ℕ → IntField D × Result (Option ℤ)
  read_in_group g f column_id =
      if f.has_view then read_in (fragment_of f (column_id / w)) g f column_id else (f, done none)

  -- The field, since a fragment may have been created, and the value.
  unfoldable pub field_value : IntField D → ℕ → IntField D × Result (Option ℤ)
  field_value f column_id = elim (f.group) [
    | none ↦ (f, failed group_not_found)
    | some g ↦ read_in_group g f column_id
  ]
