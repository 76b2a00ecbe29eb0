-- ===== src/Fragment/State.antt =====
-- A fragment of fragment.go and the operations that set and clear one bit of it, with all that
-- they update beside the storage. `w` is the build's ShardWidth. Statistics and log lines are left
-- out, and a fragment has a snapshot queue, as it has outside of tests.
pub mod Places
pub mod Bits
use pilosa.Common.{
  ℕ, zero, suc, ◌+◌, ◌*◌, ◌/◌, ◌%◌, Bool, true, false, ◌&&◌, ◌||◌, ltb, leb, ◌==◌, if◌then◌else◌,
  Option, none, some, word64,
}
use pilosa.Fragment.Storage.{StorageOps}

abbrev pub hash_block_size : ℕ
hash_block_size = 100

pub data Error : Type 0 where
  column_out_of_bounds write_failed : Error

pub data Outcome {ℓ} (A : Type ℓ) : Type ℓ where
  ok : A → Outcome A
  err : Error → Outcome A

pub record Fragment (D : StorageOps) : Type 0 where
  pub shard : ℕ
  pub storage : D.Bitmap
  pub cached : Bool
  pub cache : D.Cache
  pub op_n : ℕ
  pub ops : ℕ
  pub max_op_n : ℕ
  pub snapshots_requested : ℕ
  pub snapshotting : Bool
  -- How often the fragment was sent to the snapshot queue.
  pub enqueued : ℕ
  pub max_row_id : ℕ
  -- The blocks whose checksum is cached.
  pub checksums : ℕ → Bool
  -- The rows that the row cache holds, by their columns.
  pub row_cache : ℕ → Option (ℕ → Bool)

-- The operation of a method: the new fragment, and a value or an error.
abbrev pub M : StorageOps → Type 0 → Type 0
M D A = Fragment D → Fragment D × Outcome A

abbrev pub bind_outcome :
    {D : StorageOps} {A B : Type 0} → Fragment D × Outcome A → (A → M D B) → Fragment D × Outcome B
bind_outcome (f, ok a) k = k a f
bind_outcome (f, err e) k = (f, err e)

infixl 5 ◌>>=◌
abbrev pub ◌>>=◌ : {D : StorageOps} {A B : Type 0} → M D A → (A → M D B) → M D B
◌>>=◌ m k f = bind_outcome (m f) k

abbrev pub return : {D : StorageOps} {A : Type 0} → A → M D A
return a f = (f, ok a)

-- `delete(m, k)` on a Go map.
abbrev pub without {ℓ} : {A : Type ℓ} → A → ℕ → (ℕ → A) → ℕ → A
without nothing k m j = if j == k then nothing else m j

-- `pos`, a uint64: the rows r and r + 2^64/w share their positions.
unfoldable pub place : ℕ → ℕ → ℕ → ℕ
place w row_id column_id = (row_id * w + column_id % w) % word64

module _ (D : StorageOps) (w : ℕ) where
  -- `minColumnID`, and the bound that no column of the shard reaches.
  abbrev pub min_column_id : Fragment D → ℕ
  min_column_id f = f.shard * w % word64

  abbrev pub end_column_id : Fragment D → ℕ
  end_column_id f = (min_column_id f + w) % word64

  -- The position of a bit, if the column lies in the fragment's shard.
  unfoldable pub position : Fragment D → ℕ → ℕ → Option ℕ
  position f row_id column_id =
      if ltb column_id (min_column_id f) || leb (end_column_id f) column_id
      then none
      else some (place w row_id column_id)

  pub enqueue_snapshot : Fragment D → Fragment D
  enqueue_snapshot f = record f {
    snapshots_requested = f.snapshots_requested + 1;
    enqueued = (if f.snapshotting then f.enqueued else f.enqueued + 1);
    snapshotting = true;
  }

  pub increment_op_n : ℕ → Fragment D → Fragment D
  unfolding enqueue_snapshot
  increment_op_n changed f =
      let counted = record f { op_n = f.op_n + changed; ops = f.ops + 1 } in
      if changed == 0
      then f
      else if ltb f.max_op_n (f.op_n + changed)
      then enqueue_snapshot counted
      else counted

  -- What setting and clearing a bit share once the storage has changed.
  unfoldable pub after_change : ℕ → Fragment D → Fragment D
  unfolding increment_op_n
  after_change row_id f =
      let g =
        increment_op_n 1
          (record f { checksums = without false (row_id / hash_block_size) f.checksums }) in
      let n = D.count_range g.storage (row_id * w % word64) ((row_id + 1) * w % word64) in
      record g {
        cache = (if g.cached then D.cache_add g.cache row_id n else g.cache);
        row_cache = without none row_id g.row_cache;
      }

  -- `setBit` after the write: nothing more if the bit was set already.
  unfoldable pub set_stored : ℕ → Bool → M D Bool
  set_stored row_id false f = (f, ok false)
  set_stored row_id true f =
      let g = after_change row_id f in
      (
        record g { max_row_id = (if ltb g.max_row_id row_id then row_id else g.max_row_id) },
        ok true,
      )

  unfoldable pub set_bit : ℕ → ℕ → M D Bool
  set_bit row_id column_id f = elim (position f row_id column_id) [
    | none ↦ (f, err column_out_of_bounds)
    | some p ↦ elim (D.add f.storage p) [
      | none ↦ (f, err write_failed)
      | some (changed, storage) ↦ set_stored row_id changed (record f { storage = storage })
    ]
  ]

  unfoldable pub clear_stored : ℕ → Bool → M D Bool
  clear_stored row_id false f = (f, ok false)
  clear_stored row_id true f = (after_change row_id f, ok true)

  unfoldable pub clear_bit : ℕ → ℕ → M D Bool
  clear_bit row_id column_id f = elim (position f row_id column_id) [
    | none ↦ (f, err column_out_of_bounds)
    | some p ↦ elim (D.remove f.storage p) [
      | none ↦ (f, err write_failed)
      | some (changed, storage) ↦ clear_stored row_id changed (record f { storage = storage })
    ]
  ]

  unfoldable pub bit : ℕ → ℕ → Fragment D → Outcome Bool
  bit row_id column_id f = elim (position f row_id column_id) [
    | none ↦ err column_out_of_bounds
    | some p ↦ ok (D.contains f.storage p)
  ]
