-- ===== src/Fragment/State/Bits.antt =====
-- What `set_bit` and `clear_bit` do to the storage, and that the row cache stays true to it.
use pilosa.Common.{
  ℕ, ◌<◌, ◌≤◌, ◌≡◌, ◌≢◌, refl, sym, ap, ◌∙◌, ◌⊎◌, Bool, true, false, ◌==◌, if◌then◌else◌, Option,
  none, some, arith, Option-cases, inl, inr,
}
use pilosa.Fragment.Storage.{StorageOps}
use pilosa.Fragment.State.{
  Outcome, ok, Fragment, position, set_bit, clear_bit, set_stored, clear_stored, after_change,
  without, place, min_column_id, end_column_id,
}
use pilosa.Fragment.State.Places.{IsShardWidth, RowFits, place_injective}

module _ (D : StorageOps) (w : ℕ) where
  -- Whether a column lies in the fragment's shard.
  abbrev pub InShard : Fragment D → ℕ → Type 0
  InShard f c = (min_column_id D w f ≤ c) × (c < end_column_id D w f)

  -- What a change of one bit leaves of the storage: `op` decides the bit at `p`.
  pub record Changes (f g : Fragment D) (r c : ℕ) (value : Bool) : Type 0 where
    pub in_shard : InShard f c
    pub shard : g.shard ≡ f.shard
    pub bits :
        (q : ℕ)
        → D.contains g.storage q ≡ (if q == place w r c then value else D.contains f.storage q)

  pub position_of_InShard :
      (f : Fragment D) (r c : ℕ) → InShard f c → position D w f r c ≡ some (place w r c)
  unfolding position
  position_of_InShard f r c h = ground arith

  pub InShard-of_position :
      (f : Fragment D) (r c : ℕ) {p : ℕ}
      → position D w f r c ≡ some p
      → InShard f c × (p ≡ place w r c)
  unfolding position
  InShard-of_position f r c h = ground arith

  -- The parts of a fragment that the statements read.
  abbrev SameBits : Fragment D → Fragment D → Type 0
  SameBits f g = (g.storage ≡ f.storage) × (g.shard ≡ f.shard)

  after_change-SameBits :
      (r : ℕ) (f : Fragment D)
      → SameBits f (after_change D w r f)
        × ((after_change D w r f).row_cache ≡ without none r f.row_cache)
  unfolding after_change
  after_change-SameBits r f = ground arith

  -- A fragment after a write of row `r`, up to the counters and caches of counts.
  record Stored (f g : Fragment D) (r : ℕ) (changed : Bool) : Type 0 where
    storage : g.storage ≡ f.storage
    shard : g.shard ≡ f.shard
    row_cache : g.row_cache ≡ (if changed then without none r f.row_cache else f.row_cache)

  set_stored-Stored :
      (r : ℕ) (changed : Bool) (f : Fragment D) → Stored f (set_stored D w r changed f).0 r changed
  unfolding set_stored
  set_stored-Stored r false f = record { storage = refl; shard = refl; row_cache = refl }
  set_stored-Stored r true f =
      let (same, emptied) = after_change-SameBits r f in
      record { storage = same.0; shard = same.1; row_cache = emptied }

  clear_stored-Stored :
      (r : ℕ) (changed : Bool) (f : Fragment D)
      → Stored f (clear_stored D w r changed f).0 r changed
  unfolding clear_stored
  clear_stored-Stored r false f = record { storage = refl; shard = refl; row_cache = refl }
  clear_stored-Stored r true f =
      let (same, emptied) = after_change-SameBits r f in
      record { storage = same.0; shard = same.1; row_cache = emptied }

  -- A successful call found the column in the shard, wrote, and finished.
  abbrev Wrote :
      (ℕ → Bool → Fragment D → Fragment D × Outcome Bool)
      → Option (Bool × D.Bitmap)
      → Fragment D
      → ℕ
      → ℕ
      → Fragment D
      → Type 0
  Wrote finish written f r c g =
      InShard f c
      × ((changed : Bool) × (storage : D.Bitmap) × (written ≡ some (changed, storage))
          × (g ≡ (finish r changed (record f { storage = storage })).0))

  set_bit-Wrote :
      (r c : ℕ) (f : Fragment D) {b : Bool}
      → (set_bit D w r c f).1 ≡ ok b
      → Wrote (set_stored D w) (D.add f.storage (place w r c)) f r c (set_bit D w r c f).0
  unfolding set_bit
  set_bit-Wrote r c f h = elim (Option-cases (position D w f r c)) [
    | inl outside ↦ absurd (ground (arith, outside))
    | inr (p, inside) ↦
        let (within, e) = InShard-of_position f r c inside in
        elim (Option-cases (D.add f.storage p)) [
          | inl failed ↦ absurd (ground (arith, inside, failed))
          | inr ((changed, storage), done) ↦
              (within, (changed, storage, rw (← e) done, rw (inside, set_bit, done) refl))
        ]
  ]

  clear_bit-Wrote :
      (r c : ℕ) (f : Fragment D) {b : Bool}
      → (clear_bit D w r c f).1 ≡ ok b
      → Wrote (clear_stored D w) (D.remove f.storage (place w r c)) f r c (clear_bit D w r c f).0
  unfolding clear_bit
  clear_bit-Wrote r c f h = elim (Option-cases (position D w f r c)) [
    | inl outside ↦ absurd (ground (arith, outside))
    | inr (p, inside) ↦
        let (within, e) = InShard-of_position f r c inside in
        elim (Option-cases (D.remove f.storage p)) [
          | inl failed ↦ absurd (ground (arith, inside, failed))
          | inr ((changed, storage), done) ↦
              (within, (changed, storage, rw (← e) done, rw (inside, clear_bit, done) refl))
        ]
  ]

  -- What a write leaves of the bits, and what it did to the row cache.
  pub record Written (f g : Fragment D) (r c : ℕ) (value : Bool) : Type 0 where
    pub within : InShard f c
    pub shard : g.shard ≡ f.shard
    pub bits :
        (q : ℕ)
        → D.contains g.storage q ≡ (if q == place w r c then value else D.contains f.storage q)
    pub row_cache :
        (g.row_cache ≡ without none r f.row_cache)
        ⊎ (g.row_cache ≡ f.row_cache) × (D.contains f.storage (place w r c) ≡ value)

  -- A successful `set_bit` sets its bit alone.
  pub set_bit-Written :
      (r c : ℕ) (f : Fragment D) {b : Bool}
      → (set_bit D w r c f).1 ≡ ok b
      → Written f (set_bit D w r c f).0 r c true
  set_bit-Written r c f h =
      let (within, (changed, storage, done, e)) = set_bit-Wrote r c f h in
      let p = place w r c in
      let s = set_stored-Stored r changed (record f { storage = storage }) in
      rw e (record {
        within = within;
        shard = s.shard;
        bits =
            λ q. rw s.storage (ground (arith, D.contains-add f.storage p changed storage done q));
        row_cache = ground (arith, s.row_cache, D.changed-add f.storage p changed storage done);
      })

  -- A successful `clear_bit` clears its bit alone.
  pub clear_bit-Written :
      (r c : ℕ) (f : Fragment D) {b : Bool}
      → (clear_bit D w r c f).1 ≡ ok b
      → Written f (clear_bit D w r c f).0 r c false
  clear_bit-Written r c f h =
      let (within, (changed, storage, done, e)) = clear_bit-Wrote r c f h in
      let p = place w r c in
      let s = clear_stored-Stored r changed (record f { storage = storage }) in
      rw e (record {
        within = within;
        shard = s.shard;
        bits = λ q.
            rw s.storage (ground (arith, D.contains-remove f.storage p changed storage done q));
        row_cache = ground (arith, s.row_cache, D.changed-remove f.storage p changed storage done);
      })

  -- Every cached row has positions of its own, and the columns that the storage has.
  abbrev pub RowCacheIsTrue : Fragment D → Type 0
  RowCacheIsTrue f =
      (s : ℕ) (columns : ℕ → Bool)
      → f.row_cache s ≡ some columns
      → RowFits w s × ((c : ℕ) → InShard f c → columns c ≡ D.contains f.storage (place w s c))

  pub Written-RowCacheIsTrue :
      (f g : Fragment D) (r c : ℕ) (value : Bool)
      → IsShardWidth w
      → RowFits w r
      → Written f g r c value
      → RowCacheIsTrue f
      → RowCacheIsTrue g
  Written-RowCacheIsTrue f g r c value width fits h old s columns cached = elim h.row_cache [
    | inl e ↦
        let kept : (if s == r then none else f.row_cache s) ≡ some columns =
          sym (ap (λ (m : ℕ → Option (ℕ → Bool)). m s) e) ∙ cached in
        let other : s ≢ r = λ same. ground arith in
        let (fits_s, same_columns) = old s columns (ground arith) in
        (
          fits_s,
          λ d inside.
              let inside' : InShard f d = rw (← h.shard) inside in
              let apart : place w s d ≢ place w r c =
                λ same. other (place_injective w s r d c width fits_s fits same) in
              ground (arith, same_columns d inside', h.bits (place w s d)),
        )
    | inr (e, same) ↦
        let kept : f.row_cache s ≡ some columns =
          sym (ap (λ (m : ℕ → Option (ℕ → Bool)). m s) e) ∙ cached in
        let (fits_s, same_columns) = old s columns kept in
        (
          fits_s,
          λ d inside.
              let inside' : InShard f d = rw (← h.shard) inside in
              ground (arith, same_columns d inside', h.bits (place w s d)),
        )
  ]

  -- With a shard width that is a power of two with an exponent of at most 32, a successful
  -- unprotectedSetBit of a row whose positions lie below 2^64 keeps the invariant of the row
  -- cache: every cached row has its positions below 2^64 and, for each column of the shard, the
  -- bit that the storage has.
  pub set_bit-RowCacheIsTrue :
      (r c : ℕ) (f : Fragment D) {b : Bool}
      → IsShardWidth w
      → RowFits w r
      → (set_bit D w r c f).1 ≡ ok b
      → RowCacheIsTrue f
      → RowCacheIsTrue (set_bit D w r c f).0
  set_bit-RowCacheIsTrue r c f width fits h =
      Written-RowCacheIsTrue f (set_bit D w r c f).0 r c true width fits (set_bit-Written r c f h)

  -- With a shard width that is a power of two with an exponent of at most 32, a successful
  -- unprotectedClearBit of a row whose positions lie below 2^64 keeps the invariant of the row
  -- cache: every cached row has its positions below 2^64 and, for each column of the shard, the
  -- bit that the storage has.
  pub clear_bit-RowCacheIsTrue :
      (r c : ℕ) (f : Fragment D) {b : Bool}
      → IsShardWidth w
      → RowFits w r
      → (clear_bit D w r c f).1 ≡ ok b
      → RowCacheIsTrue f
      → RowCacheIsTrue (clear_bit D w r c f).0
  clear_bit-RowCacheIsTrue r c f width fits h =
      Written-RowCacheIsTrue f (clear_bit D w r c f).0 r c false width fits
        (clear_bit-Written r c f h)
