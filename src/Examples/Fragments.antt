-- ===== src/Examples/Fragments.antt =====
-- A fragment of shard 1 with a width of 8 columns, over a bitmap that is a function.
use pilosa.Common.{
  ℕ, zero, suc, ◌≡◌, refl, sym, ap, ◌+◌, ◌-◌, Bool, true, false, not, ◌&&◌, ◌||◌, ◌==◌, arith,
  Option, none, some, if◌then◌else◌, Bool-cases, inl, inr,
}
use pilosa.Common.Int.{negsuc}
use pilosa.Fragment.Storage.{StorageOps}
use pilosa.Fragment.State.{
  Fragment, ok, set_bit, clear_bit, set_stored, clear_stored, after_change, bit, position, place,
}
use pilosa.Fragment.State.Places.{IsShardWidth}
use pilosa.Fragment.State.Bits
use pilosa.Fragment.State.Bits.{RowCacheIsTrue}
use pilosa.Fragment.Value.{
  value, set_value, clear_value, set_value_base, read_bits, put_bit, put_bits,
}
use pilosa.Fragment.Value.RoundTrip

unfoldable pub count_from : (ℕ → Bool) → ℕ → ℕ → ℕ
count_from b zero lo = 0
count_from b (suc n) lo = (if b lo then 1 else 0) + count_from b n (lo + 1)

-- The parts of an answer of `add` or `remove`.
abbrev pub changed_of : Option (Bool × (ℕ → Bool)) → Bool
changed_of none = false
changed_of (some x) = x.0

abbrev pub bits_of : Option (Bool × (ℕ → Bool)) → ℕ → Bool
bits_of none q = false
bits_of (some x) q = x.1 q

pub bits_eq :
    (a c : Bool) (b b' : ℕ → Bool)
    → ◌≡◌ {A = Option (Bool × (ℕ → Bool))} (some (a, b)) (some (c, b'))
    → (q : ℕ) → b' q ≡ b q
bits_eq a c b b' e q = sym (ap (λ (o : Option (Bool × (ℕ → Bool))). bits_of o q) e)

pub changed_eq :
    (a c : Bool) (b b' : ℕ → Bool)
    → ◌≡◌ {A = Option (Bool × (ℕ → Bool))} (some (a, b)) (some (c, b'))
    → c ≡ a
changed_eq a c b b' e = sym (ap changed_of e)

abbrev pub D : StorageOps
D = record {
  Bitmap = ℕ → Bool;
  Cache = ℕ → ℕ;
  contains = λ b q. b q;
  add = λ b p. some (not (b p), λ q. q == p || b q);
  remove = λ b p. some (b p, λ q. not (q == p) && b q);
  count_range = λ b lo hi. count_from b (hi - lo) lo;
  cache_add = λ c r n s. if s == r then n else c s;
  contains-add = λ b p c b' e q. bits_eq (not (b p)) c (λ q. q == p || b q) b' e q;
  changed-add = λ b p c b' e. changed_eq (not (b p)) c (λ q. q == p || b q) b' e;
  contains-remove = λ b p c b' e q. bits_eq (b p) c (λ q. not (q == p) && b q) b' e q;
  changed-remove = λ b p c b' e. changed_eq (b p) c (λ q. not (q == p) && b q) b' e;
}

abbrev pub start : Fragment D
start = record {
  shard = 1;
  storage = λ q. false;
  cached = true;
  cache = λ r. 0;
  op_n = 0;
  ops = 0;
  max_op_n = 4;
  snapshots_requested = 0;
  snapshotting = false;
  enqueued = 0;
  max_row_id = 0;
  checksums = λ b. false;
  row_cache = λ r. none;
}

program : Unit {0}
unfolding set_bit clear_bit set_value clear_value value read_bits put_bit put_bits bit position
    set_stored clear_stored after_change count_from place
program = tt

pub eight-IsShardWidth : IsShardWidth 8
eight-IsShardWidth = (3, omega arith, refl)

stored : (set_value D 8 13 3 (negsuc 4) start).1 ≡ ok true
unfolding program
stored = refl

stored_base : (set_value_base D 8 13 3 (negsuc 4) false start).1 ≡ ok true
unfolding program set_value_base
stored_base = refl

cleared : (clear_value D 8 13 3 (negsuc 4) start).1 ≡ ok true
unfolding program
cleared = refl

value-set_value_example :
    value D 8 13 3 (set_value D 8 13 3 (negsuc 4) start).0 ≡ ok (some (negsuc 4))
value-set_value_example =
    RoundTrip.value-set_value D 8 start 13 3 (negsuc 4) eight-IsShardWidth (omega arith)
      (omega arith) stored

value-clear_value_example : value D 8 13 3 (clear_value D 8 13 3 (negsuc 4) start).0 ≡ ok none
value-clear_value_example =
    RoundTrip.value-clear_value D 8 start 13 3 (negsuc 4) eight-IsShardWidth cleared

value-set_value_other_example :
    value D 8 14 3 (set_value_base D 8 13 3 (negsuc 4) false start).0 ≡ value D 8 14 3 start
value-set_value_other_example =
    RoundTrip.value-set_value_other D 8 start 13 3 (negsuc 4) eight-IsShardWidth false 14 3
      stored_base (omega arith) (omega arith)

-- The bits of row 3 at column 14 and of row 4 at column 13.
abbrev stored_bits : ℕ → Bool
stored_bits q = q == 30 || q == 37

-- The columns of a row, as `row` reads them from the storage.
abbrev columns_of : ℕ → ℕ → Bool
columns_of r c = stored_bits (place 8 r c)

-- A fragment whose row cache holds the rows 3 and 4.
abbrev cached_rows : Fragment D
cached_rows = record start {
  storage = stored_bits;
  row_cache = λ r. if r == 3 || r == 4 then some (columns_of r) else none;
}

set : (set_bit D 8 4 12 cached_rows).1 ≡ ok true
unfolding program
set = refl

unset : (clear_bit D 8 4 13 cached_rows).1 ≡ ok true
unfolding program
unset = refl

some_columns :
    (a b : ℕ → Bool) → ◌≡◌ {A = Option (ℕ → Bool)} (some a) (some b) → (c : ℕ) → b c ≡ a c
some_columns a b e c = sym (ap (λ (o : Option (ℕ → Bool)). column o) e)
  where
    column : Option (ℕ → Bool) → Bool
    column none = false
    column (some columns) = columns c

cached_rows-RowCacheIsTrue : RowCacheIsTrue D 8 cached_rows
cached_rows-RowCacheIsTrue s columns e = elim (Bool-cases (s == 3 || s == 4)) [
  | inl held ↦
      let here : some (columns_of s) ≡ some columns = ground arith in
      (ground arith, λ c inside. some_columns (columns_of s) columns here c)
  | inr other ↦ absurd (ground arith)
]

set_bit-RowCacheIsTrue_example : RowCacheIsTrue D 8 (set_bit D 8 4 12 cached_rows).0
set_bit-RowCacheIsTrue_example =
    Bits.set_bit-RowCacheIsTrue D 8 4 12 cached_rows eight-IsShardWidth (omega arith) set
      cached_rows-RowCacheIsTrue

clear_bit-RowCacheIsTrue_example : RowCacheIsTrue D 8 (clear_bit D 8 4 13 cached_rows).0
clear_bit-RowCacheIsTrue_example =
    Bits.clear_bit-RowCacheIsTrue D 8 4 13 cached_rows eight-IsShardWidth (omega arith) unset
      cached_rows-RowCacheIsTrue
