-- ===== src/Roaring/Union.antt =====
-- `union` of roaring/roaring.go for containers of every kind.
pub mod Range
pub mod Ones
pub mod Words
pub mod Sets
use Prim.Native.Nat.{bit_and, bit_or}
use pilosa.Common.{
  ℕ, zero, suc, ◌+◌, ◌-◌, ◌/◌, ◌%◌, List, [], ◌∷◌, Bool, ◌||◌, ltb, ◌==◌, if◌then◌else◌, length,
}
use pilosa.Common.Digits.{ones_count}
use pilosa.Common.Shifts.{shl64, shr64}
use pilosa.Roaring.Array.{array_max_size, union_array_array}
use pilosa.Roaring.Bitset.{word_at, with_word, bitmap_add}
use pilosa.Roaring.Run.{Interval16, Output, max_container_val, union_run_run, union_array_run}
use pilosa.Roaring.Container.{Container, container_array, container_bitmap, container_run}
use pilosa.Roaring.Intersect.{
  cardinal, run_max_size, run_to_array, run_to_bitmap, Counted, as_counted,
}

-- `maxBitmap`, a word of ones.
abbrev pub max_bitmap : ℕ
max_bitmap = 0xffff_ffff_ffff_ffff

-- `|=` on one word, where `gained` is the growth of the count.
unfoldable pub or_word : ℕ → ℕ → ℕ → Counted → Counted
or_word i mask gained (words, n) =
    let old = word_at words i in
    (with_word words i (bit_or old mask), n + (gained - ones_count 64 (bit_and old mask)))

-- The words between the first and the last of a range, with the rounds left.
unfoldable pub fill_words : ℕ → ℕ → Counted → Counted
fill_words zero i out = out
fill_words (suc rounds) i (words, n) =
    fill_words rounds (suc i)
      (with_word words i max_bitmap, n + (64 - ones_count 64 (word_at words i)))

-- `bitmapSetRange`, where `j` is at least one.
unfoldable pub set_range : ℕ → ℕ → Counted → Counted
set_range i j out =
    let x = i / 64 in
    let y = (j - 1) / 64 in
    let front = shl64 max_bitmap (i % 64) in
    let back = shr64 max_bitmap (63 - (j - 1) % 64) in
    if x == y
    then or_word x (bit_and front back) (j - i) out
    else or_word y back (ones_count 64 back)
        (fill_words (y - suc x) (suc x) (or_word x front (ones_count 64 front) out))

unfoldable pub union_bitmap_run : Counted → List Interval16 → Counted
union_bitmap_run out [] = out
union_bitmap_run out (r ∷ runs) = union_bitmap_run (set_range r.start (r.last + 1) out) runs

unfoldable pub union_array_bitmap : List ℕ → Counted → Counted
union_array_bitmap [] out = out
union_array_bitmap (v ∷ vs) (words, n) = union_array_bitmap vs (bitmap_add words n v).0

unfoldable pub union_words : List ℕ → List ℕ → Counted
union_words [] bs = ([], 0)
union_words (a ∷ as') [] = ([], 0)
union_words (a ∷ as') (b ∷ bs) =
    let (words, n) = union_words as' bs in (bit_or a b ∷ words, ones_count 64 (bit_or a b) + n)

-- The ends of `unionRunRun` and `unionArrayRun`: the kind of container that suits the runs.
unfoldable pub shorten_runs : Output → Container
shorten_runs (runs, n) =
    if ltb run_max_size (length runs)
    then container_bitmap (run_to_bitmap runs n) n
    else container_run runs n

unfoldable pub fit_union : Output → Container
unfolding shorten_runs
fit_union (runs, n) =
    if ltb n array_max_size then container_array (run_to_array runs n) else shorten_runs (runs, n)

-- By the kinds of two containers.
unfoldable pub union_kinds : Container → Container → Container
union_kinds (container_array xs) (container_array ys) = container_array (union_array_array xs ys)
union_kinds (container_array xs) (container_run rs n) = fit_union (union_array_run xs rs)
union_kinds (container_array xs) (container_bitmap ws n) =
    as_counted (union_array_bitmap xs (ws, n))
union_kinds (container_run rs n) (container_array xs) = fit_union (union_array_run xs rs)
union_kinds (container_run rs n) (container_run ss m) = shorten_runs (union_run_run rs ss)
union_kinds (container_run rs n) (container_bitmap ws m) = as_counted (union_bitmap_run (ws, m) rs)
union_kinds (container_bitmap ws n) (container_array xs) =
    as_counted (union_array_bitmap xs (ws, n))
union_kinds (container_bitmap ws n) (container_run rs m) = as_counted (union_bitmap_run (ws, n) rs)
union_kinds (container_bitmap ws n) (container_bitmap vs m) = as_counted (union_words ws vs)

-- `fullContainer`.
abbrev pub full_container : Container
full_container =
    container_run (record { start = 0; last = max_container_val } ∷ []) (max_container_val + 1)

unfoldable pub union : Container → Container → Container
union a b =
    if cardinal a == max_container_val + 1 || cardinal b == max_container_val + 1
    then full_container
    else union_kinds a b
