-- ===== src/Roaring/Intersect.antt =====
-- `intersect` of roaring/roaring.go for containers of every kind, with the conversions of run
-- containers that it ends in.
pub mod Values
pub mod Part
pub mod Masked
pub mod Runs
pub mod Kept
pub mod Sets
use Prim.Native.Nat.{bit_and, bit_or}
use pilosa.Common.{
  ℕ, zero, suc, ◌+◌, ◌-◌, ◌*◌, ◌/◌, List, [], ◌∷◌, ◌++◌, Bool, true, false, ◌&&◌, ◌||◌, ltb, leb,
  ◌==◌, if◌then◌else◌, length, Option, none, some,
}
use pilosa.Common.Digits.{ones_count}
use pilosa.Common.Shifts.{shl64, shr64}
use pilosa.Roaring.Array.{array_max_size, intersect_array_array}
use pilosa.Roaring.Bitset.{bitmap_n, word_at, with_word, bitmap_contains, zeros, set_all}
use pilosa.Roaring.Run.{
  Interval16, runlen, Output, max_container_val, intersect_run_run, intersect_array_run,
}
use pilosa.Roaring.Container.{Container, container_array, container_bitmap, container_run}

abbrev pub run_max_size : ℕ
run_max_size = 2048

-- `N()`.
abbrev pub cardinal : Container → ℕ
cardinal (container_array xs) = length xs
cardinal (container_bitmap words n) = n
cardinal (container_run runs n) = n

-- The values that a loop over a run takes, and those of all runs.
abbrev pub values_from : ℕ → ℕ → List ℕ
values_from zero v = []
values_from (suc rounds) v = v ∷ values_from rounds (suc v)

abbrev pub run_values : List Interval16 → List ℕ
run_values [] = []
run_values (r ∷ runs) = values_from (runlen r) r.start ++ run_values runs

-- `runToArray` and `runToBitmap`, for the array and for the words.
unfoldable pub run_to_array : List Interval16 → ℕ → List ℕ
run_to_array runs n = if n == 0 then [] else run_values runs

unfoldable pub run_to_bitmap : List Interval16 → ℕ → List ℕ
run_to_bitmap runs n = if n == 0 then zeros bitmap_n else set_all (zeros bitmap_n) (run_values runs)

-- The end of `intersectRunRun`: the kind of container that suits the runs.
unfoldable pub fit_runs : Output → Container
fit_runs (runs, n) =
    if ltb n array_max_size && ltb (n / 2) (length runs)
    then container_array (run_to_array runs n)
    else if ltb run_max_size (length runs)
    then container_bitmap (run_to_bitmap runs n) n
    else container_run runs n

-- The values of an array that a bitmap contains.
unfoldable pub keep_contained : List ℕ → List ℕ → List ℕ
keep_contained words [] = []
keep_contained words (v ∷ vs) =
    let rest = keep_contained words vs in if bitmap_contains words v then v ∷ rest else rest

unfoldable pub intersect_array_bitmap : List ℕ → List ℕ → List ℕ
unfolding keep_contained
intersect_array_bitmap array words = keep_contained words array

unfoldable pub intersect_words : List ℕ → List ℕ → List ℕ × ℕ
intersect_words [] bs = ([], 0)
intersect_words (a ∷ as') [] = ([], 0)
intersect_words (a ∷ as') (b ∷ bs) =
    let (words, n) = intersect_words as' bs in
    (bit_and a b ∷ words, ones_count 64 (bit_and a b) + n)

-- The bits of the word of values from `first` on that lie in a run: the four cases of the loop of
-- `intersectBitmapRun`.
unfoldable pub part_of_word : ℕ → ℕ → Interval16 → ℕ
part_of_word word first iv =
    let last = first + 63 in
    let front = 64 - (1 + last - iv.start) in
    let back = 64 - (1 + iv.last - first) in
    if leb iv.start first && leb last iv.last
    then word
    else if leb first iv.start && leb iv.last last
    then bit_and word (shl64 (shl64 1 (iv.last - iv.start + 1) - 1) (iv.start - first))
    else if ltb first iv.start
    then shl64 (shr64 word front) front
    else if ltb iv.start first
    then shr64 (shl64 word back) back
    else 0

-- What the loop writes into the word of the output.
unfoldable pub written_word : ℕ → ℕ → ℕ → Interval16 → ℕ
written_word out word first iv =
    if leb iv.start first && leb (first + 63) iv.last
    then word
    else bit_or out (part_of_word word first iv)

-- Words and a count of ones.
abbrev pub Counted : Type 0
Counted = List ℕ × ℕ

unfoldable pub write_word : List ℕ → Interval16 → ℕ → Counted → Counted
write_word words iv i (out, n) =
    let word = word_at words i in
    (
      with_word out i (written_word (word_at out i) word (i * 64) iv),
      n + ones_count 64 (part_of_word word (i * 64) iv),
    )

-- The loop over the words of a run, and over the runs.
unfoldable pub mask_run : ℕ → List ℕ → Interval16 → ℕ → Counted → Counted
mask_run zero words iv i out = out
mask_run (suc rounds) words iv i out =
    let next = mask_run rounds words iv (suc i) (write_word words iv i out) in
    if leb iv.start (i * 64 + 63) && leb (i * 64) iv.last then next else out

unfoldable pub mask_runs : List ℕ → List Interval16 → Counted → Counted
mask_runs words [] out = out
mask_runs words (iv ∷ runs) out =
    let i = iv.start / 64 in mask_runs words runs (mask_run (bitmap_n - i) words iv i out)

unfoldable pub as_counted : Counted → Container
as_counted (words, n) = container_bitmap words n

unfoldable pub intersect_bitmap_run : List ℕ → ℕ → List Interval16 → ℕ → Container
intersect_bitmap_run words n runs m =
    if leb m array_max_size || leb n array_max_size
    then container_array (keep_contained words (run_values runs))
    else as_counted (mask_runs words runs (zeros bitmap_n, 0))

-- By the kinds of two containers.
unfoldable pub intersect_kinds : Container → Container → Container
intersect_kinds (container_array xs) (container_array ys) =
    container_array (intersect_array_array xs ys)
intersect_kinds (container_array xs) (container_run rs n) =
    container_array (intersect_array_run xs rs)
intersect_kinds (container_array xs) (container_bitmap ws n) =
    container_array (intersect_array_bitmap xs ws)
intersect_kinds (container_run rs n) (container_array xs) =
    container_array (intersect_array_run xs rs)
intersect_kinds (container_run rs n) (container_run ss m) = fit_runs (intersect_run_run rs ss)
intersect_kinds (container_run rs n) (container_bitmap ws m) = intersect_bitmap_run ws m rs n
intersect_kinds (container_bitmap ws n) (container_array xs) =
    container_array (intersect_array_bitmap xs ws)
intersect_kinds (container_bitmap ws n) (container_run rs m) = intersect_bitmap_run ws n rs m
intersect_kinds (container_bitmap ws n) (container_bitmap vs m) = as_counted (intersect_words ws vs)

unfoldable pub intersect : Container → Container → Option Container
intersect a b =
    if cardinal a == max_container_val + 1
    then some b
    else if cardinal b == max_container_val + 1
    then some a
    else if cardinal a == 0 || cardinal b == 0
    then none
    else some (intersect_kinds a b)
