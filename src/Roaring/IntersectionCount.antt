-- ===== src/Roaring/IntersectionCount.antt =====
-- `intersectionCount` and `countRange` of roaring/roaring.go for containers of every kind.
pub mod Kinds
pub mod Loops
pub mod Range
use Prim.Native.Nat.{bit_and}
use pilosa.Common.{
  ℕ, zero, suc, ◌+◌, List, [], ◌∷◌, Bool, true, false, ◌&&◌, ◌||◌, ltb, leb, ◌==◌, if◌then◌else◌,
  length, Option, none, some,
}
use pilosa.Common.Digits.{ones_count}
use pilosa.Roaring.Array.{intersection_count_array_array}
use pilosa.Roaring.Bitset.{bitmap_contains}
use pilosa.Roaring.Bitset.Range.{bitmap_count_range}
use pilosa.Roaring.Run.{Interval16, max_container_val, intersection_count_run_run}
use pilosa.Roaring.Run.Range.{run_count_range}
use pilosa.Roaring.Container.{Container, container_array, container_bitmap, container_run}
use pilosa.Roaring.Intersect.{cardinal}

unfoldable pub count_array_run : List ℕ → List Interval16 → ℕ → ℕ
count_array_run [] rs n = n
count_array_run (a ∷ as') [] n = n
count_array_run (a ∷ as') (r ∷ rs) n =
    let skip = count_array_run as' (r ∷ rs) n in
    let count = count_array_run as' (r ∷ rs) (n + 1) in
    let next = count_array_run (a ∷ as') rs n in
    if ltb a r.start then skip else if leb r.start a && leb a r.last then count else next

unfoldable pub count_array_bitmap : List ℕ → List ℕ → ℕ → ℕ
count_array_bitmap [] words n = n
count_array_bitmap (v ∷ vs) words n =
    count_array_bitmap vs words (n + (if bitmap_contains words v then 1 else 0))

-- `none` is a panic of `bitmapCountRange`.
unfoldable pub count_bitmap_run : List ℕ → List Interval16 → ℕ → Option ℕ
count_bitmap_run words [] n = some n
count_bitmap_run words (r ∷ rs) n = elim (bitmap_count_range words r.start (r.last + 1)) [
  | none ↦ none
  | some found ↦ count_bitmap_run words rs (n + found)
]

-- `popcountAndSlice`.
unfoldable pub popcount_and_slice : List ℕ → List ℕ → ℕ → ℕ
popcount_and_slice [] bs n = n
popcount_and_slice (a ∷ as') [] n = n
popcount_and_slice (a ∷ as') (b ∷ bs) n =
    popcount_and_slice as' bs (n + ones_count 64 (bit_and a b))

unfoldable pub count_kinds : Container → Container → Option ℕ
count_kinds (container_array xs) (container_array ys) = some (intersection_count_array_array xs ys)
count_kinds (container_array xs) (container_run rs n) = some (count_array_run xs rs 0)
count_kinds (container_array xs) (container_bitmap ws n) = some (count_array_bitmap xs ws 0)
count_kinds (container_run rs n) (container_array xs) = some (count_array_run xs rs 0)
count_kinds (container_run rs n) (container_run ss m) = some (intersection_count_run_run rs ss)
count_kinds (container_run rs n) (container_bitmap ws m) = count_bitmap_run ws rs 0
count_kinds (container_bitmap ws n) (container_array xs) = some (count_array_bitmap xs ws 0)
count_kinds (container_bitmap ws n) (container_run rs m) = count_bitmap_run ws rs 0
count_kinds (container_bitmap ws n) (container_bitmap vs m) = some (popcount_and_slice ws vs 0)

unfoldable pub intersection_count : Container → Container → Option ℕ
intersection_count a b =
    if cardinal a == max_container_val + 1
    then some (cardinal b)
    else if cardinal b == max_container_val + 1
    then some (cardinal a)
    else if cardinal a == 0 || cardinal b == 0
    then some 0
    else count_kinds a b

-- `arrayCountRange`: `sort.Search` for the first value not below `start`, and the loop from there.
unfoldable pub from_start : ℕ → List ℕ → List ℕ
from_start start [] = []
from_start start (v ∷ vs) = let rest = from_start start vs in if leb start v then v ∷ vs else rest

unfoldable pub count_until : ℕ → List ℕ → ℕ → ℕ
count_until end [] n = n
count_until end (v ∷ vs) n = let rest = count_until end vs (n + 1) in if leb end v then n else rest

unfoldable pub array_count_range : List ℕ → ℕ → ℕ → ℕ
array_count_range array start end = count_until end (from_start start array) 0

unfoldable pub count_range : Option Container → ℕ → ℕ → Option ℕ
count_range none start end = some 0
count_range (some (container_array xs)) start end = some (array_count_range xs start end)
count_range (some (container_run rs n)) start end = some (run_count_range rs start end)
count_range (some (container_bitmap ws n)) start end = bitmap_count_range ws start end

-- `Container.count`.
unfoldable pub count : Option Container → Option ℕ
count c = count_range c 0 (max_container_val + 1)
