-- ===== src/Examples/Kinds.antt =====
-- Containers of different kinds at concrete inputs.
use pilosa.Common.{ℕ, ◌≡◌, refl, ◌&&◌, arith, leb, some}
use pilosa.Roaring.Size.{size}
use pilosa.Roaring.Bitset.{array_to_bitmap}
use pilosa.Roaring.Container.{Container, container_bitmap, container_run, add, remove}
use pilosa.Roaring.Container.Kinds.{container_width, IsArray, IsContainer, members}
use pilosa.Roaring.Container.Sets.{Adds, add-Adds, array_to_bitmap-IsBitmap}
use pilosa.Roaring.Container.Removal.{Removes, remove-Removes}
use pilosa.Roaring.Intersect.{intersect}
use pilosa.Roaring.Intersect.Sets.{common, IsIntersection, intersect-IsIntersection}
use pilosa.Roaring.Intersect.Values.{Holds}
use pilosa.Roaring.Union.{union}
use pilosa.Roaring.Union.Sets.{either, union-Holds}
use pilosa.Roaring.IntersectionCount.{intersection_count, count_range}
use pilosa.Roaring.IntersectionCount.Kinds.{cardinal?, intersection_count-eq-size}
use pilosa.Roaring.IntersectionCount.Range.{count_range-eq-size}
use pilosa.Examples.Runs.{left, left-RunsFrom, values, values-AscendingFrom}

abbrev runs : Container
runs = container_run left 15

runs-IsContainer : IsContainer (some runs)
runs-IsContainer = (left-RunsFrom, refl)

values-IsArray : IsArray values
values-IsArray = (values-AscendingFrom, λ c e. ground arith)

abbrev words : Container
words = container_bitmap (array_to_bitmap values) 3

words-IsContainer : IsContainer (some words)
words-IsContainer = (array_to_bitmap-IsBitmap values values-IsArray).0

intersect-IsIntersection_example : IsIntersection words runs (intersect words runs)
intersect-IsIntersection_example =
    intersect-IsIntersection words runs words-IsContainer runs-IsContainer

union-Holds_example : Holds (either words runs) (union words runs)
union-Holds_example = union-Holds words runs words-IsContainer runs-IsContainer

intersection_count-eq-size_example :
    (intersection_count words runs ≡ some (size (common words runs) container_width))
    × (intersection_count words runs ≡ some (cardinal? (intersect words runs)))
intersection_count-eq-size_example =
    intersection_count-eq-size words runs words-IsContainer runs-IsContainer

add-Adds_example : Adds 10 (some runs) (add (some runs) 10)
add-Adds_example = add-Adds (some runs) 10 runs-IsContainer (omega arith)

remove-Removes_example : Removes 15 (some runs) (remove (some runs) 15)
remove-Removes_example = remove-Removes (some runs) 15 runs-IsContainer (omega arith)

count_range-eq-size_example :
    count_range (some runs) 2 14 ≡ some (size (λ (u : ℕ). leb 2 u && members (some runs) u) 14)
count_range-eq-size_example =
    count_range-eq-size (some runs) 2 14 runs-IsContainer (omega arith) (omega arith) (omega arith)
      (refl, (refl, (refl, tt)))
