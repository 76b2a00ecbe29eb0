-- ===== src/Roaring/Container.antt =====
-- The containers of roaring/roaring.go: membership, insertion and removal by the kind of the
-- container. A nil container is `none`. A container that is frozen is copied before it is changed
-- (`Thaw`); the functions here return the changed container.
pub mod Kinds
pub mod Sets
pub mod Removal
use pilosa.Common.{
  ℕ, ◌+◌, ◌-◌, List, [], ◌∷◌, Bool, true, false, not, ◌==◌, if◌then◌else◌, length, Option, none,
  some,
}
use pilosa.Roaring.Array.{array_max_size}
use pilosa.Roaring.Update.{
  array_contains, array_add, Added, present, added, to_bitmap, array_remove, Removed, absent,
  emptied, removed,
}
use pilosa.Roaring.Bitset.{
  bitmap_contains, bitmap_add, clear_word, array_to_bitmap, bitmap_to_array,
}
use pilosa.Roaring.Run.{Interval16, Output}
use pilosa.Roaring.Run.Update.{run_contains, run_add, run_remove}

pub data Container : Type 0 where
  container_array : List ℕ → Container
  container_bitmap : List ℕ → ℕ → Container
  container_run : List Interval16 → ℕ → Container

pub contains : Option Container → ℕ → Bool
contains none v = false
contains (some (container_array xs)) v = array_contains xs v
contains (some (container_bitmap words n)) v = bitmap_contains words v
contains (some (container_run runs n)) v = run_contains runs v

-- A changed bitmap or run container, with the report of the change.
abbrev pub as_bitmap : (List ℕ × ℕ) × Bool → Container × Bool
as_bitmap ((words, n), changed) = (container_bitmap words n, changed)

abbrev pub as_run : Output × Bool → Container × Bool
as_run ((runs, n), changed) = (container_run runs n, changed)

-- What `arrayAdd` returns, the change to a bitmap container included.
unfoldable pub add_to_array : List ℕ → ℕ → Added → Container × Bool
add_to_array xs v present = (container_array xs, false)
add_to_array xs v (added ys) = (container_array ys, true)
add_to_array xs v to_bitmap = as_bitmap (bitmap_add (array_to_bitmap xs) (length xs) v)

unfoldable pub add : Option Container → ℕ → Container × Bool
add none v = (container_array (v ∷ []), true)
add (some (container_array xs)) v = add_to_array xs v (array_add xs v)
add (some (container_bitmap words n)) v = as_bitmap (bitmap_add words n v)
add (some (container_run runs n)) v = as_run (run_add runs n v)

-- What `arrayRemove` returns.
unfoldable pub remove_from_array : List ℕ → Removed → Option Container × Bool
remove_from_array xs absent = (some (container_array xs), false)
remove_from_array xs emptied = (none, true)
remove_from_array xs (removed ys) = (some (container_array ys), true)

-- `bitmapRemove`, with the change to an array container at its end.
unfoldable pub shrunk_bitmap : List ℕ → ℕ → Container
shrunk_bitmap words n =
    if n == array_max_size
    then container_array (bitmap_to_array words)
    else container_bitmap words n

unfoldable pub bitmap_remove : List ℕ → ℕ → ℕ → Option Container × Bool
bitmap_remove words n v =
    if not (bitmap_contains words v)
    then (some (container_bitmap words n), false)
    else if n == 1
    then (none, true)
    else (some (shrunk_bitmap (clear_word words v) (n - 1)), true)

abbrev pub run_left : Option Output × Bool → Option Container × Bool
run_left (none, changed) = (none, changed)
run_left (some (runs, n), changed) = (some (container_run runs n), changed)

unfoldable pub remove : Option Container → ℕ → Option Container × Bool
remove none v = (none, false)
remove (some (container_array xs)) v = remove_from_array xs (array_remove xs v)
remove (some (container_bitmap words n)) v = bitmap_remove words n v
remove (some (container_run runs n)) v = run_left (run_remove runs n v)
