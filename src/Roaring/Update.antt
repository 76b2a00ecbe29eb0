-- ===== src/Roaring/Update.antt =====
-- Membership, insertion and removal in an array container of roaring/roaring.go. `N()` of an array
-- container is the length of its array.
pub mod Sets
use pilosa.Common.{
  ℕ, zero, suc, ◌+◌, ◌-◌, List, [], ◌∷◌, ◌++◌, Bool, true, false, ◌&&◌, ltb, leb, ◌==◌,
  if◌then◌else◌, length, get_or, take, drop,
}
use pilosa.Roaring.Array.{array_max_size}
use pilosa.Roaring.Search.{Found, at, gap, search32}

pub array_contains : List ℕ → ℕ → Bool
array_contains array v = elim (search32 array v) [ at i ↦ true | gap i ↦ false ]

-- What `arrayAdd` did: the container as it was, a new array, or a change to a bitmap container,
-- which `bitmapAdd` then changes.
pub data Added : Type 0 where
  present : Added
  added : List ℕ → Added
  to_bitmap : Added

unfoldable pub array_add : List ℕ → ℕ → Added
array_add array v =
    let n = length array in
    if ltb 0 n && ltb n array_max_size && ltb (get_or array (n - 1) 0) v
    then added (array ++ v ∷ [])
    else elim (search32 array v) [
      | at i ↦ present
      | gap i ↦ if leb array_max_size n then to_bitmap else added (take i array ++ v ∷ drop i array)
    ]

-- What `arrayRemove` did: the container as it was, none left (Go's nil), or a new array.
pub data Removed : Type 0 where
  absent : Removed
  emptied : Removed
  removed : List ℕ → Removed

unfoldable pub array_remove : List ℕ → ℕ → Removed
array_remove array v = elim (search32 array v) [
  | gap i ↦ absent
  | at i ↦ if length array == 1 then emptied else removed (take i array ++ drop (i + 1) array)
]
