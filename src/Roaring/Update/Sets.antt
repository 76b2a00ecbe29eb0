-- ===== src/Roaring/Update/Sets.antt =====
-- Adding to and removing from an array container changes the set by that value alone, and keeps
-- the array ascending.
use pilosa.Common.{
  ℕ, zero, suc, ◌+◌, ◌-◌, ◌<◌, ◌≤◌, ◌≡◌, refl, List, [], ◌∷◌, ◌++◌, Bool, true, false, not, ◌&&◌,
  ◌||◌, arith, length, ltb, leb, get_or, take, drop, if◌then◌else◌, ◌==◌, Bool-cases, inl, inr,
  ltb→lt, leb→le,
}
use pilosa.Roaring.Sorted.{AscendingFrom, mem, mem_below, AscendingFrom-weaken}
use pilosa.Roaring.Array.{array_max_size}
use pilosa.Roaring.Search.Rank.{rank, get_from}
use pilosa.Roaring.Search.Binary.{search32-Answer}
use pilosa.Roaring.Update.{
  array_contains, array_add, Added, present, added, to_bitmap, array_remove, Removed, absent,
  emptied, removed,
}

pub array_contains-eq-mem :
    (xs : List ℕ) (v : ℕ) → AscendingFrom 0 xs → array_contains xs v ≡ mem v xs
unfolding array_contains
array_contains-eq-mem xs v p = ground (arith, search32-Answer xs v p)

abbrev pub insert_at_rank : ℕ → List ℕ → List ℕ
insert_at_rank v xs = take (rank xs v) xs ++ v ∷ drop (rank xs v) xs

abbrev pub remove_at_rank : ℕ → List ℕ → List ℕ
remove_at_rank v xs = take (rank xs v) xs ++ drop (suc (rank xs v)) xs

mem-insert_at_rank : (v c : ℕ) (xs : List ℕ) → mem c (insert_at_rank v xs) ≡ (c == v || mem c xs)
unfolding rank
mem-insert_at_rank v c [] = ground arith
mem-insert_at_rank v c (x ∷ xs) = ground (arith, mem-insert_at_rank v c xs)

insert_at_rank-AscendingFrom :
    (lo v : ℕ) (xs : List ℕ)
    → lo ≤ v
    → mem v xs ≡ false
    → AscendingFrom lo xs
    → AscendingFrom lo (insert_at_rank v xs)
unfolding rank
insert_at_rank-AscendingFrom lo v [] h k p = (h, tt)
insert_at_rank-AscendingFrom lo v (x ∷ xs) h k p = elim (Bool-cases (ltb x v)) [
  | inl below ↦
      rw below
        (p.0, insert_at_rank-AscendingFrom (suc x) v xs (ltb→lt x v below) (ground arith) p.1)
  | inr above ↦ rw above (h, (ground arith, p.1))
]

mem-remove_at_rank :
    (lo v c : ℕ) (xs : List ℕ)
    → AscendingFrom lo xs
    → mem v xs ≡ true
    → mem c (remove_at_rank v xs) ≡ (not (c == v) && mem c xs)
unfolding rank
mem-remove_at_rank lo v c [] p k = ground arith
mem-remove_at_rank lo v c (x ∷ xs) p k = ground (
  arith,
  mem-remove_at_rank (suc x) v c xs p.1,
  mem_below (suc x) v xs p.1,
  mem_below (suc x) c xs p.1,
)

remove_at_rank-AscendingFrom :
    (lo v : ℕ) (xs : List ℕ)
    → mem v xs ≡ true
    → AscendingFrom lo xs
    → AscendingFrom lo (remove_at_rank v xs)
unfolding rank
remove_at_rank-AscendingFrom lo v [] k p = tt
remove_at_rank-AscendingFrom lo v (x ∷ xs) k p = elim (Bool-cases (ltb x v)) [
  | inl below ↦ rw below (p.0, remove_at_rank-AscendingFrom (suc x) v xs (ground arith) p.1)
  | inr above ↦ rw above (AscendingFrom-weaken lo (suc x) xs (omega arith) p.1)
]

-- The fast path of `arrayAdd` appends where the insertion would.
append-eq-insert_at_rank :
    (lo v n : ℕ) (xs : List ℕ)
    → AscendingFrom lo xs
    → length xs ≡ suc n
    → get_or xs n 0 < v
    → (xs ++ v ∷ [] ≡ insert_at_rank v xs) × (mem v xs ≡ false)
unfolding rank
append-eq-insert_at_rank lo v n [] p e h = absurd (omega arith)
append-eq-insert_at_rank lo v zero (x ∷ []) p e h = ground arith
append-eq-insert_at_rank lo v zero (x ∷ y ∷ xs) p e h = absurd (omega arith)
append-eq-insert_at_rank lo v (suc n) (x ∷ []) p e h = absurd (omega arith)
append-eq-insert_at_rank lo v (suc n) (x ∷ y ∷ xs) p e h =
    ground
      (arith, append-eq-insert_at_rank (suc x) v n (y ∷ xs) p.1, get_from (suc x) (y ∷ xs) n p.1)

-- What `arrayAdd` answers: nothing for a member, a bitmap for a full array, and else the value is
-- inserted at its rank.
abbrev Added-rank : List ℕ → ℕ → Added
Added-rank xs v =
    if mem v xs
    then present
    else if leb array_max_size (length xs)
    then to_bitmap
    else added (insert_at_rank v xs)

abbrev fast_path : List ℕ → ℕ → Bool
fast_path xs v =
    ltb 0 (length xs) && ltb (length xs) array_max_size && ltb (get_or xs (length xs - 1) 0) v

fast_path_inserts :
    (xs : List ℕ) (v : ℕ)
    → AscendingFrom 0 xs
    → fast_path xs v ≡ true
    → (xs ++ v ∷ [] ≡ insert_at_rank v xs) × (mem v xs ≡ false) × (length xs < array_max_size)
fast_path_inserts [] v p h = absurd (ground arith)
fast_path_inserts (x ∷ xs) v p h =
    let e : length (x ∷ xs) - 1 ≡ length xs = omega arith in
    ground (arith, e, append-eq-insert_at_rank 0 v (length xs) (x ∷ xs) p refl)

pub array_add-rank : (xs : List ℕ) (v : ℕ) → AscendingFrom 0 xs → array_add xs v ≡ Added-rank xs v
unfolding array_add
array_add-rank xs v p = elim (Bool-cases (fast_path xs v)) [
  | inl fast ↦
      let (inserts, new, room) = fast_path_inserts xs v p fast in
      let low : leb array_max_size (length xs) ≡ false = ground arith in
      rw (fast, new, low, inserts) refl
  | inr slow ↦ rw slow (rw (search32-Answer xs v p) (ground arith))
]

-- What each answer of `arrayAdd` says of the set and of the array.
abbrev pub AddsValue : List ℕ → ℕ → Added → Type 0
AddsValue xs v present = mem v xs ≡ true
AddsValue xs v to_bitmap = (mem v xs ≡ false) × (array_max_size ≤ length xs)
AddsValue xs v (added ys) =
    (mem v xs ≡ false)
    × (length xs < array_max_size)
    × AscendingFrom 0 ys
    × ((c : ℕ) → mem c ys ≡ (c == v || mem c xs))

-- On an ascending array arrayAdd reports a member as present; it hands a new value to a bitmap
-- container exactly when the array is full, and else returns an ascending array with the same
-- members and the new value.
pub array_add-AddsValue :
    (xs : List ℕ) (v : ℕ) → AscendingFrom 0 xs → AddsValue xs v (array_add xs v)
array_add-AddsValue xs v p = rw (array_add-rank xs v p) (elim (Bool-cases (mem v xs)) [
  | inl old ↦ rw old old
  | inr new ↦ elim (Bool-cases (leb array_max_size (length xs))) [
    | inl full ↦ rw (new, full) (new, leb→le _ _ full)
    | inr room ↦
        rw (new, room)
          (
            new,
            ground arith,
            insert_at_rank-AscendingFrom 0 v xs (omega arith) new p,
            λ c. mem-insert_at_rank v c xs,
          )
  ]
])

-- What each answer of `arrayRemove` says.
abbrev pub RemovesValue : List ℕ → ℕ → Removed → Type 0
RemovesValue xs v absent = mem v xs ≡ false
RemovesValue xs v emptied = xs ≡ v ∷ []
RemovesValue xs v (removed ys) =
    (mem v xs ≡ true) × AscendingFrom 0 ys × ((c : ℕ) → mem c ys ≡ (not (c == v) && mem c xs))

singleton_of_length : (xs : List ℕ) (v : ℕ) → mem v xs ≡ true → length xs ≡ 1 → xs ≡ v ∷ []
singleton_of_length [] v m e = cc
singleton_of_length (x ∷ []) v m e = ground arith
singleton_of_length (x ∷ y ∷ xs) v m e = absurd (omega arith)

abbrev Removed-rank : List ℕ → ℕ → Removed
Removed-rank xs v =
    if mem v xs then (if length xs == 1 then emptied else removed (remove_at_rank v xs)) else absent

array_remove-rank :
    (xs : List ℕ) (v : ℕ) → AscendingFrom 0 xs → array_remove xs v ≡ Removed-rank xs v
unfolding array_remove
array_remove-rank xs v p =
    let e : rank xs v + 1 ≡ suc (rank xs v) = omega arith in
    ground (arith, search32-Answer xs v p, e)

-- On an ascending array arrayRemove reports a value that is no member as absent, returns no
-- container exactly for the array of that value alone, and else returns an ascending array with
-- the same members but that value.
pub array_remove-RemovesValue :
    (xs : List ℕ) (v : ℕ) → AscendingFrom 0 xs → RemovesValue xs v (array_remove xs v)
array_remove-RemovesValue xs v p = rw (array_remove-rank xs v p) (elim (Bool-cases (mem v xs)) [
  | inr new ↦ rw new new
  | inl old ↦ elim (Bool-cases (length xs == 1)) [
    | inl single ↦ rw (old, single) (singleton_of_length xs v old (ground arith))
    | inr more ↦
        rw (old, more)
          (old, remove_at_rank-AscendingFrom 0 v xs old p, λ c. mem-remove_at_rank 0 v c xs p old)
  ]
])
