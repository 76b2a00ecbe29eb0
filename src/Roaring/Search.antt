-- ===== src/Roaring/Search.antt =====
-- `search32` of roaring/roaring.go: the index of a value in an ascending array, or where it would
-- be inserted.
pub mod Rank
pub mod Binary
use pilosa.Common.{
  ℕ, zero, suc, ◌+◌, ◌-◌, ◌/◌, List, [], ◌∷◌, Bool, ltb, leb, ◌==◌, if◌then◌else◌, length, get_or,
}

-- `at i` is Go's index i, and `gap i` its negative result -(i + 1).
pub data Found : Type 0 where
  at : ℕ → Found
  gap : ℕ → Found

-- The final loop, with the rounds left.
pub scan : List ℕ → ℕ → ℕ → ℕ → Found
scan a value zero lo = gap lo
scan a value (suc rounds) lo =
    let v = get_or a lo 0 in
    let next = scan a value rounds (lo + 1) in
    if v == value then at lo else if ltb value v then gap lo else next

-- The binary search. The fuel bounds the rounds; `halve_fuel` of Binary says that more than the
-- width of the range changes nothing, and the length is the widest. With no fuel the final loop would start where the search stands.
pub halve : List ℕ → ℕ → ℕ → ℕ → ℕ → Found
unfolding scan
halve a value zero lo hi = scan a value (hi + 1 - lo) lo
halve a value (suc fuel) lo hi =
    let i = (lo + hi) / 2 in
    let v = get_or a i 0 in
    let right = halve a value fuel (i + 1) hi in
    let left = halve a value fuel lo (i - 1) in
    let rest = scan a value (hi + 1 - lo) lo in
    if leb (lo + 16) hi
    then (if ltb v value then right else if ltb value v then left else at i)
    else rest

pub search32 : List ℕ → ℕ → Found
search32 a value =
    let n = length a in
    if n == 0
    then gap 0
    else if get_or a (n - 1) 0 == value
    then at (n - 1)
    else halve a value n 0 (n - 1)
