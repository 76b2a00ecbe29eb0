-- ===== src/Roaring/Container/Sets.antt =====
-- Adding a value to a container of any kind changes its set by that value alone.
use pilosa.Common.Booleans.{same_with}
use mathlib.Core.Path.{subst}
use pilosa.Common.{
  ℕ, ◌+◌, ◌<◌, ◌≡◌, refl, sym, ◌∙◌, List, Bool, true, false, not, ◌||◌, ◌==◌, arith, length,
  Bool-cases, inl, inr, Option, none, some,
}
use pilosa.Roaring.Sorted.{mem}
use pilosa.Roaring.Size.{size-add, size-same}
use pilosa.Roaring.Update.{array_add, Added, present, added, to_bitmap}
use pilosa.Roaring.Update.Sets.{AddsValue, array_add-AddsValue}
use pilosa.Roaring.Bitset.{bitmap_contains, bitmap_add, set_word, array_to_bitmap}
use pilosa.Roaring.Bitset.Sets.{contains-set_word, set_word-IsBitset}
use pilosa.Roaring.Bitset.Arrays.{array_to_bitmap-IsBitset}
use pilosa.Roaring.Run.{Interval16, Output}
use pilosa.Roaring.Run.Update.{run_add}
use pilosa.Roaring.Run.Update.Sets.{AddsToRuns, run_add-AddsToRuns}
use pilosa.Roaring.Container.{
  Container, container_array, container_bitmap, container_run, add, add_to_array, as_bitmap, as_run,
}
use pilosa.Roaring.Container.Kinds.{
  container_width, IsArray, IsBitmap, IsContainer, members, Values16-IsArray, length-eq-size,
}

-- What `add` answers: a container with the value and what the old one held, and whether the value
-- is new.
abbrev pub Adds : ℕ → Option Container → Container × Bool → Type 0
Adds v c (c', changed) =
    (changed ≡ not (members c v))
    × IsContainer (some c')
    × ((u : ℕ) → members (some c') u ≡ (u == v || members c u))

pub bitmap_add-Adds :
    (words : List ℕ) (n v : ℕ)
    → IsBitmap words n
    → v < container_width
    → Adds v (some (container_bitmap words n)) (as_bitmap (bitmap_add words n v))
unfolding bitmap_add
bitmap_add-Adds words n v p h = elim (Bool-cases (bitmap_contains words v)) [
  | inl old ↦
      let made : bitmap_add words n v ≡ ((words, n), false) = rw old refl in
      subst (λ (o : (List ℕ × ℕ) × Bool). Adds v (some (container_bitmap words n)) (as_bitmap o))
        (sym made) (rw old refl, p, λ u. same_with (λ (c : ℕ). bitmap_contains words c) v u old)
  | inr new ↦
      let made : bitmap_add words n v ≡ ((set_word words v, n + 1), true) = rw new refl in
      let holds : (u : ℕ)
          → bitmap_contains (set_word words v) u ≡ (u == v || bitmap_contains words u) =
        λ u. contains-set_word words v u (omega (arith, p.0.0)) in
      let more =
        size-add (λ (c : ℕ). bitmap_contains words c)
          (λ (c : ℕ). bitmap_contains (set_word words v) c) container_width v h new holds in
      subst (λ (o : (List ℕ × ℕ) × Bool). Adds v (some (container_bitmap words n)) (as_bitmap o))
        (sym made) (rw new refl, (set_word-IsBitset words v p.0 h, omega (arith, more, p.1)), holds)
]

-- An array that becomes a bitmap container keeps its values and their number.
pub array_to_bitmap-IsBitmap :
    (xs : List ℕ)
    → IsArray xs
    → IsBitmap (array_to_bitmap xs) (length xs)
      × ((c : ℕ) → bitmap_contains (array_to_bitmap xs) c ≡ mem c xs)
array_to_bitmap-IsBitmap xs p =
    let (bits, same) = array_to_bitmap-IsBitset xs (Values16-IsArray xs p.1) in
    let count =
      size-same (λ (c : ℕ). mem c xs) (λ (c : ℕ). bitmap_contains (array_to_bitmap xs) c)
        container_width (λ c h. sym (same c)) in
    ((bits, length-eq-size 0 xs p.0 p.1 ∙ count), same)

add_to_array-Adds :
    (xs : List ℕ) (v : ℕ) (a : Added)
    → IsArray xs
    → v < container_width
    → AddsValue xs v a
    → Adds v (some (container_array xs)) (add_to_array xs v a)
unfolding add_to_array
add_to_array-Adds xs v present p h q = (ground arith, p, λ u. same_with (λ (c : ℕ). mem c xs) v u q)
add_to_array-Adds xs v (added ys) p h (new, room, up, holds) =
    (ground arith, (up, λ c e. ground (arith, holds c, p.1 c)), holds)
add_to_array-Adds xs v to_bitmap p h q =
    let (bits, same) = array_to_bitmap-IsBitmap xs p in
    let adds = bitmap_add-Adds (array_to_bitmap xs) (length xs) v bits h in
    (ground (arith, adds.0, same v), adds.1, λ u. ground (arith, adds.2 u, same u))

run-Adds :
    (rs : List Interval16) (n v : ℕ) (o : Output × Bool)
    → AddsToRuns v rs n o
    → Adds v (some (container_run rs n)) (as_run o)
run-Adds rs n v ((rs', n'), changed) (report, apart, count, holds) = (report, (apart, count), holds)

-- For a 16-bit value and no container or a well-formed container of any kind with its cardinality
-- right, add returns such a container, which contains the value and what the old one did and
-- nothing else, and reports whether the value is new.
pub add-Adds :
    (c : Option Container) (v : ℕ) → IsContainer c → v < container_width → Adds v c (add c v)
unfolding add
add-Adds none v p h = (refl, ((omega arith, tt), λ c e. ground arith), λ u. refl)
add-Adds (some (container_array xs)) v p h =
    add_to_array-Adds xs v (array_add xs v) p h (array_add-AddsValue xs v p.0)
add-Adds (some (container_bitmap words n)) v p h = bitmap_add-Adds words n v p h
add-Adds (some (container_run rs n)) v p h =
    run-Adds rs n v (run_add rs n v) (run_add-AddsToRuns rs n v p.0 p.1 (omega arith))
