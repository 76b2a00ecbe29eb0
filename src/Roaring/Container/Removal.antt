-- ===== src/Roaring/Container/Removal.antt =====
-- Removing a value from a container of any kind takes that value alone out of its set.
use pilosa.Common.Booleans.{same_without}
use mathlib.Core.Path.{subst}
use pilosa.Common.{
  ℕ, ◌-◌, ◌/◌, ◌%◌, ◌<◌, ◌≡◌, refl, sym, ◌∙◌, List, [], ◌∷◌, Bool, true, false, not, ◌&&◌, ◌==◌,
  arith, Bool-cases, inl, inr, Option, none, some, leb,
}
use pilosa.Common.Digits.{bit_at-high}
use pilosa.Roaring.Sorted.{mem}
use pilosa.Roaring.Array.{array_max_size}
use pilosa.Roaring.Size.{size-remove, size-one}
use pilosa.Roaring.Update.{array_remove, Removed, absent, emptied, removed}
use pilosa.Roaring.Update.Sets.{RemovesValue, array_remove-RemovesValue}
use pilosa.Roaring.Bitset.{bitmap_contains, clear_word, bitmap_to_array}
use pilosa.Roaring.Bitset.Sets.{word_past, IsBitset, contains-clear_word, clear_word-IsBitset}
use pilosa.Roaring.Bitset.Arrays.{bitmap_to_array-mem}
use pilosa.Roaring.Run.{Interval16, Output}
use pilosa.Roaring.Run.Sets.{run_mem, cardinality, RunsFrom}
use pilosa.Roaring.Run.Update.{run_remove}
use pilosa.Roaring.Run.Update.Cuts.{RemovesFromRuns, run_remove-RemovesFromRuns}
use pilosa.Roaring.Container.{
  Container, container_array, container_bitmap, container_run, remove, remove_from_array, run_left,
  bitmap_remove, shrunk_bitmap,
}
use pilosa.Roaring.Container.Kinds.{container_width, IsArray, IsBitmap, IsContainer, members}

none_without :
    (f : ℕ → Bool) (v c : ℕ) → ((c == v) ≡ false → f c ≡ false) → false ≡ (not (c == v) && f c)
none_without f v c e = elim (Bool-cases (c == v)) [
  | inl same ↦ rw same refl
  | inr other ↦ rw (other, e other) refl
]

-- What `remove` answers: a container with what the old one held but the value, or none if it held
-- no other, and whether the value was there.
abbrev pub Removes : ℕ → Option Container → Option Container × Bool → Type 0
Removes v c (c', changed) =
    (changed ≡ members c v)
    × IsContainer c'
    × ((u : ℕ) → members c' u ≡ (not (u == v) && members c u))

pub bitmap-contains-lt :
    (words : List ℕ) (c : ℕ)
    → IsBitset words
    → leb container_width c ≡ true
    → bitmap_contains words c ≡ false
bitmap-contains-lt words c p h =
    rw (word_past words (c / 64) (ground (arith, p.0))) (ground (arith, bit_at-high 0 0 (c % 64)))

shrunk_bitmap-IsContainer :
    (words : List ℕ) (n : ℕ)
    → IsBitmap words n
    → IsContainer (some (shrunk_bitmap words n))
      × ((u : ℕ) → members (some (shrunk_bitmap words n)) u ≡ bitmap_contains words u)
unfolding shrunk_bitmap
shrunk_bitmap-IsContainer words n p = elim (Bool-cases (n == array_max_size)) [
  | inl few ↦
      let (up, same) = bitmap_to_array-mem words p.0 in
      let made : shrunk_bitmap words n ≡ container_array (bitmap_to_array words) = rw few refl in
      subst
        (λ (c : Container).
          IsContainer (some c) × ((u : ℕ) → members (some c) u ≡ bitmap_contains words u))
        (sym made)
        (
          (
            up,
            λ c e. elim (Bool-cases (leb container_width c)) [
              | inl past ↦ absurd (ground (arith, same c, bitmap-contains-lt words c p.0 past))
              | inr here ↦ ground arith
            ],
          ),
          same,
        )
  | inr many ↦
      let made : shrunk_bitmap words n ≡ container_bitmap words n = rw many refl in
      subst
        (λ (c : Container).
          IsContainer (some c) × ((u : ℕ) → members (some c) u ≡ bitmap_contains words u))
        (sym made) (p, λ u. refl)
]

bitmap_remove-Removes :
    (words : List ℕ) (n v : ℕ)
    → IsBitmap words n
    → v < container_width
    → Removes v (some (container_bitmap words n)) (bitmap_remove words n v)
unfolding bitmap_remove
bitmap_remove-Removes words n v p h =
    let f : ℕ → Bool = λ (c : ℕ). bitmap_contains words c in
    let result : Option Container × Bool → Type 0 =
      λ o. Removes v (some (container_bitmap words n)) o in
    elim (Bool-cases (bitmap_contains words v)) [
      | inr miss ↦
          let made : bitmap_remove words n v ≡ (some (container_bitmap words n), false) =
            rw miss refl in
          subst result (sym made) (sym miss, p, λ u. same_without f v u miss)
      | inl hit ↦ elim (Bool-cases (n == 1)) [
        | inl single ↦
            let made : bitmap_remove words n v ≡ (none, true) = rw (hit, single) refl in
            subst result (sym made) (
              sym hit,
              tt,
              λ u. none_without f v u (λ other. elim (Bool-cases (leb container_width u)) [
                | inl past ↦ bitmap-contains-lt words u p.0 past
                | inr here ↦
                    size-one f container_width v u (sym p.1 ∙ ground arith) h hit (ground arith)
                      other
              ]),
            )
        | inr more ↦
            let cleared = clear_word words v in
            let holds : (u : ℕ) → bitmap_contains cleared u ≡ (not (u == v) && f u) =
              λ u. contains-clear_word words v u (omega (arith, p.0.0)) in
            let less =
              size-remove f (λ (c : ℕ). bitmap_contains cleared c) container_width v h hit holds in
            let made : bitmap_remove words n v ≡ (some (shrunk_bitmap cleared (n - 1)), true) =
              rw (hit, more) refl in
            let (shrunk, same) =
              shrunk_bitmap-IsContainer cleared (n - 1)
                (clear_word-IsBitset words v p.0 h, omega (arith, less, p.1)) in
            subst result (sym made) (sym hit, shrunk, λ u. same u ∙ holds u)
      ]
    ]

remove_from_array-Removes :
    (xs : List ℕ) (v : ℕ) (r : Removed)
    → IsArray xs
    → RemovesValue xs v r
    → Removes v (some (container_array xs)) (remove_from_array xs r)
unfolding remove_from_array
remove_from_array-Removes xs v absent p q =
    (sym q, p, λ u. same_without (λ (c : ℕ). mem c xs) v u q)
remove_from_array-Removes xs v emptied p q =
    rw q
      (ground arith, tt, λ u. none_without (λ (c : ℕ). mem c (v ∷ [])) v u (λ other. ground arith))
remove_from_array-Removes xs v (removed ys) p (old, up, holds) =
    (sym old, (up, λ c e. p.1 c (ground (arith, holds c))), holds)

only_run :
    (lo v c : ℕ) (rs : List Interval16)
    → RunsFrom lo rs
    → cardinality rs ≡ 1
    → run_mem v rs ≡ true
    → (c == v) ≡ false
    → run_mem c rs ≡ false
only_run lo v c [] p e m other = refl
only_run lo v c (r ∷ []) p e m other = ground arith
only_run lo v c (r ∷ s ∷ rs) p e m other = absurd (omega arith)

run-Removes :
    (rs : List Interval16) (n v : ℕ) (o : Option Output × Bool)
    → RunsFrom 0 rs
    → RemovesFromRuns v rs o
    → Removes v (some (container_run rs n)) (run_left o)
run-Removes rs n v (none, changed) p (report, old, single) = (
  report ∙ sym old,
  tt,
  λ u. none_without (λ (c : ℕ). run_mem c rs) v u (λ other. only_run 0 v u rs p single old other),
)
run-Removes rs n v (some (rs', n'), changed) p (report, apart, count, holds) =
    (report, (apart, count), holds)

-- For a 16-bit value and no container or a well-formed container of any kind with its cardinality
-- right, remove returns such a container or none, which contains what the old one did but the
-- value, and reports whether the value was there.
pub remove-Removes :
    (c : Option Container) (v : ℕ) → IsContainer c → v < container_width → Removes v c (remove c v)
unfolding remove
remove-Removes none v p h = (refl, tt, λ u. ground arith)
remove-Removes (some (container_array xs)) v p h =
    remove_from_array-Removes xs v (array_remove xs v) p (array_remove-RemovesValue xs v p.0)
remove-Removes (some (container_bitmap words n)) v p h = bitmap_remove-Removes words n v p h
remove-Removes (some (container_run rs n)) v p h =
    run-Removes rs n v (run_remove rs n v) p.0 (run_remove-RemovesFromRuns rs n v p.0 p.1)
