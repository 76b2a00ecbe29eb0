-- ===== src/Roaring/IntersectionCount/Range.antt =====
-- `countRange` counts the values of a container in a range, whatever its kind.
use pilosa.Common.{
  ℕ, suc, ◌+◌, ◌≤◌, ◌≡◌, refl, sym, ◌∙◌, List, [], ◌∷◌, true, false, ◌&&◌, leb, arith, Bool-cases,
  inl, inr, Option, none, some, ap,
}
use pilosa.Roaring.Sorted.{AscendingFrom, mem, AscendingFrom-weaken, mem_below}
use pilosa.Roaring.Size.{size, size-same, size-add, size-none, size-empty}
use pilosa.Roaring.Bitset.Range.{bitmap_count_range-eq-size}
use pilosa.Roaring.Run.{Interval16, max_container_val}
use pilosa.Roaring.Run.Sets.{RunsFrom}
use pilosa.Roaring.Run.Range.{EndElsewhere, run_count_range-eq-values}
use pilosa.Roaring.Container.{Container, container_array, container_bitmap, container_run}
use pilosa.Roaring.Container.Kinds.{container_width, IsContainer, members}
use pilosa.Roaring.Intersect.{cardinal}
use pilosa.Roaring.Intersect.Sets.{cardinal-eq-size}
use pilosa.Roaring.IntersectionCount.{
  from_start, count_until, array_count_range, count_range, count,
}

count_until-eq-size :
    (end : ℕ) (xs : List ℕ) (n lo : ℕ)
    → AscendingFrom lo xs
    → count_until end xs n ≡ n + size (λ (c : ℕ). mem c xs) end
unfolding count_until
count_until-eq-size end [] n lo p = omega (arith, size-none (λ (c : ℕ). false) end (λ c. refl))
count_until-eq-size end (x ∷ xs) n lo p = elim (Bool-cases (leb end x)) [
  | inl past ↦
      let nothing : size (λ (c : ℕ). mem c (x ∷ xs)) end ≡ 0 =
        size-empty (λ (c : ℕ). mem c (x ∷ xs)) end
          (λ c l. mem_below x c (x ∷ xs) (omega arith, p.1) (ground arith)) in
      rw past (omega (arith, nothing))
  | inr before ↦
      let more =
        size-add (λ (c : ℕ). mem c xs) (λ (c : ℕ). mem c (x ∷ xs)) end x (ground arith)
          (mem_below (suc x) x xs p.1 (omega arith)) (λ c. refl) in
      rw before (omega (arith, more, count_until-eq-size end xs (n + 1) (suc x) p.1))
]

from_start-AscendingFrom :
    (start lo : ℕ) (xs : List ℕ) → AscendingFrom lo xs → AscendingFrom lo (from_start start xs)
unfolding from_start
from_start-AscendingFrom start lo [] p = tt
from_start-AscendingFrom start lo (x ∷ xs) p = elim (Bool-cases (leb start x)) [
  | inl from ↦ rw from p
  | inr below ↦ rw below (
      AscendingFrom-weaken lo (suc x) (from_start start xs) (omega arith)
        (from_start-AscendingFrom start (suc x) xs p.1))
]

mem-from_start :
    (start c lo : ℕ) (xs : List ℕ)
    → AscendingFrom lo xs
    → mem c (from_start start xs) ≡ (leb start c && mem c xs)
unfolding from_start
mem-from_start start c lo [] p = ground arith
mem-from_start start c lo (x ∷ xs) p = elim (Bool-cases (leb start x)) [
  | inl from ↦ elim (Bool-cases (leb start c)) [
    | inl in_range ↦ rw (from, in_range) refl
    | inr out ↦ rw (from, out) (mem_below x c (x ∷ xs) (omega arith, p.1) (ground arith))
  ]
  | inr below ↦ rw below (ground (arith, mem-from_start start c (suc x) xs p.1))
]

array_count_range-eq-size :
    (xs : List ℕ) (start end : ℕ)
    → AscendingFrom 0 xs
    → array_count_range xs start end ≡ size (λ (c : ℕ). leb start c && mem c xs) end
unfolding array_count_range
array_count_range-eq-size xs start end p =
    count_until-eq-size end (from_start start xs) 0 0 (from_start-AscendingFrom start 0 xs p)
    ∙ omega arith
    ∙ size-same (λ (c : ℕ). mem c (from_start start xs)) (λ (c : ℕ). leb start c && mem c xs) end
        (λ c l. mem-from_start start c 0 xs p)

-- No run ends exactly at `end`.
abbrev pub NoRunEndsAt : ℕ → Option Container → Type 0
NoRunEndsAt end (some (container_run rs n)) = EndElsewhere end rs
NoRunEndsAt end none = Unit
NoRunEndsAt end (some (container_array xs)) = Unit
NoRunEndsAt end (some (container_bitmap ws n)) = Unit

-- For no container or a well-formed container of any kind and for ends of a range in order, of
-- which the first is below 65536 and the second is at most 65536 and is not the last value of a
-- run of the container, countRange does not panic and returns the number of values of the
-- container from the first end up to the second, the second excluded.
pub count_range-eq-size :
    (c : Option Container) (start end : ℕ)
    → IsContainer c
    → start ≤ end
    → start ≤ max_container_val
    → end ≤ max_container_val + 1
    → NoRunEndsAt end c
    → count_range c start end ≡ some (size (λ (u : ℕ). leb start u && members c u) end)
unfolding count_range
count_range-eq-size none start end p o low t e =
    ap (λ (t : ℕ). some t)
      (sym (size-empty (λ (u : ℕ). leb start u && false) end (λ u l. ground arith)))
count_range-eq-size (some (container_array xs)) start end p o low t e =
    ap (λ (t : ℕ). some t) (array_count_range-eq-size xs start end p.0)
count_range-eq-size (some (container_run rs n)) start end p o low t e =
    ap (λ (t : ℕ). some t) (run_count_range-eq-values rs start end p.0 o e)
count_range-eq-size (some (container_bitmap ws n)) start end p o low t e =
    bitmap_count_range-eq-size ws p.0 start end o (omega arith) (omega arith)

-- No 16-bit run ends past the last value.
ends_inside :
    (lo : ℕ) (rs : List Interval16) → RunsFrom lo rs → EndElsewhere (max_container_val + 1) rs
ends_inside lo [] p = tt
ends_inside lo (r ∷ rs) p = let at_most = p.1.1 in (ground arith, ends_inside (suc r.last) rs p.2)

NoRunEndsAt-last :
    (c : Container) → IsContainer (some c) → NoRunEndsAt (max_container_val + 1) (some c)
NoRunEndsAt-last (container_array xs) p = tt
NoRunEndsAt-last (container_bitmap ws n) p = tt
NoRunEndsAt-last (container_run rs n) p = ends_inside 0 rs p.0

-- The cardinality that a well-formed container keeps is what `count` finds in its values.
count-eq-cardinal : (c : Container) → IsContainer (some c) → count (some c) ≡ some (cardinal c)
unfolding count
count-eq-cardinal c p =
    count_range-eq-size (some c) 0 (max_container_val + 1) p (omega arith) (omega arith)
      (omega arith) (NoRunEndsAt-last c p)
    ∙ ap (λ (t : ℕ). some t)
        (size-same (λ (u : ℕ). leb 0 u && members (some c) u) (λ (u : ℕ). members (some c) u)
            container_width (λ u l. let from : leb 0 u ≡ true = ground arith in rw from refl)
          ∙ sym (cardinal-eq-size c p))
