-- ===== src/Roaring/Container/Kinds.antt =====
-- What a container of each kind is, and the values that it stands for.
use pilosa.Common.{
  ℕ, suc, ◌<◌, ◌≡◌, refl, sym, ap, ◌∙◌, List, [], ◌∷◌, Bool, true, false, arith, length, Option,
  none, some,
}
use pilosa.Roaring.Sorted.{AscendingFrom, mem, mem_below}
use pilosa.Roaring.Size.{size, size-add, size-none}
use pilosa.Roaring.Update.Sets.{array_contains-eq-mem}
use pilosa.Roaring.Bitset.{bitmap_contains}
use pilosa.Roaring.Bitset.Sets.{IsBitset}
use pilosa.Roaring.Bitset.Arrays.{Values16}
use pilosa.Roaring.Run.{Interval16}
use pilosa.Roaring.Run.Sets.{run_mem, cardinality, RunsFrom}
use pilosa.Roaring.Run.Update.Sets.{run_contains-eq-run_mem}
use pilosa.Roaring.Container.{Container, container_array, container_bitmap, container_run, contains}

abbrev pub container_width : ℕ
container_width = 0x1_0000

abbrev pub IsArray : List ℕ → Type 0
IsArray xs = AscendingFrom 0 xs × ((c : ℕ) → mem c xs ≡ true → c < container_width)

abbrev pub IsBitmap : List ℕ → ℕ → Type 0
IsBitmap words n = IsBitset words × (n ≡ size (λ (c : ℕ). bitmap_contains words c) container_width)

abbrev pub IsRuns : List Interval16 → ℕ → Type 0
IsRuns rs n = RunsFrom 0 rs × (n ≡ cardinality rs)

abbrev pub IsContainer : Option Container → Type 0
IsContainer none = Unit
IsContainer (some (container_array xs)) = IsArray xs
IsContainer (some (container_bitmap words n)) = IsBitmap words n
IsContainer (some (container_run rs n)) = IsRuns rs n

-- The set that a container stands for.
abbrev pub members : Option Container → ℕ → Bool
members none c = false
members (some (container_array xs)) c = mem c xs
members (some (container_bitmap words n)) c = bitmap_contains words c
members (some (container_run rs n)) c = run_mem c rs

pub contains-eq-members :
    (c : Option Container) (v : ℕ) → IsContainer c → contains c v ≡ members c v
unfolding contains
contains-eq-members none v p = refl
contains-eq-members (some (container_array xs)) v p = array_contains-eq-mem xs v p.0
contains-eq-members (some (container_bitmap words n)) v p = refl
contains-eq-members (some (container_run rs n)) v p = run_contains-eq-run_mem rs v p.0

pub Values16-IsArray :
    (xs : List ℕ) → ((c : ℕ) → mem c xs ≡ true → c < container_width) → Values16 xs
Values16-IsArray [] b = tt
Values16-IsArray (x ∷ xs) b = (b x (ground arith), Values16-IsArray xs (λ c e. b c (ground arith)))

-- The length of an array is the number of its values.
pub length-eq-size :
    (lo : ℕ) (xs : List ℕ)
    → AscendingFrom lo xs
    → ((c : ℕ) → mem c xs ≡ true → c < container_width)
    → length xs ≡ size (λ (c : ℕ). mem c xs) container_width
length-eq-size lo [] p b = sym (size-none (λ (c : ℕ). false) container_width (λ c. refl))
length-eq-size lo (x ∷ xs) p b =
    let rest = length-eq-size (suc x) xs p.1 (λ c e. b c (ground arith)) in
    let more =
      size-add (λ (c : ℕ). mem c xs) (λ (c : ℕ). mem c (x ∷ xs)) container_width x
        (b x (ground arith)) (mem_below (suc x) x xs p.1 (omega arith)) (λ c. refl) in
    ap suc rest ∙ sym more
