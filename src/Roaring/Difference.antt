-- ===== src/Roaring/Difference.antt =====
-- `differenceArrayArray` of roaring/roaring.go: the difference of two array containers. Its output
-- starts as an empty array container, which `add` changes in place, to a bitmap when it is full.
pub mod Sets
use pilosa.Common.{ℕ, List, [], ◌∷◌, ltb, if◌then◌else◌, some}
use pilosa.Roaring.Container.{Container, container_array, add}

-- `output.add(va)` for its effect.
unfoldable pub push : Container → ℕ → Container
push output v = (add (some output) v).0

unfoldable pub difference_loop : List ℕ → List ℕ → Container → Container
difference_loop [] bs output = output
difference_loop (a ∷ as') [] output = difference_loop as' [] (push output a)
difference_loop (a ∷ as') (b ∷ bs) output =
    let keep_a = difference_loop as' (b ∷ bs) (push output a) in
    let skip_b = difference_loop (a ∷ as') bs output in
    let drop_both = difference_loop as' bs output in
    if ltb a b then keep_a else if ltb b a then skip_b else drop_both

unfoldable pub difference_array_array : List ℕ → List ℕ → Container
difference_array_array as' bs = difference_loop as' bs (container_array [])
