-- ===== src/Examples/Bitmaps.antt =====
-- Containers of every kind, and a bitmap over a tree that is a function, at concrete inputs.
use pilosa.Common.{
  ℕ, ◌≡◌, refl, List, [], ◌∷◌, true, false, if◌then◌else◌, ◌==◌, Option, none, some,
}
use pilosa.Roaring.Container.{Container}
use pilosa.Roaring.Btree.{TreeOps, Op, op_add, op_remove, new_containers, apply_ops, bitmap_holds}
use pilosa.Roaring.Btree.Refinement.{set_ops, apply_ops-eq-set_ops}

abbrev function_tree : TreeOps
function_tree = record {
  Tree = ℕ → Option (Option Container);
  tree_new = λ k. none;
  get = λ t k. t k;
  set = λ t key c k. if k == key then some c else t k;
  get-new = λ k. refl;
  get-set = λ t key c k. refl;
}

-- A value that is removed as the last of its container, and another one there.
abbrev log : List Op
log = op_add 5 ∷ op_add 70000 ∷ op_remove 5 ∷ op_add 6 ∷ op_add 6 ∷ []

apply_ops-eq-set_ops_example :
    ((apply_ops (new_containers {T = function_tree}) log).0 ≡ (set_ops (λ (u : ℕ). false) log).0)
    × ((v : ℕ)
        → (bitmap_holds (apply_ops (new_containers {T = function_tree}) log).1 v).0
          ≡ (set_ops (λ (u : ℕ). false) log).1 v)
apply_ops-eq-set_ops_example = apply_ops-eq-set_ops function_tree log

reports_test : (set_ops (λ (u : ℕ). false) log).0 ≡ (true ∷ true ∷ true ∷ true ∷ false ∷ [])
reports_test = refl
