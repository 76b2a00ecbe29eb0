-- ===== src/Roaring/Btree.antt =====
-- `bTreeContainers` of roaring/containers_btree.go, the containers of a fragment's bitmap by the
-- high bits of their values, and the single-value operations of the bitmap over them
-- (roaring/roaring.go). The tree itself is a parameter. A container is changed in place or
-- replaced by `Put`; either way the changed container stands at its key and in the cache of the
-- last one. Containers that are mapped files are left out.
pub mod Valid
pub mod Refinement
use pilosa.Common.{
  ℕ, ◌/◌, ◌%◌, ◌≡◌, List, [], ◌∷◌, Bool, true, false, ◌==◌, if◌then◌else◌, Option, none, some,
}
use pilosa.Roaring.Container.{Container, container_array, contains, add, remove}

-- The B-tree: what `Get` finds, and `Set`.
pub record TreeOps : Type 1 where
  pub Tree : Type 0
  pub tree_new : Tree
  pub get : Tree → ℕ → Option (Option Container)
  pub set : Tree → ℕ → Option Container → Tree
  pub get-new : (key : ℕ) → get tree_new key ≡ none
  pub get-set :
      (t : Tree) (key : ℕ) (c : Option Container) (other : ℕ)
      → get (set t key c) other ≡ (if other == key then some c else get t other)

pub record BtreeContainers (T : TreeOps) : Type 0 where
  pub tree : T.Tree
  pub last_key : ℕ
  pub last_container : Option Container

-- An operation of the op log that adds or removes one value.
pub data Op : Type 0 where
  op_add : ℕ → Op
  op_remove : ℕ → Op

abbrev pub highbits : ℕ → ℕ
highbits v = v / 0x1_0000

abbrev pub lowbits : ℕ → ℕ
lowbits v = v % 0x1_0000

module _ {T : TreeOps} where
  unfoldable pub new_containers : BtreeContainers T
  new_containers = record { tree = T.tree_new; last_key = 0; last_container = none }

  abbrev pub remember : BtreeContainers T → ℕ → Option Container → BtreeContainers T
  remember b key c = record b { last_key = key; last_container = c }

  -- `Get`, which may change what is cached.
  unfoldable pub get_found :
      BtreeContainers T → ℕ → Option (Option Container) → Option Container × BtreeContainers T
  get_found b key none = (none, b)
  get_found b key (some c) = (c, remember b key c)

  unfoldable pub get_container : BtreeContainers T → ℕ → Option Container × BtreeContainers T
  get_container b key =
      if key == b.last_key then (b.last_container, b) else get_found b key (T.get b.tree key)

  unfoldable pub put_container : BtreeContainers T → ℕ → Option Container → BtreeContainers T
  put_container b key c = record { tree = T.set b.tree key c; last_key = key; last_container = c }

  unfoldable pub create_found :
      BtreeContainers T → ℕ → Option (Option Container) → Option Container × BtreeContainers T
  create_found b key none = let cont = some (container_array []) in (cont, put_container b key cont)
  create_found b key (some c) = (c, remember b key c)

  unfoldable pub get_or_create : BtreeContainers T → ℕ → Option Container × BtreeContainers T
  get_or_create b key =
      if key == b.last_key then (b.last_container, b) else create_found b key (T.get b.tree key)

  -- A container with a value more goes to its key.
  unfoldable pub add_in : ℕ → Option Container × BtreeContainers T → Bool × BtreeContainers T
  add_in v (cont, b) =
      let (changed_cont, changed) = add cont (lowbits v) in
      (changed, put_container b (highbits v) (some changed_cont))

  unfoldable pub direct_add : BtreeContainers T → ℕ → Bool × BtreeContainers T
  direct_add b v = add_in v (get_or_create b (highbits v))

  unfoldable pub contains_in : ℕ → Option Container × BtreeContainers T → Bool × BtreeContainers T
  contains_in v (none, b) = (false, b)
  contains_in v (some c, b) = (contains (some c) (lowbits v), b)

  unfoldable pub bitmap_holds : BtreeContainers T → ℕ → Bool × BtreeContainers T
  bitmap_holds b v = contains_in v (get_container b (highbits v))

  -- Where there is no container, none is put.
  unfoldable pub remove_in : ℕ → Option Container × BtreeContainers T → Bool × BtreeContainers T
  remove_in v (none, b) = (false, b)
  remove_in v (some c, b) =
      let (left, changed) = remove (some c) (lowbits v) in
      (changed, put_container b (highbits v) left)

  unfoldable pub direct_remove : BtreeContainers T → ℕ → Bool × BtreeContainers T
  direct_remove b v = remove_in v (get_container b (highbits v))

  unfoldable pub apply_op : BtreeContainers T → Op → Bool × BtreeContainers T
  apply_op b (op_add v) = direct_add b v
  apply_op b (op_remove v) = direct_remove b v

  -- The operations of a log one after the other, with what each reported.
  unfoldable pub apply_ops : BtreeContainers T → List Op → List Bool × BtreeContainers T
  apply_ops b [] = ([], b)
  apply_ops b (op ∷ ops) =
      let (changed, b') = apply_op b op in
      let (reports, b'') = apply_ops b' ops in (changed ∷ reports, b'')
