-- ===== src/Roaring/Btree/Refinement.antt =====
-- The single-value operations of a bitmap over a B-tree of containers do what the same operations
-- do to a set of numbers.
use pilosa.Common.Booleans.{same_without}
use pilosa.Common.{
  ℕ, ◌<◌, ◌≡◌, refl, sym, ap, ◌∙◌, List, [], ◌∷◌, Bool, false, not, ◌&&◌, ◌||◌, ◌==◌, arith,
  Bool-cases, inl, inr, Option, none, some,
}
use pilosa.Roaring.Container.{Container, add, remove}
use pilosa.Roaring.Container.Kinds.{members, contains-eq-members, container_width}
use pilosa.Roaring.Container.Sets.{add-Adds}
use pilosa.Roaring.Container.Removal.{remove-Removes}
use pilosa.Roaring.Btree.{
  TreeOps, BtreeContainers, new_containers, get_container, get_or_create, put_container, highbits,
  lowbits, add_in, direct_add, contains_in, bitmap_holds, remove_in, direct_remove, Op, op_add,
  op_remove, apply_op, apply_ops,
}
use pilosa.Roaring.Btree.Valid.{
  lookup, IsValid, holds, Opens, lookup-put_container, put_container-IsValid, get_container-Opens,
  get_or_create-Opens, new_containers-IsValid, holds-new_containers,
}

-- The operations on a set of numbers.
abbrev pub set_op : (ℕ → Bool) → Op → Bool × (ℕ → Bool)
set_op f (op_add v) = (not (f v), λ (u : ℕ). u == v || f u)
set_op f (op_remove v) = (f v, λ (u : ℕ). not (u == v) && f u)

abbrev pub set_ops : (ℕ → Bool) → List Op → List Bool × (ℕ → Bool)
set_ops f [] = ([], f)
set_ops f (op ∷ ops) =
    let (changed, g) = set_op f op in let (reports, h) = set_ops g ops in (changed ∷ reports, h)

-- The high and the low bits of two numbers agree exactly if the numbers do.
split_eq : (u v : ℕ) → (u == v) ≡ (highbits u == highbits v && lowbits u == lowbits v)
split_eq u v = elim (Bool-cases (u == v)) [
  | inl same ↦ let e : u ≡ v = ground arith in rw e (ground arith)
  | inr other ↦ elim (Bool-cases (highbits u == highbits v)) [
    | inl high ↦
        let low : (lowbits u == lowbits v) ≡ false = ground arith in rw (other, high, low) refl
    | inr high ↦ rw (other, high) refl
  ]
]

low-lt : (v : ℕ) → lowbits v < container_width
low-lt v = omega arith

set_op-same :
    (f g : ℕ → Bool) (op : Op)
    → ((u : ℕ) → f u ≡ g u)
    → ((set_op f op).0 ≡ (set_op g op).0) × ((u : ℕ) → (set_op f op).1 u ≡ (set_op g op).1 u)
set_op-same f g (op_add v) e = (ap not (e v), λ u. ap (λ (x : Bool). u == v || x) (e u))
set_op-same f g (op_remove v) e = (e v, λ u. ap (λ (x : Bool). not (u == v) && x) (e u))

module _ {T : TreeOps} where
  -- The set after a put, where the container that is put differs by one value from the one there.
  holds-put_container :
      (b b' : BtreeContainers T) (v : ℕ) (c : Option Container) (change : Bool → Bool → Bool)
      → ((k u : ℕ) → members (lookup b' k) u ≡ members (lookup b k) u)
      → ((u : ℕ) → members c u ≡ change (u == lowbits v) (members (lookup b (highbits v)) u))
      → ((x : Bool) → change false x ≡ x)
      → (u : ℕ) → holds (put_container b' (highbits v) c) u ≡ change (u == v) (holds b u)
  holds-put_container b b' v c change same changed keeps u =
      let at_key = lookup-put_container b' (highbits v) c (highbits u) in
      elim (Bool-cases (highbits u == highbits v)) [
        | inl high ↦
            let e : highbits u ≡ highbits v = ground arith in
            let low : (u == v) ≡ (lowbits u == lowbits v) = ground (arith, split_eq u v) in
            let here : lookup (put_container b' (highbits v) c) (highbits u) ≡ c =
              at_key ∙ rw high refl in
            ap (λ (x : Option Container). members x (lowbits u)) here
            ∙ changed (lowbits u)
            ∙ sym (rw (low, e) refl)
        | inr high ↦
            let other : (u == v) ≡ false = ground (arith, split_eq u v) in
            let there : lookup (put_container b' (highbits v) c) (highbits u)
                ≡ lookup b' (highbits u) =
              at_key ∙ rw high refl in
            ap (λ (x : Option Container). members x (lowbits u)) there
            ∙ same (highbits u) (lowbits u)
            ∙ sym (rw other (keeps (holds b u)))
      ]

  -- What an operation answers: the report and the set of the operation on sets.
  abbrev pub Agrees : BtreeContainers T → Op → Bool × BtreeContainers T → Type 0
  Agrees b op (changed, b') =
      (changed ≡ (set_op (λ (u : ℕ). holds b u) op).0)
      × IsValid b'
      × ((u : ℕ) → holds b' u ≡ (set_op (λ (x : ℕ). holds b x) op).1 u)

  add_in-Agrees :
      (b : BtreeContainers T) (v : ℕ) (o : Option Container × BtreeContainers T)
      → Opens b (highbits v) o
      → Agrees b (op_add v) (add_in v o)
  unfolding add_in
  add_in-Agrees b v (c, b') (here, shape, valid, same) =
      let adds = add-Adds c (lowbits v) shape (low-lt v) in
      (
        adds.0 ∙ ap not (here (lowbits v)),
        put_container-IsValid b' (highbits v) (some (add c (lowbits v)).0) valid adds.1,
        holds-put_container b b' v (some (add c (lowbits v)).0) (λ e x. e || x) same
            (λ u. adds.2 u ∙ ap (λ (x : Bool). u == lowbits v || x) (here u)) (λ x. refl),
      )

  remove_in-Agrees :
      (b : BtreeContainers T) (v : ℕ) (o : Option Container × BtreeContainers T)
      → Opens b (highbits v) o
      → Agrees b (op_remove v) (remove_in v o)
  unfolding remove_in
  remove_in-Agrees b v (none, b') (here, shape, valid, same) = (
    here (lowbits v),
    valid,
    λ u.
        same (highbits u) (lowbits u)
        ∙ same_without (λ (x : ℕ). holds b x) v u (sym (here (lowbits v))),
  )
  remove_in-Agrees b v (some c, b') (here, shape, valid, same) =
      let removes = remove-Removes (some c) (lowbits v) shape (low-lt v) in
      (
        removes.0 ∙ here (lowbits v),
        put_container-IsValid b' (highbits v) (remove (some c) (lowbits v)).0 valid removes.1,
        holds-put_container b b' v (remove (some c) (lowbits v)).0 (λ e x. not e && x) same
            (λ u. removes.2 u ∙ ap (λ (x : Bool). not (u == lowbits v) && x) (here u)) (λ x. refl),
      )

  apply_op-Agrees : (b : BtreeContainers T) (op : Op) → IsValid b → Agrees b op (apply_op b op)
  unfolding apply_op direct_add direct_remove
  apply_op-Agrees b (op_add v) p =
      add_in-Agrees b v (get_or_create b (highbits v)) (get_or_create-Opens b (highbits v) p)
  apply_op-Agrees b (op_remove v) p =
      remove_in-Agrees b v (get_container b (highbits v)) (get_container-Opens b (highbits v) p)

  -- What a membership query answers, and the set after it.
  Answers : BtreeContainers T → ℕ → Bool × BtreeContainers T → Type 0
  Answers b v (answer, b') = (answer ≡ holds b v) × IsValid b' × ((u : ℕ) → holds b' u ≡ holds b u)

  contains_in-Answers :
      (b : BtreeContainers T) (v : ℕ) (o : Option Container × BtreeContainers T)
      → Opens b (highbits v) o
      → Answers b v (contains_in v o)
  unfolding contains_in Answers
  contains_in-Answers b v (none, b') (here, shape, valid, same) =
      (here (lowbits v), valid, λ u. same (highbits u) (lowbits u))
  contains_in-Answers b v (some c, b') (here, shape, valid, same) = (
    contains-eq-members (some c) (lowbits v) shape ∙ here (lowbits v),
    valid,
    λ u. same (highbits u) (lowbits u),
  )

  bitmap_holds-eq-holds :
      (b : BtreeContainers T) (v : ℕ) → IsValid b → (bitmap_holds b v).0 ≡ holds b v
  unfolding bitmap_holds Answers
  bitmap_holds-eq-holds b v p =
      (contains_in-Answers b v (get_container b (highbits v))
        (get_container-Opens b (highbits v) p)).0

  -- A run of operations from containers that stand for the set `f`.
  Follows : (ℕ → Bool) → List Op → List Bool × BtreeContainers T → Type 0
  Follows f ops (reports, b') =
      (reports ≡ (set_ops f ops).0) × IsValid b' × ((u : ℕ) → holds b' u ≡ (set_ops f ops).1 u)

  apply_ops-Follows :
      (b : BtreeContainers T) (f : ℕ → Bool) (ops : List Op)
      → IsValid b
      → ((u : ℕ) → holds b u ≡ f u)
      → Follows f ops (apply_ops b ops)
  unfolding apply_ops Follows
  apply_ops-Follows b f [] p e = (refl, p, e)
  apply_ops-Follows b f (op ∷ ops) p e =
      let first = apply_op-Agrees b op p in
      let spec = set_op-same (λ (u : ℕ). holds b u) f op e in
      let rest =
        apply_ops-Follows (apply_op b op).1 (set_op f op).1 ops first.1
          (λ u. first.2 u ∙ spec.1 u) in
      (
        ap (λ (x : Bool). x ∷ (apply_ops (apply_op b op).1 ops).0) (first.0 ∙ spec.0)
            ∙ ap (λ (xs : List Bool). (set_op f op).0 ∷ xs) rest.0,
        rest.1,
        rest.2,
      )

-- For operations that each add or remove one value, on new containers over any B-tree: DirectAdd
-- and remove report a change exactly when the set of numbers changes, and afterwards Contains
-- answers for every number whether the set has it.
pub apply_ops-eq-set_ops :
    (T : TreeOps) (ops : List Op)
    → ((apply_ops (new_containers {T = T}) ops).0 ≡ (set_ops (λ (u : ℕ). false) ops).0)
      × ((v : ℕ)
          → (bitmap_holds (apply_ops (new_containers {T = T}) ops).1 v).0
            ≡ (set_ops (λ (u : ℕ). false) ops).1 v)
unfolding Follows
apply_ops-eq-set_ops T ops =
    let run =
      apply_ops-Follows (new_containers {T = T}) (λ (u : ℕ). false) ops (new_containers-IsValid T)
        (holds-new_containers T) in
    (run.0, λ v. bitmap_holds-eq-holds (apply_ops (new_containers {T = T}) ops).1 v run.1 ∙ run.2 v)
