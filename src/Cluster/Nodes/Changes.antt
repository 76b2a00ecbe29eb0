-- ===== src/Cluster/Nodes/Changes.antt =====
-- What adding and removing a node does to the node list of cluster.go.
use pilosa.Common.{
  ℕ, suc, ◌≤◌, ◌≡◌, refl, ap, ◌∙◌, List, [], ◌∷◌, ◌++◌, Bool, true, false, ◌==◌, if◌then◌else◌,
  Option, none, some, arith, Bool-cases, Option-cases, inl, inr,
}
use pilosa.Roaring.Sorted.{AscendingFrom, AscendingFrom-weaken, mem}
use pilosa.Cluster.Nodes.{
  Node, ids, node_by_id, node_position_by_id, next_position, remove_position, same_node,
  update_node, add_node_basic_sorted, remove_node_basic_sorted,
}
use pilosa.Cluster.Nodes.Members.{
  with_node, sort_lem, Distinct-append, node_by_id-append, mem_of_none, node_by_id-below,
}

found_id : (i : ℕ) (n : Node) (ns : List Node) → node_by_id ns i ≡ some n → n.id ≡ i
found_id i n [] e = ground arith
found_id i n (m ∷ ns) e = ground (arith, found_id i n ns)

same_node_lem : (n node : Node) → n.id ≡ node.id → same_node n node ≡ true → n ≡ node
same_node_lem n node i e = ground arith

ids-update_node : (node : Node) (ns : List Node) → ids (update_node node ns) ≡ ids ns
ids-update_node node [] = refl
ids-update_node node (n ∷ ns) = elim (Bool-cases (n.id == node.id)) [
  | inl e ↦ rw e refl
  | inr e ↦ rw e (ap (λ l. n.id ∷ l) (ids-update_node node ns))
]

node_by_id-update_node :
    (i : ℕ) (n node : Node) (ns : List Node)
    → node_by_id ns node.id ≡ some n
    → node_by_id (update_node node ns) i ≡ with_node node ns i
node_by_id-update_node i n node [] e = ground arith
node_by_id-update_node i n node (m ∷ ns) e = ground (arith, node_by_id-update_node i n node ns)

-- A list sorted by ID that has the node in the place of its ID, and the other nodes as they were.
abbrev pub AddsNode : List Node → Node → List Node × Bool → Type 0
AddsNode ns node (ns', changed) =
    AscendingFrom 0 (ids ns') × ((i : ℕ) → node_by_id ns' i ≡ with_node node ns i)

-- On a node list sorted by ID without duplicates, addNodeBasicSorted leaves such a list, in which
-- an ID looks up the given node if it is that node's, and else what it looked up before.
pub add_node_basic_sorted-AddsNode :
    (ns : List Node) (node : Node)
    → AscendingFrom 0 (ids ns)
    → AddsNode ns node (add_node_basic_sorted ns node)
unfolding add_node_basic_sorted
add_node_basic_sorted-AddsNode ns node a = elim (Option-cases (node_by_id ns node.id)) [
  | inl e ↦
      rw (add_node_basic_sorted, e)
        (let m = mem_of_none node.id ns e in
          let s = sort_lem (ns ++ (node ∷ [])) (Distinct-append 0 node ns a m) in
          (s.0, λ i. s.1 i ∙ node_by_id-append i node ns m))
  | inr (n, e) ↦ elim (Bool-cases (same_node n node)) [
    | inl s ↦
        rw (add_node_basic_sorted, e, s)
          (a, λ i. ground (arith, e, same_node_lem n node (found_id node.id n ns e) s))
    | inr s ↦
        rw (add_node_basic_sorted, e, s)
          ((rw (ids-update_node node ns) a), λ i. node_by_id-update_node i n node ns e)
  ]
]

-- A list sorted by ID that has lost the node with an ID, with whether it was there.
abbrev pub RemovesFrom : ℕ → List Node → ℕ → List Node × Bool → Type 0
RemovesFrom lo ns id (ns', removed) =
    AscendingFrom lo (ids ns')
    × ((i : ℕ) → node_by_id ns' i ≡ (if i == id then none else node_by_id ns i))
    × (removed ≡ mem id (ids ns))

keep_lem :
    (lo id : ℕ) (n : Node) (ns : List Node) (o : Option ℕ)
    → lo ≤ n.id
    → (n.id == id) ≡ false
    → RemovesFrom (suc n.id) ns id (remove_position o ns)
    → RemovesFrom lo (n ∷ ns) id (remove_position (next_position o) (n ∷ ns))
keep_lem lo id n ns none h d r = ((h, r.0), λ i. ground (arith, r.1 i), ground arith)
keep_lem lo id n ns (some k) h d r = ((h, r.0), λ i. ground (arith, r.1 i), ground arith)

remove_from_lem :
    (lo id : ℕ) (ns : List Node)
    → AscendingFrom lo (ids ns)
    → RemovesFrom lo ns id (remove_position (node_position_by_id ns id) ns)
unfolding node_position_by_id
remove_from_lem lo id [] a = (tt, λ i. ground arith, refl)
remove_from_lem lo id (n ∷ ns) a = elim (Bool-cases (n.id == id)) [
  | inl e ↦ rw e (
    AscendingFrom-weaken lo (suc n.id) (ids ns) (omega (arith, a.0)) a.1,
    λ i. ground (arith, node_by_id-below (suc n.id) i ns a.1),
    ground arith,
  )
  | inr e ↦
      rw e (
        keep_lem lo id n ns (node_position_by_id ns id) a.0 e
          (remove_from_lem (suc n.id) id ns a.1))
]

-- On a node list sorted by ID without duplicates, removeNodeBasicSorted leaves such a list, in
-- which the given ID looks up nothing and any other what it looked up before, and reports whether
-- the list had the ID.
pub remove_node_basic_sorted-RemovesFrom :
    (ns : List Node) (id : ℕ)
    → AscendingFrom 0 (ids ns)
    → RemovesFrom 0 ns id (remove_node_basic_sorted ns id)
unfolding remove_node_basic_sorted
remove_node_basic_sorted-RemovesFrom ns id a = remove_from_lem 0 id ns a
