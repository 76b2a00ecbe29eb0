-- ===== src/Cluster/Nodes/Members.antt =====
-- The list of nodes of cluster.go when it is sorted by ID: members and lookups.
use pilosa.Common.{
  ℕ, suc, ◌≤◌, ◌<◌, ◌≡◌, refl, ap, ◌∙◌, List, [], ◌∷◌, ◌++◌, false, ◌||◌, ltb, ◌==◌, if◌then◌else◌,
  Option, none, some, arith, Bool-cases, inl, inr,
}
use pilosa.Roaring.Sorted.{AscendingFrom, mem, mem_below}
use pilosa.Cluster.Nodes.{Node, ids, node_by_id, insert_by_id, sort_by_id}

-- A node of the list, or none, with another node in the place of its ID.
abbrev pub with_node : Node → List Node → ℕ → Option Node
with_node node ns i = if node.id == i then some node else node_by_id ns i

AscendingFrom-insert :
    (lo : ℕ) (x : Node) (ns : List Node)
    → lo ≤ x.id
    → AscendingFrom lo (ids ns)
    → mem x.id (ids ns) ≡ false
    → AscendingFrom lo (ids (insert_by_id x ns))
AscendingFrom-insert lo x [] h a m = (h, tt)
AscendingFrom-insert lo x (n ∷ ns) h a m = elim (Bool-cases (ltb n.id x.id)) [
  | inl e ↦ rw e (a.0, AscendingFrom-insert (suc n.id) x ns (ground arith) a.1 (ground arith))
  | inr e ↦ rw e (h, (ground arith, a.1))
]

mem-insert :
    (i : ℕ) (x : Node) (ns : List Node)
    → mem i (ids (insert_by_id x ns)) ≡ (i == x.id || mem i (ids ns))
mem-insert i x [] = refl
mem-insert i x (n ∷ ns) = ground (arith, mem-insert i x ns)

mem-sort : (i : ℕ) (ns : List Node) → mem i (ids (sort_by_id ns)) ≡ mem i (ids ns)
mem-sort i [] = refl
mem-sort i (n ∷ ns) = mem-insert i n (sort_by_id ns) ∙ ap (λ b. i == n.id || b) (mem-sort i ns)

mem-append :
    (i : ℕ) (x : Node) (ns : List Node)
    → mem i (ids (ns ++ (x ∷ []))) ≡ (mem i (ids ns) || i == x.id)
mem-append i x [] = ground arith
mem-append i x (n ∷ ns) = ground (arith, mem-append i x ns)

node_by_id-insert :
    (i : ℕ) (x : Node) (ns : List Node)
    → mem x.id (ids ns) ≡ false
    → node_by_id (insert_by_id x ns) i ≡ with_node x ns i
node_by_id-insert i x [] m = refl
node_by_id-insert i x (n ∷ ns) m = ground (arith, node_by_id-insert i x ns)

-- No ID occurs twice.
abbrev pub Distinct : List ℕ → Type 0
Distinct [] = Unit
Distinct (x ∷ xs) = (mem x xs ≡ false) × Distinct xs

pub sort_lem :
    (ns : List Node)
    → Distinct (ids ns)
    → AscendingFrom 0 (ids (sort_by_id ns))
      × ((i : ℕ) → node_by_id (sort_by_id ns) i ≡ node_by_id ns i)
sort_lem [] d = (tt, λ i. refl)
sort_lem (n ∷ ns) d =
    let rest = sort_lem ns d.1 in
    let m : mem n.id (ids (sort_by_id ns)) ≡ false = mem-sort n.id ns ∙ d.0 in
    (
      AscendingFrom-insert 0 n (sort_by_id ns) (omega arith) rest.0 m,
      λ i.
          node_by_id-insert i n (sort_by_id ns) m
          ∙ ap (λ r. if n.id == i then some n else r) (rest.1 i),
    )

pub Distinct-append :
    (lo : ℕ) (x : Node) (ns : List Node)
    → AscendingFrom lo (ids ns)
    → mem x.id (ids ns) ≡ false
    → Distinct (ids (ns ++ (x ∷ [])))
Distinct-append lo x [] a m = (refl, tt)
Distinct-append lo x (n ∷ ns) a m = (
  ground (arith, mem-append n.id x ns, mem_below (suc n.id) n.id (ids ns) a.1),
  Distinct-append (suc n.id) x ns a.1 (ground arith),
)

pub node_by_id-append :
    (i : ℕ) (x : Node) (ns : List Node)
    → mem x.id (ids ns) ≡ false
    → node_by_id (ns ++ (x ∷ [])) i ≡ with_node x ns i
node_by_id-append i x [] m = ground arith
node_by_id-append i x (n ∷ ns) m = ground (arith, node_by_id-append i x ns)

pub mem_of_none : (i : ℕ) (ns : List Node) → node_by_id ns i ≡ none → mem i (ids ns) ≡ false
mem_of_none i [] e = refl
mem_of_none i (n ∷ ns) e = ground (arith, mem_of_none i ns)

pub node_by_id-below :
    (lo i : ℕ) (ns : List Node) → AscendingFrom lo (ids ns) → i < lo → node_by_id ns i ≡ none
node_by_id-below lo i [] a h = refl
node_by_id-below lo i (n ∷ ns) a h = ground (arith, node_by_id-below (suc n.id) i ns a.1)
