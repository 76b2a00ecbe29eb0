-- ===== src/Cluster/Nodes.antt =====
-- The list of nodes in cluster.go. An ID is a number in place of a string, of which the program
-- uses equality and order; so is a URI, of which it uses equality.
pub mod Members
pub mod Changes
use pilosa.Common.{
  ℕ, zero, suc, ◌+◌, List, [], ◌∷◌, ◌++◌, Bool, true, false, not, ◌&&◌, ◌||◌, ltb, leb, ◌==◌,
  if◌then◌else◌, Option, none, some,
}

pub record Node : Type 0 where
  pub id : ℕ
  pub uri : ℕ
  pub is_coordinator : Bool
  pub state : ℕ

-- `Nodes.IDs`.
abbrev pub ids : List Node → List ℕ
ids [] = []
ids (n ∷ ns) = n.id ∷ ids ns

-- `unprotectedNodeByID`; `none` is Go's nil.
abbrev pub node_by_id : List Node → ℕ → Option Node
node_by_id [] i = none
node_by_id (n ∷ ns) i = if n.id == i then some n else node_by_id ns i

abbrev pub next_position : Option ℕ → Option ℕ
next_position none = none
next_position (some k) = some (suc k)

-- `nodePositionByID`; `none` is Go's -1.
unfoldable pub node_position_by_id : List Node → ℕ → Option ℕ
node_position_by_id [] i = none
node_position_by_id (n ∷ ns) i =
    let rest = next_position (node_position_by_id ns i) in if n.id == i then some 0 else rest

abbrev same : Bool → Bool → Bool
same true b = b
same false b = not b

abbrev pub same_node : Node → Node → Bool
same_node n node =
    n.state == node.state && same n.is_coordinator node.is_coordinator && n.uri == node.uri

-- The update of the node with an ID, through the pointer that `unprotectedNodeByID` returns.
abbrev pub update_node : Node → List Node → List Node
update_node node [] = []
update_node node (n ∷ ns) =
    let rest = update_node node ns in
    if n.id == node.id
    then record n { state = node.state; is_coordinator = node.is_coordinator; uri = node.uri } ∷ ns
    else n ∷ rest

abbrev pub insert_by_id : Node → List Node → List Node
insert_by_id node [] = node ∷ []
insert_by_id node (n ∷ ns) =
    let rest = insert_by_id node ns in if ltb n.id node.id then n ∷ rest else node ∷ n ∷ ns

-- `sort.Sort(byID(nodes))`.
abbrev pub sort_by_id : List Node → List Node
sort_by_id [] = []
sort_by_id (n ∷ ns) = insert_by_id n (sort_by_id ns)

-- `addNodeBasicSorted`: the nodes, and whether they changed.
unfoldable pub add_node_basic_sorted : List Node → Node → List Node × Bool
add_node_basic_sorted ns node = elim (node_by_id ns node.id) [
  | none ↦ (sort_by_id (ns ++ (node ∷ [])), true)
  | some n ↦ if same_node n node then (ns, false) else (update_node node ns, true)
]

-- `copy(nodes[i:], nodes[i+1:])`, and the last one dropped.
abbrev pub remove_at : ℕ → List Node → List Node
remove_at i [] = []
remove_at zero (n ∷ ns) = ns
remove_at (suc i) (n ∷ ns) = n ∷ remove_at i ns

abbrev pub remove_position : Option ℕ → List Node → List Node × Bool
remove_position none ns = (ns, false)
remove_position (some i) ns = (remove_at i ns, true)

-- `removeNodeBasicSorted`.
unfoldable pub remove_node_basic_sorted : List Node → ℕ → List Node × Bool
remove_node_basic_sorted ns node_id = remove_position (node_position_by_id ns node_id) ns
