-- ===== src/Cluster/Topology.antt =====
-- The topology of cluster.go: the IDs of the nodes that belong to the cluster, and their states as
-- the coordinator knows them. The state of the cluster follows from it. A state of a node is a
-- number in place of a string; a node that has reported none has the state 0, the empty string.
pub mod Ids
pub mod States
use pilosa.Common.{
  ℕ, zero, suc, ◌-◌, List, [], ◌∷◌, ◌++◌, Bool, true, false, not, ◌&&◌, ◌||◌, ltb, ◌==◌, ◌+◌,
  if◌then◌else◌, length, Option, none, some,
}
use pilosa.Cluster.Nodes.{Node, ids, next_position}

-- A slice of IDs; `none` is Go's nil.
abbrev pub Slice : Type 0
Slice = Option (List ℕ)

abbrev pub elements : Slice → List ℕ
elements none = []
elements (some tids) = tids

pub record Topology : Type 0 where
  pub node_ids : Slice
  pub node_states : ℕ → ℕ

-- `containsID`.
unfoldable pub contains_id : List ℕ → ℕ → Bool
contains_id [] id = false
contains_id (tid ∷ tids) id = tid == id || contains_id tids id

-- `positionByID`; `none` is Go's -1.
unfoldable pub position_by_id : List ℕ → ℕ → Option ℕ
position_by_id [] id = none
position_by_id (tid ∷ tids) id =
    let rest = next_position (position_by_id tids id) in if tid == id then some 0 else rest

-- `sort.Slice` with the order of the IDs.
abbrev pub insert_id : ℕ → List ℕ → List ℕ
insert_id id [] = id ∷ []
insert_id id (tid ∷ tids) =
    let rest = insert_id id tids in if ltb tid id then tid ∷ rest else id ∷ tid ∷ tids

abbrev pub sort_ids : List ℕ → List ℕ
sort_ids [] = []
sort_ids (tid ∷ tids) = insert_id tid (sort_ids tids)

unfoldable pub add_id : Slice → ℕ → Slice × Bool
add_id tids id =
    if contains_id (elements tids) id
    then (tids, false)
    else (some (sort_ids (elements tids ++ (id ∷ []))), true)

-- `copy(t.nodeIDs[i:], t.nodeIDs[i+1:])`, and the last one dropped.
abbrev pub drop_at : ℕ → List ℕ → List ℕ
drop_at i [] = []
drop_at zero (tid ∷ tids) = tids
drop_at (suc i) (tid ∷ tids) = tid ∷ drop_at i tids

abbrev pub drop_position : Option ℕ → Slice → Slice × Bool
drop_position none tids = (tids, false)
drop_position (some i) tids = (some (drop_at i (elements tids)), true)

unfoldable pub remove_id : Slice → ℕ → Slice × Bool
remove_id tids id = drop_position (position_by_id (elements tids) id) tids

-- The states of a cluster.
pub data ClusterState : Type 0 where
  state_starting : ClusterState
  state_degraded : ClusterState
  state_normal : ClusterState
  state_resizing : ClusterState

-- `READY`.
abbrev pub node_state_ready : ℕ
node_state_ready = 1

-- The loop of `stringSlicesAreEqual` on two lists of one length.
unfoldable pub all_equal : List ℕ → List ℕ → Bool
all_equal [] bs = true
all_equal (a ∷ as') [] = true
all_equal (a ∷ as') (b ∷ bs) = a == b && all_equal as' bs

unfoldable pub slices_are_equal : Slice → Slice → Bool
slices_are_equal none none = true
slices_are_equal none (some bs) = false
slices_are_equal (some as') none = false
slices_are_equal (some as') (some bs) = length as' == length bs && all_equal as' bs

pub record Cluster : Type 0 where
  pub nodes : List Node
  pub topology : Topology
  pub cluster_state : ClusterState
  pub is_static : Bool
  pub replica_n : ℕ

unfoldable pub have_topology_agreement : Cluster → Bool
have_topology_agreement c = c.is_static || slices_are_equal c.topology.node_ids (some (ids c.nodes))

unfoldable pub all_ready : (ℕ → ℕ) → List ℕ → Bool
all_ready states [] = true
all_ready states (id ∷ rest) = states id == node_state_ready && all_ready states rest

unfoldable pub all_nodes_ready : Cluster → Bool
all_nodes_ready c = c.is_static || all_ready c.topology.node_states (ids c.nodes)

abbrev pub is_resizing : ClusterState → Bool
is_resizing state_resizing = true
is_resizing state_starting = false
is_resizing state_degraded = false
is_resizing state_normal = false

-- `len(a) - len(b) < n` for Go's signed integers.
abbrev pub missing_below : ℕ → ℕ → ℕ → Bool
missing_below a b n = ltb a (b + n)

unfoldable pub determine_cluster_state : Cluster → ClusterState
determine_cluster_state c =
    if is_resizing c.cluster_state
    then state_resizing
    else if have_topology_agreement c && all_nodes_ready c
    then state_normal
    else if missing_below (length (elements c.topology.node_ids)) (length (ids c.nodes)) c.replica_n
        && all_nodes_ready c
    then state_degraded
    else state_starting

-- The state of a node in the list, through its pointer.
abbrev pub set_node_state : ℕ → ℕ → List Node → List Node
set_node_state id state [] = []
set_node_state id state (n ∷ ns) =
    (if n.id == id then record n { state = state } else n) ∷ set_node_state id state ns

abbrev pub put_state : ℕ → ℕ → (ℕ → ℕ) → ℕ → ℕ
put_state id state states i = if i == id then state else states i

-- `receiveNodeState`: the cluster, and the state that it gives it, if any. Telling the other nodes
-- is left out, and so is the clean-up after a resize.
unfoldable pub receive_node_state : Bool → Cluster → ℕ → ℕ → Cluster × Option ClusterState
receive_node_state is_coordinator c node_id state =
    let t : Topology = record {
      node_ids = c.topology.node_ids;
      node_states = put_state node_id state c.topology.node_states;
    } in
    let known : Cluster = record c { topology = t; nodes = set_node_state node_id state c.nodes } in
    if not is_coordinator
    then (c, none)
    else if c.topology.node_states node_id == state
    then (c, none)
    else (
      record known { cluster_state = determine_cluster_state known },
      some (determine_cluster_state known),
    )
