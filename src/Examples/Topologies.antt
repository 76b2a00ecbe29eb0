-- ===== src/Examples/Topologies.antt =====
-- Topologies, cluster states and differences of node lists at concrete inputs.
use pilosa.Common.{
  ℕ, ◌+◌, ◌≡◌, refl, List, [], ◌∷◌, true, false, if◌then◌else◌, none, some, ◌==◌, arith,
}
use pilosa.Roaring.Sorted.{AscendingFrom, mem}
use pilosa.Cluster.Nodes.{Node, ids, add_node_basic_sorted, remove_node_basic_sorted}
use pilosa.Cluster.Resize.{action_add, action_remove}
use pilosa.Cluster.Topology.{Cluster, state_starting, receive_node_state, node_state_ready}
use pilosa.Cluster.Topology.Ids.{
  added, dropped, Change, apply_changes, change_sets, IsSliceOf, apply_changes-eq-change_sets,
}
use pilosa.Cluster.Topology.States.{Received, receive_node_state-Received}
use pilosa.Cluster.Diff.{same_size, one_node, failed, diff}
use pilosa.Cluster.Diff.Finds.{Finds}
use pilosa.Cluster.Diff.Changes.{diff-eq-change}

abbrev node : ℕ → Node
node i = record { id = i; uri = 100 + i; is_coordinator = false; state = 0 }

abbrev two : List Node
two = node 2 ∷ node 5 ∷ []

abbrev three : List Node
three = node 2 ∷ node 5 ∷ node 9 ∷ []

three-AscendingFrom : AscendingFrom 0 (ids three)
three-AscendingFrom = omega arith

diff-eq-change_example :
    (diff three (add_node_basic_sorted three (node 4)).0
      ≡ (if mem 4 (ids three) then failed same_size else one_node action_add (some 4)))
    × (diff three (remove_node_basic_sorted three 5).0
        ≡ (if mem 5 (ids three) then one_node action_remove (some 5) else failed same_size))
diff-eq-change_example = diff-eq-change three (node 4) 5 three-AscendingFrom

abbrev changes : List Change
changes = added 5 ∷ added 2 ∷ added 5 ∷ dropped 5 ∷ dropped 7 ∷ []

apply_changes_example :
    IsSliceOf (change_sets (λ (c : ℕ). false) changes).0 (apply_changes none changes).0
    × ((apply_changes none changes).1 ≡ (change_sets (λ (c : ℕ). false) changes).1)
apply_changes_example = apply_changes-eq-change_sets changes

change_sets_test :
    (change_sets (λ (c : ℕ). false) changes).1 ≡ (true ∷ true ∷ false ∷ true ∷ false ∷ [])
change_sets_test = refl

-- The last node to become ready.
abbrev cluster : Cluster
cluster = record {
  nodes = three;
  topology = record {
    node_ids = some (2 ∷ 5 ∷ 9 ∷ []);
    node_states = λ i. if i == 5 then 0 else node_state_ready;
  };
  cluster_state = state_starting;
  is_static = false;
  replica_n = 2;
}

receive_node_state_example :
    Received true cluster 5 node_state_ready (receive_node_state true cluster 5 node_state_ready)
receive_node_state_example = receive_node_state-Received true cluster 5 node_state_ready
