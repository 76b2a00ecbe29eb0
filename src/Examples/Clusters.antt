-- ===== src/Examples/Clusters.antt =====
-- Node lists, fragment lists and bit depths at concrete inputs.
use pilosa.Common.{
  ℕ, some, none, if◌then◌else◌, ◌%◌, ◌≡◌, refl, ◌-◌, ◌^◌, List, [], ◌∷◌, true, false, arith, ltb,
  leb, ◌+◌,
}
use pilosa.Common.Int.{negsuc, abs_ℕ}
use pilosa.Roaring.Sorted.{AscendingFrom}
use pilosa.Cluster.Nodes.{Node, ids, add_node_basic_sorted, remove_node_basic_sorted}
use pilosa.Cluster.Nodes.Changes
use pilosa.Cluster.Nodes.Changes.{AddsNode, RemovesFrom}
use pilosa.Cluster.Placement.{partition_nodes, collect}
use pilosa.Cluster.Placement.Ring
use pilosa.Cluster.Frags
use pilosa.Cluster.Frags.{Frag, frags_diff, occurrences}
use pilosa.Cluster.Resize.{action_add, job_done, mark_all, mark_complete, new_resize_job, run_job}
use pilosa.Cluster.Resize.Completion.{reported, mark_complete-sends_done}
use pilosa.Field.Depth
use pilosa.Field.Depth.{bit_depth_int64, bit_depth, bit_depth_loop}

abbrev node : ℕ → Node
node i = record { id = i; uri = 100 + i; is_coordinator = false; state = 0 }

abbrev three : List Node
three = node 2 ∷ node 5 ∷ node 9 ∷ []

three-AscendingFrom : AscendingFrom 0 (ids three)
three-AscendingFrom = omega arith

add_node_test :
    add_node_basic_sorted three (node 4) ≡ (node 2 ∷ node 4 ∷ node 5 ∷ node 9 ∷ [], true)
unfolding add_node_basic_sorted
add_node_test = refl

add_node_basic_sorted-AddsNode_example :
    AddsNode three (node 4) (add_node_basic_sorted three (node 4))
add_node_basic_sorted-AddsNode_example =
    Changes.add_node_basic_sorted-AddsNode three (node 4) three-AscendingFrom

remove_node_basic_sorted-RemovesFrom_example :
    RemovesFrom 0 three 5 (remove_node_basic_sorted three 5)
remove_node_basic_sorted-RemovesFrom_example =
    Changes.remove_node_basic_sorted-RemovesFrom three 5 three-AscendingFrom

abbrev frag : ℕ → Frag
frag i = record { field = 1; view = 2; shard = i }

abbrev some_frags : List Frag
some_frags = frag 1 ∷ frag 2 ∷ frag 1 ∷ []

abbrev other_frags : List Frag
other_frags = frag 1 ∷ frag 7 ∷ []

occurrences-frags_diff_example :
    occurrences (frag 1) (frags_diff some_frags other_frags)
    ≡ occurrences (frag 1) some_frags - occurrences (frag 1) other_frags
occurrences-frags_diff_example = Frags.occurrences-frags_diff (frag 1) some_frags other_frags

bit_depth_test : bit_depth_int64 (negsuc 7) ≡ 4
unfolding bit_depth_int64 bit_depth bit_depth_loop
bit_depth_test = refl

lt-bit_depth_int64_example : ltb 3 (bit_depth_int64 (negsuc 7)) ≡ leb (2 ^ 3) (abs_ℕ (negsuc 7))
lt-bit_depth_int64_example = Depth.lt-bit_depth_int64 (negsuc 7) 3 (omega arith)

-- A hasher that takes the key modulo the number of buckets.
abbrev modulo : ℕ → ℕ → ℕ
modulo key n = key % n

partition_nodes_test : partition_nodes modulo 2 three 8 ≡ some (node 9 ∷ node 2 ∷ [])
unfolding partition_nodes collect
partition_nodes_test = refl

-- A node joins three others; the last of them reports after the new node.
mark_complete-sends_done_example :
    (mark_complete
      (mark_all (run_job (new_resize_job (2 ∷ 5 ∷ 9 ∷ []) 7 action_add) true).1 (9 ∷ 7 ∷ 2 ∷ []))
      5
      false).0
    ≡ (
      if reported (2 ∷ 5 ∷ 9 ∷ []) 7 action_add (9 ∷ 7 ∷ 2 ∷ 5 ∷ []) then some job_done else none,
      false,
    )
mark_complete-sends_done_example =
    mark_complete-sends_done (2 ∷ 5 ∷ 9 ∷ []) 7 action_add (9 ∷ 7 ∷ 2 ∷ []) 5

reported_test : reported (2 ∷ 5 ∷ 9 ∷ []) 7 action_add (9 ∷ 7 ∷ 2 ∷ 5 ∷ []) ≡ true
reported_test = refl
