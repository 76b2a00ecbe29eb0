-- ===== src/Cluster/Placement.antt =====
-- The nodes that own a partition in cluster.go. The `Hasher` is a parameter.
pub mod Ring
use pilosa.Common.{
  ℕ, zero, suc, ◌+◌, ◌%◌, List, [], ◌∷◌, Bool, ltb, ◌==◌, if◌then◌else◌, Option, none, some, length,
  get_elem?,
}
use pilosa.Cluster.Nodes.{Node}

-- The replica count that `partitionNodes` takes.
abbrev pub replicas : ℕ → ℕ → ℕ
replicas replica_n len = if ltb len replica_n then len else if replica_n == 0 then 1 else replica_n

-- `nodes[i] = node`, in front of the rest.
abbrev pub take_node : Option Node → Option (List Node) → Option (List Node)
take_node none rest = none
take_node (some node) none = none
take_node (some node) (some rest) = some (node ∷ rest)

-- The loop of `partitionNodes`, with its rounds left; `none` is a panic of the index or of `%`.
unfoldable pub collect : List Node → ℕ → ℕ → ℕ → Option (List Node)
collect ns node_index i zero = some []
collect ns node_index i (suc rounds) =
    take_node (get_elem? ns ((node_index + i) % length ns)) (collect ns node_index (i + 1) rounds)

unfoldable pub partition_nodes : (ℕ → ℕ → ℕ) → ℕ → List Node → ℕ → Option (List Node)
partition_nodes hash replica_n ns partition_id =
    collect ns (hash partition_id (length ns)) 0 (replicas replica_n (length ns))
