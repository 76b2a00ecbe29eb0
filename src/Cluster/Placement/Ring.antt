-- ===== src/Cluster/Placement/Ring.antt =====
-- `partitionNodes` of cluster.go walks the ring of nodes and takes each at most once.
use pilosa.Common.{
  ℕ, ◌+◌, ◌%◌, ◌<◌, ◌≡◌, List, true, false, ◌&&◌, Option, none, some, length, get_elem?,
}
use pilosa.Roaring.Sorted.{mem}
use pilosa.Cluster.Nodes.{Node, ids}
use pilosa.Cluster.Nodes.Members.{Distinct}

-- The nodes are `count` many, no ID occurs twice, and every ID is one of the list `ns`.
abbrev pub IsPlacement : List Node → ℕ → Option (List Node) → Type 0
IsPlacement ns count none = true ≡ false
IsPlacement ns count (some l) =
    (length l ≡ count)
    × Distinct (ids l)
    × ((c : ℕ) → (mem c (ids l) && mem c (ids ns)) ≡ mem c (ids l))

-- No node that the ring has before round `i` is taken.
abbrev Fresh : List Node → ℕ → ℕ → Option (List Node) → Type 0
Fresh ns x i none = true ≡ false
Fresh ns x i (some l) =
    (j : ℕ) (a : Node)
    → j < i
    → get_elem? ns ((x + j) % length ns) ≡ some a
    → mem a.id (ids l) ≡ false
