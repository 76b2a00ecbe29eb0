-- ===== src/Cluster/Diff.antt =====
-- `diff` of cluster.go: which one node another node list adds or removes.
pub mod Finds
pub mod Changes
use pilosa.Common.{
  ℕ, suc, ◌-◌, List, [], ◌∷◌, Bool, true, false, ltb, ◌==◌, if◌then◌else◌, length, Option, none,
  some,
}
use pilosa.Cluster.Nodes.{Node, node_by_id}
use pilosa.Cluster.Resize.{JobAction, action_add, action_remove}

-- The errors of `diff`.
pub data DiffError : Type 0 where
  same_size : DiffError
  adding_many : DiffError
  removing_many : DiffError

-- An action with the ID of its node, where `none` is the empty string, or an error.
pub data Diffed : Type 0 where
  one_node : JobAction → Option ℕ → Diffed
  failed : DiffError → Diffed

abbrev pub is_none : Option Node → Bool
is_none none = true
is_none (some n) = false

-- The first node whose ID the other list does not have.
unfoldable pub first_unknown : List Node → List Node → Option ℕ
first_unknown [] other = none
first_unknown (n ∷ ns) other =
    let rest = first_unknown ns other in if is_none (node_by_id other n.id) then some n.id else rest

unfoldable pub diff : List Node → List Node → Diffed
diff from to =
    let len_from = length from in
    let len_to = length to in
    if len_from == len_to
    then failed same_size
    else if ltb len_from len_to
    then (if ltb 1 (len_to - len_from)
        then failed adding_many
        else one_node action_add (first_unknown to from))
    else if ltb 1 (len_from - len_to)
    then failed removing_many
    else one_node action_remove (first_unknown from to)
