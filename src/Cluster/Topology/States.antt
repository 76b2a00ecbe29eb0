-- ===== src/Cluster/Topology/States.antt =====
-- What the state of a cluster says of its nodes.
use mathlib.Core.Path.{subst}
use pilosa.Common.{
  ℕ, ◌+◌, ◌<◌, ◌≡◌, refl, sym, ap, ◌∙◌, List, [], ◌∷◌, Bool, true, false, ◌&&◌, ◌==◌, if◌then◌else◌,
  length, Option, none, some, arith, Bool-cases, ◌⊎◌, inl, inr, ◌≢◌, zero, suc, get_elem?,
}
use pilosa.Cluster.Nodes.{Node, ids}
use pilosa.Cluster.Topology.{
  Slice, elements, Topology, ClusterState, state_starting, state_degraded, state_normal,
  state_resizing, node_state_ready, all_equal, slices_are_equal, Cluster, have_topology_agreement,
  all_ready, all_nodes_ready, is_resizing, missing_below, determine_cluster_state, set_node_state,
  put_state, receive_node_state,
}

all_equal_lem : (as' bs : List ℕ) → length as' ≡ length bs → all_equal as' bs ≡ true → as' ≡ bs
unfolding all_equal
all_equal_lem [] [] e h = refl
all_equal_lem [] (b ∷ bs) e h = absurd (omega arith)
all_equal_lem (a ∷ as') [] e h = absurd (omega arith)
all_equal_lem (a ∷ as') (b ∷ bs) e h =
    let first : a ≡ b = ground arith in
    let rest : as' ≡ bs = all_equal_lem as' bs (omega arith) (ground arith) in
    ap (λ (x : ℕ). x ∷ as') first ∙ ap (λ (xs : List ℕ). b ∷ xs) rest

all_equal-same : (as' : List ℕ) → all_equal as' as' ≡ true
unfolding all_equal
all_equal-same [] = refl
all_equal-same (a ∷ as') = ground (arith, all_equal-same as')

slices_are_equal_lem : (s : Slice) (bs : List ℕ) → slices_are_equal s (some bs) ≡ true → s ≡ some bs
unfolding slices_are_equal
slices_are_equal_lem none bs h = absurd (ground arith)
slices_are_equal_lem (some as') bs h =
    ap (λ (xs : List ℕ). some xs) (all_equal_lem as' bs (ground arith) (ground arith))

slices_are_equal-same : (bs : List ℕ) → slices_are_equal (some bs) (some bs) ≡ true
unfolding slices_are_equal
slices_are_equal-same bs = ground (arith, all_equal-same bs)

-- The IDs of the topology are those of the nodes, in their order.
abbrev pub Agrees : Cluster → Type 0
Agrees c = (c.is_static ≡ true) ⊎ (c.topology.node_ids ≡ some (ids c.nodes))

-- Every node has reported that it is ready.
abbrev pub AllReady : (ℕ → ℕ) → List ℕ → Type 0
AllReady states [] = Unit
AllReady states (id ∷ rest) = (states id ≡ node_state_ready) × AllReady states rest

abbrev pub Ready : Cluster → Type 0
Ready c = (c.is_static ≡ true) ⊎ AllReady c.topology.node_states (ids c.nodes)

agrees_lem : (c : Cluster) → have_topology_agreement c ≡ true → Agrees c
unfolding have_topology_agreement
agrees_lem c h = elim (Bool-cases c.is_static) [
  | inl fixed ↦ inl fixed
  | inr free ↦ inr (slices_are_equal_lem c.topology.node_ids (ids c.nodes) (ground arith))
]

agreement_lem : (c : Cluster) → Agrees c → have_topology_agreement c ≡ true
unfolding have_topology_agreement
agreement_lem c (inl fixed) = rw fixed refl
agreement_lem c (inr same) = elim (Bool-cases c.is_static) [
  | inl fixed ↦ rw fixed refl
  | inr free ↦ rw (free, same) (slices_are_equal-same (ids c.nodes))
]

all_ready_lem : (states : ℕ → ℕ) (l : List ℕ) → all_ready states l ≡ true → AllReady states l
unfolding all_ready
all_ready_lem states [] h = tt
all_ready_lem states (id ∷ rest) h = (ground arith, all_ready_lem states rest (ground arith))

ready_list_lem : (states : ℕ → ℕ) (l : List ℕ) → AllReady states l → all_ready states l ≡ true
unfolding all_ready
ready_list_lem states [] h = refl
ready_list_lem states (id ∷ rest) (first, later) = ground (arith, ready_list_lem states rest later)

ready_lem : (c : Cluster) → all_nodes_ready c ≡ true → Ready c
unfolding all_nodes_ready
ready_lem c h = elim (Bool-cases c.is_static) [
  | inl fixed ↦ inl fixed
  | inr free ↦ inr (all_ready_lem c.topology.node_states (ids c.nodes) (ground arith))
]

readiness_lem : (c : Cluster) → Ready c → all_nodes_ready c ≡ true
unfolding all_nodes_ready
readiness_lem c (inl fixed) = rw fixed refl
readiness_lem c (inr all) = elim (Bool-cases c.is_static) [
  | inl fixed ↦ rw fixed refl
  | inr free ↦ rw free (ready_list_lem c.topology.node_states (ids c.nodes) all)
]

-- Fewer nodes of the topology are missing than there are replicas.
abbrev pub FewMissing : Cluster → Type 0
FewMissing c = length (elements c.topology.node_ids) < length (ids c.nodes) + c.replica_n

-- What a state that follows the state `before` says of the cluster.
abbrev pub Serves : ClusterState → Cluster → ClusterState → Type 0
Serves before c state_resizing = is_resizing before ≡ true
Serves before c state_normal = (is_resizing before ≡ false) × Agrees c × Ready c
Serves before c state_degraded =
    (is_resizing before ≡ false) × (¬ Agrees c × (FewMissing c × Ready c))
Serves before c state_starting =
    (is_resizing before ≡ false) × (¬ Ready c ⊎ (¬ Agrees c × ¬ FewMissing c))

pub determine_cluster_state-Serves :
    (c : Cluster) → Serves c.cluster_state c (determine_cluster_state c)
unfolding determine_cluster_state
determine_cluster_state-Serves c =
    let result : ClusterState → Type 0 = λ s. Serves c.cluster_state c s in
    elim (Bool-cases (is_resizing c.cluster_state)) [
      | inl resizing ↦
          let made : determine_cluster_state c ≡ state_resizing = rw resizing refl in
          subst result (sym made) resizing
      | inr settled ↦ elim (Bool-cases (all_nodes_ready c)) [
        | inl ready ↦ elim (Bool-cases (have_topology_agreement c)) [
          | inl agreed ↦
              let made : determine_cluster_state c ≡ state_normal =
                rw (settled, agreed, ready) refl in
              subst result (sym made) (settled, agrees_lem c agreed, ready_lem c ready)
          | inr apart ↦
              let differ : ¬ Agrees c = λ a. ground (arith, agreement_lem c a) in
              elim (Bool-cases (
                missing_below (length (elements c.topology.node_ids)) (length (ids c.nodes))
                  c.replica_n)) [
                    | inl few ↦
                        let made : determine_cluster_state c ≡ state_degraded =
                          rw (settled, apart, few, ready) refl in
                        subst result (sym made)
                          (settled, (differ, (ground arith, ready_lem c ready)))
                    | inr many ↦
                        let made : determine_cluster_state c ≡ state_starting =
                          rw (settled, apart, many) refl in
                        subst result (sym made) (settled, inr (differ, λ f. ground arith))
                  ]
        ]
        | inr waiting ↦
            let made : determine_cluster_state c ≡ state_starting =
              rw (settled, waiting)
                (no_state (have_topology_agreement c) (
                  missing_below (length (elements c.topology.node_ids)) (length (ids c.nodes))
                    c.replica_n)) in
            subst result (sym made) (settled, inl (λ r. ground (arith, readiness_lem c r)))
      ]
    ]
  where
    no_state :
        (a b : Bool)
        → (if a && false
            then state_normal
            else if b && false
            then state_degraded
            else state_starting)
          ≡ state_starting
    no_state true true = refl
    no_state true false = refl
    no_state false true = refl
    no_state false false = refl

ids-set_node_state : (id state : ℕ) (ns : List Node) → ids (set_node_state id state ns) ≡ ids ns
ids-set_node_state id state [] = refl
ids-set_node_state id state (n ∷ ns) = elim (Bool-cases (n.id == id)) [
  | inl same ↦ rw same (ap (λ (l : List ℕ). n.id ∷ l) (ids-set_node_state id state ns))
  | inr other ↦ rw other (ap (λ (l : List ℕ). n.id ∷ l) (ids-set_node_state id state ns))
]

-- A node, if any, after the report of a state: the node with the ID has it, another is as it was.
pub told : ℕ → ℕ → Option Node → Option Node
told id state none = none
told id state (some n) = some (if n.id == id then record n { state = state } else n)

get_elem?-set_node_state :
    (id state : ℕ) (ns : List Node) (k : ℕ)
    → get_elem? (set_node_state id state ns) k ≡ told id state (get_elem? ns k)
unfolding told
get_elem?-set_node_state id state [] k = refl
get_elem?-set_node_state id state (n ∷ ns) zero = refl
get_elem?-set_node_state id state (n ∷ ns) (suc k) = get_elem?-set_node_state id state ns k

-- What a report of a node's state leaves: the cluster as it was, or a cluster that knows the state
-- and whose own state says what `Serves` says.
abbrev pub Received : Bool → Cluster → ℕ → ℕ → Cluster × Option ClusterState → Type 0
Received is_coordinator c id state (c', none) =
    (c' ≡ c) × ((is_coordinator ≡ false) ⊎ (c.topology.node_states id ≡ state))
Received is_coordinator c id state (c', some s) =
    ((is_coordinator ≡ true) × (c.topology.node_states id ≢ state) × (c'.cluster_state ≡ s))
    × ((c'.topology.node_ids ≡ c.topology.node_ids) × (ids c'.nodes ≡ ids c.nodes))
    × ((i : ℕ) → c'.topology.node_states i ≡ (if i == id then state else c.topology.node_states i))
    × ((k : ℕ) → get_elem? c'.nodes k ≡ told id state (get_elem? c.nodes k))
    × Serves c.cluster_state c' s

-- When a node reports a state, a node that is not the coordinator, or one that knows that state
-- already, leaves the cluster as it is. The coordinator else, so only when the state was new,
-- records the state for that node alone in the topology, gives it to every node of the list with
-- that ID and leaves the other nodes as they were, keeps the IDs of the topology and of the nodes,
-- and gives the cluster a state that is true of it: RESIZING only if it was resizing; NORMAL only
-- if the topology has exactly the IDs of the nodes and every node is ready, or the cluster is
-- static; DEGRADED only if the topology differs, fewer nodes than replicas are missing and every
-- node is ready; STARTING only if some node is not ready, or the topology differs and as many
-- nodes as replicas are missing.
pub receive_node_state-Received :
    (is_coordinator : Bool) (c : Cluster) (id state : ℕ)
    → Received is_coordinator c id state (receive_node_state is_coordinator c id state)
unfolding receive_node_state
receive_node_state-Received false c id state = (refl, inl refl)
receive_node_state-Received true c id state =
    let t : Topology = record {
      node_ids = c.topology.node_ids;
      node_states = put_state id state c.topology.node_states;
    } in
    let known : Cluster = record c { topology = t; nodes = set_node_state id state c.nodes } in
    let result : Cluster × Option ClusterState → Type 0 = λ o. Received true c id state o in
    elim (Bool-cases (c.topology.node_states id == state)) [
      | inl same ↦
          let made : receive_node_state true c id state ≡ (c, none) = rw same refl in
          subst result (sym made) (refl, inr (ground arith))
      | inr new ↦
          let s = determine_cluster_state known in
          let made : receive_node_state true c id state
              ≡ (record known { cluster_state = s }, some s) =
            rw new refl in
          subst result (sym made) (
            (refl, λ same. ground (arith, new, same), refl),
            (refl, ids-set_node_state id state c.nodes),
            λ i. refl,
            λ k. get_elem?-set_node_state id state c.nodes k,
            serves_lem known s (determine_cluster_state-Serves known),
          )
    ]
  where
    serves_lem :
        (k : Cluster) (s : ClusterState)
        → Serves k.cluster_state k s
        → Serves k.cluster_state (record k { cluster_state = s }) s
    serves_lem k state_resizing p = p
    serves_lem k state_normal p = p
    serves_lem k state_degraded p = p
    serves_lem k state_starting p = p
