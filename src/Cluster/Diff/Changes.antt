-- ===== src/Cluster/Diff/Changes.antt =====
-- `diff` of a node list and of what adding or removing a node makes of it.
use pilosa.Common.{
  ℕ, suc, ◌≡◌, refl, sym, ap, ◌∙◌, List, [], ◌∷◌, ◌++◌, true, false, ◌==◌, ltb, if◌then◌else◌,
  length, none, some, arith, Bool-cases, Option-cases, inl, inr,
}
use pilosa.Roaring.Sorted.{AscendingFrom, mem}
use pilosa.Cluster.Nodes.{
  Node, ids, node_by_id, node_position_by_id, same_node, update_node, insert_by_id, sort_by_id,
  add_node_basic_sorted, remove_at, remove_node_basic_sorted,
}
use pilosa.Cluster.Nodes.Members.{with_node, mem_of_none}
use pilosa.Cluster.Nodes.Changes.{
  add_node_basic_sorted-AddsNode, remove_node_basic_sorted-RemovesFrom,
}
use pilosa.Cluster.Resize.{action_add, action_remove}
use pilosa.Cluster.Diff.{same_size, adding_many, removing_many, Diffed, one_node, failed, diff}
use pilosa.Cluster.Diff.Finds.{Finds, diff-Finds}

length-insert : (x : Node) (ns : List Node) → length (insert_by_id x ns) ≡ suc (length ns)
length-insert x [] = refl
length-insert x (n ∷ ns) = elim (Bool-cases (ltb n.id x.id)) [
  | inl below ↦ rw below (ap suc (length-insert x ns))
  | inr past ↦ rw past refl
]

length-sort_with :
    (x : Node) (ns : List Node) → length (sort_by_id (ns ++ (x ∷ []))) ≡ suc (length ns)
length-sort_with x [] = refl
length-sort_with x (n ∷ ns) =
    length-insert n (sort_by_id (ns ++ (x ∷ []))) ∙ ap suc (length-sort_with x ns)

length-update_node : (x : Node) (ns : List Node) → length (update_node x ns) ≡ length ns
length-update_node x [] = refl
length-update_node x (n ∷ ns) = elim (Bool-cases (n.id == x.id)) [
  | inl same ↦ rw same refl
  | inr other ↦ rw other (ap suc (length-update_node x ns))
]

-- Looking up and membership.
known_member :
    (ns : List Node) (i : ℕ) (n : Node) → node_by_id ns i ≡ some n → mem i (ids ns) ≡ true
known_member [] i n e = absurd (ground arith)
known_member (m ∷ ns) i n e = elim (Bool-cases (m.id == i)) [
  | inl here ↦ ground arith
  | inr later ↦ ground (arith, known_member ns i n)
]

member_lookup : (ns : List Node) (i : ℕ) → mem i (ids ns) ≡ false → node_by_id ns i ≡ none
member_lookup [] i e = refl
member_lookup (n ∷ ns) i e = ground (arith, member_lookup ns i)

length-add_node :
    (ns : List Node) (x : Node)
    → length (add_node_basic_sorted ns x).0
      ≡ (if mem x.id (ids ns) then length ns else suc (length ns))
unfolding add_node_basic_sorted
length-add_node ns x = elim (Option-cases (node_by_id ns x.id)) [
  | inl e ↦
      let missing : mem x.id (ids ns) ≡ false = mem_of_none x.id ns e in
      rw (add_node_basic_sorted, e, missing) (length-sort_with x ns)
  | inr (n, e) ↦
      let there : mem x.id (ids ns) ≡ true = known_member ns x.id n e in
      elim (Bool-cases (same_node n x)) [
        | inl same ↦ rw (add_node_basic_sorted, e, same, there) refl
        | inr new ↦ rw (add_node_basic_sorted, e, new, there) (length-update_node x ns)
      ]
]

-- What `diff` returns follows from the lengths and from the only ID that is new.
one_more :
    (ns ns' : List Node) (i : ℕ) (d : Diffed)
    → length ns' ≡ suc (length ns)
    → ((c : ℕ) → mem c (ids ns') ≡ true → mem c (ids ns) ≡ false → c ≡ i)
    → Finds ns ns' d
    → d ≡ one_node action_add (some i)
one_more ns ns' i (failed same_size) l only p = absurd (omega arith)
one_more ns ns' i (failed adding_many) l only p = absurd (omega arith)
one_more ns ns' i (failed removing_many) l only p = absurd (omega arith)
one_more ns ns' i (one_node action_add none) l only p = absurd p.1
one_more ns ns' i (one_node action_add (some k)) l only (_, (there, missing)) =
    ap (λ (x : ℕ). one_node action_add (some x)) (only k there missing)
one_more ns ns' i (one_node action_remove o) l only p = absurd (omega (arith, p.0))

same_number :
    (ns ns' : List Node) (d : Diffed)
    → length ns' ≡ length ns
    → Finds ns ns' d
    → d ≡ failed same_size
same_number ns ns' (failed same_size) l p = refl
same_number ns ns' (failed adding_many) l p = absurd (omega arith)
same_number ns ns' (failed removing_many) l p = absurd (omega arith)
same_number ns ns' (one_node action_add o) l p = absurd (omega (arith, p.0))
same_number ns ns' (one_node action_remove o) l p = absurd (omega (arith, p.0))

one_less :
    (ns ns' : List Node) (i : ℕ) (d : Diffed)
    → length ns ≡ suc (length ns')
    → ((c : ℕ) → mem c (ids ns) ≡ true → mem c (ids ns') ≡ false → c ≡ i)
    → Finds ns ns' d
    → d ≡ one_node action_remove (some i)
one_less ns ns' i (failed same_size) l only p = absurd (omega arith)
one_less ns ns' i (failed adding_many) l only p = absurd (omega arith)
one_less ns ns' i (failed removing_many) l only p = absurd (omega arith)
one_less ns ns' i (one_node action_add o) l only p = absurd (omega (arith, p.0))
one_less ns ns' i (one_node action_remove none) l only p = absurd p.1
one_less ns ns' i (one_node action_remove (some k)) l only (_, (there, missing)) =
    ap (λ (x : ℕ). one_node action_remove (some x)) (only k there missing)

diff-add_node :
    (ns : List Node) (x : Node)
    → AscendingFrom 0 (ids ns)
    → diff ns (add_node_basic_sorted ns x).0
      ≡ (if mem x.id (ids ns) then failed same_size else one_node action_add (some x.id))
diff-add_node ns x a =
    let ns' = (add_node_basic_sorted ns x).0 in
    let (up, looks) = add_node_basic_sorted-AddsNode ns x a in
    let found = diff-Finds ns ns' a up in
    elim (Bool-cases (mem x.id (ids ns))) [
      | inl there ↦
          let same : length ns' ≡ length ns = length-add_node ns x ∙ rw there refl in
          rw there (same_number ns ns' (diff ns ns') same found)
      | inr missing ↦
          let more : length ns' ≡ suc (length ns) = length-add_node ns x ∙ rw missing refl in
          rw missing (one_more ns ns' x.id (diff ns ns') more (λ c m out. only c m out) found)
    ]
  where
    only :
        (c : ℕ)
        → mem c (ids (add_node_basic_sorted ns x).0) ≡ true
        → mem c (ids ns) ≡ false
        → c ≡ x.id
    only c m out = elim (Bool-cases (x.id == c)) [
      | inl same ↦ ground arith
      | inr other ↦
          let looks = (add_node_basic_sorted-AddsNode ns x a).1 c in
          let nothing : with_node x ns c ≡ none = rw other (member_lookup ns c out) in
          absurd (ground (arith, mem_of_none c (add_node_basic_sorted ns x).0 (looks ∙ nothing)))
    ]

removed_length :
    (ns : List Node) (i k : ℕ)
    → node_position_by_id ns i ≡ some k
    → length ns ≡ suc (length (remove_at k ns))
unfolding node_position_by_id
removed_length [] i k e = absurd (ground arith)
removed_length (n ∷ ns) i k e = elim (Bool-cases (n.id == i)) [
  | inl here ↦ ground arith
  | inr later ↦ elim (Option-cases (node_position_by_id ns i)) [
    | inl gone ↦ absurd (ground arith)
    | inr (j, at_j) ↦
        let next : k ≡ suc j = ground arith in rw next (ap suc (removed_length ns i j at_j))
  ]
]

removed_none : (ns : List Node) (i : ℕ) → node_position_by_id ns i ≡ none → mem i (ids ns) ≡ false
unfolding node_position_by_id
removed_none [] i e = refl
removed_none (n ∷ ns) i e = elim (Bool-cases (n.id == i)) [
  | inl here ↦ absurd (ground arith)
  | inr later ↦ elim (Option-cases (node_position_by_id ns i)) [
    | inl gone ↦ ground (arith, removed_none ns i gone)
    | inr (j, at_j) ↦ absurd (ground arith)
  ]
]

removed_some :
    (ns : List Node) (i k : ℕ) → node_position_by_id ns i ≡ some k → mem i (ids ns) ≡ true
unfolding node_position_by_id
removed_some [] i k e = absurd (ground arith)
removed_some (n ∷ ns) i k e = elim (Bool-cases (n.id == i)) [
  | inl here ↦ ground arith
  | inr later ↦ elim (Option-cases (node_position_by_id ns i)) [
    | inl gone ↦ absurd (ground arith)
    | inr (j, at_j) ↦ ground (arith, removed_some ns i j at_j)
  ]
]

pub diff-remove_node :
    (ns : List Node) (id : ℕ)
    → AscendingFrom 0 (ids ns)
    → diff ns (remove_node_basic_sorted ns id).0
      ≡ (if mem id (ids ns) then one_node action_remove (some id) else failed same_size)
unfolding remove_node_basic_sorted
diff-remove_node ns id a =
    let ns' = (remove_node_basic_sorted ns id).0 in
    let removes = remove_node_basic_sorted-RemovesFrom ns id a in
    let found = diff-Finds ns ns' a removes.0 in
    elim (Option-cases (node_position_by_id ns id)) [
      | inl gone ↦
          let missing = removed_none ns id gone in
          let same : length ns' ≡ length ns = rw gone refl in
          rw missing (same_number ns ns' (diff ns ns') same found)
      | inr (k, at_k) ↦
          let there = removed_some ns id k at_k in
          let less : length ns ≡ suc (length ns') = rw at_k (removed_length ns id k at_k) in
          rw there (one_less ns ns' id (diff ns ns') less (λ c m out. only c m out) found)
    ]
  where
    only :
        (c : ℕ)
        → mem c (ids ns) ≡ true
        → mem c (ids (remove_node_basic_sorted ns id).0) ≡ false
        → c ≡ id
    only c m out = elim (Bool-cases (c == id)) [
      | inl same ↦ ground arith
      | inr other ↦
          let looks = (remove_node_basic_sorted-RemovesFrom ns id a).1 c in
          let nothing : node_by_id ns c ≡ none = sym (
            sym (member_lookup (remove_node_basic_sorted ns id).0 c out) ∙ looks ∙ rw other refl) in
          absurd (ground (arith, mem_of_none c ns nothing))
    ]

-- On a node list sorted by ID without duplicates, diff between the list and what
-- addNodeBasicSorted makes of it returns to add that node if its ID is new, and between the list
-- and what removeNodeBasicSorted makes of it to remove that ID if the list has it; if the IDs do
-- not change, diff fails for the same size.
pub diff-eq-change :
    (ns : List Node) (x : Node) (id : ℕ)
    → AscendingFrom 0 (ids ns)
    → (diff ns (add_node_basic_sorted ns x).0
        ≡ (if mem x.id (ids ns) then failed same_size else one_node action_add (some x.id)))
      × (diff ns (remove_node_basic_sorted ns id).0
          ≡ (if mem id (ids ns) then one_node action_remove (some id) else failed same_size))
diff-eq-change ns x id a = (diff-add_node ns x a, diff-remove_node ns id a)
