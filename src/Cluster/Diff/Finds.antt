-- ===== src/Cluster/Diff/Finds.antt =====
-- `diff` finds the one node that is new or gone, and fails if there is no such.
use mathlib.Core.Path.{subst}
use pilosa.Common.{
  ℕ, suc, ◌-◌, ◌≤◌, ◌<◌, ◌≡◌, refl, sym, ap, List, [], ◌∷◌, true, false, ◌==◌, ltb, length, Option,
  none, some, arith, Bool-cases, inl, inr,
}
use pilosa.Roaring.Sorted.{AscendingFrom, mem, mem_below}
use pilosa.Cluster.Nodes.{Node, ids, node_by_id}
use pilosa.Cluster.Resize.{action_add, action_remove}
use pilosa.Cluster.Diff.{
  same_size, adding_many, removing_many, Diffed, one_node, failed, is_none, first_unknown, diff,
}

is_none-node_by_id :
    (ns : List Node) (i : ℕ) → (is_none (node_by_id ns i) ≡ true) → mem i (ids ns) ≡ false
is_none-node_by_id [] i e = refl
is_none-node_by_id (n ∷ ns) i e = elim (Bool-cases (n.id == i)) [
  | inl here ↦ absurd (ground arith)
  | inr later ↦ ground (arith, is_none-node_by_id ns i)
]

known-node_by_id :
    (ns : List Node) (i : ℕ) → (is_none (node_by_id ns i) ≡ false) → mem i (ids ns) ≡ true
known-node_by_id [] i e = absurd (ground arith)
known-node_by_id (n ∷ ns) i e = elim (Bool-cases (n.id == i)) [
  | inl here ↦ ground arith
  | inr later ↦ ground (arith, known-node_by_id ns i)
]

length-ids : (ns : List Node) → length (ids ns) ≡ length ns
length-ids [] = refl
length-ids (n ∷ ns) = ap suc (length-ids ns)

-- An ID of the one list that the other has not.
abbrev pub Unknown : List Node → List Node → Option ℕ → Type 0
Unknown ns other none = (i : ℕ) → mem i (ids ns) ≡ true → mem i (ids other) ≡ true
Unknown ns other (some i) = (mem i (ids ns) ≡ true) × (mem i (ids other) ≡ false)

later_lem :
    (n : Node) (ns other : List Node) (o : Option ℕ)
    → mem n.id (ids other) ≡ true
    → Unknown ns other o
    → Unknown (n ∷ ns) other o
later_lem n ns other none known p = λ i e. elim (Bool-cases (i == n.id)) [
  | inl same ↦
      let eq : i ≡ n.id = ground arith in subst (λ (x : ℕ). mem x (ids other) ≡ true) (sym eq) known
  | inr later ↦ p i (ground arith)
]
later_lem n ns other (some i) known (there, missing) = (ground arith, missing)

first_unknown-Unknown : (ns other : List Node) → Unknown ns other (first_unknown ns other)
unfolding first_unknown
first_unknown-Unknown [] other = λ i e. absurd (ground arith)
first_unknown-Unknown (n ∷ ns) other = elim (Bool-cases (is_none (node_by_id other n.id))) [
  | inl new ↦ rw new (ground arith, is_none-node_by_id other n.id new)
  | inr old ↦ rw old (
      later_lem n ns other (first_unknown ns other) (known-node_by_id other n.id old)
        (first_unknown-Unknown ns other))
]

-- A list without duplicates whose members another has is not longer.
included_length :
    (lo : ℕ) (xs ys : List ℕ)
    → AscendingFrom lo xs
    → AscendingFrom lo ys
    → ((c : ℕ) → mem c xs ≡ true → mem c ys ≡ true)
    → length xs ≤ length ys
included_length lo [] ys p q e = omega arith
included_length lo (x ∷ xs) [] p q e = absurd (ground (arith, e x))
included_length lo (x ∷ xs) (y ∷ ys) p q e = elim (Bool-cases (x == y)) [
  | inl same ↦
      let eq : x ≡ y = ground arith in
      let q' : AscendingFrom (suc x) ys =
        subst (λ (k : ℕ). AscendingFrom (suc k) ys) (sym eq) q.1 in
      let rest = included_length (suc x) xs ys p.1 q' (λ c m.
        let past : (c == y) ≡ false = ground (arith, mem_below (suc x) c xs p.1) in
        ground (arith, e c)) in
      omega (arith, rest)
  | inr apart ↦
      let x_later : mem x ys ≡ true = ground (arith, e x) in
      let past : suc y ≤ x = ground (arith, mem_below (suc y) x ys q.1) in
      let rest =
        included_length (suc y) (x ∷ xs) ys (past, p.1) q.1
          (λ c m.
            let above : (c == y) ≡ false = ground (arith, mem_below (suc x) c xs p.1) in
            ground (arith, e c)) in
      omega (arith, rest)
]

-- The ID that one list has and the other has not; the other is shorter.
abbrev pub IsNew : List Node → List Node → Option ℕ → Type 0
IsNew ns other none = ⊥
IsNew ns other (some i) = (mem i (ids ns) ≡ true) × (mem i (ids other) ≡ false)

new_lem :
    (ns other : List Node) (o : Option ℕ)
    → AscendingFrom 0 (ids ns)
    → AscendingFrom 0 (ids other)
    → length other < length ns
    → Unknown ns other o
    → IsNew ns other o
new_lem ns other none p q h e =
    let at_most = included_length 0 (ids ns) (ids other) p q e in
    omega (arith, at_most, length-ids ns, length-ids other)
new_lem ns other (some i) p q h e = e

-- What `diff` says of two node lists.
abbrev pub Finds : List Node → List Node → Diffed → Type 0
Finds from to (failed same_size) = length from ≡ length to
Finds from to (failed adding_many) = suc (length from) < length to
Finds from to (failed removing_many) = suc (length to) < length from
Finds from to (one_node action_add o) = (length to ≡ suc (length from)) × IsNew to from o
Finds from to (one_node action_remove o) = (length from ≡ suc (length to)) × IsNew from to o

pub diff-Finds :
    (from to : List Node)
    → AscendingFrom 0 (ids from)
    → AscendingFrom 0 (ids to)
    → Finds from to (diff from to)
unfolding diff
diff-Finds from to p q =
    let result : Diffed → Type 0 = λ d. Finds from to d in
    elim (Bool-cases (length from == length to)) [
      | inl same ↦
          let made : diff from to ≡ failed same_size = rw same refl in
          subst result (sym made) (ground arith)
      | inr differ ↦ elim (Bool-cases (ltb (length from) (length to))) [
        | inl grown ↦ elim (Bool-cases (ltb 1 (length to - length from))) [
          | inl many ↦
              let made : diff from to ≡ failed adding_many = rw (differ, grown, many) refl in
              subst result (sym made) (ground arith)
          | inr one ↦
              let made : diff from to ≡ one_node action_add (first_unknown to from) =
                rw (differ, grown, one) refl in
              subst result (sym made) (
                ground arith,
                new_lem to from (first_unknown to from) q p (ground arith)
                    (first_unknown-Unknown to from),
              )
        ]
        | inr shrunk ↦ elim (Bool-cases (ltb 1 (length from - length to))) [
          | inl many ↦
              let made : diff from to ≡ failed removing_many = rw (differ, shrunk, many) refl in
              subst result (sym made) (ground arith)
          | inr one ↦
              let made : diff from to ≡ one_node action_remove (first_unknown from to) =
                rw (differ, shrunk, one) refl in
              subst result (sym made) (
                ground arith,
                new_lem from to (first_unknown from to) p q (ground arith)
                    (first_unknown-Unknown from to),
              )
        ]
      ]
    ]
