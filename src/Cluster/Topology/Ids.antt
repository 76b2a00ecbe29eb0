-- ===== src/Cluster/Topology/Ids.antt =====
-- Adding and removing IDs of the topology changes a set.
use pilosa.Common.Booleans.{same_with}
use mathlib.Core.Path.{subst}
use pilosa.Common.{
  ℕ, suc, ◌≤◌, ◌≡◌, refl, sym, ap, ◌∙◌, List, [], ◌∷◌, ◌++◌, Bool, true, false, not, ◌&&◌, ◌||◌,
  ltb, ◌==◌, Option, none, some, arith, Bool-cases, inl, inr,
}
use pilosa.Roaring.Sorted.{AscendingFrom, AscendingFrom-weaken, mem, mem_below}
use pilosa.Cluster.Nodes.{next_position}
use pilosa.Cluster.Topology.{
  Slice, elements, contains_id, position_by_id, insert_id, sort_ids, add_id, drop_at, drop_position,
  remove_id,
}

contains_id-eq-mem : (tids : List ℕ) (id : ℕ) → contains_id tids id ≡ mem id tids
unfolding contains_id
contains_id-eq-mem [] id = refl
contains_id-eq-mem (tid ∷ tids) id = ground (arith, contains_id-eq-mem tids id)

AscendingFrom-insert :
    (lo id : ℕ) (tids : List ℕ)
    → lo ≤ id
    → AscendingFrom lo tids
    → mem id tids ≡ false
    → AscendingFrom lo (insert_id id tids)
AscendingFrom-insert lo id [] h a m = (h, tt)
AscendingFrom-insert lo id (tid ∷ tids) h a m = elim (Bool-cases (ltb tid id)) [
  | inl below ↦
      rw below (a.0, AscendingFrom-insert (suc tid) id tids (ground arith) a.1 (ground arith))
  | inr past ↦ rw past (h, (ground arith, a.1))
]

mem-insert : (c id : ℕ) (tids : List ℕ) → mem c (insert_id id tids) ≡ (c == id || mem c tids)
mem-insert c id [] = refl
mem-insert c id (tid ∷ tids) = ground (arith, mem-insert c id tids)

-- Sorting an ascending list with a new ID at its end.
sorted_with :
    (lo id : ℕ) (tids : List ℕ)
    → lo ≤ id
    → AscendingFrom lo tids
    → mem id tids ≡ false
    → AscendingFrom lo (sort_ids (tids ++ (id ∷ [])))
      × ((c : ℕ) → mem c (sort_ids (tids ++ (id ∷ []))) ≡ (c == id || mem c tids))
sorted_with lo id [] h a m = ((h, tt), λ c. refl)
sorted_with lo id (tid ∷ tids) h a m =
    let weak = AscendingFrom-weaken lo (suc tid) tids (omega (arith, a.0)) a.1 in
    let rest = sorted_with lo id tids h weak (ground arith) in
    (
      AscendingFrom-insert lo tid (sort_ids (tids ++ (id ∷ []))) a.0 rest.0
          (rest.1 tid ∙ ground (arith, mem_below (suc tid) tid tids a.1)),
      λ c. mem-insert c tid (sort_ids (tids ++ (id ∷ []))) ∙ ground (arith, rest.1 c),
    )

-- A slice that is in order, of the IDs `s`.
abbrev pub IsSliceOf : (ℕ → Bool) → Slice → Type 0
IsSliceOf s tids = AscendingFrom 0 (elements tids) × ((c : ℕ) → mem c (elements tids) ≡ s c)

abbrev pub Changed : (ℕ → Bool) → Bool → Slice × Bool → Type 0
Changed s report (tids, changed) = (changed ≡ report) × IsSliceOf s tids

pub add_id-Changed :
    (s : ℕ → Bool) (tids : Slice) (id : ℕ)
    → IsSliceOf s tids
    → Changed (λ c. c == id || s c) (not (s id)) (add_id tids id)
unfolding add_id
add_id-Changed s tids id (up, holds) = elim (Bool-cases (contains_id (elements tids) id)) [
  | inl old ↦
      let there : s id ≡ true =
        sym (holds id) ∙ sym (contains_id-eq-mem (elements tids) id) ∙ old in
      rw old (rw there refl, (up, λ c. holds c ∙ same_with s id c there))
  | inr new ↦
      let missing : mem id (elements tids) ≡ false =
        sym (contains_id-eq-mem (elements tids) id) ∙ new in
      let sorted = sorted_with 0 id (elements tids) (omega arith) up missing in
      rw new (
        ap not (sym (sym (holds id) ∙ missing)),
        (sorted.0, λ c. sorted.1 c ∙ ap (λ (b : Bool). c == id || b) (holds c)),
      )
]

-- What dropping at a position leaves.
abbrev Drops : ℕ → List ℕ → ℕ → Option ℕ → Type 0
Drops lo tids id none = mem id tids ≡ false
Drops lo tids id (some i) =
    (mem id tids ≡ true)
    × AscendingFrom lo (drop_at i tids)
    × ((c : ℕ) → mem c (drop_at i tids) ≡ (not (c == id) && mem c tids))

keep_first :
    (lo tid id : ℕ) (tids : List ℕ) (o : Option ℕ)
    → lo ≤ tid
    → (tid == id) ≡ false
    → Drops (suc tid) tids id o
    → Drops lo (tid ∷ tids) id (next_position o)
keep_first lo tid id tids none h d p = ground arith
keep_first lo tid id tids (some i) h d (old, up, holds) =
    (ground arith, (h, up), λ c. ground (arith, holds c))

position_by_id-Drops :
    (lo : ℕ) (tids : List ℕ) (id : ℕ)
    → AscendingFrom lo tids
    → Drops lo tids id (position_by_id tids id)
unfolding position_by_id
position_by_id-Drops lo [] id a = refl
position_by_id-Drops lo (tid ∷ tids) id a = elim (Bool-cases (tid == id)) [
  | inl here ↦ rw here (
    ground arith,
    AscendingFrom-weaken lo (suc tid) tids (omega (arith, a.0)) a.1,
    λ c. ground (arith, mem_below (suc tid) c tids a.1),
  )
  | inr later ↦ rw later (
      keep_first lo tid id tids (position_by_id tids id) a.0 later
        (position_by_id-Drops (suc tid) tids id a.1))
]

dropped_lem :
    (s : ℕ → Bool) (tids : Slice) (id : ℕ) (o : Option ℕ)
    → IsSliceOf s tids
    → Drops 0 (elements tids) id o
    → Changed (λ c. not (c == id) && s c) (s id) (drop_position o tids)
dropped_lem s tids id none (up, holds) missing =
    let out : s id ≡ false = sym (holds id) ∙ missing in
    (sym out, (up, λ c. holds c ∙ same_without c out))
  where
    same_without : (c : ℕ) → s id ≡ false → s c ≡ (not (c == id) && s c)
    same_without c e = elim (Bool-cases (c == id)) [
      | inl same ↦
          let eq : c ≡ id = ground arith in rw same (subst (λ (x : ℕ). s x ≡ false) (sym eq) e)
      | inr other ↦ rw other refl
    ]
dropped_lem s tids id (some i) (up, holds) (old, up', holds') = (
  sym (sym (holds id) ∙ old),
  (up', λ c. holds' c ∙ ap (λ (b : Bool). not (c == id) && b) (holds c)),
)

pub remove_id-Changed :
    (s : ℕ → Bool) (tids : Slice) (id : ℕ)
    → IsSliceOf s tids
    → Changed (λ c. not (c == id) && s c) (s id) (remove_id tids id)
unfolding remove_id
remove_id-Changed s tids id p =
    dropped_lem s tids id (position_by_id (elements tids) id) p
      (position_by_id-Drops 0 (elements tids) id p.0)

-- A change of the topology's IDs, and a sequence of them with what each reports.
pub data Change : Type 0 where
  added : ℕ → Change
  dropped : ℕ → Change

abbrev pub apply_change : Slice → Change → Slice × Bool
apply_change tids (added id) = add_id tids id
apply_change tids (dropped id) = remove_id tids id

abbrev pub change_set : (ℕ → Bool) → Change → (ℕ → Bool) × Bool
change_set s (added id) = (λ c. c == id || s c, not (s id))
change_set s (dropped id) = (λ c. not (c == id) && s c, s id)

abbrev pub apply_changes : Slice → List Change → Slice × List Bool
apply_changes tids [] = (tids, [])
apply_changes tids (x ∷ xs) =
    let (tids', changed) = apply_change tids x in
    let (final, reports) = apply_changes tids' xs in (final, changed ∷ reports)

abbrev pub change_sets : (ℕ → Bool) → List Change → (ℕ → Bool) × List Bool
change_sets s [] = (s, [])
change_sets s (x ∷ xs) =
    let (s', changed) = change_set s x in
    let (final, reports) = change_sets s' xs in (final, changed ∷ reports)

apply_change-Changed :
    (s : ℕ → Bool) (tids : Slice) (x : Change)
    → IsSliceOf s tids
    → Changed (change_set s x).0 (change_set s x).1 (apply_change tids x)
apply_change-Changed s tids (added id) p = add_id-Changed s tids id p
apply_change-Changed s tids (dropped id) p = remove_id-Changed s tids id p

changes_lem :
    (s : ℕ → Bool) (tids : Slice) (xs : List Change)
    → IsSliceOf s tids
    → IsSliceOf (change_sets s xs).0 (apply_changes tids xs).0
      × ((apply_changes tids xs).1 ≡ (change_sets s xs).1)
changes_lem s tids [] p = (p, refl)
changes_lem s tids (x ∷ xs) p =
    let one = apply_change-Changed s tids x p in
    let rest = changes_lem (change_set s x).0 (apply_change tids x).0 xs one.1 in
    (
      rest.0,
      ap (λ (b : Bool). b ∷ (apply_changes (apply_change tids x).0 xs).1) one.0
          ∙ ap (λ (bs : List Bool). (change_set s x).1 ∷ bs) rest.1,
    )

-- From a new topology, any sequence of addID and removeID reports a change exactly when the set of
-- IDs changes, and leaves the IDs of the set in ascending order without duplicates.
pub apply_changes-eq-change_sets :
    (xs : List Change)
    → IsSliceOf (change_sets (λ c. false) xs).0 (apply_changes none xs).0
      × ((apply_changes none xs).1 ≡ (change_sets (λ c. false) xs).1)
apply_changes-eq-change_sets xs = changes_lem (λ c. false) none xs (tt, λ c. refl)
