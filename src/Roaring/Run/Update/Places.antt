-- ===== src/Roaring/Run/Update/Places.antt =====
-- Where a value stands among the runs of a container, and changing the runs there.
use pilosa.Common.{
  ℕ, zero, suc, ◌<◌, ◌≤◌, ◌≡◌, refl, ap, List, [], ◌∷◌, ◌++◌, not, ◌&&◌, ◌||◌, ◌==◌, arith, length,
  take, drop, leb, Bool-cases, inl, inr,
}
use pilosa.Roaring.Run.{Interval16}
use pilosa.Roaring.Run.Sets.{run_mem, cardinality, RunsFrom}
use pilosa.Roaring.Run.Update.{search_last, run_at}

-- Every run ends below `v`.
abbrev pub EndBelow : ℕ → List Interval16 → Type 0
EndBelow v [] = Unit
EndBelow v (r ∷ rs) = (r.last < v) × EndBelow v rs

-- `B` is `A` with the value `v` more.
abbrev pub OneMore : ℕ → List Interval16 → List Interval16 → Type 0
OneMore v A B =
    ((lo : ℕ) → lo ≤ v → RunsFrom lo A → RunsFrom lo B)
    × ((c : ℕ) → run_mem c B ≡ (c == v || run_mem c A))
    × (cardinality B ≡ suc (cardinality A))

-- `B` is `A` with the value `v` less.
abbrev pub OneLess : ℕ → List Interval16 → List Interval16 → Type 0
OneLess v A B =
    ((lo : ℕ) → RunsFrom lo A → RunsFrom lo B)
    × ((lo c : ℕ) → RunsFrom lo A → run_mem c B ≡ (not (c == v) && run_mem c A))
    × (cardinality A ≡ suc (cardinality B))

pub OneMore-append :
    (v : ℕ) (front A B : List Interval16)
    → EndBelow v front
    → OneMore v A B
    → OneMore v (front ++ A) (front ++ B)
OneMore-append v [] A B below more = more
OneMore-append v (r ∷ rs) A B below more =
    let rest = OneMore-append v rs A B below.1 more in
    (
      λ lo h p. (p.0, p.1, rest.0 (suc r.last) (omega (arith, below.0)) p.2),
      λ c. ground (arith, rest.1 c),
      omega (arith, rest.2),
    )

pub OneLess-append :
    (v : ℕ) (front A B : List Interval16)
    → EndBelow v front
    → OneLess v A B
    → OneLess v (front ++ A) (front ++ B)
OneLess-append v [] A B below less = less
OneLess-append v (r ∷ rs) A B below less =
    let rest = OneLess-append v rs A B below.1 less in
    (
      λ lo p. (p.0, p.1, rest.0 (suc r.last) p.2),
      λ lo c p. ground (arith, rest.1 (suc r.last) c p.2, below.0),
      omega (arith, rest.2),
    )

pub search_last-le-length : (v : ℕ) (rs : List Interval16) → search_last v rs ≤ length rs
unfolding search_last
search_last-le-length v [] = omega arith
search_last-le-length v (r ∷ rs) = ground (arith, search_last-le-length v rs)

pub EndBelow-take : (v i : ℕ) (rs : List Interval16) → i ≤ search_last v rs → EndBelow v (take i rs)
unfolding search_last
EndBelow-take v zero rs h = tt
EndBelow-take v (suc i) [] h = tt
EndBelow-take v (suc i) (r ∷ rs) h = (ground arith, EndBelow-take v i rs (ground arith))

pub last_at :
    (v : ℕ) (rs : List Interval16)
    → search_last v rs < length rs
    → v ≤ (run_at rs (search_last v rs)).last
unfolding search_last
last_at v [] h = absurd (omega arith)
last_at v (r ∷ rs) h = elim (Bool-cases (leb v r.last)) [
  | inl e ↦ rw e (ground arith)
  | inr e ↦ rw e (last_at v rs (ground arith))
]

pub last_before : (v i : ℕ) (rs : List Interval16) → i < search_last v rs → (run_at rs i).last < v
unfolding search_last
last_before v i [] h = absurd (omega arith)
last_before v zero (r ∷ rs) h = ground arith
last_before v (suc i) (r ∷ rs) h = last_before v i rs (ground arith)

pub split_at :
    (i : ℕ) (rs : List Interval16) → i < length rs → rs ≡ take i rs ++ run_at rs i ∷ drop (suc i) rs
split_at i [] h = absurd (omega arith)
split_at zero (r ∷ rs) h = refl
split_at (suc i) (r ∷ rs) h = ap (λ (xs : List Interval16). r ∷ xs) (split_at i rs (omega arith))

pub drop_at :
    (i : ℕ) (rs : List Interval16) → i < length rs → drop i rs ≡ run_at rs i ∷ drop (suc i) rs
drop_at i [] h = absurd (omega arith)
drop_at zero (r ∷ rs) h = refl
drop_at (suc i) (r ∷ rs) h = drop_at i rs (omega arith)

pub take-drop : (i : ℕ) (rs : List Interval16) → rs ≡ take i rs ++ drop i rs
take-drop zero rs = refl
take-drop (suc i) [] = refl
take-drop (suc i) (r ∷ rs) = ap (λ (xs : List Interval16). r ∷ xs) (take-drop i rs)

-- The runs from `lo` on start and end as `RunsFrom` says.
pub RunsFrom-at :
    (lo i : ℕ) (rs : List Interval16)
    → RunsFrom lo rs
    → i < length rs
    → (lo ≤ (run_at rs i).start)
      × ((run_at rs i).start ≤ (run_at rs i).last)
      × ((run_at rs i).last ≤ 0xffff)
RunsFrom-at lo i [] p h = absurd (omega arith)
RunsFrom-at lo zero (r ∷ rs) p h = (p.0, p.1.0, p.1.1)
RunsFrom-at lo (suc i) (r ∷ rs) p h =
    let rest = RunsFrom-at (suc r.last) i rs p.2 (omega arith) in
    (omega (arith, rest.0, p.0, p.1.0), rest.1, rest.2)

pub drop_all : (i : ℕ) (rs : List Interval16) → length rs ≤ i → drop i rs ≡ []
drop_all zero [] h = refl
drop_all zero (r ∷ rs) h = absurd (omega arith)
drop_all (suc i) [] h = refl
drop_all (suc i) (r ∷ rs) h = drop_all i rs (omega arith)

pub RunsFrom-drop :
    (lo i : ℕ) (rs : List Interval16)
    → RunsFrom lo rs
    → i < length rs
    → RunsFrom (suc (run_at rs i).last) (drop (suc i) rs)
RunsFrom-drop lo i [] p h = absurd (omega arith)
RunsFrom-drop lo zero (r ∷ rs) p h = p.2
RunsFrom-drop lo (suc i) (r ∷ rs) p h = RunsFrom-drop (suc r.last) i rs p.2 (omega arith)

pub take_all : (i : ℕ) (rs : List Interval16) → length rs ≤ i → take i rs ≡ rs
take_all zero [] h = refl
take_all zero (r ∷ rs) h = absurd (omega arith)
take_all (suc i) [] h = refl
take_all (suc i) (r ∷ rs) h = ap (λ (xs : List Interval16). r ∷ xs) (take_all i rs (omega arith))
