-- ===== src/Iterator/Pairs.antt =====
-- The pairs that an iterator has left, and what reading one means.
use pilosa.Common.{
  ℕ, zero, suc, ◌<◌, ◌≡◌, refl, ap, ◌∙◌, List, [], ◌∷◌, Bool, true, false, ◌&&◌, ◌||◌, ltb, leb,
  ◌==◌, if◌then◌else◌, length, arith,
}
use pilosa.Iterator.{IteratorOps, Item, past_limit}

abbrev pub Pair : Type 0
Pair = ℕ × ℕ

-- What a read returns, with the iterator after it, when the pairs are left.
abbrev pub Reads : {I : Type 0} → (I → List Pair) → List Pair → I × Item → Type 0
Reads rest [] (it, (row, column, eof)) = (eof ≡ true) × (rest it ≡ [])
Reads rest ((r, c) ∷ ps) (it, (row, column, eof)) =
    (eof ≡ false) × ((row ≡ r) × (column ≡ c)) × (rest it ≡ ps)

-- An iterator whose reads return a list of pairs one after the other.
pub record Reader (T : IteratorOps) : Type 0 where
  pub rest : T.Iter → List Pair
  pub next-rest : (it : T.Iter) → Reads rest (rest it) (T.next it)

-- Reading to the end, for a number of rounds.
abbrev pub read_all : (T : IteratorOps) → ℕ → T.Iter → List Pair
read_all T zero it = []
read_all T (suc rounds) it =
    let (it', item) = T.next it in
    let later = read_all T rounds it' in if item.2 then [] else (item.0, item.1) ∷ later

-- The pairs up to the first past a limit, and those from the first that is not before a pair.
abbrev pub within : ℕ → ℕ → List Pair → List Pair
within max_row max_column [] = []
within max_row max_column ((r, c) ∷ ps) =
    let later = within max_row max_column ps in
    if past_limit max_row max_column r c then [] else (r, c) ∷ later

abbrev pub from_pair : ℕ → ℕ → List Pair → List Pair
from_pair row column [] = []
from_pair row column ((r, c) ∷ ps) =
    let later = from_pair row column ps in
    if (row == r && leb column c) || ltb row r then (r, c) ∷ ps else later

abbrev pub zip_pairs : List ℕ → List ℕ → List Pair
zip_pairs [] cs = []
zip_pairs (r ∷ rs) [] = []
zip_pairs (r ∷ rs) (c ∷ cs) = (r, c) ∷ zip_pairs rs cs

read_lem :
    {I : Type 0} (rest later : I → List Pair) (rounds : ℕ) (ps : List Pair) (out : I × Item)
    → ((it : I) → length (rest it) < rounds → later it ≡ rest it)
    → length ps < suc rounds
    → Reads rest ps out
    → (if out.1.2 then [] else (out.1.0, out.1.1) ∷ later out.0) ≡ ps
read_lem rest later rounds [] (it, (row, column, eof)) next h (e, left) = rw e refl
read_lem rest later rounds ((r, c) ∷ ps) (it, (row, column, eof)) next h (e, same, left) =
    let few : length (rest it) < rounds = rw left (omega arith) in
    rw e (
      ap (λ (x : ℕ). (x, column) ∷ later it) same.0
      ∙ ap (λ (x : ℕ). (r, x) ∷ later it) same.1
      ∙ ap (λ (l : List Pair). (r, c) ∷ l) (next it few ∙ left))

pub read_all-eq-rest :
    (T : IteratorOps) (R : Reader T) (rounds : ℕ) (it : T.Iter)
    → length (R.rest it) < rounds
    → read_all T rounds it ≡ R.rest it
read_all-eq-rest T R zero it h = absurd (omega arith)
read_all-eq-rest T R (suc rounds) it h =
    read_lem R.rest (read_all T rounds) rounds (R.rest it) (T.next it)
      (λ it' few. read_all-eq-rest T R rounds it' few) h (R.next-rest it)

-- A test with a known result.
pub if_lem {ℓ} : {A : Type ℓ} (b : Bool) (x y : A) → b ≡ false → (if b then x else y) ≡ y
if_lem true x y e = absurd (ground arith)
if_lem false x y e = refl
