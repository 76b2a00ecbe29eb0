-- ===== src/Row.antt =====
-- row.go: what the rest of the program uses of a `*Row`, a set of columns. The operations are
-- those of row.go (`Intersect`, `Union`, `Difference`, `Count`, `Any`,
-- `intersectionCount`, `NewRow`), and the laws say
-- what each does to the columns. `contains` is only used to state laws. The law of `difference` is
-- that of rows of one shard, which a fragment answers with; across the fragments of a view only
-- `union` is used.
use pilosa.Common.{ℕ, ◌≡◌, ◌<◌, Bool, true, false, not, ◌&&◌, ◌||◌, ltb}

pub record RowOps : Type 1 where
  pub Row : Type 0
  pub contains : Row → ℕ → Bool
  pub empty : Row
  pub intersect : Row → Row → Row
  pub union : Row → Row → Row
  pub difference : Row → Row → Row
  pub count : Row → ℕ
  pub any : Row → Bool
  pub intersection_count : Row → Row → ℕ
  pub contains-empty : (c : ℕ) → contains empty c ≡ false
  pub contains-intersect :
      (a b : Row) (c : ℕ) → contains (intersect a b) c ≡ (contains a c && contains b c)
  pub contains-union : (a b : Row) (c : ℕ) → contains (union a b) c ≡ (contains a c || contains b c)
  pub contains-difference :
      (a b : Row) (c : ℕ) → contains (difference a b) c ≡ (contains a c && not (contains b c))
  pub any-eq-count_pos : (a : Row) → any a ≡ ltb 0 (count a)
  pub intersection_count-eq-count : (a b : Row) → intersection_count a b ≡ count (intersect a b)
  pub count_pos : (a : Row) → 0 < count a → (c : ℕ) × (contains a c ≡ true)
  pub count-pos_of_contains : (a : Row) (c : ℕ) → contains a c ≡ true → 0 < count a
