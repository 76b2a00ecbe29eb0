-- ===== src/Fragment/Extreme/Minimum.antt =====
-- `min` finds the least value of a field over the columns that hold one, and how many have it.
use pilosa.Common.{
  ℕ, suc, ◌≤◌, ◌≡◌, refl, true, false, ◌&&◌, arith, ltb, ◌==◌, pow-le-word64, Bool-cases, inl, inr,
  ltb→lt, Option,
}
use pilosa.Common.Int.{ℤ, pos, neg_ℤ, leb_ℤ, eq_ℤ}
use pilosa.Row.{RowOps}
use pilosa.Fragment.Bsi.{bsi_sign_bit, magnitude}
use pilosa.Fragment.Range.Compare.{signed, IsWellFormed}
use pilosa.Fragment.Extreme.{consider, considered, contains-consider, min}
use pilosa.Fragment.Extreme.Least.{IsLeast, min_unsigned-IsLeast}
use pilosa.Fragment.Extreme.Greatest.{IsGreatest, max_unsigned-IsGreatest}

module _ (R : RowOps) (row : ℕ → R.Row) where
  open R use {
    Row, contains, intersect, difference, count, any, contains-intersect, contains-difference,
    count_pos, count-pos_of_contains, any-eq-count_pos,
  }

  -- What an answer `(best, k)` says of the columns considered.
  pub record IsMin (filter : Option Row) (depth : ℕ) (best : ℤ) (k : ℕ) : Type 0 where
    pub winner : ℕ
    pub attained : considered R row filter winner ≡ true
    pub value : signed R row depth winner ≡ best
    pub least :
        (c : ℕ) → considered R row filter c ≡ true → leb_ℤ best (signed R row depth c) ≡ true
    pub winners : R.Row
    pub columns :
        (c : ℕ)
        → contains winners c ≡ (considered R row filter c && eq_ℤ (signed R row depth c) best)
    pub counted : k ≡ count winners

  module _ (n : ℕ) (fits : suc n ≤ 63) (wf : IsWellFormed R row (suc n)) (filter : Option Row) where
    abbrev C : Row
    C = consider R row filter

    abbrev N : Row
    N = intersect (row bsi_sign_bit) C

    abbrev M : ℕ → ℕ
    M = magnitude R row (suc n)

    IsMin-of_negatives :
        (best : ℕ) (winners : Row)
        → IsGreatest R row (suc n) N best winners
        → IsMin filter (suc n) (neg_ℤ (pos best)) (count winners)
    IsMin-of_negatives best winners h = record {
      winner = h.winner;
      attained = ground (
        arith,
        h.attained,
        contains-consider R row filter h.winner,
        contains-intersect (row bsi_sign_bit) C h.winner,
      );
      value = ground (arith, h.attained, h.value, contains-intersect (row bsi_sign_bit) C h.winner);
      least = λ c m. ground (
        arith,
        h.greatest c,
        contains-consider R row filter c,
        contains-intersect (row bsi_sign_bit) C c,
      );
      winners = winners;
      columns = λ c. ground (
        arith,
        h.columns c,
        contains-consider R row filter c,
        h.value,
        wf.negative_pos c,
        wf.negative_pos h.winner,
        h.attained,
        contains-intersect (row bsi_sign_bit) C h.winner,
        contains-intersect (row bsi_sign_bit) C c,
      );
      counted = refl;
    }

    IsMin-of_positives :
        (best : ℕ) (winners : Row)
        → any N ≡ false
        → IsLeast R row (suc n) C best winners
        → IsMin filter (suc n) (pos best) (count winners)
    IsMin-of_positives best winners no_negative h = record {
      winner = h.winner;
      attained = ground (arith, h.attained, contains-consider R row filter h.winner);
      value = ground (arith, h.attained, h.value, positive h.winner);
      least = λ c m. ground (arith, h.least c, contains-consider R row filter c, positive c);
      winners = winners;
      columns = λ c. ground (arith, h.columns c, contains-consider R row filter c, positive c);
      counted = refl;
    }
      where
        positive : (c : ℕ) → contains C c ≡ true → contains (row bsi_sign_bit) c ≡ false
        positive c m = ground (
          arith,
          contains-intersect (row bsi_sign_bit) C c,
          count-pos_of_contains N c,
          any-eq-count_pos N,
        )

    -- At a bit depth from 1 to 63, on a well-formed field where some column holds a value and
    -- passes the filter, min returns a value that such a column holds and that is at most the
    -- value of every such column, with the number of those columns that hold it.
    pub min-IsMin :
        (c : ℕ) × (considered R row filter c ≡ true)
        → IsMin filter (suc n) (min R row filter (suc n)).0 (min R row filter (suc n)).1
    unfolding min
    min-IsMin (c, holds) =
        let member : contains C c ≡ true = ground (arith, contains-consider R row filter c) in
        let nonzero : (count C == 0) ≡ false = ground (arith, count-pos_of_contains C c) in
        elim (Bool-cases (any N)) [
          | inl some_negative ↦
              let (best, winners, h, run) =
                max_unsigned-IsGreatest R row n N
                  (count_pos N (ltb→lt _ _ (ground (arith, any-eq-count_pos N))))
                  (pow-le-word64 (suc n) fits) in
              rw (nonzero, some_negative, run) (IsMin-of_negatives best winners h)
          | inr no_negative ↦
              let (best, winners, h, run) =
                min_unsigned-IsLeast R row n C (c, member) (pow-le-word64 (suc n) fits) in
              rw (nonzero, no_negative, run) (IsMin-of_positives best winners no_negative h)
        ]

    -- With no column to consider the answer is zero, of no columns.
    pub min_of_no_columns :
        ((c : ℕ) → considered R row filter c ≡ false) → min R row filter (suc n) ≡ (pos 0, 0)
    unfolding min
    min_of_no_columns empty = elim (Bool-cases (ltb 0 (count C))) [
      | inl something ↦
          let (c, member) = count_pos C (ltb→lt _ _ something) in
          absurd (ground (arith, empty c, contains-consider R row filter c))
      | inr nothing ↦ let e : (count C == 0) ≡ true = ground arith in rw e refl
    ]
