-- ===== src/Fragment/Extreme/Maximum.antt =====
-- `max` finds the greatest value of a field over the columns that hold one, and how many have it.
use pilosa.Common.{
  ℕ, suc, ◌≤◌, ◌≡◌, refl, true, false, ◌&&◌, arith, ltb, pow-le-word64, Bool-cases, inl, inr,
  ltb→lt, Option,
}
use pilosa.Common.Int.{ℤ, pos, neg_ℤ, leb_ℤ, eq_ℤ}
use pilosa.Row.{RowOps}
use pilosa.Fragment.Bsi.{bsi_sign_bit}
use pilosa.Fragment.Range.Compare.{signed, IsWellFormed}
use pilosa.Fragment.Extreme.{consider, considered, contains-consider, max}
use pilosa.Fragment.Extreme.Least.{IsLeast, min_unsigned-IsLeast}
use pilosa.Fragment.Extreme.Greatest.{IsGreatest, max_unsigned-IsGreatest}

module _ (R : RowOps) (row : ℕ → R.Row) where
  open R use {
    Row, contains, intersect, difference, count, any, contains-intersect, contains-difference,
    count_pos, count-pos_of_contains, any-eq-count_pos,
  }

  -- What an answer `(best, k)` says of the columns considered.
  pub record IsMax (filter : Option Row) (depth : ℕ) (best : ℤ) (k : ℕ) : Type 0 where
    pub winner : ℕ
    pub attained : considered R row filter winner ≡ true
    pub value : signed R row depth winner ≡ best
    pub greatest :
        (c : ℕ) → considered R row filter c ≡ true → leb_ℤ (signed R row depth c) best ≡ true
    pub winners : R.Row
    pub columns :
        (c : ℕ)
        → contains winners c ≡ (considered R row filter c && eq_ℤ (signed R row depth c) best)
    pub counted : k ≡ count winners

  module _ (n : ℕ) (fits : suc n ≤ 63) (wf : IsWellFormed R row (suc n)) (filter : Option Row) where
    abbrev C : Row
    C = consider R row filter

    abbrev P : Row
    P = difference C (row bsi_sign_bit)

    IsMax-of_positives :
        (best : ℕ) (winners : Row)
        → IsGreatest R row (suc n) P best winners
        → IsMax filter (suc n) (pos best) (count winners)
    IsMax-of_positives best winners h = record {
      winner = h.winner;
      attained = ground (
        arith,
        h.attained,
        contains-consider R row filter h.winner,
        contains-difference C (row bsi_sign_bit) h.winner,
      );
      value =
          ground (arith, h.attained, h.value, contains-difference C (row bsi_sign_bit) h.winner);
      greatest = λ c m. ground (
        arith,
        h.greatest c,
        contains-consider R row filter c,
        contains-difference C (row bsi_sign_bit) c,
      );
      winners = winners;
      columns = λ c. ground (
        arith,
        h.columns c,
        contains-consider R row filter c,
        wf.negative_pos c,
        contains-difference C (row bsi_sign_bit) c,
      );
      counted = refl;
    }

    IsMax-of_negatives :
        (best : ℕ) (winners : Row)
        → any P ≡ false
        → IsLeast R row (suc n) C best winners
        → IsMax filter (suc n) (neg_ℤ (pos best)) (count winners)
    IsMax-of_negatives best winners no_positive h = record {
      winner = h.winner;
      attained = ground (arith, h.attained, contains-consider R row filter h.winner);
      value = ground (arith, h.attained, h.value, negative h.winner);
      greatest = λ c m. ground (arith, h.least c, contains-consider R row filter c, negative c);
      winners = winners;
      columns = λ c. ground (arith, h.columns c, contains-consider R row filter c, negative c);
      counted = refl;
    }
      where
        negative : (c : ℕ) → contains C c ≡ true → contains (row bsi_sign_bit) c ≡ true
        negative c m = ground (
          arith,
          contains-difference C (row bsi_sign_bit) c,
          count-pos_of_contains P c,
          any-eq-count_pos P,
        )

    -- At a bit depth from 1 to 63, on a well-formed field where some column holds a value and
    -- passes the filter, max returns a value that such a column holds and that is at least the
    -- value of every such column, with the number of those columns that hold it.
    pub max-IsMax :
        (c : ℕ) × (considered R row filter c ≡ true)
        → IsMax filter (suc n) (max R row filter (suc n)).0 (max R row filter (suc n)).1
    unfolding max
    max-IsMax (c, holds) =
        let member : contains C c ≡ true = ground (arith, contains-consider R row filter c) in
        let nonzero : any C ≡ true =
          ground (arith, any-eq-count_pos C, count-pos_of_contains C c) in
        elim (Bool-cases (any P)) [
          | inl some_positive ↦
              let (best, winners, h, run) =
                max_unsigned-IsGreatest R row n P
                  (count_pos P (ltb→lt _ _ (ground (arith, any-eq-count_pos P))))
                  (pow-le-word64 (suc n) fits) in
              rw (nonzero, some_positive, run) (IsMax-of_positives best winners h)
          | inr no_positive ↦
              let (best, winners, h, run) =
                min_unsigned-IsLeast R row n C (c, member) (pow-le-word64 (suc n) fits) in
              rw (nonzero, no_positive, run) (IsMax-of_negatives best winners no_positive h)
        ]

    -- With no column to consider the answer is zero, of no columns.
    pub max_of_no_columns :
        ((c : ℕ) → considered R row filter c ≡ false) → max R row filter (suc n) ≡ (pos 0, 0)
    unfolding max
    max_of_no_columns empty = elim (Bool-cases (ltb 0 (count C))) [
      | inl something ↦
          let (c, member) = count_pos C (ltb→lt _ _ something) in
          absurd (ground (arith, empty c, contains-consider R row filter c))
      | inr nothing ↦ let e : any C ≡ false = ground (arith, any-eq-count_pos C) in rw e refl
    ]
