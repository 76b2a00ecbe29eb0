-- ===== src/Fragment/Extreme/Least.antt =====
-- `minUnsigned` finds the least absolute value of the columns of a filter, and how many have it.
use pilosa.Common.{
  ℕ, zero, suc, ◌+◌, ◌^◌, ◌≤◌, ◌≡◌, refl, true, ◌&&◌, arith, ltb, ◌==◌, if◌then◌else◌, add64, shl1,
  word64, pow_double, pow_pos, added, Bool-cases, ltb→lt, inl, inr,
}
use pilosa.Row.{RowOps}
use pilosa.Fragment.Bsi.{bsi_offset_bit, magnitude, magnitude-lt}
use pilosa.Fragment.Extreme.{min_loop, min_unsigned}

module _ (R : RowOps) (row : ℕ → R.Row) where
  open R use {
    Row, contains, intersect, difference, count, contains-intersect, contains-difference, count_pos,
    count-pos_of_contains,
  }

  abbrev M : ℕ → ℕ → ℕ
  M = magnitude R row

  -- `best` is the least value of the columns of `filter`, which the columns of `winners` have.
  pub record IsLeast (n : ℕ) (filter : Row) (best : ℕ) (winners : Row) : Type 0 where
    pub winner : ℕ
    pub attained : contains filter winner ≡ true
    pub value : M n winner ≡ best
    pub least : (c : ℕ) → contains filter c ≡ true → best ≤ M n c
    pub columns : (c : ℕ) → contains winners c ≡ (contains filter c && M n c == best)

  IsLeast-zeros :
      (i : ℕ) (filter winners : Row) (best : ℕ)
      → IsLeast i (difference filter (row (bsi_offset_bit + i))) best winners
      → IsLeast (suc i) filter best winners
  unfolding magnitude
  IsLeast-zeros i filter winners best h = record {
    winner = h.winner;
    attained = ground (arith, h.attained, contains-difference filter r h.winner);
    value = ground (arith, h.attained, h.value, contains-difference filter r h.winner);
    least = λ c m.
        ground (
          arith,
          h.least c,
          h.value,
          magnitude-lt R row i h.winner,
          contains-difference filter r c,
        );
    columns = λ c. ground (
      arith,
      h.columns c,
      h.value,
      magnitude-lt R row i h.winner,
      contains-difference filter r c,
    );
  }
    where
      r : Row
      r = row (bsi_offset_bit + i)

  IsLeast-ones :
      (i : ℕ) (filter winners : Row) (best : ℕ)
      → count (difference filter (row (bsi_offset_bit + i))) ≡ 0
      → IsLeast i filter best winners
      → IsLeast (suc i) filter (2 ^ i + best) winners
  unfolding magnitude
  IsLeast-ones i filter winners best none_zero h = record {
    winner = h.winner;
    attained = h.attained;
    value = ground (arith, h.attained, h.value, set h.winner);
    least = λ c m. ground (arith, h.least c, set c);
    columns = λ c. ground (arith, h.columns c, set c);
  }
    where
      r : Row
      r = row (bsi_offset_bit + i)

      set : (c : ℕ) → contains filter c ≡ true → contains r c ≡ true
      set c m =
          ground
            (arith, contains-difference filter r c, count-pos_of_contains (difference filter r) c)

  -- What a run of the loop returns, from the accumulators `m` and `k`.
  abbrev MinRun : ℕ → Row → ℕ → ℕ → Type 0
  MinRun n filter m k =
      (best : ℕ) × (winners : R.Row) × IsLeast n filter best winners
      × (min_loop R row n filter m k ≡ (m + best, count winners))

  min_run :
      (n : ℕ) (filter : Row) (m k : ℕ)
      → (c : ℕ) × (contains filter c ≡ true)
      → m + 2 ^ n ≤ word64
      → (n ≡ 0 → k ≡ count filter)
      → MinRun n filter m k
  unfolding min_loop magnitude
  min_run zero filter m k (c, member) fits counted = (
    0,
    filter,
    record {
      winner = c;
      attained = member;
      value = refl;
      least = λ c m. omega arith;
      columns = λ c. ground arith;
    },
    ground (arith, counted refl),
  )
  min_run (suc i) filter m k some_column fits counted = elim (Bool-cases (ltb 0 (count r))) [
    | inl pos ↦
        let (best, winners, h, run) =
          min_run i r m (count r) (count_pos r (ltb→lt _ _ pos)) (omega (arith, pow_double i))
            (λ e. refl) in
        (best, winners, IsLeast-zeros i filter winners best h, rw pos run)
    | inr neg ↦
        let room : m + 2 ^ i + 2 ^ i ≤ word64 = omega (arith, pow_double i) in
        let e : add64 m (shl1 i) ≡ m + 2 ^ i = added m i (omega (arith, pow_pos i)) in
        let (best, winners, h, run) =
          min_run i filter (add64 m (shl1 i)) (if i == 0 then count filter else count r) some_column
            (rw e room) (λ z. ground arith) in
        (
          2 ^ i + best,
          winners,
          IsLeast-ones i filter winners best (ground arith) h,
          rw neg (ground (arith, run, e)),
        )
  ]
    where
      r : Row
      r = difference filter (row (bsi_offset_bit + i))

  -- On a filter with a column, `minUnsigned` returns the least absolute value and the number of
  -- columns that have it.
  pub min_unsigned-IsLeast :
      (n : ℕ) (filter : Row)
      → (c : ℕ) × (contains filter c ≡ true)
      → 2 ^ suc n ≤ word64
      → (best : ℕ) × (winners : R.Row) × IsLeast (suc n) filter best winners
        × (min_unsigned R row filter (suc n) ≡ (best, count winners))
  unfolding min_unsigned
  min_unsigned-IsLeast n filter c fits =
      let (best, winners, h, run) =
        min_run (suc n) filter 0 0 c (omega (arith, fits)) (λ e. absurd (omega arith)) in
      (best, winners, h, ground (arith, run))
