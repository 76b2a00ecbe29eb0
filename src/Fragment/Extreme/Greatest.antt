-- ===== src/Fragment/Extreme/Greatest.antt =====
-- `maxUnsigned` finds the greatest absolute value of the columns of a filter, and how many have it.
use pilosa.Common.{
  ℕ, zero, suc, ◌+◌, ◌^◌, ◌≤◌, ◌≡◌, refl, true, false, ◌&&◌, arith, ltb, ◌==◌, if◌then◌else◌, add64,
  shl1, word64, pow_double, pow_pos, added, Bool-cases, ltb→lt, inl, inr,
}
use pilosa.Row.{RowOps}
use pilosa.Fragment.Bsi.{bsi_offset_bit, magnitude, magnitude-lt}
use pilosa.Fragment.Extreme.{max_loop, max_unsigned}

module _ (R : RowOps) (row : ℕ → R.Row) where
  open R use {
    Row, contains, intersect, difference, count, contains-intersect, contains-difference, count_pos,
    count-pos_of_contains,
  }

  abbrev M : ℕ → ℕ → ℕ
  M = magnitude R row

  -- `best` is the greatest value of the columns of `filter`, which the columns of `winners` have.
  pub record IsGreatest (n : ℕ) (filter : Row) (best : ℕ) (winners : Row) : Type 0 where
    pub winner : ℕ
    pub attained : contains filter winner ≡ true
    pub value : M n winner ≡ best
    pub greatest : (c : ℕ) → contains filter c ≡ true → M n c ≤ best
    pub columns : (c : ℕ) → contains winners c ≡ (contains filter c && M n c == best)

  IsGreatest-ones :
      (i : ℕ) (filter winners : Row) (best : ℕ)
      → IsGreatest i (intersect (row (bsi_offset_bit + i)) filter) best winners
      → IsGreatest (suc i) filter (2 ^ i + best) winners
  unfolding magnitude
  IsGreatest-ones i filter winners best h = record {
    winner = h.winner;
    attained = ground (arith, h.attained, contains-intersect r filter h.winner);
    value = ground (arith, h.attained, h.value, contains-intersect r filter h.winner);
    greatest =
        λ c m. ground (arith, h.greatest c, magnitude-lt R row i c, contains-intersect r filter c);
    columns =
        λ c. ground (arith, h.columns c, magnitude-lt R row i c, contains-intersect r filter c);
  }
    where
      r : Row
      r = row (bsi_offset_bit + i)

  IsGreatest-zeros :
      (i : ℕ) (filter winners : Row) (best : ℕ)
      → count (intersect (row (bsi_offset_bit + i)) filter) ≡ 0
      → IsGreatest i filter best winners
      → IsGreatest (suc i) filter best winners
  unfolding magnitude
  IsGreatest-zeros i filter winners best none_one h = record {
    winner = h.winner;
    attained = h.attained;
    value = ground (arith, h.attained, h.value, clear h.winner);
    greatest = λ c m. ground (arith, h.greatest c, clear c);
    columns = λ c. ground (arith, h.columns c, clear c);
  }
    where
      r : Row
      r = row (bsi_offset_bit + i)

      clear : (c : ℕ) → contains filter c ≡ true → contains r c ≡ false
      clear c m =
          ground
            (arith, contains-intersect r filter c, count-pos_of_contains (intersect r filter) c)

  abbrev MaxRun : ℕ → Row → ℕ → ℕ → Type 0
  MaxRun n filter m k =
      (best : ℕ) × (winners : R.Row) × IsGreatest n filter best winners
      × (max_loop R row n filter m k ≡ (m + best, count winners))

  max_run :
      (n : ℕ) (filter : Row) (m k : ℕ)
      → (c : ℕ) × (contains filter c ≡ true)
      → m + 2 ^ n ≤ word64
      → (n ≡ 0 → k ≡ count filter)
      → MaxRun n filter m k
  unfolding max_loop magnitude
  max_run zero filter m k (c, member) fits counted = (
    0,
    filter,
    record {
      winner = c;
      attained = member;
      value = refl;
      greatest = λ c m. omega arith;
      columns = λ c. ground arith;
    },
    ground (arith, counted refl),
  )
  max_run (suc i) filter m k some_column fits counted = elim (Bool-cases (ltb 0 (count r))) [
    | inl pos ↦
        let room : m + 2 ^ i + 2 ^ i ≤ word64 = omega (arith, pow_double i) in
        let e : add64 m (shl1 i) ≡ m + 2 ^ i = added m i (omega (arith, pow_pos i)) in
        let (best, winners, h, run) =
          max_run i r (add64 m (shl1 i)) (count r) (count_pos r (ltb→lt _ _ pos)) (rw e room)
            (λ z. refl) in
        (
          2 ^ i + best,
          winners,
          IsGreatest-ones i filter winners best h,
          rw pos (ground (arith, run, e)),
        )
    | inr neg ↦
        let (best, winners, h, run) =
          max_run i filter m (if i == 0 then count filter else count r) some_column
            (omega (arith, pow_double i)) (λ z. ground arith) in
        (best, winners, IsGreatest-zeros i filter winners best (ground arith) h, rw neg run)
  ]
    where
      r : Row
      r = intersect (row (bsi_offset_bit + i)) filter

  -- On a filter with a column, `maxUnsigned` returns the greatest absolute value and the number of
  -- columns that have it.
  pub max_unsigned-IsGreatest :
      (n : ℕ) (filter : Row)
      → (c : ℕ) × (contains filter c ≡ true)
      → 2 ^ suc n ≤ word64
      → (best : ℕ) × (winners : R.Row) × IsGreatest (suc n) filter best winners
        × (max_unsigned R row filter (suc n) ≡ (best, count winners))
  unfolding max_unsigned
  max_unsigned-IsGreatest n filter c fits =
      let (best, winners, h, run) =
        max_run (suc n) filter 0 0 c (omega (arith, fits)) (λ e. absurd (omega arith)) in
      (best, winners, h, ground (arith, run))
