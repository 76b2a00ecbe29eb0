-- ===== src/Roaring/Search/Binary.antt =====
-- `search32` finds the rank of the value in an ascending array, and says whether it stands there.
use pilosa.Common.{
  ℕ, zero, suc, ◌+◌, ◌-◌, ◌/◌, ◌<◌, ◌≤◌, ◌≡◌, refl, List, true, false, arith, length, get_or,
  if◌then◌else◌, ◌==◌, ◌⊎◌, inl, inr, sym, Bool-cases,
}
use pilosa.Roaring.Sorted.{AscendingFrom, mem}
use pilosa.Roaring.Search.{Found, at, gap, scan, halve, search32}
use pilosa.Roaring.Search.Rank.{
  rank, rank-le-length, get_below_rank, get_from_rank, get_past_rank, mem_at_rank,
}

ℕ-cases : (n : ℕ) → (n ≡ 0) ⊎ ((m : ℕ) × (n ≡ suc m))
ℕ-cases zero = inl refl
ℕ-cases (suc m) = inr (m, refl)

module _ (a : List ℕ) (v : ℕ) (sorted : AscendingFrom 0 a) where
  abbrev pub K : ℕ
  K = rank a v

  -- What the search should answer.
  abbrev pub Answer : Found
  Answer = if mem v a then at K else gap K

  -- Above `hi` there is nothing, or a larger value.
  abbrev Closed : ℕ → Type 0
  Closed hi = (suc hi ≡ length a) ⊎ (suc hi < length a) × (v < get_or a (suc hi) 0)

  scan-Answer :
      (rounds lo hi : ℕ)
      → lo + rounds ≡ suc hi
      → lo ≤ K
      → K ≤ suc hi
      → Closed hi
      → scan a v rounds lo ≡ Answer
  unfolding scan
  scan-Answer zero lo hi e l u c = ground (arith, mem_at_rank 0 a v sorted, rank-le-length a v)
  scan-Answer (suc rounds) lo hi e l u c = ground (
    arith,
    scan-Answer rounds (lo + 1) hi,
    mem_at_rank 0 a v sorted,
    rank-le-length a v,
    get_from_rank 0 a v lo sorted,
    get_past_rank 0 a v lo sorted,
    get_below_rank a v lo,
  )

  halve-Answer :
      (fuel lo hi : ℕ)
      → hi < length a
      → lo ≤ K
      → K ≤ suc hi
      → Closed hi
      → lo ≤ suc hi
      → halve a v fuel lo hi ≡ Answer
  unfolding halve
  halve-Answer zero lo hi b l u c o = scan-Answer (hi + 1 - lo) lo hi (omega arith) l u c
  halve-Answer (suc fuel) lo hi b l u c o =
      let i = (lo + hi) / 2 in
      ground (
        arith,
        scan-Answer (hi + 1 - lo) lo hi,
        halve-Answer fuel (i + 1) hi,
        halve-Answer fuel lo (i - 1),
        mem_at_rank 0 a v sorted,
        get_from_rank 0 a v i sorted,
        get_past_rank 0 a v i sorted,
        get_below_rank a v i,
      )

  -- More fuel than the width of the range changes nothing: the loop has ended by its test.
  pub halve_fuel :
      (fuel lo hi : ℕ) → hi < lo + 16 + fuel → halve a v (suc fuel) lo hi ≡ halve a v fuel lo hi
  unfolding halve
  halve_fuel zero lo hi h = ground arith
  halve_fuel (suc fuel) lo hi h =
      let i = (lo + hi) / 2 in
      ground (arith, halve_fuel fuel (i + 1) hi, halve_fuel fuel lo (i - 1))

  last_or_less : (n : ℕ) → length a ≡ suc n → (get_or a n 0 == v) ≡ true → Answer ≡ at n
  last_or_less n e h = ground (
    arith,
    mem_at_rank 0 a v sorted,
    rank-le-length a v,
    get_below_rank a v n,
    get_past_rank 0 a v n sorted,
  )

  not_last : (n : ℕ) → length a ≡ suc n → halve a v (suc n) 0 n ≡ Answer
  not_last n e =
      halve-Answer (suc n) 0 n (omega arith) (omega arith) (omega (arith, rank-le-length a v))
        (inl (omega arith)) (omega arith)

  -- On an ascending array search32 returns the number of values below the one sought, as an index
  -- if the value is a member and as an insertion point if it is not.
  pub search32-Answer : search32 a v ≡ Answer
  unfolding search32
  search32-Answer = elim (ℕ-cases (length a)) [
    | inl none_left ↦ ground (arith, mem_at_rank 0 a v sorted, rank-le-length a v)
    | inr (n, e) ↦ rw e (
        let i : suc n - 1 ≡ n = omega arith in
        let nonempty : (suc n == 0) ≡ false = ground arith in
        rw (nonempty, i)
          (elim (Bool-cases (get_or a n 0 == v)) [
            | inl hit ↦ rw hit (sym (last_or_less n e hit))
            | inr miss ↦ rw miss (not_last n e)
          ]))
  ]
