-- ===== src/Common/Booleans.antt =====
-- Laws of the Boolean tests that name sets.
use mathlib.Core.Path.{subst}
use pilosa.Common.{
  ℕ, ◌≡◌, refl, sym, Bool, true, false, not, ◌&&◌, ◌||◌, ◌==◌, arith, Bool-cases, inl, inr,
}

pub and_false : (b : Bool) → (b && false) ≡ false
and_false true = refl
and_false false = refl

pub and_swap : (a b : Bool) → (a && b) ≡ (b && a)
and_swap true true = refl
and_swap true false = refl
and_swap false true = refl
and_swap false false = refl

pub or_assoc : (a b c : Bool) → ((a || b) || c) ≡ (a || (b || c))
or_assoc true b c = refl
or_assoc false b c = refl

pub or_swap : (a b : Bool) → (a || b) ≡ (b || a)
or_swap true true = refl
or_swap true false = refl
or_swap false true = refl
or_swap false false = refl

-- A membership that a change by one value leaves as it was.
pub same_with : (f : ℕ → Bool) (v c : ℕ) → f v ≡ true → f c ≡ (c == v || f c)
same_with f v c e = elim (Bool-cases (c == v)) [
  | inl same ↦ let eq : c ≡ v = ground arith in rw same (subst (λ (x : ℕ). f x ≡ true) (sym eq) e)
  | inr other ↦ rw other refl
]

pub same_without : (f : ℕ → Bool) (v c : ℕ) → f v ≡ false → f c ≡ (not (c == v) && f c)
same_without f v c e = elim (Bool-cases (c == v)) [
  | inl same ↦ let eq : c ≡ v = ground arith in rw same (subst (λ (x : ℕ). f x ≡ false) (sym eq) e)
  | inr other ↦ rw other refl
]
