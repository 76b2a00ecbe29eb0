-- ===== src/Common/Int64.antt =====
-- Go's int64: the result of an operation on integers, wrapped to 64 bits in two's complement.
use pilosa.Common.{ℕ, ◌+◌, ◌-◌, ◌%◌, ◌<◌, ◌≤◌, ◌≡◌, arith, ltb, if◌then◌else◌, word64}
use pilosa.Common.Int.{ℤ, pos, negsuc, pos_part, neg_part, ◌+ℤ◌, ◌-ℤ◌}

abbrev pub half64 : ℕ
half64 = 0x8000_0000_0000_0000

-- The 64 bits of an integer, and the int64 with given bits.
abbrev pub bits64 : ℤ → ℕ
bits64 (pos n) = n % word64
bits64 (negsuc n) = word64 - 1 - n % word64

abbrev pub of_bits64 : ℕ → ℤ
of_bits64 w = if ltb w half64 then pos w else negsuc (word64 - 1 - w)

unfoldable pub int64 : ℤ → ℤ
int64 z = of_bits64 (bits64 z)

abbrev pub IsInt64 : ℤ → Type 0
IsInt64 z = (pos_part z < half64) × (neg_part z ≤ half64)

pub int64_of_fits : (z : ℤ) → IsInt64 z → int64 z ≡ z
unfolding int64
int64_of_fits (pos n) h = ground arith
int64_of_fits (negsuc n) h = ground arith

sub-IsInt64 :
    (a b : ℤ)
    → pos_part a + neg_part b < half64
    → neg_part a + pos_part b ≤ half64
    → IsInt64 (a -ℤ b)
unfolding ◌-ℤ◌
sub-IsInt64 a b h k = ground arith

add-IsInt64 :
    (a b : ℤ)
    → pos_part a + pos_part b < half64
    → neg_part a + neg_part b ≤ half64
    → IsInt64 (a +ℤ b)
unfolding ◌+ℤ◌
add-IsInt64 a b h k = ground arith

-- Where the parts are small enough, an operation does not wrap.
pub int64-sub :
    (a b : ℤ)
    → pos_part a + neg_part b < half64
    → neg_part a + pos_part b ≤ half64
    → int64 (a -ℤ b) ≡ a -ℤ b
int64-sub a b h k = int64_of_fits (a -ℤ b) (sub-IsInt64 a b h k)

pub int64-add :
    (a b : ℤ)
    → pos_part a + pos_part b < half64
    → neg_part a + neg_part b ≤ half64
    → int64 (a +ℤ b) ≡ a +ℤ b
int64-add a b h k = int64_of_fits (a +ℤ b) (add-IsInt64 a b h k)

pub sub-parts_le :
    (a b : ℤ)
    → (pos_part (a -ℤ b) ≤ pos_part a + neg_part b) × (neg_part (a -ℤ b) ≤ neg_part a + pos_part b)
unfolding ◌-ℤ◌
sub-parts_le a b = ground arith

pub add-parts_le :
    (a b : ℤ)
    → (pos_part (a +ℤ b) ≤ pos_part a + pos_part b) × (neg_part (a +ℤ b) ≤ neg_part a + neg_part b)
unfolding ◌+ℤ◌
add-parts_le a b = ground arith
