-- ===== src/Executor/RowBsi/Offset.antt =====
-- A comparison of a value with a predicate is one of their offsets from the base.
use pilosa.Common.{ℕ, ◌≤◌, ◌<◌, ◌≡◌, refl, ap, Bool, true, false, not, ◌&&◌, some, arith}
use pilosa.Common.Int.{ℤ, pos_part, neg_part, ltb_ℤ, leb_ℤ, eq_ℤ, ◌+ℤ◌, ◌-ℤ◌, ◌≤ℤ◌}
use pilosa.Pql.Token.{Token}
use pilosa.Field.Group.{BsiGroup}
use pilosa.Fragment.Range.Operator.{holds, member_of}
use pilosa.Executor.RowBsi.{covers}

ltb_shift : (s b v : ℤ) → ltb_ℤ (s +ℤ b) v ≡ ltb_ℤ s (v -ℤ b)
unfolding ◌+ℤ◌ ◌-ℤ◌
ltb_shift s b v = ground arith

gtb_shift : (s b v : ℤ) → ltb_ℤ v (s +ℤ b) ≡ ltb_ℤ (v -ℤ b) s
unfolding ◌+ℤ◌ ◌-ℤ◌
gtb_shift s b v = ground arith

pub leb_shift : (s b v : ℤ) → leb_ℤ (s +ℤ b) v ≡ leb_ℤ s (v -ℤ b)
unfolding ◌+ℤ◌ ◌-ℤ◌
leb_shift s b v = ground arith

pub geb_shift : (s b v : ℤ) → leb_ℤ v (s +ℤ b) ≡ leb_ℤ (v -ℤ b) s
unfolding ◌+ℤ◌ ◌-ℤ◌
geb_shift s b v = ground arith

eqb_shift : (s b v : ℤ) → eq_ℤ (s +ℤ b) v ≡ eq_ℤ s (v -ℤ b)
unfolding ◌+ℤ◌ ◌-ℤ◌
eqb_shift s b v = ground arith

pub holds-add : (op : Token) (s b v : ℤ) → holds op (s +ℤ b) v ≡ holds op s (v -ℤ b)
holds-add Token.illegal s b v = refl
holds-add Token.assign s b v = refl
holds-add Token.between s b v = refl
holds-add Token.eq s b v = ap some (eqb_shift s b v)
holds-add Token.neq s b v = ap (λ t. some (not t)) (eqb_shift s b v)
holds-add Token.lt s b v = ap some (ltb_shift s b v)
holds-add Token.lte s b v = ap some (leb_shift s b v)
holds-add Token.gt s b v = ap some (gtb_shift s b v)
holds-add Token.gte s b v = ap some (geb_shift s b v)

-- A condition that covers the group's range holds of every value in it.
pub holds_of_covers :
    (g : BsiGroup) (op : Token) (a v : ℤ)
    → covers g op v ≡ true
    → g.min ≤ℤ a
    → a ≤ℤ g.max
    → holds op a v ≡ some true
holds_of_covers g Token.illegal a v h lo hi = ground arith
holds_of_covers g Token.assign a v h lo hi = ground arith
holds_of_covers g Token.between a v h lo hi = ground arith
holds_of_covers g Token.eq a v h lo hi = ground arith
holds_of_covers g Token.neq a v h lo hi = ground arith
holds_of_covers g Token.lt a v h lo hi = ground arith
holds_of_covers g Token.lte a v h lo hi = ground arith
holds_of_covers g Token.gt a v h lo hi = ground arith
holds_of_covers g Token.gte a v h lo hi = ground arith

-- A comparison, by the operator.
abbrev pub compares : Token → Bool
compares Token.illegal = false
compares Token.assign = false
compares Token.between = false
compares _ = true

-- No column that holds no value is in a comparison's answer.
pub holds_unheld :
    (op : Token) (a v : ℤ)
    → compares op ≡ true
    → member_of (λ h. false && h) (holds op a v) ≡ some false
holds_unheld Token.illegal a v h = ground arith
holds_unheld Token.assign a v h = ground arith
holds_unheld Token.between a v h = ground arith
holds_unheld Token.eq a v h = refl
holds_unheld Token.neq a v h = refl
holds_unheld Token.lt a v h = refl
holds_unheld Token.lte a v h = refl
holds_unheld Token.gt a v h = refl
holds_unheld Token.gte a v h = refl

pub compares_of_covers :
    (g : BsiGroup) (op : Token) (v : ℤ) → covers g op v ≡ true → compares op ≡ true
compares_of_covers g Token.illegal v h = h
compares_of_covers g Token.assign v h = h
compares_of_covers g Token.between v h = h
compares_of_covers g Token.eq v h = refl
compares_of_covers g Token.neq v h = refl
compares_of_covers g Token.lt v h = refl
compares_of_covers g Token.lte v h = refl
compares_of_covers g Token.gt v h = refl
compares_of_covers g Token.gte v h = refl

-- A predicate past the low end is at most every value, one past the high end at least.
pub past_low :
    (q : ℕ) (s d : ℤ)
    → q ≤ neg_part d
    → neg_part s < q
    → (eq_ℤ s d ≡ false) × (ltb_ℤ s d ≡ false) × (leb_ℤ s d ≡ false)
past_low q s d h k = ground arith

pub past_high :
    (q : ℕ) (s d : ℤ)
    → q ≤ pos_part d
    → pos_part s < q
    → (eq_ℤ s d ≡ false) × (ltb_ℤ d s ≡ false) × (leb_ℤ d s ≡ false) × (leb_ℤ s d ≡ true)
past_high q s d h k = ground arith
