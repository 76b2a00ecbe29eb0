-- ===== src/Roaring/Size.antt =====
-- The number of values below a bound that a set has, as what the cardinality of a container counts.
use mathlib.Core.Path.{subst}
use pilosa.Common.{
  ℕ, zero, suc, ◌+◌, ◌-◌, ◌≤◌, ◌<◌, leb, ◌≡◌, refl, sym, ◌∙◌, Bool, true, false, not, ◌&&◌, ◌||◌,
  ◌==◌, arith, if◌then◌else◌, Bool-cases, inl, inr,
}

pub size : (ℕ → Bool) → ℕ → ℕ
size f zero = 0
size f (suc k) = (if f k then 1 else 0) + size f k

pub size-same : (f g : ℕ → Bool) (k : ℕ) → ((c : ℕ) → c < k → f c ≡ g c) → size f k ≡ size g k
unfolding size
size-same f g zero e = refl
size-same f g (suc k) e =
    ground (arith, e k (omega arith), size-same f g k (λ c h. e c (omega arith)))

pub size-none : (f : ℕ → Bool) (k : ℕ) → ((c : ℕ) → f c ≡ false) → size f k ≡ 0
unfolding size
size-none f zero e = refl
size-none f (suc k) e = ground (arith, e k, size-none f k e)

-- One value more.
pub size-add :
    (f g : ℕ → Bool) (k v : ℕ)
    → v < k
    → f v ≡ false
    → ((c : ℕ) → g c ≡ (c == v || f c))
    → size g k ≡ suc (size f k)
unfolding size
size-add f g zero v h new e = absurd (omega arith)
size-add f g (suc k) v h new e = elim (Bool-cases (k == v)) [
  | inl last ↦
      let same : size g k ≡ size f k =
        size-same g f k
          (λ c b. let other : (c == v) ≡ false = ground arith in ground (arith, e c)) in
      let at_k : f k ≡ false = ground arith in ground (arith, e k)
  | inr before ↦ ground (arith, e k, size-add f g k v (ground arith) new e)
]

pub size-zero : (f : ℕ → Bool) (k c : ℕ) → size f k ≡ 0 → c < k → f c ≡ false
unfolding size
size-zero f zero c e h = absurd (omega arith)
size-zero f (suc k) c e h = elim (Bool-cases (k == c)) [
  | inl last ↦ ground arith
  | inr before ↦ ground (arith, size-zero f k c (ground arith) (ground arith))
]

-- One value less.
pub size-remove :
    (f g : ℕ → Bool) (k v : ℕ)
    → v < k
    → f v ≡ true
    → ((c : ℕ) → g c ≡ (not (c == v) && f c))
    → size f k ≡ suc (size g k)
size-remove f g k v h old e = size-add g f k v h (ground (arith, e v)) (λ c.
    elim (Bool-cases (c == v)) [
      | inl same ↦
          let eq : c ≡ v = ground arith in rw same (subst (λ (x : ℕ). f x ≡ true) (sym eq) old)
      | inr other ↦ rw other (ground (arith, e c))
    ])

-- A set of one value has no other.
pub size-one :
    (f : ℕ → Bool) (k v c : ℕ)
    → size f k ≡ 1
    → v < k
    → f v ≡ true
    → c < k
    → (c == v) ≡ false
    → f c ≡ false
size-one f k v c e h old b other =
    let g : ℕ → Bool = λ (x : ℕ). not (x == v) && f x in
    let none_left : g c ≡ false =
      size-zero g k c (omega (arith, size-remove f g k v h old (λ x. refl))) b in
    ground arith

-- The number of values below `k` of an interval.
pub size-interval :
    (a b k : ℕ)
    → a ≤ suc b
    → size (λ (c : ℕ). leb a c && leb c b) k
      ≡ (if leb k a then 0 else if leb k b then k - a else suc b - a)
unfolding size
size-interval a b zero h = ground arith
size-interval a b (suc k) h = ground (arith, size-interval a b k h)

-- Two sets that share no value.
pub size-either :
    (f g : ℕ → Bool) (k : ℕ)
    → ((c : ℕ) → f c ≡ true → g c ≡ false)
    → size (λ (c : ℕ). f c || g c) k ≡ size f k + size g k
unfolding size
size-either f g zero apart = refl
size-either f g (suc k) apart = ground (arith, size-either f g k apart, apart k)

-- Two sets that may share values.
pub size-both :
    (f g : ℕ → Bool) (k : ℕ)
    → size (λ (c : ℕ). f c || g c) k + size (λ (c : ℕ). f c && g c) k ≡ size f k + size g k
unfolding size
size-both f g zero = refl
size-both f g (suc k) = ground (arith, size-both f g k)

pub size-and_le : (f g : ℕ → Bool) (k : ℕ) → size (λ (c : ℕ). f c && g c) k ≤ size g k
unfolding size
size-and_le f g zero = omega arith
size-and_le f g (suc k) = ground (arith, size-and_le f g k)

-- The values below `a`, and those from `a` on.
pub size-append :
    (f : ℕ → Bool) (a b n : ℕ) → n ≡ a + b → size f n ≡ size f a + size (λ (c : ℕ). f (a + c)) b
unfolding size
size-append f a zero n e = let same : n ≡ a = omega arith in rw same (omega arith)
size-append f a (suc b) n e =
    let next : n ≡ suc (a + b) = omega arith in
    rw next (omega (arith, size-append f a b (a + b) refl))

-- A set that has every value below `k`, and one that has none.
pub size-le : (f : ℕ → Bool) (k : ℕ) → size f k ≤ k
unfolding size
size-le f zero = omega arith
size-le f (suc k) = ground (arith, size-le f k)

pub size-full : (f : ℕ → Bool) (k c : ℕ) → size f k ≡ k → c < k → f c ≡ true
unfolding size
size-full f zero c e h = absurd (omega arith)
size-full f (suc k) c e h = elim (Bool-cases (k == c)) [
  | inl last ↦
      let same : c ≡ k = ground arith in
      subst (λ (x : ℕ). f x ≡ true) (sym same) (ground (arith, size-le f k))
  | inr before ↦ size-full f k c (ground (arith, size-le f k)) (ground arith)
]

pub size-nil : (f : ℕ → Bool) → size f 0 ≡ 0
unfolding size
size-nil f = refl

pub size-first : (f : ℕ → Bool) → size f 1 ≡ (if f 0 then 1 else 0)
unfolding size
size-first f = omega arith

-- Nothing below `end` is in a set.
pub size-empty : (f : ℕ → Bool) (end : ℕ) → ((c : ℕ) → c < end → f c ≡ false) → size f end ≡ 0
size-empty f end e =
    size-same f (λ (c : ℕ). false) end e ∙ size-none (λ (c : ℕ). false) end (λ c. refl)

-- The values below `end` are those below `start` and those from there on.
pub size-from :
    (f : ℕ → Bool) (start end : ℕ)
    → start ≤ end
    → size f start + size (λ (c : ℕ). leb start c && f c) end ≡ size f end
size-from f start end h =
    let rest = end - start in
    let low : size (λ (c : ℕ). leb start c && f c) start ≡ 0 =
      size-empty (λ (c : ℕ). leb start c && f c) start
        (λ c l. let below : leb start c ≡ false = ground arith in rw below refl) in
    let high : size (λ (c : ℕ). leb start (start + c) && f (start + c)) rest
        ≡ size (λ (c : ℕ). f (start + c)) rest =
      size-same (λ (c : ℕ). leb start (start + c) && f (start + c)) (λ (c : ℕ). f (start + c)) rest
        (λ c l. let past : leb start (start + c) ≡ true = ground arith in rw past refl) in
    omega (
      arith,
      low,
      high,
      size-append f start rest end (omega arith),
      size-append (λ (c : ℕ). leb start c && f c) start rest end (omega arith),
    )
