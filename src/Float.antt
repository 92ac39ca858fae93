-- ===== src/Float.antt =====
-- Python's numbers, as far as the program compares them.
use native.Mathlib.Nat.{mul-le-mul_right, lt_of_mul-lt-mul_left, pow-suc}
use canyonos.Prelude.{
  ℕ, zero, suc, ◌+◌, ◌*◌, ◌%◌, ◌/◌, ◌^◌, ◌≤◌, ◌<◌, ◌≡◌, refl, Bool, true, false, not, ◌&&◌, arith,
  ltb, List, [], ◌∷◌, All, if◌then◌else◌, Bool-cases, inl, inr, ◌==◌, lt→ltb, ltb→lt, ltb-false,
}
use canyonos.Prelude.Int.{ℤ, pos, pos_part, neg_part, sub_ℕ}

-- A `float`: every finite double is an integer over a power of two, `finite z k` is z / 2 ^ k.
-- An `int` is compared by its exact value, which is `finite z 0`.
pub data Float : Type 0 where
  finite : ℤ → ℕ → Float
  inf neg_inf nan : Float

-- `x < y`; every comparison with NaN is false.
unfoldable pub lt : Float → Float → Bool
lt (finite a i) (finite b j) =
    ltb (pos_part a * 2 ^ j + neg_part b * 2 ^ i) (pos_part b * 2 ^ i + neg_part a * 2 ^ j)
lt (finite _ _) inf = true
lt neg_inf (finite _ _) = true
lt neg_inf inf = true
lt _ _ = false

abbrev pub is_nan : Float → Bool
is_nan nan = true
is_nan _ = false

-- `x <= y`, which is `not y < x` except at NaN.
unfoldable pub le : Float → Float → Bool
le x y = not (is_nan x) && not (is_nan y) && not (lt y x)

-- `x.is_integer()`
unfoldable pub is_integer : Float → Bool
is_integer (finite z k) = (pos_part z + neg_part z) % 2 ^ k == 0
is_integer _ = false

-- `int(x)` of a finite float, which rounds towards zero.
unfoldable pub truncate : Float → ℤ
truncate (finite z k) = sub_ℕ (pos_part z / 2 ^ k) (neg_part z / 2 ^ k)
truncate _ = pos 0

pub pow-pos : (k : ℕ) → 0 < 2 ^ k
pow-pos zero = omega arith
pow-pos (suc k) = simp pow-suc (omega (arith, pow-pos k))

-- `x < y` and `y ≤ z` give `x < z`, for three fractions with positive denominators.
cross :
    (a a' b b' c c' i j k : ℕ)
    → 0 < k
    → a * j + b' * i < b * i + a' * j
    → b * k + c' * j ≤ c * j + b' * k
    → a * k + c' * i < c * i + a' * k
cross a a' b b' c c' i j k h p q =
    lt_of_mul-lt-mul_left j (omega (arith, mul-le-mul_right k p, mul-le-mul_right i q))

cross_le :
    (a a' b b' c c' i j k : ℕ)
    → 0 < i
    → a * j + b' * i ≤ b * i + a' * j
    → b * k + c' * j < c * j + b' * k
    → a * k + c' * i < c * i + a' * k
cross_le a a' b b' c c' i j k h p q =
    lt_of_mul-lt-mul_left j (omega (arith, mul-le-mul_right k p, mul-le-mul_right i q))

-- What is below a number is below all that is not below it.
pub lt_trans_not :
    (x y z : Float) → lt x y ≡ true → lt z y ≡ false → is_nan z ≡ false → lt x z ≡ true
unfolding lt
lt_trans_not (finite a i) (finite b j) (finite c k) p q n = lt→ltb _ _ (
    cross (pos_part a) (neg_part a) (pos_part b) (neg_part b) (pos_part c) (neg_part c) (2 ^ i)
      (2 ^ j) (2 ^ k) (pow-pos k) (ltb→lt _ _ p) (ltb-false _ _ q))
lt_trans_not (finite _ _) inf inf p q n = refl
lt_trans_not x y z p q n = ground arith

-- What is not above a number is below all that is above it.
pub lt_not_trans :
    (x y z : Float) → lt y x ≡ false → is_nan x ≡ false → lt y z ≡ true → lt x z ≡ true
unfolding lt
lt_not_trans (finite a i) (finite b j) (finite c k) q n p = lt→ltb _ _ (
    cross_le (pos_part a) (neg_part a) (pos_part b) (neg_part b) (pos_part c) (neg_part c) (2 ^ i)
      (2 ^ j) (2 ^ k) (pow-pos i) (ltb-false _ _ q) (ltb→lt _ _ p))
lt_not_trans x y z q n p = ground arith

pub lt_asymm : (x y : Float) → lt x y ≡ true → lt y x ≡ false
unfolding lt
lt_asymm x y p = ground arith

-- `min` and `max` of a first value and the rest, which keep the first of equals.
unfoldable pub minimum : Float → List Float → Float
minimum m [] = m
minimum m (x ∷ xs) = minimum (if lt x m then x else m) xs

unfoldable pub maximum : Float → List Float → Float
maximum m [] = m
maximum m (x ∷ xs) = maximum (if lt m x then x else m) xs

abbrev pub IsNumber : Float → Type 0
IsNumber x = is_nan x ≡ false

abbrev pub Above : Float → Float → Type 0
Above bound x = lt bound x ≡ true

abbrev pub Below : Float → Float → Type 0
Below bound x = lt x bound ≡ true

-- When the minimum is above a bound, so is every value.
pub All-Above-minimum :
    (bound m : Float) (xs : List Float)
    → IsNumber m
    → All IsNumber xs
    → Above bound (minimum m xs)
    → Above bound m × All (Above bound) xs
unfolding minimum
All-Above-minimum bound m [] n ns h = (h, tt)
All-Above-minimum bound m (x ∷ xs) n ns h = elim (Bool-cases (lt x m)) [
  | inl less ↦
      let r = All-Above-minimum bound x xs ns.0 ns.1 (rw less at h) in
      (lt_trans_not bound x m r.0 (lt_asymm x m less) n, r)
  | inr more ↦
      let r = All-Above-minimum bound m xs n ns.1 (rw more at h) in
      (r.0, (lt_trans_not bound m x r.0 more ns.0, r.1))
]

pub All-Below-maximum :
    (bound m : Float) (xs : List Float)
    → IsNumber m
    → All IsNumber xs
    → Below bound (maximum m xs)
    → Below bound m × All (Below bound) xs
unfolding maximum
All-Below-maximum bound m [] n ns h = (h, tt)
All-Below-maximum bound m (x ∷ xs) n ns h = elim (Bool-cases (lt m x)) [
  | inl more ↦
      let r = All-Below-maximum bound x xs ns.0 ns.1 (rw more at h) in
      (lt_not_trans m x bound (lt_asymm m x more) n r.0, r)
  | inr less ↦
      let r = All-Below-maximum bound m xs n ns.1 (rw less at h) in
      (r.0, (lt_not_trans x m bound less ns.0 r.0, r.1))
]

pub lt_irrefl : (x : Float) → lt x x ≡ false
lt_irrefl x = elim (Bool-cases (lt x x)) [ inl e ↦ lt_asymm x x e | inr e ↦ e ]

-- A number that is compared successfully is not NaN.
pub lt_numbers : (x y : Float) → lt x y ≡ true → (is_nan x ≡ false) × (is_nan y ≡ false)
unfolding lt
lt_numbers x y h = ground arith

-- What is not below `y` is not below what is below `y`.
pub not_lt_trans : (x y z : Float) → lt x y ≡ false → lt z y ≡ true → lt x z ≡ false
not_lt_trans x y z p q = elim (Bool-cases (lt x z)) [
  | inr e ↦ e
  | inl e ↦ cc (p, lt_trans_not x z y e (lt_asymm z y q) (lt_numbers z y q).1)
]

-- What is not below a number is not below what that number is not below.
pub not_lt_trans_not :
    (x y z : Float) → lt x y ≡ false → lt y z ≡ false → is_nan y ≡ false → lt x z ≡ false
not_lt_trans_not x y z p q n = elim (Bool-cases (lt x z)) [
  | inr e ↦ e
  | inl e ↦ cc (p, lt_trans_not x z y e q n)
]

-- What is above something that is not below `y` is not below `y`.
pub lt_not_lt : (x y z : Float) → lt x y ≡ false → lt x z ≡ true → lt z y ≡ false
lt_not_lt x y z p q = elim (Bool-cases (lt z y)) [
  | inr e ↦ e
  | inl e ↦ cc (p, lt_trans_not x z y q (lt_asymm z y e) (lt_numbers z y e).1)
]

pub le-false : (x y : Float) → le x y ≡ false → lt x y ≡ false
unfolding le lt
le-false x y h = ground arith
