-- ===== src/Models/Float/Order.antt =====
-- The order of doubles.
use occj.Prelude.{
  ℕ, ◌≡◌, inl, inr, Bool, true, false, not, ◌&&◌, ltb, nat_eq, Bool-cases, arith, if◌then◌else◌,
}
use occj.Models.Float.{Float, lt_float, min_float, is_nan, is_negative, magnitude}

-- what `lt_float` reads of two doubles
order_asym :
    (na nb sa sb : Bool) (m n : ℕ)
    → (not na
        && not nb
        && (if sa
            then (if sb then ltb n m else not (nat_eq m 0 && nat_eq n 0))
            else (if sb then false else ltb m n)))
      ≡ true
    → (not nb
        && not na
        && (if sb
            then (if sa then ltb m n else not (nat_eq n 0 && nat_eq m 0))
            else (if sa then false else ltb n m)))
      ≡ false
order_asym na nb true true m n h = ground (arith, h)
order_asym na nb true false m n h = ground (arith, h)
order_asym na nb false true m n h = ground (arith, h)
order_asym na nb false false m n h = ground (arith, h)

pub lt_float_asym : (a b : Float) → lt_float a b ≡ true → lt_float b a ≡ false
unfolding lt_float
lt_float_asym a b =
    order_asym (is_nan a) (is_nan b) (is_negative a) (is_negative b) (magnitude a) (magnitude b)

pub lt_float_irrefl : (a : Float) → lt_float a a ≡ false
lt_float_irrefl a = elim (Bool-cases (lt_float a a)) [ inl h ↦ lt_float_asym a a h | inr h ↦ h ]

-- where no operand is a NaN, being at least as large is transitive
order_trans :
    (sa sb sc : Bool) (l m n : ℕ)
    → (if sa
        then (if sb then ltb m l else not (nat_eq l 0 && nat_eq m 0))
        else (if sb then false else ltb l m))
      ≡ false
    → (if sb
        then (if sc then ltb n m else not (nat_eq m 0 && nat_eq n 0))
        else (if sc then false else ltb m n))
      ≡ false
    → (if sa
        then (if sc then ltb n l else not (nat_eq l 0 && nat_eq n 0))
        else (if sc then false else ltb l n))
      ≡ false
order_trans true true true l m n h k = ground (arith, h, k)
order_trans true true false l m n h k = ground (arith, h, k)
order_trans true false true l m n h k = ground (arith, h, k)
order_trans true false false l m n h k = ground (arith, h, k)
order_trans false true true l m n h k = ground (arith, h, k)
order_trans false true false l m n h k = ground (arith, h, k)
order_trans false false true l m n h k = ground (arith, h, k)
order_trans false false false l m n h k = ground (arith, h, k)

abbrev pub IsNumber : Float → Type 0
IsNumber x = is_nan x ≡ false

strict : (m n b : Bool) → m ≡ false → n ≡ false → (not m && not n && b) ≡ false → b ≡ false
strict m n b p q h = ground (arith, p, q, h)

numbers : (m n b : Bool) → m ≡ false → n ≡ false → b ≡ false → (not m && not n && b) ≡ false
numbers m n b p q h = ground (arith, p, q, h)

pub not_lt_trans :
    (a b c : Float)
    → IsNumber a
    → IsNumber b
    → IsNumber c
    → lt_float a b ≡ false
    → lt_float b c ≡ false
    → lt_float a c ≡ false
unfolding lt_float
not_lt_trans a b c p q r h k = numbers (is_nan a) (is_nan c) _ p r (
    order_trans (is_negative a) (is_negative b) (is_negative c) (magnitude a) (magnitude b)
      (magnitude c) (strict (is_nan a) (is_nan b) _ p q h) (strict (is_nan b) (is_nan c) _ q r k))

-- `min(a, b)` is not above `a`
pub min_float_left : (a b : Float) → lt_float a (min_float a b) ≡ false
unfolding min_float
min_float_left a b = elim (Bool-cases (lt_float b a)) [
  | inl h ↦ ground (arith, h, lt_float_asym b a h)
  | inr h ↦ ground (arith, h, lt_float_irrefl a)
]
