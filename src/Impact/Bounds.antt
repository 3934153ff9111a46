-- ===== src/Impact/Bounds.antt =====
-- backend/app/engine/impact_engine.py: the ranges of what is computed.
use occj.Prelude.{
  ℕ, ◌≡◌, refl, ap, inl, inr, Bool, true, false, List, [], ◌∷◌, All, any, nat_eq, nat_eq_iff, ◌⊎◌,
  if◌then◌else◌, arith,
}
use occj.Models.Float.{Float, lt_float, max_float, f1}
use occj.Models.Float.Order.{IsNumber, lt_float_asym, lt_float_irrefl, not_lt_trans, min_float_left}
use occj.Models.Rows.{UncertaintyFlag}
use occj.Env.{Env}
use occj.Impact.{largest_from, financial_exposure, sla_breach}

-- However long a flag is overdue, and whatever the arithmetic gives, the overdue ratio is not above 1.
pub sla_breach-bounded :
    (env : Env) (now : ℕ) (flags : List UncertaintyFlag)
    → lt_float f1 (sla_breach env now flags) ≡ false
unfolding sla_breach lt_float
sla_breach-bounded env now [] = refl
sla_breach-bounded env now (f ∷ fs) = search min_float_left

-- what `max(a, b)` is, of two numbers
record Larger (a b r : Float) : Type 0 where
  number : IsNumber r
  left : lt_float r a ≡ false
  right : lt_float r b ≡ false
  one : (r ≡ a) ⊎ (r ≡ b)

max_float-Larger : (a b : Float) → IsNumber a → IsNumber b → Larger a b (max_float a b)
unfolding max_float
max_float-Larger a b p q = split (lt_float a b) refl
  where
    split : (c : Bool) → lt_float a b ≡ c → Larger a b (if c then b else a)
    split true e = record {
      number = q;
      left = lt_float_asym a b e;
      right = lt_float_irrefl b;
      one = inr refl;
    }
    split false e = record { number = p; left = lt_float_irrefl a; right = e; one = inl refl }

-- no amount of the list is above `r`
abbrev pub AtLeast : Float → List Float → Type 0
AtLeast r xs = All (λ x. lt_float r x ≡ false) xs

among_either :
    (r a b c : Float) (xs : List Float)
    → (a ≡ b) ⊎ (a ≡ c)
    → any (λ y. nat_eq y r) (a ∷ xs) ≡ true
    → any (λ y. nat_eq y r) (b ∷ c ∷ xs) ≡ true
among_either r a b c xs (inl e) h = ground (arith, h, ap (λ y. nat_eq y r) e)
among_either r a b c xs (inr e) h = ground (arith, h, ap (λ y. nat_eq y r) e)

largest_from-AtLeast :
    (best : Float) (xs : List Float)
    → IsNumber best
    → All IsNumber xs
    → IsNumber (largest_from best xs)
      × (lt_float (largest_from best xs) best ≡ false)
      × AtLeast (largest_from best xs) xs
      × (any (λ x. nat_eq x (largest_from best xs)) (best ∷ xs) ≡ true)
unfolding largest_from
largest_from-AtLeast best [] p q =
    (p, lt_float_irrefl best, tt, ground (arith, (nat_eq_iff best best).1 refl))
largest_from-AtLeast best (x ∷ xs) p (q, qs) =
    let m = max_float-Larger best x p q in
    let (number, first, rest, among) = largest_from-AtLeast (max_float best x) xs m.number qs in
    (
      number,
      not_lt_trans _ (max_float best x) best number m.number p first m.left,
      (not_lt_trans _ (max_float best x) x number m.number q first m.right, rest),
      among_either _ (max_float best x) best x xs m.one among,
    )

-- Where every amount is a number, the exposure of amounts is one of them, and none is above it.
pub financial_exposure-largest :
    (x : Float) (xs : List Float)
    → All IsNumber (x ∷ xs)
    → AtLeast (financial_exposure (x ∷ xs)) (x ∷ xs)
      × (any (λ y. nat_eq y (financial_exposure (x ∷ xs))) (x ∷ xs) ≡ true)
unfolding financial_exposure
financial_exposure-largest x xs (p, q) =
    let (number, first, rest, among) = largest_from-AtLeast x xs p q in ((first, rest), among)
