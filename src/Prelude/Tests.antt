-- ===== src/Prelude/Tests.antt =====
-- Boolean tests, the conditional, and equality as an interface.
use Prim.Native.Nat.{ℕ, compare, Ordering}
use Prim.Native.String.{String}
use mathlib.Core.Path.{◌≡◌, refl}
use mathlib.Core.Logic.{◌↔◌, ◌⊎◌, inl, inr}
use mathlib.Core.Bool.{Bool, true, false}
use mathlib.Core.Option.{Option, none, some}
use native.Mathlib.Omega.{arith}
use text.Mathlib.Text.{◌==◌ as str_eq}
use text.Mathlib.TextEquality.{eq_iff}

abbrev pub ltb : ℕ → ℕ → Bool
ltb a b = elim (compare a b) [ Ordering.lt ↦ true | _ ↦ false ]

abbrev pub leb : ℕ → ℕ → Bool
leb a b = elim (compare a b) [ Ordering.gt ↦ false | _ ↦ true ]

abbrev pub nat_eq : ℕ → ℕ → Bool
nat_eq a b = elim (compare a b) [ Ordering.eq ↦ true | _ ↦ false ]

infix 1 if◌then◌else◌
abbrev pub if◌then◌else◌ {ℓ} : {A : Type ℓ} → Bool → A → A → A
if true then x else y = x
if false then x else y = y

-- Python's `==` on a type of values, which decides equality.
pub record Eq {ℓ} (V : Type ℓ) : Type ℓ where
  pub beq : V → V → Bool
  pub beq_iff : (x y : V) → (beq x y ≡ true) ↔ (x ≡ y)

instance abbrev pub eq_string : Eq String
eq_string = record { beq_iff = eq_iff; beq = str_eq }

pub nat_eq_iff : (m n : ℕ) → (nat_eq m n ≡ true) ↔ (m ≡ n)
nat_eq_iff m n = ground arith

instance abbrev pub eq_nat : Eq ℕ
eq_nat = record { beq_iff = nat_eq_iff; beq = nat_eq }

infix 50 ◌==◌
abbrev pub ◌==◌ {ℓ} : {V : Type ℓ} ⦃eq : Eq V⦄ → V → V → Bool
◌==◌ ⦃eq⦄ x y = eq.beq x y

-- equality under `Option`, where `None` equals only itself
module _ {ℓ} {A : Type ℓ} (test : A → A → Bool) where
  abbrev pub same_option : Option A → Option A → Bool
  same_option (some x) (some y) = test x y
  same_option (some x) none = false
  same_option none (some y) = false
  same_option none none = true

  pub same_option_iff :
      ((x y : A) → (test x y ≡ true) ↔ (x ≡ y))
      → (o p : Option A) → (same_option o p ≡ true) ↔ (o ≡ p)
  same_option_iff h (some x) (some y) = ground (arith, h x y)
  same_option_iff h (some x) none = (λ q. cc, λ q. cc)
  same_option_iff h none (some y) = (λ q. cc, λ q. cc)
  same_option_iff h none none = (λ q. refl, λ q. refl)

instance abbrev pub eq_option {ℓ} : {A : Type ℓ} ⦃e : Eq A⦄ → Eq (Option A)
eq_option ⦃e⦄ = record { beq = same_option e.beq; beq_iff = same_option_iff e.beq e.beq_iff }

-- `x is not None`
abbrev pub is_some {ℓ} : {A : Type ℓ} → Option A → Bool
is_some none = false
is_some (some a) = true

-- `x or d` where `x` may be missing
abbrev pub or_else {ℓ} : {A : Type ℓ} → Option A → A → A
or_else none d = d
or_else (some a) d = a

-- To split on a computed value and keep the equation.
pub Bool-cases : (b : Bool) → (b ≡ true) ⊎ (b ≡ false)
Bool-cases true = inl refl
Bool-cases false = inr refl

pub Option-cases {ℓ} : {A : Type ℓ} (o : Option A) → (o ≡ none) ⊎ ((a : A) × (o ≡ some a))
Option-cases none = inl refl
Option-cases (some a) = inr (a, refl)
