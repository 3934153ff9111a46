-- ===== src/Session/Yields.antt =====
-- What every run of an operation that returns says of its value.
use occj.Prelude.{◌≡◌, refl, Bool, true, false, Option, none, some, if◌then◌else◌}
use mathlib.Core.Path.{subst}
use occj.Session.{Db, ok, M, pure, ◌>>=◌, on_option}
use occj.Session.Steps.{>>=-eq-ok}

pub record Yields {A : Type 0} (P : A → Type 0) (m : M A) : Type 0 where
  pub holds : (s : Db) (a : A) (t : Db) → m s ≡ ok (a, t) → P a

module _ {A : Type 0} {P : A → Type 0} where
  pub Yields-pure : (a : A) → P a → Yields P (pure a)
  Yields-pure a h = record { holds = λ s b t e. let same : a ≡ b = cc in subst P same h }

  pub Yields-bind :
      {B : Type 0} (m : M B) (f : B → M A) → ((b : B) → Yields P (f b)) → Yields P (m >>= f)
  Yields-bind m f h = record {
    holds = λ s a u e. let (b, t, p, q) = >>=-eq-ok m f s e in (h b).holds t a u q;
  }

  -- what is read is returned in the end
  pub Yields-kept :
      (m : M A) (k : A → M Unit) → Yields P m → Yields P (m >>= λ a. k a >>= λ z. pure a)
  Yields-kept m k h = record {
    holds = λ s b u e.
        let (a, t, p, q) = >>=-eq-ok m (λ a. k a >>= λ z. pure a) s e in
        let (z, v, x, y) = >>=-eq-ok (k a) (λ z. pure a) t q in
        let same : a ≡ b = cc in subst P same (h.holds s a t p);
  }

  pub Yields-if :
      (b : Bool) (m n : M A)
      → (b ≡ true → Yields P m)
      → (b ≡ false → Yields P n)
      → Yields P (if b then m else n)
  Yields-if true m n h k = h refl
  Yields-if false m n h k = k refl

  pub Yields-on_option :
      {B : Type 0} (o : Option B) (m : M A) (f : B → M A)
      → Yields P m
      → ((b : B) → Yields P (f b))
      → Yields P (on_option o m f)
  Yields-on_option none m f h k = h
  Yields-on_option (some b) m f h k = k b
