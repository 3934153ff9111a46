-- ===== src/Session/Steps.antt =====
-- What every successful run of an operation does to the session, as a reflexive and transitive
-- relation between the session before and after, with one rule for each way to build an operation.
use mathlib.Core.Path.{subst}
use occj.Prelude.{◌≡◌, refl, Bool, true, false, Option, none, some, List, [], ◌∷◌, if◌then◌else◌}
use occj.Session.{
  Db, Error, Result, ok, err, M, pure, raise, gets, or_raise, ◌>>=◌, modify, on_option, for_each,
}

pub record Relation : Type 1 where
  pub rel : Db → Db → Type 0
  pub reflexive : (s : Db) → rel s s
  pub transitive : (s t u : Db) → rel s t → rel t u → rel s u

pub record Steps {A : Type 0} (R : Relation) (m : M A) : Type 0 where
  pub at : (s : Db) (a : A) (s' : Db) → m s ≡ ok (a, s') → R.rel s s'

-- A bind that returned, by its two parts.
pub >>=-eq-ok :
    {A B : Type 0} (m : M A) (f : A → M B) (s : Db) {b : B} {u : Db}
    → (m >>= f) s ≡ ok (b, u)
    → (a : A) × (t : Db) × (m s ≡ ok (a, t)) × (f a t ≡ ok (b, u))
>>=-eq-ok {A} {B} m f s {b} {u} e = split (m s) refl e
  where
    split :
        (r : Result (A × Db))
        → m s ≡ r
        → (elim r [ ok (a, t) ↦ f a t | err x ↦ err x ]) ≡ ok (b, u)
        → (a : A) × (t : Db) × (m s ≡ ok (a, t)) × (f a t ≡ ok (b, u))
    split (ok (a, t)) p q = (a, t, p, q)
    split (err x) p q = cc

pub ok-state :
    {A : Type 0} {a b : A} {s t : Db} → ◌≡◌ {A = Result (A × Db)} (ok (a, s)) (ok (b, t)) → s ≡ t
ok-state e = cc

pub stays :
    (P : Db → Type 0) {A : Type 0} {a b : A} {t u : Db}
    → P t
    → ◌≡◌ {A = Result (A × Db)} (ok (a, t)) (ok (b, u))
    → P u
stays P r e = subst P (ok-state e) r

module _ {R : Relation} where
  module _ {A : Type 0} where
    pub Steps-pure : (a : A) → Steps R (pure a)
    Steps-pure a = record { at = λ s b t e. stays (R.rel s) (R.reflexive s) e }

    pub Steps-raise : (x : Error) → Steps R (raise {A = A} x)
    Steps-raise x = record { at = λ s b t e. cc }

    pub Steps-gets : (f : Db → A) → Steps R (gets f)
    Steps-gets f = record { at = λ s b t e. stays (R.rel s) (R.reflexive s) e }

    pub Steps-or_raise : (o : Option A) (x : Error) → Steps R (or_raise o x)
    Steps-or_raise none x = Steps-raise x
    Steps-or_raise (some a) x = Steps-pure a

    pub Steps-if : (b : Bool) (m n : M A) → Steps R m → Steps R n → Steps R (if b then m else n)
    Steps-if true m n k l = k
    Steps-if false m n k l = l

  pub Steps-on_option :
      {A B : Type 0} (o : Option A) (m : M B) (f : A → M B)
      → Steps R m
      → ((a : A) → Steps R (f a))
      → Steps R (on_option o m f)
  Steps-on_option none m f k l = k
  Steps-on_option (some a) m f k l = l a

  pub Steps-bind :
      {A B : Type 0} (m : M A) (f : A → M B)
      → Steps R m
      → ((a : A) → Steps R (f a))
      → Steps R (m >>= f)
  Steps-bind m f k l = record {
    at = λ s b u e.
        let (a, t, p, q) = >>=-eq-ok m f s e in
        R.transitive s t u (k.at s a t p) ((l a).at t b u q);
  }

  pub Steps-modify : (f : Db → Db) → ((s : Db) → R.rel s (f s)) → Steps R (modify f)
  Steps-modify f h = record { at = λ s b t e. stays (R.rel s) (h s) e }

  pub Steps-for_each :
      {A : Type 0} (xs : List A) (f : A → M Unit)
      → ((a : A) → Steps R (f a))
      → Steps R (for_each xs f)
  unfolding for_each
  Steps-for_each [] f h = Steps-pure tt
  Steps-for_each (x ∷ xs) f h = Steps-bind (f x) _ (h x) (λ _. Steps-for_each xs f h)

pub ruleset steps_rules = (
  Steps-pure, Steps-raise, Steps-gets, Steps-or_raise, Steps-if, Steps-on_option, Steps-bind,
  Steps-for_each,
)
