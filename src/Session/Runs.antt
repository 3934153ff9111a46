-- ===== src/Session/Runs.antt =====
-- A run of an operation from the runs of its parts.
use occj.Prelude.{◌≡◌, refl, ap, ◌∙◌, Bool, true, false, Option, none, some, if◌then◌else◌}
use occj.Session.{
  Db, Error, Result, ok, err, M, raise, skip, gets, or_raise, on_option, ◌>>=◌, ◌>>◌,
}

module _ {A B : Type 0} where
  pub >>=-ok :
      (m : M A) (f : A → M B) (s : Db) {a : A} {t : Db} {r : Result (B × Db)}
      → m s ≡ ok (a, t)
      → f a t ≡ r
      → (m >>= f) s ≡ r
  >>=-ok m f s h k = ap (λ x. elim x [ ok (a, t) ↦ f a t | err x ↦ err x ]) h ∙ k

  pub >>=-err : (m : M A) (f : A → M B) (s : Db) {x : Error} → m s ≡ err x → (m >>= f) s ≡ err x
  >>=-err m f s h = ap (λ x. elim x [ ok (a, t) ↦ f a t | err x ↦ err x ]) h

module _ {A : Type 0} where
  pub gets-or_raise-ok :
      (f : Db → Option A) (x : Error) (s : Db) {a : A}
      → f s ≡ some a
      → (gets f >>= (λ o. or_raise o x)) s ≡ ok (a, s)
  gets-or_raise-ok f x s h = ap (λ o. or_raise o x s) h

  pub if-true : {b : Bool} (m n : M A) (s : Db) → b ≡ true → (if b then m else n) s ≡ m s
  if-true m n s h = ap (λ b. (if b then m else n) s) h

  pub if-false : {b : Bool} (m n : M A) (s : Db) → b ≡ false → (if b then m else n) s ≡ n s
  if-false m n s h = ap (λ b. (if b then m else n) s) h

-- The error that a run ends in, if any.
abbrev pub failure {ℓ} : {A : Type ℓ} → Result A → Option Error
failure (ok r) = none
failure (err x) = some x

module _ {A : Type 0} (x : Error) (s : Db) where
  pub failure-or_raise :
      {B : Type 0} (o : Option B) (k : B → M A) (v : B → Option Error)
      → ((b : B) → failure (k b s) ≡ v b)
      → failure ((or_raise o x >>= k) s) ≡ (elim o [ none ↦ some x | some b ↦ v b ])
  failure-or_raise none k v h = refl
  failure-or_raise (some b) k v h = h b

  pub failure-guard :
      (b : Bool) (k : M A) (v : Option Error)
      → failure (k s) ≡ v
      → failure (((if b then raise x else skip) >> k) s) ≡ (if b then some x else v)
  failure-guard true k v h = refl
  failure-guard false k v h = h

  pub or_raise-run :
      {B : Type 0} (o : Option B) (k : B → M A) {b : B}
      → o ≡ some b
      → (or_raise o x >>= k) s ≡ k b s
  or_raise-run o k h = ap (λ p. (or_raise p x >>= k) s) h

  pub guard-run : (b : Bool) (k : M A) → b ≡ false → ((if b then raise x else skip) >> k) s ≡ k s
  guard-run b k h = ap (λ p. ((if p then raise x else skip) >> k) s) h

pub on_option-some :
    {A B : Type 0} {o : Option A} {a : A} (m : M B) (f : A → M B) (s : Db)
    → o ≡ some a
    → on_option o m f s ≡ f a s
on_option-some m f s h = ap (λ p. on_option p m f s) h

pub on_option-none :
    {A B : Type 0} {o : Option A} (m : M B) (f : A → M B) (s : Db)
    → o ≡ none
    → on_option o m f s ≡ m s
on_option-none m f s h = ap (λ p. on_option p m f s) h
