-- ===== src/Session/Ensures.antt =====
-- What every run of an operation that returns says of its value and of the session after it.
use occj.Prelude.{
  ◌≡◌, refl, sym, ◌∙◌, inl, inr, Bool, true, false, Option, none, some, Option-cases, if◌then◌else◌,
}
use occj.Session.Runs.{on_option-some, on_option-none}
use mathlib.Core.Path.{subst}
use occj.Session.{Db, ok, M, pure, gets, ◌>>=◌, on_option}
use occj.Session.Steps.{Relation, Steps, >>=-eq-ok}
use occj.Session.Yields.{Yields}

pub record Ensures {A : Type 0} (Q : A → Db → Type 0) (m : M A) : Type 0 where
  pub after : (s : Db) (a : A) (t : Db) → m s ≡ ok (a, t) → Q a t

-- what holds of the session alone
abbrev pub Ends : {A : Type 0} → (Db → Type 0) → M A → Type 0
Ends P = Ensures (λ a. P)

-- What the first part brings about lasts.
pub Ends-then :
    {R : Relation} {P : Db → Type 0} {A B : Type 0} (m : M A) (f : A → M B)
    → ((s t : Db) → R.rel s t → P s → P t)
    → Ends P m
    → ((a : A) → Steps R (f a))
    → Ends P (m >>= f)
Ends-then m f lasts h k = record {
  after = λ s b u e.
      let (a, t, p, q) = >>=-eq-ok m f s e in lasts t u ((k a).at t b u q) (h.after s a t p);
}

module _ {A : Type 0} {Q : A → Db → Type 0} where
  -- what holds of the session, and what the value is
  pub Ensures-both :
      {P : Db → Type 0} {I : A → Type 0} (m : M A)
      → Ends P m
      → Yields I m
      → ((a : A) → I a → (s : Db) → P s → Q a s)
      → Ensures Q m
  Ensures-both m h k f = record { after = λ s a t e. f a (k.holds s a t e) t (h.after s a t e) }

  pub Ensures-pure : (a : A) → ((s : Db) → Q a s) → Ensures Q (pure a)
  Ensures-pure a h = record {
    after = λ s b t e.
        let same : a ≡ b = cc in
        let stay : s ≡ t = cc in subst (λ x. Q x t) same (subst (Q a) stay (h s));
  }

  pub Ensures-bind :
      {B : Type 0} (m : M B) (f : B → M A) → ((b : B) → Ensures Q (f b)) → Ensures Q (m >>= f)
  Ensures-bind m f h = record {
    after = λ s a u e. let (b, t, p, q) = >>=-eq-ok m f s e in (h b).after t a u q;
  }

  -- what the first part yields, the second may rely on
  pub Ensures-Yields :
      {B : Type 0} {P : B → Type 0} (m : M B) (f : B → M A)
      → Yields P m
      → ((b : B) → P b → Ensures Q (f b))
      → Ensures Q (m >>= f)
  Ensures-Yields m f k h = record {
    after =
        λ s a u e. let (b, t, p, q) = >>=-eq-ok m f s e in (h b (k.holds s b t p)).after t a u q;
  }

  -- the value is wrapped, and nothing else happens
  pub Ensures-wrap :
      {B : Type 0} {P : B → Db → Type 0} (m : M B) (g : B → A)
      → Ensures P m
      → ((b : B) (s : Db) → P b s → Q (g b) s)
      → Ensures Q (m >>= λ b. pure (g b))
  Ensures-wrap m g k h = record {
    after = λ s a u e.
        let (b, t, p, q) = >>=-eq-ok m (λ b. pure (g b)) s e in
        (Ensures-pure-at (g b) t (h b t (k.after s b t p))) a u q;
  }
    where
      Ensures-pure-at : (x : A) (s : Db) → Q x s → (b : A) (t : Db) → pure x s ≡ ok (b, t) → Q b t
      Ensures-pure-at x s h b t e =
          let same : x ≡ b = cc in
          let stay : s ≡ t = cc in subst (λ y. Q y t) same (subst (Q x) stay h)

  pub Ensures-if :
      (b : Bool) (m n : M A)
      → (b ≡ true → Ensures Q m)
      → (b ≡ false → Ensures Q n)
      → Ensures Q (if b then m else n)
  Ensures-if true m n h k = h refl
  Ensures-if false m n h k = k refl

  pub Ensures-on_option :
      {B : Type 0} (o : Option B) (m : M A) (f : B → M A)
      → Ensures Q m
      → ((b : B) → Ensures Q (f b))
      → Ensures Q (on_option o m f)
  Ensures-on_option none m f h k = h
  Ensures-on_option (some b) m f h k = k b

-- `existing = query; if existing is None: … else: …`, where the found row is known to be found
pub Ensures-found :
    {A B : Type 0} {Q : A → Db → Type 0} (f : Db → Option B) (m : M A) (g : B → M A)
    → Ensures Q m
    → ((s : Db) (b : B) → f s ≡ some b → (a : A) (t : Db) → g b s ≡ ok (a, t) → Q a t)
    → Ensures Q (gets f >>= λ o. on_option o m g)
Ensures-found f m g h k = record {
  after = λ s a t e. elim (Option-cases (f s)) [
    | inl q ↦ h.after s a t (sym (on_option-none m g s q) ∙ e)
    | inr (b, q) ↦ k s b q a t (sym (on_option-some m g s q) ∙ e)
  ];
}
