-- ===== src/CaseService/Rounds.antt =====
-- backend/app/engine/case_service.py: the rounds of a cycle.
use mathlib.Core.Path.{subst}
use occj.Prelude.{
  ℕ, zero, suc, ◌+◌, String, ◌≡◌, refl, Bool, true, false, not, ◌&&◌, List, [], ◌∷◌, ◌++◌, all,
  length, length-append, leb, eq_string, arith,
}
use occj.Models.Rows.{ActionRequest}
use occj.Session.{Db, ok, pure}
use occj.Session.Yields.{Yields, Yields-pure, Yields-bind, Yields-if, Yields-on_option}
use occj.Env.{Env}
use occj.CaseService.{stalling, max_auto_steps, advance_case, drive, run_case_cycle}

-- of the actions that a cycle took, all but the last let it go on
abbrev pub goes_on : List ActionRequest → Bool
goes_on [] = true
goes_on (a ∷ []) = true
goes_on (a ∷ b ∷ rest) = not (stalling a.status) && goes_on (b ∷ rest)

goes_on-snoc :
    (xs : List ActionRequest) (a : ActionRequest)
    → all (λ (x : ActionRequest). not (stalling x.status)) xs ≡ true
    → goes_on (xs ++ a ∷ []) ≡ true
goes_on-snoc [] a h = refl
goes_on-snoc (x ∷ []) a h = ground (arith, h)
goes_on-snoc (x ∷ y ∷ xs) a h = ground (arith, h, goes_on-snoc (y ∷ xs) a)

goes_on-all :
    (xs : List ActionRequest)
    → all (λ (x : ActionRequest). not (stalling x.status)) xs ≡ true
    → goes_on xs ≡ true
goes_on-all [] h = refl
goes_on-all (x ∷ []) h = refl
goes_on-all (x ∷ y ∷ xs) h = ground (arith, h, goes_on-all (y ∷ xs))

all-snoc :
    (xs : List ActionRequest) (a : ActionRequest)
    → all (λ (x : ActionRequest). not (stalling x.status)) xs ≡ true
    → stalling a.status ≡ false
    → all (λ (x : ActionRequest). not (stalling x.status)) (xs ++ a ∷ []) ≡ true
all-snoc [] a h k = ground (arith, k)
all-snoc (x ∷ xs) a h k = ground (arith, h, k, all-snoc xs a)

abbrev Bounded : ℕ → List ActionRequest → Type 0
Bounded n xs = (leb (length xs) n ≡ true) × (goes_on xs ≡ true)

module _ (env : Env) where
  drive-Bounded :
      (n : ℕ) (case_id : String) (taken : List ActionRequest)
      → all (λ (x : ActionRequest). not (stalling x.status)) taken ≡ true
      → Yields (Bounded (length taken + n)) (drive env n case_id taken)
  unfolding drive
  drive-Bounded zero case_id taken h = Yields-pure taken (ground arith, goes_on-all taken h)
  drive-Bounded (suc n) case_id taken h = Yields-bind (advance_case env case_id) _ λ o.
      Yields-on_option o (pure taken) _ (Yields-pure taken (ground arith, goes_on-all taken h)) λ a.
        Yields-if _ (pure (taken ++ a ∷ [])) (drive env n case_id (taken ++ a ∷ []))
          (λ k.
            Yields-pure (taken ++ a ∷ [])
              (ground (arith, length-append taken (a ∷ [])), goes_on-snoc taken a h))
          (λ k.
            subst (λ j. Yields (Bounded j) (drive env n case_id (taken ++ a ∷ [])))
              (omega (arith, length-append taken (a ∷ [])))
              (drive-Bounded n case_id (taken ++ a ∷ []) (all-snoc taken a h (ground (arith, k)))))

  -- A cycle that returns took at most twelve actions, and every action that it took but the last
  -- neither waits for an approval or a review nor has failed.
  pub run_case_cycle-stalls :
      (case_id : String) (s t : Db) (taken : List ActionRequest)
      → run_case_cycle env case_id s ≡ ok (taken, t)
      → (leb (length taken) max_auto_steps ≡ true) × (goes_on taken ≡ true)
  unfolding run_case_cycle
  run_case_cycle-stalls case_id s t taken h =
      let k : Yields (Bounded max_auto_steps) (run_case_cycle env case_id) =
        search (Yields-bind, drive-Bounded) depth 8 in
      k.holds s taken t h
