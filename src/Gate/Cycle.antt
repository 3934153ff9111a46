-- ===== src/Gate/Cycle.antt =====
-- backend/app/engine/orchestrator.py and case_service.py: what is executed, and on whose word.
use occj.Prelude.{
  String, ◌≡◌, refl, sym, ◌∙◌, inl, inr, true, Option, none, some, List, [], ◌∷◌, Bool-cases,
  if◌then◌else◌, arith,
}
use occj.Models.Enums.{eq_action_status}
use occj.Models.Rows.{ActionRequest}
use occj.Session.{Db, M, ok, pure, on_option, ◌>>=◌}
use occj.Session.Steps.{Steps, stays, >>=-eq-ok}
use occj.Session.Runs.{if-true, if-false}
use occj.Env.{Env}
use occj.Nba.Decide.{decide_next_action}
use occj.Tools.Executor.{execute_action}
use occj.CaseService.{advance_case, run_case_cycle}
use occj.Frame.{runnable}
use occj.Frame.Actions.{decide-Steps}
use occj.Frame.Service.{execute_action-Steps, run_case_cycle-Steps}
use occj.Gate.Licence.{Sanctioned, licensed}
use occj.Gate.Proposed.{ClearedOption}
use occj.Gate.Decided.{decide-Cleared}
use occj.Gate.Writes.{Holds, Licensing, Licensing-Frame}

pub Holds-none : (s : Db) → Sanctioned s → Holds [] s
Holds-none s h = record { sanctioned = h; kept = refl }

Holds-one : (s : Db) (key : String) → Sanctioned s → licensed s key ≡ true → Holds (key ∷ []) s
Holds-one s key h k = record { sanctioned = h; kept = ground (arith, k) }

module _ (env : Env) where
  -- what `advance_case` does with the decided action
  abbrev take_up : Option ActionRequest → M (Option ActionRequest)
  take_up o = on_option o (pure none) (λ a.
      if runnable a.status
      then (execute_action env a >>= λ done. pure (some done))
      else pure (some a))

  -- an action that is licensed is executed, or nothing happens
  take_up-Sanctioned :
      (o : Option ActionRequest) (s t : Db) (r : Option ActionRequest)
      → ClearedOption o s
      → Sanctioned s
      → take_up o s ≡ ok (r, t)
      → Sanctioned t
  take_up-Sanctioned none s t r h k e = stays Sanctioned k e
  take_up-Sanctioned (some a) s t r h k e = elim (Bool-cases (runnable a.status)) [
    | inl q ↦
        let (done, u, p, l) =
          >>=-eq-ok (execute_action env a) (λ d. pure (some d)) s (sym (if-true _ _ s q) ∙ e) in
        let held : Holds (a.id ∷ []) u =
          (execute_action-Steps env (Licensing-Frame (a.id ∷ []) env) a refl).at s done u p
            (Holds-one s a.id k (h k q)) in
        stays Sanctioned held.sanctioned l
    | inr q ↦ stays Sanctioned k (sym (if-false _ _ s q) ∙ e)
  ]

  pub advance-Licensing : (case_id : String) → Steps (Licensing []) (advance_case env case_id)
  unfolding advance_case
  advance-Licensing case_id = record {
    at = λ s r u e h.
        let (o, t, p, q) = >>=-eq-ok (decide_next_action env case_id) take_up s e in
        let held : Holds [] t = (decide-Steps env (Licensing-Frame [] env) case_id).at s o t p h in
        Holds-none u (
          take_up-Sanctioned o t u r ((decide-Cleared env case_id).after s o t p) held.sanctioned
            q);
  }

  -- Where every execution so far is of an action that needs no approval or has an approved one, and
  -- every action that is ready to run is such an action, a cycle that returns leaves it so: it runs no
  -- tool for an action that needs an approval and has none that was approved.
  pub run_case_cycle-Sanctioned :
      (case_id : String) (s t : Db) (taken : List ActionRequest)
      → Sanctioned s
      → run_case_cycle env case_id s ≡ ok (taken, t)
      → Sanctioned t
  run_case_cycle-Sanctioned case_id s t taken h e =
      ((run_case_cycle-Steps env (Licensing-Frame [] env) advance-Licensing case_id).at s taken t e
        (Holds-none s h)).sanctioned
