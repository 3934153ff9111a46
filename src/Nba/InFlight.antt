-- ===== src/Nba/InFlight.antt =====
-- backend/app/engine/nba_engine.py: the decision while an action is in flight.
use occj.Prelude.{
  ◌+◌, String, ◌≡◌, refl, ◌∙◌, inl, inr, some, [], ◌∷◌, length, length-append, Bool-cases,
  if◌then◌else◌, arith,
}
use occj.Models.Enums.{ActorType}
use occj.Models.Json.{str, field, end}
use occj.Models.Rows.{Case, ActionRequest}
use occj.Session.{Db, ok, pure, attribute_error}
use occj.Session.Runs.{>>=-ok, gets-or_raise-ok, if-true, if-false, on_option-some}
use occj.Session.Tables.{find_case, the_case}
use occj.Env.{Env}
use occj.Audit.{Event, record_audit}
use occj.Audit.Runs.{stamped, audited, record_audit-audited}
use occj.Nba.Propose.{live_action}
use occj.Nba.Decide.{defer, decide_next_action}

module _ (env : Env) (case_id : String) (s : Db) (c : Case) (a : ActionRequest) where
  abbrev pub deferral : Event
  deferral = record {
    case_id = some case_id;
    entity_type = "case";
    entity_id = case_id;
    event = "reevaluation_deferred_action_in_flight";
    actor_type = ActorType.system;
    actor_id = some "nba_engine";
    payload = field "live_action_id" (str a.id) end;
  }

  pub defer-audited : defer env case_id a s ≡ ok (some a, audited env.supply deferral s)
  unfolding defer
  defer-audited =
      >>=-ok (record_audit env.supply deferral) (λ _. pure (some a)) s
        (record_audit-audited env.supply deferral s) refl

  -- When an action of an existing case is live, the decision is that action: no request and no
  -- approval is added or changed, nor is the case, and one entry is written exactly if a
  -- reevaluation was due, which stays due.
  pub decide_next_action-in_flight :
      find_case case_id s ≡ some c
      → live_action case_id s ≡ some a
      → (t : Db) × (decide_next_action env case_id s ≡ ok (some a, t))
        × (t.actions ≡ s.actions)
        × (t.approvals ≡ s.approvals)
        × (t.cases ≡ s.cases)
        × (length t.audit ≡ length s.audit + (if c.needs_reevaluation then 1 else 0))
  unfolding decide_next_action
  decide_next_action-in_flight h k = elim (Bool-cases c.needs_reevaluation) [
    | inl r ↦ (
      audited env.supply deferral s,
      >>=-ok (the_case case_id) _ s (gets-or_raise-ok (find_case case_id) attribute_error s h)
          (on_option-some _ _ s k ∙ if-true _ _ s r ∙ defer-audited),
      refl,
      refl,
      refl,
      ground (arith, r, length-append s.audit (stamped env.supply deferral s ∷ [])),
    )
    | inr r ↦ (
      s,
      >>=-ok (the_case case_id) _ s (gets-or_raise-ok (find_case case_id) attribute_error s h)
          (on_option-some _ _ s k ∙ if-false _ _ s r),
      refl,
      refl,
      refl,
      ground (arith, r),
    )
  ]
