-- ===== src/Nba/Decide.antt =====
-- `decide_next_action` of backend/app/engine/nba_engine.py, a function for each of its numbered
-- steps; a step that does not apply goes on to the next.
use occj.Prelude.{
  String, false, not, ◌&&◌, ◌||◌, Option, none, some, List, any, contains, first, length, is_some,
  ltb, ◌==◌, eq_string, eq_option, if◌then◌else◌,
}
use occj.Models.Enums.{
  ActionStatus, eq_action_status, ActionType, ActorType, HypothesisStatus, eq_hypothesis_status,
  eq_source_type, UncertaintyFlagType, eq_uncertainty_flag_type,
}
use occj.Models.Float.{lt_float}
use occj.Models.Json.{str, field, end}
use occj.Models.Rows.{Case, UncertaintyFlag, Hypothesis, ImpactAssessment, ActionRequest}
use occj.Session.{Db, M, pure, gets, when, on_option, ◌>>=◌, ◌>>◌}
use occj.Session.Tables.{the_case, set_case, find_hypothesis}
use occj.Env.{Env}
use occj.Audit.{record_audit}
use occj.Reconciliation.Uncertainty.{open_flags}
use occj.Nba.Propose.{is_live, live_action, actions_of_type}
use occj.Nba.Steps.{
  systemic_prone_categories, confidence_action_threshold, latest_impact, has_itsm_evidence,
  succeeded, request_evidence, request_missing, run_analysis, escalate, recover,
}
use occj.Nba.Closing.{notify, close_case}

module _ (env : Env) where
  -- steps 6 and 7, once a recovery is live or done
  unfoldable pub follow_up :
      String → Case → Hypothesis → ImpactAssessment → List ActionRequest → M (Option ActionRequest)
  unfolding actions_of_type notify close_case
  follow_up case_id case h impact recoveries = do
    notifications ← gets (actions_of_type case_id ActionType.notify_customer)
    if is_some (succeeded recoveries) && not (ltb 0 (length notifications))
        then on_option (succeeded recoveries) (pure none)
            (notify env case_id case.customer_id impact)
        else (do
          closings ← gets (actions_of_type case_id ActionType.close_case)
          if is_some (succeeded notifications) && not (ltb 0 (length closings))
              then close_case env case_id h (succeeded recoveries)
              else pure none)

  -- steps 4 to 7, on the assessment of the hypothesis
  unfoldable pub with_impact :
      String → Case → Hypothesis → ImpactAssessment → M (Option ActionRequest)
  unfolding actions_of_type has_itsm_evidence escalate recover follow_up is_live
  with_impact case_id case h impact = do
    escalations ← gets (actions_of_type case_id ActionType.escalate_itsm)
    itsm ← gets (has_itsm_evidence case.customer_id)
    if contains systemic_prone_categories h.category && not (ltb 0 (length escalations)) && not itsm
        then escalate env case_id h impact
        else (do
          recoveries ← gets (actions_of_type case_id ActionType.execute_recovery)
          if any (λ (a : ActionRequest). is_live a.status || a.status == ActionStatus.succeeded)
                recoveries
              then follow_up case_id case h impact recoveries
              else recover env case_id h impact recoveries)

  abbrev pub first_missing : List UncertaintyFlag → Option UncertaintyFlag
  first_missing = first (λ f. f.flag_type == UncertaintyFlagType.missing)

  -- steps 2 to 7, on an active hypothesis
  unfoldable pub with_hypothesis : String → Case → Hypothesis → M (Option ActionRequest)
  unfolding request_missing run_analysis latest_impact with_impact lt_float
  with_hypothesis case_id case h = do
    flags ← gets (open_flags env case_id)
    impact ← gets (latest_impact h.id)
    if lt_float h.confidence confidence_action_threshold && is_some (first_missing flags)
        then on_option (first_missing flags) (pure none) (request_missing env case_id h)
        else on_option impact (run_analysis env case_id h) (with_impact case_id case h)

  -- `if case.primary_hypothesis_id: hypothesis = session.get(...)`
  abbrev pub primary : Option String → Db → Option Hypothesis
  primary none s = none
  primary (some key) s = if key == "" then none else find_hypothesis key s

  -- step 1, or the steps on the active hypothesis
  unfoldable pub choose : String → M (Option ActionRequest)
  unfolding request_evidence with_hypothesis
  choose case_id = do
    case ← the_case case_id
    leading ← gets (primary case.primary_hypothesis_id)
    on_option leading (request_evidence env case_id) (λ h.
        if h.status == HypothesisStatus.active
        then with_hypothesis case_id case h
        else request_evidence env case_id)

  unfoldable pub defer : String → ActionRequest → M (Option ActionRequest)
  defer case_id live = do
    record_audit env.supply (record {
      case_id = some case_id;
      entity_type = "case";
      entity_id = case_id;
      event = "reevaluation_deferred_action_in_flight";
      actor_type = ActorType.system;
      actor_id = some "nba_engine";
      payload = field "live_action_id" (str live.id) end;
    })
    pure (some live)

  unfoldable pub decide_next_action : String → M (Option ActionRequest)
  unfolding live_action choose defer
  decide_next_action case_id = do
    case ← the_case case_id
    live ← gets (live_action case_id)
    on_option live
        (do
          when case.needs_reevaluation
              (set_case case_id (λ c. record c { needs_reevaluation = false }))
          choose case_id)
        (λ a. if case.needs_reevaluation then defer case_id a else pure (some a))
