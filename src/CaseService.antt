-- ===== src/CaseService.antt =====
-- backend/app/engine/orchestrator.py and case_service.py: a case is opened, and driven until it
pub mod Rounds
-- stalls.
use occj.Prelude.{
  ℕ, suc, zero, String, Bool, false, ◌||◌, Option, none, some, List, [], ◌∷◌, ◌++◌, first, count_if,
  is_some, or_else, ltb, ◌==◌, eq_string, if◌then◌else◌,
}
use occj.Models.Enums.{
  ActionStatus, eq_action_status, ActorType, CaseStatus, CaseTriggerType, case_trigger_type_value,
  JourneyStage,
}
use occj.Models.Json.{str, field, end, of_option}
use occj.Models.Rows.{Case, Customer, ActionRequest}
use occj.Session.{M, pure, gets, new_id, utcnow, on_option, ◌>>=◌, ◌>>◌}
use occj.Session.Tables.{add_case, add_customer}
use occj.Env.{Env}
use occj.Audit.{record_audit}
use occj.Reconciliation.Uncertainty.{reconcile_case}
use occj.Hypotheses.Generate.{generate_or_update_hypotheses}
use occj.Nba.Decide.{decide_next_action}
use occj.Tools.Executor.{execute_action}

-- The keyword arguments of `get_or_create_customer`.
pub record NewCustomer : Type 0 where
  pub external_customer_id : String
  pub display_name : String
  pub tier : String
  pub email : Option String
  pub phone : Option String

-- The keyword arguments of `create_case`.
pub record NewCase : Type 0 where
  pub customer_id : String
  pub trigger_type : CaseTriggerType
  pub opened_by_user_id : Option String
  pub order_id : Option String
  pub summary : Option String

abbrev pub stalling : ActionStatus → Bool
stalling st =
    st == ActionStatus.pending_approval
    || st == ActionStatus.needs_manual_review
    || st == ActionStatus.failed

abbrev pub max_auto_steps : ℕ
max_auto_steps = 12

-- `bool(opened_by_user_id)`
abbrev pub named : Option String → Option String
named none = none
named (some u) = if u == "" then none else some u

module _ (env : Env) where
  unfoldable pub get_or_create_customer : NewCustomer → M Customer
  get_or_create_customer n = do
    found ← gets (λ s. first (λ c. c.external_customer_id == n.external_customer_id) s.customers)
    on_option found
        (do
          key ← new_id env.supply
          let customer : Customer = record {
            id = key;
            external_customer_id = n.external_customer_id;
            display_name = n.display_name;
            email = n.email;
            phone = n.phone;
            tier = n.tier;
          }
          add_customer customer
          pure customer)
        pure

  unfoldable pub create_case : NewCase → M Case
  create_case n = do
    now ← utcnow env.supply
    key ← new_id env.supply
    let case : Case = record {
      id = key;
      customer_id = n.customer_id;
      order_id = n.order_id;
      trigger_type = n.trigger_type;
      opened_by_user_id = n.opened_by_user_id;
      status = CaseStatus.open_;
      stage = JourneyStage.issue_reported;
      summary = n.summary;
      deadline_at = none;
      last_activity_at = now;
      needs_reevaluation = false;
      primary_hypothesis_id = none;
      closed_at = none;
      closure_summary = none;
    }
    add_case case
    record_audit env.supply (record {
      case_id = some key;
      entity_type = "case";
      entity_id = key;
      event = "opened";
      actor_type =
          if is_some (named n.opened_by_user_id)
          then ActorType.human_decision
          else ActorType.system;
      actor_id = some (or_else (named n.opened_by_user_id) "system");
      payload =
          field "trigger_type" (str (case_trigger_type_value n.trigger_type))
            (field "customer_id" (str n.customer_id) (field "order_id" (of_option n.order_id) end));
    })
    pure case

  -- backend/app/engine/orchestrator.py
  unfoldable pub advance_case : String → M (Option ActionRequest)
  advance_case case_id = do
    action ← decide_next_action env case_id
    on_option action (pure none) (λ a.
        if a.status == ActionStatus.proposed || a.status == ActionStatus.approved
        then (do done ← execute_action env a; pure (some done))
        else pure (some a))

  -- the loop of `run_case_cycle`, on the rounds that are left and the actions taken. An object that
  -- was returned before shows its key again.
  unfoldable pub drive : ℕ → String → List ActionRequest → M (List ActionRequest)
  unfolding advance_case
  drive zero case_id taken = pure taken
  drive (suc rounds) case_id taken = do
    action ← advance_case case_id
    on_option action (pure taken) (λ a.
        let all_taken = taken ++ a ∷ [] in
        if stalling a.status || ltb 1 (count_if (λ (b : ActionRequest). b.id == a.id) all_taken)
        then pure all_taken
        else drive rounds case_id all_taken)

  unfoldable pub run_case_cycle : String → M (List ActionRequest)
  unfolding drive
  run_case_cycle case_id = do
    reconcile_case env case_id
    generate_or_update_hypotheses env case_id
    drive max_auto_steps case_id []
