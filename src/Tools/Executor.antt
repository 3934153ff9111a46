-- ===== src/Tools/Executor.antt =====
-- backend/app/tools/executor.py: an action is carried out, with at most three attempts.
pub mod Settled
use occj.Prelude.{
  ℕ, String, Bool, false, ◌&&◌, Option, none, some, List, [], ◌∷◌, any, ltb, length, ◌==◌,
  eq_string, fstring, if◌then◌else◌,
}
use occj.Models.Enums.{
  ActionStatus, action_status_value, eq_action_status, ActionType, ActorType, JourneyStage,
  ToolExecutionStatus, tool_execution_status_value, eq_tool_execution_status,
}
use occj.Models.Json.{Fields, int, field, end, of_option}
use occj.Models.Rows.{Customer, ActionRequest, ToolExecution}
use occj.Session.{
  Db, M, pure, gets, or_raise, new_id, utcnow, skip, when, on_option, for_each, attribute_error,
  ◌>>=◌, ◌>>◌,
}
use occj.Session.Tables.{find_action, the_action, set_action, add_execution, set_execution}
use occj.Env.{Env}
use occj.Audit.{record_audit}
use occj.Stage.{advance_stage}
use occj.Reconciliation.Ingest.{Delivery, ingest_evidence}
use occj.Reconciliation.Uncertainty.{reconcile_case}
use occj.Tools.Base.{Surfaced, ToolResult, Outcome, returned, timed_out, raised, Context}
use occj.Tools.Registry.{Connector, connector_name, resolve, execute_connector}

-- `_STAGE_ON_SUCCESS.get(action_type)`
unfoldable pub stage_on_success : ActionType → Option JourneyStage
stage_on_success ActionType.escalate_itsm = some JourneyStage.actions_coordinated
stage_on_success ActionType.execute_recovery = some JourneyStage.actions_coordinated
stage_on_success ActionType.notify_customer = some JourneyStage.customer_updated
stage_on_success _ = none

-- `range(1, MAX_ATTEMPTS + 1)`
abbrev pub attempt_numbers : List ℕ
attempt_numbers = 1 ∷ 2 ∷ 3 ∷ []

-- `result is not None and result.success`
abbrev pub is_success : Option ToolResult → Bool
is_success none = false
is_success (some r) = r.success

-- what the `try` statement makes of an attempt
abbrev pub result_of : Outcome → Option ToolResult
result_of (returned r) = some r
result_of timed_out = none
result_of (raised text) = none

unfoldable pub status_of : Outcome → ToolExecutionStatus
status_of (returned r) =
    if r.success then ToolExecutionStatus.success else ToolExecutionStatus.failed
status_of timed_out = ToolExecutionStatus.timeout
status_of (raised text) = ToolExecutionStatus.failed

unfoldable pub error_of : Outcome → Option String
error_of (returned r) = if r.success then none else r.error_message
error_of timed_out = some "Timed out after 10.0s"
error_of (raised text) = some text

abbrev response_of : Outcome → Fields
response_of (returned r) = r.response_payload
response_of timed_out = end
response_of (raised text) = end

-- `last_error` after an attempt
abbrev pub last_error_of : Option String → Outcome → Option String
last_error_of before (returned r) = if r.success then before else r.error_message
last_error_of before timed_out = some "Timed out after 10.0s"
last_error_of before (raised text) = some text

module _ (env : Env) where
  unfoldable pub attempt_once : ActionRequest → Connector → Context → ℕ → M Outcome
  unfolding status_of error_of
  attempt_once action connector context attempt = do
    started ← utcnow env.supply
    key ← new_id env.supply
    add_execution (record {
      id = key;
      action_request_id = action.id;
      connector = connector_name connector;
      attempt_number = attempt;
      status = ToolExecutionStatus.pending;
      request_payload = action.target;
      response_payload = end;
      error_message = none;
      started_at = started;
      finished_at = none;
    })
    outcome ← execute_connector env connector action context attempt
    finished ← utcnow env.supply
    set_execution key (λ x. record x {
      status = status_of outcome;
      response_payload = response_of outcome;
      error_message = error_of outcome;
      finished_at = some finished;
    })
    record_audit env.supply (record {
      case_id = some action.case_id;
      entity_type = "tool_execution";
      entity_id = key;
      event = fstring ("attempt_" ∷ tool_execution_status_value (status_of outcome) ∷ []);
      actor_type = ActorType.automated_action;
      actor_id = some (connector_name connector);
      payload = field "attempt" (int attempt) (field "error" (of_option (error_of outcome)) end);
    })
    pure outcome

  -- the loop, on the attempts that are left, with `result` and `last_error`
  unfoldable pub attempts :
      ActionRequest
      → Connector
      → Context
      → List ℕ
      → Option ToolResult
      → Option String
      → M (Option ToolResult × Option String)
  unfolding attempt_once
  attempts action connector context [] result last_error = pure (result, last_error)
  attempts action connector context (n ∷ ns) result last_error = do
    outcome ← attempt_once action connector context n
    if is_success (result_of outcome)
        then pure (result_of outcome, last_error_of last_error outcome)
        else attempts action connector context ns (result_of outcome)
            (last_error_of last_error outcome)

  unfoldable pub delivery_of : String → Surfaced → Delivery
  delivery_of customer_id e = record {
    customer_id = customer_id;
    source_type = e.source_type;
    provenance_source = e.provenance_source;
    external_ref = e.external_ref;
    occurred_at = e.occurred_at;
    payload = e.payload;
    order_id = e.order_id;
    recorded_at_source = none;
    actor_type = ActorType.automated_action;
  }

  unfoldable pub ingest_surfaced : Option Customer → Surfaced → M Unit
  unfolding delivery_of
  ingest_surfaced customer e = do
    c ← or_raise customer attribute_error
    ingest_evidence env (delivery_of c.id e)
    skip

  -- what a successful result does, up to the status of the action
  unfoldable pub absorb : ActionRequest → Context → ToolResult → M Unit
  unfolding ingest_surfaced stage_on_success
  absorb action context result = do
    for_each result.evidence_to_ingest (ingest_surfaced context.customer)
    when (ltb 0 (length result.evidence_to_ingest))
        (on_option context.case skip (λ c. reconcile_case env c.id))
    set_action action.id (λ a. record a {
      status =
          if result.needs_manual_review
          then ActionStatus.needs_manual_review
          else ActionStatus.succeeded;
    })
    on_option (stage_on_success action.action_type) skip
        (λ stage. on_option context.case skip (λ c. advance_stage env.supply c.id stage))

  unfoldable pub fail : ActionRequest → M Unit
  fail action = set_action action.id (λ a. record a { status = ActionStatus.failed })

  unfoldable pub settle : ActionRequest → Context → Option ToolResult → M Unit
  unfolding absorb fail
  settle action context none = fail action
  settle action context (some r) = if r.success then absorb action context r else fail action

  -- from the time of the decision on; `action` is its row, so what is returned is the row in the end
  unfoldable pub conclude : ActionRequest → Connector → Option String → M ActionRequest
  unfolding find_action
  conclude action connector last_error = do
    decided ← utcnow env.supply
    set_action action.id (λ a. record a { decided_at = some decided })
    settled ← the_action action.id
    record_audit env.supply (record {
      case_id = some action.case_id;
      entity_type = "action_request";
      entity_id = action.id;
      event = fstring ("action_" ∷ action_status_value settled.status ∷ []);
      actor_type = ActorType.automated_action;
      actor_id = some (connector_name connector);
      payload =
          if settled.status == ActionStatus.failed
          then field "last_error" (of_option last_error) end
          else end;
    })
    pure settled

  unfoldable pub run_connector : ActionRequest → Connector → Context → M ActionRequest
  unfolding attempts settle conclude
  run_connector action connector context = do
    set_action action.id (λ a. record a { status = ActionStatus.executing })
    record_audit env.supply (record {
      case_id = some action.case_id;
      entity_type = "action_request";
      entity_id = action.id;
      event = "executing";
      actor_type = ActorType.automated_action;
      actor_id = some (connector_name connector);
      payload = end;
    })
    (result, last_error) ← attempts action connector context attempt_numbers none none
    settle action context result
    conclude action connector last_error

  unfoldable pub has_succeeded : String → Db → Bool
  has_succeeded action_id s =
      any
        (λ (x : ToolExecution).
          x.action_request_id == action_id && x.status == ToolExecutionStatus.success)
        s.executions

  unfoldable pub execute_action : ActionRequest → M ActionRequest
  unfolding has_succeeded run_connector
  execute_action action = do
    done ← gets (has_succeeded action.id)
    (connector, context) ← gets (resolve env action)
    if done then pure action else run_connector action connector context
