-- ===== src/Nba/Closing.antt =====
-- The last steps of `decide_next_action` of backend/app/engine/nba_engine.py: the customer is told, and
-- the case is closed.
use occj.Prelude.{
  String, false, Option, none, some, [], ◌∷◌, ◌==◌, eq_string, eq_option, fstring, if◌then◌else◌,
}
use occj.Models.Enums.{
  ActionStatus, eq_action_status, ActionType, ActorType, CaseStatus, eq_hypothesis_status,
  JourneyStage, eq_source_type, eq_uncertainty_flag_type,
}
use occj.Models.Float.{f0, f0_3}
use occj.Models.Json.{str, field, end, get, get_or, int, num_of}
use occj.Models.Rows.{Hypothesis, ImpactAssessment, ActionRequest}
use occj.Session.{M, pure, gets, or_raise, utcnow, attribute_error, value_error, ◌>>=◌, ◌>>◌}
use occj.Session.Tables.{set_case, find_customer}
use occj.Env.{Env, show_json}
use occj.Audit.{record_audit}
use occj.Stage.{advance_stage}
use occj.Messaging.{draft_customer_message}
use occj.Nba.Propose.{propose}
use occj.Nba.Steps.{proposed, mark_succeeded}

module _ (env : Env) where
  unfoldable pub notify :
      String → String → ImpactAssessment → ActionRequest → M (Option ActionRequest)
  notify case_id customer_id impact recovery = do
    customer ← gets (find_customer customer_id)
    message ← draft_customer_message env customer recovery
    proposed env (
        propose env case_id (record {
          action_type = ActionType.notify_customer;
          target = field "recovery_action_id" (str recovery.id) (field "message" message end);
          rationale =
              "Recovery action succeeded -- sending the customer a status update confirming exactly what was done.";
          expected_value = env.arith.mul impact.composite_score f0_3;
          requires_approval = false;
          discriminator = recovery.id;
          approval_role = none;
          case_status = some CaseStatus.pending_customer_update;
          stage = none;
        }))

  -- the body of `if action.status != SUCCEEDED`
  unfoldable pub close : String → Hypothesis → ActionRequest → ActionRequest → M ActionRequest
  unfolding mark_succeeded
  close case_id h recovery action = do
    closed ← utcnow env.supply
    cost ←
        or_raise (num_of env.arith (get_or recovery.target "estimated_cost_usd" (int 0)))
          value_error
    let closure = fstring (
        "Resolved as '"
        ∷ h.category
        ∷ "' (confidence "
        ∷ env.arith.percent0 h.confidence
        ∷ "). Recovery: "
        ∷ show_json env (get recovery.target "label")
        ∷ " ($"
        ∷ env.arith.fixed2 cost
        ∷ "). Customer notified."
        ∷ [])
    set_case case_id (λ c. record c {
      status = CaseStatus.closed;
      closed_at = some closed;
      closure_summary = some closure;
    })
    advance_stage env.supply case_id JourneyStage.outcome_retained
    done ← mark_succeeded env action
    record_audit env.supply (record {
      case_id = some case_id;
      entity_type = "case";
      entity_id = case_id;
      event = "closed";
      actor_type = ActorType.system;
      actor_id = some "nba_engine";
      payload = field "closure_summary" (str closure) end;
    })
    pure done

  unfoldable pub close_case : String → Hypothesis → Option ActionRequest → M (Option ActionRequest)
  close_case case_id h recovery = do
    action ← propose env case_id (record {
      action_type = ActionType.close_case;
      target = field "hypothesis_id" (str h.id) end;
      rationale =
          "Customer notified of the resolved outcome -- closing the case with a full evidence/action summary retained.";
      expected_value = f0;
      requires_approval = false;
      discriminator = h.id;
      approval_role = none;
      case_status = none;
      stage = none;
    })
    if action.status == ActionStatus.succeeded then pure (some action) else (do
      done ← or_raise recovery attribute_error
      proposed env (close case_id h done action))
