-- ===== src/Approvals.antt =====
-- backend/app/approvals/service.py: a human decision on an action that waits for approval.
pub mod Decisions
use occj.Prelude.{
  String, Bool, not, ◌||◌, Option, some, [], ◌∷◌, ◌==◌, eq_string, fstring, if◌then◌else◌,
}
use occj.Models.Enums.{
  ActorType, ActionStatus, ApprovalStatus, approval_status_value, eq_approval_status, UserRole,
  user_role_value, eq_user_role,
}
use occj.Models.Json.{str, field, end, of_option}
use occj.Models.Rows.{User, Approval, ActionRequest}
use occj.Session.{
  M, Supply, pure, raise, gets, or_raise, skip, utcnow, not_a_decision, already_decided, wrong_role,
  action_not_found, attribute_error, ◌>>=◌, ◌>>◌,
}
use occj.Session.Tables.{find_approval, find_action, set_approval, set_action}
use occj.Audit.{record_audit}

-- `decision not in (APPROVED, REJECTED)`
abbrev pub is_decision : ApprovalStatus → Bool
is_decision d = d == ApprovalStatus.approved || d == ApprovalStatus.rejected

-- `user.role != ADMIN and user.role.value != approval.required_role`, negated
abbrev pub may_decide : User → Approval → Bool
may_decide user approval =
    user.role == UserRole.admin || user_role_value user.role == approval.required_role

module _ (env : Supply) where
  unfoldable pub decide_approval : String → ApprovalStatus → User → Option String → M Unit
  decide_approval approval_id decision user why = do
    found ← gets (find_approval approval_id)
    approval ← or_raise found attribute_error
    if not (is_decision decision) then raise not_a_decision else skip
    if not (approval.status == ApprovalStatus.pending) then raise already_decided else skip
    if not (may_decide user approval) then raise wrong_role else skip
    request ← gets (find_action approval.action_request_id)
    action ← or_raise request action_not_found
    decided ← utcnow env
    set_approval approval_id (λ a. record a {
      status = decision;
      decided_by_user_id = some user.id;
      decided_at = some decided;
      decision_note = why;
    })
    acted ← utcnow env
    set_action action.id (λ a. record a {
      status =
          if decision == ApprovalStatus.approved
          then ActionStatus.approved
          else ActionStatus.rejected;
      decided_at = some acted;
    })
    record_audit env (record {
      case_id = some action.case_id;
      entity_type = "approval";
      entity_id = approval_id;
      event = fstring ("approval_" ∷ approval_status_value decision ∷ []);
      actor_type = ActorType.human_decision;
      actor_id = some user.id;
      payload =
          field "role" (str (user_role_value user.role))
            (field "note" (of_option why) (field "action_request_id" (str action.id) end));
    })
