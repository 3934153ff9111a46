-- ===== src/Api/Approvals.antt =====
-- backend/app/api/routers/approvals.py
use occj.Prelude.{
  ℕ, zero, suc, String, Bool, ◌&&◌, Option, none, some, List, [], ◌∷◌, ◌++◌, map, select, ◌==◌,
  eq_string, if◌then◌else◌,
}
use occj.Models.Enums.{ApprovalStatus, eq_approval_status}
use occj.Models.Rows.{User, Approval, ActionRequest}
use occj.Session.{
  Db, M, pure, skip, gets, or_raise, on_option, forbidden, not_found, attribute_error, ◌>>=◌, ◌>>◌,
}
use occj.Session.Tables.{find_approval, find_action}
use occj.Env.{Env}
use occj.Approvals.{may_decide, decide_approval}
use occj.CaseService.{stalling, advance_case}
use occj.Api.Schemas.{ApprovalOut, with_case_id}
use occj.Api.Requests.{Outcome, committing, committed_then, approval_error_as}
use occj.Api.Auth.{Tokens, get_current_user}

-- the body of a decision
pub record ApprovalDecision : Type 0 where
  pub decision : String
  pub note : Option String

-- the requests that an approval joins with
abbrev pub joined : List ActionRequest → Approval → List ApprovalOut
joined actions p =
    map (λ (a : ActionRequest). with_case_id p (some a.case_id))
      (select (λ (a : ActionRequest). p.action_request_id == a.id) actions)

-- the rows of the join, for the approvals that pass the test
unfoldable pub join_actions :
    List ActionRequest → (Approval → Bool) → List Approval → List ApprovalOut
join_actions actions keep [] = []
join_actions actions keep (p ∷ ps) =
    let rest = join_actions actions keep ps in if keep p then joined actions p ++ rest else rest

-- `Approval.status == PENDING`, and for all but administrators `required_role == user.role.value`
abbrev pub in_queue : User → Approval → Bool
in_queue user p = p.status == ApprovalStatus.pending && may_decide user p

-- the decision that the body's text means
abbrev pub meant : Env → ApprovalDecision → ApprovalStatus
meant env body =
    if env.lower body.decision == "approved"
    then ApprovalStatus.approved
    else ApprovalStatus.rejected

abbrev pub max_follow_ups : ℕ
max_follow_ups = 12

module _ (env : Env) where
  -- the loop of `decide`, on the rounds that are left
  unfoldable pub follow_through : ℕ → String → M Unit
  follow_through zero case_id = skip
  follow_through (suc rounds) case_id = do
    next ← advance_case env case_id
    on_option next skip (λ a. if stalling a.status then skip else follow_through rounds case_id)

module _ (tokens : Tokens) (env : Env) where
  unfoldable pub list_approvals : String → M (List ApprovalOut)
  unfolding get_current_user join_actions
  list_approvals token = do
    user ← get_current_user tokens token
    gets (λ s. join_actions s.actions (in_queue user) s.approvals)

  -- up to the first commit: the action that the approval is for
  unfoldable pub decide_first : String → String → ApprovalDecision → M (Option ActionRequest)
  unfolding get_current_user
  decide_first token approval_id body = do
    user ← get_current_user tokens token
    found ← gets (find_approval approval_id)
    approval ← or_raise found not_found
    approval_error_as forbidden
        (decide_approval env.supply approval_id (meant env body) user body.note)
    gets (find_action approval.action_request_id)

  -- after it: what was approved is executed, and the case driven on
  unfoldable pub decide_rest : String → ApprovalDecision → Option ActionRequest → M ApprovalOut
  unfolding follow_through
  decide_rest approval_id body action = do
    on_option action skip (λ a.
        if meant env body == ApprovalStatus.approved
        then follow_through env max_follow_ups a.case_id
        else skip)
    refreshed ← gets (find_approval approval_id)
    approval ← or_raise refreshed attribute_error
    on_option action (pure (with_case_id approval none))
        (λ a. pure (with_case_id approval (some a.case_id)))

  unfoldable pub decide : String → String → ApprovalDecision → Db → Outcome ApprovalOut
  unfolding decide_first decide_rest
  decide token approval_id body =
      committed_then (decide_first token approval_id body)
        λ action. committing (decide_rest approval_id body action)
