-- ===== src/Seed/Closure.antt =====
-- `_auto_approve_to_closure` of backend/app/seed/synthetic_data.py.
use occj.Prelude.{ℕ, zero, suc, String, Bool, ◌&&◌, Option, some, any, first, ◌==◌, eq_string}
use occj.Models.Enums.{ActionStatus, ApprovalStatus, eq_approval_status}
use occj.Models.Rows.{Approval, ActionRequest}
use occj.Session.{Db, M, skip, gets, or_raise, on_option, attribute_error, ◌>>=◌, ◌>>◌}
use occj.Session.Tables.{set_approval, set_action, find_action}
use occj.Env.{Env}
use occj.CaseService.{advance_case}

-- a pending approval that joins with a request of the case
abbrev pub awaited : String → Db → Approval → Bool
awaited case_id s p =
    p.status == ApprovalStatus.pending
    && any (λ (a : ActionRequest). p.action_request_id == a.id && a.case_id == case_id) s.actions

unfoldable pub first_pending : String → Db → Option Approval
first_pending case_id s = first (awaited case_id s) s.approvals

abbrev pub max_rounds : ℕ
max_rounds = 12

module _ (env : Env) where
  -- what is assigned to a pending approval
  abbrev pub stood_in : Approval → Approval
  stood_in p = record p {
    status = ApprovalStatus.approved;
    decided_at = some env.loaded_at;
    decision_note = some "Auto-approved by seed script for demo purposes";
  }

  -- the assignments of one round to the approval and its request
  unfoldable pub stand_in : Approval → M Unit
  stand_in pending = do
    set_approval pending.id stood_in
    found ← gets (find_action pending.action_request_id)
    action ← or_raise found attribute_error
    set_action action.id (λ a. record a { status = ActionStatus.approved })

  -- the loop, on the rounds that are left
  unfoldable pub auto_approve_to_closure : ℕ → String → M Unit
  unfolding first_pending stand_in
  auto_approve_to_closure zero case_id = skip
  auto_approve_to_closure (suc rounds) case_id = do
    pending ← gets (first_pending case_id)
    on_option pending
        (do
          action ← advance_case env case_id
          on_option action skip (λ a. auto_approve_to_closure rounds case_id))
        (λ p. do stand_in p; advance_case env case_id; auto_approve_to_closure rounds case_id)
