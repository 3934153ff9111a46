-- ===== src/Models/Enums/Actions.antt =====
-- backend/app/models/enums.py: the states of actions, approvals and executions, and the roles. Each enumeration stands with the text
-- that it is stored as (`.value`), and with its equality, by the position of the member.
use occj.Prelude.{ℕ, String, ◌≡◌, ◌↔◌, Bool, arith, nat_eq, Eq}

pub data ActionType : Type 0 where
  request_evidence run_analysis execute_recovery escalate_itsm notify_customer close_case :
      ActionType

pub data ActionStatus : Type 0 where
  proposed pending_approval approved rejected executing succeeded failed needs_manual_review :
      ActionStatus

pub data ApprovalStatus : Type 0 where
  pending approved rejected : ApprovalStatus

pub data UserRole : Type 0 where
  agent supervisor finance_approver admin : UserRole

pub data ToolExecutionStatus : Type 0 where
  pending success failed timeout : ToolExecutionStatus

abbrev pub action_type_value : ActionType → String
action_type_value ActionType.request_evidence = "request_evidence"
action_type_value ActionType.run_analysis = "run_analysis"
action_type_value ActionType.execute_recovery = "execute_recovery"
action_type_value ActionType.escalate_itsm = "escalate_itsm"
action_type_value ActionType.notify_customer = "notify_customer"
action_type_value ActionType.close_case = "close_case"

abbrev pub action_type_index : ActionType → ℕ
action_type_index ActionType.request_evidence = 0
action_type_index ActionType.run_analysis = 1
action_type_index ActionType.execute_recovery = 2
action_type_index ActionType.escalate_itsm = 3
action_type_index ActionType.notify_customer = 4
action_type_index ActionType.close_case = 5

pub action_type_eq_iff :
    (a b : ActionType) → (nat_eq (action_type_index a) (action_type_index b) ≡ Bool.true) ↔ (a ≡ b)
action_type_eq_iff a b = ground arith

instance abbrev pub eq_action_type : Eq ActionType
eq_action_type = record {
  beq = λ a b. nat_eq (action_type_index a) (action_type_index b);
  beq_iff = action_type_eq_iff;
}

abbrev pub action_status_value : ActionStatus → String
action_status_value ActionStatus.proposed = "proposed"
action_status_value ActionStatus.pending_approval = "pending_approval"
action_status_value ActionStatus.approved = "approved"
action_status_value ActionStatus.rejected = "rejected"
action_status_value ActionStatus.executing = "executing"
action_status_value ActionStatus.succeeded = "succeeded"
action_status_value ActionStatus.failed = "failed"
action_status_value ActionStatus.needs_manual_review = "needs_manual_review"

abbrev pub action_status_index : ActionStatus → ℕ
action_status_index ActionStatus.proposed = 0
action_status_index ActionStatus.pending_approval = 1
action_status_index ActionStatus.approved = 2
action_status_index ActionStatus.rejected = 3
action_status_index ActionStatus.executing = 4
action_status_index ActionStatus.succeeded = 5
action_status_index ActionStatus.failed = 6
action_status_index ActionStatus.needs_manual_review = 7

pub action_status_eq_iff :
    (a b : ActionStatus)
    → (nat_eq (action_status_index a) (action_status_index b) ≡ Bool.true) ↔ (a ≡ b)
action_status_eq_iff a b = ground arith

instance abbrev pub eq_action_status : Eq ActionStatus
eq_action_status = record {
  beq = λ a b. nat_eq (action_status_index a) (action_status_index b);
  beq_iff = action_status_eq_iff;
}

abbrev pub approval_status_value : ApprovalStatus → String
approval_status_value ApprovalStatus.pending = "pending"
approval_status_value ApprovalStatus.approved = "approved"
approval_status_value ApprovalStatus.rejected = "rejected"

abbrev pub approval_status_index : ApprovalStatus → ℕ
approval_status_index ApprovalStatus.pending = 0
approval_status_index ApprovalStatus.approved = 1
approval_status_index ApprovalStatus.rejected = 2

pub approval_status_eq_iff :
    (a b : ApprovalStatus)
    → (nat_eq (approval_status_index a) (approval_status_index b) ≡ Bool.true) ↔ (a ≡ b)
approval_status_eq_iff a b = ground arith

instance abbrev pub eq_approval_status : Eq ApprovalStatus
eq_approval_status = record {
  beq = λ a b. nat_eq (approval_status_index a) (approval_status_index b);
  beq_iff = approval_status_eq_iff;
}

abbrev pub user_role_value : UserRole → String
user_role_value UserRole.agent = "agent"
user_role_value UserRole.supervisor = "supervisor"
user_role_value UserRole.finance_approver = "finance_approver"
user_role_value UserRole.admin = "admin"

abbrev pub user_role_index : UserRole → ℕ
user_role_index UserRole.agent = 0
user_role_index UserRole.supervisor = 1
user_role_index UserRole.finance_approver = 2
user_role_index UserRole.admin = 3

pub user_role_eq_iff :
    (a b : UserRole) → (nat_eq (user_role_index a) (user_role_index b) ≡ Bool.true) ↔ (a ≡ b)
user_role_eq_iff a b = ground arith

instance abbrev pub eq_user_role : Eq UserRole
eq_user_role = record {
  beq = λ a b. nat_eq (user_role_index a) (user_role_index b);
  beq_iff = user_role_eq_iff;
}

abbrev pub tool_execution_status_value : ToolExecutionStatus → String
tool_execution_status_value ToolExecutionStatus.pending = "pending"
tool_execution_status_value ToolExecutionStatus.success = "success"
tool_execution_status_value ToolExecutionStatus.failed = "failed"
tool_execution_status_value ToolExecutionStatus.timeout = "timeout"

abbrev pub tool_execution_status_index : ToolExecutionStatus → ℕ
tool_execution_status_index ToolExecutionStatus.pending = 0
tool_execution_status_index ToolExecutionStatus.success = 1
tool_execution_status_index ToolExecutionStatus.failed = 2
tool_execution_status_index ToolExecutionStatus.timeout = 3

pub tool_execution_status_eq_iff :
    (a b : ToolExecutionStatus)
    → (nat_eq (tool_execution_status_index a) (tool_execution_status_index b) ≡ Bool.true) ↔ (a ≡ b)
tool_execution_status_eq_iff a b = ground arith

instance abbrev pub eq_tool_execution_status : Eq ToolExecutionStatus
eq_tool_execution_status = record {
  beq = λ a b. nat_eq (tool_execution_status_index a) (tool_execution_status_index b);
  beq_iff = tool_execution_status_eq_iff;
}
