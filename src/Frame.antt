-- ===== src/Frame.antt =====
-- A relation between the session before and after that each single write respects: then every
-- operation of the program respects it, as the modules below show once for all such relations.
pub mod Basics
pub mod Requests
pub mod Proposing
pub mod Engine
pub mod Actions
pub mod Service
pub mod Retained
pub mod Trail
pub mod Awaiting
pub mod Singular
use occj.Prelude.{◌⊎◌, inl, inr, String, ◌≡◌, Bool, false, ◌&&◌, ◌||◌, List, ◌==◌, eq_string, refl}
use occj.Models.Enums.{JourneyStage, ActionStatus, ApprovalStatus, eq_action_status}
use occj.Models.Rows.{
  Customer, Case, EvidenceRecord, CanonicalEvent, UncertaintyFlag, Hypothesis, EvidenceLink,
  ImpactAssessment, ActionRequest, Approval, ToolExecution,
}
use occj.Session.{new_id, utcnow}
use occj.Session.Steps.{Relation, Steps, steps_rules}
use occj.Session.Tables.{
  add_customer, add_case, add_evidence_row, add_event, add_flag, add_hypothesis, add_link,
  add_impact, add_approval, add_execution, set_case, set_evidence_row, set_event, set_hypothesis,
  set_action, set_approval, set_execution,
}
use occj.Session.History.{
  fixed_case, fixed_evidence, fixed_event, fixed_hypothesis, fixed_action, fixed_approval,
  fixed_execution,
}
use occj.Env.{Env}
use occj.Nba.Propose.{Proposal, propose}
use occj.Audit.{Event, record_audit}
use occj.Stage.{advance_stage}
use occj.Hypotheses.Generate.{reevaluate}

-- the two kinds of entry that record a change of stage
abbrev pub moves_stage : Event → Bool
moves_stage e =
    e.entity_type == "case" && (e.event == "stage_advanced" || e.event == "reevaluation_triggered")

-- an executor would take up an action of this status
abbrev pub runnable : ActionStatus → Bool
runnable st = st == ActionStatus.proposed || st == ActionStatus.approved

-- `may` says of which actions executions may be added; only humans' decisions assign to approvals,
-- or make an action runnable.
pub record Core (env : Env) (R : Relation) (may : String → Type 0) : Type 0 where
  pub keeps_new_id : Steps R (new_id env.supply)
  pub keeps_utcnow : Steps R (utcnow env.supply)
  pub keeps_audit : (e : Event) → moves_stage e ≡ false → Steps R (record_audit env.supply e)
  pub keeps_advance :
      (case_id : String) (st : JourneyStage) → Steps R (advance_stage env.supply case_id st)
  pub keeps_reevaluate :
      (case_id : String) (previous : List Hypothesis) (top : Hypothesis)
      → Steps R (reevaluate env case_id previous top)
  pub keeps_add_customer : (r : Customer) → Steps R (add_customer r)
  pub keeps_add_case : (r : Case) → Steps R (add_case r)
  pub keeps_add_evidence_row : (r : EvidenceRecord) → Steps R (add_evidence_row r)
  pub keeps_add_event : (r : CanonicalEvent) → Steps R (add_event r)
  pub keeps_add_flag : (r : UncertaintyFlag) → Steps R (add_flag r)
  pub keeps_add_hypothesis : (r : Hypothesis) → Steps R (add_hypothesis r)
  pub keeps_add_link : (r : EvidenceLink) → Steps R (add_link r)
  pub keeps_add_impact : (r : ImpactAssessment) → Steps R (add_impact r)
  pub keeps_add_approval :
      (r : Approval) → r.status ≡ ApprovalStatus.pending → Steps R (add_approval r)
  pub keeps_add_execution :
      (r : ToolExecution) → may r.action_request_id → Steps R (add_execution r)
  pub keeps_set_case :
      (key : String) (f : Case → Case)
      → ((r : Case) → fixed_case (f r) ≡ fixed_case r)
      → ((r : Case) → (f r).stage ≡ r.stage)
      → Steps R (set_case key f)
  pub keeps_set_evidence_row :
      (key : String) (f : EvidenceRecord → EvidenceRecord)
      → ((r : EvidenceRecord) → fixed_evidence (f r) ≡ fixed_evidence r)
      → Steps R (set_evidence_row key f)
  pub keeps_set_event :
      (key : String) (f : CanonicalEvent → CanonicalEvent)
      → ((r : CanonicalEvent) → fixed_event (f r) ≡ fixed_event r)
      → Steps R (set_event key f)
  pub keeps_set_hypothesis :
      (key : String) (f : Hypothesis → Hypothesis)
      → ((r : Hypothesis) → fixed_hypothesis (f r) ≡ fixed_hypothesis r)
      → Steps R (set_hypothesis key f)
  pub keeps_set_action :
      (key : String) (f : ActionRequest → ActionRequest)
      → ((r : ActionRequest) → fixed_action (f r) ≡ fixed_action r)
      → ((r : ActionRequest) → ((f r).status ≡ r.status) ⊎ (runnable (f r).status ≡ false))
      → Steps R (set_action key f)
  pub keeps_set_execution :
      (key : String) (f : ToolExecution → ToolExecution)
      → ((r : ToolExecution) → fixed_execution (f r) ≡ fixed_execution r)
      → Steps R (set_execution key f)

-- Requests are added by `_propose` alone, which looks for their key first.
pub record Frame (env : Env) (R : Relation) (may : String → Type 0) : Type 0 where
  pub core : Core env R may
  pub keeps_propose : (case_id : String) (p : Proposal) → Steps R (propose env case_id p)

-- What a human's decision assigns besides.
pub record Ruling (R : Relation) : Type 0 where
  pub rules_approval :
      (key : String) (f : Approval → Approval)
      → ((r : Approval) → fixed_approval (f r) ≡ fixed_approval r)
      → Steps R (set_approval key f)
  pub rules_action :
      (key : String) (f : ActionRequest → ActionRequest)
      → ((r : ActionRequest) → fixed_action (f r) ≡ fixed_action r)
      → Steps R (set_action key f)

pub rules_approval-Steps :
    {R : Relation} (ru : Ruling R) (key : String) (f : Approval → Approval)
    → ((r : Approval) → fixed_approval (f r) ≡ fixed_approval r)
    → Steps R (set_approval key f)
rules_approval-Steps ru = ru.rules_approval

pub rules_action-Steps :
    {R : Relation} (ru : Ruling R) (key : String) (f : ActionRequest → ActionRequest)
    → ((r : ActionRequest) → fixed_action (f r) ≡ fixed_action r)
    → Steps R (set_action key f)
rules_action-Steps ru = ru.rules_action

-- The fields as lemmas, which are what a search of the modules below goes by.
module _ {env : Env} {R : Relation} {may : String → Type 0} (fr : Core env R may) where
  pub new_id-Steps : Steps R (new_id env.supply)
  new_id-Steps = fr.keeps_new_id

  pub utcnow-Steps : Steps R (utcnow env.supply)
  utcnow-Steps = fr.keeps_utcnow

  pub audit-Steps : (e : Event) → moves_stage e ≡ false → Steps R (record_audit env.supply e)
  audit-Steps = fr.keeps_audit

  pub advance-Steps :
      (case_id : String) (st : JourneyStage) → Steps R (advance_stage env.supply case_id st)
  advance-Steps = fr.keeps_advance

  pub reevaluate-Steps :
      (case_id : String) (previous : List Hypothesis) (top : Hypothesis)
      → Steps R (reevaluate env case_id previous top)
  reevaluate-Steps = fr.keeps_reevaluate

  pub add_customer-Steps : (r : Customer) → Steps R (add_customer r)
  add_customer-Steps = fr.keeps_add_customer

  pub add_case-Steps : (r : Case) → Steps R (add_case r)
  add_case-Steps = fr.keeps_add_case

  pub add_evidence_row-Steps : (r : EvidenceRecord) → Steps R (add_evidence_row r)
  add_evidence_row-Steps = fr.keeps_add_evidence_row

  pub add_event-Steps : (r : CanonicalEvent) → Steps R (add_event r)
  add_event-Steps = fr.keeps_add_event

  pub add_flag-Steps : (r : UncertaintyFlag) → Steps R (add_flag r)
  add_flag-Steps = fr.keeps_add_flag

  pub add_hypothesis-Steps : (r : Hypothesis) → Steps R (add_hypothesis r)
  add_hypothesis-Steps = fr.keeps_add_hypothesis

  pub add_link-Steps : (r : EvidenceLink) → Steps R (add_link r)
  add_link-Steps = fr.keeps_add_link

  pub add_impact-Steps : (r : ImpactAssessment) → Steps R (add_impact r)
  add_impact-Steps = fr.keeps_add_impact

  pub add_approval-Steps :
      (r : Approval) → r.status ≡ ApprovalStatus.pending → Steps R (add_approval r)
  add_approval-Steps = fr.keeps_add_approval

  pub add_execution-Steps :
      (r : ToolExecution) → may r.action_request_id → Steps R (add_execution r)
  add_execution-Steps = fr.keeps_add_execution

  pub set_case-Steps :
      (key : String) (f : Case → Case)
      → ((r : Case) → fixed_case (f r) ≡ fixed_case r)
      → ((r : Case) → (f r).stage ≡ r.stage)
      → Steps R (set_case key f)
  set_case-Steps = fr.keeps_set_case

  pub set_evidence_row-Steps :
      (key : String) (f : EvidenceRecord → EvidenceRecord)
      → ((r : EvidenceRecord) → fixed_evidence (f r) ≡ fixed_evidence r)
      → Steps R (set_evidence_row key f)
  set_evidence_row-Steps = fr.keeps_set_evidence_row

  pub set_event-Steps :
      (key : String) (f : CanonicalEvent → CanonicalEvent)
      → ((r : CanonicalEvent) → fixed_event (f r) ≡ fixed_event r)
      → Steps R (set_event key f)
  set_event-Steps = fr.keeps_set_event

  pub set_hypothesis-Steps :
      (key : String) (f : Hypothesis → Hypothesis)
      → ((r : Hypothesis) → fixed_hypothesis (f r) ≡ fixed_hypothesis r)
      → Steps R (set_hypothesis key f)
  set_hypothesis-Steps = fr.keeps_set_hypothesis

  pub set_action-Steps :
      (key : String) (f : ActionRequest → ActionRequest)
      → ((r : ActionRequest) → fixed_action (f r) ≡ fixed_action r)
      → ((r : ActionRequest) → ((f r).status ≡ r.status) ⊎ (runnable (f r).status ≡ false))
      → Steps R (set_action key f)
  set_action-Steps = fr.keeps_set_action

  pub set_execution-Steps :
      (key : String) (f : ToolExecution → ToolExecution)
      → ((r : ToolExecution) → fixed_execution (f r) ≡ fixed_execution r)
      → Steps R (set_execution key f)
  set_execution-Steps = fr.keeps_set_execution

pub ruleset core_rules = (
  steps_rules, refl, inl, inr, new_id-Steps, utcnow-Steps, audit-Steps, advance-Steps,
  reevaluate-Steps, add_customer-Steps, add_case-Steps, add_evidence_row-Steps, add_event-Steps,
  add_flag-Steps, add_hypothesis-Steps, add_link-Steps, add_impact-Steps, add_approval-Steps,
  add_execution-Steps, set_case-Steps, set_evidence_row-Steps, set_event-Steps,
  set_hypothesis-Steps, set_action-Steps, set_execution-Steps,
)

module _ {env : Env} {R : Relation} {may : String → Type 0} where
  pub Frame-Core : Frame env R may → Core env R may
  Frame-Core fr = fr.core

  pub propose-Steps :
      (fr : Frame env R may) (case_id : String) (p : Proposal) → Steps R (propose env case_id p)
  propose-Steps fr = fr.keeps_propose

pub ruleset frame_rules = (core_rules, Frame-Core)
