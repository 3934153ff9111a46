-- ===== src/Models/Enums/Cases.antt =====
-- backend/app/models/enums.py: the states of cases and hypotheses. Each enumeration stands with the text
-- that it is stored as (`.value`), and with its equality, by the position of the member.
use occj.Prelude.{ℕ, String, ◌≡◌, ◌↔◌, Bool, arith, nat_eq, Eq}

pub data CaseTriggerType : Type 0 where
  customer_contact system_detected manual : CaseTriggerType

pub data CaseStatus : Type 0 where
  open_ investigating pending_evidence pending_approval action_in_progress pending_customer_update
        closed reopened :
      CaseStatus

pub data JourneyStage : Type 0 where
  issue_reported journey_assembled failure_located evidence_checked impact_assessed
        recovery_options_ranked actions_coordinated customer_updated outcome_retained :
      JourneyStage

pub data HypothesisStatus : Type 0 where
  active superseded confirmed rejected : HypothesisStatus

abbrev pub case_trigger_type_value : CaseTriggerType → String
case_trigger_type_value CaseTriggerType.customer_contact = "customer_contact"
case_trigger_type_value CaseTriggerType.system_detected = "system_detected"
case_trigger_type_value CaseTriggerType.manual = "manual"

abbrev pub case_trigger_type_index : CaseTriggerType → ℕ
case_trigger_type_index CaseTriggerType.customer_contact = 0
case_trigger_type_index CaseTriggerType.system_detected = 1
case_trigger_type_index CaseTriggerType.manual = 2

pub case_trigger_type_eq_iff :
    (a b : CaseTriggerType)
    → (nat_eq (case_trigger_type_index a) (case_trigger_type_index b) ≡ Bool.true) ↔ (a ≡ b)
case_trigger_type_eq_iff a b = ground arith

instance abbrev pub eq_case_trigger_type : Eq CaseTriggerType
eq_case_trigger_type = record {
  beq = λ a b. nat_eq (case_trigger_type_index a) (case_trigger_type_index b);
  beq_iff = case_trigger_type_eq_iff;
}

abbrev pub case_status_value : CaseStatus → String
case_status_value CaseStatus.open_ = "open"
case_status_value CaseStatus.investigating = "investigating"
case_status_value CaseStatus.pending_evidence = "pending_evidence"
case_status_value CaseStatus.pending_approval = "pending_approval"
case_status_value CaseStatus.action_in_progress = "action_in_progress"
case_status_value CaseStatus.pending_customer_update = "pending_customer_update"
case_status_value CaseStatus.closed = "closed"
case_status_value CaseStatus.reopened = "reopened"

abbrev pub case_status_index : CaseStatus → ℕ
case_status_index CaseStatus.open_ = 0
case_status_index CaseStatus.investigating = 1
case_status_index CaseStatus.pending_evidence = 2
case_status_index CaseStatus.pending_approval = 3
case_status_index CaseStatus.action_in_progress = 4
case_status_index CaseStatus.pending_customer_update = 5
case_status_index CaseStatus.closed = 6
case_status_index CaseStatus.reopened = 7

pub case_status_eq_iff :
    (a b : CaseStatus) → (nat_eq (case_status_index a) (case_status_index b) ≡ Bool.true) ↔ (a ≡ b)
case_status_eq_iff a b = ground arith

instance abbrev pub eq_case_status : Eq CaseStatus
eq_case_status = record {
  beq = λ a b. nat_eq (case_status_index a) (case_status_index b);
  beq_iff = case_status_eq_iff;
}

abbrev pub journey_stage_value : JourneyStage → String
journey_stage_value JourneyStage.issue_reported = "issue_reported"
journey_stage_value JourneyStage.journey_assembled = "journey_assembled"
journey_stage_value JourneyStage.failure_located = "failure_located"
journey_stage_value JourneyStage.evidence_checked = "evidence_checked"
journey_stage_value JourneyStage.impact_assessed = "impact_assessed"
journey_stage_value JourneyStage.recovery_options_ranked = "recovery_options_ranked"
journey_stage_value JourneyStage.actions_coordinated = "actions_coordinated"
journey_stage_value JourneyStage.customer_updated = "customer_updated"
journey_stage_value JourneyStage.outcome_retained = "outcome_retained"

abbrev pub journey_stage_index : JourneyStage → ℕ
journey_stage_index JourneyStage.issue_reported = 0
journey_stage_index JourneyStage.journey_assembled = 1
journey_stage_index JourneyStage.failure_located = 2
journey_stage_index JourneyStage.evidence_checked = 3
journey_stage_index JourneyStage.impact_assessed = 4
journey_stage_index JourneyStage.recovery_options_ranked = 5
journey_stage_index JourneyStage.actions_coordinated = 6
journey_stage_index JourneyStage.customer_updated = 7
journey_stage_index JourneyStage.outcome_retained = 8

pub journey_stage_eq_iff :
    (a b : JourneyStage)
    → (nat_eq (journey_stage_index a) (journey_stage_index b) ≡ Bool.true) ↔ (a ≡ b)
journey_stage_eq_iff a b = ground arith

instance abbrev pub eq_journey_stage : Eq JourneyStage
eq_journey_stage = record {
  beq = λ a b. nat_eq (journey_stage_index a) (journey_stage_index b);
  beq_iff = journey_stage_eq_iff;
}

abbrev pub hypothesis_status_value : HypothesisStatus → String
hypothesis_status_value HypothesisStatus.active = "active"
hypothesis_status_value HypothesisStatus.superseded = "superseded"
hypothesis_status_value HypothesisStatus.confirmed = "confirmed"
hypothesis_status_value HypothesisStatus.rejected = "rejected"

abbrev pub hypothesis_status_index : HypothesisStatus → ℕ
hypothesis_status_index HypothesisStatus.active = 0
hypothesis_status_index HypothesisStatus.superseded = 1
hypothesis_status_index HypothesisStatus.confirmed = 2
hypothesis_status_index HypothesisStatus.rejected = 3

pub hypothesis_status_eq_iff :
    (a b : HypothesisStatus)
    → (nat_eq (hypothesis_status_index a) (hypothesis_status_index b) ≡ Bool.true) ↔ (a ≡ b)
hypothesis_status_eq_iff a b = ground arith

instance abbrev pub eq_hypothesis_status : Eq HypothesisStatus
eq_hypothesis_status = record {
  beq = λ a b. nat_eq (hypothesis_status_index a) (hypothesis_status_index b);
  beq_iff = hypothesis_status_eq_iff;
}
