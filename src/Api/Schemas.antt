-- ===== src/Api/Schemas.antt =====
-- backend/app/schemas/common.py: what is shown of a row. `X_out` is `XOut.model_validate`, which takes
-- the attributes of the same names; `created_at` is left out, as it is of the rows.
use occj.Prelude.{ℕ, String, Bool, Option, List, map}
use occj.Models.Float.{Float}
use occj.Models.Json.{Fields}
use occj.Models.Enums.{
  actor_type_value, source_type_value, uncertainty_flag_type_value, evidence_relation_value,
  case_trigger_type_value, case_status_value, journey_stage_value, hypothesis_status_value,
  action_type_value, action_status_value, approval_status_value,
}
use occj.Models.Rows.{
  Customer, Case, EvidenceRecord, CanonicalEvent, UncertaintyFlag, Hypothesis, EvidenceLink,
  ImpactAssessment, ActionRequest, Approval,
}

pub record CustomerOut : Type 0 where
  pub id : String
  pub external_customer_id : String
  pub display_name : String
  pub email : Option String
  pub phone : Option String
  pub tier : String

abbrev pub customer_out : Customer → CustomerOut
customer_out r = record {
  id = r.id;
  external_customer_id = r.external_customer_id;
  display_name = r.display_name;
  email = r.email;
  phone = r.phone;
  tier = r.tier;
}

pub record CaseOut : Type 0 where
  pub id : String
  pub customer_id : String
  pub order_id : Option String
  pub trigger_type : String
  pub status : String
  pub stage : String
  pub summary : Option String
  pub deadline_at : Option ℕ
  pub last_activity_at : ℕ
  pub needs_reevaluation : Bool
  pub primary_hypothesis_id : Option String
  pub closed_at : Option ℕ
  pub closure_summary : Option String

abbrev pub case_out : Case → CaseOut
case_out r = record {
  id = r.id;
  customer_id = r.customer_id;
  order_id = r.order_id;
  trigger_type = case_trigger_type_value r.trigger_type;
  status = case_status_value r.status;
  stage = journey_stage_value r.stage;
  summary = r.summary;
  deadline_at = r.deadline_at;
  last_activity_at = r.last_activity_at;
  needs_reevaluation = r.needs_reevaluation;
  primary_hypothesis_id = r.primary_hypothesis_id;
  closed_at = r.closed_at;
  closure_summary = r.closure_summary;
}

pub record EvidenceRecordOut : Type 0 where
  pub id : String
  pub customer_id : String
  pub order_id : Option String
  pub source_type : String
  pub external_ref : String
  pub provenance_source : String
  pub occurred_at : ℕ
  pub ingested_at : ℕ
  pub payload : Fields
  pub actor_type : String
  pub is_superseded : Bool

abbrev pub evidence_record_out : EvidenceRecord → EvidenceRecordOut
evidence_record_out r = record {
  id = r.id;
  customer_id = r.customer_id;
  order_id = r.order_id;
  source_type = source_type_value r.source_type;
  external_ref = r.external_ref;
  provenance_source = r.provenance_source;
  occurred_at = r.occurred_at;
  ingested_at = r.ingested_at;
  payload = r.payload;
  actor_type = actor_type_value r.actor_type;
  is_superseded = r.is_superseded;
}

pub record CanonicalEventOut : Type 0 where
  pub id : String
  pub case_id : String
  pub evidence_record_id : String
  pub source_type : String
  pub effective_at : ℕ
  pub summary : String

abbrev pub canonical_event_out : CanonicalEvent → CanonicalEventOut
canonical_event_out r = record {
  id = r.id;
  case_id = r.case_id;
  evidence_record_id = r.evidence_record_id;
  source_type = source_type_value r.source_type;
  effective_at = r.effective_at;
  summary = r.summary;
}

pub record UncertaintyFlagOut : Type 0 where
  pub id : String
  pub case_id : String
  pub flag_type : String
  pub related_evidence_ids : List String
  pub description : String
  pub detected_at : ℕ
  pub resolved_at : Option ℕ

abbrev pub uncertainty_flag_out : UncertaintyFlag → UncertaintyFlagOut
uncertainty_flag_out r = record {
  id = r.id;
  case_id = r.case_id;
  flag_type = uncertainty_flag_type_value r.flag_type;
  related_evidence_ids = r.related_evidence_ids;
  description = r.description;
  detected_at = r.detected_at;
  resolved_at = r.resolved_at;
}

pub record EvidenceLinkOut : Type 0 where
  pub evidence_record_id : String
  pub relation : String
  pub weight : Float
  pub note : Option String

abbrev pub evidence_link_out : EvidenceLink → EvidenceLinkOut
evidence_link_out r = record {
  evidence_record_id = r.evidence_record_id;
  relation = evidence_relation_value r.relation;
  weight = r.weight;
  note = r.note;
}

pub record HypothesisOut : Type 0 where
  pub id : String
  pub case_id : String
  pub category : String
  pub title : String
  pub narrative : String
  pub confidence : Float
  pub status : String
  pub updated_at : ℕ
  pub evidence_links : List EvidenceLinkOut

-- with its links
abbrev pub hypothesis_out : List EvidenceLink → Hypothesis → HypothesisOut
hypothesis_out links r = record {
  id = r.id;
  case_id = r.case_id;
  category = r.category;
  title = r.title;
  narrative = r.narrative;
  confidence = r.confidence;
  status = hypothesis_status_value r.status;
  updated_at = r.updated_at;
  evidence_links = map evidence_link_out links;
}

pub record ImpactAssessmentOut : Type 0 where
  pub id : String
  pub case_id : String
  pub hypothesis_id : Option String
  pub financial_exposure_usd : Float
  pub sla_breach_score : Float
  pub customer_tier_weight : Float
  pub composite_score : Float
  pub explanation : Fields
  pub computed_at : ℕ

abbrev pub impact_assessment_out : ImpactAssessment → ImpactAssessmentOut
impact_assessment_out r = record {
  id = r.id;
  case_id = r.case_id;
  hypothesis_id = r.hypothesis_id;
  financial_exposure_usd = r.financial_exposure_usd;
  sla_breach_score = r.sla_breach_score;
  customer_tier_weight = r.customer_tier_weight;
  composite_score = r.composite_score;
  explanation = r.explanation;
  computed_at = r.computed_at;
}

pub record ActionRequestOut : Type 0 where
  pub id : String
  pub case_id : String
  pub action_type : String
  pub target : Fields
  pub rationale : String
  pub expected_value : Float
  pub status : String
  pub requires_approval : Bool
  pub decided_at : Option ℕ

abbrev pub action_request_out : ActionRequest → ActionRequestOut
action_request_out r = record {
  id = r.id;
  case_id = r.case_id;
  action_type = action_type_value r.action_type;
  target = r.target;
  rationale = r.rationale;
  expected_value = r.expected_value;
  status = action_status_value r.status;
  requires_approval = r.requires_approval;
  decided_at = r.decided_at;
}

pub record ApprovalOut : Type 0 where
  pub id : String
  pub action_request_id : String
  pub case_id : Option String
  pub required_role : String
  pub status : String
  pub decided_by_user_id : Option String
  pub decided_at : Option ℕ
  pub decision_note : Option String

-- `_with_case_id(approval, case_id)`
abbrev pub with_case_id : Approval → Option String → ApprovalOut
with_case_id r case_id = record {
  id = r.id;
  action_request_id = r.action_request_id;
  case_id = case_id;
  required_role = r.required_role;
  status = approval_status_value r.status;
  decided_by_user_id = r.decided_by_user_id;
  decided_at = r.decided_at;
  decision_note = r.decision_note;
}
