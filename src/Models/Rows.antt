-- ===== src/Models/Rows.antt =====
-- backend/app/models: the rows of the tables. A key is the text that `new_id` made; a time is in
-- microseconds of UTC, as `ensure_aware` reads both kinds of column. `created_at` is kept for the
-- audit entries, whose order it decides; elsewhere rows stand in the order of insertion.
use occj.Prelude.{ℕ, String, Bool, Option, List}
use occj.Models.Float.{Float}
use occj.Models.Json.{Fields}
use occj.Models.Enums.{
  ActorType, SourceType, UncertaintyFlagType, EvidenceRelation, CaseTriggerType, CaseStatus,
  JourneyStage, HypothesisStatus, ActionType, ActionStatus, ApprovalStatus, UserRole,
  ToolExecutionStatus,
}

pub record User : Type 0 where
  pub id : String
  pub username : String
  pub password_hash : String
  pub role : UserRole
  pub display_name : String

pub record Customer : Type 0 where
  pub id : String
  pub external_customer_id : String
  pub display_name : String
  pub email : Option String
  pub phone : Option String
  pub tier : String

pub record Case : Type 0 where
  pub id : String
  pub customer_id : String
  pub order_id : Option String
  pub trigger_type : CaseTriggerType
  pub opened_by_user_id : Option String
  pub status : CaseStatus
  pub stage : JourneyStage
  pub summary : Option String
  pub deadline_at : Option ℕ
  pub last_activity_at : ℕ
  pub needs_reevaluation : Bool
  pub primary_hypothesis_id : Option String
  pub closed_at : Option ℕ
  pub closure_summary : Option String

pub record EvidenceRecord : Type 0 where
  pub id : String
  pub customer_id : String
  pub order_id : Option String
  pub source_type : SourceType
  pub external_ref : String
  pub provenance_source : String
  pub occurred_at : ℕ
  pub recorded_at_source : Option ℕ
  pub ingested_at : ℕ
  pub payload : Fields
  pub actor_type : ActorType
  pub supersedes_id : Option String
  pub is_superseded : Bool
  pub is_duplicate_of : Option String

pub record CanonicalEvent : Type 0 where
  pub id : String
  pub case_id : String
  pub evidence_record_id : String
  pub source_type : SourceType
  pub effective_at : ℕ
  pub summary : String

pub record UncertaintyFlag : Type 0 where
  pub id : String
  pub case_id : String
  pub flag_type : UncertaintyFlagType
  pub related_evidence_ids : List String
  pub description : String
  pub detected_at : ℕ
  pub resolved_at : Option ℕ
  pub resolution_note : Option String

pub record Hypothesis : Type 0 where
  pub id : String
  pub case_id : String
  pub category : String
  pub title : String
  pub narrative : String
  pub confidence : Float
  pub status : HypothesisStatus
  pub generation_context : Fields
  pub superseded_by_id : Option String
  pub updated_at : ℕ

pub record EvidenceLink : Type 0 where
  pub id : String
  pub hypothesis_id : String
  pub evidence_record_id : String
  pub relation : EvidenceRelation
  pub weight : Float
  pub note : Option String

pub record ImpactAssessment : Type 0 where
  pub id : String
  pub case_id : String
  pub hypothesis_id : Option String
  pub financial_exposure_usd : Float
  pub sla_breach_score : Float
  pub customer_tier_weight : Float
  pub composite_score : Float
  pub explanation : Fields
  pub computed_at : ℕ

pub record ActionRequest : Type 0 where
  pub id : String
  pub case_id : String
  pub action_type : ActionType
  pub target : Fields
  pub rationale : String
  pub expected_value : Float
  pub status : ActionStatus
  pub requires_approval : Bool
  pub idempotency_key : String
  pub decided_at : Option ℕ

pub record Approval : Type 0 where
  pub id : String
  pub action_request_id : String
  pub required_role : String
  pub status : ApprovalStatus
  pub decided_by_user_id : Option String
  pub decided_at : Option ℕ
  pub decision_note : Option String

pub record ToolExecution : Type 0 where
  pub id : String
  pub action_request_id : String
  pub connector : String
  pub attempt_number : ℕ
  pub status : ToolExecutionStatus
  pub request_payload : Fields
  pub response_payload : Fields
  pub error_message : Option String
  pub started_at : ℕ
  pub finished_at : Option ℕ

pub record AuditEntry : Type 0 where
  pub id : String
  pub case_id : Option String
  pub entity_type : String
  pub entity_id : String
  pub event : String
  pub actor_type : ActorType
  pub actor_id : Option String
  pub payload : Fields
  pub occurred_at : ℕ
  pub created_at : ℕ
