-- ===== src/Api/Evidence.antt =====
-- backend/app/api/routers/ingestion.py
use occj.Prelude.{
  ℕ, String, Option, none, some, List, [], ◌∷◌, ◌++◌, map, select, first, contains, ◌&&◌, ◌==◌,
  eq_string,
}
use occj.Models.Enums.{
  SourceType, source_type_value, ActorType, CaseStatus, eq_case_status, UserRole,
}
use occj.Models.Json.{Fields}
use occj.Models.Rows.{Case, ActionRequest}
use occj.Session.{Db, M, pure, gets, or_raise, value_error, ◌>>=◌}
use occj.Session.Tables.{find_case}
use occj.Env.{Env}
use occj.Reconciliation.Ingest.{ingest_evidence}
use occj.CaseService.{get_or_create_customer, run_case_cycle, named}
use occj.Api.Schemas.{EvidenceRecordOut, ActionRequestOut, evidence_record_out, action_request_out}
use occj.Api.Requests.{Outcome, committing}
use occj.Api.Auth.{Tokens, require_roles}

pub record EvidenceIngest : Type 0 where
  pub external_customer_id : String
  pub customer_display_name : String
  pub customer_tier : String
  pub source_type : String
  pub provenance_source : String
  pub external_ref : String
  pub occurred_at : ℕ
  pub order_id : Option String
  pub payload : Fields
  pub case_id : Option String

pub record Ingested : Type 0 where
  pub evidence : EvidenceRecordOut
  pub cases_updated : List String
  pub actions_taken : List ActionRequestOut

abbrev pub open_statuses : List CaseStatus
open_statuses =
    CaseStatus.open_ ∷ CaseStatus.investigating ∷ CaseStatus.pending_evidence
    ∷ CaseStatus.pending_approval ∷ CaseStatus.action_in_progress
    ∷ CaseStatus.pending_customer_update ∷ CaseStatus.reopened ∷ []

abbrev pub source_types : List SourceType
source_types =
    SourceType.web_app_event ∷ SourceType.store_transaction ∷ SourceType.order
    ∷ SourceType.fulfillment_update ∷ SourceType.payment ∷ SourceType.contact_center_record
    ∷ SourceType.return_ ∷ SourceType.itsm_incident ∷ []

-- `SourceType(text)`, which raises on a text that no source type has
unfoldable pub source_type_named : String → Option SourceType
source_type_named text = first (λ t. source_type_value t == text) source_types

abbrev pub ingesters : List UserRole
ingesters = UserRole.agent ∷ UserRole.supervisor ∷ UserRole.admin ∷ []

-- the cases of a customer that are open
unfoldable pub open_cases : String → Db → List Case
open_cases customer_id s =
    select (λ (c : Case). c.customer_id == customer_id && contains open_statuses c.status) s.cases

-- the cases that a delivery concerns
unfoldable pub concerned : Option String → String → Db → List Case
unfolding open_cases
concerned case_id customer_id s = elim (named case_id) [
  | none ↦ open_cases customer_id s
  | some key ↦ elim (find_case key s) [ none ↦ [] | some c ↦ c ∷ [] ]
]

module _ (tokens : Tokens) (env : Env) where
  -- the loop over the cases, on the actions taken so far
  unfoldable pub run_cycles : List Case → List ActionRequest → M (List ActionRequest)
  run_cycles [] taken = pure taken
  run_cycles (c ∷ cs) taken = do more ← run_case_cycle env c.id; run_cycles cs (taken ++ more)

  -- `ingest`, up to its commit
  unfoldable pub ingesting_evidence : String → EvidenceIngest → M Ingested
  unfolding require_roles source_type_named concerned run_cycles
  ingesting_evidence token body = do
    user ← require_roles tokens ingesters token
    customer ← get_or_create_customer env (record {
      external_customer_id = body.external_customer_id;
      display_name = body.customer_display_name;
      tier = body.customer_tier;
      email = none;
      phone = none;
    })
    source_type ← or_raise (source_type_named body.source_type) value_error
    evidence ← ingest_evidence env (record {
      customer_id = customer.id;
      source_type = source_type;
      provenance_source = body.provenance_source;
      external_ref = body.external_ref;
      occurred_at = body.occurred_at;
      payload = body.payload;
      order_id = body.order_id;
      recorded_at_source = none;
      actor_type = ActorType.system;
    })
    cases ← gets (concerned body.case_id customer.id)
    taken ← run_cycles cases []
    pure (record {
      evidence = evidence_record_out evidence;
      cases_updated = map (λ (c : Case). c.id) cases;
      actions_taken = map action_request_out taken;
    })

  unfoldable pub ingest : String → EvidenceIngest → Db → Outcome Ingested
  unfolding ingesting_evidence
  ingest token body = committing (ingesting_evidence token body)
