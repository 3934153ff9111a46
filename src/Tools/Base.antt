-- ===== src/Tools/Base.antt =====
-- backend/app/tools/base.py: what a connector is given and what it returns.
use occj.Prelude.{ℕ, String, Bool, false, true, Option, none, some, List, []}
use occj.Models.Enums.{SourceType}
use occj.Models.Json.{Json, Fields, end}
use occj.Models.Rows.{Case, Customer}
use occj.Session.{M}
use occj.Env.{Http, answered, http_error, hangs}

-- One of `evidence_to_ingest`: the keyword arguments of `ingest_evidence` less the customer.
pub record Surfaced : Type 0 where
  pub source_type : SourceType
  pub provenance_source : String
  pub external_ref : String
  pub occurred_at : ℕ
  pub order_id : Option String
  pub payload : Fields

pub record ToolResult : Type 0 where
  pub success : Bool
  pub response_payload : Fields
  pub error_message : Option String
  pub needs_manual_review : Bool
  pub evidence_to_ingest : List Surfaced

abbrev pub succeeds : Fields → List Surfaced → ToolResult
succeeds response evidence = record {
  success = true;
  response_payload = response;
  error_message = none;
  needs_manual_review = false;
  evidence_to_ingest = evidence;
}

abbrev pub fails : String → ToolResult
fails message = record {
  success = false;
  response_payload = end;
  error_message = some message;
  needs_manual_review = false;
  evidence_to_ingest = [];
}

-- How one awaited attempt ends for the executor: a result, the time limit, or an exception with
-- its text.
pub data Outcome : Type 0 where
  returned : ToolResult → Outcome
  timed_out : Outcome
  raised : String → Outcome

-- `try … except httpx.HTTPError`, for a call that may also take too long
abbrev pub on_http : {A B : Type 0} → Http A → M B → (String → M B) → (A → M B) → M B
on_http hangs m f g = m
on_http (http_error e) m f g = f e
on_http (answered a) m f g = g a

-- The dictionary `context` that `resolve` assembles.
pub record Context : Type 0 where
  pub case : Option Case
  pub customer : Option Customer
  pub ticket_id : Json

abbrev pub case_order : Option Case → Option String
case_order none = none
case_order (some c) = c.order_id
