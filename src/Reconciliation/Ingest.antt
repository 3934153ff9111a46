-- ===== src/Reconciliation/Ingest.antt =====
-- `ingest_evidence` of backend/app/reconciliation/reconciler.py: a delivery is a new fact, an exact
-- repeat, or a correction of the record that it finds.
use occj.Prelude.{
  ℕ, String, Bool, true, false, not, ◌&&◌, Option, none, some, first, ◌==◌, eq_string,
  if◌then◌else◌,
}
use occj.Models.Enums.{SourceType, source_type_value, eq_source_type, ActorType}
use occj.Models.Json.{Fields, obj, str, field, end, eq_fields}
use occj.Models.Rows.{EvidenceRecord}
use occj.Session.{Db, M, pure, gets, new_id, utcnow, on_option, ◌>>=◌, ◌>>◌}
use occj.Session.Tables.{add_evidence_row, set_evidence_row}
use occj.Env.{Env}
use occj.Audit.{record_audit}

-- The keyword arguments of a delivery.
pub record Delivery : Type 0 where
  pub customer_id : String
  pub source_type : SourceType
  pub provenance_source : String
  pub external_ref : String
  pub occurred_at : ℕ
  pub payload : Fields
  pub order_id : Option String
  pub recorded_at_source : Option ℕ
  pub actor_type : ActorType

abbrev pub same_triple : Delivery → EvidenceRecord → Bool
same_triple d r =
    r.source_type == d.source_type
    && r.external_ref == d.external_ref
    && r.provenance_source == d.provenance_source

-- the row that the query on the triple and `is_superseded` returns
unfoldable pub find_existing : Delivery → Db → Option EvidenceRecord
find_existing d s = first (λ r. same_triple d r && not r.is_superseded) s.evidence

-- the row that a delivery becomes
abbrev pub delivered : Delivery → String → ℕ → Option String → Option String → EvidenceRecord
delivered d key now supersedes duplicate = record {
  id = key;
  customer_id = d.customer_id;
  order_id = d.order_id;
  source_type = d.source_type;
  external_ref = d.external_ref;
  provenance_source = d.provenance_source;
  occurred_at = d.occurred_at;
  recorded_at_source = d.recorded_at_source;
  ingested_at = now;
  payload = d.payload;
  actor_type = d.actor_type;
  supersedes_id = supersedes;
  is_superseded = false;
  is_duplicate_of = duplicate;
}

module _ (env : Env) where
  -- an exact repeat: the row points at the record that it repeats, which is returned
  unfoldable pub ingest_duplicate : Delivery → ℕ → EvidenceRecord → M EvidenceRecord
  ingest_duplicate d now existing = do
    key ← new_id env.supply
    add_evidence_row (delivered d key now none (some existing.id))
    record_audit env.supply (record {
      case_id = none;
      entity_type = "evidence_record";
      entity_id = key;
      event = "duplicate_delivery_ingested";
      actor_type = ActorType.system;
      actor_id = some d.provenance_source;
      payload =
          field "duplicate_of" (str existing.id) (field "external_ref" (str d.external_ref) end);
    })
    pure existing

  unfoldable pub ingest_correction : Delivery → ℕ → EvidenceRecord → M EvidenceRecord
  ingest_correction d now existing = do
    set_evidence_row existing.id (λ r. record r { is_superseded = true })
    key ← new_id env.supply
    add_evidence_row (delivered d key now (some existing.id) none)
    record_audit env.supply (record {
      case_id = none;
      entity_type = "evidence_record";
      entity_id = key;
      event = "correction_ingested";
      actor_type = d.actor_type;
      actor_id = some d.provenance_source;
      payload = field "supersedes" (str existing.id) (
          field "previous_payload" (obj existing.payload)
            (field "new_payload" (obj d.payload) end));
    })
    pure (delivered d key now (some existing.id) none)

  unfoldable pub ingest_new : Delivery → ℕ → M EvidenceRecord
  ingest_new d now = do
    key ← new_id env.supply
    add_evidence_row (delivered d key now none none)
    record_audit env.supply (record {
      case_id = none;
      entity_type = "evidence_record";
      entity_id = key;
      event = "ingested";
      actor_type = d.actor_type;
      actor_id = some d.provenance_source;
      payload =
          field "source_type" (str (source_type_value d.source_type))
            (field "external_ref" (str d.external_ref) end);
    })
    pure (delivered d key now none none)

  unfoldable pub ingest_evidence : Delivery → M EvidenceRecord
  ingest_evidence d = do
    found ← gets (find_existing d)
    now ← utcnow env.supply
    on_option found (ingest_new d now) (λ existing.
        if eq_fields env.arith existing.payload d.payload
        then ingest_duplicate d now existing
        else ingest_correction d now existing)
