-- ===== src/Audit.antt =====
-- backend/app/audit/service.py: the writer of the audit trail, for every engine.
pub mod Runs
use occj.Prelude.{String, Option, List, [], ◌∷◌, ◌++◌}
use occj.Models.Enums.{ActorType}
use occj.Models.Json.{Fields}
use occj.Models.Rows.{AuditEntry}
use occj.Session.{Db, M, Supply, ◌>>=◌, ◌>>◌, modify, pure, new_id, utcnow}

-- What a caller says of an event. `payload or {}` is the payload itself, since `None` is never
-- passed.
pub record Event : Type 0 where
  pub case_id : Option String
  pub entity_type : String
  pub entity_id : String
  pub event : String
  pub actor_type : ActorType
  pub actor_id : Option String
  pub payload : Fields

unfoldable pub add_entry : AuditEntry → Db → Db
add_entry e s = record s { audit = s.audit ++ e ∷ [] }

module _ (env : Supply) where
  unfoldable pub record_audit : Event → M Unit
  unfolding new_id utcnow add_entry
  record_audit e = do
    occurred ← utcnow env
    id ← new_id env
    created ← utcnow env
    modify (
        add_entry (record {
          id = id;
          case_id = e.case_id;
          entity_type = e.entity_type;
          entity_id = e.entity_id;
          event = e.event;
          actor_type = e.actor_type;
          actor_id = e.actor_id;
          payload = e.payload;
          occurred_at = occurred;
          created_at = created;
        }))
