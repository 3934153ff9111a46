-- ===== src/Audit/Runs.antt =====
-- backend/app/audit/service.py: the session after an event is recorded.
use occj.Session.Tables.{find_case}
use occj.Prelude.{String, ◌+◌, ◌≡◌, refl, [], ◌∷◌, ◌++◌}
use occj.Models.Rows.{AuditEntry}
use occj.Session.{Db, Supply, ok, new_id, utcnow}
use occj.Audit.{Event, record_audit, add_entry}

-- the entry that an event becomes
abbrev pub stamped : Supply → Event → Db → AuditEntry
stamped env e s = record {
  id = env.key s.ids;
  case_id = e.case_id;
  entity_type = e.entity_type;
  entity_id = e.entity_id;
  event = e.event;
  actor_type = e.actor_type;
  actor_id = e.actor_id;
  payload = e.payload;
  occurred_at = env.clock s.reads;
  created_at = env.clock (s.reads + 1);
}

abbrev pub audited : Supply → Event → Db → Db
audited env e s = record s {
  audit = s.audit ++ stamped env e s ∷ [];
  ids = s.ids + 1;
  reads = s.reads + 1 + 1;
}

pub record_audit-audited :
    (env : Supply) (e : Event) (s : Db) → record_audit env e s ≡ ok (tt, audited env e s)
unfolding record_audit new_id utcnow add_entry
record_audit-audited env e s = refl

pub find_case-audited :
    (env : Supply) (e : Event) (s : Db) (key : String)
    → find_case key (audited env e s) ≡ find_case key s
unfolding find_case
find_case-audited env e s key = refl
