-- ===== src/Reconciliation/Uncertainty.antt =====
-- `detect_uncertainty` and `reconcile_case` of backend/app/reconciliation/reconciler.py.
use occj.Prelude.{
  ℕ, String, not, ◌&&◌, none, some, List, [], ◌∷◌, map, length, select, is_some, ltb, ◌==◌,
  eq_string, if◌then◌else◌,
}
use occj.Models.Enums.{ActorType, uncertainty_flag_type_value, JourneyStage}
use occj.Models.Json.{str, field, end}
use occj.Models.Rows.{UncertaintyFlag}
use occj.Session.{
  Db, M, pure, raise, gets, new_id, utcnow, skip, when, for_each, value_error, ◌>>=◌, ◌>>◌,
}
use occj.Session.Tables.{the_case, set_case, add_flag}
use occj.Env.{Env}
use occj.Audit.{record_audit}
use occj.Stage.{advance_stage}
use occj.Reconciliation.Grouping.{Draft, lookups_hashable}
use occj.Reconciliation.Detect.{detect}
use occj.Reconciliation.Timeline.{current_evidence_by_time, assemble_timeline}

module _ (env : Env) where
  -- the row that a draft becomes
  abbrev pub flag_of : String → ℕ → Draft → String → UncertaintyFlag
  flag_of case_id now d key = record {
    id = key;
    case_id = case_id;
    flag_type = d.flag_type;
    related_evidence_ids = d.related;
    description = d.description;
    detected_at = now;
    resolved_at = none;
    resolution_note = none;
  }

  unfoldable pub save_flags : String → ℕ → List Draft → M (List UncertaintyFlag)
  save_flags case_id now [] = pure []
  save_flags case_id now (d ∷ ds) = do
    key ← new_id env.supply
    add_flag (flag_of case_id now d key)
    rest ← save_flags case_id now ds
    pure (flag_of case_id now d key ∷ rest)

  unfoldable pub audit_flag : String → UncertaintyFlag → M Unit
  audit_flag case_id flag = record_audit env.supply (record {
    case_id = some case_id;
    entity_type = "uncertainty_flag";
    entity_id = flag.id;
    event = "raised";
    actor_type = ActorType.system;
    actor_id = some "reconciliation_engine";
    payload =
        field "flag_type" (str (uncertainty_flag_type_value flag.flag_type))
          (field "description" (str flag.description) end);
  })

  unfoldable pub open_flags : String → Db → List UncertaintyFlag
  open_flags case_id s = select (λ f. f.case_id == case_id && not (is_some f.resolved_at)) s.flags

  unfoldable pub detect_uncertainty : String → M (List UncertaintyFlag)
  unfolding current_evidence_by_time detect open_flags save_flags audit_flag
  detect_uncertainty case_id = do
    case ← the_case case_id
    evidence ← gets (current_evidence_by_time case.customer_id)
    now ← utcnow env.supply
    already ← gets (open_flags case_id)
    if lookups_hashable evidence then skip else raise value_error
    flags ← save_flags case_id now (detect env now evidence (map (λ f. f.description) already))
    for_each flags (audit_flag case_id)
    pure flags

  unfoldable pub reconcile_case : String → M Unit
  unfolding assemble_timeline detect_uncertainty
  reconcile_case case_id = do
    timeline ← assemble_timeline env case_id
    flags ← detect_uncertainty case_id
    when (ltb 0 (length timeline)) (advance_stage env.supply case_id JourneyStage.journey_assembled)
    now ← utcnow env.supply
    set_case case_id (λ c. record c { last_activity_at = now })
