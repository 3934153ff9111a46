-- ===== src/Stage.antt =====
-- backend/app/engine/stage.py: the stage of a case moves forward only.
pub mod Forward
use occj.Prelude.{ℕ, suc, String, some, List, [], ◌∷◌, leb, ◌==◌, if◌then◌else◌}
use occj.Models.Enums.{JourneyStage, journey_stage_value, eq_journey_stage, ActorType}
use occj.Models.Json.{str, field, end}
use occj.Session.{M, Supply, skip, ◌>>=◌, ◌>>◌}
use occj.Session.Tables.{the_case, set_case}
use occj.Audit.{record_audit}

abbrev pub stage_order : List JourneyStage
stage_order =
    JourneyStage.issue_reported ∷ JourneyStage.journey_assembled ∷ JourneyStage.failure_located
    ∷ JourneyStage.evidence_checked ∷ JourneyStage.impact_assessed
    ∷ JourneyStage.recovery_options_ranked ∷ JourneyStage.actions_coordinated
    ∷ JourneyStage.customer_updated ∷ JourneyStage.outcome_retained ∷ []

-- `{stage: i for i, stage in enumerate(STAGE_ORDER)}[stage]`
index_in : List JourneyStage → JourneyStage → ℕ
index_in [] st = 0
index_in (x ∷ xs) st = let rest = suc (index_in xs st) in if x == st then 0 else rest

unfoldable pub stage_index : JourneyStage → ℕ
unfolding index_in
stage_index = index_in stage_order

module _ (env : Supply) where
  unfoldable pub advance_stage : String → JourneyStage → M Unit
  unfolding stage_index
  advance_stage case_id new_stage = do
    case ← the_case case_id
    if leb (stage_index new_stage) (stage_index case.stage) then skip else do
      set_case case_id (λ c. record c { stage = new_stage })
      record_audit env (record {
        case_id = some case_id;
        entity_type = "case";
        entity_id = case_id;
        event = "stage_advanced";
        actor_type = ActorType.system;
        actor_id = some "stage_tracker";
        payload =
            field "from" (str (journey_stage_value case.stage))
              (field "to" (str (journey_stage_value new_stage)) end);
      })
