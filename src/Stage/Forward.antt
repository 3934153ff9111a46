-- ===== src/Stage/Forward.antt =====
-- backend/app/engine/stage.py: the stage after an advance.
use occj.Prelude.{
  ℕ, String, true, false, ◌≡◌, refl, inl, inr, some, [], ◌∷◌, first-update, leb, length, ◌+◌, ◌==◌,
  eq_string, Bool-cases, ◌∙◌, length-append, if◌then◌else◌, arith,
}
use occj.Models.Enums.{JourneyStage, journey_stage_value, journey_stage_index, ActorType}
use occj.Models.Json.{str, field, end}
use occj.Audit.Runs.{stamped, audited, record_audit-audited, find_case-audited}
use occj.Models.Rows.{Case}
use occj.Session.{Db, Supply, ok, attribute_error}
use occj.Session.Runs.{>>=-ok, gets-or_raise-ok, if-true, if-false}
use occj.Session.Tables.{find_case, the_case, assign_case}
use occj.Audit.{Event}
use occj.Stage.{stage_index, advance_stage}

-- The index of a stage is its place in the declaration of the stages.
pub stage_index-journey_stage_index : (st : JourneyStage) → stage_index st ≡ journey_stage_index st
unfolding stage_index
stage_index-journey_stage_index JourneyStage.issue_reported = refl
stage_index-journey_stage_index JourneyStage.journey_assembled = refl
stage_index-journey_stage_index JourneyStage.failure_located = refl
stage_index-journey_stage_index JourneyStage.evidence_checked = refl
stage_index-journey_stage_index JourneyStage.impact_assessed = refl
stage_index-journey_stage_index JourneyStage.recovery_options_ranked = refl
stage_index-journey_stage_index JourneyStage.actions_coordinated = refl
stage_index-journey_stage_index JourneyStage.customer_updated = refl
stage_index-journey_stage_index JourneyStage.outcome_retained = refl

abbrev pub larger : ℕ → ℕ → ℕ
larger a b = if leb a b then b else a

-- the event of an advance
abbrev pub advanced : String → JourneyStage → JourneyStage → Event
advanced case_id before after = record {
  case_id = some case_id;
  entity_type = "case";
  entity_id = case_id;
  event = "stage_advanced";
  actor_type = ActorType.system;
  actor_id = some "stage_tracker";
  payload =
      field "from" (str (journey_stage_value before))
        (field "to" (str (journey_stage_value after)) end);
}

pub advance_stage-stays :
    (env : Supply) (case_id : String) (st : JourneyStage) (s : Db) (c : Case)
    → find_case case_id s ≡ some c
    → leb (stage_index st) (stage_index c.stage) ≡ true
    → advance_stage env case_id st s ≡ ok (tt, s)
unfolding advance_stage
advance_stage-stays env case_id st s c h k =
    >>=-ok (the_case case_id) _ s (gets-or_raise-ok (find_case case_id) attribute_error s h)
      (if-true _ _ s k)

pub advance_stage-moves :
    (env : Supply) (case_id : String) (st : JourneyStage) (s : Db) (c : Case)
    → find_case case_id s ≡ some c
    → leb (stage_index st) (stage_index c.stage) ≡ false
    → advance_stage env case_id st s
      ≡ ok (
        tt,
        audited env
            (advanced case_id c.stage st)
            (assign_case case_id (λ d. record d { stage = st }) s),
      )
unfolding advance_stage
advance_stage-moves env case_id st s c h k =
    >>=-ok (the_case case_id) _ s (gets-or_raise-ok (find_case case_id) attribute_error s h)
      (if-false _ _ s k ∙ record_audit-audited env (advanced case_id c.stage st) _)

find_case-assign_case :
    (key : String) (f : Case → Case) (s : Db) (c : Case)
    → ((d : Case) → (f d).id ≡ d.id)
    → find_case key s ≡ some c
    → find_case key (assign_case key f s) ≡ some (f c)
unfolding find_case assign_case
find_case-assign_case key f s c h = first-update (λ r. r.id == key) f s.cases c (λ d k. rw (h d) k)

-- An advance of a case that exists returns, the stage of the case is then the later one of the
-- stage it had and the stage that is asked for, and one audit entry is written if that is a
-- change and none otherwise.
pub advance_stage-larger :
    (env : Supply) (case_id : String) (st : JourneyStage) (s : Db) (c : Case)
    → find_case case_id s ≡ some c
    → (t : Db) × (d : Case) × (advance_stage env case_id st s ≡ ok (tt, t))
      × (find_case case_id t ≡ some d)
      × (stage_index d.stage ≡ larger (stage_index st) (stage_index c.stage))
      × (length t.audit
          ≡ length s.audit + (if leb (stage_index st) (stage_index c.stage) then 0 else 1))
unfolding assign_case
advance_stage-larger env case_id st s c h =
    elim (Bool-cases (leb (stage_index st) (stage_index c.stage))) [
      | inl k ↦ (s, c, advance_stage-stays env case_id st s c h k, h, ground arith, ground arith)
      | inr k ↦ (
        audited env (advanced case_id c.stage st)
            (assign_case case_id (λ d. record d { stage = st }) s),
        record c { stage = st },
        advance_stage-moves env case_id st s c h k,
        find_case-audited env (advanced case_id c.stage st) _ case_id
            ∙ find_case-assign_case case_id (λ d. record d { stage = st }) s c (λ d. refl) h,
        ground arith,
        ground (
          arith,
          length-append s.audit (
              stamped env (advanced case_id c.stage st)
                (assign_case case_id (λ d. record d { stage = st }) s)
              ∷ []),
        ),
      )
    ]
