-- ===== src/Replay/Fold.antt =====
-- backend/app/audit/replay.py: what one more entry does to the stage that the fold arrives at.
use occj.Prelude.{
  ◌≡◌, refl, inl, inr, ap, ◌∙◌, Bool, false, ◌&&◌, ◌||◌, Option, none, some, List, [], ◌∷◌, ◌++◌,
  Option-cases, ◌==◌, eq_string, arith,
}
use occj.Models.Enums.{JourneyStage, journey_stage_value}
use occj.Models.Json.{str}
use occj.Models.Rows.{AuditEntry}
use occj.Replay.{Replay, start, stage_named, replay_entry, replay_entries}

abbrev pub stage_of : Option Replay → Option JourneyStage
stage_of none = none
stage_of (some r) = some r.stage

-- the two kinds of entry that record a change of stage
abbrev pub is_move : AuditEntry → Bool
is_move e =
    e.entity_type == "case" && (e.event == "stage_advanced" || e.event == "reevaluation_triggered")

pub stage_named-journey_stage_value :
    (st : JourneyStage) → stage_named (str (journey_stage_value st)) ≡ some st
unfolding stage_named
stage_named-journey_stage_value JourneyStage.issue_reported = refl
stage_named-journey_stage_value JourneyStage.journey_assembled = refl
stage_named-journey_stage_value JourneyStage.failure_located = refl
stage_named-journey_stage_value JourneyStage.evidence_checked = refl
stage_named-journey_stage_value JourneyStage.impact_assessed = refl
stage_named-journey_stage_value JourneyStage.recovery_options_ranked = refl
stage_named-journey_stage_value JourneyStage.actions_coordinated = refl
stage_named-journey_stage_value JourneyStage.customer_updated = refl
stage_named-journey_stage_value JourneyStage.outcome_retained = refl

replay_entry-other :
    (r : Replay) (e : AuditEntry) → is_move e ≡ false → stage_of (replay_entry r e) ≡ some r.stage
unfolding replay_entry
replay_entry-other r e h = ground arith

replay_entries-snoc :
    (r : Replay) (es : List AuditEntry) (e : AuditEntry) (q : Replay)
    → replay_entries r es ≡ some q
    → replay_entries r (es ++ e ∷ []) ≡ replay_entry q e
unfolding replay_entries
replay_entries-snoc r [] e q h = same (replay_entry r e) ∙ ap (λ x. replay_entry x e) started
  where
    same : (o : Option Replay) → (elim o [ none ↦ none | some x ↦ some x ]) ≡ o
    same none = refl
    same (some x) = refl

    started : r ≡ q
    started = cc
replay_entries-snoc r (x ∷ es) e q h = elim (Option-cases (replay_entry r x)) [
  | inl k ↦ ground (arith, k, h)
  | inr (r', k) ↦ ground (arith, k, h, replay_entries-snoc r' es e q)
]

abbrev pub StageIs : JourneyStage → List AuditEntry → Type 0
StageIs st es = (r : Replay) × (replay_entries start es ≡ some r) × (r.stage ≡ st)

pub StageIs-move :
    (st before : JourneyStage) (es : List AuditEntry) (e : AuditEntry)
    → ((r : Replay) → stage_of (replay_entry r e) ≡ some st)
    → StageIs before es
    → StageIs st (es ++ e ∷ [])
StageIs-move st before es e h (r, k, l) = elim (Option-cases (replay_entry r e)) [
  | inl m ↦ ground (arith, m, h r)
  | inr (q, m) ↦ (q, replay_entries-snoc start es e r k ∙ m, ground (arith, m, h r))
]

pub StageIs-other :
    (st : JourneyStage) (es : List AuditEntry) (e : AuditEntry)
    → is_move e ≡ false
    → StageIs st es
    → StageIs st (es ++ e ∷ [])
StageIs-other st es e h (r, k, l) = elim (Option-cases (replay_entry r e)) [
  | inl m ↦ ground (arith, m, replay_entry-other r e h)
  | inr (q, m) ↦
      (q, replay_entries-snoc start es e r k ∙ m, ground (arith, m, l, replay_entry-other r e h))
]
