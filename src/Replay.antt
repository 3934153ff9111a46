-- ===== src/Replay.antt =====
-- backend/app/audit/replay.py: the state of a case is folded from its audit trail.
pub mod Fold
pub mod Order
pub mod Traced
pub mod Faithful
pub mod Opened
use occj.Prelude.{
  ℕ, suc, String, Bool, true, false, ◌&&◌, ◌||◌, Option, none, some, List, [], ◌∷◌, ◌++◌, select,
  first, length, ltb, leb, nat_eq, is_some, ◌==◌, eq_string, eq_option, if◌then◌else◌,
}
use occj.Models.Enums.{JourneyStage, journey_stage_value, ActorType}
use occj.Models.Json.{Json, Fields, str, get}
use occj.Models.Rows.{AuditEntry}
use occj.Session.{Db}
use occj.Stage.{stage_order}

-- `order_by(occurred_at, created_at)`
pub earlier : AuditEntry → AuditEntry → Bool
earlier a b =
    ltb a.occurred_at b.occurred_at
    || (nat_eq a.occurred_at b.occurred_at && ltb a.created_at b.created_at)

insert_entry : AuditEntry → List AuditEntry → List AuditEntry
unfolding earlier
insert_entry e [] = e ∷ []
insert_entry e (x ∷ xs) =
    let rest = x ∷ insert_entry e xs in if earlier e x then e ∷ x ∷ xs else rest

-- by (occurred_at, created_at); rows with equal times stand in the order of their insertion, which the
-- query leaves open
unfoldable pub in_order : List AuditEntry → List AuditEntry → List AuditEntry
unfolding insert_entry
in_order sorted [] = sorted
in_order sorted (e ∷ es) = in_order (insert_entry e sorted) es

abbrev up_to : Option ℕ → AuditEntry → Bool
up_to none e = true
up_to (some t) e = leb e.occurred_at t

abbrev pub of_case : String → AuditEntry → Bool
of_case case_id e = e.case_id == some case_id

unfoldable pub get_case_audit_trail : String → Option ℕ → Db → List AuditEntry
unfolding in_order
get_case_audit_trail case_id as_of s =
    in_order [] (select (λ e. of_case case_id e && up_to as_of e) s.audit)

-- `JourneyStage(text)`, which raises on a text that no stage has
unfoldable pub stage_named : Json → Option JourneyStage
stage_named (str t) = first (λ st. journey_stage_value st == t) stage_order
stage_named _ = none

pub record HypothesisView : Type 0 where
  pub category : Json
  pub confidence : Json
  pub as_of_this_event : ℕ

pub record Moment : Type 0 where
  pub event : String
  pub at_time : ℕ
  pub payload : Fields

pub record ActionView : Type 0 where
  pub history : List Moment
  pub last_event : String
  pub updated_at : ℕ

pub record ApprovalView : Type 0 where
  pub event : String
  pub at_time : ℕ
  pub actor_id : Option String

-- The variables of the fold.
pub record Replay : Type 0 where
  pub stage : JourneyStage
  pub hypotheses : List (String × HypothesisView)
  pub actions : List (String × ActionView)
  pub approvals : List (String × ApprovalView)
  pub evidence_event_count : ℕ

abbrev pub start : Replay
start = record {
  stage = JourneyStage.issue_reported;
  hypotheses = [];
  actions = [];
  approvals = [];
  evidence_event_count = 0;
}

-- `d[key] = value`
unfoldable pub put {ℓ} : {V : Type ℓ} → String → V → List (String × V) → List (String × V)
put k v [] = (k, v) ∷ []
put k v ((j, w) ∷ m) = let rest = (j, w) ∷ put k v m in if j == k then (k, v) ∷ m else rest

-- `actions.setdefault(entity_id, {"history": []})`, with the entry appended
unfoldable pub note_action : AuditEntry → List (String × ActionView) → List (String × ActionView)
note_action e [] =
    (
      e.entity_id,
      record {
        history = record { event = e.event; at_time = e.occurred_at; payload = e.payload } ∷ [];
        last_event = e.event;
        updated_at = e.occurred_at;
      },
    )
    ∷ []
note_action e ((j, w) ∷ m) =
    let rest = (j, w) ∷ note_action e m in
    if j == e.entity_id
    then (
      j,
      record {
        history =
            w.history
            ++ record { event = e.event; at_time = e.occurred_at; payload = e.payload } ∷ [];
        last_event = e.event;
        updated_at = e.occurred_at;
      },
    )
      ∷ m
    else rest

-- one round of the fold; `none` where `JourneyStage(...)` raises
unfoldable pub replay_entry : Replay → AuditEntry → Option Replay
unfolding stage_named put note_action
replay_entry r e =
    if e.entity_type == "case" && e.event == "stage_advanced"
    then elim (stage_named (get e.payload "to")) [
      | none ↦ none
      | some st ↦ some (record r { stage = st })
    ]
    else if e.entity_type == "case" && e.event == "reevaluation_triggered"
    then some (record r { stage = JourneyStage.failure_located })
    else if e.entity_type == "hypothesis" && e.event == "created"
    then some (record r {
      hypotheses =
          put e.entity_id
            (record {
              category = get e.payload "category";
              confidence = get e.payload "confidence";
              as_of_this_event = e.occurred_at;
            })
            r.hypotheses;
    })
    else if e.entity_type == "action_request"
    then some (record r { actions = note_action e r.actions })
    else if e.entity_type == "approval"
    then some (record r {
      approvals =
          put e.entity_id
            (record { event = e.event; at_time = e.occurred_at; actor_id = e.actor_id })
            r.approvals;
    })
    else if e.entity_type == "evidence_record"
    then some (record r { evidence_event_count = suc r.evidence_event_count })
    else some r

unfoldable pub replay_entries : Replay → List AuditEntry → Option Replay
unfolding replay_entry
replay_entries r [] = some r
replay_entries r (e ∷ es) = elim (replay_entry r e) [ none ↦ none | some r' ↦ replay_entries r' es ]

unfoldable pub replay_case_state : String → Option ℕ → Db → Option Replay
unfolding get_case_audit_trail replay_entries
replay_case_state case_id as_of s = replay_entries start (get_case_audit_trail case_id as_of s)
