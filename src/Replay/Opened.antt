-- ===== src/Replay/Opened.antt =====
-- backend/app/engine/case_service.py: the trail of a case that has just been opened.
use mathlib.Core.Path.{subst}
use occj.Prelude.{
  ℕ, ◌+◌, String, ◌≡◌, refl, sym, ap, ◌∙◌, Bool, true, false, none, some, List, [], ◌∷◌, ◌++◌,
  first, select, All, leb, is_some, or_else, ◌==◌, eq_string, eq_option, if◌then◌else◌, arith,
}
use occj.Models.Enums.{ActorType, CaseStatus, case_trigger_type_value, JourneyStage}
use occj.Models.Json.{str, field, end, of_option}
use occj.Models.Rows.{Case, AuditEntry}
use occj.Session.{Db, ok, new_id, utcnow}
use occj.Session.Steps.{stays}
use occj.Session.Tables.{find_case, insert_case}
use occj.Env.{Env}
use occj.Audit.{Event, record_audit, add_entry}
use occj.Audit.Runs.{stamped, audited}
use occj.CaseService.{NewCase, named, create_case}
use occj.Replay.{start, of_case, replay_entry, replay_entries}
use occj.Replay.Fold.{StageIs}
use occj.Replay.Order.{Chronological, Past}
use occj.Replay.Traced.{Traced, select-snoc-in, Chronological-audited, Past-audited, Past-later}

first-last :
    {A : Type 0} (p : A → Bool) (xs : List A) (x : A)
    → first p xs ≡ none
    → p x ≡ true
    → first p (xs ++ x ∷ []) ≡ some x
first-last p [] x h k = ground (arith, k)
first-last p (y ∷ xs) x h k = ground (arith, h, k, first-last p xs x)

key-same : (key : String) → key == key ≡ true
key-same key = (eq_string.beq_iff key key).1 refl

abbrev new_case : Env → NewCase → Db → Case
new_case env n s = record {
  id = env.supply.key s.ids;
  customer_id = n.customer_id;
  order_id = n.order_id;
  trigger_type = n.trigger_type;
  opened_by_user_id = n.opened_by_user_id;
  status = CaseStatus.open_;
  stage = JourneyStage.issue_reported;
  summary = n.summary;
  deadline_at = none;
  last_activity_at = env.supply.clock s.reads;
  needs_reevaluation = false;
  primary_hypothesis_id = none;
  closed_at = none;
  closure_summary = none;
}

abbrev opening : Env → NewCase → Db → Event
opening env n s = record {
  case_id = some (env.supply.key s.ids);
  entity_type = "case";
  entity_id = env.supply.key s.ids;
  event = "opened";
  actor_type =
      if is_some (named n.opened_by_user_id) then ActorType.human_decision else ActorType.system;
  actor_id = some (or_else (named n.opened_by_user_id) "system");
  payload =
      field "trigger_type" (str (case_trigger_type_value n.trigger_type))
        (field "customer_id" (str n.customer_id) (field "order_id" (of_option n.order_id) end));
}

abbrev before_entry : Env → NewCase → Db → Db
before_entry env n s = record s {
  cases = s.cases ++ new_case env n s ∷ [];
  ids = s.ids + 1;
  reads = s.reads + 1;
}

module _ (env : Env) (n : NewCase) (s : Db)
    (tick : (i : ℕ) → leb (env.supply.clock i) (env.supply.clock (i + 1)) ≡ true) where
  abbrev key : String
  key = env.supply.key s.ids

  abbrev entry : AuditEntry
  entry = stamped env.supply (opening env n s) (before_entry env n s)

  -- While the clock does not go back: when the trail so far is in order and past, and neither a case
  -- nor an entry of the trail has the new key, then opening a case leaves a session in which the
  -- trail of the new case agrees with it.
  pub create_case-Traced :
      (t : Db) (c : Case)
      → Chronological s.audit
      → All (Past (env.supply.clock s.reads)) s.audit
      → find_case (env.supply.key s.ids) s ≡ none
      → select (of_case (env.supply.key s.ids)) s.audit ≡ []
      → create_case env n s ≡ ok (c, t)
      → Traced env.supply (env.supply.key s.ids) t
  unfolding create_case new_id utcnow record_audit add_entry insert_case find_case replay_entry
      replay_entries
  create_case-Traced t c g h k l m = stays (Traced env.supply key) opened m
    where
      later : All (Past (env.supply.clock (s.reads + 1))) s.audit
      later = Past-later env.supply key tick s.reads s.audit h

      opened : Traced env.supply key (audited env.supply (opening env n s) (before_entry env n s))
      opened = record {
        case = new_case env n s;
        found = first-last (λ d. d.id == key) s.cases (new_case env n s) k (key-same key);
        replayed =
            subst (StageIs JourneyStage.issue_reported)
              (sym (
                select-snoc-in env.supply key tick s.audit entry (key-same key)
                ∙ ap (λ es. es ++ entry ∷ []) l))
              (start, refl, refl);
        ordered =
            Chronological-audited env.supply key tick (opening env n s) (before_entry env n s) g
              later;
        past = Past-audited env.supply key tick (opening env n s) (before_entry env n s) later;
      }
