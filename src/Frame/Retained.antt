-- ===== src/Frame/Retained.antt =====
-- The history of a session, as a relation of the frame.
use occj.Prelude.{String, List, [], ◌∷◌}
use occj.Models.Enums.{JourneyStage}
use occj.Models.Rows.{AuditEntry, Hypothesis}
use occj.Session.{Supply, modify, new_id, utcnow}
use occj.Session.Steps.{Steps, Steps-modify, stays, steps_rules}
use occj.Session.History.{Extends-append, Kept, Kept-refl, History}
use occj.Session.Writes.{
  add_customer-History, add_case-History, add_evidence_row-History, add_event-History,
  add_flag-History, add_hypothesis-History, add_link-History, add_impact-History,
  add_action-History, add_approval-History, add_execution-History, set_case-History,
  set_evidence_row-History, set_event-History, set_hypothesis-History, set_action-History,
  set_approval-History, set_execution-History,
}
use occj.Env.{Env}
use occj.Audit.{Event, add_entry, record_audit}
use occj.Stage.{advance_stage}
use occj.Hypotheses.Generate.{reevaluate}
use occj.Frame.Requests.{Frame-adding}
use occj.Frame.{Core, Frame, Ruling}

module _ (env : Supply) where
  new_id-History : Steps History (new_id env)
  unfolding new_id
  new_id-History = record { at = λ s a t e. stays (Kept s) (assumption (Kept-refl s)) e }

  utcnow-History : Steps History (utcnow env)
  unfolding utcnow
  utcnow-History = record { at = λ s a t e. stays (Kept s) (assumption (Kept-refl s)) e }

add_entry-History : (e : AuditEntry) → Steps History (modify (add_entry e))
unfolding add_entry
add_entry-History e =
    Steps-modify (add_entry e)
      λ s. assumption (Kept-refl s, Extends-append {B = AuditEntry} (λ x. x) s.audit (e ∷ []))

record_audit-History : (env : Supply) (e : Event) → Steps History (record_audit env e)
unfolding record_audit
record_audit-History env e =
    search (steps_rules, new_id-History, utcnow-History, add_entry-History) depth 12

advance_stage-History :
    (env : Supply) (case_id : String) (st : JourneyStage)
    → Steps History (advance_stage env case_id st)
unfolding advance_stage
advance_stage-History env case_id st =
    search (steps_rules, record_audit-History, set_case-History) depth 12

reevaluate-History :
    (env : Env) (case_id : String) (previous : List Hypothesis) (top : Hypothesis)
    → Steps History (reevaluate env case_id previous top)
unfolding reevaluate
reevaluate-History env case_id previous top =
    search (steps_rules, record_audit-History, set_case-History) depth 12

-- history does not ask which actions may be executed
abbrev pub AnyAction : String → Type 0
AnyAction key = Unit

History-Core : (env : Env) → Core env History AnyAction
History-Core env = record {
  keeps_new_id = new_id-History env.supply;
  keeps_utcnow = utcnow-History env.supply;
  keeps_audit = λ e h. record_audit-History env.supply e;
  keeps_advance = advance_stage-History env.supply;
  keeps_reevaluate = reevaluate-History env;
  keeps_add_customer = add_customer-History;
  keeps_add_case = add_case-History;
  keeps_add_evidence_row = add_evidence_row-History;
  keeps_add_event = add_event-History;
  keeps_add_flag = add_flag-History;
  keeps_add_hypothesis = add_hypothesis-History;
  keeps_add_link = add_link-History;
  keeps_add_impact = add_impact-History;
  keeps_add_approval = λ r h. add_approval-History r;
  keeps_add_execution = λ r h. add_execution-History r;
  keeps_set_case = λ key f h k. set_case-History key f h;
  keeps_set_evidence_row = set_evidence_row-History;
  keeps_set_event = set_event-History;
  keeps_set_hypothesis = set_hypothesis-History;
  keeps_set_action = λ key f h k. set_action-History key f h;
  keeps_set_execution = set_execution-History;
}

pub History-Frame : (env : Env) → Frame env History AnyAction
History-Frame env = Frame-adding env (History-Core env) λ r h. add_action-History r

pub History-Ruling : Ruling History
History-Ruling = record { rules_approval = set_approval-History; rules_action = set_action-History }
