-- ===== src/Frame/Awaiting.antt =====
-- The approvals of a session, over every operation of the engine: only humans decide them.
use occj.Prelude.{
  ◌+◌, String, ◌≡◌, refl, sym, ap, ◌∙◌, List, [], ◌∷◌, ◌++◌, append-nil, append_assoc, All,
  All-append, eq_string,
}
use occj.Models.Enums.{JourneyStage, ApprovalStatus}
use occj.Models.Rows.{Case, Approval, ActionRequest, Hypothesis}
use occj.Session.{Db, Supply, ok, new_id, utcnow}
use occj.Session.Steps.{Relation, Steps, Steps-modify, stays, steps_rules}
use occj.Session.Tables.{
  set_case, insert_customer, insert_case, insert_evidence_row, insert_event, insert_flag,
  insert_hypothesis, insert_link, insert_impact, insert_action, insert_approval, insert_execution,
  assign_case, assign_evidence_row, assign_event, assign_hypothesis, assign_action,
  assign_execution,
}
use occj.Env.{Env}
use occj.Audit.{Event, record_audit}
use occj.Audit.Runs.{audited, record_audit-audited}
use occj.Stage.{advance_stage}
use occj.Hypotheses.Generate.{reevaluate}
use occj.CaseService.{advance_case, run_case_cycle}
use occj.Frame.Requests.{Frame-adding}
use occj.Frame.{Core, Frame}
use occj.Frame.Retained.{AnyAction}
use occj.Frame.Service.{advance_case-Steps, run_case_cycle-Steps}

abbrev pub IsPending : Approval → Type 0
IsPending p = p.status ≡ ApprovalStatus.pending

-- The approvals of before are as they were, and those behind them are pending.
abbrev pub Awaits : Db → Db → Type 0
Awaits s t = (l : List Approval) × (t.approvals ≡ s.approvals ++ l) × All IsPending l

pub same_approvals : (s t : Db) → t.approvals ≡ s.approvals → Awaits s t
same_approvals s t h = ([], h ∙ sym (append-nil s.approvals), tt)

pub Awaits-trans : (s t u : Db) → Awaits s t → Awaits t u → Awaits s u
Awaits-trans s t u (l, h, p) (k, g, q) =
    (l ++ k, g ∙ ap (λ ps. ps ++ k) h ∙ append_assoc s.approvals l k, All-append IsPending l k p q)

abbrev pub Awaiting : Relation
Awaiting = record {
  rel = Awaits;
  reflexive = λ s. same_approvals s s refl;
  transitive = Awaits-trans;
}

audit-Awaiting : (env : Supply) (e : Event) → Steps Awaiting (record_audit env e)
audit-Awaiting env e = record {
  at = λ s a t k.
      stays (Awaits s) (same_approvals s (audited env e s) refl)
        (sym (record_audit-audited env e s) ∙ k);
}

set_case-Awaiting : (key : String) (f : Case → Case) → Steps Awaiting (set_case key f)
unfolding assign_case
set_case-Awaiting key f =
    Steps-modify (assign_case key f) λ s. same_approvals s (assign_case key f s) refl

advance_stage-Awaiting :
    (env : Supply) (case_id : String) (st : JourneyStage)
    → Steps Awaiting (advance_stage env case_id st)
unfolding advance_stage
advance_stage-Awaiting env case_id st =
    search (steps_rules, audit-Awaiting, set_case-Awaiting) depth 12

reevaluate-Awaiting :
    (env : Env) (case_id : String) (previous : List Hypothesis) (top : Hypothesis)
    → Steps Awaiting (reevaluate env case_id previous top)
unfolding reevaluate
reevaluate-Awaiting env case_id previous top =
    search (steps_rules, audit-Awaiting, set_case-Awaiting) depth 12

Awaiting-Core : (env : Env) → Core env Awaiting AnyAction
unfolding new_id utcnow insert_customer insert_case insert_evidence_row insert_event insert_flag
    insert_hypothesis insert_link insert_impact insert_action insert_approval insert_execution
    assign_evidence_row assign_event assign_hypothesis assign_action assign_execution
Awaiting-Core env = record {
  keeps_new_id = record {
    at = λ s a t e. stays (Awaits s) (same_approvals s (record s { ids = s.ids + 1 }) refl) e;
  };
  keeps_utcnow = record {
    at = λ s a t e. stays (Awaits s) (same_approvals s (record s { reads = s.reads + 1 }) refl) e;
  };
  keeps_audit = λ e h. audit-Awaiting env.supply e;
  keeps_advance = advance_stage-Awaiting env.supply;
  keeps_reevaluate = reevaluate-Awaiting env;
  keeps_add_customer =
      λ r. Steps-modify (insert_customer r) λ s. same_approvals s (insert_customer r s) refl;
  keeps_add_case = λ r. Steps-modify (insert_case r) λ s. same_approvals s (insert_case r s) refl;
  keeps_add_evidence_row = λ r.
      Steps-modify (insert_evidence_row r) λ s. same_approvals s (insert_evidence_row r s) refl;
  keeps_add_event =
      λ r. Steps-modify (insert_event r) λ s. same_approvals s (insert_event r s) refl;
  keeps_add_flag = λ r. Steps-modify (insert_flag r) λ s. same_approvals s (insert_flag r s) refl;
  keeps_add_hypothesis =
      λ r. Steps-modify (insert_hypothesis r) λ s. same_approvals s (insert_hypothesis r s) refl;
  keeps_add_link = λ r. Steps-modify (insert_link r) λ s. same_approvals s (insert_link r s) refl;
  keeps_add_impact =
      λ r. Steps-modify (insert_impact r) λ s. same_approvals s (insert_impact r s) refl;
  keeps_add_approval = λ r h. Steps-modify (insert_approval r) λ s. (r ∷ [], refl, (h, tt));
  keeps_add_execution =
      λ r h. Steps-modify (insert_execution r) λ s. same_approvals s (insert_execution r s) refl;
  keeps_set_case = λ key f h k. set_case-Awaiting key f;
  keeps_set_evidence_row = λ key f h.
      Steps-modify (assign_evidence_row key f)
        λ s. same_approvals s (assign_evidence_row key f s) refl;
  keeps_set_event = λ key f h.
      Steps-modify (assign_event key f) λ s. same_approvals s (assign_event key f s) refl;
  keeps_set_hypothesis = λ key f h.
      Steps-modify (assign_hypothesis key f) λ s. same_approvals s (assign_hypothesis key f s) refl;
  keeps_set_action = λ key f h k.
      Steps-modify (assign_action key f) λ s. same_approvals s (assign_action key f s) refl;
  keeps_set_execution = λ key f h.
      Steps-modify (assign_execution key f) λ s. same_approvals s (assign_execution key f s) refl;
}

pub Awaiting-Frame : (env : Env) → Frame env Awaiting AnyAction
unfolding insert_action
Awaiting-Frame env =
    Frame-adding env (Awaiting-Core env)
      λ r h. Steps-modify (insert_action r) λ s. same_approvals s (insert_action r s) refl

pub advance_case-Awaiting :
    (env : Env) (case_id : String) → Steps Awaiting (advance_case env case_id)
advance_case-Awaiting env = advance_case-Steps env (Awaiting-Frame env) (λ key. tt)

-- A cycle that returns has decided no approval: those of before are as they were, in their places,
-- and every new one is pending.
pub run_case_cycle-Awaits :
    (env : Env) (case_id : String) (s t : Db) (taken : List ActionRequest)
    → run_case_cycle env case_id s ≡ ok (taken, t)
    → Awaits s t
run_case_cycle-Awaits env case_id s t taken =
    (run_case_cycle-Steps env (Awaiting-Frame env) (advance_case-Awaiting env) case_id).at s taken t
