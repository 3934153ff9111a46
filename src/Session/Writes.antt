-- ===== src/Session/Writes.antt =====
-- The single writes and the history.
use occj.Prelude.{String, ◌≡◌, [], ◌∷◌, ◌==◌, eq_string}
use occj.Models.Rows.{
  Customer, Case, EvidenceRecord, CanonicalEvent, UncertaintyFlag, Hypothesis, EvidenceLink,
  ImpactAssessment, ActionRequest, Approval, ToolExecution,
}
use occj.Session.Steps.{Steps, Steps-modify}
use occj.Session.Tables.{
  insert_customer, add_customer, insert_case, add_case, insert_evidence_row, add_evidence_row,
  insert_event, add_event, insert_flag, add_flag, insert_hypothesis, add_hypothesis, insert_link,
  add_link, insert_impact, add_impact, insert_action, add_action, insert_approval, add_approval,
  insert_execution, add_execution, assign_case, set_case, assign_evidence_row, set_evidence_row,
  assign_event, set_event, assign_hypothesis, set_hypothesis, assign_action, set_action,
  assign_approval, set_approval, assign_execution, set_execution,
}
use occj.Session.History.{
  Extends-append, Extends-update, Kept-refl, History, fixed_evidence, fixed_event, fixed_hypothesis,
  fixed_action, fixed_approval, fixed_execution, fixed_case,
}

pub add_customer-History : (r : Customer) → Steps History (add_customer r)
unfolding insert_customer
add_customer-History r =
    Steps-modify (insert_customer r)
      λ s. assumption (Kept-refl s, Extends-append (λ c. c) s.customers (r ∷ []))

pub add_case-History : (r : Case) → Steps History (add_case r)
unfolding insert_case
add_case-History r =
    Steps-modify (insert_case r)
      λ s. assumption (Kept-refl s, Extends-append fixed_case s.cases (r ∷ []))

pub add_evidence_row-History : (r : EvidenceRecord) → Steps History (add_evidence_row r)
unfolding insert_evidence_row
add_evidence_row-History r =
    Steps-modify (insert_evidence_row r)
      λ s. assumption (Kept-refl s, Extends-append fixed_evidence s.evidence (r ∷ []))

pub add_event-History : (r : CanonicalEvent) → Steps History (add_event r)
unfolding insert_event
add_event-History r =
    Steps-modify (insert_event r)
      λ s. assumption (Kept-refl s, Extends-append fixed_event s.events (r ∷ []))

pub add_flag-History : (r : UncertaintyFlag) → Steps History (add_flag r)
unfolding insert_flag
add_flag-History r =
    Steps-modify (insert_flag r)
      λ s. assumption (Kept-refl s, Extends-append (λ f. f) s.flags (r ∷ []))

pub add_hypothesis-History : (r : Hypothesis) → Steps History (add_hypothesis r)
unfolding insert_hypothesis
add_hypothesis-History r =
    Steps-modify (insert_hypothesis r)
      λ s. assumption (Kept-refl s, Extends-append fixed_hypothesis s.hypotheses (r ∷ []))

pub add_link-History : (r : EvidenceLink) → Steps History (add_link r)
unfolding insert_link
add_link-History r =
    Steps-modify (insert_link r)
      λ s. assumption (Kept-refl s, Extends-append (λ l. l) s.links (r ∷ []))

pub add_impact-History : (r : ImpactAssessment) → Steps History (add_impact r)
unfolding insert_impact
add_impact-History r =
    Steps-modify (insert_impact r)
      λ s. assumption (Kept-refl s, Extends-append (λ i. i) s.impacts (r ∷ []))

pub add_action-History : (r : ActionRequest) → Steps History (add_action r)
unfolding insert_action
add_action-History r =
    Steps-modify (insert_action r)
      λ s. assumption (Kept-refl s, Extends-append fixed_action s.actions (r ∷ []))

pub add_approval-History : (r : Approval) → Steps History (add_approval r)
unfolding insert_approval
add_approval-History r =
    Steps-modify (insert_approval r)
      λ s. assumption (Kept-refl s, Extends-append fixed_approval s.approvals (r ∷ []))

pub add_execution-History : (r : ToolExecution) → Steps History (add_execution r)
unfolding insert_execution
add_execution-History r =
    Steps-modify (insert_execution r)
      λ s. assumption (Kept-refl s, Extends-append fixed_execution s.executions (r ∷ []))

pub set_case-History :
    (key : String) (f : Case → Case)
    → ((r : Case) → fixed_case (f r) ≡ fixed_case r)
    → Steps History (set_case key f)
unfolding assign_case
set_case-History key f h =
    Steps-modify (assign_case key f)
      λ s. assumption (Kept-refl s, Extends-update fixed_case (λ r. r.id == key) f s.cases h)

pub set_evidence_row-History :
    (key : String) (f : EvidenceRecord → EvidenceRecord)
    → ((r : EvidenceRecord) → fixed_evidence (f r) ≡ fixed_evidence r)
    → Steps History (set_evidence_row key f)
unfolding assign_evidence_row
set_evidence_row-History key f h =
    Steps-modify (assign_evidence_row key f)
      λ s. assumption (Kept-refl s, Extends-update fixed_evidence (λ r. r.id == key) f s.evidence h)

pub set_event-History :
    (key : String) (f : CanonicalEvent → CanonicalEvent)
    → ((r : CanonicalEvent) → fixed_event (f r) ≡ fixed_event r)
    → Steps History (set_event key f)
unfolding assign_event
set_event-History key f h =
    Steps-modify (assign_event key f)
      λ s. assumption (Kept-refl s, Extends-update fixed_event (λ r. r.id == key) f s.events h)

pub set_hypothesis-History :
    (key : String) (f : Hypothesis → Hypothesis)
    → ((r : Hypothesis) → fixed_hypothesis (f r) ≡ fixed_hypothesis r)
    → Steps History (set_hypothesis key f)
unfolding assign_hypothesis
set_hypothesis-History key f h = Steps-modify (assign_hypothesis key f) λ s.
    assumption (Kept-refl s, Extends-update fixed_hypothesis (λ r. r.id == key) f s.hypotheses h)

pub set_action-History :
    (key : String) (f : ActionRequest → ActionRequest)
    → ((r : ActionRequest) → fixed_action (f r) ≡ fixed_action r)
    → Steps History (set_action key f)
unfolding assign_action
set_action-History key f h =
    Steps-modify (assign_action key f)
      λ s. assumption (Kept-refl s, Extends-update fixed_action (λ r. r.id == key) f s.actions h)

pub set_approval-History :
    (key : String) (f : Approval → Approval)
    → ((r : Approval) → fixed_approval (f r) ≡ fixed_approval r)
    → Steps History (set_approval key f)
unfolding assign_approval
set_approval-History key f h =
    Steps-modify (assign_approval key f) λ s.
      assumption (Kept-refl s, Extends-update fixed_approval (λ r. r.id == key) f s.approvals h)

pub set_execution-History :
    (key : String) (f : ToolExecution → ToolExecution)
    → ((r : ToolExecution) → fixed_execution (f r) ≡ fixed_execution r)
    → Steps History (set_execution key f)
unfolding assign_execution
set_execution-History key f h = Steps-modify (assign_execution key f) λ s.
    assumption (Kept-refl s, Extends-update fixed_execution (λ r. r.id == key) f s.executions h)
