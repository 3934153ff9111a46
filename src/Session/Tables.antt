-- ===== src/Session/Tables.antt =====
-- The tables of a session: the row of a key (`session.get`), `session.add`, and assignments to the
-- attributes of the object of a key. An object that the source holds is its row's key here, so
-- what one part writes another part reads.
use occj.Prelude.{String, Option, [], ◌∷◌, ◌++◌, first, update, ◌==◌, eq_string}
use occj.Models.Rows.{
  User, Customer, Case, EvidenceRecord, CanonicalEvent, UncertaintyFlag, Hypothesis, EvidenceLink,
  ImpactAssessment, ActionRequest, Approval, ToolExecution,
}
use occj.Session.{Db, M, gets, or_raise, modify, attribute_error, ◌>>=◌}

unfoldable pub insert_customer : Customer → Db → Db
insert_customer r s = record s { customers = s.customers ++ r ∷ [] }

abbrev pub add_customer : Customer → M Unit
add_customer r = modify (insert_customer r)

unfoldable pub insert_case : Case → Db → Db
insert_case r s = record s { cases = s.cases ++ r ∷ [] }

abbrev pub add_case : Case → M Unit
add_case r = modify (insert_case r)

unfoldable pub insert_evidence_row : EvidenceRecord → Db → Db
insert_evidence_row r s = record s { evidence = s.evidence ++ r ∷ [] }

abbrev pub add_evidence_row : EvidenceRecord → M Unit
add_evidence_row r = modify (insert_evidence_row r)

unfoldable pub insert_event : CanonicalEvent → Db → Db
insert_event r s = record s { events = s.events ++ r ∷ [] }

abbrev pub add_event : CanonicalEvent → M Unit
add_event r = modify (insert_event r)

unfoldable pub insert_flag : UncertaintyFlag → Db → Db
insert_flag r s = record s { flags = s.flags ++ r ∷ [] }

abbrev pub add_flag : UncertaintyFlag → M Unit
add_flag r = modify (insert_flag r)

unfoldable pub insert_hypothesis : Hypothesis → Db → Db
insert_hypothesis r s = record s { hypotheses = s.hypotheses ++ r ∷ [] }

abbrev pub add_hypothesis : Hypothesis → M Unit
add_hypothesis r = modify (insert_hypothesis r)

unfoldable pub insert_link : EvidenceLink → Db → Db
insert_link r s = record s { links = s.links ++ r ∷ [] }

abbrev pub add_link : EvidenceLink → M Unit
add_link r = modify (insert_link r)

unfoldable pub insert_impact : ImpactAssessment → Db → Db
insert_impact r s = record s { impacts = s.impacts ++ r ∷ [] }

abbrev pub add_impact : ImpactAssessment → M Unit
add_impact r = modify (insert_impact r)

unfoldable pub insert_action : ActionRequest → Db → Db
insert_action r s = record s { actions = s.actions ++ r ∷ [] }

abbrev pub add_action : ActionRequest → M Unit
add_action r = modify (insert_action r)

unfoldable pub insert_approval : Approval → Db → Db
insert_approval r s = record s { approvals = s.approvals ++ r ∷ [] }

abbrev pub add_approval : Approval → M Unit
add_approval r = modify (insert_approval r)

unfoldable pub insert_execution : ToolExecution → Db → Db
insert_execution r s = record s { executions = s.executions ++ r ∷ [] }

abbrev pub add_execution : ToolExecution → M Unit
add_execution r = modify (insert_execution r)

unfoldable pub assign_case : String → (Case → Case) → Db → Db
assign_case key f s = record s { cases = update (λ r. r.id == key) f s.cases }

abbrev pub set_case : String → (Case → Case) → M Unit
set_case key f = modify (assign_case key f)

unfoldable pub assign_evidence_row : String → (EvidenceRecord → EvidenceRecord) → Db → Db
assign_evidence_row key f s = record s { evidence = update (λ r. r.id == key) f s.evidence }

abbrev pub set_evidence_row : String → (EvidenceRecord → EvidenceRecord) → M Unit
set_evidence_row key f = modify (assign_evidence_row key f)

unfoldable pub assign_event : String → (CanonicalEvent → CanonicalEvent) → Db → Db
assign_event key f s = record s { events = update (λ r. r.id == key) f s.events }

abbrev pub set_event : String → (CanonicalEvent → CanonicalEvent) → M Unit
set_event key f = modify (assign_event key f)

unfoldable pub assign_hypothesis : String → (Hypothesis → Hypothesis) → Db → Db
assign_hypothesis key f s = record s { hypotheses = update (λ r. r.id == key) f s.hypotheses }

abbrev pub set_hypothesis : String → (Hypothesis → Hypothesis) → M Unit
set_hypothesis key f = modify (assign_hypothesis key f)

unfoldable pub assign_action : String → (ActionRequest → ActionRequest) → Db → Db
assign_action key f s = record s { actions = update (λ r. r.id == key) f s.actions }

abbrev pub set_action : String → (ActionRequest → ActionRequest) → M Unit
set_action key f = modify (assign_action key f)

unfoldable pub assign_approval : String → (Approval → Approval) → Db → Db
assign_approval key f s = record s { approvals = update (λ r. r.id == key) f s.approvals }

abbrev pub set_approval : String → (Approval → Approval) → M Unit
set_approval key f = modify (assign_approval key f)

unfoldable pub assign_execution : String → (ToolExecution → ToolExecution) → Db → Db
assign_execution key f s = record s { executions = update (λ r. r.id == key) f s.executions }

abbrev pub set_execution : String → (ToolExecution → ToolExecution) → M Unit
set_execution key f = modify (assign_execution key f)

unfoldable pub find_user : String → Db → Option User
find_user key s = first (λ r. r.id == key) s.users

unfoldable pub find_customer : String → Db → Option Customer
find_customer key s = first (λ r. r.id == key) s.customers

unfoldable pub find_case : String → Db → Option Case
find_case key s = first (λ r. r.id == key) s.cases

unfoldable pub find_evidence_row : String → Db → Option EvidenceRecord
find_evidence_row key s = first (λ r. r.id == key) s.evidence

unfoldable pub find_hypothesis : String → Db → Option Hypothesis
find_hypothesis key s = first (λ r. r.id == key) s.hypotheses

unfoldable pub find_action : String → Db → Option ActionRequest
find_action key s = first (λ r. r.id == key) s.actions

unfoldable pub find_approval : String → Db → Option Approval
find_approval key s = first (λ r. r.id == key) s.approvals

unfoldable pub find_execution : String → Db → Option ToolExecution
find_execution key s = first (λ r. r.id == key) s.executions

-- The object of a case that the caller holds.
abbrev pub the_case : String → M Case
the_case key = do found ← gets (find_case key); or_raise found attribute_error

abbrev pub the_action : String → M ActionRequest
the_action key = do found ← gets (find_action key); or_raise found attribute_error

abbrev pub the_hypothesis : String → M Hypothesis
the_hypothesis key = do found ← gets (find_hypothesis key); or_raise found attribute_error
