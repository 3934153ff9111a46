-- ===== src/Session/History.antt =====
-- The rows of a session before and after, in their order, and the columns that may change.
use occj.Prelude.{
  ◌≡◌, refl, sym, ap, ◌∷◌, ◌∙◌, Bool, none, List, [], ◌++◌, map, append-nil, append_assoc,
  map-append, update, map-update, eq_string,
}
use occj.Models.Float.{f0}
use occj.Models.Json.{end}
use occj.Models.Enums.{
  ActionStatus, ApprovalStatus, CaseStatus, JourneyStage, HypothesisStatus, ToolExecutionStatus,
}
use occj.Models.Rows.{
  Customer, Case, EvidenceRecord, CanonicalEvent, UncertaintyFlag, Hypothesis, EvidenceLink,
  ImpactAssessment, ActionRequest, Approval, ToolExecution, AuditEntry,
}
use occj.Session.{Db}
use occj.Session.Steps.{Relation}

-- `ys` is `xs` with rows behind it, as far as `f` shows them.
abbrev pub Extends {ℓ κ} : {A : Type ℓ} {B : Type κ} → (A → B) → List A → List A → Type κ
Extends {B} f xs ys = (l : List B) × (map f ys ≡ map f xs ++ l)

module _ {ℓ κ} {A : Type ℓ} {B : Type κ} (f : A → B) where
  pub Extends-refl : (xs : List A) → Extends f xs xs
  Extends-refl xs = ([], sym (append-nil (map f xs)))

  pub Extends-trans : (xs ys zs : List A) → Extends f xs ys → Extends f ys zs → Extends f xs zs
  Extends-trans xs ys zs (l, p) (k, q) = (l ++ k, rw (q, p) (append_assoc (map f xs) l k))

  pub Extends-append : (xs ys : List A) → Extends f xs (xs ++ ys)
  Extends-append xs ys = (map f ys, map-append f xs ys)

  pub Extends-update :
      (p : A → Bool) (g : A → A) (xs : List A)
      → ((x : A) → f (g x) ≡ f x)
      → Extends f xs (update p g xs)
  Extends-update p g xs h = ([], map-update f p g xs h ∙ sym (append-nil (map f xs)))

map_same : {A : Type 0} (xs : List A) → map (λ x. x) xs ≡ xs
map_same [] = refl
map_same (x ∷ xs) = ap (λ ys. x ∷ ys) (map_same xs)

-- rows that never change are there with more behind them
pub Extends-same :
    {A : Type 0} (xs ys : List A) → Extends (λ x. x) xs ys → (l : List A) × (ys ≡ xs ++ l)
Extends-same xs ys (l, p) = (l, sym (map_same ys) ∙ p ∙ ap (λ zs. zs ++ l) (map_same xs))

-- The columns of a row that are written once.
abbrev pub fixed_evidence : EvidenceRecord → EvidenceRecord
fixed_evidence r = record r { is_superseded = Bool.false }

abbrev pub fixed_event : CanonicalEvent → CanonicalEvent
fixed_event e = record e { evidence_record_id = ""; effective_at = 0; summary = "" }

abbrev pub fixed_hypothesis : Hypothesis → Hypothesis
fixed_hypothesis h = record h { confidence = f0; status = HypothesisStatus.active }

abbrev pub fixed_action : ActionRequest → ActionRequest
fixed_action a = record a { status = ActionStatus.proposed; decided_at = none }

abbrev pub fixed_approval : Approval → Approval
fixed_approval a = record a {
  status = ApprovalStatus.pending;
  decided_by_user_id = none;
  decided_at = none;
  decision_note = none;
}

abbrev pub fixed_execution : ToolExecution → ToolExecution
fixed_execution x = record x {
  status = ToolExecutionStatus.pending;
  response_payload = end;
  error_message = none;
  finished_at = none;
}

abbrev pub fixed_case : Case → Case
fixed_case c = record c {
  status = CaseStatus.open_;
  stage = JourneyStage.issue_reported;
  last_activity_at = 0;
  needs_reevaluation = Bool.false;
  primary_hypothesis_id = none;
  closed_at = none;
  closure_summary = none;
}

pub record Kept (s t : Db) : Type 0 where
  pub audit : Extends {B = AuditEntry} (λ e. e) s.audit t.audit
  pub evidence : Extends fixed_evidence s.evidence t.evidence
  pub events : Extends fixed_event s.events t.events
  pub flags : Extends {B = UncertaintyFlag} (λ f. f) s.flags t.flags
  pub hypotheses : Extends fixed_hypothesis s.hypotheses t.hypotheses
  pub links : Extends {B = EvidenceLink} (λ l. l) s.links t.links
  pub impacts : Extends {B = ImpactAssessment} (λ i. i) s.impacts t.impacts
  pub actions : Extends fixed_action s.actions t.actions
  pub approvals : Extends fixed_approval s.approvals t.approvals
  pub executions : Extends fixed_execution s.executions t.executions
  pub cases : Extends fixed_case s.cases t.cases
  pub customers : Extends {B = Customer} (λ c. c) s.customers t.customers
  pub users : t.users ≡ s.users

pub Kept-refl : (s : Db) → Kept s s
Kept-refl s = record {
  audit = Extends-refl (λ e. e) s.audit;
  evidence = Extends-refl fixed_evidence s.evidence;
  events = Extends-refl fixed_event s.events;
  flags = Extends-refl (λ f. f) s.flags;
  hypotheses = Extends-refl fixed_hypothesis s.hypotheses;
  links = Extends-refl (λ l. l) s.links;
  impacts = Extends-refl (λ i. i) s.impacts;
  actions = Extends-refl fixed_action s.actions;
  approvals = Extends-refl fixed_approval s.approvals;
  executions = Extends-refl fixed_execution s.executions;
  cases = Extends-refl fixed_case s.cases;
  customers = Extends-refl (λ c. c) s.customers;
  users = refl;
}

pub Kept-trans : (s t u : Db) → Kept s t → Kept t u → Kept s u
Kept-trans s t u h k = record {
  audit = Extends-trans (λ e. e) s.audit t.audit u.audit h.audit k.audit;
  evidence = Extends-trans fixed_evidence s.evidence t.evidence u.evidence h.evidence k.evidence;
  events = Extends-trans fixed_event s.events t.events u.events h.events k.events;
  flags = Extends-trans (λ f. f) s.flags t.flags u.flags h.flags k.flags;
  hypotheses =
      Extends-trans fixed_hypothesis s.hypotheses t.hypotheses u.hypotheses h.hypotheses
        k.hypotheses;
  links = Extends-trans (λ l. l) s.links t.links u.links h.links k.links;
  impacts = Extends-trans (λ i. i) s.impacts t.impacts u.impacts h.impacts k.impacts;
  actions = Extends-trans fixed_action s.actions t.actions u.actions h.actions k.actions;
  approvals =
      Extends-trans fixed_approval s.approvals t.approvals u.approvals h.approvals k.approvals;
  executions =
      Extends-trans fixed_execution s.executions t.executions u.executions h.executions
        k.executions;
  cases = Extends-trans fixed_case s.cases t.cases u.cases h.cases k.cases;
  customers = Extends-trans (λ c. c) s.customers t.customers u.customers h.customers k.customers;
  users = k.users ∙ h.users;
}

abbrev pub History : Relation
History = record { rel = Kept; reflexive = Kept-refl; transitive = Kept-trans }
