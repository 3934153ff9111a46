-- ===== src/Api/Cases.antt =====
-- backend/app/api/routers/cases.py and audit.py
use occj.Prelude.{
  ℕ, String, true, Option, none, some, List, [], ◌∷◌, ◌++◌, map, select, any, first, ◌&&◌, ◌==◌,
  eq_string, eq_option,
}
use occj.Models.Enums.{CaseTriggerType, case_status_value, UserRole}
use occj.Models.Rows.{
  Case, Customer, CanonicalEvent, UncertaintyFlag, Hypothesis, EvidenceLink, ImpactAssessment,
  ActionRequest, Approval, AuditEntry,
}
use occj.Session.{Db, M, pure, gets, or_raise, not_found, attribute_error, value_error, ◌>>=◌, ◌>>◌}
use occj.Session.Tables.{find_case, find_customer}
use occj.Env.{Env}
use occj.Reconciliation.Timeline.{sort_by}
use occj.CaseService.{get_or_create_customer, create_case, run_case_cycle, named}
use occj.Replay.{Replay, get_case_audit_trail, replay_case_state}
use occj.Api.Schemas.{
  CustomerOut, CaseOut, CanonicalEventOut, UncertaintyFlagOut, HypothesisOut, ImpactAssessmentOut,
  ActionRequestOut, ApprovalOut, case_out, customer_out, canonical_event_out, uncertainty_flag_out,
  hypothesis_out, impact_assessment_out, action_request_out, with_case_id,
}
use occj.Api.Requests.{Outcome, committing}
use occj.Api.Auth.{Tokens, get_current_user, require_roles}

pub record CaseCreate : Type 0 where
  pub external_customer_id : String
  pub customer_display_name : String
  pub customer_tier : String
  pub customer_email : Option String
  pub customer_phone : Option String
  pub order_id : Option String
  pub summary : Option String

pub record CaseDetailOut : Type 0 where
  pub case : CaseOut
  pub customer : CustomerOut
  pub timeline : List CanonicalEventOut
  pub uncertainty_flags : List UncertaintyFlagOut
  pub hypotheses : List HypothesisOut
  pub latest_impact : Option ImpactAssessmentOut
  pub actions : List ActionRequestOut
  pub approvals : List ApprovalOut

abbrev pub case_workers : List UserRole
case_workers = UserRole.agent ∷ UserRole.supervisor ∷ []

-- rows stand in the order of their creation, so `created_at.desc()` reverses it
unfoldable pub newest_first : {A : Type 0} → List A → List A
newest_first [] = []
newest_first (x ∷ xs) = newest_first xs ++ x ∷ []

-- the first row of `order_by(computed_at.desc())`
unfoldable pub latest_by : {A : Type 0} → (A → ℕ) → List A → Option A
unfolding newest_first sort_by
latest_by time xs = first (λ _. true) (newest_first (sort_by time xs))

-- `_load_case_or_404`
unfoldable pub load_case_or_404 : String → M Case
load_case_or_404 case_id = do found ← gets (find_case case_id); or_raise found not_found

abbrev pub timeline_of : String → Db → List CanonicalEvent
timeline_of key s =
    sort_by (λ e. e.effective_at) (select (λ (e : CanonicalEvent). e.case_id == key) s.events)

abbrev pub flags_of : String → Db → List UncertaintyFlag
flags_of key s =
    sort_by (λ f. f.detected_at) (select (λ (f : UncertaintyFlag). f.case_id == key) s.flags)

abbrev pub hypotheses_of : String → Db → List HypothesisOut
hypotheses_of key s =
    map
      (λ (h : Hypothesis).
        hypothesis_out (select (λ (l : EvidenceLink). l.hypothesis_id == h.id) s.links) h)
      (newest_first (select (λ (h : Hypothesis). h.case_id == key) s.hypotheses))

-- the latest assessment of the case's primary hypothesis, if it names one
abbrev pub latest_impact_of : Option String → Db → Option ImpactAssessmentOut
latest_impact_of none s = none
latest_impact_of (some key) s =
    elim (latest_by (λ i. i.computed_at)
      (select (λ (i : ImpactAssessment). i.hypothesis_id == some key) s.impacts)) [
        | none ↦ none
        | some i ↦ some (impact_assessment_out i)
      ]

abbrev pub actions_of : String → Db → List ActionRequest
actions_of key s = select (λ (a : ActionRequest). a.case_id == key) s.actions

-- the approvals that join with a request of the case
abbrev pub approvals_of : String → Db → List Approval
approvals_of key s =
    select
      (λ (p : Approval).
        any (λ (a : ActionRequest). p.action_request_id == a.id && a.case_id == key) s.actions)
      s.approvals

-- the response of `get_case`, from what it reads of the session
unfoldable pub details : Case → Db → Customer → CaseDetailOut
unfolding newest_first latest_by sort_by
details case s customer = record {
  case = case_out case;
  customer = customer_out customer;
  timeline = map canonical_event_out (timeline_of case.id s);
  uncertainty_flags = map uncertainty_flag_out (flags_of case.id s);
  hypotheses = hypotheses_of case.id s;
  latest_impact = latest_impact_of (named case.primary_hypothesis_id) s;
  actions = map action_request_out (actions_of case.id s);
  approvals = map (λ p. with_case_id p (some case.id)) (approvals_of case.id s);
}

module _ (tokens : Tokens) (env : Env) where
  unfoldable pub list_cases : Option String → String → M (List Case)
  unfolding newest_first get_current_user
  list_cases status_filter token = do
    user ← get_current_user tokens token
    gets (λ s. newest_first (elim (named status_filter) [
      | none ↦ s.cases
      | some text ↦ select (λ (c : Case). case_status_value c.status == text) s.cases
    ]))

  -- `open_case`, up to its commit
  unfoldable pub opening_case : String → CaseCreate → M Case
  unfolding require_roles
  opening_case token body = do
    user ← require_roles tokens case_workers token
    customer ← get_or_create_customer env (record {
      external_customer_id = body.external_customer_id;
      display_name = body.customer_display_name;
      tier = body.customer_tier;
      email = body.customer_email;
      phone = body.customer_phone;
    })
    case ← create_case env (record {
      customer_id = customer.id;
      trigger_type = CaseTriggerType.manual;
      opened_by_user_id = some user.id;
      order_id = body.order_id;
      summary = body.summary;
    })
    run_case_cycle env case.id
    refreshed ← gets (find_case case.id)
    or_raise refreshed attribute_error

  unfoldable pub open_case : String → CaseCreate → Db → Outcome Case
  unfolding opening_case
  open_case token body = committing (opening_case token body)

  unfoldable pub get_case : String → String → M CaseDetailOut
  unfolding get_current_user load_case_or_404 details
  get_case case_id token = do
    user ← get_current_user tokens token
    case ← load_case_or_404 case_id
    owner ← gets (find_customer case.customer_id)
    read ← gets (details case)
    customer ← or_raise owner value_error
    pure (read customer)

  -- `advance`, up to its commit
  unfoldable pub advancing_case : String → String → M (List ActionRequest)
  unfolding require_roles load_case_or_404
  advancing_case token case_id = do
    user ← require_roles tokens case_workers token
    case ← load_case_or_404 case_id
    run_case_cycle env case.id

  unfoldable pub advance : String → String → Db → Outcome (List ActionRequest)
  unfolding advancing_case
  advance token case_id = committing (advancing_case token case_id)

  unfoldable pub audit_trail : String → Option ℕ → String → M (List AuditEntry)
  unfolding get_current_user load_case_or_404
  audit_trail case_id as_of token = do
    user ← get_current_user tokens token
    load_case_or_404 case_id
    gets (get_case_audit_trail case_id as_of)

  unfoldable pub replay : String → Option ℕ → String → M Replay
  unfolding get_current_user load_case_or_404
  replay case_id as_of token = do
    user ← get_current_user tokens token
    load_case_or_404 case_id
    replayed ← gets (replay_case_state case_id as_of)
    or_raise replayed value_error
