-- ===== src/Frame/Service.antt =====
-- The connectors, the executor and the case service, for every relation of the frame.
use occj.Prelude.{
  ◌≡◌, refl, Bool, true, false, if◌then◌else◌, ℕ, zero, suc, String, Option, none, some, List, [],
  ◌∷◌,
}
use occj.Models.Enums.{ActionStatus}
use occj.Models.Rows.{Customer, ActionRequest}
use occj.Session.{M}
use occj.Session.Steps.{Relation, Steps, Steps-pure, Steps-bind, Steps-if, Steps-on_option}
use occj.Frame.{Frame, runnable, frame_rules}
use occj.Env.{Env, Http, answered, http_error, hangs}
use occj.Tools.Base.{Surfaced, ToolResult, Context, on_http}
use occj.Tools.Mock.{short_ref, default_result, execute_mock}
use occj.Tools.Freshservice.{raise_incident, execute_freshservice}
use occj.Tools.Freshdesk.{execute_freshdesk}
use occj.Tools.Registry.{Connector, freshservice, freshdesk, mock, execute_connector}
use occj.Tools.Executor.{
  attempt_once, attempts, ingest_surfaced, absorb, fail, settle, conclude, run_connector,
  execute_action,
}
use occj.CaseService.{
  NewCustomer, NewCase, get_or_create_customer, create_case, advance_case, drive, run_case_cycle,
}
use occj.Frame.Basics.{ingest_evidence-Steps}
use occj.Frame.Engine.{reconcile_case-Steps, generate-Steps}
use occj.Frame.Actions.{decide-Steps}

Steps-on_http :
    {R : Relation} {A B : Type 0} (c : Http A) (m : M B) (f : String → M B) (g : A → M B)
    → Steps R m
    → ((e : String) → Steps R (f e))
    → ((a : A) → Steps R (g a))
    → Steps R (on_http c m f g)
Steps-on_http hangs m f g hm hf hg = hm
Steps-on_http (http_error e) m f g hm hf hg = hf e
Steps-on_http (answered a) m f g hm hf hg = hg a

runnable-reviewed :
    (b : Bool)
    → runnable (if b then ActionStatus.needs_manual_review else ActionStatus.succeeded) ≡ false
runnable-reviewed true = refl
runnable-reviewed false = refl

module _ (env : Env) {R : Relation} {may : String → Type 0} (fr : Frame env R may) where
  short_ref-Steps : Steps R (short_ref env)
  unfolding short_ref
  short_ref-Steps = search frame_rules depth 24

  default_result-Steps : (name : String) (a : ActionRequest) → Steps R (default_result env name a)
  unfolding default_result
  default_result-Steps name a = search frame_rules depth 24

  execute_mock-Steps :
      (name : String) (a : ActionRequest) (n : ℕ) → Steps R (execute_mock env name a n)
  unfolding execute_mock
  execute_mock-Steps name a n = search (frame_rules, default_result-Steps) depth 24

  raise_incident-Steps :
      (a : ActionRequest) (c : Context) (n : ℕ) (category : String)
      → Steps R (raise_incident env a c n category)
  unfolding raise_incident
  raise_incident-Steps a c n category = search (frame_rules, Steps-on_http) depth 24

  execute_freshservice-Steps :
      (a : ActionRequest) (c : Context) (n : ℕ) → Steps R (execute_freshservice env a c n)
  unfolding execute_freshservice
  execute_freshservice-Steps a c n =
      search (frame_rules, Steps-on_http, raise_incident-Steps) depth 24

  execute_freshdesk-Steps :
      (a : ActionRequest) (c : Context) (n : ℕ) → Steps R (execute_freshdesk env a c n)
  unfolding execute_freshdesk
  execute_freshdesk-Steps a c n = search (frame_rules, Steps-on_http) depth 24

  execute_connector-Steps :
      (k : Connector) (a : ActionRequest) (c : Context) (n : ℕ)
      → Steps R (execute_connector env k a c n)
  unfolding execute_connector
  execute_connector-Steps freshservice a c n = execute_freshservice-Steps a c n
  execute_connector-Steps freshdesk a c n = execute_freshdesk-Steps a c n
  execute_connector-Steps (mock name) a c n = execute_mock-Steps name a n

  attempt_once-Steps :
      (a : ActionRequest) (k : Connector) (c : Context) (n : ℕ)
      → may a.id
      → Steps R (attempt_once env a k c n)
  unfolding attempt_once
  attempt_once-Steps a k c n h = search (frame_rules, execute_connector-Steps) depth 24

  attempts-Steps :
      (a : ActionRequest) (k : Connector) (c : Context) (ns : List ℕ) (r : Option ToolResult)
      (e : Option String)
      → may a.id
      → Steps R (attempts env a k c ns r e)
  unfolding attempts
  attempts-Steps a k c [] r e h = Steps-pure (r, e)
  attempts-Steps a k c (n ∷ ns) r e h =
      Steps-bind _ _ (attempt_once-Steps a k c n h)
        λ o. Steps-if _ _ _ (Steps-pure _) (attempts-Steps a k c ns _ _ h)

  ingest_surfaced-Steps : (c : Option Customer) (e : Surfaced) → Steps R (ingest_surfaced env c e)
  unfolding ingest_surfaced
  ingest_surfaced-Steps c e = search (frame_rules, ingest_evidence-Steps env fr) depth 24

  absorb-Steps : (a : ActionRequest) (c : Context) (r : ToolResult) → Steps R (absorb env a c r)
  unfolding absorb
  absorb-Steps a c r =
      search (frame_rules, ingest_surfaced-Steps, reconcile_case-Steps env fr, runnable-reviewed)
        depth 24

  fail-Steps : (a : ActionRequest) → Steps R (fail env a)
  unfolding fail
  fail-Steps a = search frame_rules depth 24

  settle-Steps :
      (a : ActionRequest) (c : Context) (r : Option ToolResult) → Steps R (settle env a c r)
  unfolding settle
  settle-Steps a c none = fail-Steps a
  settle-Steps a c (some r) = search (frame_rules, absorb-Steps, fail-Steps) depth 24

  conclude-Steps :
      (a : ActionRequest) (k : Connector) (e : Option String) → Steps R (conclude env a k e)
  unfolding conclude
  conclude-Steps a k e = search frame_rules depth 24

  run_connector-Steps :
      (a : ActionRequest) (k : Connector) (c : Context)
      → may a.id
      → Steps R (run_connector env a k c)
  unfolding run_connector
  run_connector-Steps a k c h =
      search (frame_rules, attempts-Steps, settle-Steps, conclude-Steps) depth 24

  pub execute_action-Steps : (a : ActionRequest) → may a.id → Steps R (execute_action env a)
  unfolding execute_action
  execute_action-Steps a h = search (frame_rules, run_connector-Steps) depth 24

  pub get_or_create_customer-Steps : (n : NewCustomer) → Steps R (get_or_create_customer env n)
  unfolding get_or_create_customer
  get_or_create_customer-Steps n = search frame_rules depth 24

  pub create_case-Steps : (n : NewCase) → Steps R (create_case env n)
  unfolding create_case
  create_case-Steps n = search frame_rules depth 24

  pub advance_case-Steps :
      ((key : String) → may key) → (case_id : String) → Steps R (advance_case env case_id)
  unfolding advance_case
  advance_case-Steps h case_id =
      search (frame_rules, decide-Steps env fr, execute_action-Steps) depth 24

  -- A cycle respects what its rounds respect, however that is shown.
  module _ (advances : (case_id : String) → Steps R (advance_case env case_id)) where
    drive-Steps :
        (n : ℕ) (case_id : String) (taken : List ActionRequest)
        → Steps R (drive env n case_id taken)
    unfolding drive
    drive-Steps zero case_id taken = Steps-pure taken
    drive-Steps (suc n) case_id taken = Steps-bind _ _ (advances case_id) λ o.
        Steps-on_option o _ _ (Steps-pure taken)
          λ a. Steps-if _ _ _ (Steps-pure _) (drive-Steps n case_id _)

    pub run_case_cycle-Steps : (case_id : String) → Steps R (run_case_cycle env case_id)
    unfolding run_case_cycle
    run_case_cycle-Steps case_id =
        search (frame_rules, reconcile_case-Steps env fr, generate-Steps env fr, drive-Steps) depth
          24
