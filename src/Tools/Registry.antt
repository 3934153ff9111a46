-- ===== src/Tools/Registry.antt =====
-- backend/app/tools/registry.py: which connector handles an action.
use occj.Prelude.{
  ℕ, String, not, ◌&&◌, Option, none, some, List, [], ◌∷◌, is_some, ltb, select, ◌==◌, eq_string,
  fstring, if◌then◌else◌,
}
use occj.Models.Enums.{SourceType, eq_source_type, ActionType, action_type_value, eq_action_type}
use occj.Models.Json.{Json, null, str, get, or_json}
use occj.Models.Rows.{Case, Customer, EvidenceRecord, ActionRequest}
use occj.Session.{Db, M}
use occj.Session.Tables.{find_case, find_customer}
use occj.Env.{Env, freshdesk_configured, freshservice_configured}
use occj.Tools.Base.{Outcome, Context}
use occj.Tools.Mock.{execute_mock, recovery_connector}
use occj.Tools.Freshservice.{execute_freshservice}
use occj.Tools.Freshdesk.{execute_freshdesk}

pub data Connector : Type 0 where
  freshservice freshdesk : Connector
  mock : String → Connector

unfoldable pub connector_name : Connector → String
connector_name freshservice = "freshservice"
connector_name freshdesk = "freshdesk"
connector_name (mock name) = name

-- the newest record of a list: `order_by(occurred_at.desc())`
newest : EvidenceRecord → List EvidenceRecord → EvidenceRecord
newest best [] = best
newest best (e ∷ es) = newest (if ltb best.occurred_at e.occurred_at then e else best) es

abbrev newest_of : List EvidenceRecord → Option EvidenceRecord
unfolding newest
newest_of [] = none
newest_of (e ∷ es) = some (newest e es)

-- the contact that Freshdesk delivered last and that is not superseded
unfoldable pub ticket_evidence : String → Db → Option EvidenceRecord
unfolding newest
ticket_evidence customer_id s = newest_of (
    select
      (λ e.
        e.customer_id == customer_id
        && e.source_type == SourceType.contact_center_record
        && e.provenance_source == "freshdesk"
        && not e.is_superseded)
      s.evidence)

abbrev case_and_then {ℓ} : {A : Type ℓ} → Option Case → (Case → Option A) → Option A
case_and_then none f = none
case_and_then (some c) f = f c

abbrev context_of : Option Case → Option Customer → Json → Context
context_of case customer ticket = record { case = case; customer = customer; ticket_id = ticket }

module _ (env : Env) where
  notify_connector : Option Case → Option Customer → Option EvidenceRecord → Connector × Context
  unfolding freshdesk_configured or_json
  notify_connector case customer ticket =
      if freshdesk_configured env.settings && is_some case
      then elim ticket [
        | none ↦ (mock "mock:notification", context_of case customer null)
        | some e ↦ (
          freshdesk,
          context_of case customer (or_json (get e.payload "ticket_id") (str e.external_ref)),
        )
      ]
      else (mock "mock:notification", context_of case customer null)

  connector_for :
      ActionRequest → Option Case → Option Customer → Option EvidenceRecord → Connector × Context
  unfolding notify_connector freshservice_configured recovery_connector
  connector_for action case customer ticket =
      if action.action_type == ActionType.escalate_itsm
      then (
        if freshservice_configured env.settings then freshservice else mock "mock:itsm",
        context_of case customer null,
      )
      else if action.action_type == ActionType.notify_customer
      then notify_connector case customer ticket
      else if action.action_type == ActionType.execute_recovery
      then (
        mock (recovery_connector (get action.target "option_code")),
        context_of case customer null,
      )
      else (
        mock (fstring ("mock:" ∷ action_type_value action.action_type ∷ [])),
        context_of case customer null,
      )

  unfoldable pub resolve : ActionRequest → Db → Connector × Context
  unfolding connector_for find_case find_customer ticket_evidence
  resolve action s =
      let case = find_case action.case_id s in
      let customer = case_and_then case (λ c. find_customer c.customer_id s) in
      connector_for action case customer (case_and_then case (λ c. ticket_evidence c.customer_id s))

  unfoldable pub execute_connector : Connector → ActionRequest → Context → ℕ → M Outcome
  execute_connector freshservice action context attempt =
      execute_freshservice env action context attempt
  execute_connector freshdesk action context attempt = execute_freshdesk env action context attempt
  execute_connector (mock name) action context attempt = execute_mock env name action attempt
