-- ===== src/Tools/Mock.antt =====
-- backend/app/tools/connectors/mock_generic.py: connectors with failures on demand.
use Prim.Native.String
use occj.Prelude.{
  ℕ, String, Bool, true, ◌&&◌, none, some, List, [], ◌∷◌, nat_eq, ◌==◌, eq_string, fstring,
  if◌then◌else◌,
}
use occj.Models.Enums.{SourceType}
use occj.Models.Json.{Json, bool, int, str, field, end, arr, nil, get, get_or, is_str}
use occj.Models.Rows.{ActionRequest}
use occj.Session.{M, pure, new_id, utcnow, ◌>>=◌}
use occj.Env.{Env, show_json}
use occj.Tools.Base.{ToolResult, succeeds, fails, Outcome, returned, timed_out}

module _ (env : Env) where
  -- `uuid.uuid4().hex[:12]`
  unfoldable pub short_ref : M String
  short_ref = do key ← new_id env.supply; pure (String.slice key 0 12)

  itsm_result : ActionRequest → String → ℕ → ToolResult
  itsm_result action ref now =
      let incident = fstring ("MOCK-INC-" ∷ env.upper (String.slice ref 0 6) ∷ []) in
      succeeds (field "incident_ref" (str incident) (field "correlated" (bool Bool.false) end)) (
        record {
          source_type = SourceType.itsm_incident;
          provenance_source = "mock:itsm";
          external_ref = incident;
          occurred_at = now;
          order_id = none;
          payload = field "status" (str "investigating") (
              field "title"
                (str (
                  fstring (
                    "Possible systemic issue: "
                    ∷ show_json env (get_or action.target "category" (str "unknown"))
                    ∷ [])))
                (field "severity" (str "medium") (field "affected_systems" (arr nil) end)));
        }
        ∷ [])

  -- `_default_result`
  unfoldable pub default_result : String → ActionRequest → M ToolResult
  unfolding short_ref itsm_result
  default_result name action = do
    ref ← short_ref
    if name == "mock:payments"
        then pure (
            succeeds
              (field "transaction_ref" (str ref)
                (field "amount_usd" (get_or action.target "estimated_cost_usd" (int 0)) end))
              [])
        else if name == "mock:fulfillment"
        then pure (
            succeeds
              (field "shipment_ref" (str ref)
                (field "carrier" (str "MockCarrier Express") (field "eta_days" (int 2) end)))
              [])
        else if name == "mock:oms"
        then pure (succeeds (field "adjustment_ref" (str ref) end) [])
        else if name == "mock:crm"
        then pure (succeeds (field "gesture_ref" (str ref) end) [])
        else if name == "mock:notification"
        then pure (
            succeeds
              (field "message_ref" (str ref)
                (field "channel" (str "email") (field "sent" (bool true) end)))
              [])
        else if name == "mock:itsm"
        then (do now ← utcnow env.supply; pure (itsm_result action ref now))
        else pure (
            succeeds
              (field "ref" (str ref) (field "option_code" (get action.target "option_code") end))
              [])

  -- `MockConnector.execute`; the sleep of a simulated timeout is longer than the executor waits
  unfoldable pub execute_mock : String → ActionRequest → ℕ → M Outcome
  unfolding default_result
  execute_mock name action attempt =
      let simulate = get action.target "_simulate" in
      if is_str simulate "timeout"
      then pure timed_out
      else if is_str simulate "fail_then_succeed" && nat_eq attempt 1
      then pure (returned (fails "Simulated transient upstream 503"))
      else if is_str simulate "partial_failure"
      then (do
        ref ← short_ref
        pure (
            returned
              (record (succeeds
                (field "primary_effect" (str "completed") (field "reference" (str ref) end)) []) {
                  needs_manual_review = true;
                  error_message = some "Confirmation notification to the customer failed to send";
                })))
      else (do result ← default_result name action; pure (returned result))

-- `RECOVERY_CONNECTOR_MAP.get(option_code, "mock:generic")`
abbrev in_codes : Json → List String → Bool
in_codes v [] = Bool.false
in_codes v (c ∷ cs) = let rest = in_codes v cs in if is_str v c then true else rest

unfoldable pub recovery_connector : Json → String
recovery_connector code =
    if in_codes code (
      "reverse_duplicate_charge" ∷ "full_refund" ∷ "issue_outstanding_refund" ∷ "goodwill_credit"
      ∷ [])
    then "mock:payments"
    else if in_codes code
        ("expedited_reshipment" ∷ "replacement_order" ∷ "reroute_or_reattempt_delivery" ∷ [])
    then "mock:fulfillment"
    else if in_codes code ("price_adjustment" ∷ "manual_reconciliation_credit" ∷ [])
    then "mock:oms"
    else if in_codes code ("exceptional_remedy" ∷ [])
    then "mock:crm"
    else if in_codes code ("apology_status_update" ∷ [])
    then "mock:notification"
    else "mock:generic"
