-- ===== src/Tools/Freshservice.antt =====
-- backend/app/tools/connectors/freshservice.py: find an incident that fits, or raise one.
use text.Mathlib.Text.{find?}
use Prim.Native.String
use occj.Prelude.{
  ℕ, ◌-◌, String, Bool, not, if◌then◌else◌, ◌&&◌, Option, none, some, [], ◌∷◌, any, first, is_some,
  ltb, fstring,
}
use occj.Models.Enums.{SourceType}
use occj.Models.Json.{Json, Fields, has_key, str, field, end, arr, nil, get, get_or}
use occj.Models.Rows.{ActionRequest}
use occj.Session.{M, pure, utcnow, on_option, ◌>>=◌}
use occj.Env.{Env, show_json}
use occj.Reconciliation.Rules.{hours}
use occj.Tools.Base.{
  succeeds, fails, Outcome, returned, timed_out, raised, on_http, Context, case_order,
}

module _ (env : Env) where
  -- `_looks_correlated`: a word of more than three letters of the category occurs in the ticket
  unfoldable pub looks_correlated : String → Fields → Bool
  looks_correlated category ticket =
      let haystack = env.lower (
        fstring (
          show_json env (get_or ticket "subject" (str ""))
          ∷ " "
          ∷ show_json env (get_or ticket "description_text" (str ""))
          ∷ [])) in
      any (λ kw. ltb 3 (String.count kw) && is_some (find? haystack kw)) (env.words category)

  -- the incident that fits, as evidence; a time that does not parse raises
  -- the surfaced incident of a ticket that has both keys
  abbrev incident_result : Context → Fields → Outcome
  incident_result context ticket = elim (parse_text (get ticket "created_at")) [
    | none ↦ raised "Invalid isoformat string"
    | some created ↦ returned (
        succeeds
          (field "correlated_incident_id" (get ticket "id")
            (field "subject" (get ticket "subject") end))
          (record {
            source_type = SourceType.itsm_incident;
            provenance_source = "freshservice";
            external_ref = show_json env (get ticket "id");
            occurred_at = created;
            order_id = case_order context.case;
            payload = field "status" (get_or ticket "status_name" (str "open")) (
                field "title" (get_or ticket "subject" (str "")) (
                  field "severity" (get_or ticket "priority_name" (str "medium"))
                    (field "affected_systems" (arr nil) end)));
          }
            ∷ []))
  ]
    where
      parse_text : Json → Option ℕ
      parse_text (str s) = env.parse_time s
      parse_text v = none

  created_result : Context → String → ℕ → Fields → Outcome
  created_result context category now ticket = returned (
      succeeds (field "created_incident_id" (get ticket "id") end) (
        record {
          source_type = SourceType.itsm_incident;
          provenance_source = "freshservice";
          external_ref = show_json env (get ticket "id");
          occurred_at = now;
          order_id = case_order context.case;
          payload = field "status" (str "investigating") (
              field "title" (str (fstring ("Possible systemic issue: " ∷ category ∷ [])))
                (field "severity" (str "medium") (field "affected_systems" (arr nil) end)));
        }
        ∷ []))

  failed_call : String → Outcome
  failed_call message = returned (fails (fstring ("Freshservice call failed: " ∷ message ∷ [])))

  unfoldable pub raise_incident : ActionRequest → Context → ℕ → String → M Outcome
  unfolding created_result failed_call
  raise_incident action context attempt category =
      let subject = fstring ("Possible systemic issue: " ∷ category ∷ []) in
      on_http (env.services.create_incident attempt subject action.rationale) (pure timed_out)
        (λ e. pure (failed_call e))
        (λ ticket. do now ← utcnow env.supply; pure (created_result context category now ticket))

  -- `correlated["id"]` is read before `correlated["created_at"]`, and each raises on a missing key
  correlated_result : Context → Fields → Outcome
  correlated_result context ticket =
      if not (has_key ticket "id")
      then raised "'id'"
      else if not (has_key ticket "created_at")
      then raised "'created_at'"
      else incident_result context ticket

  -- `FreshserviceConnector.execute`
  unfoldable pub execute_freshservice : ActionRequest → Context → ℕ → M Outcome
  unfolding looks_correlated correlated_result raise_incident failed_call
  execute_freshservice action context attempt = do
    let category = show_json env (get_or action.target "category" (str "unknown"))
    now ← utcnow env.supply
    on_http (env.services.list_incidents (now - hours 48)) (pure timed_out)
        (λ e. pure (failed_call e))
        (λ tickets.
          on_option (first (looks_correlated category) tickets)
            (raise_incident action context attempt category)
            (λ ticket. pure (correlated_result context ticket)))
