-- ===== src/Tools/Tickets.antt =====
-- backend/app/tools/connectors/freshdesk.py: a customer's tickets, and what a ticket is as evidence.
use occj.Prelude.{ℕ, zero, suc, String, Bool, not, ◌||◌, Option, none, some, List, if◌then◌else◌}
use occj.Models.Enums.{SourceType}
use occj.Models.Json.{
  Json, Items, Fields, int, str, arr, nil, cons, field, end, get, get_or, has_key, or_json, eq_json,
}
use occj.Session.{M, pure, raise, or_raise, not_configured, value_error, ◌>>=◌}
use occj.Env.{Env, Http, freshdesk_configured, show_json}
use occj.Tools.Base.{Surfaced}
use occj.Reconciliation.Grouping.{hashable}

-- `text[:n]`
unfoldable pub take_text : ℕ → String → String
take_text zero s = ""
take_text (suc n) String.[] = ""
take_text (suc n) (String.◌∷◌ c s) = String.◌∷◌ c (take_text n s)

take_items : ℕ → Items → Items
take_items zero vs = nil
take_items (suc n) nil = nil
take_items (suc n) (cons v vs) = cons v (take_items n vs)

-- `v[:n]`, which a text and a list have
unfoldable pub slice : ℕ → Json → Option Json
unfolding take_text take_items
slice n (str s) = some (str (take_text n s))
slice n (arr vs) = some (arr (take_items n vs))
slice n v = none

-- `ticket[key]`
abbrev pub item : Fields → String → Option Json
item ticket key = if has_key ticket key then some (get ticket key) else none

module _ (env : Env) where
  -- the answer of the API, unless the service is not configured
  unfoldable pub fetch_recent_tickets : String → Option ℕ → M (Http (List Fields))
  unfolding freshdesk_configured
  fetch_recent_tickets email since =
      if not (freshdesk_configured env.settings)
      then raise not_configured
      else pure (
          env.services.list_tickets email
            (elim since [ none ↦ none | some t ↦ some (env.isoformat t) ]))

  abbrev is_code : Json → ℕ → Bool
  is_code v n = eq_json env.arith v (int n)

  -- `status_map.get(v, "unknown")`
  unfoldable pub ticket_status : Json → String
  unfolding eq_json
  ticket_status v =
      if is_code v 2
      then "open"
      else if is_code v 3
      then "pending"
      else if is_code v 4
      then "resolved"
      else if is_code v 5
      then "closed"
      else "unknown"

  unfoldable pub ticket_disposition : Json → String
  unfolding eq_json
  ticket_disposition v = if is_code v 4 || is_code v 5 then "resolved" else "open"

  -- a text, as `fromisoformat` and `replace` want it
  abbrev time_of : Json → Option ℕ
  time_of (str s) = env.parse_time s
  time_of v = none

  unfoldable pub ticket_to_evidence_kwargs : Fields → Option String → M Surfaced
  unfolding ticket_status ticket_disposition slice get get_or has_key or_json
  ticket_to_evidence_kwargs ticket order_id = do
    let status = get ticket "status"
    key ← or_raise (item ticket "id") value_error
    created_at ← or_raise (item ticket "created_at") value_error
    occurred_at ← or_raise (time_of created_at) value_error
    body ← or_raise (slice 2000 (or_json (get ticket "description_text") (str ""))) value_error
    if hashable status
        then pure (record {
          source_type = SourceType.contact_center_record;
          provenance_source = "freshdesk";
          external_ref = show_json env key;
          occurred_at = occurred_at;
          order_id = order_id;
          payload = field "channel" (str "ticket") (
              field "ticket_id" key (
                field "subject" (get_or ticket "subject" (str "")) (
                  field "body" body (
                    field "disposition" (str (ticket_disposition status))
                      (field "status" (str (ticket_status status)) end)))));
        })
        else raise value_error
