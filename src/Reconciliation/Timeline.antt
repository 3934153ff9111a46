-- ===== src/Reconciliation/Timeline.antt =====
-- `assemble_timeline` of backend/app/reconciliation/reconciler.py.
use occj.Prelude.{
  ℕ, String, Bool, not, ◌&&◌, Option, none, some, List, [], ◌∷◌, select, is_some, ltb, ◌==◌,
  eq_string, fstring, if◌then◌else◌,
}
use occj.Models.Enums.{SourceType}
use occj.Models.Json.{Fields, str, get_or}
use occj.Models.Rows.{EvidenceRecord, CanonicalEvent}
use occj.Session.{Db, M, pure, gets, new_id, on_option, ◌>>=◌, ◌>>◌}
use occj.Session.Tables.{the_case, add_event, set_event}
use occj.Env.{Env, show_json}

-- A stable sort by a time, as `order_by` and `list.sort` give it: `x` goes before the first row
-- that is later.
module _ {A : Type 0} (time : A → ℕ) where
  unfoldable pub insert_by : A → List A → List A
  insert_by x [] = x ∷ []
  insert_by x (y ∷ ys) =
      let rest = y ∷ insert_by x ys in if ltb (time x) (time y) then x ∷ y ∷ ys else rest

  unfoldable pub sort_from : List A → List A → List A
  unfolding insert_by
  sort_from sorted [] = sorted
  sort_from sorted (x ∷ xs) = sort_from (insert_by x sorted) xs

  unfoldable pub sort_by : List A → List A
  unfolding sort_from
  sort_by = sort_from []

abbrev pub is_current : String → EvidenceRecord → Bool
is_current customer_id r =
    r.customer_id == customer_id && not r.is_superseded && not (is_some r.is_duplicate_of)

-- `_current_evidence_for_case`, by the customer of the case
unfoldable pub current_evidence : String → Db → List EvidenceRecord
current_evidence customer_id s = select (is_current customer_id) s.evidence

unfoldable pub current_evidence_by_time : String → Db → List EvidenceRecord
unfolding current_evidence sort_by
current_evidence_by_time customer_id s =
    sort_by (λ r. r.occurred_at) (current_evidence customer_id s)

module _ (env : Env) where
  field_text : Fields → String → String → String
  field_text p key default = show_json env (get_or p key (str default))

  summary_of : SourceType → Fields → String
  unfolding field_text
  summary_of SourceType.web_app_event p =
      fstring ("Web/app event: " ∷ field_text p "event" "unknown" ∷ [])
  summary_of SourceType.store_transaction p = fstring (
      "Store transaction ("
      ∷ field_text p "transaction_type" "sale"
      ∷ "): $"
      ∷ field_text p "amount" "?"
      ∷ [])
  summary_of SourceType.order p = fstring (
      "Order "
      ∷ field_text p "status" "unknown"
      ∷ " via "
      ∷ field_text p "channel" "unknown"
      ∷ ": $"
      ∷ field_text p "amount" "?"
      ∷ [])
  summary_of SourceType.fulfillment_update p = fstring (
      "Fulfillment: "
      ∷ field_text p "status" "unknown"
      ∷ " ("
      ∷ field_text p "carrier" "unknown"
      ∷ ")"
      ∷ [])
  summary_of SourceType.payment p = fstring (
      "Payment "
      ∷ field_text p "status" "unknown"
      ∷ ": $"
      ∷ field_text p "amount" "?"
      ∷ " via "
      ∷ field_text p "method" "unknown"
      ∷ [])
  summary_of SourceType.contact_center_record p = fstring (
      "Contact ("
      ∷ field_text p "channel" "unknown"
      ∷ "): "
      ∷ field_text p "subject" "no subject"
      ∷ [])
  summary_of SourceType.return_ p = fstring (
      "Return "
      ∷ field_text p "status" "unknown"
      ∷ ": $"
      ∷ field_text p "amount" "?"
      ∷ " ("
      ∷ field_text p "reason" "unspecified"
      ∷ ")"
      ∷ [])
  summary_of SourceType.itsm_incident p = fstring (
      "ITSM incident ["
      ∷ field_text p "severity" "unknown"
      ∷ "]: "
      ∷ field_text p "title" "untitled"
      ∷ [])

  unfoldable pub summarize : EvidenceRecord → String
  unfolding summary_of
  summarize rec = summary_of rec.source_type rec.payload

  -- `{e.evidence_record_id: e for e in existing_events}.get(key)`: of two the later stays
  unfoldable pub event_of : List CanonicalEvent → String → Option CanonicalEvent
  event_of [] key = none
  event_of (e ∷ es) key =
      let rest = event_of es key in
      if is_some rest then rest else if e.evidence_record_id == key then some e else none

  -- the event of the record, or of the one record that it superseded
  unfoldable pub event_for : List CanonicalEvent → EvidenceRecord → Option CanonicalEvent
  unfolding event_of
  event_for events rec = elim (event_of events rec.id) [
    | some e ↦ some e
    | none ↦ elim rec.supersedes_id [
      | some old ↦ (if old == "" then none else event_of events old)
      | none ↦ none
    ]
  ]

  -- one round of the loop, on the events that were there before it
  unfoldable pub place : String → List CanonicalEvent → EvidenceRecord → M CanonicalEvent
  unfolding event_for summarize
  place case_id events rec =
      on_option (event_for events rec)
        (do
          key ← new_id env.supply
          let event : CanonicalEvent = record {
            id = key;
            case_id = case_id;
            evidence_record_id = rec.id;
            source_type = rec.source_type;
            effective_at = rec.occurred_at;
            summary = summarize rec;
          }
          add_event event
          pure event)
        (λ e. do
          let assigned = λ (x : CanonicalEvent). record x {
            evidence_record_id = rec.id;
            effective_at = rec.occurred_at;
            summary = summarize rec;
          }
          set_event e.id assigned
          pure (assigned e))

  unfoldable pub place_all :
      String → List CanonicalEvent → List EvidenceRecord → M (List CanonicalEvent)
  unfolding place
  place_all case_id events [] = pure []
  place_all case_id events (rec ∷ recs) = do
    event ← place case_id events rec
    rest ← place_all case_id events recs
    pure (event ∷ rest)

  unfoldable pub assemble_timeline : String → M (List CanonicalEvent)
  unfolding current_evidence_by_time place_all sort_by
  assemble_timeline case_id = do
    case ← the_case case_id
    evidence ← gets (current_evidence_by_time case.customer_id)
    events ← gets (λ s. select (λ e. e.case_id == case_id) s.events)
    timeline ← place_all case_id events evidence
    pure (sort_by (λ e. e.effective_at) timeline)
