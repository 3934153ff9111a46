-- ===== src/Hypotheses/Proposals.antt =====
-- `_generate_via_llm` of backend/app/engine/hypothesis_engine.py: what the model is asked, and how its
-- answer is read. An answer of another shape than the one asked for raises.
use text.Mathlib.TextBridge.{to_list, of_list}
use occj.Prelude.{
  String, Option, none, some, List, [], ◌∷◌, ◌++◌, map, fstring, ◌==◌, eq_string, if◌then◌else◌,
}
use occj.Models.Enums.{source_type_value, uncertainty_flag_type_value}
use occj.Models.Json.{
  Json, Items, Fields, str, arr, obj, nil, cons, field, end, get, get_or, has_key, str_list,
}
use occj.Models.Rows.{EvidenceRecord, UncertaintyFlag}
use occj.Session.{M, pure, or_raise, on_option, attribute_error, value_error, ◌>>=◌}
use occj.Env.{Env, Spec}
use occj.Llm.{fields_of, chat_json}

abbrev pub taxonomy_seed : String
taxonomy_seed = fstring (
    "payment_captured_order_not_created, order_confirmed_fulfillment_never_started, "
    ∷ "fulfillment_shows_delivered_customer_disputes_receipt, "
    ∷ "wrong_address_or_failed_delivery_attempt, duplicate_charge, "
    ∷ "return_received_refund_not_issued, promised_promotion_or_price_not_honored, "
    ∷ "in_store_and_online_order_conflict" ∷ [])

abbrev pub hypotheses_request : String
hypotheses_request = fstring (
    "You are an investigator reconstructing why a retail customer's journey "
    ∷ "failed across web/app, store, order, fulfillment, payment, contact-centre "
    ∷ "and returns systems. Propose 1-4 competing hypotheses for where the "
    ∷ "journey broke down. Categories analysts commonly use (not exhaustive, "
    ∷ "propose a different one if the evidence clearly warrants it): " ∷ taxonomy_seed ∷ ".\n\n"
    ∷ "Every hypothesis MUST cite evidence_id values taken verbatim from the "
    ∷ "evidence list you're given -- never invent an id. Respond with strict "
    ∷ "JSON: {\"hypotheses\": [{\"category\": str, \"title\": str, \"narrative\": str, "
    ∷ "\"supporting_evidence_ids\": [str], \"weakening_evidence_ids\": [str]}]}" ∷ [])

-- a text, if the key is there
unfoldable pub text_at : Fields → String → Option (Option String)
unfolding get has_key
text_at fs key =
    if has_key fs key then (elim (get fs key) [ str s ↦ some (some s) | _ ↦ none ]) else some none

-- `list(text)`: its characters
unfoldable pub characters : String → List String
characters s = map (λ c. of_list (c ∷ [])) (to_list s)

abbrev keys_of : Fields → List String
keys_of end = []
keys_of (field k v fs) = k ∷ keys_of fs

-- the texts of a list, and what else it has; a list or a dictionary in it has no hash, so the search
-- for it among the evidence raises
unfoldable pub citations_of : Items → Option (List String × List Json)
citations_of nil = some ([], [])
citations_of (cons (arr ws) vs) = none
citations_of (cons (obj fs) vs) = none
citations_of (cons (str s) vs) = elim (citations_of vs) [
  | none ↦ none
  | some (texts, others) ↦ some (s ∷ texts, others)
]
citations_of (cons v vs) = elim (citations_of vs) [
  | none ↦ none
  | some (texts, others) ↦ some (texts, v ∷ others)
]

-- `list(...)` of what is there, which is empty if the key is missing
unfoldable pub citations_at : Fields → String → Option (List String × List Json)
unfolding get_or citations_of characters
citations_at fs key = elim (get_or fs key (arr nil)) [
  | arr vs ↦ citations_of vs
  | str s ↦ some (characters s, [])
  | obj gs ↦ some (keys_of gs, [])
  | _ ↦ none
]

-- a dictionary of the answer, with its `h["_source"] = "llm"`
unfoldable pub spec_of : Fields → M Spec
unfolding text_at citations_at
spec_of h = do
  category ← or_raise (text_at h "category") value_error
  title ← or_raise (text_at h "title") value_error
  narrative ← or_raise (text_at h "narrative") value_error
  (supporting, others) ← or_raise (citations_at h "supporting_evidence_ids") value_error
  (weakening, more) ← or_raise (citations_at h "weakening_evidence_ids") value_error
  pure (record {
    category = category;
    title = title;
    narrative = narrative;
    supporting_evidence_ids = supporting;
    weakening_evidence_ids = weakening;
    other_citations = others ++ more;
    source = "llm";
  })

unfoldable pub specs_of : Items → M (List Spec)
unfolding fields_of spec_of
specs_of nil = pure []
specs_of (cons v hs) = do
  h ← or_raise (fields_of v) value_error
  spec ← spec_of h
  specs ← specs_of hs
  pure (spec ∷ specs)

-- what a loop over a value goes through, if no assignment to an item then raises
unfoldable pub looped : Json → Option Items
looped (arr hs) = some hs
looped (obj end) = some nil
looped (str s) = if s == "" then some nil else none
looped _ = none

-- `data.get("hypotheses", [])`, and the loop over it
unfoldable pub proposed_in : Json → M (List Spec)
unfolding fields_of specs_of looped get_or
proposed_in answer = do
  fields ← or_raise (fields_of answer) attribute_error
  hypotheses ← or_raise (looped (get_or fields "hypotheses" (arr nil))) value_error
  specs_of hypotheses

module _ (env : Env) where
  abbrev evidence_context : EvidenceRecord → Json
  evidence_context e = obj (
      field "evidence_id" (str e.id) (
        field "source_type" (str (source_type_value e.source_type)) (
          field "occurred_at" (str (env.isoformat e.occurred_at))
            (field "payload" (obj e.payload) end))))

  abbrev flag_context : UncertaintyFlag → Json
  flag_context f = obj (
      field "flag_type" (str (uncertainty_flag_type_value f.flag_type)) (
        field "description" (str f.description)
          (field "related_evidence_ids" (arr (str_list f.related_evidence_ids)) end)))

  abbrev items : List Json → Items
  items [] = nil
  items (v ∷ vs) = cons v (items vs)

  -- `none` where it raises `LLMUnavailable`
  unfoldable pub generate_via_llm :
      List EvidenceRecord → List UncertaintyFlag → M (Option (List Spec))
  unfolding chat_json proposed_in
  generate_via_llm evidence flags = do
    let user : String = fstring (
        "Evidence:\n"
        ∷ env.repr (arr (items (map evidence_context evidence)))
        ∷ "\n\nOpen uncertainty flags:\n"
        ∷ env.repr (arr (items (map flag_context flags)))
        ∷ [])
    answer ← chat_json env hypotheses_request user
    on_option answer (pure none) (λ found. do specs ← proposed_in found; pure (some specs))
