-- ===== src/Hypotheses/Specs.antt =====
-- What the model or the templates propose, and its merge by category.
use text.Mathlib.Text.{find?}
use occj.Prelude.{
  String, Bool, not, ◌&&◌, Option, none, some, List, [], ◌∷◌, ◌++◌, dedup, is_some, or_else, ◌==◌,
  eq_string, fstring, if◌then◌else◌,
}
use occj.Models.Enums.{SourceType, UncertaintyFlagType, eq_uncertainty_flag_type}
use occj.Models.Float.{Float, f0_5, f0_7, f0_9, f1}
use occj.Models.Json.{Json}
use occj.Models.Rows.{UncertaintyFlag}
use occj.Env.{Env, Spec}

-- `SOURCE_RELIABILITY.get(rec.source_type, 0.6)`: the table has every source
unfoldable pub source_weight : SourceType → Float
source_weight SourceType.order = f1
source_weight SourceType.payment = f1
source_weight SourceType.store_transaction = f1
source_weight SourceType.fulfillment_update = f0_9
source_weight SourceType.return_ = f0_9
source_weight SourceType.itsm_incident = f0_9
source_weight SourceType.contact_center_record = f0_7
source_weight SourceType.web_app_event = f0_5

-- `_FLAG_CATEGORY_RULES`: the kind of flag, the text to find in it, the category
pub record Rule : Type 0 where
  pub flag_type : UncertaintyFlagType
  pub needle : String
  pub category : String

abbrev rule : UncertaintyFlagType → String → String → Rule
rule t n c = record { flag_type = t; needle = n; category = c }

abbrev pub flag_category_rules : List Rule
flag_category_rules =
    rule UncertaintyFlagType.duplicate "duplicate charge" "duplicate_charge"
    ∷ rule UncertaintyFlagType.missing "fulfillment_update after payment"
        "order_confirmed_fulfillment_never_started"
    ∷ rule UncertaintyFlagType.missing "payment after return" "return_received_refund_not_issued"
    ∷ rule UncertaintyFlagType.contradictory "disputes receipt"
        "fulfillment_shows_delivered_customer_disputes_receipt"
    ∷ rule UncertaintyFlagType.contradictory "Conflicting fulfillment outcomes"
        "wrong_address_or_failed_delivery_attempt"
    ∷ []

-- `needle in text`
abbrev pub occurs_in : String → String → Bool
occurs_in needle text = is_some (find? text needle)

-- The entry of one category in `merged`.
pub record Merged : Type 0 where
  pub category : String
  pub title : String
  pub narrative : String
  pub supporting_evidence_ids : List String
  pub weakening_evidence_ids : List String
  pub other_citations : List Json
  pub source : String

module _ (env : Env) where
  unfoldable pub category_of : List Rule → UncertaintyFlag → Option String
  category_of [] flag = none
  category_of (r ∷ rs) flag =
      let rest = category_of rs flag in
      if flag.flag_type == r.flag_type
        && occurs_in (env.lower r.needle) (env.lower flag.description)
      then some r.category
      else rest

  unfoldable pub template_specs : List UncertaintyFlag → List Spec
  unfolding category_of
  template_specs [] = []
  template_specs (flag ∷ flags) = elim (category_of flag_category_rules flag) [
    | none ↦ template_specs flags
    | some category ↦
        record {
          category = some category;
          title = some (env.titled category);
          narrative = some flag.description;
          supporting_evidence_ids = flag.related_evidence_ids;
          weakening_evidence_ids = [];
          other_citations = [];
          source = "template";
        }
        ∷ template_specs flags
  ]

  -- `existing["narrative"]` with the narrative of one more spec
  unfoldable pub join_narrative : String → Option String → String
  join_narrative old none = old
  join_narrative old (some text) =
      if not (text == "") && not (occurs_in text old) then fstring (old ∷ " " ∷ text ∷ []) else old

  -- the first spec of a category
  unfoldable pub entry_of : String → Spec → Merged
  entry_of category spec = record {
    category = category;
    title = or_else spec.title (env.titled category);
    narrative = or_else spec.narrative "";
    supporting_evidence_ids = spec.supporting_evidence_ids;
    weakening_evidence_ids = spec.weakening_evidence_ids;
    other_citations = spec.other_citations;
    source = spec.source;
  }

  -- a later spec of the same category
  unfoldable pub join : Merged → Spec → Merged
  unfolding join_narrative
  join old spec = record old {
    narrative = join_narrative old.narrative spec.narrative;
    supporting_evidence_ids = dedup (old.supporting_evidence_ids ++ spec.supporting_evidence_ids);
    weakening_evidence_ids = dedup (old.weakening_evidence_ids ++ spec.weakening_evidence_ids);
    other_citations = old.other_citations ++ spec.other_citations;
  }

  abbrev pub category_name : Spec → String
  category_name spec = or_else spec.category "uncategorized"

  -- one round of the loop; `merged` and `order` are one list, in the order of `order`
  unfoldable pub merge_into : List Merged → Spec → List Merged
  unfolding entry_of join
  merge_into [] spec = entry_of (category_name spec) spec ∷ []
  merge_into (m ∷ ms) spec =
      let rest = m ∷ merge_into ms spec in
      if m.category == category_name spec then join m spec ∷ ms else rest

  unfoldable pub merge_from : List Merged → List Spec → List Merged
  unfolding merge_into
  merge_from merged [] = merged
  merge_from merged (spec ∷ specs) = merge_from (merge_into merged spec) specs

  unfoldable pub merge_by_category : List Spec → List Merged
  unfolding merge_from
  merge_by_category = merge_from []
