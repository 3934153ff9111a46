-- ===== src/Impact.antt =====
-- backend/app/engine/impact_engine.py: how much is at stake in a case.
pub mod Bounds
use occj.Prelude.{
  ℕ, ◌-◌, String, Bool, false, not, ◌&&◌, Option, none, some, List, [], ◌∷◌, ◌++◌, map, length,
  select, contains, ltb, ◌==◌, eq_string, if◌then◌else◌,
}
use occj.Models.Enums.{ActorType, UncertaintyFlagType, eq_uncertainty_flag_type}
use occj.Models.Float.{Float, Arith, max_float, min_float, f0, f1, f1_15, f1_3, f1_5, f24, f3600}
use occj.Models.Json.{int, num, str, field, end, get_or, or_json, to_float}
use occj.Models.Rows.{Customer, EvidenceRecord, UncertaintyFlag, ImpactAssessment}
use occj.Session.{Db, M, pure, gets, new_id, utcnow, or_raise, value_error, ◌>>=◌, ◌>>◌}
use occj.Session.Tables.{the_case, find_customer, add_impact}
use occj.Env.{Env}
use occj.Audit.{record_audit}
use occj.Reconciliation.Uncertainty.{open_flags}
use occj.Hypotheses.Confidence.{links_of}

-- `TIER_WEIGHT.get(tier, 1.0)`
unfoldable pub tier_weight : String → Float
tier_weight tier =
    if tier == "standard"
    then f1
    else if tier == "silver"
    then f1_15
    else if tier == "gold"
    then f1_3
    else if tier == "platinum"
    then f1_5
    else f1

-- `_hypothesis_evidence`
unfoldable pub hypothesis_evidence : String → Db → List EvidenceRecord
unfolding links_of
hypothesis_evidence hypothesis_id s =
    let cited = map (λ l. l.evidence_record_id) (links_of hypothesis_id s.links) in
    select (λ e. contains cited e.id) s.evidence

-- the orders of the cited evidence and of the case, less `None` and the empty text
unfoldable pub named_orders : List (Option String) → List String
named_orders [] = []
named_orders (none ∷ os) = named_orders os
named_orders (some o ∷ os) = let rest = named_orders os in if o == "" then rest else o ∷ rest

abbrev in_orders : List String → Option String → Bool
in_orders orders none = false
in_orders orders (some o) = contains orders o

-- `_order_evidence`
unfoldable pub order_evidence : String → List String → Db → List EvidenceRecord
order_evidence customer_id orders s =
    select (λ e. e.customer_id == customer_id && in_orders orders e.order_id && not e.is_superseded)
      s.evidence

-- `{rec.id: rec for rec in records}.values()`
unfoldable pub unique_from : List String → List EvidenceRecord → List EvidenceRecord
unique_from seen [] = []
unique_from seen (r ∷ rs) =
    let skipped = unique_from seen rs in
    let kept = r ∷ unique_from (r.id ∷ seen) rs in if contains seen r.id then skipped else kept

module _ (ar : Arith) where
  -- `float(rec.payload.get("amount", 0) or 0)`
  unfoldable pub amount_of : EvidenceRecord → Option Float
  unfolding to_float or_json get_or
  amount_of r = to_float ar (or_json (get_or r.payload "amount" (int 0)) (int 0))

  unfoldable pub amounts_of : List EvidenceRecord → Option (List Float)
  unfolding amount_of
  amounts_of [] = some []
  amounts_of (r ∷ rs) = elim (amount_of r) [
    | none ↦ none
    | some x ↦ elim (amounts_of rs) [ none ↦ none | some xs ↦ some (x ∷ xs) ]
  ]

-- `max(amounts) if amounts else 0.0`
unfoldable pub largest_from : Float → List Float → Float
unfolding max_float
largest_from best [] = best
largest_from best (x ∷ xs) = largest_from (max_float best x) xs

unfoldable pub financial_exposure : List Float → Float
unfolding largest_from
financial_exposure [] = f0
financial_exposure (x ∷ xs) = largest_from x xs

unfoldable pub oldest_from : ℕ → List UncertaintyFlag → ℕ
oldest_from best [] = best
oldest_from best (f ∷ fs) = oldest_from (if ltb f.detected_at best then f.detected_at else best) fs

module _ (env : Env) where
  -- The difference of two times stops at 0 here, and `max(0.0, …)` gives 0 for a negative one.
  unfoldable pub sla_breach : ℕ → List UncertaintyFlag → Float
  unfolding oldest_from max_float min_float
  sla_breach now [] = f0
  sla_breach now (f ∷ fs) =
      let oldest = oldest_from f.detected_at fs in
      let overdue_hours = max_float f0 (env.arith.div (env.total_seconds (now - oldest)) f3600) in
      min_float f1 (env.arith.div overdue_hours f24)

  unfoldable pub composite : Float → Float → Float → Float
  composite exposure weight breach =
      env.arith.round (env.arith.mul (env.arith.mul exposure weight) (env.arith.add f1 breach)) 2

  abbrev tier_of : Option Customer → String
  tier_of none = "standard"
  tier_of (some c) = c.tier

  unfoldable pub assess_impact : String → String → M ImpactAssessment
  unfolding hypothesis_evidence named_orders order_evidence unique_from amounts_of
      financial_exposure sla_breach tier_weight composite
  assess_impact case_id hypothesis_id = do
    case ← the_case case_id
    cited ← gets (hypothesis_evidence hypothesis_id)
    let orders = named_orders (map (λ (e : EvidenceRecord). e.order_id) cited ++ case.order_id ∷ [])
    ordered ← gets (order_evidence case.customer_id orders)
    amounts ← or_raise (amounts_of env.arith (unique_from [] (cited ++ ordered))) value_error
    now ← utcnow env.supply
    flags ← gets (open_flags env case_id)
    customer ← gets (find_customer case.customer_id)
    let exposure = financial_exposure amounts
    let missing = select (λ (f : UncertaintyFlag). f.flag_type == UncertaintyFlagType.missing) flags
    let breach = sla_breach now missing
    let tier = tier_of customer
    let explanation = field "financial_exposure_usd" (num exposure) (
        field "sla_breach_score" (num (env.arith.round breach 4)) (
          field "customer_tier" (str tier) (
            field "customer_tier_weight" (num (tier_weight tier)) (
              field "formula"
                (str "composite = financial_exposure_usd * tier_weight * (1 + sla_breach_score)")
                (field "open_missing_flags" (int (length missing)) end)))))
    key ← new_id env.supply
    let assessment : ImpactAssessment = record {
      id = key;
      case_id = case_id;
      hypothesis_id = some hypothesis_id;
      financial_exposure_usd = exposure;
      sla_breach_score = env.arith.round breach 4;
      customer_tier_weight = tier_weight tier;
      composite_score = composite exposure (tier_weight tier) breach;
      explanation = explanation;
      computed_at = now;
    }
    add_impact assessment
    record_audit env.supply (record {
      case_id = some case_id;
      entity_type = "impact_assessment";
      entity_id = key;
      event = "computed";
      actor_type = ActorType.system;
      actor_id = some "impact_engine";
      payload = explanation;
    })
    pure assessment
