-- ===== src/Recovery/Catalog.antt =====
-- `_CATEGORY_OPTIONS` and `rank_recovery_options` of backend/app/engine/recovery_catalog.py.
use occj.Prelude.{
  String, Bool, true, false, Option, none, some, List, [], ◌∷◌, ◌++◌, ◌==◌, eq_string,
  if◌then◌else◌,
}
use occj.Models.Float.{Float, Arith, le_float, min_float, f0, f0_1, f0_2, f0_3, f0_15, f25}
use occj.Env.{Settings}

pub record RecoveryOption : Type 0 where
  pub code : String
  pub label : String
  pub estimated_cost_usd : Float
  pub requires_approval : Bool
  pub approval_role : Option String
  pub rationale : String
  pub is_exceptional : Bool

abbrev pub apology : RecoveryOption
apology = record {
  code = "apology_status_update";
  label = "Apology + proactive status update";
  estimated_cost_usd = f0;
  requires_approval = false;
  approval_role = none;
  rationale =
      "No-cost goodwill gesture, always appropriate alongside (not instead of) a substantive remedy.";
  is_exceptional = false;
}

abbrev pub exceptional : RecoveryOption
exceptional = record {
  code = "exceptional_remedy";
  label = "Exceptional remedy (loyalty-tier gesture / policy exception)";
  estimated_cost_usd = f0;
  requires_approval = true;
  approval_role = some "supervisor";
  rationale =
      "Out-of-policy exception -- always requires human sign-off regardless of dollar value.";
  is_exceptional = true;
}

module _ (ar : Arith) (settings : Settings) where
  -- `cost >= settings.high_value_approval_threshold_usd`
  unfoldable pub high_value : Float → Bool
  high_value cost = le_float settings.high_value_approval_threshold_usd cost

  -- `round(exposure * share, 2)`
  abbrev pub share : Float → Float → Float
  share exposure part = ar.round (ar.mul exposure part) 2

  -- a remedy of which the cost decides whether it is gated
  unfoldable pub gated : String → String → Float → String → String → RecoveryOption
  unfolding high_value
  gated code label cost role rationale = record {
    code = code;
    label = label;
    estimated_cost_usd = cost;
    requires_approval = high_value cost;
    approval_role = some role;
    rationale = rationale;
    is_exceptional = false;
  }

  unfoldable pub reroute : Float → RecoveryOption
  reroute exposure = record {
    code = "reroute_or_reattempt_delivery";
    label = "Reroute / re-attempt delivery";
    estimated_cost_usd = share exposure f0_15;
    requires_approval = false;
    approval_role = none;
    rationale =
        "Address or delivery-attempt issue; lowest-cost remedy is usually a corrected delivery attempt.";
    is_exceptional = false;
  }

  -- `_CATEGORY_OPTIONS.get(category, [])`, each builder applied
  unfoldable pub category_options : String → Float → List RecoveryOption
  unfolding gated reroute min_float
  category_options category exposure =
      if category == "duplicate_charge"
      then gated "reverse_duplicate_charge" "Reverse the duplicate charge" exposure
          "finance_approver"
          "A second capture was recorded for the same order; reversing it restores the correct charge."
        ∷ []
      else if category == "order_confirmed_fulfillment_never_started"
      then gated "expedited_reshipment" "Expedited reshipment at no charge" (share exposure f0_3)
          "supervisor"
          "Order was paid but fulfillment never began; reshipping resolves it without a full refund."
        ∷ gated "full_refund" "Full refund" exposure "finance_approver"
            "Alternative to reshipment when the customer prefers not to wait for a replacement."
        ∷ []
      else if category == "fulfillment_shows_delivered_customer_disputes_receipt"
      then gated "replacement_order" "Replacement order at no additional charge" exposure
          "supervisor"
          "Carrier marked delivered but the customer disputes receipt; replacing the order is the standard remedy pending carrier investigation."
        ∷ gated "goodwill_credit" "Goodwill credit"
            (ar.round (min_float f25 (ar.mul exposure f0_1)) 2) "supervisor"
            "Smaller-footprint remedy while the delivery dispute is investigated further."
        ∷ []
      else if category == "return_received_refund_not_issued"
      then gated "issue_outstanding_refund" "Issue the outstanding refund" exposure
          "finance_approver" "The return was received but no refund was ever issued against it."
        ∷ []
      else if category == "promised_promotion_or_price_not_honored"
      then gated "price_adjustment" "Retroactive price adjustment / credit" exposure "supervisor"
          "The promised price/promotion was not honored at checkout or fulfillment."
        ∷ []
      else if category == "wrong_address_or_failed_delivery_attempt"
      then reroute exposure
        ∷ gated "full_refund" "Full refund" exposure "finance_approver"
            "Fallback when redelivery is no longer viable."
        ∷ []
      else if category == "in_store_and_online_order_conflict"
      then gated "manual_reconciliation_credit"
          "Manual order reconciliation + credit for any shortfall" (share exposure f0_2)
          "supervisor"
          "BOPIS/online-in-store mismatch requires manual reconciliation between the two channels."
        ∷ []
      else []

  -- the tier is passed on to the builders, which do not read it
  unfoldable pub rank_recovery_options : String → Float → String → List RecoveryOption
  unfolding category_options
  rank_recovery_options category exposure tier =
      apology ∷ (category_options category exposure ++ exceptional ∷ [])
