-- ===== src/Nba/Steps.antt =====
-- The numbered steps of `decide_next_action` of backend/app/engine/nba_engine.py, each once it applies.
use occj.Prelude.{
  String, Bool, false, not, ◌&&◌, ◌||◌, Option, none, some, List, [], ◌∷◌, map, any, contains,
  select, first, is_some, ltb, ◌==◌, eq_string, eq_option, fstring, if◌then◌else◌,
}
use occj.Models.Enums.{
  ActionStatus, eq_action_status, ActionType, ActorType, CaseStatus, eq_hypothesis_status,
  JourneyStage, SourceType, eq_source_type, eq_uncertainty_flag_type,
}
use occj.Models.Float.{Float, f0_1, f0_5, f0_6, f10}
use occj.Models.Json.{Json, arr, num, str, field, end, str_list, get, is_str}
use occj.Models.Rows.{EvidenceRecord, UncertaintyFlag, Hypothesis, ImpactAssessment, ActionRequest}
use occj.Session.{Db, M, pure, utcnow, on_option, ◌>>=◌, ◌>>◌}
use occj.Session.Tables.{set_action}
use occj.Env.{Env}
use occj.Audit.{record_audit}
use occj.Stage.{advance_stage}
use occj.Hypotheses.Dropped.{sort_texts}
use occj.Recovery.Catalog.{RecoveryOption, rank_recovery_options}
use occj.Impact.{assess_impact}
use occj.Nba.Propose.{propose}

abbrev pub systemic_prone_categories : List String
systemic_prone_categories =
    "order_confirmed_fulfillment_never_started" ∷ "wrong_address_or_failed_delivery_attempt"
    ∷ "fulfillment_shows_delivered_customer_disputes_receipt" ∷ "payment_captured_order_not_created"
    ∷ []

abbrev pub confidence_action_threshold : Float
confidence_action_threshold = f0_6

-- the newest assessment of a hypothesis: `order_by(computed_at.desc())`
newest : ImpactAssessment → List ImpactAssessment → ImpactAssessment
newest best [] = best
newest best (i ∷ is) = newest (if ltb best.computed_at i.computed_at then i else best) is

abbrev newest_of : List ImpactAssessment → Option ImpactAssessment
unfolding newest
newest_of [] = none
newest_of (i ∷ is) = some (newest i is)

unfoldable pub latest_impact : String → Db → Option ImpactAssessment
unfolding newest
latest_impact hypothesis_id s =
    newest_of (select (λ i. i.hypothesis_id == some hypothesis_id) s.impacts)

unfoldable pub has_itsm_evidence : String → Db → Bool
has_itsm_evidence customer_id s =
    any
      (λ (e : EvidenceRecord).
        e.customer_id == customer_id
        && e.source_type == SourceType.itsm_incident
        && not e.is_superseded)
      s.evidence

abbrev pub succeeded : List ActionRequest → Option ActionRequest
succeeded = first (λ a. a.status == ActionStatus.succeeded)

abbrev pub is_turned_down : ActionRequest → Bool
is_turned_down a = a.status == ActionStatus.rejected || a.status == ActionStatus.failed

-- `rejected_codes`
unfoldable pub rejected_codes : List ActionRequest → List Json
rejected_codes recoveries = map (λ a. get a.target "option_code") (select is_turned_down recoveries)

abbrev pub not_rejected : List Json → RecoveryOption → Bool
not_rejected codes o = not (any (λ c. is_str c o.code) codes)

-- the first substantive option that is not rejected, or else the first option that is not
unfoldable pub choose_option : List Json → List RecoveryOption → Option RecoveryOption
choose_option codes options =
    let substantive =
      first (λ o. not (o.code == "apology_status_update") && not_rejected codes o) options in
    if is_some substantive then substantive else first (not_rejected codes) options

-- `sorted(rejected_codes)`; every recovery request has a text for its code
code_texts : List Json → List String
code_texts [] = []
code_texts (str c ∷ cs) = let rest = code_texts cs in if contains rest c then rest else c ∷ rest
code_texts (_ ∷ cs) = code_texts cs

module _ (env : Env) where
  -- a step returns the action that it decides on
  abbrev pub proposed : M ActionRequest → M (Option ActionRequest)
  proposed m = m >>= λ a. pure (some a)

  unfoldable pub request_evidence : String → M (Option ActionRequest)
  request_evidence case_id = proposed (
      propose env case_id (record {
        action_type = ActionType.request_evidence;
        target = field "reason" (str "no_active_hypothesis") end;
        rationale =
            "No evidence-grounded, currently-active hypothesis yet -- requesting broader evidence before proceeding.";
        expected_value = f0_1;
        requires_approval = false;
        discriminator = "generic";
        approval_role = none;
        case_status = some CaseStatus.pending_evidence;
        stage = none;
      }))

  unfoldable pub request_missing : String → Hypothesis → UncertaintyFlag → M (Option ActionRequest)
  request_missing case_id h flag = proposed (
      propose env case_id (record {
        action_type = ActionType.request_evidence;
        target = field "flag_id" (str flag.id) (field "description" (str flag.description) end);
        rationale = fstring (
            "Leading hypothesis '"
            ∷ h.category
            ∷ "' is at "
            ∷ env.arith.percent0 h.confidence
            ∷ " confidence, below the "
            ∷ env.arith.percent0 confidence_action_threshold
            ∷ " action threshold. Requesting the missing evidence most likely to move it: "
            ∷ flag.description
            ∷ []);
        expected_value =
            env.arith.round
              (env.arith.mul (env.arith.sub confidence_action_threshold h.confidence) f10) 2;
        requires_approval = false;
        discriminator = flag.id;
        approval_role = none;
        case_status = some CaseStatus.pending_evidence;
        stage = some JourneyStage.evidence_checked;
      }))

  -- an inline action that has been done: its status and time are assigned
  unfoldable pub mark_succeeded : ActionRequest → M ActionRequest
  mark_succeeded action = do
    now ← utcnow env.supply
    let done =
        λ (a : ActionRequest). record a { status = ActionStatus.succeeded; decided_at = some now }
    set_action action.id done
    pure (done action)

  unfoldable pub run_analysis : String → Hypothesis → M (Option ActionRequest)
  unfolding mark_succeeded
  run_analysis case_id h = do
    action ← propose env case_id (record {
      action_type = ActionType.run_analysis;
      target = field "type" (str "impact_assessment") (field "hypothesis_id" (str h.id) end);
      rationale = fstring (
          "Hypothesis '"
          ∷ h.category
          ∷ "' reached "
          ∷ env.arith.percent0 h.confidence
          ∷ " confidence -- assessing financial/SLA/customer-tier impact before selecting a recovery option."
          ∷ []);
      expected_value = h.confidence;
      requires_approval = false;
      discriminator = h.id;
      approval_role = none;
      case_status = some CaseStatus.investigating;
      stage = none;
    })
    assess_impact env case_id h.id
    advance_stage env.supply case_id JourneyStage.impact_assessed
    proposed (mark_succeeded action)

  unfoldable pub escalate : String → Hypothesis → ImpactAssessment → M (Option ActionRequest)
  escalate case_id h impact = proposed (
      propose env case_id (record {
        action_type = ActionType.escalate_itsm;
        target = field "hypothesis_id" (str h.id) (field "category" (str h.category) end);
        rationale = fstring (
            "'" ∷ h.category
            ∷ "' can be a symptom of a wider internal incident. Checking/raising an ITSM ticket before committing to an individual-customer remedy, so a systemic cause isn't handled one refund at a time."
            ∷ []);
        expected_value = env.arith.mul impact.composite_score f0_5;
        requires_approval = false;
        discriminator = h.id;
        approval_role = none;
        case_status = some CaseStatus.investigating;
        stage = none;
      }))

  unfoldable pub propose_recovery :
      String → Hypothesis → ImpactAssessment → RecoveryOption → M (Option ActionRequest)
  propose_recovery case_id h impact chosen = proposed (
      propose env case_id (record {
        action_type = ActionType.execute_recovery;
        target = field "option_code" (str chosen.code) (
            field "label" (str chosen.label) (
              field "estimated_cost_usd" (num chosen.estimated_cost_usd)
                (field "hypothesis_id" (str h.id) end)));
        rationale = fstring (
            chosen.rationale
            ∷ " Estimated cost: $"
            ∷ env.arith.fixed2 chosen.estimated_cost_usd
            ∷ "."
            ∷ []);
        expected_value = impact.composite_score;
        requires_approval = chosen.requires_approval;
        discriminator = fstring (h.id ∷ ":" ∷ chosen.code ∷ []);
        approval_role = chosen.approval_role;
        case_status = some (
            if chosen.requires_approval
            then CaseStatus.pending_approval
            else CaseStatus.action_in_progress);
        stage = some JourneyStage.recovery_options_ranked;
      }))

  unfoldable pub exhausted : String → Hypothesis → List Json → M (Option ActionRequest)
  unfolding code_texts
  exhausted case_id h codes = do
    record_audit env.supply (record {
      case_id = some case_id;
      entity_type = "case";
      entity_id = case_id;
      event = "recovery_options_exhausted";
      actor_type = ActorType.system;
      actor_id = some "nba_engine";
      payload =
          field "hypothesis_id" (str h.id)
            (field "rejected_codes" (arr (str_list (sort_texts (code_texts codes)))) end);
    })
    pure none

  -- `rank_recovery_options(hypothesis.category, impact.financial_exposure_usd, "")`
  abbrev options_for : Hypothesis → ImpactAssessment → List RecoveryOption
  options_for h impact =
      rank_recovery_options env.arith env.settings h.category impact.financial_exposure_usd ""

  unfoldable pub recover :
      String → Hypothesis → ImpactAssessment → List ActionRequest → M (Option ActionRequest)
  unfolding rejected_codes choose_option exhausted
  recover case_id h impact recoveries =
      let codes = rejected_codes recoveries in
      on_option (choose_option codes (options_for h impact)) (exhausted case_id h codes)
        (propose_recovery case_id h impact)
