-- ===== src/Reconciliation/Detect.antt =====
-- The flags that `detect_uncertainty` of backend/app/reconciliation/reconciler.py raises: what the
-- closure `add_flag` collects depends on the evidence, the open descriptions and the time alone.
use occj.Prelude.{
  ℕ, ◌+◌, String, Bool, ◌&&◌, Option, none, some, List, [], ◌∷◌, ◌++◌, length, any, select, ltb,
  leb, ◌==◌, eq_option, eq_string, fstring, if◌then◌else◌,
}
use occj.Models.Enums.{SourceType, source_type_value, eq_source_type, UncertaintyFlagType}
use occj.Models.Json.{get, str_in}
use occj.Models.Rows.{EvidenceRecord}
use occj.Env.{Env, show_option}
use occj.Reconciliation.Rules.{hours, expected_followup, terminal_statuses, dispute_dispositions}
use occj.Reconciliation.Grouping.{
  Draft, Found, add_flag, Group, by_order, group_at, of_source, has_status, keys,
}

module _ (env : Env) where
  duplicates : List Group → Found → Found
  unfolding add_flag
  duplicates [] f = f
  duplicates ((o, captured) ∷ gs) f = duplicates gs (
      if ltb 1 (length captured)
      then add_flag
          (record {
            flag_type = UncertaintyFlagType.duplicate;
            related = keys captured;
            description = fstring (
                env.arith.show_nat (length captured)
                ∷ " captured payments recorded for order "
                ∷ show_option o
                ∷ " -- possible duplicate charge."
                ∷ []);
          })
          f
      else f)

  -- `sorted({…})` over the terminal statuses that occur
  distinct_terminal : List EvidenceRecord → List String
  distinct_terminal rs = select (λ t. any (has_status t) rs) terminal_statuses

  quoted : List String → String
  quoted [] = ""
  quoted (s ∷ []) = fstring ("'" ∷ s ∷ "'" ∷ [])
  quoted (s ∷ t ∷ rest) = fstring ("'" ∷ s ∷ "', " ∷ quoted (t ∷ rest) ∷ [])

  contradictions : List Group → Found → Found
  unfolding add_flag distinct_terminal quoted
  contradictions [] f = f
  contradictions ((o, rs) ∷ gs) f =
      let terminal = select (λ r. str_in (get r.payload "status") terminal_statuses) rs in
      let distinct = distinct_terminal terminal in
      contradictions gs (
        if ltb 1 (length distinct)
        then add_flag
            (record {
              flag_type = UncertaintyFlagType.contradictory;
              related = keys terminal;
              description = fstring (
                  "Conflicting fulfillment outcomes recorded for order "
                  ∷ show_option o
                  ∷ ": ["
                  ∷ quoted distinct
                  ∷ "]."
                  ∷ []);
            })
            f
        else f)

  disputes : List Group → List Group → Found → Found
  unfolding add_flag group_at
  disputes fulfillments [] f = f
  disputes fulfillments ((o, disputing) ∷ gs) f =
      let delivered = select (has_status "delivered") (group_at fulfillments o) in
      disputes fulfillments gs (
        if ltb 0 (length disputing) && ltb 0 (length delivered)
        then add_flag
            (record {
              flag_type = UncertaintyFlagType.contradictory;
              related = keys disputing ++ keys delivered;
              description = fstring (
                  "Customer disputes receipt of order "
                  ∷ show_option o
                  ∷ " but fulfillment records show delivered."
                  ∷ []);
            })
            f
        else f)

  -- `any(...)` over the evidence: the follow-up of the record is there
  unfoldable pub has_followup : SourceType → EvidenceRecord → List EvidenceRecord → Bool
  has_followup expected rec = any λ f.
      f.source_type == expected && f.order_id == rec.order_id && leb rec.occurred_at f.occurred_at

  unfoldable pub missing_of : ℕ → List EvidenceRecord → EvidenceRecord → Option Draft
  unfolding expected_followup has_followup
  missing_of now evidence rec = elim (expected_followup rec.source_type) [
    | none ↦ none
    | some (expected, window, shown) ↦
        if leb now (rec.occurred_at + window)
        then none
        else if has_followup expected rec evidence
        then none
        else some (record {
          flag_type = UncertaintyFlagType.missing;
          related = rec.id ∷ [];
          description = fstring (
              "Expected "
              ∷ source_type_value expected
              ∷ " after "
              ∷ source_type_value rec.source_type
              ∷ " ("
              ∷ rec.external_ref
              ∷ ") has not arrived within "
              ∷ shown
              ∷ "."
              ∷ []);
        })
  ]

  abbrev add_some : Option Draft → Found → Found
  unfolding add_flag
  add_some none f = f
  add_some (some d) f = add_flag d f

  missing_followups : ℕ → List EvidenceRecord → List EvidenceRecord → Found → Found
  unfolding missing_of add_flag
  missing_followups now evidence [] f = f
  missing_followups now evidence (rec ∷ recs) f =
      missing_followups now evidence recs (add_some (missing_of now evidence rec) f)

  latest : EvidenceRecord → List EvidenceRecord → ℕ
  latest r [] = r.occurred_at
  latest r (q ∷ qs) =
      let rest = latest q qs in if ltb rest r.occurred_at then r.occurred_at else rest

  stale_of : ℕ → List EvidenceRecord → Option Draft
  unfolding latest
  stale_of now [] = none
  stale_of now (r ∷ rs) =
      let most_recent = latest r rs in
      if ltb (most_recent + hours env.settings.stale_evidence_hours) now
      then some (record {
        flag_type = UncertaintyFlagType.stale;
        related =
            keys (
              select (λ e. leb e.occurred_at most_recent && leb most_recent e.occurred_at)
                (r ∷ rs));
        description = fstring (
            "No new evidence for this case since "
            ∷ env.isoformat most_recent
            ∷ " (older than the "
            ∷ env.arith.show_nat env.settings.stale_evidence_hours
            ∷ "h staleness threshold)."
            ∷ []);
      })
      else none

  -- the flags that a case's evidence raises at a time, beside the open descriptions
  unfoldable pub detect : ℕ → List EvidenceRecord → List String → List Draft
  unfolding by_order duplicates contradictions disputes missing_followups stale_of add_flag
  detect now evidence open_descriptions =
      let captured =
        by_order (select (has_status "captured") (of_source SourceType.payment evidence)) in
      let fulfillments = by_order (of_source SourceType.fulfillment_update evidence) in
      let disputing = by_order (
        select (λ r. str_in (get r.payload "disposition") dispute_dispositions)
          (of_source SourceType.contact_center_record evidence)) in
      let start : Found = record { new_flags = []; open_descriptions = open_descriptions } in
      (add_some (stale_of now evidence) (
        missing_followups now evidence evidence (
          disputes fulfillments disputing
            (contradictions fulfillments (duplicates captured start))))).new_flags
