-- ===== src/Examples/Choices.antt =====
-- A remedy after a rejection, and the citations of a proposal.
use mathlib.Core.List.{Perm}
use occj.Prelude.{
  String, List, some, dedup, nat_eq, eq_nat, ◌≡◌, refl, false, true, ◌&&◌, none, [], ◌∷◌, any, All,
  ◌==◌, eq_string,
}
use occj.Models.Enums.{SourceType, ActorType, HypothesisStatus, UncertaintyFlagType}
use occj.Models.Float.{Float, lt_float, f0_2, f0_5, f0_9, f1, f10, f25, f75}
use occj.Env.{Spec}
use occj.Session.{ok, empty_db}
use occj.Hypotheses.Proposals.{proposed_in}
use occj.Hypotheses.Answers.{answer_of, answer_of-proposed_in}
use occj.Hypotheses.Specs.{merge_by_category}
use occj.Hypotheses.Merging.{categories, merge_by_category-dedup}
use occj.Hypotheses.Ranking.{Descending, rank-Descending}
use occj.Impact.{sla_breach, financial_exposure}
use occj.Impact.Bounds.{AtLeast, sla_breach-bounded, financial_exposure-largest}
use occj.Examples.{env}
use occj.Models.Json.{str, end, is_str}
use occj.Models.Rows.{EvidenceRecord, Hypothesis, UncertaintyFlag}
use occj.Recovery.Catalog.{apology, exceptional}
use occj.Nba.Steps.{not_rejected, choose_option}
use occj.Nba.Choice.{is_substantive, choose_option-not_rejected}
use occj.Hypotheses.Generate.{valid_citations, rank}
use occj.Hypotheses.Citations.{Grounded, valid_citations-Grounded}

choose_option-not_rejected_example :
    (not_rejected (str "exceptional_remedy" ∷ []) apology ≡ true)
    × ((apology.code == "apology_status_update"
          && any (is_substantive (str "exceptional_remedy" ∷ [])) (apology ∷ exceptional ∷ []))
        ≡ false)
unfolding choose_option is_str
choose_option-not_rejected_example =
    choose_option-not_rejected (str "exceptional_remedy" ∷ []) (apology ∷ exceptional ∷ []) apology
      refl

abbrev pub payment : EvidenceRecord
payment = record {
  id = "e1";
  customer_id = "c1";
  order_id = none;
  source_type = SourceType.payment;
  external_ref = "r1";
  provenance_source = "psp";
  occurred_at = 1;
  recorded_at_source = none;
  ingested_at = 2;
  payload = end;
  actor_type = ActorType.system;
  supersedes_id = none;
  is_superseded = false;
  is_duplicate_of = none;
}

valid_citations-Grounded_example :
    All
      (Grounded (payment ∷ []) ("e9" ∷ "e1" ∷ []))
      (valid_citations (payment ∷ []) ("e9" ∷ "e1" ∷ []))
valid_citations-Grounded_example = valid_citations-Grounded (payment ∷ []) ("e9" ∷ "e1" ∷ [])

abbrev guess : String → Spec
guess category = record {
  category = some category;
  title = none;
  narrative = none;
  supporting_evidence_ids = "e1" ∷ [];
  weakening_evidence_ids = [];
  other_citations = [];
  source = "llm";
}

merge_by_category-dedup_example :
    categories (merge_by_category env (guess "late" ∷ guess "lost" ∷ guess "late" ∷ []))
    ≡ dedup ("late" ∷ "lost" ∷ "late" ∷ [])
merge_by_category-dedup_example =
    merge_by_category-dedup env (guess "late" ∷ guess "lost" ∷ guess "late" ∷ [])

abbrev theory : String → Float → Hypothesis
theory key sure = record {
  id = key;
  case_id = "k";
  category = key;
  title = key;
  narrative = "";
  confidence = sure;
  status = HypothesisStatus.active;
  generation_context = end;
  superseded_by_id = none;
  updated_at = 0;
}

abbrev theories : List Hypothesis
theories = theory "a" f0_2 ∷ theory "b" f0_9 ∷ theory "c" f0_5 ∷ []

rank-Descending_example : Perm (rank theories) theories × Descending (rank theories)
rank-Descending_example = rank-Descending theories

abbrev overdue : UncertaintyFlag
overdue = record {
  id = "f1";
  case_id = "k";
  flag_type = UncertaintyFlagType.missing;
  related_evidence_ids = [];
  description = "no refund";
  detected_at = 3;
  resolved_at = none;
  resolution_note = none;
}

sla_breach-bounded_example : lt_float f1 (sla_breach env 9 (overdue ∷ [])) ≡ false
sla_breach-bounded_example = sla_breach-bounded env 9 (overdue ∷ [])

financial_exposure-largest_example :
    AtLeast (financial_exposure (f10 ∷ f75 ∷ f25 ∷ [])) (f10 ∷ f75 ∷ f25 ∷ [])
    × (any (λ y. nat_eq y (financial_exposure (f10 ∷ f75 ∷ f25 ∷ []))) (f10 ∷ f75 ∷ f25 ∷ [])
        ≡ true)
financial_exposure-largest_example =
    financial_exposure-largest f10 (f75 ∷ f25 ∷ []) (refl, (refl, (refl, tt)))

abbrev suspicion : Spec
suspicion = record {
  category = some "duplicate_charge";
  title = none;
  narrative = some "Charged twice.";
  supporting_evidence_ids = "e1" ∷ "e2" ∷ [];
  weakening_evidence_ids = [];
  other_citations = [];
  source = "llm";
}

answer_of-proposed_in_example :
    proposed_in (answer_of (suspicion ∷ [])) empty_db ≡ ok (suspicion ∷ [], empty_db)
answer_of-proposed_in_example = answer_of-proposed_in (suspicion ∷ []) empty_db
