-- ===== src/Frame/Engine.antt =====
-- Reconciliation, the hypotheses and the impact, for every relation of the frame.
use occj.Prelude.{ℕ, String, List, [], ◌∷◌}
use occj.Models.Enums.{EvidenceRelation}
use occj.Models.Json.{Items}
use occj.Models.Rows.{EvidenceRecord, CanonicalEvent, Hypothesis}
use occj.Session.Steps.{Relation, Steps, Steps-pure, Steps-bind, Steps-if, Steps-or_raise}
use occj.Session.{or_raise, value_error}
use occj.Frame.{Frame, frame_rules, new_id-Steps, add_flag-Steps}
use occj.Env.{Env, Spec}
use occj.Frame.Proposing.{generate_via_llm-Steps}
use occj.Reconciliation.Timeline.{place, place_all, assemble_timeline}
use occj.Reconciliation.Grouping.{Draft}
use occj.Reconciliation.Uncertainty.{flag_of, save_flags, detect_uncertainty, reconcile_case}
use occj.Hypotheses.Specs.{Merged}
use occj.Hypotheses.Dropped.{dropped_citations}
use occj.Hypotheses.Generate.{
  link_evidence, finish_hypothesis, create_hypothesis, create_all, supersede, adopt, store_specs,
  propose_and_store, generate_or_update_hypotheses,
}
use occj.Impact.{assess_impact}

module _ (env : Env) {R : Relation} {may : String → Type 0} (fr : Frame env R may) where
  place-Steps :
      (case_id : String) (events : List CanonicalEvent) (rec : EvidenceRecord)
      → Steps R (place env case_id events rec)
  unfolding place
  place-Steps case_id events rec = search frame_rules depth 24

  place_all-Steps :
      (case_id : String) (events : List CanonicalEvent) (recs : List EvidenceRecord)
      → Steps R (place_all env case_id events recs)
  unfolding place_all
  place_all-Steps case_id events [] = Steps-pure []
  place_all-Steps case_id events (rec ∷ recs) =
      Steps-bind _ _ (place-Steps case_id events rec)
        λ e. Steps-bind _ _ (place_all-Steps case_id events recs) λ es. Steps-pure (e ∷ es)

  pub assemble_timeline-Steps : (case_id : String) → Steps R (assemble_timeline env case_id)
  unfolding assemble_timeline
  assemble_timeline-Steps case_id = search (frame_rules, place_all-Steps) depth 24

  save_flags-Steps :
      (case_id : String) (now : ℕ) (ds : List Draft) → Steps R (save_flags env case_id now ds)
  unfolding save_flags
  save_flags-Steps case_id now [] = Steps-pure []
  save_flags-Steps case_id now (d ∷ ds) = Steps-bind _ _ ((new_id-Steps fr.core)) λ key.
      Steps-bind _ _ (add_flag-Steps fr.core _) λ _.
        Steps-bind _ _ (save_flags-Steps case_id now ds)
          λ fs. Steps-pure (flag_of env case_id now d key ∷ fs)

  detect_uncertainty-Steps : (case_id : String) → Steps R (detect_uncertainty env case_id)
  unfolding detect_uncertainty
  detect_uncertainty-Steps case_id = search (frame_rules, save_flags-Steps) depth 24

  pub reconcile_case-Steps : (case_id : String) → Steps R (reconcile_case env case_id)
  unfolding reconcile_case
  reconcile_case-Steps case_id =
      search (frame_rules, assemble_timeline-Steps, detect_uncertainty-Steps) depth 24

  pub link_evidence-Steps :
      (h : String) (r : EvidenceRelation) (rec : EvidenceRecord)
      → Steps R (link_evidence env h r rec)
  unfolding link_evidence
  link_evidence-Steps h r rec = search frame_rules depth 24

  pub finish_hypothesis-Steps :
      (case_id : String) (dropped : Items) (spec : Merged) (weaken : List EvidenceRecord)
      (h : Hypothesis)
      → Steps R (finish_hypothesis env case_id dropped spec weaken h)
  unfolding finish_hypothesis
  finish_hypothesis-Steps case_id dropped spec weaken h =
      search (frame_rules, link_evidence-Steps) depth 24

  create_hypothesis-Steps :
      (case_id : String) (dropped : Items) (spec : Merged) (support weaken : List EvidenceRecord)
      → Steps R (create_hypothesis env case_id dropped spec support weaken)
  unfolding create_hypothesis
  create_hypothesis-Steps case_id dropped spec support weaken =
      search (frame_rules, link_evidence-Steps, finish_hypothesis-Steps) depth 24

  pub create_all-Steps :
      (case_id : String) (evidence : List EvidenceRecord) (specs : List Merged)
      → Steps R (create_all env case_id evidence specs)
  unfolding create_all
  create_all-Steps case_id evidence [] = Steps-pure []
  create_all-Steps case_id evidence (spec ∷ specs) =
      let others = create_all-Steps case_id evidence specs in
      Steps-if _ _ _
        (Steps-bind (or_raise (dropped_citations env.arith evidence spec) value_error) _
          (Steps-or_raise _ _)
          λ (dropped : Items).
            Steps-bind _ _ (create_hypothesis-Steps case_id dropped spec _ _)
              λ h. Steps-bind _ _ others λ rest. Steps-pure (h ∷ rest))
        others

  supersede-Steps : (h : Hypothesis) → Steps R (supersede env h)
  unfolding supersede
  supersede-Steps h = search frame_rules depth 24

  pub adopt-Steps :
      (case_id : String) (previous ranked : List Hypothesis)
      → Steps R (adopt env case_id previous ranked)
  unfolding adopt
  adopt-Steps case_id previous [] = Steps-pure []
  adopt-Steps case_id previous (top ∷ others) = search (frame_rules, supersede-Steps) depth 24

  store_specs-Steps :
      (case_id : String) (evidence : List EvidenceRecord) (specs : List Spec)
      → Steps R (store_specs env case_id evidence specs)
  unfolding store_specs
  store_specs-Steps case_id evidence specs =
      search (frame_rules, create_all-Steps, adopt-Steps) depth 24

  propose_and_store-Steps :
      (case_id : String) (evidence : List EvidenceRecord)
      → Steps R (propose_and_store env case_id evidence)
  unfolding propose_and_store
  propose_and_store-Steps case_id evidence =
      search (frame_rules, generate_via_llm-Steps, store_specs-Steps) depth 24

  pub generate-Steps : (case_id : String) → Steps R (generate_or_update_hypotheses env case_id)
  unfolding generate_or_update_hypotheses
  generate-Steps case_id = search (frame_rules, propose_and_store-Steps) depth 24

  pub assess_impact-Steps : (case_id h : String) → Steps R (assess_impact env case_id h)
  unfolding assess_impact
  assess_impact-Steps case_id h = search frame_rules depth 24
