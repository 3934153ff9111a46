-- ===== src/Hypotheses/Generate.antt =====
-- `generate_or_update_hypotheses` of backend/app/engine/hypothesis_engine.py.
use occj.Prelude.{
  ℕ, String, true, not, ◌&&◌, Option, none, some, List, [], ◌∷◌, length, select, first, or_else,
  ltb, ◌==◌, eq_string, if◌then◌else◌,
}
use occj.Models.Enums.{
  ActorType, HypothesisStatus, eq_hypothesis_status, EvidenceRelation, JourneyStage,
}
use occj.Models.Float.{Float, lt_float, max_float, f0}
use occj.Models.Json.{Items, arr, num, str, field, end}
use occj.Models.Rows.{EvidenceRecord, Hypothesis}
use occj.Session.{
  or_raise, value_error, Db, M, pure, gets, new_id, utcnow, when, for_each, ◌>>=◌, ◌>>◌,
}
use occj.Session.Tables.{
  find_hypothesis, the_hypothesis, the_case, set_case, add_hypothesis, set_hypothesis, add_link,
}
use occj.Env.{Env, Spec}
use occj.Audit.{record_audit}
use occj.Stage.{advance_stage}
use occj.Reconciliation.Timeline.{current_evidence}
use occj.Reconciliation.Uncertainty.{open_flags}
use occj.Hypotheses.Proposals.{generate_via_llm}
use occj.Hypotheses.Specs.{source_weight, template_specs, Merged, merge_by_category}
use occj.Hypotheses.Dropped.{dropped_citations}
use occj.Hypotheses.Confidence.{confidence_of, links_of}

-- `created.sort(key=lambda h: h.confidence, reverse=True)`: equals keep their order
unfoldable pub insert_ranked : Hypothesis → List Hypothesis → List Hypothesis
insert_ranked h [] = h ∷ []
insert_ranked h (g ∷ gs) =
    let rest = g ∷ insert_ranked h gs in
    if lt_float g.confidence h.confidence then h ∷ g ∷ gs else rest

unfoldable pub rank_from : List Hypothesis → List Hypothesis → List Hypothesis
unfolding insert_ranked
rank_from ranked [] = ranked
rank_from ranked (h ∷ hs) = rank_from (insert_ranked h ranked) hs

unfoldable pub rank : List Hypothesis → List Hypothesis
unfolding rank_from lt_float
rank = rank_from []

-- `max((h.confidence for h in hypotheses), default=0.0)`
unfoldable pub top_confidence : List Hypothesis → Float
unfolding max_float
top_confidence [] = f0
top_confidence (h ∷ []) = h.confidence
top_confidence (h ∷ g ∷ hs) = max_float h.confidence (top_confidence (g ∷ hs))

-- the record of a citation, if it is among the evidence
unfoldable pub cited : List EvidenceRecord → String → Option EvidenceRecord
cited evidence key = first (λ e. e.id == key) evidence

unfoldable pub valid_citations : List EvidenceRecord → List String → List EvidenceRecord
unfolding cited
valid_citations evidence [] = []
valid_citations evidence (key ∷ rest) =
    let others = valid_citations evidence rest in
    elim (cited evidence key) [ none ↦ others | some rec ↦ rec ∷ others ]

module _ (env : Env) where
  unfoldable pub link_evidence : String → EvidenceRelation → EvidenceRecord → M Unit
  unfolding source_weight
  link_evidence hypothesis_id relation rec = do
    key ← new_id env.supply
    add_link (record {
      id = key;
      hypothesis_id = hypothesis_id;
      evidence_record_id = rec.id;
      relation = relation;
      weight = source_weight rec.source_type;
      note = none;
    })

  unfoldable pub compute_confidence : String → M Float
  unfolding confidence_of links_of
  compute_confidence hypothesis_id =
      gets (λ s. confidence_of env.arith (links_of hypothesis_id s.links))

  -- `Hypothesis(...)`, of a key and a time
  abbrev pub drafted : String → Items → Merged → String → ℕ → Hypothesis
  drafted case_id dropped spec key now = record {
    id = key;
    case_id = case_id;
    category = spec.category;
    title = spec.title;
    narrative = spec.narrative;
    confidence = f0;
    status = HypothesisStatus.active;
    generation_context =
        field "source" (str spec.source) (field "dropped_evidence_ids" (arr dropped) end);
    superseded_by_id = none;
    updated_at = now;
  }

  -- what is done once the supporting links are there; `hypothesis` is its row, so what is returned
  -- is the row in the end
  unfoldable pub finish_hypothesis :
      String → Items → Merged → List EvidenceRecord → Hypothesis → M Hypothesis
  unfolding link_evidence compute_confidence find_hypothesis
  finish_hypothesis case_id dropped spec weaken hypothesis = do
    for_each weaken (link_evidence hypothesis.id EvidenceRelation.weakens)
    confidence ← compute_confidence hypothesis.id
    set_hypothesis hypothesis.id (λ h. record h { confidence = confidence })
    row ← the_hypothesis hypothesis.id
    record_audit env.supply (record {
      case_id = some case_id;
      entity_type = "hypothesis";
      entity_id = hypothesis.id;
      event = "created";
      actor_type = if spec.source == "llm" then ActorType.ai_inference else ActorType.system;
      actor_id = some "hypothesis_engine";
      payload = field "category" (str spec.category) (
          field "confidence" (num row.confidence) (field "dropped_evidence_ids" (arr dropped) end));
    })
    pure row

  -- a spec with a valid supporting citation becomes a hypothesis with its links
  unfoldable pub create_hypothesis :
      String → Items → Merged → List EvidenceRecord → List EvidenceRecord → M Hypothesis
  unfolding link_evidence finish_hypothesis
  create_hypothesis case_id dropped spec support weaken = do
    now ← utcnow env.supply
    key ← new_id env.supply
    let hypothesis = drafted case_id dropped spec key now
    add_hypothesis hypothesis
    for_each support (link_evidence key EvidenceRelation.supports)
    finish_hypothesis case_id dropped spec weaken hypothesis

  -- the loop over the specs: an ungrounded one is passed over
  unfoldable pub create_all : String → List EvidenceRecord → List Merged → M (List Hypothesis)
  unfolding create_hypothesis valid_citations dropped_citations
  create_all case_id evidence [] = pure []
  create_all case_id evidence (spec ∷ specs) =
      let support = valid_citations evidence spec.supporting_evidence_ids in
      let weaken = valid_citations evidence spec.weakening_evidence_ids in
      let others = create_all case_id evidence specs in
      if ltb 0 (length support)
      then (do
        dropped ← or_raise (dropped_citations env.arith evidence spec) value_error
        h ← create_hypothesis case_id dropped spec support weaken
        rest ← others
        pure (h ∷ rest))
      else others

  unfoldable pub reevaluate : String → List Hypothesis → Hypothesis → M Unit
  unfolding top_confidence lt_float
  reevaluate case_id previous top =
      let before = top_confidence previous in
      let delta = env.arith.abs (env.arith.sub top.confidence before) in
      when (ltb 0 (length previous) && lt_float env.settings.reevaluation_confidence_delta delta)
        (do
          set_case case_id
              (λ c. record c { needs_reevaluation = true; stage = JourneyStage.failure_located })
          record_audit env.supply (record {
            case_id = some case_id;
            entity_type = "case";
            entity_id = case_id;
            event = "reevaluation_triggered";
            actor_type = ActorType.system;
            actor_id = some "hypothesis_engine";
            payload =
                field "previous_top_confidence" (num before)
                  (field "new_top_confidence" (num top.confidence) (field "delta" (num delta) end));
          }))

  unfoldable pub supersede : Hypothesis → M Unit
  supersede h = set_hypothesis h.id (λ x. record x { status = HypothesisStatus.superseded })

  -- from `if not created` on; `top` is the first of the ranking
  unfoldable pub adopt : String → List Hypothesis → List Hypothesis → M (List Hypothesis)
  unfolding reevaluate supersede
  adopt case_id previous [] = pure []
  adopt case_id previous (top ∷ others) = do
    for_each previous supersede
    set_case case_id (λ c. record c { primary_hypothesis_id = some top.id })
    advance_stage env.supply case_id JourneyStage.failure_located
    reevaluate case_id previous top
    pure (top ∷ others)

  abbrev pub active_of : String → Db → List Hypothesis
  active_of case_id s =
      select (λ h. h.case_id == case_id && h.status == HypothesisStatus.active) s.hypotheses

  -- from `if not specs` on
  unfoldable pub store_specs : String → List EvidenceRecord → List Spec → M (List Hypothesis)
  unfolding merge_by_category create_all rank adopt
  store_specs case_id evidence specs = if not (ltb 0 (length specs)) then pure [] else do
    previous ← gets (active_of case_id)
    created ← create_all case_id evidence (merge_by_category env specs)
    adopt case_id previous (rank created)

  -- what is done where there is evidence
  unfoldable pub propose_and_store : String → List EvidenceRecord → M (List Hypothesis)
  unfolding open_flags generate_via_llm template_specs store_specs
  propose_and_store case_id evidence = do
    flags ← gets (open_flags env case_id)
    proposed ← generate_via_llm env evidence flags
    store_specs case_id evidence (or_else proposed (template_specs env flags))

  unfoldable pub generate_or_update_hypotheses : String → M (List Hypothesis)
  unfolding current_evidence propose_and_store
  generate_or_update_hypotheses case_id = do
    case ← the_case case_id
    evidence ← gets (current_evidence case.customer_id)
    if not (ltb 0 (length evidence)) then pure [] else propose_and_store case_id evidence
