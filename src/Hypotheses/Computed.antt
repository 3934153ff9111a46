-- ===== src/Hypotheses/Computed.antt =====
-- `create_hypothesis`, a round of the loop of `generate_or_update_hypotheses` of
-- backend/app/engine/hypothesis_engine.py: what is stored, and where the confidence comes from.
use occj.Prelude.{
  String, ◌≡◌, refl, sym, ap, ◌∙◌, not, ◌&&◌, none, some, List, [], ◌∷◌, ◌++◌, map, map-append,
  append-nil, append_assoc, first, first-update, ◌==◌, eq_string, if◌then◌else◌, arith, ◌+◌,
}
use occj.Models.Enums.{EvidenceRelation, eq_evidence_relation}
use occj.Models.Float.{Float, f0, f1}
use occj.Models.Json.{Items}
use occj.Models.Rows.{EvidenceRecord, EvidenceLink, Hypothesis}
use occj.Session.{Db, ok, for_each, new_id, utcnow, attribute_error}
use occj.Session.Runs.{>>=-ok, gets-or_raise-ok}
use occj.Session.Tables.{
  insert_hypothesis, assign_hypothesis, find_hypothesis, the_hypothesis, insert_link,
}
use occj.Env.{Env}
use occj.Audit.{record_audit}
use occj.Hypotheses.Specs.{Merged, source_weight}
use occj.Hypotheses.Confidence.{confidence_of, weigh, ratio, links_of}
use occj.Hypotheses.Generate.{
  link_evidence, compute_confidence, finish_hypothesis, create_hypothesis, drafted,
}

-- a link without its own key
pub record Citation : Type 0 where
  pub hypothesis_id : String
  pub evidence_record_id : String
  pub relation : EvidenceRelation
  pub weight : Float

abbrev pub citation_of : EvidenceLink → Citation
citation_of l = record {
  hypothesis_id = l.hypothesis_id;
  evidence_record_id = l.evidence_record_id;
  relation = l.relation;
  weight = l.weight;
}

abbrev pub cites : String → EvidenceRelation → EvidenceRecord → Citation
cites key r rec = record {
  hypothesis_id = key;
  evidence_record_id = rec.id;
  relation = r;
  weight = source_weight rec.source_type;
}

-- the links of a session after records were cited
abbrev Linked : List Citation → Db → Db → Type 0
Linked cs s t =
    (t.hypotheses ≡ s.hypotheses) × (map citation_of t.links ≡ map citation_of s.links ++ cs)

weakens-not :
    (r : EvidenceRelation) → (r == EvidenceRelation.weakens) ≡ not (r == EvidenceRelation.supports)
weakens-not EvidenceRelation.supports = refl
weakens-not EvidenceRelation.weakens = refl

first-appended :
    (key : String) (h : Hypothesis) (xs : List Hypothesis)
    → h.id ≡ key
    → first (λ r. r.id == key) xs ≡ none
    → first (λ r. r.id == key) (xs ++ h ∷ []) ≡ some h
first-appended key h [] own gone =
    ap (λ b. if b then some h else none) ((eq_string.beq_iff h.id key).1 own)
first-appended key h (x ∷ xs) own gone = ground (arith, first-appended key h xs own)

module _ (env : Env) where
  -- the sum of the weights of the links of a hypothesis that have a relation, in their order
  unfoldable pub total : String → EvidenceRelation → Float → List EvidenceLink → Float
  total key r sum [] = sum
  total key r sum (l ∷ ls) =
      total key r
        (if l.hypothesis_id == key && l.relation == r then env.arith.add sum l.weight else sum) ls

  -- the rounded ratio of the supporting weight to all of it and one
  abbrev pub Computed : Hypothesis → Db → Type 0
  Computed h t =
      let supports = total h.id EvidenceRelation.supports f0 t.links in
      let weakens = total h.id EvidenceRelation.weakens f0 t.links in
      h.confidence
      ≡ env.arith.round (env.arith.div supports (env.arith.add (env.arith.add supports weakens) f1))
          4

  abbrev pub Created : List EvidenceRecord → List EvidenceRecord → Db → Hypothesis → Db → Type 0
  Created support weaken s h t =
      (h.id ≡ env.supply.key s.ids)
      × (find_hypothesis h.id t ≡ some h)
      × (map citation_of t.links
          ≡ (map citation_of s.links ++ map (cites h.id EvidenceRelation.supports) support)
            ++ map (cites h.id EvidenceRelation.weakens) weaken)
      × Computed h t

  weigh-total :
      (key : String) (a b : Float) (ls : List EvidenceLink)
      → weigh env.arith (a, b) (links_of key ls)
        ≡ (total key EvidenceRelation.supports a ls, total key EvidenceRelation.weakens b ls)
  unfolding weigh links_of total
  weigh-total key a b [] = refl
  weigh-total key a b (l ∷ ls) = ground (
    arith,
    weakens-not l.relation,
    weigh-total key a b ls,
    weigh-total key (env.arith.add a l.weight) b ls,
    weigh-total key a (env.arith.add b l.weight) ls,
  )

  link_evidence-Linked :
      (key : String) (r : EvidenceRelation) (rec : EvidenceRecord) (s : Db)
      → (t : Db) × (link_evidence env key r rec s ≡ ok (tt, t)) × Linked (cites key r rec ∷ []) s t
  unfolding link_evidence new_id insert_link
  link_evidence-Linked key r rec s = (_, refl, (refl, map-append citation_of s.links _))

  links-Linked :
      (key : String) (r : EvidenceRelation) (recs : List EvidenceRecord) (s : Db)
      → (t : Db) × (for_each recs (link_evidence env key r) s ≡ ok (tt, t))
        × Linked (map (cites key r) recs) s t
  unfolding for_each
  links-Linked key r [] s = (s, refl, (refl, sym (append-nil _)))
  links-Linked key r (x ∷ xs) s =
      let (t, p, (same, here)) = link_evidence-Linked key r x s in
      let (u, q, (rest, there)) = links-Linked key r xs t in
      (
        u,
        >>=-ok (link_evidence env key r x) (λ z. for_each xs (link_evidence env key r)) s p q,
        (
          rest ∙ same,
          there
              ∙ ap (λ cs. cs ++ map (cites key r) xs) here
              ∙ append_assoc (map citation_of s.links) (cites key r x ∷ []) (map (cites key r) xs),
        ),
      )

  finish_hypothesis-Computed :
      (case_id : String) (dropped : Items) (spec : Merged) (weaken : List EvidenceRecord)
      (g : Hypothesis) (s : Db)
      → find_hypothesis g.id s ≡ some g
      → (h : Hypothesis) × (t : Db) × (finish_hypothesis env case_id dropped spec weaken g s
          ≡ ok (h, t))
        × (h.id ≡ g.id)
        × (find_hypothesis h.id t ≡ some h)
        × (map citation_of t.links
            ≡ map citation_of s.links ++ map (cites g.id EvidenceRelation.weakens) weaken)
        × Computed h t
  unfolding finish_hypothesis compute_confidence record_audit new_id utcnow assign_hypothesis
      find_hypothesis confidence_of ratio
  finish_hypothesis-Computed case_id dropped spec weaken g s found =
      let (v, p, (same, linked)) = links-Linked g.id EvidenceRelation.weakens weaken s in
      let c = confidence_of env.arith (links_of g.id v.links) in
      let row = record g { confidence = c } in
      let assigned = assign_hypothesis g.id (λ h. record h { confidence = c }) v in
      let there : find_hypothesis g.id assigned ≡ some row =
        first-update (λ (r : Hypothesis). r.id == g.id) (λ h. record h { confidence = c })
          v.hypotheses g (λ x q. q) (ap (first (λ (r : Hypothesis). r.id == g.id)) same ∙ found) in
      (
        row,
        _,
        >>=-ok (for_each weaken (link_evidence env g.id EvidenceRelation.weakens)) _ s p (
            >>=-ok (the_hypothesis g.id) _ assigned
              (gets-or_raise-ok (find_hypothesis g.id) attribute_error assigned there) refl),
        refl,
        there,
        linked,
        ap (ratio env.arith) (weigh-total g.id f0 f0 v.links),
      )

  -- Where the key that a new row is given is of no hypothesis: a hypothesis is created whatever was
  -- proposed, it has that key and is the row that the session then has of it, the links are, apart from
  -- their own keys, those from before, then those of the supporting and then those of the weakening
  -- records, and the confidence is the rounded ratio of the weight of the links that support the
  -- hypothesis to the sum of that weight, the weight of those that weaken it and one.
  pub create_hypothesis-Computed :
      (case_id : String) (dropped : Items) (spec : Merged) (support weaken : List EvidenceRecord)
      (s : Db)
      → find_hypothesis (env.supply.key s.ids) s ≡ none
      → (h : Hypothesis) × (t : Db) × (create_hypothesis env case_id dropped spec support weaken s
          ≡ ok (h, t))
        × Created support weaken s h t
  unfolding create_hypothesis new_id utcnow insert_hypothesis find_hypothesis
  create_hypothesis-Computed case_id dropped spec support weaken s fresh =
      let key = env.supply.key s.ids in
      let draft = drafted env case_id dropped spec key (env.supply.clock s.reads) in
      let (v, p, (same, linked)) =
        links-Linked key EvidenceRelation.supports support
          (insert_hypothesis draft (record s { ids = s.ids + 1; reads = s.reads + 1 })) in
      let found : find_hypothesis key v ≡ some draft =
        ap (first (λ (r : Hypothesis). r.id == key)) same
        ∙ first-appended key draft s.hypotheses refl fresh in
      let (h, t, q, own, there, cited, computed) =
        finish_hypothesis-Computed case_id dropped spec weaken draft v found in
      (
        h,
        t,
        >>=-ok (for_each support (link_evidence env key EvidenceRelation.supports)) _ _ p q,
        (
          own,
          there,
          cited
              ∙ ap (λ cs. cs ++ map (cites key EvidenceRelation.weakens) weaken) linked
              ∙ ap
                  (λ k.
                    (map citation_of s.links ++ map (cites k EvidenceRelation.supports) support)
                    ++ map (cites k EvidenceRelation.weakens) weaken)
                  (sym own),
          computed,
        ),
      )
