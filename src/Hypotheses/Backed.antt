-- ===== src/Hypotheses/Backed.antt =====
-- `generate_or_update_hypotheses` of backend/app/engine/hypothesis_engine.py: a hypothesis that is
-- stored has evidence of the case's customer behind it.
use mathlib.Core.Path.{subst}
use occj.Prelude.{
  first_sound, Option-cases, inl, inr, String, ◌≡◌, refl, sym, ap, ◌∙◌, Bool, true, false, not,
  some, List, [], ◌∷◌, any, any-append, length, All, All-map, ltb, if◌then◌else◌, ◌==◌, eq_string,
  arith,
}
use occj.Models.Enums.{EvidenceRelation, eq_evidence_relation}
use occj.Models.Rows.{Case, EvidenceRecord, Hypothesis}
use occj.Models.Json.{Items}
use occj.Session.{
  value_error, or_raise, Db, attribute_error, ok, M, pure, gets, for_each, new_id, ◌>>=◌, ◌>>◌,
}
use occj.Session.Tables.{find_case, the_case, find_hypothesis, the_hypothesis, insert_link}
use occj.Session.Runs.{>>=-ok, gets-or_raise-ok}
use occj.Session.Steps.{Steps, Steps-for_each, >>=-eq-ok, stays}
use occj.Session.Yields.{Yields, Yields-pure, Yields-bind, Yields-kept}
use occj.Session.Ensures.{
  Ensures, Ensures-pure, Ensures-bind, Ensures-if, Ends, Ends-then, Ensures-both,
}
use occj.Session.History.{Extends-same, Kept, History}
use occj.Env.{Env, Spec}
use occj.Reconciliation.Timeline.{current_evidence}
use occj.Frame.Retained.{History-Frame}
use occj.Frame.Engine.{link_evidence-Steps, finish_hypothesis-Steps, create_all-Steps, adopt-Steps}
use occj.Hypotheses.Specs.{Merged, merge_by_category}
use occj.Hypotheses.Dropped.{dropped_citations}
use occj.Hypotheses.Generate.{
  cited, valid_citations, rank, active_of, link_evidence, finish_hypothesis, create_hypothesis,
  create_all, adopt, store_specs, propose_and_store, generate_or_update_hypotheses,
}
use occj.Hypotheses.Ranking.{All-rank_from}
use occj.Hypotheses.Current.{backs, Backed, Supported, Backed-Supported}
use occj.Hypotheses.Citations.{Grounded, valid_citations-Grounded}

-- links are never removed or changed
Kept-Backed :
    (evidence : List EvidenceRecord) (key : String) (s t : Db)
    → Kept s t
    → Backed evidence key s
    → Backed evidence key t
Kept-Backed evidence key s t kept h =
    let (l, same) = Extends-same s.links t.links kept.links in
    ap (any (backs evidence key)) same
    ∙ ground (arith, h, any-append (backs evidence key) s.links l)

abbrev InEvidence : List EvidenceRecord → EvidenceRecord → Type 0
InEvidence evidence r = any (λ (e : EvidenceRecord). e.id == r.id) evidence ≡ true

first_any :
    (evidence : List EvidenceRecord) (r : EvidenceRecord)
    → cited evidence r.id ≡ some r
    → InEvidence evidence r
unfolding cited
first_any [] r h = cc
first_any (e ∷ es) r h = ground (arith, h, first_any es r)

module _ (env : Env) (evidence : List EvidenceRecord) where
  link_evidence-Backed :
      (key : String) (r : EvidenceRecord)
      → InEvidence evidence r
      → Ends (Backed evidence key) (link_evidence env key EvidenceRelation.supports r)
  unfolding link_evidence new_id insert_link
  link_evidence-Backed key r h = record {
    after = λ s a t e.
        stays (Backed evidence key)
          (any-append (backs evidence key) s.links _
            ∙ ground (arith, h, (eq_string.beq_iff key key).1 refl))
          e;
  }

  the_hypothesis-own : (key : String) → Yields (λ h. h.id ≡ key) (the_hypothesis key)
  unfolding find_hypothesis
  the_hypothesis-own key = record {
    holds = λ s h t e. elim (Option-cases (find_hypothesis key s)) [
      | inl p ↦ let gone = sym (ap (λ o. or_raise o attribute_error s) p) ∙ e in cc
      | inr (r, p) ↦
          let there = sym (ap (λ o. or_raise o attribute_error s) p) ∙ e in
          let same : r ≡ h = cc in
          ap (λ (x : Hypothesis). x.id) (sym same)
          ∙ (eq_string.beq_iff r.id key).0
              (first_sound (λ (x : Hypothesis). x.id == key) s.hypotheses r p)
    ];
  }

  finish_hypothesis-own :
      (case_id : String) (dropped : Items) (spec : Merged) (weaken : List EvidenceRecord)
      (g : Hypothesis)
      → Yields (λ h. h.id ≡ g.id) (finish_hypothesis env case_id dropped spec weaken g)
  unfolding finish_hypothesis
  finish_hypothesis-own case_id dropped spec weaken g =
      search (Yields-bind, Yields-pure, Yields-kept, the_hypothesis-own) depth 14

  -- the links of the supporting records, and what follows them
  supported :
      (case_id : String) (dropped : Items) (spec : Merged) (r : EvidenceRecord)
      (support weaken : List EvidenceRecord) (g : Hypothesis)
      → InEvidence evidence r
      → Ensures
          (λ h. Backed evidence h.id)
          (for_each (r ∷ support) (link_evidence env g.id EvidenceRelation.supports)
            >> finish_hypothesis env case_id dropped spec weaken g)
  unfolding for_each
  supported case_id dropped spec r support weaken g known =
      let linked : Ends (Backed evidence g.id)
          (for_each (r ∷ support) (link_evidence env g.id EvidenceRelation.supports)) =
        Ends-then {R = History} (link_evidence env g.id EvidenceRelation.supports r)
          (λ z. for_each support (link_evidence env g.id EvidenceRelation.supports))
          (Kept-Backed evidence g.id) (link_evidence-Backed g.id r known)
          λ z.
            Steps-for_each support _
              (link_evidence-Steps env (History-Frame env) g.id EvidenceRelation.supports) in
      Ensures-both _
        (Ends-then {R = History} _ (λ z. finish_hypothesis env case_id dropped spec weaken g)
          (Kept-Backed evidence g.id) linked
          λ z. finish_hypothesis-Steps env (History-Frame env) case_id dropped spec weaken g)
        (Yields-bind _ (λ z. finish_hypothesis env case_id dropped spec weaken g)
          λ z. finish_hypothesis-own case_id dropped spec weaken g)
        λ h same s. subst (λ k. Backed evidence k s) (sym same)

  create_hypothesis-Backed :
      (case_id : String) (dropped : Items) (spec : Merged) (r : EvidenceRecord)
      (support weaken : List EvidenceRecord)
      → InEvidence evidence r
      → Ensures
          (λ h. Backed evidence h.id)
          (create_hypothesis env case_id dropped spec (r ∷ support) weaken)
  unfolding create_hypothesis
  create_hypothesis-Backed case_id dropped spec r support weaken known =
      search (Ensures-bind, supported, known) depth 14

  -- each of a list of values that are made in turn
  Ensures-cons :
      {P : Hypothesis → Db → Type 0} (m : M Hypothesis) (n : M (List Hypothesis))
      → ((h : Hypothesis) (s t : Db) → Kept s t → P h s → P h t)
      → Ensures P m
      → Steps History n
      → Ensures (λ hs s. All (λ h. P h s) hs) n
      → Ensures (λ hs s. All (λ h. P h s) hs) (m >>= λ h. n >>= λ rest. pure (h ∷ rest))
  Ensures-cons {P} m n lasts h k l = record {
    after = λ s hs u e.
        let (a, t, p, q) = >>=-eq-ok m (λ a. n >>= λ rest. pure (a ∷ rest)) s e in
        let (rest, v, x, y) = >>=-eq-ok n (λ rest. pure (a ∷ rest)) t q in
        let same : (a ∷ rest) ≡ hs = cc in
        let stay : v ≡ u = cc in
        subst (λ w. All (λ h. P h w) hs) stay
          (subst (All (λ h. P h v)) same
            (lasts a t v (k.at t rest v x) (h.after s a t p), l.after t rest v x));
  }

  abbrev AllBacked : List Hypothesis → Db → Type 0
  AllBacked hs s = All (λ (h : Hypothesis). Backed evidence h.id s) hs

  valid_citations-InEvidence :
      (keys : List String) → All (InEvidence evidence) (valid_citations evidence keys)
  unfolding cited
  valid_citations-InEvidence keys =
      All-map (λ r (g : Grounded evidence keys r). first_any evidence r g.0)
        (valid_citations evidence keys) (valid_citations-Grounded evidence keys)

  create_supported :
      (case_id : String) (dropped : Items) (spec : Merged) (support weaken : List EvidenceRecord)
      → All (InEvidence evidence) support
      → ltb 0 (length support) ≡ true
      → Ensures
          (λ h. Backed evidence h.id)
          (create_hypothesis env case_id dropped spec support weaken)
  create_supported case_id dropped spec [] weaken known h = cc
  create_supported case_id dropped spec (r ∷ support) weaken known h =
      create_hypothesis-Backed case_id dropped spec r support weaken known.0

  create_all-Backed :
      (case_id : String) (specs : List Merged)
      → Ensures AllBacked (create_all env case_id evidence specs)
  unfolding create_all
  create_all-Backed case_id [] = Ensures-pure [] λ s. tt
  create_all-Backed case_id (spec ∷ specs) =
      let others : Ensures AllBacked (create_all env case_id evidence specs) =
        create_all-Backed case_id specs in
      Ensures-if _ _ _
        (λ h.
          Ensures-bind (or_raise (dropped_citations env.arith evidence spec) value_error) _
            λ (dropped : Items).
              Ensures-cons (create_hypothesis env case_id dropped spec _ _)
                (create_all env case_id evidence specs) (λ g. Kept-Backed evidence g.id)
                (create_supported case_id dropped spec _ _
                  (valid_citations-InEvidence spec.supporting_evidence_ids) h)
                (create_all-Steps env (History-Frame env) case_id evidence specs) others)
        λ h. others

  AllBacked-Kept : (hs : List Hypothesis) (s t : Db) → Kept s t → AllBacked hs s → AllBacked hs t
  AllBacked-Kept hs s t k = All-map (λ h. Kept-Backed evidence h.id s t k) hs

  adopt-own :
      (case_id : String) (previous ranked : List Hypothesis)
      → Yields (λ hs. hs ≡ ranked) (adopt env case_id previous ranked)
  unfolding adopt
  adopt-own case_id previous [] = Yields-pure [] refl
  adopt-own case_id previous (top ∷ others) = search (Yields-bind, Yields-pure) depth 14

  store_specs-Backed :
      (case_id : String) (specs : List Spec)
      → Ensures AllBacked (store_specs env case_id evidence specs)
  unfolding store_specs rank
  store_specs-Backed case_id specs =
      Ensures-if _ _ _ (λ h. Ensures-pure [] λ s. tt)
        λ h. Ensures-bind (gets (active_of env case_id)) _ λ previous. record {
          after = λ s hs u e.
              let (created, t, p, q) =
                >>=-eq-ok (create_all env case_id evidence (merge_by_category env specs))
                  (λ created. adopt env case_id previous (rank created)) s e in
              let same = (adopt-own case_id previous (rank created)).holds t hs u q in
              subst (λ xs. AllBacked xs u) (sym same)
                (AllBacked-Kept (rank created) t u
                  ((adopt-Steps env (History-Frame env) case_id previous (rank created)).at t hs u
                    q)
                  (All-rank_from (λ h. Backed evidence h.id t) [] created tt
                    ((create_all-Backed case_id (merge_by_category env specs)).after s created t
                      p)));
        }

  propose_and_store-Backed :
      (case_id : String) → Ensures AllBacked (propose_and_store env case_id evidence)
  unfolding propose_and_store
  propose_and_store-Backed case_id = search (Ensures-bind, store_specs-Backed) depth 8

  guarded-Backed :
      (case_id : String) (b : Bool)
      → Ensures AllBacked (if b then pure [] else propose_and_store env case_id evidence)
  guarded-Backed case_id true = Ensures-pure [] λ s. tt
  guarded-Backed case_id false = propose_and_store-Backed case_id

-- Where a generation of hypotheses returns, every hypothesis that it returns has a link in the session
-- after it that supports it with a record of evidence that the session before had of the case's
-- customer, and that was neither superseded nor a duplicate.
pub generate_or_update_hypotheses-Backed :
    (env : Env) (case_id : String) (c : Case) (s t : Db) (created : List Hypothesis)
    → find_case case_id s ≡ some c
    → generate_or_update_hypotheses env case_id s ≡ ok (created, t)
    → All (λ (h : Hypothesis). Supported c.customer_id s h.id t) created
unfolding generate_or_update_hypotheses
generate_or_update_hypotheses-Backed env case_id c s t created found e =
    let evidence = current_evidence c.customer_id s in
    All-map (λ h. Backed-Supported c.customer_id s h.id t) created
      ((guarded-Backed env evidence case_id (not (ltb 0 (length evidence)))).after s created t (
        sym (
          >>=-ok (the_case case_id) _ s
            (gets-or_raise-ok (find_case case_id) attribute_error s found) refl)
        ∙ e))
