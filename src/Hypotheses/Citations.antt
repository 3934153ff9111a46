-- ===== src/Hypotheses/Citations.antt =====
-- backend/app/engine/hypothesis_engine.py: the citations of a hypothesis.
use mathlib.Core.Path.{subst}
use occj.Prelude.{
  String, ◌≡◌, refl, sym, true, Option, none, some, List, [], ◌∷◌, first, first_sound, contains,
  All, All-map, ◌==◌, eq_string, arith,
}
use occj.Models.Rows.{EvidenceRecord}
use occj.Hypotheses.Generate.{cited, valid_citations}

-- the record that the evidence has under its key, which is one of the citations
abbrev pub Grounded : List EvidenceRecord → List String → EvidenceRecord → Type 0
Grounded evidence keys r = (cited evidence r.id ≡ some r) × (contains keys r.id ≡ true)

module _ (evidence : List EvidenceRecord) where
  cited-own :
      (key : String) (r : EvidenceRecord)
      → cited evidence key ≡ some r
      → (r.id ≡ key) × (cited evidence r.id ≡ some r)
  unfolding cited
  cited-own key r h =
      let same = (eq_string.beq_iff r.id key).0 (first_sound (λ e. e.id == key) evidence r h) in
      (same, subst (λ k. first (λ e. e.id == k) evidence ≡ some r) (sym same) h)

  -- Whatever a proposal cites, every record that is kept is the one that the evidence has under its
  -- key, and it was cited.
  pub valid_citations-Grounded :
      (keys : List String) → All (Grounded evidence keys) (valid_citations evidence keys)
  unfolding valid_citations
  valid_citations-Grounded [] = tt
  valid_citations-Grounded (key ∷ keys) =
      let rest : All (Grounded evidence (key ∷ keys)) (valid_citations evidence keys) =
        All-map (λ r h. (h.0, ground (arith, h.1))) (valid_citations evidence keys)
          (valid_citations-Grounded keys) in
      split (cited evidence key) refl rest
    where
      split :
          (o : Option EvidenceRecord)
          → cited evidence key ≡ o
          → All (Grounded evidence (key ∷ keys)) (valid_citations evidence keys)
          → All (Grounded evidence (key ∷ keys)) (elim o [
            | none ↦ valid_citations evidence keys
            | some r ↦ r ∷ valid_citations evidence keys
          ])
      split none h rest = rest
      split (some r) h rest =
          let (same, own) = cited-own key r h in
          ((own, ground (arith, (eq_string.beq_iff key r.id).1 (sym same))), rest)
