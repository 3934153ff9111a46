-- ===== src/Hypotheses/Confidence.antt =====
-- `compute_confidence` of backend/app/engine/hypothesis_engine.py, on the links of a hypothesis.
use occj.Prelude.{String, List, [], ◌∷◌, select, ◌==◌, eq_string, if◌then◌else◌}
use occj.Models.Enums.{EvidenceRelation, eq_evidence_relation}
use occj.Models.Float.{Float, Arith, f0, f1}
use occj.Models.Rows.{EvidenceLink}

module _ (ar : Arith) where
  -- the sums of the loop, `supports` and `weakens`
  unfoldable pub weigh : Float × Float → List EvidenceLink → Float × Float
  weigh totals [] = totals
  weigh (supports, weakens) (link ∷ links) =
      weigh
        (if link.relation == EvidenceRelation.supports
          then (ar.add supports link.weight, weakens)
          else (supports, ar.add weakens link.weight))
        links

  unfoldable pub ratio : Float × Float → Float
  ratio (supports, weakens) = ar.round (ar.div supports (ar.add (ar.add supports weakens) f1)) 4

  unfoldable pub confidence_of : List EvidenceLink → Float
  unfolding weigh ratio
  confidence_of links = ratio (weigh (f0, f0) links)

unfoldable pub links_of : String → List EvidenceLink → List EvidenceLink
links_of hypothesis_id = select (λ l. l.hypothesis_id == hypothesis_id)
