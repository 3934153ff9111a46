-- ===== src/Frame/Basics.antt =====
-- Approvals and ingestion, for every relation that the single writes respect.
use occj.Prelude.{ℕ, String, Option}
use occj.Models.Enums.{ApprovalStatus}
use occj.Models.Rows.{User, EvidenceRecord}
use occj.Session.Steps.{Relation, Steps}
use occj.Env.{Env}
use occj.Approvals.{decide_approval}
use occj.Reconciliation.Ingest.{
  Delivery, ingest_duplicate, ingest_correction, ingest_new, ingest_evidence,
}
use occj.Frame.{Frame, Ruling, rules_approval-Steps, rules_action-Steps, frame_rules}

module _ (env : Env) {R : Relation} {may : String → Type 0} (fr : Frame env R may) where
  pub decide_approval-Steps :
      (ru : Ruling R) (approval_id : String) (d : ApprovalStatus) (user : User)
      (why : Option String)
      → Steps R (decide_approval env.supply approval_id d user why)
  unfolding decide_approval
  decide_approval-Steps ru approval_id d user why =
      search (frame_rules, rules_approval-Steps, rules_action-Steps) depth 24

  module _ (d : Delivery) where
    ingest_duplicate-Steps : (now : ℕ) (r : EvidenceRecord) → Steps R (ingest_duplicate env d now r)
    unfolding ingest_duplicate
    ingest_duplicate-Steps now r = search frame_rules depth 24

    ingest_correction-Steps :
        (now : ℕ) (r : EvidenceRecord) → Steps R (ingest_correction env d now r)
    unfolding ingest_correction
    ingest_correction-Steps now r = search frame_rules depth 24

    ingest_new-Steps : (now : ℕ) → Steps R (ingest_new env d now)
    unfolding ingest_new
    ingest_new-Steps now = search frame_rules depth 24

    pub ingest_evidence-Steps : Steps R (ingest_evidence env d)
    unfolding ingest_evidence
    ingest_evidence-Steps =
        search (frame_rules, ingest_duplicate-Steps, ingest_correction-Steps, ingest_new-Steps)
          depth 24
