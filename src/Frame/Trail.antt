-- ===== src/Frame/Trail.antt =====
-- backend/app/engine, tools and reconciliation: what one run of an operation leaves of the
-- session before it.
use occj.Prelude.{String, ◌≡◌, List}
use occj.Models.Rows.{ActionRequest, EvidenceRecord}
use occj.Session.{Db, ok}
use occj.Session.History.{Kept}
use occj.Env.{Env}
use occj.Reconciliation.Ingest.{Delivery, ingest_evidence}
use occj.Tools.Executor.{execute_action}
use occj.CaseService.{run_case_cycle}
use occj.Frame.Basics.{ingest_evidence-Steps}
use occj.Frame.Service.{advance_case-Steps, execute_action-Steps, run_case_cycle-Steps}
use occj.Frame.Retained.{History-Frame}

module _ (env : Env) (s t : Db) where
  -- When a cycle of a case returns, every row that was there is still there, in its place: users,
  -- audit entries, flags, links, impact assessments and customers unchanged, and the rows of the other
  -- tables unchanged but for the columns that `Kept` names. No user is added.
  pub run_case_cycle-Kept :
      (case_id : String) (taken : List ActionRequest)
      → run_case_cycle env case_id s ≡ ok (taken, t)
      → Kept s t
  run_case_cycle-Kept case_id taken =
      (run_case_cycle-Steps env (History-Frame env)
          (advance_case-Steps env (History-Frame env) (λ k. tt)) case_id).at
        s taken t

  -- When the execution of an action returns, whatever the connector answered, no row is lost and no
  -- written-once column of one is changed.
  pub execute_action-Kept :
      (a done : ActionRequest) → execute_action env a s ≡ ok (done, t) → Kept s t
  execute_action-Kept a done = (execute_action-Steps env (History-Frame env) a tt).at s done t

  -- When an ingestion returns, every row that was there is still there, in its place, and of the
  -- evidence records only the mark of being superseded may have changed.
  pub ingest_evidence-Kept :
      (d : Delivery) (r : EvidenceRecord) → ingest_evidence env d s ≡ ok (r, t) → Kept s t
  ingest_evidence-Kept d r = (ingest_evidence-Steps env (History-Frame env) d).at s r t
