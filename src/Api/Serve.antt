-- ===== src/Api/Serve.antt =====
-- backend/app/api/routers: a client's requests, one after another, on one database.
use occj.Prelude.{String, Option}
use occj.Session.{Db, Error}
use occj.Session.Runs.{failure}
use occj.Env.{Env}
use occj.Api.Requests.{Outcome}
use occj.Api.Auth.{Tokens}
use occj.Api.Approvals.{ApprovalDecision, decide}
use occj.Api.Cases.{CaseCreate, open_case, advance}
use occj.Api.Evidence.{EvidenceIngest, ingest}
use occj.Api.Demo.{seed_demo_data}

-- The requests that write.
pub data Request : Type 0 where
  opening : CaseCreate → Request
  advancing : String → Request
  ingesting : EvidenceIngest → Request
  deciding : String → ApprovalDecision → Request
  seeding : Request

-- the error of the response, if any, and the database after it
abbrev pub summary : {A : Type 0} → Outcome A → Option Error × Db
summary o = (failure o.response, o.committed)

module _ (tokens : Tokens) (env : Env) where
  unfoldable pub handle : String → Request → Db → Option Error × Db
  handle token (opening body) s = summary (open_case tokens env token body s)
  handle token (advancing case_id) s = summary (advance tokens env token case_id s)
  handle token (ingesting body) s = summary (ingest tokens env token body s)
  handle token (deciding key body) s = summary (decide tokens env token key body s)
  handle token seeding s = summary (seed_demo_data tokens env token s)

  -- Requests of any callers, one after another. `P` is what the database management enforces of
  -- every database that it holds.
  pub data Served (P : Db → Type 0) (s : Db) : Db → Type 0 where
    idle : Served P s s
    served :
        {t : Db} (token : String) (r : Request)
        → Served P s t
        → P t
        → Served P s (handle token r t).1
