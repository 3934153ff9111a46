-- ===== src/Api/Served.antt =====
-- backend/app/api/routers: what any sequence of requests leaves.
use occj.Prelude.{ℕ, ◌+◌, String, ◌≡◌, true, Option, none, some, [], leb}
use occj.Models.Enums.{ApprovalStatus}
use occj.Models.Rows.{User, Case}
use occj.Session.{Db, ok}
use occj.Session.Steps.{Relation, Steps}
use occj.Session.History.{Kept}
use occj.Session.Tables.{find_case}
use occj.Env.{Env}
use occj.Approvals.{decide_approval}
use occj.CaseService.{advance_case}
use occj.Replay.{Replay, replay_case_state}
use occj.Replay.Traced.{Traced}
use occj.Replay.Faithful.{Tracing-Frame, Tracing-Ruling, Traced-replay}
use occj.Frame.{Frame}
use occj.Frame.Basics.{decide_approval-Steps}
use occj.Frame.Service.{advance_case-Steps}
use occj.Frame.Retained.{History-Frame, History-Ruling}
use occj.Frame.Singular.{Singular, Singly-Frame, Singly-Ruling}
use occj.Gate.Licence.{Sanctioned}
use occj.Gate.Ruled.{Keyed, decide_approval-Sanctioned}
use occj.Gate.Writes.{Licensing-Frame}
use occj.Gate.Cycle.{Holds-none, advance-Licensing}
use occj.Api.Auth.{Tokens}
use occj.Seed.Keeps.{StandsIn, rules-StandsIn, seed_all-Steps}
use occj.Seed.Licensed.{stand_in-Sanctioned}
use occj.Api.Keeps.{
  open_case-keeps, advance-keeps, ingest-keeps, decide-keeps, seed_demo_data-keeps,
}
use occj.Api.Serve.{
  Request, opening, advancing, ingesting, deciding, seeding, handle, Served, idle, served,
}

module _ (tokens : Tokens) (env : Env) where
  module _ {R : Relation} {may : String → Type 0} (fr : Frame env R may)
      (advances : (case_id : String) → Steps R (advance_case env case_id))
      (stands : StandsIn env R) where
    -- every decision on this database respects the relation
    abbrev Decides : Db → Type 0
    Decides s =
        (key : String) (d : ApprovalStatus) (user : User) (why : Option String) (t : Db)
        → decide_approval env.supply key d user why s ≡ ok (tt, t)
        → R.rel s t

    handle-keeps :
        (token : String) (r : Request) (s : Db)
        → Decides s
        → R.rel s (handle tokens env token r s).1
    unfolding handle
    handle-keeps token (opening body) s h = open_case-keeps tokens env fr advances token body s
    handle-keeps token (advancing case_id) s h =
        advance-keeps tokens env fr advances token case_id s
    handle-keeps token (ingesting body) s h = ingest-keeps tokens env fr advances token body s
    handle-keeps token (deciding key body) s h =
        decide-keeps tokens env fr advances token key body s λ user. h key _ user _
    handle-keeps token seeding s h =
        seed_demo_data-keeps tokens env fr advances (seed_all-Steps env fr advances stands) token s

    Served-keeps :
        {P : Db → Type 0} {s t : Db}
        → ((u : Db) → P u → Decides u)
        → Served tokens env P s t
        → R.rel s t
    Served-keeps {P} {s} h idle = R.reflexive s
    Served-keeps {P} {s} h (served {t} token r before p) =
        R.transitive s t _ (Served-keeps h before) (handle-keeps token r t (h t p))

  -- Whatever requests are served, by whomever and however each of them ends, every row that the
  -- database held is still there, in its place, and only the columns that `Kept` names may differ:
  -- no audit entry is ever changed or removed, and the users are unchanged.
  pub Served-Kept : {P : Db → Type 0} {s t : Db} → Served tokens env P s t → Kept s t
  Served-Kept =
      Served-keeps (History-Frame env) (advance_case-Steps env (History-Frame env) (λ k. tt))
        (rules-StandsIn env History-Ruling)
        λ u p key d user why t.
          (decide_approval-Steps env (History-Frame env) History-Ruling key d user why).at u tt t

  -- While the keys of approvals are distinct: whatever requests are served, if every execution so
  -- far is of an action that needs no approval or has an approved one, and every action that is
  -- ready to run is such an action, then this holds of the database after them.
  pub Served-Sanctioned : {s t : Db} → Sanctioned s → Served tokens env Keyed s t → Sanctioned t
  Served-Sanctioned {s} {t} h k =
      (Served-keeps (Licensing-Frame [] env) (advance-Licensing env)
        (λ case_id v w p e k held.
          Holds-none w (stand_in-Sanctioned env case_id v w p e k held.sanctioned))
        (λ u one key d user why v e held.
          Holds-none v
            (decide_approval-Sanctioned env.supply key d user why u v one held.sanctioned e))
        k (Holds-none s h)).sanctioned

  -- Whatever requests are served, if no two action requests had the same idempotency key, then no two
  -- have it after them: no action is requested twice.
  pub Served-Singular :
      {P : Db → Type 0} {s t : Db} → Singular s → Served tokens env P s t → Singular t
  Served-Singular {P} {s} {t} h k =
      Served-keeps (Singly-Frame env) (advance_case-Steps env (Singly-Frame env) (λ key. tt))
        (rules-StandsIn env Singly-Ruling)
        (λ u p key d user why v.
          (decide_approval-Steps env (Singly-Frame env) Singly-Ruling key d user why).at u tt v)
        k h

module _ (tokens : Tokens) (env : Env) (cid : String)
    (tick : (n : ℕ) → leb (env.supply.clock n) (env.supply.clock (n + 1)) ≡ true) where
  -- While the clock does not go back: if the trail of a case agreed with it, then whatever requests
  -- are served, the replay of its whole trail arrives, and at the stage that the case then has.
  pub Served-replay :
      {P : Db → Type 0} {s t : Db}
      → Traced env.supply cid s
      → Served tokens env P s t
      → (r : Replay) × (c : Case) × (replay_case_state cid none t ≡ some r)
        × (find_case cid t ≡ some c)
        × (r.stage ≡ c.stage)
  Served-replay {P} {s} {t} h k = Traced-replay env cid tick t (
      Served-keeps tokens env (Tracing-Frame env cid tick)
        (advance_case-Steps env (Tracing-Frame env cid tick) (λ key. tt))
        (rules-StandsIn env (Tracing-Ruling env cid tick))
        (λ u p key d user why v.
          (decide_approval-Steps env (Tracing-Frame env cid tick) (Tracing-Ruling env cid tick) key
              d user why).at
            u tt v)
        k h)
