-- ===== src/Frame/Requests.antt =====
-- `_propose` of backend/app/engine/nba_engine.py, for every relation that an added request respects.
use occj.Prelude.{String, ◌≡◌, refl, Bool, true, false, ◌&&◌, if◌then◌else◌}
use occj.Models.Enums.{ActionStatus}
use occj.Models.Rows.{ActionRequest}
use occj.Session.Steps.{Relation, Steps}
use occj.Session.Tables.{add_action}
use occj.Env.{Env}
use occj.Nba.Propose.{Proposal, ask_approval, request, propose}
use occj.Frame.{Core, Frame, runnable, core_rules}

pub runnable-requested :
    (b : Bool)
    → (b && runnable (if b then ActionStatus.pending_approval else ActionStatus.proposed)) ≡ false
runnable-requested true = refl
runnable-requested false = refl

pub ask_approval-Steps :
    {env : Env} {R : Relation} {may : String → Type 0} (c : Core env R may) (p : Proposal)
    (a : String)
    → Steps R (ask_approval env p a)
unfolding ask_approval
ask_approval-Steps c p a = search core_rules depth 24

module _ (env : Env) {R : Relation} {may : String → Type 0} (c : Core env R may)
    (adds : (r : ActionRequest)
      → (r.requires_approval && runnable r.status) ≡ false
      → Steps R (add_action r)) where
  request-Steps : (case_id : String) (p : Proposal) → Steps R (request env case_id p)
  unfolding request
  request-Steps case_id p =
      search (core_rules, adds, ask_approval-Steps, runnable-requested) depth 24

  added : (case_id : String) (p : Proposal) → Steps R (propose env case_id p)
  unfolding propose
  added case_id p = search (core_rules, request-Steps) depth 24

  -- a relation that every added request respects
  pub Frame-adding : Frame env R may
  Frame-adding = record { core = c; keeps_propose = added }
