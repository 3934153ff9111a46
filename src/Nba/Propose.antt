-- ===== src/Nba/Propose.antt =====
-- The queries of backend/app/engine/nba_engine.py and `_propose`: a decision is written down once.
use occj.Prelude.{
  String, Bool, false, true, ◌&&◌, Option, none, some, List, [], ◌∷◌, select, first, ◌==◌,
  eq_string, fstring, if◌then◌else◌,
}
use occj.Models.Enums.{
  ActionStatus, ActionType, action_type_value, eq_action_type, eq_action_status, ActorType,
  ApprovalStatus, CaseStatus, JourneyStage,
}
use occj.Models.Float.{Float}
use occj.Models.Json.{Fields, bool, obj, str, field, end}
use occj.Models.Rows.{ActionRequest}
use occj.Session.{Db, M, pure, gets, new_id, skip, when, on_option, ◌>>=◌, ◌>>◌}
use occj.Session.Tables.{set_case, add_action, add_approval}
use occj.Env.{Env}
use occj.Audit.{record_audit}
use occj.Stage.{advance_stage}

-- `status in LIVE_STATUSES`
unfoldable pub is_live : ActionStatus → Bool
is_live ActionStatus.proposed = true
is_live ActionStatus.pending_approval = true
is_live ActionStatus.approved = true
is_live ActionStatus.executing = true
is_live _ = false

unfoldable pub live_action : String → Db → Option ActionRequest
unfolding is_live
live_action case_id s = first (λ a. a.case_id == case_id && is_live a.status) s.actions

unfoldable pub actions_of_type : String → ActionType → Db → List ActionRequest
actions_of_type case_id t s = select (λ a. a.case_id == case_id && a.action_type == t) s.actions

unfoldable pub find_key : String → Db → Option ActionRequest
find_key key s = first (λ a. a.idempotency_key == key) s.actions

-- The keyword arguments of `_propose`.
pub record Proposal : Type 0 where
  pub action_type : ActionType
  pub target : Fields
  pub rationale : String
  pub expected_value : Float
  pub requires_approval : Bool
  pub discriminator : String
  pub approval_role : Option String
  pub case_status : Option CaseStatus
  pub stage : Option JourneyStage

module _ (env : Env) where
  unfoldable pub idempotency_key : String → ActionType → String → String
  idempotency_key case_id t discriminator =
      env.digest (fstring (case_id ∷ ":" ∷ action_type_value t ∷ ":" ∷ discriminator ∷ []))

  -- the row that a proposal becomes
  abbrev pub requested : String → Proposal → String → ActionRequest
  requested case_id p key = record {
    id = key;
    case_id = case_id;
    action_type = p.action_type;
    target = p.target;
    rationale = p.rationale;
    expected_value = p.expected_value;
    status = if p.requires_approval then ActionStatus.pending_approval else ActionStatus.proposed;
    requires_approval = p.requires_approval;
    idempotency_key = idempotency_key case_id p.action_type p.discriminator;
    decided_at = none;
  }

  -- `approval_role or "supervisor"`
  abbrev pub role_or_supervisor : Option String → String
  role_or_supervisor none = "supervisor"
  role_or_supervisor (some r) = if r == "" then "supervisor" else r

  unfoldable pub ask_approval : Proposal → String → M Unit
  ask_approval p action_id = do
    key ← new_id env.supply
    add_approval (record {
      id = key;
      action_request_id = action_id;
      required_role = role_or_supervisor p.approval_role;
      status = ApprovalStatus.pending;
      decided_by_user_id = none;
      decided_at = none;
      decision_note = none;
    })

  -- what `_propose` does where no request has the key
  unfoldable pub request : String → Proposal → M ActionRequest
  unfolding ask_approval idempotency_key
  request case_id p = do
    key ← new_id env.supply
    add_action (requested case_id p key)
    when p.requires_approval (ask_approval p key)
    record_audit env.supply (record {
      case_id = some case_id;
      entity_type = "action_request";
      entity_id = key;
      event = "proposed";
      actor_type = ActorType.system;
      actor_id = some "nba_engine";
      payload = field "action_type" (str (action_type_value p.action_type)) (
          field "requires_approval" (bool p.requires_approval) (field "target" (obj p.target) end));
    })
    pure (requested case_id p key)

  unfoldable pub propose : String → Proposal → M ActionRequest
  unfolding request idempotency_key find_key
  propose case_id p = do
    on_option p.case_status skip (λ st. set_case case_id (λ c. record c { status = st }))
    on_option p.stage skip (advance_stage env.supply case_id)
    existing ← gets (find_key (idempotency_key case_id p.action_type p.discriminator))
    on_option existing (request case_id p) pure
