-- ===== src/Examples.antt =====
-- Concrete runs: an environment in which every number is small, and the theorems applied in it.
pub mod Cases
pub mod Remedies
pub mod Actions
pub mod Choices
pub mod Backing
pub mod Requests
pub mod Outside
use occj.Prelude.{ℕ, zero, suc, true, String, none, some, List, [], ◌∷◌, fstring}
use occj.Models.Enums.{CaseTriggerType, UserRole, ActionType, ActionStatus, ApprovalStatus}
use occj.Models.Json.{end}
use occj.Models.Rows.{User, Customer, ActionRequest, Approval}
use occj.Session.{Db, empty_db, Supply}
use occj.Env.{Env, default_settings, hangs, completed}
use occj.CaseService.{NewCase}

-- keys of growing length, and a clock that counts
abbrev pub tally : ℕ → String
tally zero = "k"
tally (suc n) = fstring ("k" ∷ tally n ∷ [])

abbrev pub supply : Supply
supply = record { key = tally; clock = λ n. n }

-- arithmetic on the first operand alone, since no example depends on an amount
abbrev pub env : Env
env = record {
  services = record {
    list_incidents = λ since. hangs;
    create_incident = λ n subject description. hangs;
    list_tickets = λ email since. hangs;
    reply_ticket = λ n ticket body. hangs;
  };
  supply = supply;
  arith = record {
    add = λ x y. x;
    sub = λ x y. x;
    mul = λ x y. x;
    div = λ x y. x;
    abs = λ x. x;
    round = λ x n. x;
    of_nat = λ n. n;
    parse = λ t. none;
    fixed2 = λ x. "0.00";
    percent0 = λ x. "0%";
    show_float = λ x. "0.0";
    show_nat = tally;
  };
  settings = default_settings;
  loaded_at = 0;
  repr = λ v. "None";
  lower = λ t. t;
  upper = λ t. t;
  words = λ t. t ∷ [];
  parse_time = λ t. none;
  titled = λ t. t;
  isoformat = λ n. tally n;
  total_seconds = λ n. n;
  digest = λ t. t;
  complete = λ n model system user. completed none;
  parse_json = λ text. none;
}

abbrev pub agent : User
agent = record {
  id = "u1";
  username = "sam";
  password_hash = "x";
  role = UserRole.admin;
  display_name = "Sam";
}

abbrev pub alex : Customer
alex = record {
  id = "c1";
  external_customer_id = "ext1";
  display_name = "Alex Doe";
  email = some "alex@example.com";
  phone = none;
  tier = "gold";
}

-- a request that waits for a decision
abbrev pub refund : ActionRequest
refund = record {
  id = "a1";
  case_id = "k";
  action_type = ActionType.execute_recovery;
  target = end;
  rationale = "Charged twice";
  expected_value = 0;
  status = ActionStatus.pending_approval;
  requires_approval = true;
  idempotency_key = "i1";
  decided_at = none;
}

abbrev pub refund_approval : Approval
refund_approval = record {
  id = "p1";
  action_request_id = "a1";
  required_role = "supervisor";
  status = ApprovalStatus.pending;
  decided_by_user_id = none;
  decided_at = none;
  decision_note = none;
}

abbrev pub shop : Db
shop = record empty_db {
  users = agent ∷ [];
  customers = alex ∷ [];
  actions = refund ∷ [];
  approvals = refund_approval ∷ [];
}

abbrev pub complaint : NewCase
complaint = record {
  customer_id = "c1";
  trigger_type = CaseTriggerType.customer_contact;
  opened_by_user_id = none;
  order_id = none;
  summary = none;
}
