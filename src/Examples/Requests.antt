-- ===== src/Examples/Requests.antt =====
-- Requests on the database of a small shop.
use occj.Prelude.{List, All, ◌≡◌, refl, none, some, [], ◌∷◌, ◌==◌, eq_string, arith}
use occj.Models.Enums.{ApprovalStatus}
use occj.Models.Rows.{Case, Approval}
use occj.Session.{Db, ok, err, new_id, utcnow, unauthorized, not_found}
use occj.Session.Tables.{
  find_user, find_customer, find_case, find_approval, find_action, insert_case,
}
use occj.Session.History.{Kept}
use occj.Audit.{record_audit}
use occj.Approvals.Decisions.{ruled}
use occj.CaseService.{create_case}
use occj.Replay.{Replay, replay_case_state}
use occj.Frame.Awaiting.{Awaits, run_case_cycle-Awaits}
use occj.Frame.Singular.{Singular}
use occj.Gate.Licence.{Sanctioned}
use occj.Gate.Cycle.{run_case_cycle-Sanctioned}
use occj.Gate.Ruled.{Keyed, decide_approval-Sanctioned}
use occj.Api.Auth.{Tokens, TokenOut, get_current_user, require_roles, login}
use occj.Api.Schemas.{ApprovalOut}
use occj.Api.Approvals.{ApprovalDecision, list_approvals, decide}
use occj.Api.Demo.{already_seeded, first_demo_customer, seeding_demo, seed_demo_data}
use occj.Api.Reseed.{seed_demo_data-again}
use occj.Api.Serve.{advancing, deciding, seeding, handle, Served, idle, served}
use occj.Api.Served.{Served-Kept, Served-Singular, Served-Sanctioned, Served-replay}
use occj.Api.Access.{handle-denied}
use occj.Api.Rulings.{decide-refused, decide-decided}
use occj.Api.Queue.{MayRule, list_approvals-MayRule}
use occj.Startup.{demo_users, lifespan}
use occj.Startup.Again.{Known, lifespan-again}
use occj.Api.Login.{login-get_current_user}
use occj.Examples.{env, supply, agent, alex, shop}
use occj.Examples.Backing.{charged}
use occj.Api.Cases.{CaseDetailOut, get_case}
use occj.Api.Details.{Own, get_case-Own}
use occj.Examples.Cases.{opened, cycled, taken, cycle, tick, decided, decision, opened-Traced}

-- a token is its subject, and passwords are kept as they are
abbrev tokens : Tokens
tokens = record {
  decode = λ t. some (some t);
  encode = λ user_id role expire. user_id;
  verify_password = λ password stored. password == stored;
  jwt_expiry_minutes = 480;
}

abbrev approval_of : ApprovalDecision
approval_of = record { decision = "approved"; note = none }

opened-Sanctioned : Sanctioned opened
unfolding create_case new_id utcnow record_audit insert_case
opened-Sanctioned = record { actions = refl; executions = refl }

opened-Keyed : Keyed opened
unfolding create_case new_id utcnow record_audit insert_case
opened-Keyed key = ground arith

-- an approval is given, and what was approved is executed
abbrev ruled_on : Db
ruled_on = (handle tokens env "u1" (deciding "p1" approval_of) opened).1

ruling-Served : Served tokens env Keyed opened ruled_on
ruling-Served = served "u1" (deciding "p1" approval_of) idle opened-Keyed

-- then the case is driven on by hand
abbrev after : Db
after = (handle tokens env "u1" (advancing "k") ruled_on).1

evening : Served tokens env (λ s. Unit) opened after
evening = served "u1" (advancing "k") (served "u1" (deciding "p1" approval_of) idle tt) tt

run_case_cycle-Sanctioned_example : Sanctioned cycled
run_case_cycle-Sanctioned_example =
    run_case_cycle-Sanctioned env "k" opened cycled taken opened-Sanctioned cycle

run_case_cycle-Awaits_example : Awaits opened cycled
run_case_cycle-Awaits_example = run_case_cycle-Awaits env "k" opened cycled taken cycle

decide_approval-Sanctioned_example : Sanctioned decided
decide_approval-Sanctioned_example =
    decide_approval-Sanctioned supply "p1" ApprovalStatus.approved agent none opened decided
      opened-Keyed opened-Sanctioned decision

Served-Kept_example : Kept opened after
Served-Kept_example = Served-Kept tokens env evening

Served-Sanctioned_example : Sanctioned ruled_on
Served-Sanctioned_example = Served-Sanctioned tokens env opened-Sanctioned ruling-Served

opened-Singular : Singular opened
unfolding create_case new_id utcnow record_audit insert_case
opened-Singular key = ground arith

Served-Singular_example : Singular after
Served-Singular_example = Served-Singular tokens env opened-Singular evening

Served-replay_example :
    (r : Replay) × (c : Case) × (replay_case_state "k" none after ≡ some r)
    × (find_case "k" after ≡ some c)
    × (r.stage ≡ c.stage)
Served-replay_example = Served-replay tokens env "k" tick opened-Traced evening

handle-denied_example :
    handle tokens env "nobody" (advancing "k") opened ≡ (some unauthorized, opened)
unfolding find_user create_case new_id utcnow record_audit insert_case
handle-denied_example = handle-denied tokens "nobody" opened env (advancing "k") unauthorized refl

-- a shop that has the first customer of the demonstration data
abbrev demonstrated : Db
demonstrated = record shop {
  customers =
      record {
        id = "d1";
        external_customer_id = "cust-1001";
        display_name = "Priya Nair";
        email = none;
        phone = none;
        tier = "gold";
      }
      ∷ [];
}

abbrev turned_away : Db
turned_away = (handle tokens env "nobody" seeding demonstrated).1

seed_demo_data-again_example :
    seed_demo_data tokens env "u1" turned_away
    ≡ record { response = ok already_seeded; committed = turned_away }
unfolding find_user first_demo_customer handle seed_demo_data seeding_demo require_roles
    get_current_user
seed_demo_data-again_example =
    seed_demo_data-again tokens env {P = λ s. Unit} "u1" "u1" already_seeded agent demonstrated
      demonstrated turned_away refl (served "nobody" seeding idle tt) refl

get_case-Own_example :
    (o : CaseDetailOut) × (get_case tokens env "k" "u1" charged ≡ ok (o, charged))
    × Own "k" charged o
unfolding find_user find_case find_customer create_case new_id utcnow record_audit insert_case
get_case-Own_example = get_case-Own tokens env "u1" "k" agent _ alex charged refl refl refl

decide-refused_example :
    decide tokens env "u1" "p9" approval_of shop
    ≡ record { response = err not_found; committed = shop }
unfolding find_user find_approval
decide-refused_example =
    decide-refused tokens env "u1" "p9" approval_of agent shop refl not_found refl

decide-decided_example :
    (a : Approval) × (find_approval "p1" shop ≡ some a)
    × (find_approval "p1" (decide tokens env "u1" "p1" approval_of shop).committed
        ≡ some (ruled ApprovalStatus.approved agent none 0 a))
unfolding find_user find_approval find_action
decide-decided_example = decide-decided tokens env "u1" "p1" approval_of agent shop refl refl

login-get_current_user_example :
    (t : TokenOut) × (after : Db) × (login tokens supply "sam" "x" shop ≡ ok (t, after))
    × (get_current_user tokens t.access_token after ≡ ok (agent, after))
unfolding find_user
login-get_current_user_example =
    login-get_current_user tokens supply "sam" "x" agent shop refl refl refl refl

list_approvals-MayRule_example :
    (rows : List ApprovalOut) × (list_approvals tokens env "u1" opened ≡ ok (rows, opened))
    × All (MayRule opened agent) rows
unfolding find_user create_case new_id utcnow record_audit insert_case
list_approvals-MayRule_example =
    list_approvals-MayRule tokens env "u1" agent opened opened-Keyed refl

lifespan-again_example :
    (t : Db) × (lifespan (λ n password. password) supply shop ≡ ok (tt, t))
    × All (Known t) demo_users
    × (lifespan (λ n password. password) supply t ≡ ok (tt, t))
lifespan-again_example = lifespan-again (λ n password. password) supply shop
