-- ===== src/Examples/Cases.antt =====
-- The trail of a case that is opened, driven and decided on.
use occj.Prelude.{ℕ, ◌+◌, ◌≡◌, refl, true, none, some, List, [], leb, length, if◌then◌else◌, arith}
use occj.Models.Enums.{JourneyStage, ApprovalStatus}
use occj.Models.Json.{is_str}
use occj.Models.Rows.{Case, ActionRequest, Approval}
use occj.Session.{Db, Result, ok, err, new_id, utcnow, for_each, already_decided}
use occj.Session.Tables.{find_case, find_approval, find_action, insert_case, assign_case}
use occj.Session.History.{Kept}
use occj.Session.Runs.{failure}
use occj.Audit.{record_audit}
use occj.Stage.{stage_index, advance_stage}
use occj.Stage.Forward.{larger, advance_stage-larger}
use occj.Approvals.{may_decide, decide_approval}
use occj.Approvals.Decisions.{
  ruled, acted, verdict, decide_approval-verdict, decide_approval-decided, decide_approval-once,
}
use occj.Reconciliation.Uncertainty.{reconcile_case}
use occj.Hypotheses.Generate.{generate_or_update_hypotheses}
use occj.Nba.Decide.{decide_next_action}
use occj.CaseService.{create_case, run_case_cycle}
use occj.Replay.{Replay, replay_case_state}
use occj.Replay.Traced.{Traced}
use occj.Replay.Opened.{create_case-Traced}
use occj.Replay.Faithful.{run_case_cycle-replay, decide_approval-replay}
use occj.Frame.Trail.{run_case_cycle-Kept}
use occj.Examples.{env, supply, agent, shop, complaint}

abbrev pub state_of : {A : Type 0} → Db → Result (A × Db) → Db
state_of s (ok (a, t)) = t
state_of s (err x) = s

abbrev pub value_of : {A : Type 0} → A → Result (A × Db) → A
value_of d (ok (a, t)) = a
value_of d (err x) = d

pub tick : (n : ℕ) → leb n (n + 1) ≡ true
tick n = ground arith

abbrev pub opened : Db
opened = state_of shop (create_case env complaint shop)

pub cycled : Db
unfolding run_case_cycle
cycled = state_of opened (run_case_cycle env "k" opened)

pub taken : List ActionRequest
unfolding run_case_cycle
taken = value_of [] (run_case_cycle env "k" opened)

pub cycle : run_case_cycle env "k" opened ≡ ok (taken, cycled)
unfolding run_case_cycle create_case taken cycled reconcile_case find_case utcnow new_id
    record_audit insert_case for_each generate_or_update_hypotheses assign_case decide_next_action
    is_str
cycle = refl

pub decided : Db
unfolding decide_approval
decided = state_of opened (decide_approval supply "p1" ApprovalStatus.approved agent none opened)

pub decision :
    decide_approval supply "p1" ApprovalStatus.approved agent none opened ≡ ok (tt, decided)
unfolding decide_approval create_case decided find_approval find_action utcnow new_id record_audit
    insert_case
decision = refl

pub opened-Traced : Traced supply "k" opened
unfolding create_case new_id utcnow record_audit find_case
opened-Traced = create_case-Traced env complaint shop tick opened _ tt tt refl refl refl

create_case-Traced_example : Traced supply "k" opened
unfolding create_case new_id utcnow record_audit find_case
create_case-Traced_example =
    create_case-Traced env complaint shop tick opened _ tt tt refl refl refl

run_case_cycle-replay_example :
    (r : Replay) × (c : Case) × (replay_case_state "k" none cycled ≡ some r)
    × (find_case "k" cycled ≡ some c)
    × (r.stage ≡ c.stage)
run_case_cycle-replay_example =
    run_case_cycle-replay env "k" tick opened cycled "k" taken opened-Traced cycle

run_case_cycle-Kept_example : Kept opened cycled
run_case_cycle-Kept_example = run_case_cycle-Kept env opened cycled "k" taken cycle

decide_approval-replay_example :
    (r : Replay) × (c : Case) × (replay_case_state "k" none decided ≡ some r)
    × (find_case "k" decided ≡ some c)
    × (r.stage ≡ c.stage)
decide_approval-replay_example =
    decide_approval-replay env "k" tick opened decided "p1" ApprovalStatus.approved agent none
      opened-Traced decision

advance_stage-larger_example :
    (t : Db) × (d : Case) × (advance_stage supply "k" JourneyStage.impact_assessed opened
      ≡ ok (tt, t))
    × (find_case "k" t ≡ some d)
    × (stage_index d.stage
        ≡ larger
            (stage_index JourneyStage.impact_assessed)
            (stage_index JourneyStage.issue_reported))
    × (length t.audit
        ≡ length opened.audit
          + (if leb
                (stage_index JourneyStage.impact_assessed)
                (stage_index JourneyStage.issue_reported)
              then 0
              else 1))
unfolding find_case create_case new_id utcnow insert_case record_audit
advance_stage-larger_example =
    advance_stage-larger supply "k" JourneyStage.impact_assessed opened _ refl

decide_approval-verdict_example :
    failure (decide_approval supply "p1" ApprovalStatus.approved agent none opened)
    ≡ verdict "p1" ApprovalStatus.approved agent opened
decide_approval-verdict_example =
    decide_approval-verdict supply "p1" ApprovalStatus.approved agent none opened

decide_approval-decided_example :
    (a : Approval) × (x : ActionRequest) × (find_approval "p1" opened ≡ some a)
    × (a.status ≡ ApprovalStatus.pending)
    × (may_decide agent a ≡ true)
    × (find_approval "p1" decided ≡ some (ruled ApprovalStatus.approved agent none opened.reads a))
    × (find_action a.action_request_id decided
        ≡ some (acted ApprovalStatus.approved (opened.reads + 1) x))
decide_approval-decided_example =
    decide_approval-decided supply "p1" ApprovalStatus.approved agent none opened decided decision

decide_approval-once_example :
    failure (decide_approval supply "p1" ApprovalStatus.rejected agent none decided)
    ≡ some already_decided
decide_approval-once_example =
    decide_approval-once supply "p1" ApprovalStatus.approved agent none opened decided decision
      ApprovalStatus.rejected agent none refl
