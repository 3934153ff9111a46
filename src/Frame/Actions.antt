-- ===== src/Frame/Actions.antt =====
-- The proposals of the next best action, for every relation of the frame.
use occj.Prelude.{String, Option, List}
use occj.Models.Rows.{Case, UncertaintyFlag, Hypothesis, ImpactAssessment, ActionRequest}
use occj.Models.Json.{Json}
use occj.Session.Steps.{Relation, Steps}
use occj.Frame.{Frame, propose-Steps, frame_rules}
use occj.Env.{Env}
use occj.Frame.Proposing.{draft_customer_message-Steps}
use occj.Nba.Steps.{
  request_evidence, request_missing, mark_succeeded, run_analysis, escalate, propose_recovery,
  exhausted, recover,
}
use occj.Nba.Closing.{notify, close, close_case}
use occj.Nba.Decide.{follow_up, with_impact, with_hypothesis, choose, defer, decide_next_action}
use occj.Recovery.Catalog.{RecoveryOption}
use occj.Frame.Engine.{assess_impact-Steps}

module _ (env : Env) {R : Relation} {may : String → Type 0} (fr : Frame env R may) where
  mark_succeeded-Steps : (a : ActionRequest) → Steps R (mark_succeeded env a)
  unfolding mark_succeeded
  mark_succeeded-Steps a = search frame_rules depth 24

  request_evidence-Steps : (case_id : String) → Steps R (request_evidence env case_id)
  unfolding request_evidence
  request_evidence-Steps case_id = search (frame_rules, propose-Steps) depth 24

  request_missing-Steps :
      (case_id : String) (h : Hypothesis) (f : UncertaintyFlag)
      → Steps R (request_missing env case_id h f)
  unfolding request_missing
  request_missing-Steps case_id h f = search (frame_rules, propose-Steps) depth 24

  run_analysis-Steps : (case_id : String) (h : Hypothesis) → Steps R (run_analysis env case_id h)
  unfolding run_analysis
  run_analysis-Steps case_id h =
      search (frame_rules, propose-Steps, assess_impact-Steps env fr, mark_succeeded-Steps) depth 24

  escalate-Steps :
      (case_id : String) (h : Hypothesis) (i : ImpactAssessment)
      → Steps R (escalate env case_id h i)
  unfolding escalate
  escalate-Steps case_id h i = search (frame_rules, propose-Steps) depth 24

  propose_recovery-Steps :
      (case_id : String) (h : Hypothesis) (i : ImpactAssessment) (o : RecoveryOption)
      → Steps R (propose_recovery env case_id h i o)
  unfolding propose_recovery
  propose_recovery-Steps case_id h i o = search (frame_rules, propose-Steps) depth 24

  exhausted-Steps :
      (case_id : String) (h : Hypothesis) (codes : List Json)
      → Steps R (exhausted env case_id h codes)
  unfolding exhausted
  exhausted-Steps case_id h codes = search frame_rules depth 24

  recover-Steps :
      (case_id : String) (h : Hypothesis) (i : ImpactAssessment) (rs : List ActionRequest)
      → Steps R (recover env case_id h i rs)
  unfolding recover
  recover-Steps case_id h i rs =
      search (frame_rules, exhausted-Steps, propose_recovery-Steps) depth 24

  notify-Steps :
      (case_id customer_id : String) (i : ImpactAssessment) (r : ActionRequest)
      → Steps R (notify env case_id customer_id i r)
  unfolding notify
  notify-Steps case_id customer_id i r =
      search (frame_rules, draft_customer_message-Steps, propose-Steps) depth 24

  close-Steps :
      (case_id : String) (h : Hypothesis) (r a : ActionRequest) → Steps R (close env case_id h r a)
  unfolding close
  close-Steps case_id h r a = search (frame_rules, mark_succeeded-Steps) depth 24

  close_case-Steps :
      (case_id : String) (h : Hypothesis) (r : Option ActionRequest)
      → Steps R (close_case env case_id h r)
  unfolding close_case
  close_case-Steps case_id h r = search (frame_rules, propose-Steps, close-Steps) depth 24

  follow_up-Steps :
      (case_id : String) (c : Case) (h : Hypothesis) (i : ImpactAssessment)
      (rs : List ActionRequest)
      → Steps R (follow_up env case_id c h i rs)
  unfolding follow_up
  follow_up-Steps case_id c h i rs = search (frame_rules, notify-Steps, close_case-Steps) depth 24

  with_impact-Steps :
      (case_id : String) (c : Case) (h : Hypothesis) (i : ImpactAssessment)
      → Steps R (with_impact env case_id c h i)
  unfolding with_impact
  with_impact-Steps case_id c h i =
      search (frame_rules, escalate-Steps, follow_up-Steps, recover-Steps) depth 24

  with_hypothesis-Steps :
      (case_id : String) (c : Case) (h : Hypothesis) → Steps R (with_hypothesis env case_id c h)
  unfolding with_hypothesis
  with_hypothesis-Steps case_id c h =
      search (frame_rules, request_missing-Steps, run_analysis-Steps, with_impact-Steps) depth 24

  choose-Steps : (case_id : String) → Steps R (choose env case_id)
  unfolding choose
  choose-Steps case_id =
      search (frame_rules, request_evidence-Steps, with_hypothesis-Steps) depth 24

  defer-Steps : (case_id : String) (a : ActionRequest) → Steps R (defer env case_id a)
  unfolding defer
  defer-Steps case_id a = search frame_rules depth 24

  pub decide-Steps : (case_id : String) → Steps R (decide_next_action env case_id)
  unfolding decide_next_action
  decide-Steps case_id = search (frame_rules, choose-Steps, defer-Steps) depth 24
