-- ===== src/Gate/Decided.antt =====
-- backend/app/engine/nba_engine.py: the action that is decided on, and the licence for it.
use occj.Prelude.{
  String, ◌≡◌, sym, ◌∙◌, inl, inr, Bool, false, Option, none, some, List, Bool-cases, ◌==◌,
  eq_string, if◌then◌else◌, arith,
}
use occj.Models.Enums.{ActionStatus, eq_action_status}
use occj.Models.Rows.{ActionRequest, Case, Hypothesis, ImpactAssessment, UncertaintyFlag}
use occj.Models.Json.{Json}
use occj.Session.{Db, M, ok, pure, ◌>>=◌, ◌>>◌}
use occj.Session.Runs.{if-true, if-false}
use occj.Session.Tables.{the_case}
use occj.Session.Yields.{Yields, Yields-pure, Yields-bind}
use occj.Session.Ensures.{
  Ensures, Ensures-pure, Ensures-bind, Ensures-Yields, Ensures-wrap, Ensures-if, Ensures-on_option,
  Ensures-found,
}
use occj.Env.{Env}
use occj.Audit.Runs.{audited}
use occj.Frame.{runnable}
use occj.Nba.Propose.{propose}
use occj.Nba.InFlight.{deferral, defer-audited}
use occj.Nba.Propose.{live_action}
use occj.Session.Tables.{the_case}
use occj.Nba.Steps.{
  proposed, request_evidence, request_missing, mark_succeeded, run_analysis, escalate,
  propose_recovery, exhausted, recover,
}
use occj.Nba.Closing.{notify, close, close_case}
use occj.Nba.Decide.{follow_up, with_impact, with_hypothesis, choose, defer, decide_next_action}
use occj.Recovery.Catalog.{RecoveryOption}
use occj.Gate.Proposed.{Cleared, ClearedOption, returned, first-licensed, propose-Cleared}

module _ (env : Env) where
  idle-Cleared : (a : ActionRequest) (s : Db) → runnable a.status ≡ false → Cleared a s
  idle-Cleared a s h k r = cc

  mark_succeeded-idle :
      (a : ActionRequest) → Yields (λ b. runnable b.status ≡ false) (mark_succeeded env a)
  unfolding mark_succeeded
  mark_succeeded-idle a = search (Yields-bind, Yields-pure) depth 8

  mark_succeeded-Cleared : (a : ActionRequest) → Ensures Cleared (mark_succeeded env a)
  unfolding mark_succeeded
  mark_succeeded-Cleared a = search (Ensures-bind, Ensures-pure, idle-Cleared) depth 8

  proposed-Cleared :
      (m : M ActionRequest) → Ensures Cleared m → Ensures ClearedOption (proposed env m)
  proposed-Cleared m h = Ensures-wrap m some h (λ a s k. k)

  -- an idle action is returned after something else is done
  idle_then :
      (m : M ActionRequest) (k : M Unit)
      → Yields (λ b. runnable b.status ≡ false) m
      → Ensures Cleared (m >>= λ b. k >> pure b)
  idle_then m k h =
      Ensures-Yields m _ h λ b i. Ensures-bind k _ λ u. Ensures-pure b λ s. idle-Cleared b s i

  close-Cleared :
      (case_id : String) (h : Hypothesis) (recovery a : ActionRequest)
      → Ensures Cleared (close env case_id h recovery a)
  unfolding close
  close-Cleared case_id h recovery a =
      search (Ensures-bind, idle_then, mark_succeeded-idle) depth 14

  some-Cleared : (a : ActionRequest) (s : Db) → runnable a.status ≡ false → ClearedOption (some a) s
  some-Cleared a s h = idle-Cleared a s h

  close_case-Cleared :
      (case_id : String) (h : Hypothesis) (recovery : Option ActionRequest)
      → Ensures ClearedOption (close_case env case_id h recovery)
  unfolding close_case
  close_case-Cleared case_id h recovery = Ensures-bind (propose env case_id _) _ λ a.
      Ensures-if (a.status == ActionStatus.succeeded) _ _
        (λ k. Ensures-pure (some a) λ s. idle-Cleared a s (ground (arith, k)))
        (λ k. search (Ensures-bind, proposed-Cleared, close-Cleared) depth 8)

  none-Cleared : (s : Db) → ClearedOption none s
  none-Cleared s = tt

  Ensures-when :
      {A : Type 0} {Q : A → Db → Type 0} (b : Bool) (m n : M A)
      → Ensures Q m
      → Ensures Q n
      → Ensures Q (if b then m else n)
  Ensures-when b m n h k = Ensures-if b m n (λ e. h) (λ e. k)

  ruleset cleared_rules = (
    Ensures-bind, Ensures-when, Ensures-on_option, Ensures-pure, none-Cleared, proposed-Cleared,
    propose-Cleared,
  )

  request_evidence-Cleared :
      (case_id : String) → Ensures ClearedOption (request_evidence env case_id)
  unfolding request_evidence
  request_evidence-Cleared case_id = search cleared_rules depth 8

  request_missing-Cleared :
      (case_id : String) (h : Hypothesis) (f : UncertaintyFlag)
      → Ensures ClearedOption (request_missing env case_id h f)
  unfolding request_missing
  request_missing-Cleared case_id h f = search cleared_rules depth 8

  run_analysis-Cleared :
      (case_id : String) (h : Hypothesis) → Ensures ClearedOption (run_analysis env case_id h)
  unfolding run_analysis
  run_analysis-Cleared case_id h =
      search (Ensures-bind, proposed-Cleared, mark_succeeded-Cleared) depth 8

  escalate-Cleared :
      (case_id : String) (h : Hypothesis) (i : ImpactAssessment)
      → Ensures ClearedOption (escalate env case_id h i)
  unfolding escalate
  escalate-Cleared case_id h i = search cleared_rules depth 8

  propose_recovery-Cleared :
      (case_id : String) (h : Hypothesis) (i : ImpactAssessment) (o : RecoveryOption)
      → Ensures ClearedOption (propose_recovery env case_id h i o)
  unfolding propose_recovery
  propose_recovery-Cleared case_id h i o = search cleared_rules depth 8

  exhausted-Cleared :
      (case_id : String) (h : Hypothesis) (codes : List Json)
      → Ensures ClearedOption (exhausted env case_id h codes)
  unfolding exhausted
  exhausted-Cleared case_id h codes = search cleared_rules depth 8

  recover-Cleared :
      (case_id : String) (h : Hypothesis) (i : ImpactAssessment) (rs : List ActionRequest)
      → Ensures ClearedOption (recover env case_id h i rs)
  unfolding recover
  recover-Cleared case_id h i rs =
      search (cleared_rules, propose_recovery-Cleared, exhausted-Cleared) depth 8

  notify-Cleared :
      (case_id customer_id : String) (i : ImpactAssessment) (r : ActionRequest)
      → Ensures ClearedOption (notify env case_id customer_id i r)
  unfolding notify
  notify-Cleared case_id customer_id i r = search cleared_rules depth 8

  follow_up-Cleared :
      (case_id : String) (c : Case) (h : Hypothesis) (i : ImpactAssessment)
      (rs : List ActionRequest)
      → Ensures ClearedOption (follow_up env case_id c h i rs)
  unfolding follow_up
  follow_up-Cleared case_id c h i rs =
      search (cleared_rules, notify-Cleared, close_case-Cleared) depth 12

  with_impact-Cleared :
      (case_id : String) (c : Case) (h : Hypothesis) (i : ImpactAssessment)
      → Ensures ClearedOption (with_impact env case_id c h i)
  unfolding with_impact
  with_impact-Cleared case_id c h i =
      search (cleared_rules, escalate-Cleared, follow_up-Cleared, recover-Cleared) depth 12

  with_hypothesis-Cleared :
      (case_id : String) (c : Case) (h : Hypothesis)
      → Ensures ClearedOption (with_hypothesis env case_id c h)
  unfolding with_hypothesis
  with_hypothesis-Cleared case_id c h =
      search (cleared_rules, request_missing-Cleared, run_analysis-Cleared, with_impact-Cleared)
        depth 12

  pub choose-Cleared : (case_id : String) → Ensures ClearedOption (choose env case_id)
  unfolding choose
  choose-Cleared case_id =
      search (cleared_rules, request_evidence-Cleared, with_hypothesis-Cleared) depth 12

  defer-Cleared :
      (case_id : String) (c : Case) (a : ActionRequest) (s : Db)
      → Cleared a s
      → (o : Option ActionRequest) (t : Db) → defer env case_id a s ≡ ok (o, t)
      → ClearedOption o t
  unfolding defer
  defer-Cleared case_id c a s h o t e =
      returned ClearedOption (some a) (audited env.supply (deferral env case_id s c a) s)
        (λ k. h (record { actions = k.actions; executions = k.executions })) o t
        (sym (defer-audited env case_id s c a) ∙ e)

  -- The action that a decision returns is licensed, if it may be taken up.
  pub decide-Cleared : (case_id : String) → Ensures ClearedOption (decide_next_action env case_id)
  unfolding decide_next_action live_action
  decide-Cleared case_id = Ensures-bind (the_case case_id) _ λ c.
      Ensures-found (live_action case_id) _ _ (search (Ensures-bind, choose-Cleared) depth 6)
        λ s a k o t e.
          let h = first-licensed _ s a k in
          elim (Bool-cases c.needs_reevaluation) [
            | inl q ↦ defer-Cleared case_id c a s h o t (sym (if-true _ _ s q) ∙ e)
            | inr q ↦ returned ClearedOption (some a) s h o t (sym (if-false _ _ s q) ∙ e)
          ]
