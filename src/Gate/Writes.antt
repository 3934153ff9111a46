-- ===== src/Gate/Writes.antt =====
-- The licence to execute, over every operation of the engine.
use occj.Prelude.{
  String, ◌≡◌, refl, sym, ap, ◌∙◌, ◌⊎◌, true, false, ◌&&◌, List, [], ◌∷◌, all, eq_string, arith,
}
use occj.Models.Enums.{JourneyStage, eq_action_status, eq_approval_status}
use occj.Models.Rows.{Case, ActionRequest, Approval, ToolExecution, Hypothesis}
use occj.Session.{Db, Supply, new_id, utcnow}
use occj.Session.Steps.{Relation, Steps, Steps-modify, stays, steps_rules}
use occj.Session.History.{fixed_action, fixed_execution}
use occj.Session.Tables.{
  set_case, insert_customer, insert_case, insert_evidence_row, insert_event, insert_flag,
  insert_hypothesis, insert_link, insert_impact, insert_action, insert_approval, insert_execution,
  assign_case, assign_evidence_row, assign_event, assign_hypothesis, assign_action,
  assign_execution,
}
use occj.Env.{Env}
use occj.Audit.{Event, record_audit}
use occj.Audit.Runs.{audited, record_audit-audited}
use occj.Stage.{advance_stage}
use occj.Hypotheses.Generate.{reevaluate}
use occj.Frame.Requests.{Frame-adding}
use occj.Frame.{Core, Frame, runnable}
use occj.Gate.Licence.{
  guarded, licensed, Sanctioned, all-imp, any-imp, all-append-intro, any-append-intro, all-update,
  any-update, licensed_row-append, guarded-append, licensed_key-same, guarded-same,
}

-- The session is sanctioned, and the actions of these keys are licensed.
pub record Holds (keys : List String) (s : Db) : Type 0 where
  pub sanctioned : Sanctioned s
  pub kept : all (licensed s) keys ≡ true

abbrev pub Licensing : List String → Relation
Licensing keys = record {
  rel = λ s t. Holds keys s → Holds keys t;
  reflexive = λ s h. h;
  transitive = λ s t u h k g. k (h g);
}

-- executions may be added of the one action whose licence is known
abbrev pub Only : List String → String → Type 0
Only keys key = keys ≡ key ∷ []

module _ (keys : List String) where
  -- a write to another table
  elsewhere :
      (s t : Db)
      → t.actions ≡ s.actions
      → t.approvals ≡ s.approvals
      → t.executions ≡ s.executions
      → Holds keys s
      → Holds keys t
  elsewhere s t h k l r = record {
    sanctioned = record {
      actions = rw (h, k) r.sanctioned.actions;
      executions = rw (h, k, l) r.sanctioned.executions;
    };
    kept = rw (h, k) r.kept;
  }

  -- a write that takes no licence away, and leaves the executions
  more_licences :
      (s t : Db)
      → ((key : String) → licensed s key ≡ true → licensed t key ≡ true)
      → all (guarded t.approvals) t.actions ≡ true
      → t.executions ≡ s.executions
      → Holds keys s
      → Holds keys t
  more_licences s t h k l r = record {
    sanctioned = record {
      actions = k;
      executions = rw l (
          all-imp (λ (x : ToolExecution). licensed s x.action_request_id)
            (λ x. licensed t x.action_request_id) s.executions (λ x. h x.action_request_id)
            r.sanctioned.executions);
    };
    kept = all-imp (licensed s) (licensed t) keys h r.kept;
  }

  approval-Holds : (p : Approval) (s : Db) → Holds keys s → Holds keys (insert_approval p s)
  unfolding insert_approval
  approval-Holds p s r =
      more_licences s (insert_approval p s)
        (λ key.
          any-imp _ _ s.actions
            λ a h. ground (arith, h, licensed_row-append s.approvals (p ∷ []) a))
        (all-imp (guarded s.approvals) _ s.actions (guarded-append s.approvals (p ∷ []))
          r.sanctioned.actions)
        refl r

  action-Holds :
      (a : ActionRequest)
      → (a.requires_approval && runnable a.status) ≡ false
      → (s : Db) → Holds keys s
      → Holds keys (insert_action a s)
  unfolding insert_action
  action-Holds a e s r =
      more_licences s (insert_action a s) (λ key. any-append-intro _ s.actions (a ∷ []))
        (all-append-intro (guarded s.approvals) s.actions (a ∷ []) r.sanctioned.actions
          (ground (arith, e)))
        refl r

  assign-Holds :
      (key : String) (f : ActionRequest → ActionRequest)
      → ((r : ActionRequest) → fixed_action (f r) ≡ fixed_action r)
      → ((r : ActionRequest) → ((f r).status ≡ r.status) ⊎ (runnable (f r).status ≡ false))
      → (s : Db) → Holds keys s
      → Holds keys (assign_action key f s)
  unfolding assign_action
  assign-Holds key f h k s r =
      more_licences s (assign_action key f s)
        (λ other. any-update _ _ f s.actions λ a e.
          let i = ap (λ x. x.id) (h a) in
          let q = ap (λ x. x.requires_approval) (h a) in
          licensed_key-same s.approvals other a (f a) i q e)
        (all-update (guarded s.approvals) _ f s.actions
          (λ a e.
            let i = ap (λ x. x.id) (h a) in
            let q = ap (λ x. x.requires_approval) (h a) in
            guarded-same s.approvals a (f a) i q (k a) e)
          r.sanctioned.actions)
        refl r

  execution-Holds :
      (x : ToolExecution)
      → Only keys x.action_request_id
      → (s : Db) → Holds keys s
      → Holds keys (insert_execution x s)
  unfolding insert_execution
  execution-Holds x e s r = record {
    sanctioned = record {
      actions = r.sanctioned.actions;
      executions =
          all-append-intro (λ (y : ToolExecution). licensed s y.action_request_id) s.executions
            (x ∷ []) r.sanctioned.executions (ap (all (licensed s)) (sym e) ∙ r.kept);
    };
    kept = r.kept;
  }

  assign_execution-Holds :
      (key : String) (f : ToolExecution → ToolExecution)
      → ((r : ToolExecution) → fixed_execution (f r) ≡ fixed_execution r)
      → (s : Db) → Holds keys s
      → Holds keys (assign_execution key f s)
  unfolding assign_execution
  assign_execution-Holds key f h s r = record {
    sanctioned = record {
      actions = r.sanctioned.actions;
      executions =
          all-update (λ (y : ToolExecution). licensed s y.action_request_id) _ f s.executions
            (λ x. rw (ap (λ y. y.action_request_id) (h x)) (λ e. e)) r.sanctioned.executions;
    };
    kept = r.kept;
  }

  audit-Licensing : (env : Supply) (e : Event) → Steps (Licensing keys) (record_audit env e)
  audit-Licensing env e = record {
    at = λ s a t k r.
        stays (Holds keys) (elsewhere s (audited env e s) refl refl refl r)
          (sym (record_audit-audited env e s) ∙ k);
  }

  set_case-Licensing : (key : String) (f : Case → Case) → Steps (Licensing keys) (set_case key f)
  unfolding assign_case
  set_case-Licensing key f =
      Steps-modify (assign_case key f) λ s. elsewhere s (assign_case key f s) refl refl refl

  advance-Licensing :
      (env : Supply) (case_id : String) (st : JourneyStage)
      → Steps (Licensing keys) (advance_stage env case_id st)
  unfolding advance_stage
  advance-Licensing env case_id st =
      search (steps_rules, audit-Licensing, set_case-Licensing) depth 12

  reevaluate-Licensing :
      (env : Env) (case_id : String) (previous : List Hypothesis) (top : Hypothesis)
      → Steps (Licensing keys) (reevaluate env case_id previous top)
  unfolding reevaluate
  reevaluate-Licensing env case_id previous top =
      search (steps_rules, audit-Licensing, set_case-Licensing) depth 12

  Licensing-Core : (env : Env) → Core env (Licensing keys) (Only keys)
  unfolding new_id utcnow insert_customer insert_case insert_evidence_row insert_event insert_flag
      insert_hypothesis insert_link insert_impact assign_evidence_row assign_event assign_hypothesis
  Licensing-Core env = record {
    keeps_new_id = record {
      at = λ s a t e r. stays (Holds keys) (elsewhere s _ refl refl refl r) e;
    };
    keeps_utcnow = record {
      at = λ s a t e r. stays (Holds keys) (elsewhere s _ refl refl refl r) e;
    };
    keeps_audit = λ e h. audit-Licensing env.supply e;
    keeps_advance = advance-Licensing env.supply;
    keeps_reevaluate = reevaluate-Licensing env;
    keeps_add_customer =
        λ r. Steps-modify (insert_customer r) λ s. elsewhere s (insert_customer r s) refl refl refl;
    keeps_add_case =
        λ r. Steps-modify (insert_case r) λ s. elsewhere s (insert_case r s) refl refl refl;
    keeps_add_evidence_row = λ r.
        Steps-modify (insert_evidence_row r)
          λ s. elsewhere s (insert_evidence_row r s) refl refl refl;
    keeps_add_event =
        λ r. Steps-modify (insert_event r) λ s. elsewhere s (insert_event r s) refl refl refl;
    keeps_add_flag =
        λ r. Steps-modify (insert_flag r) λ s. elsewhere s (insert_flag r s) refl refl refl;
    keeps_add_hypothesis = λ r.
        Steps-modify (insert_hypothesis r) λ s. elsewhere s (insert_hypothesis r s) refl refl refl;
    keeps_add_link =
        λ r. Steps-modify (insert_link r) λ s. elsewhere s (insert_link r s) refl refl refl;
    keeps_add_impact =
        λ r. Steps-modify (insert_impact r) λ s. elsewhere s (insert_impact r s) refl refl refl;
    keeps_add_approval = λ r h. Steps-modify (insert_approval r) (approval-Holds r);
    keeps_add_execution = λ r h. Steps-modify (insert_execution r) (execution-Holds r h);
    keeps_set_case = λ key f h k. set_case-Licensing key f;
    keeps_set_evidence_row = λ key f h.
        Steps-modify (assign_evidence_row key f)
          λ s. elsewhere s (assign_evidence_row key f s) refl refl refl;
    keeps_set_event = λ key f h.
        Steps-modify (assign_event key f) λ s. elsewhere s (assign_event key f s) refl refl refl;
    keeps_set_hypothesis = λ key f h.
        Steps-modify (assign_hypothesis key f)
          λ s. elsewhere s (assign_hypothesis key f s) refl refl refl;
    keeps_set_action = λ key f h k. Steps-modify (assign_action key f) (assign-Holds key f h k);
    keeps_set_execution =
        λ key f h. Steps-modify (assign_execution key f) (assign_execution-Holds key f h);
  }

  pub Licensing-Frame : (env : Env) → Frame env (Licensing keys) (Only keys)
  unfolding insert_action
  Licensing-Frame env =
      Frame-adding env (Licensing-Core env) λ r h. Steps-modify (insert_action r) (action-Holds r h)
