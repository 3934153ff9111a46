-- ===== src/Replay/Faithful.antt =====
-- backend/app/audit/replay.py against the operations that write the trail.
use occj.Prelude.{
  ℕ, ◌+◌, String, ◌≡◌, refl, sym, ap, ◌∙◌, Bool, true, false, none, some, Option, ◌&&◌, List, [],
  ◌∷◌, first, first-append, select, leb, ◌==◌, eq_string, arith,
}
use occj.Models.Enums.{JourneyStage, journey_stage_value, ApprovalStatus}
use occj.Models.Rows.{User, Case, AuditEntry, Hypothesis, ActionRequest}
use occj.Models.Json.{str, get}
use occj.Session.{Db, ok, new_id, utcnow, ◌>>◌}
use occj.Session.Steps.{Steps, Steps-modify, Steps-bind, Steps-if, Steps-pure, stays, steps_rules}
use occj.Session.Tables.{
  find_case, the_case, set_case, insert_customer, insert_case, insert_evidence_row, insert_event,
  insert_flag, insert_hypothesis, insert_link, insert_impact, insert_action, insert_approval,
  insert_execution, assign_case, assign_evidence_row, assign_event, assign_hypothesis,
  assign_action, assign_approval, assign_execution,
}
use occj.Env.{Env}
use occj.Audit.{Event, record_audit}
use occj.Audit.Runs.{stamped, record_audit-audited}
use occj.Stage.{advance_stage}
use occj.Hypotheses.Generate.{reevaluate}
use occj.Frame.Requests.{Frame-adding}
use occj.Frame.{Core, Frame, Ruling, moves_stage}
use occj.Frame.Retained.{AnyAction}
use occj.Replay.Order.{in_order-Chronological, Chronological-select}
use occj.CaseService.{run_case_cycle}
use occj.Approvals.{decide_approval}
use occj.Frame.Basics.{decide_approval-Steps}
use occj.Frame.Service.{advance_case-Steps, run_case_cycle-Steps}
use occj.Replay.{
  Replay, start, of_case, in_order, stage_named, replay_entry, replay_entries, get_case_audit_trail,
  replay_case_state,
}
use occj.Replay.Fold.{stage_of, stage_named-journey_stage_value}
use occj.Replay.Traced.{
  Traced, Tracing, Traced-utcnow, Traced-audited, Traced-moved, Traced-assign_case,
}

select-whole :
    (p : AuditEntry → Bool) (es : List AuditEntry) → select (λ e. p e && true) es ≡ select p es
select-whole p [] = refl
select-whole p (e ∷ es) = ground (arith, select-whole p es)

staged :
    (r : Replay) (st : JourneyStage)
    → stage_of (elim (stage_named (str (journey_stage_value st))) [
      | none ↦ none
      | some x ↦ some (record r { stage = x })
    ])
      ≡ some st
staged r st =
    ap (λ o. stage_of (elim o [ none ↦ none | some x ↦ some (record r { stage = x }) ]))
      (stage_named-journey_stage_value st)

module _ (env : Env) (cid : String)
    (tick : (n : ℕ) → leb (env.supply.clock n) (env.supply.clock (n + 1)) ≡ true) where
  -- a write to another table
  elsewhere :
      (s t : Db)
      → t.cases ≡ s.cases
      → t.audit ≡ s.audit
      → t.reads ≡ s.reads
      → Traced env.supply cid s
      → Traced env.supply cid t
  unfolding find_case
  elsewhere s t h k l r = record {
    case = r.case;
    found = ap (first (λ c. c.id == cid)) h ∙ r.found;
    replayed = rw (k) r.replayed;
    ordered = rw (k) r.ordered;
    past = rw (k, l) r.past;
  }

  added : (c : Case) (s : Db) → Traced env.supply cid s → Traced env.supply cid (insert_case c s)
  unfolding find_case insert_case
  added c s r = record {
    case = r.case;
    found = first-append (λ d. d.id == cid) s.cases (c ∷ []) r.case r.found;
    replayed = r.replayed;
    ordered = r.ordered;
    past = r.past;
  }

  audit-Tracing :
      (e : Event)
      → moves_stage e ≡ false
      → Steps (Tracing env.supply cid) (record_audit env.supply e)
  audit-Tracing e h = record {
    at = λ s a t k r.
        stays (Traced env.supply cid) (Traced-audited env.supply cid tick e s h r)
          (sym (record_audit-audited env.supply e s) ∙ k);
  }

  -- an assignment of the stage, with the entry that records it
  move-Tracing :
      (key : String) (f : Case → Case) (st : JourneyStage) (e : Event)
      → ((r : Case) → (f r).id ≡ r.id)
      → ((r : Case) → (f r).stage ≡ st)
      → e.case_id ≡ some key
      → ((s : Db) (r : Replay) → stage_of (replay_entry r (stamped env.supply e s)) ≡ some st)
      → Steps (Tracing env.supply cid) (set_case key f >> record_audit env.supply e)
  move-Tracing key f st e h k l m = record {
    at = λ s a t q r.
        stays (Traced env.supply cid)
          (Traced-moved env.supply cid tick key f s h st e k l (m (assign_case key f s)) r)
          (sym (record_audit-audited env.supply e (assign_case key f s)) ∙ q);
  }

  reads-Tracing : (case_id : String) → Steps (Tracing env.supply cid) (the_case case_id)
  reads-Tracing case_id = search steps_rules

  advance-Tracing :
      (case_id : String) (st : JourneyStage)
      → Steps (Tracing env.supply cid) (advance_stage env.supply case_id st)
  unfolding advance_stage replay_entry get
  advance-Tracing case_id st = Steps-bind (the_case case_id) _ (reads-Tracing case_id) λ c.
      Steps-if _ _ _ (Steps-pure tt)
        (move-Tracing case_id _ st _ (λ r. refl) (λ r. refl) refl λ s r. staged r st)

  reevaluate-Tracing :
      (case_id : String) (previous : List Hypothesis) (top : Hypothesis)
      → Steps (Tracing env.supply cid) (reevaluate env case_id previous top)
  unfolding reevaluate replay_entry
  reevaluate-Tracing case_id previous top =
      Steps-if _ _ _
        (move-Tracing case_id _ JourneyStage.failure_located _ (λ r. refl) (λ r. refl) refl
          λ s r. refl)
        (Steps-pure tt)

  Tracing-Core : Core env (Tracing env.supply cid) AnyAction
  unfolding new_id utcnow insert_customer insert_evidence_row insert_event insert_flag
      insert_hypothesis insert_link insert_impact insert_action insert_approval insert_execution
      assign_evidence_row assign_event assign_hypothesis assign_action assign_approval
      assign_execution
  Tracing-Core = record {
    keeps_new_id = record {
      at = λ s a t e r. stays (Traced env.supply cid) (elsewhere s _ refl refl refl r) e;
    };
    keeps_utcnow = record {
      at = λ s a t e r. stays (Traced env.supply cid) (Traced-utcnow env.supply cid tick s r) e;
    };
    keeps_audit = audit-Tracing;
    keeps_advance = advance-Tracing;
    keeps_reevaluate = reevaluate-Tracing;
    keeps_add_customer =
        λ r. Steps-modify (insert_customer r) λ s. elsewhere s (insert_customer r s) refl refl refl;
    keeps_add_case = λ r. Steps-modify (insert_case r) (added r);
    keeps_add_evidence_row = λ r.
        Steps-modify (insert_evidence_row r)
          λ s. elsewhere s (insert_evidence_row r s) refl refl refl;
    keeps_add_event =
        λ r. Steps-modify (insert_event r) λ s. elsewhere s (insert_event r s) refl refl refl;
    keeps_add_flag =
        λ r. Steps-modify (insert_flag r) λ s. elsewhere s (insert_flag r s) refl refl refl;
    keeps_add_hypothesis = λ r.
        Steps-modify (insert_hypothesis r) λ s. elsewhere s (insert_hypothesis r s) refl refl refl;
    keeps_add_link =
        λ r. Steps-modify (insert_link r) λ s. elsewhere s (insert_link r s) refl refl refl;
    keeps_add_impact =
        λ r. Steps-modify (insert_impact r) λ s. elsewhere s (insert_impact r s) refl refl refl;
    keeps_add_approval = λ r h.
        Steps-modify (insert_approval r) λ s. elsewhere s (insert_approval r s) refl refl refl;
    keeps_add_execution = λ r h.
        Steps-modify (insert_execution r) λ s. elsewhere s (insert_execution r s) refl refl refl;
    keeps_set_case = λ key f h k.
        Steps-modify (assign_case key f)
          λ s. Traced-assign_case env.supply cid tick key f s (λ r. ap (λ c. c.id) (h r)) k;
    keeps_set_evidence_row = λ key f h.
        Steps-modify (assign_evidence_row key f)
          λ s. elsewhere s (assign_evidence_row key f s) refl refl refl;
    keeps_set_event = λ key f h.
        Steps-modify (assign_event key f) λ s. elsewhere s (assign_event key f s) refl refl refl;
    keeps_set_hypothesis = λ key f h.
        Steps-modify (assign_hypothesis key f)
          λ s. elsewhere s (assign_hypothesis key f s) refl refl refl;
    keeps_set_action = λ key f h k.
        Steps-modify (assign_action key f) λ s. elsewhere s (assign_action key f s) refl refl refl;
    keeps_set_execution = λ key f h.
        Steps-modify (assign_execution key f)
          λ s. elsewhere s (assign_execution key f s) refl refl refl;
  }

  pub Tracing-Frame : Frame env (Tracing env.supply cid) AnyAction
  unfolding insert_action
  Tracing-Frame =
      Frame-adding env Tracing-Core
        λ r h. Steps-modify (insert_action r) λ s. elsewhere s (insert_action r s) refl refl refl

  pub Tracing-Ruling : Ruling (Tracing env.supply cid)
  unfolding assign_approval assign_action
  Tracing-Ruling = record {
    rules_approval = λ key f h.
        Steps-modify (assign_approval key f)
          λ s. elsewhere s (assign_approval key f s) refl refl refl;
    rules_action = λ key f h.
        Steps-modify (assign_action key f) λ s. elsewhere s (assign_action key f s) refl refl refl;
  }

  pub Traced-replay :
      (s : Db)
      → Traced env.supply cid s
      → (r : Replay) × (c : Case) × (replay_case_state cid none s ≡ some r)
        × (find_case cid s ≡ some c)
        × (r.stage ≡ c.stage)
  unfolding replay_case_state get_case_audit_trail
  Traced-replay s h =
      let (r, k, l) = h.replayed in
      (
        r,
        h.case,
        ap (λ es. replay_entries start (in_order [] es)) (select-whole (of_case cid) s.audit)
            ∙ ap (replay_entries start)
                (in_order-Chronological _ (Chronological-select (of_case cid) s.audit h.ordered))
            ∙ k,
        h.found,
        l,
      )

  -- While the clock does not go back: if the trail of a case agreed with it before a cycle, of this
  -- or of any other case, then after the cycle the replay of the whole trail arrives, and at the
  -- stage that the case then has.
  pub run_case_cycle-replay :
      (s t : Db) (case_id : String) (taken : List ActionRequest)
      → Traced env.supply cid s
      → run_case_cycle env case_id s ≡ ok (taken, t)
      → (r : Replay) × (c : Case) × (replay_case_state cid none t ≡ some r)
        × (find_case cid t ≡ some c)
        × (r.stage ≡ c.stage)
  run_case_cycle-replay s t case_id taken h k = Traced-replay t (
      (run_case_cycle-Steps env Tracing-Frame (advance_case-Steps env Tracing-Frame (λ k. tt))
          case_id).at
        s taken t k h)

  -- While the clock does not go back: if the trail of a case agreed with it before a decision on an
  -- approval, then after it the replay of the whole trail arrives, and at the stage that the case has.
  pub decide_approval-replay :
      (s t : Db) (approval_id : String) (d : ApprovalStatus) (user : User) (why : Option String)
      → Traced env.supply cid s
      → decide_approval env.supply approval_id d user why s ≡ ok (tt, t)
      → (r : Replay) × (c : Case) × (replay_case_state cid none t ≡ some r)
        × (find_case cid t ≡ some c)
        × (r.stage ≡ c.stage)
  decide_approval-replay s t approval_id d user why h k = Traced-replay t (
      (decide_approval-Steps env Tracing-Frame Tracing-Ruling approval_id d user why).at s tt t k h)
