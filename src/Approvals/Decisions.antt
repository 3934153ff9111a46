-- ===== src/Approvals/Decisions.antt =====
-- backend/app/approvals/service.py: the errors and the effect of a decision.
use mathlib.Core.Path.{subst}
use occj.Session.Steps.{ok-state}
use occj.Prelude.{
  ℕ, String, ◌≡◌, refl, sym, ap, ◌∙◌, inl, inr, true, not, Option, none, some, [], ◌∷◌,
  first-update, update, ◌+◌, first_sound, first, Option-cases, ◌==◌, eq_string, fstring,
  if◌then◌else◌, arith,
}
use occj.Models.Enums.{
  ActorType, ActionStatus, ApprovalStatus, approval_status_value, eq_approval_status,
  user_role_value,
}
use occj.Models.Json.{str, field, end, of_option}
use occj.Models.Rows.{User, Approval, ActionRequest}
use occj.Session.{
  Db, Error, ok, Supply, new_id, utcnow, not_a_decision, already_decided, wrong_role,
  action_not_found, attribute_error,
}
use occj.Session.Runs.{failure, failure-or_raise, failure-guard, or_raise-run, guard-run}
use occj.Session.Tables.{find_approval, find_action, assign_approval, assign_action}
use occj.Audit.{record_audit, add_entry}
use occj.Audit.Runs.{audited}
use occj.Approvals.{is_decision, may_decide, decide_approval}

-- the error that a decision ends in, if any, from the rows alone
abbrev pub verdict : String → ApprovalStatus → User → Db → Option Error
verdict approval_id d user s = elim (find_approval approval_id s) [
  | none ↦ some attribute_error
  | some a ↦
      if not (is_decision d)
      then some not_a_decision
      else if not (a.status == ApprovalStatus.pending)
      then some already_decided
      else if not (may_decide user a)
      then some wrong_role
      else elim (find_action a.action_request_id s) [ none ↦ some action_not_found | some x ↦ none ]
]

-- what the decision writes, after the clock has been read twice
abbrev pub ruled : ApprovalStatus → User → Option String → ℕ → Approval → Approval
ruled d user why now a = record a {
  status = d;
  decided_by_user_id = some user.id;
  decided_at = some now;
  decision_note = why;
}

abbrev pub outcome_of : ApprovalStatus → ActionStatus
outcome_of d = if d == ApprovalStatus.approved then ActionStatus.approved else ActionStatus.rejected

abbrev pub acted : ApprovalStatus → ℕ → ActionRequest → ActionRequest
acted d now x = record x { status = outcome_of d; decided_at = some now }

-- the session after a decision
abbrev pub ruling :
    Supply → String → ApprovalStatus → User → Option String → ActionRequest → Db → Db
ruling env approval_id d user why x s =
    audited env
      (record {
        case_id = some x.case_id;
        entity_type = "approval";
        entity_id = approval_id;
        event = fstring ("approval_" ∷ approval_status_value d ∷ []);
        actor_type = ActorType.human_decision;
        actor_id = some user.id;
        payload =
            field "role" (str (user_role_value user.role))
              (field "note" (of_option why) (field "action_request_id" (str x.id) end));
      })
      (record s {
        approvals =
            update (λ r. r.id == approval_id) (ruled d user why (env.clock s.reads)) s.approvals;
        actions =
            update (λ r. r.id == x.id)
              (λ r. record r { status = outcome_of d; decided_at = some (env.clock (s.reads + 1)) })
              s.actions;
        reads = s.reads + 1 + 1;
      })

module _ (env : Supply) (approval_id : String) (d : ApprovalStatus) (user : User)
    (why : Option String) (s : Db) where
  -- A decision fails exactly with the error that the rows call for, the first that applies, and
  -- returns when they call for none.
  pub decide_approval-verdict :
      failure (decide_approval env approval_id d user why s) ≡ verdict approval_id d user s
  unfolding decide_approval utcnow new_id record_audit
  decide_approval-verdict =
      failure-or_raise attribute_error s (find_approval approval_id s) _ _ λ a.
        failure-guard not_a_decision s _ _ _ (
          failure-guard already_decided s _ _ _ (
            failure-guard wrong_role s _ _ _ (
              failure-or_raise action_not_found s (find_action a.action_request_id s) _ _
                λ x. refl)))

  -- When the request of the approval exists, the approval is pending, and the user is an
  -- administrator or has the role that it requires, a decision returns and `ruling` is the session
  -- after it.
  pub decide_approval-ruling :
      (a : Approval) (x : ActionRequest)
      → find_approval approval_id s ≡ some a
      → is_decision d ≡ true
      → a.status == ApprovalStatus.pending ≡ true
      → may_decide user a ≡ true
      → find_action a.action_request_id s ≡ some x
      → decide_approval env approval_id d user why s
        ≡ ok (tt, ruling env approval_id d user why x s)
  unfolding decide_approval utcnow new_id record_audit assign_approval assign_action add_entry
  decide_approval-ruling a x h k l m n =
      or_raise-run attribute_error s (find_approval approval_id s) _ h
      ∙ guard-run not_a_decision s _ _ (ap not k)
      ∙ guard-run already_decided s _ _ (ap not l)
      ∙ guard-run wrong_role s _ _ (ap not m)
      ∙ or_raise-run action_not_found s (find_action a.action_request_id s) _ n
      ∙ refl

  -- what the rows must say for a decision to be taken
  abbrev pub Decidable : Type 0
  Decidable =
      (a : Approval) × (x : ActionRequest) × (find_approval approval_id s ≡ some a)
      × (is_decision d ≡ true)
      × (a.status == ApprovalStatus.pending ≡ true)
      × (may_decide user a ≡ true)
      × (find_action a.action_request_id s ≡ some x)

  verdict-Decidable : verdict approval_id d user s ≡ none → Decidable
  verdict-Decidable h = elim (Option-cases (find_approval approval_id s)) [
    | inl e ↦ ground (arith, h, e)
    | inr (a, e) ↦ elim (Option-cases (find_action a.action_request_id s)) [
      | inl k ↦ ground (arith, h, e, k)
      | inr (x, k) ↦
          (a, x, e, ground (arith, h, e, k), ground (arith, h, e, k), ground (arith, h, e, k), k)
    ]
  ]

  module _ (t : Db) (h : decide_approval env approval_id d user why s ≡ ok (tt, t)) where
    pub was-Decidable : Decidable
    was-Decidable = verdict-Decidable (sym decide_approval-verdict ∙ ap failure h)

    -- When a decision returns, the approval was pending and the user was entitled to decide it; it
    -- then carries the decision, the user, the time and the note, and the request is approved when
    -- the decision is to approve, and rejected otherwise.
    pub decide_approval-decided :
        (a : Approval) × (x : ActionRequest) × (find_approval approval_id s ≡ some a)
        × (a.status ≡ ApprovalStatus.pending)
        × (may_decide user a ≡ true)
        × (find_approval approval_id t ≡ some (ruled d user why (env.clock s.reads) a))
        × (find_action a.action_request_id t
            ≡ some
                (record x { status = outcome_of d; decided_at = some (env.clock (s.reads + 1)) }))
    unfolding find_approval find_action
    decide_approval-decided =
        let (a, x, e, k, l, m, n) = was-Decidable in
        let p = ok-state (sym (decide_approval-ruling a x e k l m n) ∙ h) in
        let same =
          (eq_string.beq_iff x.id a.action_request_id).0
            (first_sound (λ r. r.id == a.action_request_id) s.actions x n) in
        (
          a,
          x,
          e,
          (eq_approval_status.beq_iff a.status ApprovalStatus.pending).0 l,
          m,
          subst (λ u. find_approval approval_id u ≡ some (ruled d user why (env.clock s.reads) a)) p
              (first-update (λ r. r.id == approval_id) (ruled d user why (env.clock s.reads))
                s.approvals a (λ r q. q) e),
          subst
              (λ u. find_action a.action_request_id u ≡ some (acted d (env.clock (s.reads + 1)) x))
              p
              (subst
                (λ key.
                  first (λ r. r.id == a.action_request_id)
                    (update (λ r. r.id == key) (acted d (env.clock (s.reads + 1))) s.actions)
                  ≡ some (acted d (env.clock (s.reads + 1)) x))
                (sym same)
                (first-update (λ r. r.id == a.action_request_id) (acted d (env.clock (s.reads + 1)))
                  s.actions x (λ r q. q) n)),
        )

    ruled-decision : is_decision d ≡ true
    ruled-decision = was-Decidable.3

-- After a decision that returned, every further decision on the same approval, by whomever and
-- whichever way, is refused as already decided.
pub decide_approval-once :
    (env : Supply) (approval_id : String) (d : ApprovalStatus) (user : User) (why : Option String)
    (s t : Db)
    → decide_approval env approval_id d user why s ≡ ok (tt, t)
    → (again : ApprovalStatus) (other : User) (note : Option String) → is_decision again ≡ true
    → failure (decide_approval env approval_id again other note t) ≡ some already_decided
decide_approval-once env approval_id d user why s t h again other note k =
    let (a, x, e, l, m, p, q) = decide_approval-decided env approval_id d user why s t h in
    decide_approval-verdict env approval_id again other note t
    ∙ ground (arith, p, k, ruled-decision env approval_id d user why s t h)
