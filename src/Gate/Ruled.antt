-- ===== src/Gate/Ruled.antt =====
-- backend/app/approvals/service.py: what a decision does to the licences to execute.
use mathlib.Core.Path.{subst}
use occj.Prelude.{
  String, ◌≡◌, ◌≤◌, refl, sym, ap, ◌∙◌, inl, inr, Bool, true, false, ◌&&◌, Option, some, List, [],
  ◌∷◌, any, all, first, update, count_if, first_sound, ◌+◌, Bool-cases, ◌==◌, eq_string,
  if◌then◌else◌, arith,
}
use occj.Models.Enums.{eq_action_status, ApprovalStatus, eq_approval_status}
use occj.Models.Rows.{User, ActionRequest, Approval, ToolExecution}
use occj.Session.{Db, Supply, ok}
use occj.Session.Steps.{ok-state}
use occj.Session.Tables.{find_approval, find_action}
use occj.Approvals.{decide_approval}
use occj.Approvals.Decisions.{ruled, outcome_of, ruling, was-Decidable, decide_approval-ruling}
use occj.Gate.Licence.{
  approves, approved_for, licensed_row, guarded, licensed, Sanctioned, all-imp, any-imp, any-update,
}

-- `Approval.id` is a primary key.
abbrev pub Keyed : Db → Type 0
Keyed s = (key : String) → count_if (λ (p : Approval). p.id == key) s.approvals ≤ 1

module _ {A : Type 0} (q : A → Bool) (f : A → A) where
  update-none : (xs : List A) → count_if q xs ≡ 0 → update q f xs ≡ xs
  update-none [] h = refl
  update-none (x ∷ xs) h = ground (arith, h, update-none xs)

  -- the row that is found is assigned, and is there
  any-found :
      (p : A → Bool) (xs : List A) (a : A)
      → first q xs ≡ some a
      → p (f a) ≡ true
      → any p (update q f xs) ≡ true
  any-found p [] a h k = cc
  any-found p (x ∷ xs) a h k = ground (arith, h, k, any-found p xs a)

  any-behind : (p : A → Bool) (x : A) (xs : List A) → any p xs ≡ true → any p (x ∷ xs) ≡ true
  any-behind p x xs h = ground (arith, h)

  -- assigning to the only row does not touch what other rows attest
  any-others :
      (p : A → Bool) (xs : List A) (a : A)
      → first q xs ≡ some a
      → p a ≡ false
      → count_if q xs ≤ 1
      → any p xs ≡ true
      → any p (update q f xs) ≡ true
  any-others p [] a h k l m = cc
  any-others p (x ∷ xs) a h k l m = elim (Bool-cases (q x)) [
    | inl e ↦
        let here : p x ≡ p a = ground (arith, h, e) in
        let none_else : count_if q xs ≡ 0 = ground (arith, l, e) in
        let there : any p xs ≡ true = ground (arith, m, here, k) in
        any-behind p (if q x then f x else x) (update q f xs)
          (ap (any p) (update-none xs none_else) ∙ there)
    | inr e ↦ ground (arith, h, e, k, l, m, any-others p xs a)
  ]

  pub all-assigned :
      (p r : A → Bool) (xs : List A)
      → ((x : A) → q x ≡ true → p x ≡ true → r (f x) ≡ true)
      → ((x : A) → p x ≡ true → r x ≡ true)
      → all p xs ≡ true
      → all r (update q f xs) ≡ true
  all-assigned p r [] h k l = l
  all-assigned p r (x ∷ xs) h k l = ground (arith, l, h x, k x, all-assigned p r xs h k)

module _ (env : Supply) (approval_id : String) (d : ApprovalStatus) (user : User)
    (why : Option String) (s : Db) where
  abbrev decision_on : Approval → Approval
  decision_on = ruled d user why (env.clock s.reads)

  abbrev decided_rows : List Approval
  decided_rows = update (λ r. r.id == approval_id) decision_on s.approvals

  module _ (a : Approval) (x : ActionRequest) (found : find_approval approval_id s ≡ some a)
      (pending : a.status == ApprovalStatus.pending ≡ true)
      (request : find_action a.action_request_id s ≡ some x) (one : Keyed s) where
    unapproved : (key : String) → approves key a ≡ false
    unapproved key = ground (arith, pending)

    -- what was approved before still is
    still_approved :
        (key : String) → approved_for key s.approvals ≡ true → approved_for key decided_rows ≡ true
    unfolding find_approval
    still_approved key =
        any-others (λ r. r.id == approval_id) decision_on (approves key) s.approvals a found
          (unapproved key) (one approval_id)

    still_licensed_row :
        (r : ActionRequest) → licensed_row s.approvals r ≡ true → licensed_row decided_rows r ≡ true
    still_licensed_row r h = ground (arith, h, still_approved r.id)

    same_request : x.id ≡ a.action_request_id
    unfolding find_action
    same_request =
        (eq_string.beq_iff x.id a.action_request_id).0
          (first_sound (λ r. r.id == a.action_request_id) s.actions x request)

    -- the request of an approved approval has one
    now_approved : d == ApprovalStatus.approved ≡ true → approved_for x.id decided_rows ≡ true
    unfolding find_approval find_action
    now_approved h =
        any-found (λ r. r.id == approval_id) decision_on (approves x.id) s.approvals a found
          (ground (arith, h, (eq_string.beq_iff a.action_request_id x.id).1 (sym same_request)))

    abbrev acted_on : ActionRequest → ActionRequest
    acted_on r = record r { status = outcome_of d; decided_at = some (env.clock (s.reads + 1)) }

    outcome-guarded :
        (r : ActionRequest) → r.id == x.id ≡ true → guarded decided_rows (acted_on r) ≡ true
    outcome-guarded r h = elim (Bool-cases (d == ApprovalStatus.approved)) [
      | inl e ↦ ground (
        arith,
        ap (λ key. approved_for key decided_rows) ((eq_string.beq_iff r.id x.id).0 h),
        now_approved e,
      )
      | inr e ↦ ground (arith, e)
    ]

    still_licensed :
        (key : String)
        → licensed s key ≡ true
        → licensed (ruling env approval_id d user why x s) key ≡ true
    still_licensed key h =
        any-update (λ r. r.id == key && licensed_row decided_rows r) (λ r. r.id == x.id) acted_on
          s.actions (λ r e. e)
          (any-imp _ _ s.actions (λ r e. ground (arith, e, still_licensed_row r)) h)

    ruling-Sanctioned : Sanctioned s → Sanctioned (ruling env approval_id d user why x s)
    ruling-Sanctioned h = record {
      actions =
          all-assigned (λ r. r.id == x.id) acted_on (guarded s.approvals) (guarded decided_rows)
            s.actions (λ r e g. outcome-guarded r e)
            (λ r g. ground (arith, g, still_licensed_row r)) h.actions;
      executions =
          all-imp (λ (y : ToolExecution). licensed s y.action_request_id) _ s.executions
            (λ y. still_licensed y.action_request_id) h.executions;
    }

  -- Where every execution so far is of an action that needs no approval or has an approved one, and
  -- every action that is ready to run is such an action, a decision that returns, to approve or to
  -- reject, leaves it so, provided that no two approvals have the same key.
  pub decide_approval-Sanctioned :
      (t : Db)
      → Keyed s
      → Sanctioned s
      → decide_approval env approval_id d user why s ≡ ok (tt, t)
      → Sanctioned t
  decide_approval-Sanctioned t one h e =
      let (a, x, k, l, m, n, o) = was-Decidable env approval_id d user why s t e in
      subst Sanctioned
        (ok-state (sym (decide_approval-ruling env approval_id d user why s a x k l m n o) ∙ e))
        (ruling-Sanctioned a x k m o one h)
