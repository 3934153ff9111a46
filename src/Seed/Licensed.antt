-- ===== src/Seed/Licensed.antt =====
-- `_auto_approve_to_closure` of backend/app/seed/synthetic_data.py: what it approves is licensed.
use occj.Prelude.{
  String, ◌≡◌, refl, sym, ap, ◌∙◌, inl, inr, Bool, true, ◌&&◌, some, List, [], ◌∷◌, any, first,
  update, first_sound, Option-cases, ◌==◌, eq_string, arith,
}
use occj.Models.Enums.{ActionStatus, eq_approval_status, eq_action_status}
use occj.Models.Rows.{ActionRequest, Approval, ToolExecution}
use occj.Session.{Db, ok, M, or_raise, attribute_error, ◌>>=◌}
use occj.Session.Steps.{stays}
use occj.Session.Tables.{find_action, set_action, assign_approval, assign_action}
use occj.Env.{Env}
use occj.Gate.Licence.{
  approves, approved_for, licensed_row, guarded, licensed, Sanctioned, all-imp, any-imp, any-update,
}
use occj.Gate.Ruled.{all-assigned}
use occj.Seed.Closure.{awaited, first_pending, stood_in, stand_in}

-- the row that is found is assigned, and is there
any-assigned :
    {A : Type 0} (q r : A → Bool) (f : A → A) (p : A → Bool) (xs : List A) (a : A)
    → first q xs ≡ some a
    → r a ≡ true
    → p (f a) ≡ true
    → any p (update r f xs) ≡ true
any-assigned q r f p [] a h k l = cc
any-assigned q r f p (x ∷ xs) a h k l = ground (arith, h, k, l, any-assigned q r f p xs a)

module _ (env : Env) (s : Db) (p : Approval) where
  abbrev decided_rows : List Approval
  decided_rows = update (λ r. r.id == p.id) (stood_in env) s.approvals

  still_approved :
      (key : String) → approved_for key s.approvals ≡ true → approved_for key decided_rows ≡ true
  still_approved key =
      any-update (approves key) _ (stood_in env) s.approvals λ r h. ground (arith, h)

  still_licensed_row :
      (r : ActionRequest) → licensed_row s.approvals r ≡ true → licensed_row decided_rows r ≡ true
  still_licensed_row r h = ground (arith, h, still_approved r.id)

  abbrev ready : ActionRequest → ActionRequest
  ready r = record r { status = ActionStatus.approved }

  module _ (case_id : String) (found : first_pending case_id s ≡ some p) (x : ActionRequest)
      (request : find_action p.action_request_id s ≡ some x) where
    -- the session after the assignments
    abbrev stood : Db
    stood = record s {
      approvals = decided_rows;
      actions = update (λ r. r.id == x.id) ready s.actions;
    }

    now_approved : approved_for x.id decided_rows ≡ true
    unfolding first_pending find_action
    now_approved =
        let same : x.id ≡ p.action_request_id =
          (eq_string.beq_iff x.id p.action_request_id).0
            (first_sound (λ r. r.id == p.action_request_id) s.actions x request) in
        any-assigned (awaited case_id s) (λ r. r.id == p.id) (stood_in env) (approves x.id)
          s.approvals p found ((eq_string.beq_iff p.id p.id).1 refl)
          (ground (arith, (eq_string.beq_iff p.action_request_id x.id).1 (sym same)))

    ready-guarded :
        (r : ActionRequest) → r.id == x.id ≡ true → guarded decided_rows (ready r) ≡ true
    ready-guarded r h = ground (
      arith,
      ap (λ key. approved_for key decided_rows) ((eq_string.beq_iff r.id x.id).0 h),
      now_approved,
    )

    still_licensed : (key : String) → licensed s key ≡ true → licensed stood key ≡ true
    still_licensed key h =
        any-update (λ r. r.id == key && licensed_row decided_rows r) (λ r. r.id == x.id) ready
          s.actions (λ r e. e)
          (any-imp _ _ s.actions (λ r e. ground (arith, e, still_licensed_row r)) h)

    stood-Sanctioned : Sanctioned s → Sanctioned stood
    stood-Sanctioned h = record {
      actions =
          all-assigned (λ r. r.id == x.id) ready (guarded s.approvals) (guarded decided_rows)
            s.actions (λ r e g. ready-guarded r e) (λ r g. ground (arith, g, still_licensed_row r))
            h.actions;
      executions =
          all-imp (λ (y : ToolExecution). licensed s y.action_request_id) _ s.executions
            (λ y. still_licensed y.action_request_id) h.executions;
    }

-- An approval that is found pending and approved in a human's stead licenses its request.
pub stand_in-Sanctioned :
    (env : Env) (case_id : String) (s t : Db) (p : Approval)
    → first_pending case_id s ≡ some p
    → stand_in env p s ≡ ok (tt, t)
    → Sanctioned s
    → Sanctioned t
unfolding stand_in assign_approval assign_action find_action
stand_in-Sanctioned env case_id s t p found e h =
    let after : ActionRequest → M Unit =
      λ x. set_action x.id (λ a. record a { status = ActionStatus.approved }) in
    let approved : Db = (assign_approval p.id (stood_in env) s) in
    elim (Option-cases (find_action p.action_request_id s)) [
      | inl missing ↦
          let f = sym (ap (λ o. (or_raise o attribute_error >>= after) approved) missing) ∙ e in cc
      | inr (x, request) ↦
          stays Sanctioned (stood-Sanctioned env s p case_id found x request h)
            (sym (ap (λ o. (or_raise o attribute_error >>= after) approved) request) ∙ e)
    ]
