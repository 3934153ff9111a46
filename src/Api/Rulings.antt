-- ===== src/Api/Rulings.antt =====
-- `decide` of backend/app/api/routers/approvals.py: how the request for a decision ends.
use occj.Prelude.{
  String, ◌≡◌, refl, ap, ◌∙◌, inl, inr, true, Option, none, some, Option-cases, first, first-append,
  ◌==◌, eq_string, if◌then◌else◌, arith,
}
use occj.Models.Enums.{eq_approval_status}
use occj.Models.Rows.{User, Approval, ActionRequest}
use occj.Session.{Db, Error, Result, ok, err, M, gets, or_raise, ◌>>=◌, ◌>>◌, forbidden, not_found}
use occj.Session.Runs.{>>=-ok, >>=-err, failure, or_raise-run}
use occj.Session.Tables.{find_approval, find_action}
use occj.Env.{Env}
use occj.Approvals.{decide_approval}
use occj.Approvals.Decisions.{verdict, decide_approval-verdict, ruled, decide_approval-decided}
use occj.Api.Requests.{continued, committing, relabelled, is_approval_error, approval_error_as}
use occj.Api.Auth.{Tokens, get_current_user}
use occj.Api.Approvals.{ApprovalDecision, meant, decide_first, decide_rest, decide}
use occj.Frame.Awaiting.{Awaits, Awaiting, Awaiting-Frame, advance_case-Awaiting}
use occj.Api.Keeps.{committing-keeps, decide_rest-Steps}
use occj.Api.Access.{caller, get_current_user-admitted, admitted}

failure-err : {A : Type 0} (r : Result A) (x : Error) → failure r ≡ some x → r ≡ err x
failure-err (ok a) x h = cc
failure-err (err y) x h = cc

failure-ok : {A : Type 0} (r : Result A) → failure r ≡ none → (a : A) × (r ≡ ok a)
failure-ok (ok a) h = (a, refl)
failure-ok (err y) h = cc

-- the error that a request of this caller for a decision ends in before anything is written
abbrev pub refusal : Env → String → ApprovalDecision → User → Db → Option Error
refusal env key body user s = elim (find_approval key s) [
  | none ↦ some not_found
  | some a ↦ elim (verdict key (meant env body) user s) [ none ↦ none | some x ↦ some forbidden ]
]

module _ (env : Env) (key : String) (body : ApprovalDecision) (user : User) where
  -- the handler's work, once the approval is found
  abbrev rule_on : Approval → M (Option ActionRequest)
  rule_on approval =
      approval_error_as forbidden (decide_approval env.supply key (meant env body) user body.note)
      >> gets (find_action approval.action_request_id)

  abbrev work : M (Option ActionRequest)
  work = gets (find_approval key) >>= λ found. or_raise found not_found >>= rule_on

module _ (env : Env) (key : String) (body : ApprovalDecision) (user : User) (s : Db) where
  -- of an approval that is found, every error is the approval service's own
  own_error :
      (a : Approval) (x : Error)
      → find_approval key s ≡ some a
      → verdict key (meant env body) user s ≡ some x
      → is_approval_error x ≡ true
  own_error a x h k = elim (Option-cases (find_action a.action_request_id s)) [
    | inl l ↦ ground (arith, h, k, l)
    | inr (r, l) ↦ ground (arith, h, k, l)
  ]

  rule_on-forbidden :
      (a : Approval) (x : Error)
      → find_approval key s ≡ some a
      → verdict key (meant env body) user s ≡ some x
      → rule_on env key body user a s ≡ err forbidden
  rule_on-forbidden a x h k =
      >>=-err
        (approval_error_as forbidden
          (decide_approval env.supply key (meant env body) user body.note))
        (λ z. gets (find_action a.action_request_id)) s
        (ap (relabelled forbidden) (
            failure-err _ x
              (decide_approval-verdict env.supply key (meant env body) user body.note s ∙ k))
          ∙ ap (λ b. err (if b then forbidden else x)) (own_error a x h k))

  work-refused :
      (e : Error) → refusal env key body user s ≡ some e → work env key body user s ≡ err e
  work-refused e h = elim (Option-cases (find_approval key s)) [
    | inl k ↦
        let same : not_found ≡ e = ground (arith, h, k) in
        ap (λ o. (or_raise o not_found >>= rule_on env key body user) s) k ∙ ap err same
    | inr (a, k) ↦ elim (Option-cases (verdict key (meant env body) user s)) [
      | inl l ↦ absurd (ground (arith, h, k, l))
      | inr (x, l) ↦
          let same : forbidden ≡ e = ground (arith, h, k, l) in
          or_raise-run not_found s (find_approval key s) (rule_on env key body user) k
          ∙ rule_on-forbidden a x k l
          ∙ ap err same
    ]
  ]

  work-decided :
      (a : Approval) (t : Db)
      → find_approval key s ≡ some a
      → decide_approval env.supply key (meant env body) user body.note s ≡ ok (tt, t)
      → work env key body user s ≡ ok (find_action a.action_request_id t, t)
  work-decided a t h k =
      or_raise-run not_found s (find_approval key s) (rule_on env key body user) h
      ∙ >>=-ok
          (approval_error_as forbidden
            (decide_approval env.supply key (meant env body) user body.note))
          (λ z. gets (find_action a.action_request_id)) s (ap (relabelled forbidden) k) refl

module _ (tokens : Tokens) (env : Env) (token key : String) (body : ApprovalDecision) (user : User)
    (s : Db) (known : caller tokens token s ≡ some user) where
  decide_first-work : decide_first tokens env token key body s ≡ work env key body user s
  unfolding decide_first
  decide_first-work =
      >>=-ok (get_current_user tokens token) (λ u. work env key body u) s
        (get_current_user-admitted tokens token s ∙ ap (admitted s) known) refl

  -- A known caller's request to decide an approval that does not exist is answered as not found, and
  -- one to decide an approval that was decided before, that another role must decide, or whose action
  -- is gone as forbidden; the database is left as it was.
  pub decide-refused :
      (e : Error)
      → refusal env key body user s ≡ some e
      → decide tokens env token key body s ≡ record { response = err e; committed = s }
  unfolding decide
  decide-refused e k =
      ap (continued s (λ o. committing (decide_rest tokens env key body o)))
        (decide_first-work ∙ work-refused env key body user s e k)

  follow_up-Awaits :
      (o : Option ActionRequest) (t : Db)
      → Awaits t (committing (decide_rest tokens env key body o) t).committed
  follow_up-Awaits o t =
      committing-keeps Awaiting _
        (decide_rest-Steps tokens env (Awaiting-Frame env) (advance_case-Awaiting env) key body o) t

  -- Where the approval, its action and the role of the caller allow the decision, the approval that
  -- the database holds after the request carries it, with the caller, the time and the note, whether
  -- or not driving the case on fails afterwards.
  pub decide-decided :
      verdict key (meant env body) user s ≡ none
      → (a : Approval) × (find_approval key s ≡ some a)
        × (find_approval key (decide tokens env token key body s).committed
            ≡ some (ruled (meant env body) user body.note (env.supply.clock s.reads) a))
  unfolding decide find_approval
  decide-decided h =
      let ((u, t), e) =
        failure-ok (decide_approval env.supply key (meant env body) user body.note s)
          (decide_approval-verdict env.supply key (meant env body) user body.note s ∙ h) in
      let (a, x, found, pending, may, after, request) =
        decide_approval-decided env.supply key (meant env body) user body.note s t e in
      let (l, grown, waiting) = follow_up-Awaits (find_action a.action_request_id t) t in
      (
        a,
        found,
        ap
              (λ r.
                find_approval key
                  (continued s (λ o. committing (decide_rest tokens env key body o)) r).committed)
              (decide_first-work ∙ work-decided env key body user s a t found e)
            ∙ ap (first (λ p. p.id == key)) grown
            ∙ first-append (λ p. p.id == key) t.approvals l _ after,
      )
