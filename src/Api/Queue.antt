-- ===== src/Api/Queue.antt =====
-- `list_approvals` of backend/app/api/routers/approvals.py: the queue of a user.
use occj.Prelude.{
  ◌≤◌, String, ◌≡◌, refl, sym, ap, ◌∙◌, inl, inr, Bool, true, false, none, some, List, [], ◌∷◌,
  ◌++◌, map, select, first, count_if, count_if-append, All, All-append, append_assoc, Bool-cases,
  Option-cases, ◌==◌, eq_string, if◌then◌else◌, arith,
}
use mathlib.Core.Path.{subst}
use occj.Models.Enums.{ApprovalStatus, eq_approval_status}
use occj.Models.Rows.{User, Approval, ActionRequest}
use occj.Session.{Db, ok, gets}
use occj.Session.Runs.{>>=-ok}
use occj.Env.{Env}
use occj.Api.Auth.{Tokens, get_current_user}
use occj.Api.Access.{caller, admitted, get_current_user-admitted}
use occj.Session.Tables.{find_approval, find_action}
use occj.Approvals.{is_decision}
use occj.Approvals.Decisions.{verdict}
use occj.Gate.Ruled.{Keyed}
use occj.Api.Schemas.{ApprovalOut, with_case_id}
use occj.Api.Approvals.{joined, join_actions, in_queue, list_approvals}

module _ {A : Type 0} (q : A → Bool) where
  -- of a row whose test only it passes, the search finds that row
  first-only :
      (xs ys : List A) (a : A)
      → count_if q (xs ++ a ∷ ys) ≤ 1
      → q a ≡ true
      → first q (xs ++ a ∷ ys) ≡ some a
  first-only [] ys a h k = ground (arith, k)
  first-only (x ∷ xs) ys a h k = elim (Bool-cases (q x)) [
    | inl e ↦ absurd (ground (arith, e, h, k, count_if-append q xs (a ∷ ys)))
    | inr e ↦ ground (arith, e, h, first-only xs ys a, k)
  ]

flip : (x y : String) → x == y ≡ false → y == x ≡ false
flip x y h = elim (Bool-cases (y == x)) [
  | inl e ↦
      absurd (ground (arith, h, (eq_string.beq_iff x y).1 (sym ((eq_string.beq_iff y x).0 e))))
  | inr e ↦ e
]

abbrev with_case : Approval → ActionRequest → ApprovalOut
with_case p a = with_case_id p (some a.case_id)

All-if :
    {A : Type 0} (P : A → Type 0) (b : Bool) (xs ys : List A)
    → (b ≡ true → All P xs)
    → All P ys
    → All P (if b then xs ++ ys else ys)
All-if P true xs ys h k = All-append P xs ys (h refl) k
All-if P false xs ys h k = k

module _ (s : Db) (user : User) where
  -- the user's decision on this row would be taken
  abbrev pub MayRule : ApprovalOut → Type 0
  MayRule o = (d : ApprovalStatus) → is_decision d ≡ true → verdict o.id d user s ≡ none

  -- what makes the decision on a row be taken
  queued-verdict :
      (p : Approval) (x : ActionRequest) (d : ApprovalStatus)
      → find_approval p.id s ≡ some p
      → find_action p.action_request_id s ≡ some x
      → in_queue user p ≡ true
      → is_decision d ≡ true
      → verdict p.id d user s ≡ none
  queued-verdict p x d h k l m = ground (arith, h, k, l, m)

  All-const :
      {A : Type 0} (P : ApprovalOut → Type 0) (f : A → ApprovalOut) (xs : List A)
      → ((x : A) → P (f x))
      → All P (map f xs)
  All-const P f [] h = tt
  All-const P f (x ∷ xs) h = (h x, All-const P f xs h)

  unjoined :
      (p : Approval) (rows : List ActionRequest)
      → first (λ (a : ActionRequest). a.id == p.action_request_id) rows ≡ none
      → joined rows p ≡ []
  unjoined p [] h = refl
  unjoined p (a ∷ rows) h = elim (Bool-cases (a.id == p.action_request_id)) [
    | inl e ↦ absurd (ground (arith, h, e))
    | inr e ↦
        ap
          (λ b. map (with_case p) (
            if b
            then a ∷ select (λ (x : ActionRequest). p.action_request_id == x.id) rows
            else select (λ (x : ActionRequest). p.action_request_id == x.id) rows))
          (flip a.id p.action_request_id e)
        ∙ unjoined p rows (ground (arith, h, e))
  ]

  joined-MayRule :
      (p : Approval)
      → find_approval p.id s ≡ some p
      → in_queue user p ≡ true
      → All MayRule (joined s.actions p)
  unfolding find_action
  joined-MayRule p h k =
      elim (Option-cases (first (λ (a : ActionRequest). a.id == p.action_request_id) s.actions)) [
        | inl e ↦ subst (All MayRule) (sym (unjoined p s.actions e)) tt
        | inr (x, e) ↦
            All-const MayRule (with_case p) (select _ s.actions)
              λ a d m. queued-verdict p x d h e k m
      ]

  join_actions-MayRule :
      (pre ps : List Approval)
      → s.approvals ≡ pre ++ ps
      → Keyed s
      → All MayRule (join_actions s.actions (in_queue user) ps)
  unfolding join_actions find_approval
  join_actions-MayRule pre [] h one = tt
  join_actions-MayRule pre (p ∷ ps) h one =
      let rest =
        join_actions-MayRule (pre ++ p ∷ []) ps (h ∙ sym (append_assoc pre (p ∷ []) ps)) one in
      All-if MayRule (in_queue user p) (joined s.actions p) _
        (joined-MayRule p (
          ap (first (λ r. r.id == p.id)) h
          ∙ first-only (λ r. r.id == p.id) pre ps p
              (subst (λ rows. count_if (λ r. r.id == p.id) rows ≤ 1) h (one p.id))
              ((eq_string.beq_iff p.id p.id).1 refl)))
        rest

-- While the keys of approvals are distinct: a known user's list of approvals arrives, and every
-- approval on it is one that the user may decide now, whichever way.
pub list_approvals-MayRule :
    (tokens : Tokens) (env : Env) (token : String) (user : User) (s : Db)
    → Keyed s
    → caller tokens token s ≡ some user
    → (rows : List ApprovalOut) × (list_approvals tokens env token s ≡ ok (rows, s))
      × All (MayRule s user) rows
unfolding list_approvals
list_approvals-MayRule tokens env token user s one known = (
  join_actions s.actions (in_queue user) s.approvals,
  >>=-ok (get_current_user tokens token)
      (λ u. gets (λ v. join_actions v.actions (in_queue u) v.approvals)) s
      (get_current_user-admitted tokens token s ∙ ap (admitted s) known) refl,
  join_actions-MayRule s user [] s.approvals refl one,
)
