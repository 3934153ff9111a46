-- ===== src/Api/Details.antt =====
-- `get_case` of backend/app/api/routers/cases.py: what it shows is the case's.
use mathlib.Core.Path.{subst}
use occj.Prelude.{
  ℕ, String, ◌≡◌, refl, ap, ◌∙◌, Bool, true, some, List, [], ◌∷◌, any, ◌&&◌, map, select,
  first_sound, All, All-append, All-branch, ltb, ◌==◌, eq_string,
}
use occj.Models.Rows.{ActionRequest, User, Case, Customer}
use occj.Session.{Db, ok, or_raise, not_found, value_error}
use occj.Session.Runs.{>>=-ok, gets-or_raise-ok}
use occj.Session.Tables.{find_case, find_customer}
use occj.Env.{Env}
use occj.Reconciliation.Timeline.{insert_by, sort_from, sort_by}
use occj.Api.Schemas.{
  CanonicalEventOut, UncertaintyFlagOut, HypothesisOut, ActionRequestOut, ApprovalOut,
}
use occj.Api.Auth.{Tokens, get_current_user}
use occj.Api.Access.{caller, admitted, get_current_user-admitted}
use occj.Api.Cases.{
  CaseDetailOut, newest_first, load_case_or_404, timeline_of, flags_of, actions_of, details,
  get_case,
}

-- everything that is shown is of the case
pub record Own (key : String) (s : Db) (o : CaseDetailOut) : Type 0 where
  pub case : o.case.id ≡ key
  pub customer : o.customer.id ≡ o.case.customer_id
  pub timeline : All (λ (e : CanonicalEventOut). e.case_id ≡ key) o.timeline
  pub flags : All (λ (f : UncertaintyFlagOut). f.case_id ≡ key) o.uncertainty_flags
  pub hypotheses : All (λ (h : HypothesisOut). h.case_id ≡ key) o.hypotheses
  pub actions : All (λ (a : ActionRequestOut). a.case_id ≡ key) o.actions
  -- each answers a request of the case that the database has
  pub approvals :
      All
        (λ (p : ApprovalOut).
          (p.case_id ≡ some key)
          × (any (λ (a : ActionRequest). p.action_request_id == a.id && a.case_id == key) s.actions
              ≡ true))
        o.approvals

module _ {A : Type 0} (P : A → Type 0) where
  All-chosen : (p : A → Bool) (xs : List A) → ((x : A) → p x ≡ true → P x) → All P (select p xs)
  All-chosen p [] h = tt
  All-chosen p (x ∷ xs) h =
      let rest = All-chosen p xs h in
      All-branch P (p x) (x ∷ select p xs) (select p xs) (λ k. (h x k, rest)) rest

  All-newest_first : (xs : List A) → All P xs → All P (newest_first xs)
  unfolding newest_first
  All-newest_first [] h = tt
  All-newest_first (x ∷ xs) h =
      All-append P (newest_first xs) (x ∷ []) (All-newest_first xs h.1) (h.0, tt)

  All-shown : {B : Type 0} (f : B → A) (xs : List B) → All (λ x. P (f x)) xs → All P (map f xs)
  All-shown f [] h = tt
  All-shown f (x ∷ xs) h = (h.0, All-shown f xs h.1)

  All-insert_by :
      (time : A → ℕ) (x : A) (xs : List A) → P x → All P xs → All P (insert_by time x xs)
  unfolding insert_by
  All-insert_by time x [] h k = (h, tt)
  All-insert_by time x (y ∷ ys) h k =
      All-branch P (ltb (time x) (time y)) (x ∷ y ∷ ys) (y ∷ insert_by time x ys) (λ e. (h, k))
        (k.0, All-insert_by time x ys h k.1)

  All-sort_from :
      (time : A → ℕ) (sorted xs : List A)
      → All P sorted
      → All P xs
      → All P (sort_from time sorted xs)
  unfolding sort_from
  All-sort_from time sorted [] h k = h
  All-sort_from time sorted (x ∷ xs) h k =
      All-sort_from time (insert_by time x sorted) xs (All-insert_by time x sorted k.0 h) k.1

module _ (s : Db) (c : Case) (owner : Customer) (found : owner.id ≡ c.customer_id) where
  details-Own : Own c.id s (details c s owner)
  unfolding details sort_by
  details-Own = record {
    case = refl;
    customer = found;
    timeline = All-shown _ _ (timeline_of c.id s) (
        All-sort_from _ _ [] _ tt
          (All-chosen _ _ s.events λ e h. (eq_string.beq_iff e.case_id c.id).0 h));
    flags = All-shown _ _ (flags_of c.id s) (
        All-sort_from _ _ [] _ tt
          (All-chosen _ _ s.flags λ f h. (eq_string.beq_iff f.case_id c.id).0 h));
    hypotheses = All-shown _ _ _ (
        All-newest_first _ _
          (All-chosen _ _ s.hypotheses λ h k. (eq_string.beq_iff h.case_id c.id).0 k));
    actions =
        All-shown _ _ (actions_of c.id s)
          (All-chosen _ _ s.actions λ a h. (eq_string.beq_iff a.case_id c.id).0 h);
    approvals = All-shown _ _ _ (All-chosen _ _ s.approvals λ p h. (refl, h));
  }

-- A known user who asks for a case that there is, and whose customer is there, is shown the case, its
-- customer, events, flags, hypotheses and actions of this case alone, and only such approvals as
-- answer a request of this case that the database has; each of them is shown with the case's key.
pub get_case-Own :
    (tokens : Tokens) (env : Env) (token case_id : String) (user : User) (c : Case)
    (owner : Customer) (s : Db)
    → caller tokens token s ≡ some user
    → find_case case_id s ≡ some c
    → find_customer c.customer_id s ≡ some owner
    → (o : CaseDetailOut) × (get_case tokens env case_id token s ≡ ok (o, s)) × Own case_id s o
unfolding get_case load_case_or_404 find_case find_customer
get_case-Own tokens env token case_id user c owner s known found customer = (
  details c s owner,
  >>=-ok (get_current_user tokens token) _ s
      (get_current_user-admitted tokens token s ∙ ap (admitted s) known)
      (>>=-ok (load_case_or_404 case_id) _ s
        (gets-or_raise-ok (find_case case_id) not_found s found)
        (>>=-ok (or_raise (find_customer c.customer_id s) value_error) _ s
          (ap (λ o. or_raise o value_error s) customer) refl)),
  subst (λ key. Own key s (details c s owner))
      ((eq_string.beq_iff c.id case_id).0 (first_sound (λ r. r.id == case_id) s.cases c found))
      (details-Own s c owner (
        (eq_string.beq_iff owner.id c.customer_id).0
          (first_sound (λ r. r.id == c.customer_id) s.customers owner customer))),
)
