-- ===== src/Gate/Licence.antt =====
-- The licence to carry out an action, read off the tables of a session.
use occj.Prelude.{
  String, ◌≡◌, refl, ◌⊎◌, inl, inr, Bool, true, false, not, ◌&&◌, ◌||◌, List, [], ◌∷◌, ◌++◌, any,
  all, any-append, update, ◌==◌, eq_string, arith,
}
use occj.Models.Enums.{ApprovalStatus, eq_approval_status}
use occj.Models.Rows.{ActionRequest, Approval, ToolExecution}
use occj.Session.{Db}
use occj.Frame.{runnable}

abbrev pub approves : String → Approval → Bool
approves key p = p.action_request_id == key && p.status == ApprovalStatus.approved

-- a human has approved the action of this key
abbrev pub approved_for : String → List Approval → Bool
approved_for key approvals = any (approves key) approvals

-- the action needs no approval, or has one
abbrev pub licensed_row : List Approval → ActionRequest → Bool
licensed_row approvals a = not a.requires_approval || approved_for a.id approvals

-- an action that an executor would take up is licensed
abbrev pub guarded : List Approval → ActionRequest → Bool
guarded approvals a = not (runnable a.status) || licensed_row approvals a

-- a request of this key is licensed
abbrev pub licensed : Db → String → Bool
licensed s key = any (λ a. a.id == key && licensed_row s.approvals a) s.actions

-- Every action that may be taken up is licensed, and every execution is of an action that is.
pub record Sanctioned (s : Db) : Type 0 where
  pub actions : all (guarded s.approvals) s.actions ≡ true
  pub executions : all (λ (x : ToolExecution). licensed s x.action_request_id) s.executions ≡ true

module _ {A : Type 0} where
  pub all-imp :
      (p q : A → Bool) (xs : List A)
      → ((x : A) → p x ≡ true → q x ≡ true)
      → all p xs ≡ true
      → all q xs ≡ true
  all-imp p q [] h k = k
  all-imp p q (x ∷ xs) h k = ground (arith, k, h x, all-imp p q xs h)

  pub any-imp :
      (p q : A → Bool) (xs : List A)
      → ((x : A) → p x ≡ true → q x ≡ true)
      → any p xs ≡ true
      → any q xs ≡ true
  any-imp p q [] h k = k
  any-imp p q (x ∷ xs) h k = ground (arith, k, h x, any-imp p q xs h)

  pub all-append-intro :
      (p : A → Bool) (xs ys : List A) → all p xs ≡ true → all p ys ≡ true → all p (xs ++ ys) ≡ true
  all-append-intro p [] ys h k = k
  all-append-intro p (x ∷ xs) ys h k = ground (arith, h, all-append-intro p xs ys)

  pub any-append-intro : (p : A → Bool) (xs ys : List A) → any p xs ≡ true → any p (xs ++ ys) ≡ true
  any-append-intro p xs ys h = ground (arith, h, any-append p xs ys)

  pub all-update :
      (p q : A → Bool) (f : A → A) (xs : List A)
      → ((x : A) → p x ≡ true → p (f x) ≡ true)
      → all p xs ≡ true
      → all p (update q f xs) ≡ true
  all-update p q f [] h k = k
  all-update p q f (x ∷ xs) h k = ground (arith, k, h x, all-update p q f xs h)

  pub any-update :
      (p q : A → Bool) (f : A → A) (xs : List A)
      → ((x : A) → p x ≡ true → p (f x) ≡ true)
      → any p xs ≡ true
      → any p (update q f xs) ≡ true
  any-update p q f [] h k = k
  any-update p q f (x ∷ xs) h k = ground (arith, k, h x, any-update p q f xs h)

-- More approvals license no less.
pub licensed_row-append :
    (xs ys : List Approval) (a : ActionRequest)
    → licensed_row xs a ≡ true
    → licensed_row (xs ++ ys) a ≡ true
licensed_row-append xs ys a h = ground (arith, h, any-append (approves a.id) xs ys)

pub guarded-append :
    (xs ys : List Approval) (a : ActionRequest) → guarded xs a ≡ true → guarded (xs ++ ys) a ≡ true
guarded-append xs ys a h = ground (arith, h, licensed_row-append xs ys a)

pub licensed_row-same :
    (xs : List Approval) (a b : ActionRequest)
    → b.id ≡ a.id
    → b.requires_approval ≡ a.requires_approval
    → licensed_row xs b ≡ licensed_row xs a
licensed_row-same xs a b h k = rw (h, k) refl

pub licensed_key-same :
    (xs : List Approval) (key : String) (a b : ActionRequest)
    → b.id ≡ a.id
    → b.requires_approval ≡ a.requires_approval
    → (a.id == key && licensed_row xs a) ≡ true
    → (b.id == key && licensed_row xs b) ≡ true
licensed_key-same xs key a b h k e = rw (h, k) e

pub guarded-same :
    (xs : List Approval) (a b : ActionRequest)
    → b.id ≡ a.id
    → b.requires_approval ≡ a.requires_approval
    → (b.status ≡ a.status) ⊎ (runnable b.status ≡ false)
    → guarded xs a ≡ true
    → guarded xs b ≡ true
guarded-same xs a b h k (inl e) g = rw (h, k, e) g
guarded-same xs a b h k (inr e) g = rw e refl
