-- ===== src/Gate/Proposed.antt =====
-- `_propose` of backend/app/engine/nba_engine.py: the licence of the action that it returns.
use mathlib.Core.Path.{subst}
use occj.Prelude.{
  String, ◌≡◌, refl, sym, ap, ◌∙◌, inl, inr, Bool, true, false, ◌&&◌, Option, none, some, List, [],
  ◌∷◌, ◌++◌, any, all, first, any-append, Bool-cases, ◌==◌, eq_string, if◌then◌else◌, arith,
}
use occj.Models.Enums.{ActionStatus, eq_action_status}
use occj.Models.Rows.{ActionRequest, Approval}
use occj.Session.{Db, M, ok, pure, gets, when, on_option, Supply, new_id, ◌>>=◌, ◌>>◌}
use occj.Session.Steps.{Relation, Steps, Steps-modify, stays, steps_rules}
use occj.Session.Tables.{add_approval, insert_approval, insert_action}
use occj.Session.Yields.{Yields, Yields-pure, Yields-bind}
use occj.Session.Ensures.{Ensures, Ensures-bind, Ensures-found}
use occj.Env.{Env}
use occj.Audit.{Event, record_audit}
use occj.Audit.Runs.{record_audit-audited}
use occj.Frame.{runnable}
use occj.Nba.Propose.{
  Proposal, find_key, idempotency_key, requested, ask_approval, request, propose,
}
use occj.Gate.Licence.{licensed_row, guarded, licensed, Sanctioned, any-imp, licensed_row-append}

-- Where the session is sanctioned, an action that would be taken up is licensed.
abbrev pub Cleared : ActionRequest → Db → Type 0
Cleared a t = Sanctioned t → runnable a.status ≡ true → licensed t a.id ≡ true

abbrev pub ClearedOption : Option ActionRequest → Db → Type 0
ClearedOption none t = Unit
ClearedOption (some a) t = Cleared a t

-- a value that is returned as it is
pub returned :
    {A : Type 0} (Q : A → Db → Type 0) (x : A) (s : Db)
    → Q x s
    → (a : A) (t : Db) → pure x s ≡ ok (a, t)
    → Q a t
returned Q x s h a t e =
    let i : x ≡ a = cc in let j : s ≡ t = cc in subst (λ u. Q a u) j (subst (λ y. Q y s) i h)

-- The licence of one action is kept.
abbrev Granting : String → Relation
Granting key = record {
  rel = λ s t. licensed s key ≡ true → licensed t key ≡ true;
  reflexive = λ s h. h;
  transitive = λ s t u h k g. k (h g);
}

module _ (key : String) where
  audit-Granting : (env : Supply) (e : Event) → Steps (Granting key) (record_audit env e)
  audit-Granting env e = record {
    at = λ s a t k r. stays (λ u. licensed u key ≡ true) r (sym (record_audit-audited env e s) ∙ k);
  }

  new_id-Granting : (env : Supply) → Steps (Granting key) (new_id env)
  unfolding new_id
  new_id-Granting env = record { at = λ s a t k r. stays (λ u. licensed u key ≡ true) r k }

  add_approval-Granting : (p : Approval) → Steps (Granting key) (add_approval p)
  unfolding insert_approval
  add_approval-Granting p = Steps-modify (insert_approval p) λ s.
      any-imp _ _ s.actions λ a h. ground (arith, h, licensed_row-append s.approvals (p ∷ []) a)

pub first-licensed :
    (p : ActionRequest → Bool) (s : Db) (a : ActionRequest)
    → first p s.actions ≡ some a
    → Cleared a s
first-licensed p s a h k r = go s.actions h k.actions
  where
    same : a.id == a.id ≡ true
    same = (eq_string.beq_iff a.id a.id).1 refl

    go :
        (xs : List ActionRequest)
        → first p xs ≡ some a
        → all (guarded s.approvals) xs ≡ true
        → any (λ b. b.id == a.id && licensed_row s.approvals b) xs ≡ true
    go [] e l = cc
    go (x ∷ xs) e l = elim (Bool-cases (p x)) [
      | inl q ↦
          let i : x ≡ a = ground (arith, e, q) in
          ground (
            arith,
            r,
            same,
            subst (λ y. guarded s.approvals y ≡ true) i (ground (arith, l)),
            ap (λ y. y.id == a.id && licensed_row s.approvals y) i,
          )
      | inr q ↦ ground (arith, go xs (ground (arith, e, q)) (ground (arith, l)))
    ]

licensed-appended :
    (approvals : List Approval) (xs : List ActionRequest) (row : ActionRequest)
    → row.requires_approval ≡ false
    → any (λ b. b.id == row.id && licensed_row approvals b) (xs ++ row ∷ []) ≡ true
licensed-appended approvals xs row h =
    let same : row.id == row.id ≡ true = (eq_string.beq_iff row.id row.id).1 refl in
    ground
      (arith, h, same, any-append (λ b. b.id == row.id && licensed_row approvals b) xs (row ∷ []))

ungated :
    (b : Bool)
    → runnable (if b then ActionStatus.pending_approval else ActionStatus.proposed) ≡ true
    → b ≡ false
ungated true h = sym h
ungated false h = refl

module _ (env : Env) where
  tail : Proposal → String → Event → ActionRequest → M ActionRequest
  tail p key e row =
      when p.requires_approval (ask_approval env p key) >> (record_audit env.supply e >> pure row)

  tail-Granting :
      (p : Proposal) (key : String) (e : Event) (row : ActionRequest)
      → Steps (Granting row.id) (tail p key e row)
  unfolding tail ask_approval
  tail-Granting p key e row =
      search (steps_rules, audit-Granting, new_id-Granting, add_approval-Granting) depth 12

  tail-row :
      (p : Proposal) (key : String) (e : Event) (row : ActionRequest)
      → Yields (λ a. row ≡ a) (tail p key e row)
  unfolding tail
  tail-row p key e row = search (Yields-bind, Yields-pure) depth 8

  request-Cleared : (case_id : String) (p : Proposal) → Ensures Cleared (request env case_id p)
  unfolding request new_id insert_action tail
  request-Cleared case_id p = record {
    after = λ s a t e k r.
        let key = env.supply.key s.ids in
        let row = requested env case_id p key in
        let same : row ≡ a = (tail-row p key _ row).holds _ a t e in
        subst (λ x. licensed t x.id ≡ true) same
          ((tail-Granting p key _ row).at _ a t e (
            licensed-appended s.approvals s.actions row
              (ungated p.requires_approval (subst (λ x. runnable x.status ≡ true) (sym same) r))));
  }

  keyed-Cleared :
      (case_id : String) (p : Proposal)
      → Ensures Cleared (
          gets (find_key (idempotency_key env case_id p.action_type p.discriminator))
          >>= λ existing. on_option existing (request env case_id p) pure)
  unfolding find_key
  keyed-Cleared case_id p =
      Ensures-found (find_key (idempotency_key env case_id p.action_type p.discriminator)) _ _
        (request-Cleared case_id p)
        λ s x k a t e. returned Cleared x s (first-licensed _ s x k) a t e

  pub propose-Cleared : (case_id : String) (p : Proposal) → Ensures Cleared (propose env case_id p)
  unfolding propose
  propose-Cleared case_id p = search (Ensures-bind, keyed-Cleared) depth 8
