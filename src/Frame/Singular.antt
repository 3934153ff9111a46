-- ===== src/Frame/Singular.antt =====
-- backend/app/engine/nba_engine.py: an action is requested once.
use mathlib.Core.Path.{subst}
use occj.Prelude.{
  ◌+◌, ◌≤◌, String, ◌≡◌, refl, sym, ap, ◌∙◌, inl, inr, Bool, none, List, [], ◌∷◌, ◌++◌, first,
  update, count_if, count_if-append, Bool-cases, Option-cases, ◌==◌, eq_string, arith,
}
use occj.Models.Enums.{JourneyStage}
use occj.Models.Rows.{Case, ActionRequest, Hypothesis}
use occj.Session.{Db, Supply, M, ok, new_id, utcnow, pure, gets, when, on_option, ◌>>=◌, ◌>>◌}
use occj.Session.Steps.{Relation, Steps, Steps-modify, stays, steps_rules}
use occj.Session.Runs.{on_option-some, on_option-none}
use occj.Session.History.{fixed_action}
use occj.Session.Tables.{
  set_case, insert_customer, insert_case, insert_evidence_row, insert_event, insert_flag,
  insert_hypothesis, insert_link, insert_impact, insert_action, insert_approval, insert_execution,
  assign_case, assign_evidence_row, assign_event, assign_hypothesis, assign_action, assign_approval,
  assign_execution,
}
use occj.Env.{Env}
use occj.Audit.{Event, record_audit}
use occj.Audit.Runs.{audited, record_audit-audited}
use occj.Stage.{advance_stage}
use occj.Hypotheses.Generate.{reevaluate}
use occj.Nba.Propose.{
  Proposal, find_key, idempotency_key, requested, ask_approval, request, propose,
}
use occj.Frame.{Core, Frame, Ruling}
use occj.Frame.Retained.{AnyAction}
use occj.Frame.Requests.{ask_approval-Steps}

-- No two requests have the same idempotency key.
abbrev pub Singular : Db → Type 0
Singular s =
    (key : String) → count_if (λ (a : ActionRequest). a.idempotency_key == key) s.actions ≤ 1

abbrev pub Singly : Relation
Singly = record {
  rel = λ s t. Singular s → Singular t;
  reflexive = λ s h. h;
  transitive = λ s t u h k g. k (h g);
}

elsewhere : (s t : Db) → t.actions ≡ s.actions → Singular s → Singular t
elsewhere s t h k = rw h k

count_if-update :
    {A : Type 0} (q p : A → Bool) (f : A → A) (xs : List A)
    → ((x : A) → q (f x) ≡ q x)
    → count_if q (update p f xs) ≡ count_if q xs
count_if-update q p f [] h = refl
count_if-update q p f (x ∷ xs) h = ground (arith, h x, count_if-update q p f xs h)

count_if-none : {A : Type 0} (q : A → Bool) (xs : List A) → first q xs ≡ none → count_if q xs ≡ 0
count_if-none q [] h = refl
count_if-none q (x ∷ xs) h = ground (arith, h, count_if-none q xs)

assign_action-Singular :
    (key : String) (f : ActionRequest → ActionRequest)
    → ((r : ActionRequest) → fixed_action (f r) ≡ fixed_action r)
    → (s : Db) → Singular s
    → Singular (assign_action key f s)
unfolding assign_action
assign_action-Singular key f h s k other =
    subst (λ n. n ≤ 1)
      (sym (
        count_if-update (λ (a : ActionRequest). a.idempotency_key == other) _ f s.actions
          λ r. ap (λ (x : ActionRequest). x.idempotency_key == other) (h r)))
      (k other)

audit-Singly : (env : Supply) (e : Event) → Steps Singly (record_audit env e)
audit-Singly env e = record {
  at = λ s a t k.
      stays (λ u. Singular s → Singular u) (elsewhere s (audited env e s) refl)
        (sym (record_audit-audited env e s) ∙ k);
}

set_case-Singly : (key : String) (f : Case → Case) → Steps Singly (set_case key f)
unfolding assign_case
set_case-Singly key f = Steps-modify (assign_case key f) λ s. elsewhere s (assign_case key f s) refl

advance_stage-Singly :
    (env : Supply) (case_id : String) (st : JourneyStage)
    → Steps Singly (advance_stage env case_id st)
unfolding advance_stage
advance_stage-Singly env case_id st = search (steps_rules, audit-Singly, set_case-Singly) depth 12

reevaluate-Singly :
    (env : Env) (case_id : String) (previous : List Hypothesis) (top : Hypothesis)
    → Steps Singly (reevaluate env case_id previous top)
unfolding reevaluate
reevaluate-Singly env case_id previous top =
    search (steps_rules, audit-Singly, set_case-Singly) depth 12

Singly-Core : (env : Env) → Core env Singly AnyAction
unfolding new_id utcnow insert_customer insert_case insert_evidence_row insert_event insert_flag
    insert_hypothesis insert_link insert_impact insert_action insert_approval insert_execution
    assign_evidence_row assign_event assign_hypothesis assign_action assign_execution
Singly-Core env = record {
  keeps_new_id = record {
    at = λ s a t e.
        stays (λ u. Singular s → Singular u) (elsewhere s (record s { ids = s.ids + 1 }) refl) e;
  };
  keeps_utcnow = record {
    at = λ s a t e.
        stays (λ u. Singular s → Singular u) (elsewhere s (record s { reads = s.reads + 1 }) refl)
          e;
  };
  keeps_audit = λ e h. audit-Singly env.supply e;
  keeps_advance = advance_stage-Singly env.supply;
  keeps_reevaluate = reevaluate-Singly env;
  keeps_add_customer =
      λ r. Steps-modify (insert_customer r) λ s. elsewhere s (insert_customer r s) refl;
  keeps_add_case = λ r. Steps-modify (insert_case r) λ s. elsewhere s (insert_case r s) refl;
  keeps_add_evidence_row =
      λ r. Steps-modify (insert_evidence_row r) λ s. elsewhere s (insert_evidence_row r s) refl;
  keeps_add_event = λ r. Steps-modify (insert_event r) λ s. elsewhere s (insert_event r s) refl;
  keeps_add_flag = λ r. Steps-modify (insert_flag r) λ s. elsewhere s (insert_flag r s) refl;
  keeps_add_hypothesis =
      λ r. Steps-modify (insert_hypothesis r) λ s. elsewhere s (insert_hypothesis r s) refl;
  keeps_add_link = λ r. Steps-modify (insert_link r) λ s. elsewhere s (insert_link r s) refl;
  keeps_add_impact = λ r. Steps-modify (insert_impact r) λ s. elsewhere s (insert_impact r s) refl;
  keeps_add_approval =
      λ r h. Steps-modify (insert_approval r) λ s. elsewhere s (insert_approval r s) refl;
  keeps_add_execution =
      λ r h. Steps-modify (insert_execution r) λ s. elsewhere s (insert_execution r s) refl;
  keeps_set_case = λ key f h k. set_case-Singly key f;
  keeps_set_evidence_row = λ key f h.
      Steps-modify (assign_evidence_row key f) λ s. elsewhere s (assign_evidence_row key f s) refl;
  keeps_set_event =
      λ key f h. Steps-modify (assign_event key f) λ s. elsewhere s (assign_event key f s) refl;
  keeps_set_hypothesis = λ key f h.
      Steps-modify (assign_hypothesis key f) λ s. elsewhere s (assign_hypothesis key f s) refl;
  keeps_set_action =
      λ key f h k. Steps-modify (assign_action key f) (assign_action-Singular key f h);
  keeps_set_execution = λ key f h.
      Steps-modify (assign_execution key f) λ s. elsewhere s (assign_execution key f s) refl;
}

-- one more request, under a key that none has
one_more :
    (rows : List ActionRequest) (row : ActionRequest)
    → ((key : String) → count_if (λ (a : ActionRequest). a.idempotency_key == key) rows ≤ 1)
    → count_if (λ (a : ActionRequest). a.idempotency_key == row.idempotency_key) rows ≡ 0
    → (key : String)
    → count_if (λ (a : ActionRequest). a.idempotency_key == key) (rows ++ row ∷ []) ≤ 1
one_more rows row h z key = elim (Bool-cases (row.idempotency_key == key)) [
  | inl e ↦ ground (
    arith,
    e,
    z,
    count_if-append (λ (a : ActionRequest). a.idempotency_key == key) rows (row ∷ []),
    ap (λ j. count_if (λ (a : ActionRequest). a.idempotency_key == j) rows)
        ((eq_string.beq_iff row.idempotency_key key).0 e),
  )
  | inr e ↦ ground (
    arith,
    e,
    h key,
    count_if-append (λ (a : ActionRequest). a.idempotency_key == key) rows (row ∷ []),
  )
]

module _ (env : Env) where
  -- what is done once the request is added
  rest_of : Proposal → String → Event → ActionRequest → M ActionRequest
  rest_of p key e row =
      when p.requires_approval (ask_approval env p key) >> (record_audit env.supply e >> pure row)

  rest_of-Singly :
      (p : Proposal) (key : String) (e : Event) (row : ActionRequest)
      → Steps Singly (rest_of p key e row)
  unfolding rest_of
  rest_of-Singly p key e row =
      search (steps_rules, audit-Singly, ask_approval-Steps (Singly-Core env)) depth 14

  request-Singular :
      (case_id : String) (p : Proposal) (s t : Db) (a : ActionRequest)
      → find_key (idempotency_key env case_id p.action_type p.discriminator) s ≡ none
      → Singular s
      → request env case_id p s ≡ ok (a, t)
      → Singular t
  unfolding request new_id insert_action rest_of find_key
  request-Singular case_id p s t a h k e =
      (rest_of-Singly p (env.supply.key s.ids) _
          (requested env case_id p (env.supply.key s.ids))).at
        _ a t e
        (one_more s.actions (requested env case_id p (env.supply.key s.ids)) k
          (count_if-none _ s.actions h))

  -- looked up, and added where it is not found
  keyed-Singly :
      (case_id : String) (p : Proposal)
      → Steps Singly (
          gets (find_key (idempotency_key env case_id p.action_type p.discriminator))
          >>= λ existing. on_option existing (request env case_id p) pure)
  keyed-Singly case_id p = record {
    at = λ s a t e h.
        elim (Option-cases
          (find_key (idempotency_key env case_id p.action_type p.discriminator) s)) [
            | inl k ↦
                request-Singular case_id p s t a k h
                  (sym (on_option-none (request env case_id p) pure s k) ∙ e)
            | inr (b, k) ↦
                stays Singular h (sym (on_option-some (request env case_id p) pure s k) ∙ e)
          ];
  }

  propose-Singly : (case_id : String) (p : Proposal) → Steps Singly (propose env case_id p)
  unfolding propose
  propose-Singly case_id p =
      search (steps_rules, advance_stage-Singly, set_case-Singly, keyed-Singly) depth 14

  pub Singly-Frame : Frame env Singly AnyAction
  Singly-Frame = record { core = Singly-Core env; keeps_propose = propose-Singly }

pub Singly-Ruling : Ruling Singly
unfolding assign_approval
Singly-Ruling = record {
  rules_approval = λ key f h.
      Steps-modify (assign_approval key f) λ s. elsewhere s (assign_approval key f s) refl;
  rules_action = λ key f h. Steps-modify (assign_action key f) (assign_action-Singular key f h);
}
