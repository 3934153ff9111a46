-- ===== src/Tools/Executor/Settled.antt =====
-- backend/app/tools/executor.py: the row of an action in the end.
use occj.Prelude.{
  ◌+◌, ltb, length, String, ◌≡◌, refl, sym, ap, ◌∙◌, ◌⊎◌, inl, inr, Bool, true, false, ◌||◌, Option,
  none, some, List, [], ◌∷◌, ◌++◌, fstring, first, first-update, update, Bool-cases, Option-cases,
  ◌==◌, eq_string, if◌then◌else◌, arith,
}
use occj.Models.Enums.{ActionStatus, action_status_value, eq_action_status, JourneyStage}
use occj.Models.Rows.{ActionRequest, AuditEntry, Case}
use occj.Session.{
  on_option, for_each, when, Db, ok, pure, ◌>>◌, Supply, new_id, utcnow, skip, or_raise,
  attribute_error,
}
use occj.Session.Runs.{if-true, if-false}
use occj.Session.Steps.{Relation, Steps, Steps-modify, steps_rules, stays, >>=-eq-ok}
use occj.Session.Ensures.{Ensures, Ensures-bind, Ensures-if, Ends, Ends-then}
use occj.Session.Tables.{find_action, the_action, assign_action, set_action, assign_case, set_case}
use occj.Audit.{Event, record_audit, add_entry}
use occj.Stage.{advance_stage}
use occj.Env.{Env}
use occj.Reconciliation.Uncertainty.{reconcile_case}
use occj.Tools.Base.{ToolResult, Context}
use occj.Tools.Registry.{Connector}
use occj.Tools.Executor.{
  stage_on_success, ingest_surfaced, absorb, fail, settle, conclude, has_succeeded, run_connector,
  execute_action,
}

abbrev pub is_final : ActionStatus → Bool
is_final st =
    st == ActionStatus.succeeded
    || st == ActionStatus.needs_manual_review
    || st == ActionStatus.failed

-- the row of an action, if there is one, is in a final status
abbrev Settled : String → Db → Type 0
Settled key s = (x : ActionRequest) → find_action key s ≡ some x → is_final x.status ≡ true

-- what leaves the actions leaves the row
abbrev Resting : Relation
Resting = record {
  rel = λ s t. t.actions ≡ s.actions;
  reflexive = λ s. refl;
  transitive = λ s t u p q. q ∙ p;
}

Resting-Settled : (key : String) (s t : Db) → t.actions ≡ s.actions → Settled key s → Settled key t
unfolding find_action
Resting-Settled key s t same h x found =
    h x (ap (first (λ (r : ActionRequest). r.id == key)) (sym same) ∙ found)

record_audit-Resting : (env : Supply) (e : Event) → Steps Resting (record_audit env e)
unfolding record_audit utcnow new_id add_entry
record_audit-Resting env e = record { at = λ s z t e. stays (λ u. u.actions ≡ s.actions) refl e }

set_case-Resting : (key : String) (f : Case → Case) → Steps Resting (set_case key f)
unfolding assign_case
set_case-Resting key f = Steps-modify (assign_case key f) λ s. refl

advance_stage-Resting :
    (env : Supply) (case_id : String) (st : JourneyStage)
    → Steps Resting (advance_stage env case_id st)
unfolding advance_stage
advance_stage-Resting env case_id st =
    search (steps_rules, record_audit-Resting, set_case-Resting) depth 12

first-unassigned :
    (key : String) (f : ActionRequest → ActionRequest) (xs : List ActionRequest)
    → first (λ r. r.id == key) xs ≡ none
    → first (λ r. r.id == key) (update (λ r. r.id == key) f xs) ≡ none
first-unassigned key f [] h = refl
first-unassigned key f (y ∷ ys) h = ground (arith, h, first-unassigned key f ys)

some_inj : {A : Type 0} {a b : A} → ◌≡◌ {A = Option A} (some a) (some b) → a ≡ b
some_inj h = cc

-- the row that an assignment leaves is an assigned one
first-assigned :
    (key : String) (f : ActionRequest → ActionRequest) (xs : List ActionRequest) (x : ActionRequest)
    → ((r : ActionRequest) → (f r).id ≡ r.id)
    → first (λ r. r.id == key) (update (λ r. r.id == key) f xs) ≡ some x
    → (r : ActionRequest) × (first (λ r. r.id == key) xs ≡ some r) × (x ≡ f r)
first-assigned key f xs x h k =
    elim (Option-cases (first (λ (r : ActionRequest). r.id == key) xs)) [
      | inl e ↦ let gone = sym k ∙ first-unassigned key f xs e in cc
      | inr (r, e) ↦
          let there =
            first-update (λ (r : ActionRequest). r.id == key) f xs r
              (λ y q. ap (λ i. i == key) (h y) ∙ q) e in
          (r, e, some_inj (sym k ∙ there))
    ]

set_action-Settled :
    (key : String) (f : ActionRequest → ActionRequest)
    → ((r : ActionRequest) → (f r).id ≡ r.id)
    → ((r : ActionRequest) → is_final (f r).status ≡ true)
    → Ends (Settled key) (set_action key f)
unfolding assign_action find_action
set_action-Settled key f h k = record {
  after = λ s z t e.
      stays (Settled key)
        (λ x found.
          let (r, p, q) = first-assigned key f s.actions x h found in
          ap (λ (y : ActionRequest). is_final y.status) q ∙ k r)
        e;
}

-- a row that is read is there
the_action-found :
    (key : String) (s t : Db) (x : ActionRequest)
    → the_action key s ≡ ok (x, t)
    → (find_action key s ≡ some x) × (t ≡ s)
the_action-found key s t x = found (find_action key s)
  where
    found :
        (o : Option ActionRequest)
        → or_raise o attribute_error s ≡ ok (x, t)
        → (o ≡ some x) × (t ≡ s)
    found none h = cc
    found (some y) h = (cc, cc)

-- the entry is the last one, and what is returned after it is the row
record_audit-last :
    (env : Supply) (e : Event) (x : ActionRequest) (u t : Db) (done : ActionRequest)
    → (record_audit env e >> pure x) u ≡ ok (done, t)
    → (done ≡ x)
      × (t.actions ≡ u.actions)
      × (before : List AuditEntry) × (y : AuditEntry) × (t.audit ≡ before ++ y ∷ [])
      × (y.entity_id ≡ e.entity_id)
      × (y.event ≡ e.event)
unfolding record_audit utcnow new_id add_entry
record_audit-last env e x u t done h =
    let same : x ≡ done = cc in
    let entry : AuditEntry = record {
      id = env.key u.ids;
      case_id = e.case_id;
      entity_type = e.entity_type;
      entity_id = e.entity_id;
      event = e.event;
      actor_type = e.actor_type;
      actor_id = e.actor_id;
      payload = e.payload;
      occurred_at = env.clock u.reads;
      created_at = env.clock (u.reads + 1);
    } in
    (
      sym same,
      stays (λ v. v.actions ≡ u.actions) refl h,
      u.audit,
      entry,
      stays (λ v. v.audit ≡ u.audit ++ entry ∷ []) refl h,
      refl,
      refl,
    )

is_final-either :
    (b : Bool)
    → is_final (if b then ActionStatus.needs_manual_review else ActionStatus.succeeded) ≡ true
is_final-either true = refl
is_final-either false = refl

module _ (env : Env) where
  absorb-Settled :
      (a : ActionRequest) (c : Context) (r : ToolResult) → Ends (Settled a.id) (absorb env a c r)
  unfolding absorb
  absorb-Settled a c r =
      Ensures-bind (for_each r.evidence_to_ingest (ingest_surfaced env c.customer)) _ λ (y : Unit).
        Ensures-bind {B = Unit}
          (when (ltb 0 (length r.evidence_to_ingest))
            (on_option c.case skip (λ k. reconcile_case env k.id)))
          _
          λ (z : Unit).
            Ends-then {R = Resting}
              (set_action a.id (λ x. record x {
                status =
                    if r.needs_manual_review
                    then ActionStatus.needs_manual_review
                    else ActionStatus.succeeded;
              }))
              (λ w.
                on_option (stage_on_success a.action_type) skip
                  (λ stage. on_option c.case skip (λ k. advance_stage env.supply k.id stage)))
              (λ s t. Resting-Settled a.id s t)
              (set_action-Settled a.id _ (λ x. refl) (λ x. is_final-either r.needs_manual_review))
              (λ w. search (steps_rules, advance_stage-Resting) depth 8)

  settle-Settled :
      (a : ActionRequest) (c : Context) (r : Option ToolResult)
      → Ends (Settled a.id) (settle env a c r)
  unfolding settle fail
  settle-Settled a c none = set_action-Settled a.id _ (λ x. refl) (λ x. refl)
  settle-Settled a c (some r) =
      Ensures-if r.success _ _ (λ h. absorb-Settled a c r)
        (λ h. set_action-Settled a.id _ (λ x. refl) (λ x. refl))

  -- the row is the one that is returned, and the last entry of the trail names its status
  abbrev pub Concluded : ActionRequest → ActionRequest → Db → Type 0
  Concluded a done t =
      (find_action a.id t ≡ some done)
      × (is_final done.status ≡ true)
      × (before : List AuditEntry) × (e : AuditEntry) × (t.audit ≡ before ++ e ∷ [])
      × (e.entity_id ≡ a.id)
      × (e.event ≡ fstring ("action_" ∷ action_status_value done.status ∷ []))

  conclude-Settled :
      (a : ActionRequest) (k : Connector) (last : Option String) (s t : Db) (done : ActionRequest)
      → Settled a.id s
      → conclude env a k last s ≡ ok (done, t)
      → Concluded a done t
  unfolding conclude utcnow find_action assign_action record_audit new_id add_entry
  conclude-Settled a k last s t done h e =
      let dated : ActionRequest → ActionRequest =
        λ x. record x { decided_at = some (env.supply.clock s.reads) } in
      let s1 = assign_action a.id dated (record s { reads = s.reads + 1 }) in
      let (row, u, p, q) = >>=-eq-ok (the_action a.id) _ s1 e in
      let (there, same) = the_action-found a.id s1 u row p in
      let (old, was, now) = first-assigned a.id dated s.actions row (λ r. refl) there in
      let (back, rests, before, x, last_one, about, named) =
        record_audit-last env.supply _ row u t done q in
      let told : t.actions ≡ s1.actions = rests ∙ ap (λ (v : Db). v.actions) same in
      (
        ap (first (λ (r : ActionRequest). r.id == a.id)) told
            ∙ there
            ∙ ap (λ (v : ActionRequest). some v) (sym back),
        ap (λ (v : ActionRequest). is_final v.status) (back ∙ now) ∙ h old was,
        before,
        x,
        last_one,
        about,
        named
            ∙ ap (λ (v : ActionRequest). fstring ("action_" ∷ action_status_value v.status ∷ []))
                (sym back),
      )

  settled-Concluded :
      (a : ActionRequest) (k : Connector) (c : Context) (r : Option ToolResult)
      (last : Option String)
      → Ensures (Concluded a) (settle env a c r >> conclude env a k last)
  settled-Concluded a k c r last = record {
    after = λ s done u e.
        let (w, t, p, q) = >>=-eq-ok (settle env a c r) (λ z. conclude env a k last) s e in
        conclude-Settled a k last t u done ((settle-Settled a c r).after s w t p) q;
  }

  run_connector-Concluded :
      (a : ActionRequest) (k : Connector) (c : Context)
      → Ensures (Concluded a) (run_connector env a k c)
  unfolding run_connector
  run_connector-Concluded a k c = search (Ensures-bind, settled-Concluded) depth 8

  -- When the execution of an action returns, either an attempt had succeeded before, the action
  -- is returned as it is and nothing changes, or none had, and then the action that is returned is
  -- its row of the session, which has succeeded, waits for a review or has failed, and the last
  -- entry of the audit trail is about the action and names that status.
  pub execute_action-is_final :
      (a done : ActionRequest) (s t : Db)
      → execute_action env a s ≡ ok (done, t)
      → ((has_succeeded env a.id s ≡ true) × (done ≡ a) × (t ≡ s))
        ⊎ ((has_succeeded env a.id s ≡ false) × Concluded a done t)
  unfolding execute_action
  execute_action-is_final a done s t e = elim (Bool-cases (has_succeeded env a.id s)) [
    | inl h ↦ let same = sym (if-true _ _ s h) ∙ e in inl (h, cc, cc)
    | inr h ↦
        let same = sym (if-false _ _ s h) ∙ e in
        inr (h, (run_connector-Concluded a _ _).after s done t same)
  ]
