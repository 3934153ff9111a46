-- ===== src/Api/Keeps.antt =====
-- The handlers, for every relation of the frame: what each leaves in the database.
use occj.Prelude.{ℕ, zero, suc, String, ◌≡◌, refl, sym, ap, ◌∙◌, Option, List, [], ◌∷◌}
use occj.Models.Enums.{UserRole}
use occj.Models.Rows.{User, Case, ActionRequest}
use occj.Session.{
  Db, Error, Result, ok, err, M, pure, gets, or_raise, not_found, forbidden, ◌>>=◌, ◌>>◌,
}
use occj.Session.Tables.{find_approval, find_action}
use mathlib.Core.Path.{subst}
use occj.Session.Steps.{
  Relation, Steps, Steps-pure, Steps-gets, Steps-bind, Steps-if, Steps-on_option, Steps-or_raise,
  steps_rules, ok-state, >>=-eq-ok,
}
use occj.Env.{Env}
use occj.Approvals.{decide_approval}
use occj.CaseService.{advance_case}
use occj.Frame.{Frame, frame_rules}
use occj.Frame.Basics.{ingest_evidence-Steps}
use occj.Frame.Service.{get_or_create_customer-Steps, create_case-Steps, run_case_cycle-Steps}
use occj.Api.Requests.{Outcome, ended, committing, continued, relabelled, approval_error_as}
use occj.Api.Auth.{Tokens, get_current_user, require_roles}
use occj.Api.Approvals.{ApprovalDecision, meant, follow_through, decide_first, decide_rest, decide}
use occj.Api.Cases.{CaseCreate, load_case_or_404, opening_case, open_case, advancing_case, advance}
use occj.Api.Evidence.{EvidenceIngest, run_cycles, ingesting_evidence, ingest}
use occj.Api.Demo.{
  seeders, newly_seeded, already_seeded, first_demo_customer, seeding_demo, seed_demo_data,
}
use occj.Seed.All.{seed_all}

relabelled-ok :
    {A : Type 0} (x : Error) (r : Result (A × Db)) {a : A} {t : Db}
    → relabelled x r ≡ ok (a, t)
    → r ≡ ok (a, t)
relabelled-ok x (ok r) h = h
relabelled-ok x (err e) h = cc

module _ (R : Relation) {A : Type 0} where
  ended-keeps :
      (s : Db) (r : Result (A × Db))
      → ((a : A) (t : Db) → r ≡ ok (a, t) → R.rel s t)
      → R.rel s (ended s r).committed
  ended-keeps s (ok (a, t)) h = h a t refl
  ended-keeps s (err x) h = R.reflexive s

  pub committing-keeps : (m : M A) → Steps R m → (s : Db) → R.rel s (committing m s).committed
  committing-keeps m h s = ended-keeps s (m s) (h.at s)

  pub continued-keeps :
      {B : Type 0} (s : Db) (f : A → Db → Outcome B) (r : Result (A × Db))
      → ((a : A) (t : Db) → r ≡ ok (a, t) → R.rel s (f a t).committed)
      → R.rel s (continued s f r).committed
  continued-keeps s f (ok (a, t)) h = h a t refl
  continued-keeps s f (err x) h = R.reflexive s

-- Handlers that only read respect every relation.
module _ {R : Relation} where
  pub get_current_user-Steps :
      (tokens : Tokens) (token : String) → Steps R (get_current_user tokens token)
  unfolding get_current_user
  get_current_user-Steps tokens token = search steps_rules depth 24

  pub require_roles-Steps :
      (tokens : Tokens) (roles : List UserRole) (token : String)
      → Steps R (require_roles tokens roles token)
  unfolding require_roles
  require_roles-Steps tokens roles token = search (steps_rules, get_current_user-Steps) depth 24

  load_case_or_404-Steps : (case_id : String) → Steps R (load_case_or_404 case_id)
  unfolding load_case_or_404
  load_case_or_404-Steps case_id = search steps_rules depth 24

-- a part that only reads leaves the session
abbrev pub Same : Relation
Same = record { rel = λ s t. s ≡ t; reflexive = λ s. refl; transitive = λ s t u p q. p ∙ q }

-- What a decision's request has done by its first commit: a user has decided.
decide_first-decided :
    (tokens : Tokens) (env : Env) (token key : String) (body : ApprovalDecision) (s t : Db)
    (o : Option ActionRequest)
    → decide_first tokens env token key body s ≡ ok (o, t)
    → (user : User) × (decide_approval env.supply key (meant env body) user body.note s
        ≡ ok (tt, t))
unfolding decide_first
decide_first-decided tokens env token key body s t o e =
    let (user, u, p, q) = >>=-eq-ok (get_current_user tokens token) _ s e in
    let (approval, v, k, l) =
      >>=-eq-ok (or_raise (find_approval key u) not_found)
        (λ approval.
          approval_error_as forbidden
            (decide_approval env.supply key (meant env body) user body.note)
          >> gets (find_action approval.action_request_id))
        u q in
    let (z, w, m, n) =
      >>=-eq-ok
        (approval_error_as forbidden
          (decide_approval env.supply key (meant env body) user body.note))
        (λ z. gets (find_action approval.action_request_id)) v l in
    let read : s ≡ v =
      (get_current_user-Steps {R = Same} tokens token).at s user u p
      ∙ (Steps-or_raise {R = Same} (find_approval key u) not_found).at u approval v k in
    (
      user,
      subst (λ x. decide_approval env.supply key (meant env body) user body.note x ≡ ok (tt, t))
          (sym read) (relabelled-ok forbidden _ m ∙ ap (λ x. ok (tt, x)) (ok-state n)),
    )

-- `advance_case` respects the relation, however that is shown.
module _ (tokens : Tokens) (env : Env) {R : Relation} {may : String → Type 0} (fr : Frame env R may)
    (advances : (case_id : String) → Steps R (advance_case env case_id)) where
  opening_case-Steps :
      (token : String) (body : CaseCreate) → Steps R (opening_case tokens env token body)
  unfolding opening_case
  opening_case-Steps token body =
      search
        (
          frame_rules,
          require_roles-Steps,
          get_or_create_customer-Steps env fr,
          create_case-Steps env fr,
          run_case_cycle-Steps env fr advances,
        )
        depth 24

  pub open_case-keeps :
      (token : String) (body : CaseCreate) (s : Db)
      → R.rel s (open_case tokens env token body s).committed
  unfolding open_case
  open_case-keeps token body = committing-keeps R _ (opening_case-Steps token body)

  advancing_case-Steps :
      (token case_id : String) → Steps R (advancing_case tokens env token case_id)
  unfolding advancing_case
  advancing_case-Steps token case_id =
      search
        (
          frame_rules,
          require_roles-Steps,
          load_case_or_404-Steps,
          run_case_cycle-Steps env fr advances,
        )
        depth 24

  pub advance-keeps :
      (token case_id : String) (s : Db) → R.rel s (advance tokens env token case_id s).committed
  unfolding advance
  advance-keeps token case_id = committing-keeps R _ (advancing_case-Steps token case_id)

  run_cycles-Steps :
      (cs : List Case) (taken : List ActionRequest) → Steps R (run_cycles tokens env cs taken)
  unfolding run_cycles
  run_cycles-Steps [] taken = Steps-pure taken
  run_cycles-Steps (c ∷ cs) taken =
      Steps-bind _ _ (run_case_cycle-Steps env fr advances c.id) λ more. run_cycles-Steps cs _

  ingesting_evidence-Steps :
      (token : String) (body : EvidenceIngest) → Steps R (ingesting_evidence tokens env token body)
  unfolding ingesting_evidence
  ingesting_evidence-Steps token body =
      search
        (
          frame_rules,
          require_roles-Steps,
          get_or_create_customer-Steps env fr,
          ingest_evidence-Steps env fr,
          run_cycles-Steps,
        )
        depth 24

  pub ingest-keeps :
      (token : String) (body : EvidenceIngest) (s : Db)
      → R.rel s (ingest tokens env token body s).committed
  unfolding ingest
  ingest-keeps token body = committing-keeps R _ (ingesting_evidence-Steps token body)

  seeding_demo-Steps :
      Steps R (seed_all env) → (token : String) → Steps R (seeding_demo tokens env token)
  unfolding seeding_demo
  seeding_demo-Steps h token =
      let load : Steps R (seed_all env >>= λ created. pure (newly_seeded created)) =
        Steps-bind (seed_all env) _ h λ c. Steps-pure (newly_seeded c) in
      Steps-bind (require_roles tokens seeders token) _ (require_roles-Steps tokens seeders token)
        λ user.
          Steps-bind (gets first_demo_customer) _ (Steps-gets first_demo_customer)
            λ o. Steps-on_option o _ (λ c. pure already_seeded) load λ c. Steps-pure already_seeded

  -- the demonstration data set respects the relation, however that is shown
  pub seed_demo_data-keeps :
      Steps R (seed_all env)
      → (token : String) (s : Db) → R.rel s (seed_demo_data tokens env token s).committed
  unfolding seed_demo_data
  seed_demo_data-keeps h token = committing-keeps R _ (seeding_demo-Steps h token)

  follow_through-Steps : (n : ℕ) (case_id : String) → Steps R (follow_through env n case_id)
  unfolding follow_through
  follow_through-Steps zero case_id = Steps-pure tt
  follow_through-Steps (suc n) case_id = Steps-bind _ _ (advances case_id) λ o.
      Steps-on_option o _ _ (Steps-pure tt)
        λ a. Steps-if _ _ _ (Steps-pure tt) (follow_through-Steps n case_id)

  pub decide_rest-Steps :
      (key : String) (body : ApprovalDecision) (o : Option ActionRequest)
      → Steps R (decide_rest tokens env key body o)
  unfolding decide_rest
  decide_rest-Steps key body o = search (frame_rules, follow_through-Steps) depth 24

  -- a decision's request respects the relation where the decision does
  pub decide-keeps :
      (token key : String) (body : ApprovalDecision) (s : Db)
      → ((user : User) (t : Db)
          → decide_approval env.supply key (meant env body) user body.note s ≡ ok (tt, t)
          → R.rel s t)
      → R.rel s (decide tokens env token key body s).committed
  unfolding decide
  decide-keeps token key body s h =
      continued-keeps R s (λ o. committing (decide_rest tokens env key body o))
        (decide_first tokens env token key body s)
        λ o t e.
          R.transitive s t _
            (let (user, d) = decide_first-decided tokens env token key body s t o e in h user t d)
            (committing-keeps R _ (decide_rest-Steps key body o) t)
