-- ===== src/Api/Access.antt =====
-- backend/app/auth/deps.py and the guards of the handlers: who is turned away, and how.
use occj.Prelude.{
  String, ◌≡◌, refl, ap, ◌∙◌, Bool, true, false, not, ◌||◌, Option, none, some, List, [], ◌∷◌,
  contains, ◌==◌, eq_string, if◌then◌else◌, arith,
}
use occj.Models.Enums.{UserRole, eq_user_role}
use occj.Models.Rows.{User}
use occj.Session.{
  Db, Error, Result, ok, err, gets, or_raise, ◌>>=◌, ◌>>◌, raise, skip, pure, unauthorized,
  forbidden,
}
use occj.Session.Runs.{>>=-ok, >>=-err}
use occj.Env.{Env}
use occj.Api.Requests.{ended, continued, committing}
use occj.Api.Auth.{Tokens, user_of_key, has_role, get_current_user, require_roles}
use occj.Api.Approvals.{ApprovalDecision, decide_first, decide_rest, decide}
use occj.Api.Cases.{CaseCreate, case_workers, opening_case, open_case, advancing_case, advance}
use occj.Api.Evidence.{EvidenceIngest, ingesters, ingesting_evidence, ingest}
use occj.Api.Demo.{seeders, seeding_demo, seed_demo_data}
use occj.Api.Serve.{Request, opening, advancing, ingesting, deciding, seeding, summary, handle}

-- the user of a token's subject, if the token is valid
abbrev pub subject : Option (Option String) → Db → Option User
subject none s = none
subject (some sub) s = user_of_key sub s

-- who calls: the user that the token names
abbrev pub caller : Tokens → String → Db → Option User
caller tokens token s = subject (tokens.decode token) s

abbrev pub admitted : Db → Option User → Result (User × Db)
admitted s none = err unauthorized
admitted s (some user) = ok (user, s)

-- why a caller is turned away, by the roles that may call
abbrev pub denial : List UserRole → Option User → Option Error
denial roles none = some unauthorized
denial roles (some user) =
    if contains roles user.role || user.role == UserRole.admin then none else some forbidden

abbrev pub anyone : List UserRole
anyone = UserRole.agent ∷ UserRole.supervisor ∷ UserRole.finance_approver ∷ UserRole.admin ∷ []

-- who may make each request
abbrev pub entitled : Request → List UserRole
entitled (opening body) = UserRole.agent ∷ UserRole.supervisor ∷ []
entitled (advancing case_id) = UserRole.agent ∷ UserRole.supervisor ∷ []
entitled (ingesting body) = UserRole.agent ∷ UserRole.supervisor ∷ []
entitled (deciding key body) = anyone
entitled seeding = UserRole.admin ∷ []

role_of_anyone : (r : UserRole) → (contains anyone r || r == UserRole.admin) ≡ true
role_of_anyone UserRole.agent = refl
role_of_anyone UserRole.supervisor = refl
role_of_anyone UserRole.finance_approver = refl
role_of_anyone UserRole.admin = refl

-- the role of administrators need not be named
admin_unnamed :
    (r : UserRole)
    → (contains ingesters r || r == UserRole.admin)
      ≡ (contains case_workers r || r == UserRole.admin)
admin_unnamed UserRole.agent = refl
admin_unnamed UserRole.supervisor = refl
admin_unnamed UserRole.finance_approver = refl
admin_unnamed UserRole.admin = refl

denial_unnamed : (o : Option User) → denial ingesters o ≡ denial case_workers o
denial_unnamed none = refl
denial_unnamed (some user) = ap (λ b. if b then none else some forbidden) (admin_unnamed user.role)

or_raise-admitted : (o : Option User) (s : Db) → or_raise o unauthorized s ≡ admitted s o
or_raise-admitted none s = refl
or_raise-admitted (some a) s = refl

module _ (tokens : Tokens) (token : String) (s : Db) where
  subject-admitted :
      (o : Option (Option String))
      → (or_raise o unauthorized >>= λ sub.
            gets (user_of_key sub) >>= λ found. or_raise found unauthorized)
          s
        ≡ admitted s (subject o s)
  subject-admitted none = refl
  subject-admitted (some sub) = or_raise-admitted (user_of_key sub s) s

  pub get_current_user-admitted :
      get_current_user tokens token s ≡ admitted s (caller tokens token s)
  unfolding get_current_user
  get_current_user-admitted = subject-admitted (tokens.decode token)

  barred :
      (user : User) (b : Bool) (e : Error)
      → ◌≡◌ {A = Option Error} (if b then none else some forbidden) (some e)
      → ((if not b then raise forbidden else skip) >> pure user) s ≡ err e
  barred user true e h = cc
  barred user false e h = cc

  module _ (roles : List UserRole) where
    -- what the check of the roles makes of a caller
    checked_as :
        (o : Option User) (e : Error)
        → denial roles o ≡ some e
        → caller tokens token s ≡ o
        → require_roles tokens roles token s ≡ err e
    unfolding require_roles
    checked_as none e h k =
        >>=-err (get_current_user tokens token) _ s (get_current_user-admitted ∙ ap (admitted s) k)
        ∙ cc
    checked_as (some user) e h k =
        >>=-ok (get_current_user tokens token) _ s (get_current_user-admitted ∙ ap (admitted s) k)
          (barred user (has_role roles user) e h)

    require_roles-denied :
        (e : Error)
        → denial roles (caller tokens token s) ≡ some e
        → require_roles tokens roles token s ≡ err e
    require_roles-denied e h = checked_as (caller tokens token s) e h refl

  module _ (env : Env) where
    denied_decision :
        (key : String) (body : ApprovalDecision) (o : Option User) (e : Error)
        → denial anyone o ≡ some e
        → caller tokens token s ≡ o
        → decide_first tokens env token key body s ≡ err e
    unfolding decide_first
    denied_decision key body none e h k =
        >>=-err (get_current_user tokens token) _ s (get_current_user-admitted ∙ ap (admitted s) k)
        ∙ cc
    denied_decision key body (some user) e h k =
        absurd (ground (arith, h, role_of_anyone user.role))

    denied_opening :
        (body : CaseCreate) (e : Error)
        → denial case_workers (caller tokens token s) ≡ some e
        → opening_case tokens env token body s ≡ err e
    unfolding opening_case
    denied_opening body e h =
        >>=-err (require_roles tokens case_workers token) _ s
          (require_roles-denied case_workers e h)

    denied_advance :
        (case_id : String) (e : Error)
        → denial case_workers (caller tokens token s) ≡ some e
        → advancing_case tokens env token case_id s ≡ err e
    unfolding advancing_case
    denied_advance case_id e h =
        >>=-err (require_roles tokens case_workers token) _ s
          (require_roles-denied case_workers e h)

    denied_delivery :
        (body : EvidenceIngest) (e : Error)
        → denial case_workers (caller tokens token s) ≡ some e
        → ingesting_evidence tokens env token body s ≡ err e
    unfolding ingesting_evidence
    denied_delivery body e h =
        >>=-err (require_roles tokens ingesters token) _ s
          (require_roles-denied ingesters e (denial_unnamed (caller tokens token s) ∙ h))

    denied_seeding :
        (e : Error)
        → denial seeders (caller tokens token s) ≡ some e
        → seeding_demo tokens env token s ≡ err e
    unfolding seeding_demo
    denied_seeding e h =
        >>=-err (require_roles tokens seeders token) _ s (require_roles-denied seeders e h)

    -- A request whose caller is not known is answered as unauthorized, and one whose caller lacks the
    -- role that it takes as forbidden, where administrators may do everything and anyone who is known
    -- may decide; either way the database is left as it was.
    pub handle-denied :
        (r : Request) (e : Error)
        → denial (entitled r) (caller tokens token s) ≡ some e
        → handle tokens env token r s ≡ (some e, s)
    unfolding handle open_case advance ingest decide seed_demo_data
    handle-denied (opening body) e h = ap (λ r. summary (ended s r)) (denied_opening body e h)
    handle-denied (advancing case_id) e h =
        ap (λ r. summary (ended s r)) (denied_advance case_id e h)
    handle-denied (ingesting body) e h = ap (λ r. summary (ended s r)) (denied_delivery body e h)
    handle-denied (deciding key body) e h =
        ap (λ r. summary (continued s (λ o. committing (decide_rest tokens env key body o)) r))
          (denied_decision key body (caller tokens token s) e h refl)
    handle-denied seeding e h = ap (λ r. summary (ended s r)) (denied_seeding e h)
