-- ===== src/Api/Requests.antt =====
-- `get_session` of backend/app/db.py: a request works in a session of its own, and what it wrote up
-- to its last `commit` is what the database keeps. The response is a value or an error; an error that
-- no handler names is FastAPI's 500.
use occj.Prelude.{Bool, true, false, if◌then◌else◌}
use occj.Session.{
  Db, Error, Result, ok, err, M, not_a_decision, already_decided, wrong_role, action_not_found,
}

pub record Outcome (A : Type 0) : Type 0 where
  pub response : Result A
  pub committed : Db

-- how work ends on a database, when what it wrote is committed at its end
abbrev pub ended : {A : Type 0} → Db → Result (A × Db) → Outcome A
ended s (ok (a, t)) = record { response = ok a; committed = t }
ended s (err e) = record { response = err e; committed = s }

-- work, and `await session.commit()` after it
abbrev pub committing : {A : Type 0} → M A → Db → Outcome A
committing m s = ended s (m s)

abbrev pub continued : {A B : Type 0} → Db → (A → Db → Outcome B) → Result (A × Db) → Outcome B
continued s f (ok (a, t)) = f a t
continued s f (err e) = record { response = err e; committed = s }

-- work and a commit, with more work after the commit
abbrev pub committed_then : {A B : Type 0} → M A → (A → Db → Outcome B) → Db → Outcome B
committed_then m f s = continued s f (m s)

-- `except ApprovalError`
abbrev pub is_approval_error : Error → Bool
is_approval_error not_a_decision = true
is_approval_error already_decided = true
is_approval_error wrong_role = true
is_approval_error action_not_found = true
is_approval_error _ = false

abbrev pub relabelled {ℓ} : {A : Type ℓ} → Error → Result A → Result A
relabelled e (ok r) = ok r
relabelled e (err x) = err (if is_approval_error x then e else x)

-- `try: m; except ApprovalError as exc: raise e from exc`
abbrev pub approval_error_as : {A : Type 0} → Error → M A → M A
approval_error_as e m s = relabelled e (m s)
