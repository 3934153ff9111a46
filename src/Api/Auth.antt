-- ===== src/Api/Auth.antt =====
-- backend/app/auth/deps.py, and `login` of backend/app/api/routers/auth.py. The signing of tokens and
-- the hashing of passwords are jose's and bcrypt's, hence parameters.
use occj.Prelude.{
  ℕ, ◌+◌, ◌*◌, String, Bool, not, ◌||◌, Option, none, some, List, first, contains, ◌==◌, eq_string,
  if◌then◌else◌,
}
use occj.Models.Enums.{UserRole, user_role_value, eq_user_role}
use occj.Models.Rows.{User}
use occj.Session.{
  Db, M, Supply, pure, raise, gets, or_raise, skip, utcnow, unauthorized, forbidden, ◌>>=◌, ◌>>◌,
}
use occj.Session.Tables.{find_user}

pub record Tokens : Type 0 where
  -- `jwt.decode(...)`, `none` where it raises, and `.get("sub")` of the payload
  pub decode : String → Option (Option String)
  -- `jwt.encode({"sub": user_id, "role": role, "exp": expire})`
  pub encode : String → String → ℕ → String
  -- `bcrypt.checkpw(password, password_hash)`
  pub verify_password : String → String → Bool
  pub jwt_expiry_minutes : ℕ

pub record TokenOut : Type 0 where
  pub access_token : String
  pub role : String
  pub user_id : String
  pub display_name : String

-- `session.get(User, key)`, which finds nothing for `None`
abbrev pub user_of_key : Option String → Db → Option User
user_of_key none s = none
user_of_key (some key) s = find_user key s

-- `user.role not in roles and user.role != ADMIN`, negated
abbrev pub has_role : List UserRole → User → Bool
has_role roles user = contains roles user.role || user.role == UserRole.admin

module _ (tokens : Tokens) where
  unfoldable pub get_current_user : String → M User
  get_current_user token = do
    sub ← or_raise (tokens.decode token) unauthorized
    found ← gets (user_of_key sub)
    or_raise found unauthorized

  unfoldable pub require_roles : List UserRole → String → M User
  unfolding get_current_user
  require_roles roles token = do
    user ← get_current_user token
    if not (has_role roles user) then raise forbidden else skip
    pure user

  unfoldable pub create_access_token : Supply → String → String → M String
  create_access_token env user_id role = do
    now ← utcnow env
    pure (tokens.encode user_id role (now + tokens.jwt_expiry_minutes * 60_000_000))

  unfoldable pub login : Supply → String → String → M TokenOut
  unfolding create_access_token
  login env username password = do
    found ← gets (λ s. first (λ (u : User). u.username == username) s.users)
    user ← or_raise found unauthorized
    if not (tokens.verify_password password user.password_hash) then raise unauthorized else skip
    token ← create_access_token env user.id (user_role_value user.role)
    pure (record {
      access_token = token;
      role = user_role_value user.role;
      user_id = user.id;
      display_name = user.display_name;
    })
