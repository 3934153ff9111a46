-- ===== src/Api/Login.antt =====
-- `login` of backend/app/api/routers/auth.py, and the token that it gives out.
use occj.Prelude.{ℕ, ◌+◌, ◌*◌, String, ◌≡◌, refl, ap, ◌∙◌, true, not, some, first, ◌==◌, eq_string}
use occj.Models.Enums.{user_role_value}
use occj.Models.Rows.{User}
use occj.Session.{Db, Supply, ok, utcnow, unauthorized}
use occj.Session.Runs.{or_raise-run, guard-run}
use occj.Session.Tables.{find_user}
use occj.Api.Auth.{Tokens, TokenOut, get_current_user, create_access_token, login}
use occj.Api.Access.{admitted, subject, get_current_user-admitted}

module _ (tokens : Tokens) (env : Supply) (username password : String) (user : User) (s : Db) where
  -- when the token of a login at this session runs out
  abbrev pub expiry : ℕ
  expiry = env.clock s.reads + tokens.jwt_expiry_minutes * 60_000_000

  abbrev pub ticket : TokenOut
  ticket = record {
    access_token = tokens.encode user.id (user_role_value user.role) expiry;
    role = user_role_value user.role;
    user_id = user.id;
    display_name = user.display_name;
  }

  -- Where the password fits the first user of the name, the user's key leads back to the same row, and
  -- the signing library reads back the subject of the token that it signed, which it does until the
  -- token expires: the login returns a token, and a request that carries it is that user's.
  pub login-get_current_user :
      first (λ (u : User). u.username == username) s.users ≡ some user
      → tokens.verify_password password user.password_hash ≡ true
      → find_user user.id s ≡ some user
      → tokens.decode (tokens.encode user.id (user_role_value user.role) expiry)
        ≡ some (some user.id)
      → (t : TokenOut) × (after : Db) × (login tokens env username password s ≡ ok (t, after))
        × (get_current_user tokens t.access_token after ≡ ok (user, after))
  unfolding login create_access_token utcnow find_user
  login-get_current_user h k l m = (
    ticket,
    record s { reads = s.reads + 1 },
    or_raise-run unauthorized s (first (λ (u : User). u.username == username) s.users) _ h
        ∙ guard-run unauthorized s _ _ (ap not k)
        ∙ refl,
    get_current_user-admitted tokens ticket.access_token (record s { reads = s.reads + 1 })
        ∙ ap
            (λ o.
              admitted (record s { reads = s.reads + 1 })
                (subject o (record s { reads = s.reads + 1 })))
            m
        ∙ ap (admitted (record s { reads = s.reads + 1 })) l,
  )
