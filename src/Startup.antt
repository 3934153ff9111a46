-- ===== src/Startup.antt =====
-- The users that `lifespan` of backend/app/main.py makes sure of. `bcrypt.hashpw` with a fresh salt is
-- a parameter, with the number of the key that is made for the user. The session shows a user that was
-- added already to the next round; the source's does not, but the names of the users differ.
pub mod Again
use occj.Prelude.{ℕ, ◌+◌, String, Option, none, some, List, [], ◌∷◌, ◌++◌, first, ◌==◌, eq_string}
use occj.Models.Enums.{UserRole}
use occj.Models.Rows.{User}
use occj.Session.{Db, M, Supply, pure, gets, skip, modify, on_option, for_each, ◌>>=◌, ◌>>◌}

-- a username, a role and a display name
pub record DemoUser : Type 0 where
  pub username : String
  pub role : UserRole
  pub display_name : String

abbrev pub demo_users : List DemoUser
demo_users =
    record { username = "agent1"; role = UserRole.agent; display_name = "Alex Agent" }
    ∷ record {
      username = "supervisor1";
      role = UserRole.supervisor;
      display_name = "Sam Supervisor";
    }
    ∷ record {
      username = "finance1";
      role = UserRole.finance_approver;
      display_name = "Farah Finance";
    }
    ∷ record { username = "admin1"; role = UserRole.admin; display_name = "Ada Admin" }
    ∷ []

unfoldable pub user_named : String → Db → Option User
user_named username s = first (λ (u : User). u.username == username) s.users

module _ (hash_password : ℕ → String → String) (env : Supply) where
  -- the row that a missing user becomes
  abbrev pub user_of : DemoUser → ℕ → User
  user_of d n = record {
    id = env.key n;
    username = d.username;
    password_hash = hash_password n "demo-pass";
    role = d.role;
    display_name = d.display_name;
  }

  abbrev pub with_user : DemoUser → Db → Db
  with_user d s = record s { users = s.users ++ user_of d s.ids ∷ []; ids = s.ids + 1 }

  -- one round of the loop
  unfoldable pub ensure_user : DemoUser → M Unit
  unfolding user_named
  ensure_user d = do
    existing ← gets (user_named d.username)
    on_option existing (modify (with_user d)) (λ user. skip)

  unfoldable pub lifespan : M Unit
  unfolding ensure_user for_each
  lifespan = for_each demo_users ensure_user
