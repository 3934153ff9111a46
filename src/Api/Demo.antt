-- ===== src/Api/Demo.antt =====
-- backend/app/api/routers/demo.py
use occj.Prelude.{ℕ, String, Option, none, some, List, [], ◌∷◌, first, length, ◌==◌, eq_string}
use occj.Models.Enums.{UserRole}
use occj.Models.Rows.{Customer}
use occj.Session.{Db, M, pure, gets, on_option, ◌>>=◌}
use occj.Env.{Env}
use occj.Api.Requests.{Outcome, committing}
use occj.Api.Auth.{Tokens, require_roles}
use occj.Seed.All.{seed_all}

-- the answer, which names cases only where they were created
pub record SeedOut : Type 0 where
  pub status : String
  pub cases_created : Option (List String)
  pub count : ℕ

abbrev pub seeders : List UserRole
seeders = UserRole.admin ∷ []

-- the customer that the data set begins with
unfoldable pub first_demo_customer : Db → Option Customer
first_demo_customer s = first (λ (c : Customer). c.external_customer_id == "cust-1001") s.customers

abbrev pub already_seeded : SeedOut
already_seeded = record { status = "already_seeded"; cases_created = none; count = 0 }

abbrev pub newly_seeded : List String → SeedOut
newly_seeded created = record {
  status = "seeded";
  cases_created = some created;
  count = length created;
}

module _ (tokens : Tokens) (env : Env) where
  -- `seed_demo_data`, up to the commit of `seed_all`
  unfoldable pub seeding_demo : String → M SeedOut
  unfolding require_roles first_demo_customer seed_all
  seeding_demo token = do
    user ← require_roles tokens seeders token
    existing ← gets first_demo_customer
    on_option existing
        (do
          created ← seed_all env
          pure (record { status = "seeded"; cases_created = some created; count = length created }))
        (λ c. pure already_seeded)

  unfoldable pub seed_demo_data : String → Db → Outcome SeedOut
  unfolding seeding_demo
  seed_demo_data token = committing (seeding_demo token)
