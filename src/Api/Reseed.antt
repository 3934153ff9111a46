-- ===== src/Api/Reseed.antt =====
-- `seed_demo_data` of backend/app/api/routers/demo.py: a data set that is there already.
use mathlib.Core.Path.{subst}
use occj.Prelude.{
  String, Bool, true, ◌≡◌, refl, sym, ap, ◌∙◌, inl, inr, none, some, List, [], ◌∷◌, ◌++◌, first,
  first-append, Option-cases, ◌==◌, eq_string, arith,
}
use occj.Models.Rows.{Customer, User}
use occj.Session.{Db, Result, ok, err, pure, new_id}
use occj.Session.Ensures.{Ends}
use occj.Session.Steps.{>>=-eq-ok, stays}
use occj.Session.Runs.{on_option-some, on_option-none, >>=-ok}
use occj.Session.Tables.{insert_customer}
use occj.Session.History.{Extends-same, Kept}
use occj.Env.{Env}
use occj.CaseService.{get_or_create_customer}
use occj.Frame.Service.{advance_case-Steps}
use occj.Frame.Retained.{History-Frame, History-Ruling}
use occj.Seed.Facts.{first_newcomer}
use occj.Seed.All.{seed_all}
use occj.Seed.Keeps.{rules-StandsIn, seed_all-Ends}
use occj.Api.Requests.{Outcome, ended}
use occj.Api.Auth.{Tokens, require_roles}
use occj.Api.Demo.{
  SeedOut, seeders, first_demo_customer, newly_seeded, already_seeded, seeding_demo, seed_demo_data,
}
use occj.Api.Serve.{Served}
use occj.Api.Served.{Served-Kept}

-- the customer that the data set begins with is there
abbrev pub Seeded : Db → Type 0
Seeded s = (c : Customer) × (first_demo_customer s ≡ some c)

-- customers are never removed
Kept-Seeded : (s t : Db) → Kept s t → Seeded s → Seeded t
unfolding first_demo_customer
Kept-Seeded s t kept (c, h) =
    let (l, same) = Extends-same s.customers t.customers kept.customers in
    let wanted : Customer → Bool = (λ r. r.external_customer_id == "cust-1001") in
    (c, ap (first wanted) same ∙ first-append wanted s.customers l c h)

first-added :
    (wanted : Customer → Bool) (xs : List Customer) (c : Customer)
    → wanted c ≡ true
    → first wanted xs ≡ none
    → first wanted (xs ++ c ∷ []) ≡ some c
first-added wanted [] c h k = ground (arith, h)
first-added wanted (x ∷ xs) c h k = ground (arith, h, k, first-added wanted xs c h)

module _ (env : Env) where
  get_or_create_customer-Seeded : Ends Seeded (get_or_create_customer env first_newcomer)
  unfolding get_or_create_customer first_demo_customer new_id insert_customer
  get_or_create_customer-Seeded = record {
    after = λ s c t e. elim (Option-cases (first_demo_customer s)) [
      | inl h ↦
          stays Seeded
            (_, first-added (λ r. r.external_customer_id == "cust-1001") s.customers _ refl h)
            (sym (on_option-none _ pure s h) ∙ e)
      | inr (r, h) ↦ stays Seeded (r, h) (sym (on_option-some _ pure s h) ∙ e)
    ];
  }

  abbrev all-Seeded : Ends Seeded (seed_all env)
  all-Seeded =
      seed_all-Ends env (History-Frame env) (advance_case-Steps env (History-Frame env) (λ key. tt))
        (rules-StandsIn env History-Ruling) Kept-Seeded get_or_create_customer-Seeded

module _ (tokens : Tokens) (env : Env) where
  seeding_demo-Seeded : (token : String) → Ends Seeded (seeding_demo tokens env token)
  unfolding seeding_demo first_demo_customer
  seeding_demo-Seeded token = record {
    after = λ s o u e.
        let (user, t, p, q) = >>=-eq-ok (require_roles tokens seeders token) _ s e in
        elim (Option-cases (first_demo_customer t)) [
          | inl h ↦
              let (cases, v, k, l) =
                >>=-eq-ok (seed_all env) (λ created. pure (newly_seeded created)) t
                  (sym (on_option-none _ (λ c. pure already_seeded) t h) ∙ q) in
              stays Seeded ((all-Seeded env).after t cases v k) l
          | inr (c, h) ↦
              stays Seeded (c, h) (sym (on_option-some _ (λ c. pure already_seeded) t h) ∙ q)
        ];
  }

  ended-Seeded :
      (s t : Db) (o : SeedOut) (r : Result (SeedOut × Db))
      → ((a : SeedOut) (u : Db) → r ≡ ok (a, u) → Seeded u)
      → ended s r ≡ record { response = ok o; committed = t }
      → Seeded t
  ended-Seeded s t o (ok (a, u)) h e =
      subst Seeded (ap (λ (x : Outcome SeedOut). x.committed) e) (h a u refl)
  ended-Seeded s t o (err x) h e = cc

  seeding_demo-again :
      (token : String) (user : User) (s : Db)
      → Seeded s
      → require_roles tokens seeders token s ≡ ok (user, s)
      → seeding_demo tokens env token s ≡ ok (already_seeded, s)
  unfolding seeding_demo first_demo_customer
  seeding_demo-again token user s (c, h) k =
      >>=-ok (require_roles tokens seeders token) _ s k
        (on_option-some _ (λ c. pure already_seeded) s h ∙ refl)

  -- Once a request for the demonstration data was answered without an error, then whatever requests
  -- are served, by whomever and however each of them ends, one more such request of someone who may
  -- make it is answered as seeded already and leaves the database as it was.
  pub seed_demo_data-again :
      {P : Db → Type 0} (token again : String) (o : SeedOut) (user : User) (s t u : Db)
      → seed_demo_data tokens env token s ≡ record { response = ok o; committed = t }
      → Served tokens env P t u
      → require_roles tokens seeders again u ≡ ok (user, u)
      → seed_demo_data tokens env again u ≡ record { response = ok already_seeded; committed = u }
  unfolding seed_demo_data
  seed_demo_data-again token again o user s t u before between may =
      let there : Seeded t =
        ended-Seeded s t o (seeding_demo tokens env token s) ((seeding_demo-Seeded token).after s)
          before in
      ap (ended u) (
        seeding_demo-again again user u (Kept-Seeded t u (Served-Kept tokens env between) there)
          may)
