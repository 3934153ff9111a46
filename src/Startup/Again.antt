-- ===== src/Startup/Again.antt =====
-- `lifespan` of backend/app/main.py: what a start, and one more, leave.
use occj.Prelude.{
  ℕ, String, ◌≡◌, refl, ap, ◌∙◌, inl, inr, true, List, [], ◌∷◌, ◌++◌, first, All, is_some,
  Option-cases, ◌==◌, eq_string, arith,
}
use occj.Models.Rows.{User}
use occj.Session.{Db, Supply, ok, for_each, modify, skip}
use occj.Session.Runs.{>>=-ok, on_option-some, on_option-none}
use occj.Startup.{DemoUser, demo_users, user_named, user_of, with_user, ensure_user, lifespan}

-- the database has a user of this name
abbrev pub Known : Db → DemoUser → Type 0
Known s d = is_some (user_named d.username s) ≡ true

known-append :
    (name : String) (us : List User) (u : User)
    → is_some (first (λ (v : User). v.username == name) us) ≡ true
    → is_some (first (λ (v : User). v.username == name) (us ++ u ∷ [])) ≡ true
known-append name [] u h = cc
known-append name (v ∷ us) u h = ground (arith, h, known-append name us u)

known-added :
    (us : List User) (u : User)
    → is_some (first (λ (v : User). v.username == u.username) (us ++ u ∷ [])) ≡ true
known-added [] u = ground (arith, (eq_string.beq_iff u.username u.username).1 refl)
known-added (v ∷ us) u = ground (arith, known-added us u)

-- a run that returns and after which all names of before are known
record Ensured (s t : Db) (ds : List DemoUser) : Type 0 where
  kept : (d : DemoUser) → Known s d → Known t d
  known : All (Known t) ds

module _ (hash_password : ℕ → String → String) (env : Supply) where
  ensure_user-Known :
      (d : DemoUser) (s : Db) → Known s d → ensure_user hash_password env d s ≡ ok (tt, s)
  unfolding ensure_user
  ensure_user-Known d s h = elim (Option-cases (user_named d.username s)) [
    | inl k ↦ absurd (ground (arith, h, k))
    | inr (u, k) ↦ on_option-some (modify (with_user hash_password env d)) (λ user. skip) s k ∙ refl
  ]

  ensure_user-run :
      (d : DemoUser) (s : Db)
      → (t : Db) × (ensure_user hash_password env d s ≡ ok (tt, t)) × Ensured s t (d ∷ [])
  unfolding ensure_user user_named
  ensure_user-run d s = elim (Option-cases (user_named d.username s)) [
    | inl k ↦ (
      with_user hash_password env d s,
      on_option-none (modify (with_user hash_password env d)) (λ user. skip) s k ∙ refl,
      record {
        kept = λ e. known-append e.username s.users (user_of hash_password env d s.ids);
        known = (known-added s.users (user_of hash_password env d s.ids), tt);
      },
    )
    | inr (u, k) ↦ (
      s,
      on_option-some (modify (with_user hash_password env d)) (λ user. skip) s k ∙ refl,
      record { kept = λ e h. h; known = (ap is_some k, tt) },
    )
  ]

  for_each-run :
      (ds : List DemoUser) (s : Db)
      → (t : Db) × (for_each ds (ensure_user hash_password env) s ≡ ok (tt, t)) × Ensured s t ds
  unfolding for_each
  for_each-run [] s = (s, refl, record { kept = λ e h. h; known = tt })
  for_each-run (d ∷ ds) s =
      let (t, p, h) = ensure_user-run d s in
      let (u, q, k) = for_each-run ds t in
      (
        u,
        >>=-ok (ensure_user hash_password env d) (λ _. for_each ds (ensure_user hash_password env))
            s p q,
        record { kept = λ e l. k.kept e (h.kept e l); known = (k.kept d h.known.0, k.known) },
      )

  for_each-Known :
      (ds : List DemoUser) (s : Db)
      → All (Known s) ds
      → for_each ds (ensure_user hash_password env) s ≡ ok (tt, s)
  unfolding for_each
  for_each-Known [] s h = refl
  for_each-Known (d ∷ ds) s h =
      >>=-ok (ensure_user hash_password env d) (λ _. for_each ds (ensure_user hash_password env)) s
        (ensure_user-Known d s h.0) (for_each-Known ds s h.1)

  -- Whatever the database holds, a start succeeds; then every demonstration user is known, and another
  -- start changes nothing.
  pub lifespan-again :
      (s : Db)
      → (t : Db) × (lifespan hash_password env s ≡ ok (tt, t))
        × All (Known t) demo_users
        × (lifespan hash_password env t ≡ ok (tt, t))
  unfolding lifespan
  lifespan-again s =
      let (t, p, h) = for_each-run demo_users s in
      (t, p, h.known, for_each-Known demo_users t h.known)
