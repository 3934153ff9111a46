-- ===== src/Nba/Choice.antt =====
-- backend/app/engine/nba_engine.py: which remedy is proposed after some were turned down.
use occj.Prelude.{
  ◌≡◌, refl, Bool, true, false, not, ◌&&◌, inl, inr, some, List, [], ◌∷◌, any, first, first_sound,
  is_some, Option-cases, ◌==◌, eq_string, arith,
}
use occj.Models.Json.{Json}
use occj.Recovery.Catalog.{RecoveryOption}
use occj.Nba.Steps.{not_rejected, choose_option}

abbrev pub is_substantive : List Json → RecoveryOption → Bool
is_substantive codes o = not (o.code == "apology_status_update") && not_rejected codes o

first-any : (p : RecoveryOption → Bool) (os : List RecoveryOption) → is_some (first p os) ≡ any p os
first-any p [] = refl
first-any p (o ∷ os) = ground (arith, first-any p os)

module _ (codes : List Json) (options : List RecoveryOption) where
  any-substantive :
      (os : List RecoveryOption)
      → any (is_substantive codes) os ≡ true
      → any (not_rejected codes) os ≡ true
  any-substantive [] h = h
  any-substantive (o ∷ os) h = ground (arith, h, any-substantive os)

  -- A remedy is chosen exactly if one of the options was not turned down.
  pub choose_option-any : is_some (choose_option codes options) ≡ any (not_rejected codes) options
  unfolding choose_option
  choose_option-any = ground (
    arith,
    first-any (is_substantive codes) options,
    first-any (not_rejected codes) options,
    any-substantive options,
  )

  -- The remedy that is chosen was not turned down before, and it is an apology only if no other
  -- option is left that was not turned down.
  pub choose_option-not_rejected :
      (o : RecoveryOption)
      → choose_option codes options ≡ some o
      → (not_rejected codes o ≡ true)
        × ((o.code == "apology_status_update" && any (is_substantive codes) options) ≡ false)
  unfolding choose_option
  choose_option-not_rejected o h = elim (Option-cases (first (is_substantive codes) options)) [
    | inl k ↦ (
      first_sound (not_rejected codes) options o (ground (arith, h, k)),
      ground (arith, k, first-any (is_substantive codes) options),
    )
    | inr (p, k) ↦ ground (arith, h, k, first_sound (is_substantive codes) options p k)
  ]
