-- ===== src/Seed/All.antt =====
-- `seed_all` of backend/app/seed/synthetic_data.py: the journeys, one after another.
use occj.Prelude.{String, List, [], ◌∷◌}
use occj.Session.{M, pure, ◌>>=◌}
use occj.Env.{Env}
use occj.Seed.Early.{
  seed_duplicate_charge, seed_never_fulfilled, seed_never_shipped, seed_disputed_delivery,
}
use occj.Seed.Late.{
  seed_unrefunded_return, seed_conflicting_outcomes, seed_corrected_address,
  seed_detected_duplicate_charge,
}

module _ (env : Env) where
  -- what follows the first journey
  unfoldable pub seed_others : String → M (List String)
  seed_others case1 = do
    case2 ← seed_never_fulfilled env
    case3 ← seed_never_shipped env
    case4 ← seed_disputed_delivery env
    case5 ← seed_unrefunded_return env
    case6 ← seed_conflicting_outcomes env
    case7 ← seed_corrected_address env
    case8 ← seed_detected_duplicate_charge env
    pure (case1 ∷ case2 ∷ case3 ∷ case4 ∷ case5 ∷ case6 ∷ case7 ∷ case8 ∷ [])

  -- up to its commit: the keys of the cases that were created
  unfoldable pub seed_all : M (List String)
  unfolding seed_others
  seed_all = seed_duplicate_charge env >>= seed_others
