-- ===== src/Recovery/Gates.antt =====
-- backend/app/engine/recovery_catalog.py: which of the ranked options wait for a human.
use occj.Prelude.{
  String, Bool, true, false, not, ◌&&◌, ◌||◌, ◌≡◌, List, [], ◌∷◌, ◌++◌, all, is_some, ◌==◌,
  eq_string, if◌then◌else◌, arith,
}
use occj.Models.Float.{Float, Arith, f0_15}
use occj.Env.{Settings}
use occj.Recovery.Catalog.{
  RecoveryOption, apology, exceptional, high_value, share, gated, reroute, category_options,
  rank_recovery_options,
}

module _ (ar : Arith) (settings : Settings) where
  -- a remedy of a high value is gated
  abbrev pub value_gated : RecoveryOption → Bool
  value_gated o = not (high_value ar settings o.estimated_cost_usd) || o.requires_approval

  -- a gated option names the role that decides
  abbrev pub has_approver : RecoveryOption → Bool
  has_approver o = not o.requires_approval || is_some o.approval_role

  abbrev pub well_gated : RecoveryOption → Bool
  well_gated o =
      (value_gated o || o.code == "reroute_or_reattempt_delivery" || o.code == apology.code)
      && has_approver o

  all-append :
      (p : RecoveryOption → Bool) (xs ys : List RecoveryOption)
      → all p xs ≡ true
      → all p ys ≡ true
      → all p (xs ++ ys) ≡ true
  all-append p [] ys h k = k
  all-append p (x ∷ xs) ys h k = ground (arith, all-append p xs ys)

  gated-well :
      (code label : String) (cost : Float) (role why : String)
      → well_gated (gated ar settings code label cost role why) ≡ true
  unfolding gated
  gated-well code label cost role why = ground arith

  reroute-well : (exposure : Float) → well_gated (reroute ar settings exposure) ≡ true
  unfolding reroute
  reroute-well exposure = ground arith

  all-cons :
      (o : RecoveryOption) (os : List RecoveryOption)
      → well_gated o ≡ true
      → all well_gated os ≡ true
      → all well_gated (o ∷ os) ≡ true
  all-cons o os h k = ground arith

  all-if :
      (b : Bool) (os ps : List RecoveryOption)
      → all well_gated os ≡ true
      → all well_gated ps ≡ true
      → all well_gated (if b then os else ps) ≡ true
  all-if true os ps h k = h
  all-if false os ps h k = k

  category_options-well :
      (category : String) (exposure : Float)
      → all well_gated (category_options ar settings category exposure) ≡ true
  unfolding category_options
  category_options-well category exposure =
      search (all-if, all-cons, gated-well, reroute-well) depth 24

  -- Every option that is ranked names an approver when it is gated, and one whose cost reaches the
  -- threshold is gated, but for the rerouting of a delivery and the apology.
  pub rank_recovery_options-gates :
      (category : String) (exposure : Float) (tier : String)
      → all well_gated (rank_recovery_options ar settings category exposure tier) ≡ true
  unfolding rank_recovery_options
  rank_recovery_options-gates category exposure tier = ground (
    arith,
    category_options-well category exposure,
    all-append well_gated (category_options ar settings category exposure) (exceptional ∷ []),
  )

  -- A rerouting is offered without approval whatever it costs: when the share of the exposure
  -- reaches the threshold, some option of that category is not gated by its value.
  pub reroute-ungated :
      (exposure : Float) (tier : String)
      → high_value ar settings (share ar settings exposure f0_15) ≡ true
      → all value_gated (
          rank_recovery_options ar settings "wrong_address_or_failed_delivery_attempt" exposure
            tier)
        ≡ false
  unfolding rank_recovery_options category_options reroute
  reroute-ungated exposure tier h = ground arith
