-- ===== src/Examples/Remedies.antt =====
-- Remedies of one category.
use occj.Prelude.{◌≡◌, refl, true, false, all}
use occj.Models.Float.{f75, le_float}
use occj.Recovery.Catalog.{high_value, rank_recovery_options}
use occj.Recovery.Gates.{value_gated, well_gated, rank_recovery_options-gates, reroute-ungated}
use occj.Examples.{env}

rank_recovery_options-gates_example :
    all
      (well_gated env.arith env.settings)
      (rank_recovery_options env.arith env.settings "duplicate_charge" f75 "gold")
    ≡ true
rank_recovery_options-gates_example =
    rank_recovery_options-gates env.arith env.settings "duplicate_charge" f75 "gold"

reroute-ungated_example :
    all (value_gated env.arith env.settings) (
      rank_recovery_options env.arith env.settings "wrong_address_or_failed_delivery_attempt" f75
        "gold")
    ≡ false
unfolding high_value le_float
reroute-ungated_example = reroute-ungated env.arith env.settings f75 "gold" refl
