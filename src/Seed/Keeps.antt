-- ===== src/Seed/Keeps.antt =====
-- The demonstration data set, for every relation of the frame.
use occj.Prelude.{ℕ, zero, suc, String, ◌≡◌, sym, ◌∙◌, inl, inr, some, Option-cases}
use occj.Models.Rows.{Customer, Approval}
use occj.Session.{Db, ok, skip, on_option, ◌>>=◌, ◌>>◌}
use occj.Session.Steps.{
  Relation, Steps, Steps-pure, Steps-bind, Steps-on_option, >>=-eq-ok, steps_rules,
}
use occj.Session.Ensures.{Ends, Ends-then}
use occj.Session.Runs.{on_option-some, on_option-none}
use occj.Env.{Env}
use occj.CaseService.{get_or_create_customer, advance_case}
use occj.Frame.{Frame, Ruling, rules_approval-Steps, rules_action-Steps, frame_rules}
use occj.Frame.Basics.{ingest_evidence-Steps}
use occj.Frame.Service.{get_or_create_customer-Steps, create_case-Steps, run_case_cycle-Steps}
use occj.Seed.Closure.{first_pending, stand_in, auto_approve_to_closure}
use occj.Seed.Facts.{first_newcomer}
use occj.Seed.Early.{
  duplicate_charge_of, seed_duplicate_charge, seed_never_fulfilled, seed_never_shipped,
  seed_disputed_delivery,
}
use occj.Seed.Late.{
  seed_unrefunded_return, seed_conflicting_outcomes, seed_corrected_address,
  seed_detected_duplicate_charge,
}
use occj.Seed.All.{seed_others, seed_all}

stand_in-Steps :
    (env : Env) {R : Relation} (ru : Ruling R) (p : Approval) → Steps R (stand_in env p)
unfolding stand_in
stand_in-Steps env ru p = search (steps_rules, rules_approval-Steps, rules_action-Steps) depth 14

-- What is assigned in a human's stead respects the relation, where a pending approval was found.
abbrev pub StandsIn : Env → Relation → Type 0
StandsIn env R =
    (case_id : String) (s t : Db) (p : Approval)
    → first_pending case_id s ≡ some p
    → stand_in env p s ≡ ok (tt, t)
    → R.rel s t

pub rules-StandsIn : (env : Env) {R : Relation} → Ruling R → StandsIn env R
rules-StandsIn env ru case_id s t p h = (stand_in-Steps env ru p).at s tt t

module _ (env : Env) {R : Relation} {may : String → Type 0} (fr : Frame env R may)
    (advances : (case_id : String) → Steps R (advance_case env case_id))
    (stands : StandsIn env R) where
  auto_approve-Steps : (n : ℕ) (case_id : String) → Steps R (auto_approve_to_closure env n case_id)
  unfolding auto_approve_to_closure
  auto_approve-Steps zero case_id = Steps-pure tt
  auto_approve-Steps (suc n) case_id =
      let onward : Steps R (auto_approve_to_closure env n case_id) = auto_approve-Steps n case_id in
      let idle : Steps R (
          advance_case env case_id >>= λ action.
          on_option action skip (λ a. auto_approve_to_closure env n case_id)) =
        Steps-bind _ _ (advances case_id) λ o. Steps-on_option o _ _ (Steps-pure tt) λ a. onward in
      let after : Steps R (advance_case env case_id >> auto_approve_to_closure env n case_id) =
        Steps-bind _ _ (advances case_id) λ o. onward in
      record {
        at = λ s a u e. elim (Option-cases (first_pending case_id s)) [
          | inl k ↦ idle.at s a u (sym (on_option-none _ _ s k) ∙ e)
          | inr (p, k) ↦
              let (z, t, l, m) =
                >>=-eq-ok (stand_in env p)
                  (λ z. advance_case env case_id >> auto_approve_to_closure env n case_id) s
                  (sym (on_option-some _ _ s k) ∙ e) in
              R.transitive s t u (stands case_id s t p k l) (after.at t a u m)
        ];
      }

  -- the operations that a journey is made of
  ruleset seed_rules = (
    frame_rules, get_or_create_customer-Steps, create_case-Steps, ingest_evidence-Steps,
    run_case_cycle-Steps, auto_approve-Steps,
  )

  duplicate_charge_of-Steps : (c : Customer) → Steps R (duplicate_charge_of env c)
  unfolding duplicate_charge_of
  duplicate_charge_of-Steps c = search seed_rules depth 40

  duplicate_charge-Steps : Steps R (seed_duplicate_charge env)
  unfolding seed_duplicate_charge
  duplicate_charge-Steps = search (seed_rules, duplicate_charge_of-Steps) depth 40

  never_fulfilled-Steps : Steps R (seed_never_fulfilled env)
  unfolding seed_never_fulfilled
  never_fulfilled-Steps = search seed_rules depth 40

  never_shipped-Steps : Steps R (seed_never_shipped env)
  unfolding seed_never_shipped
  never_shipped-Steps = search seed_rules depth 40

  disputed_delivery-Steps : Steps R (seed_disputed_delivery env)
  unfolding seed_disputed_delivery
  disputed_delivery-Steps = search seed_rules depth 40

  unrefunded_return-Steps : Steps R (seed_unrefunded_return env)
  unfolding seed_unrefunded_return
  unrefunded_return-Steps = search seed_rules depth 40

  conflicting_outcomes-Steps : Steps R (seed_conflicting_outcomes env)
  unfolding seed_conflicting_outcomes
  conflicting_outcomes-Steps = search seed_rules depth 40

  corrected_address-Steps : Steps R (seed_corrected_address env)
  unfolding seed_corrected_address
  corrected_address-Steps = search seed_rules depth 40

  detected_duplicate_charge-Steps : Steps R (seed_detected_duplicate_charge env)
  unfolding seed_detected_duplicate_charge
  detected_duplicate_charge-Steps = search seed_rules depth 40

  seed_others-Steps : (case1 : String) → Steps R (seed_others env case1)
  unfolding seed_others
  seed_others-Steps case1 =
      search
        (
          steps_rules, never_fulfilled-Steps, never_shipped-Steps, disputed_delivery-Steps,
          unrefunded_return-Steps, conflicting_outcomes-Steps, corrected_address-Steps,
          detected_duplicate_charge-Steps,
        )
        depth 24

  pub seed_all-Steps : Steps R (seed_all env)
  unfolding seed_all
  seed_all-Steps = search (steps_rules, duplicate_charge-Steps, seed_others-Steps) depth 24

  -- What is so once the first customer is there is so at the end, if it lasts.
  module _ {P : Db → Type 0} (lasts : (s t : Db) → R.rel s t → P s → P t)
      (begun : Ends P (get_or_create_customer env first_newcomer)) where
    duplicate_charge-Ends : Ends P (seed_duplicate_charge env)
    unfolding seed_duplicate_charge
    duplicate_charge-Ends =
        Ends-then (get_or_create_customer env first_newcomer) (duplicate_charge_of env) lasts begun
          duplicate_charge_of-Steps

    pub seed_all-Ends : Ends P (seed_all env)
    unfolding seed_all
    seed_all-Ends =
        Ends-then (seed_duplicate_charge env) (seed_others env) lasts duplicate_charge-Ends
          seed_others-Steps
