-- ===== src/Frame/Proposing.antt =====
-- What the language model is asked and answers, for every relation: it only reads.
use occj.Prelude.{String, Option, List}
use occj.Models.Float.{Float}
use occj.Models.Json.{Json, Items, Fields, nil, cons}
use occj.Models.Rows.{Customer, ActionRequest, EvidenceRecord, UncertaintyFlag}
use occj.Session.Steps.{Relation, Steps, steps_rules}
use occj.Env.{Env}
use occj.Messaging.{message_for, draft_customer_message}
use occj.Hypotheses.Proposals.{spec_of, specs_of, proposed_in, generate_via_llm}

module _ {R : Relation} where
  spec_of-Steps : (h : Fields) → Steps R (spec_of h)
  unfolding spec_of
  spec_of-Steps h = search steps_rules depth 24

  specs_of-Steps : (hs : Items) → Steps R (specs_of hs)
  unfolding specs_of
  specs_of-Steps nil = search steps_rules depth 24
  specs_of-Steps (cons v hs) =
      let others = specs_of-Steps hs in search (steps_rules, spec_of-Steps) depth 24

  proposed_in-Steps : (v : Json) → Steps R (proposed_in v)
  unfolding proposed_in
  proposed_in-Steps v = search (steps_rules, specs_of-Steps) depth 24

  module _ (env : Env) where
    pub generate_via_llm-Steps :
        (evidence : List EvidenceRecord) (flags : List UncertaintyFlag)
        → Steps R (generate_via_llm env evidence flags)
    unfolding generate_via_llm
    generate_via_llm-Steps evidence flags = search (steps_rules, proposed_in-Steps) depth 24

    message_for-Steps :
        (name label : String) (cost : Float) → Steps R (message_for env name label cost)
    unfolding message_for
    message_for-Steps name label cost = search steps_rules depth 24

    pub draft_customer_message-Steps :
        (c : Option Customer) (a : ActionRequest) → Steps R (draft_customer_message env c a)
    unfolding draft_customer_message
    draft_customer_message-Steps c a = search (steps_rules, message_for-Steps) depth 24
