-- ===== src/Examples/Backing.antt =====
-- A hypothesis of a case with one payment that was charged twice.
use occj.Prelude.{◌≡◌, refl, length, none, some, List, [], ◌∷◌, All}
use occj.Models.Enums.{UncertaintyFlagType}
use occj.Models.Rows.{UncertaintyFlag, Hypothesis}
use occj.Models.Json.{cons, nil, str, int, null, obj, end}
use occj.Session.{Db, ok, utcnow, new_id, for_each}
use occj.Session.Tables.{
  find_case, find_hypothesis, insert_case, assign_case, assign_hypothesis, insert_link,
  insert_hypothesis,
}
use occj.Audit.{record_audit}
use occj.Stage.{advance_stage}
use occj.CaseService.{create_case}
use occj.Hypotheses.Specs.{Merged}
use occj.Hypotheses.Computed.{Created, create_hypothesis-Computed}
use occj.Hypotheses.Generate.{create_hypothesis, generate_or_update_hypotheses}
use occj.Hypotheses.Current.{Supported}
use occj.Hypotheses.Proposals.{citations_of}
use occj.Hypotheses.Dropped.{sorted_others}
use occj.Hypotheses.Backed.{generate_or_update_hypotheses-Backed}
use occj.Examples.{env}
use occj.Examples.Cases.{state_of, value_of, opened}
use occj.Examples.Choices.{payment}

abbrev doubt : UncertaintyFlag
doubt = record {
  id = "f1";
  case_id = "k";
  flag_type = UncertaintyFlagType.duplicate;
  related_evidence_ids = "e1" ∷ [];
  description = "Possible duplicate charge";
  detected_at = 1;
  resolved_at = none;
  resolution_note = none;
}

abbrev pub charged : Db
charged = record opened { evidence = payment ∷ []; flags = doubt ∷ [] }

explained : Db
unfolding generate_or_update_hypotheses
explained = state_of charged (generate_or_update_hypotheses env "k" charged)

explanations : List Hypothesis
unfolding generate_or_update_hypotheses
explanations = value_of [] (generate_or_update_hypotheses env "k" charged)

generation : generate_or_update_hypotheses env "k" charged ≡ ok (explanations, explained)
unfolding generate_or_update_hypotheses explanations explained find_case create_case utcnow new_id
    record_audit insert_case for_each advance_stage assign_case assign_hypothesis insert_link
    insert_hypothesis find_hypothesis
generation = refl

-- one hypothesis comes of it
one_explanation : length explanations ≡ 1
unfolding explanations generate_or_update_hypotheses find_case create_case utcnow new_id
    record_audit insert_case for_each advance_stage assign_case assign_hypothesis insert_link
    insert_hypothesis find_hypothesis
one_explanation = refl

generate_or_update_hypotheses-Backed_example :
    All (λ (h : Hypothesis). Supported "c1" charged h.id explained) explanations
unfolding find_case create_case utcnow new_id record_audit insert_case
generate_or_update_hypotheses-Backed_example =
    generate_or_update_hypotheses-Backed env "k" _ charged explained explanations refl generation

abbrev charged_twice : Merged
charged_twice = record {
  category = "duplicate_charge";
  title = "Duplicate charge";
  narrative = "Charged twice.";
  supporting_evidence_ids = "e1" ∷ "e9" ∷ [];
  weakening_evidence_ids = [];
  other_citations = [];
  source = "llm";
}

create_hypothesis-Computed_example :
    (h : Hypothesis) × (t : Db) × (create_hypothesis env "k"
        (cons (str "e9") nil)
        charged_twice
        (payment ∷ [])
        []
        charged
      ≡ ok (h, t))
    × Created env (payment ∷ []) [] charged h t
unfolding create_case new_id utcnow record_audit insert_case find_hypothesis
create_hypothesis-Computed_example =
    create_hypothesis-Computed env "k" (cons (str "e9") nil) charged_twice (payment ∷ []) [] charged
      refl

-- a number among the citations is kept apart, and a dictionary has no hash
mixed_citations : citations_of (cons (int 1) (cons (str "e1") nil)) ≡ some ("e1" ∷ [], int 1 ∷ [])
unfolding citations_of
mixed_citations = refl

unhashable_citations : citations_of (cons (str "e1") (cons (obj end) nil)) ≡ none
unfolding citations_of
unhashable_citations = refl

one_other : sorted_others env.arith (null ∷ []) ≡ some (cons null nil)
unfolding sorted_others
one_other = refl

no_order : sorted_others env.arith (null ∷ int 1 ∷ []) ≡ none
unfolding sorted_others
no_order = refl
