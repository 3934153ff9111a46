-- ===== src/Hypotheses/Dropped.antt =====
-- The citations that `generate_or_update_hypotheses` of backend/app/engine/hypothesis_engine.py drops,
-- and their order.
use text.Mathlib.Text.{is_lt}
use Prim.Native.String
use occj.Prelude.{
  String, not, Option, none, some, List, [], ◌∷◌, ◌++◌, any, select, dedup, ◌==◌, eq_string,
  if◌then◌else◌,
}
use occj.Models.Float.{Float, Arith, lt_float}
use occj.Models.Json.{Json, Items, nil, cons, eq_json, num_of, str_list}
use occj.Models.Rows.{EvidenceRecord}
use occj.Hypotheses.Specs.{Merged}

-- `sorted(texts)`, by code points
insert_text : String → List String → List String
insert_text x [] = x ∷ []
insert_text x (y ∷ ys) =
    let rest = y ∷ insert_text x ys in if is_lt (String.compare x y) then x ∷ y ∷ ys else rest

unfoldable pub sort_texts : List String → List String
unfolding insert_text
sort_texts [] = []
sort_texts (x ∷ xs) = insert_text x (sort_texts xs)

unfoldable pub dropped_texts : List EvidenceRecord → Merged → List String
unfolding sort_texts
dropped_texts evidence spec = sort_texts (
    dedup (
      select (λ key. not (any (λ (e : EvidenceRecord). e.id == key) evidence))
        (spec.supporting_evidence_ids ++ spec.weakening_evidence_ids)))

-- `set(values)`, of values that are no texts, in the order of their first occurrence
unfoldable pub distinct : Arith → List Json → List Json → List Json
unfolding eq_json
distinct ar seen [] = []
distinct ar seen (v ∷ vs) =
    let fresh = v ∷ distinct ar (v ∷ seen) vs in
    let known = distinct ar seen vs in if any (eq_json ar v) seen then known else fresh

-- `sorted(values)` of numbers, with the number that each of them is
insert_number : Float × Json → List (Float × Json) → List (Float × Json)
unfolding lt_float
insert_number (x, v) [] = (x, v) ∷ []
insert_number (x, v) ((y, w) ∷ rest) =
    let later = (y, w) ∷ insert_number (x, v) rest in
    if lt_float x y then (x, v) ∷ (y, w) ∷ rest else later

-- none where one of the values is no number: it cannot be compared
unfoldable pub sort_numbers : Arith → List Json → Option (List (Float × Json))
unfolding insert_number num_of
sort_numbers ar [] = some []
sort_numbers ar (v ∷ vs) = elim (sort_numbers ar vs) [
  | none ↦ none
  | some rest ↦ elim (num_of ar v) [ none ↦ none | some x ↦ some (insert_number (x, v) rest) ]
]

abbrev items_of : List (Float × Json) → Items
items_of [] = nil
items_of ((x, v) ∷ vs) = cons v (items_of vs)

-- `sorted(others)`: a single value is compared with none
unfoldable pub sorted_others : Arith → List Json → Option Items
unfolding sort_numbers
sorted_others ar (v ∷ []) = some (cons v nil)
sorted_others ar vs = elim (sort_numbers ar vs) [ none ↦ none | some rest ↦ some (items_of rest) ]

-- `sorted(dropped)`; a text cannot be compared with anything else
unfoldable pub dropped_citations : Arith → List EvidenceRecord → Merged → Option Items
unfolding dropped_texts distinct sorted_others
dropped_citations ar evidence spec =
    let others = distinct ar [] spec.other_citations in
    elim (dropped_texts evidence spec) [
      | [] ↦ sorted_others ar others
      | text ∷ texts ↦ elim others [ [] ↦ some (str_list (text ∷ texts)) | other ∷ rest ↦ none ]
    ]
