-- ===== src/Hypotheses/Answers.antt =====
-- `_generate_via_llm` of backend/app/engine/hypothesis_engine.py: an answer of the shape that is asked
-- for is read as it was meant.
use occj.Prelude.{
  String, ◌≡◌, refl, ◌∙◌, false, ◌==◌, eq_string, Option, none, some, List, [], ◌∷◌, map,
}
use occj.Models.Json.{
  Json, Items, Fields, str, arr, obj, nil, cons, field, end, get, get_or, has_key, str_list,
}
use occj.Session.{Db, ok, pure, ◌>>=◌}
use occj.Session.Runs.{>>=-ok}
use occj.Env.{Spec}
use occj.Llm.{fields_of}
use occj.Hypotheses.Proposals.{
  text_at, citations_of, citations_at, spec_of, specs_of, looped, proposed_in,
}

-- a key that may be left out
abbrev optional : String → Option String → Fields → Fields
optional key none fs = fs
optional key (some s) fs = field key (str s) fs

-- the object that is asked for, for one hypothesis
abbrev pub asked : Spec → Fields
asked h = optional "category" h.category (
    optional "title" h.title (
      optional "narrative" h.narrative (
        field "supporting_evidence_ids" (arr (str_list h.supporting_evidence_ids))
          (field "weakening_evidence_ids" (arr (str_list h.weakening_evidence_ids)) end))))

abbrev asked_all : List Spec → Items
asked_all [] = nil
asked_all (h ∷ hs) = cons (obj (asked h)) (asked_all hs)

-- the whole answer
abbrev pub answer_of : List Spec → Json
answer_of hs = obj (field "hypotheses" (arr (asked_all hs)) end)

abbrev pub by_model : Spec → Spec
by_model h = record h { source = "llm"; other_citations = [] }

citations_of-str_list : (ss : List String) → citations_of (str_list ss) ≡ some (ss, [])
unfolding citations_of str_list
citations_of-str_list [] = refl
citations_of-str_list (s ∷ ss) = rw (citations_of-str_list ss) refl

-- a key that is another one is passed over
module _ (other key : String) (fs : Fields) (h : (other == key) ≡ false) where
  text_at-optional : (o : Option String) → text_at (optional other o fs) key ≡ text_at fs key
  unfolding text_at get has_key
  text_at-optional none = refl
  text_at-optional (some s) = rw h refl

  citations_at-optional :
      (o : Option String) → citations_at (optional other o fs) key ≡ citations_at fs key
  unfolding citations_at get_or get has_key
  citations_at-optional none = refl
  citations_at-optional (some s) = rw (h, citations_at) refl

  has_key-optional : (o : Option String) → has_key (optional other o fs) key ≡ has_key fs key
  unfolding has_key
  has_key-optional none = refl
  has_key-optional (some s) = rw h refl

text_at-here :
    (key : String) (fs : Fields) (o : Option String)
    → has_key fs key ≡ false
    → text_at (optional key o fs) key ≡ some o
unfolding text_at get has_key
text_at-here key fs none h = rw h refl
text_at-here key fs (some s) h = rw ((eq_string.beq_iff key key).1 refl) refl

module _ (h : Spec) where
  abbrev cited : Fields
  cited =
      field "supporting_evidence_ids" (arr (str_list h.supporting_evidence_ids))
        (field "weakening_evidence_ids" (arr (str_list h.weakening_evidence_ids)) end)

  abbrev told : Fields
  told = optional "narrative" h.narrative cited

  abbrev headed : Fields
  headed = optional "title" h.title told

  read_category : text_at (asked h) "category" ≡ some h.category
  unfolding has_key
  read_category = text_at-here "category" headed h.category (
      has_key-optional "title" "category" told refl h.title
      ∙ has_key-optional "narrative" "category" cited refl h.narrative)

  read_title : text_at (asked h) "title" ≡ some h.title
  unfolding has_key
  read_title =
      text_at-optional "category" "title" headed refl h.category
      ∙ text_at-here "title" told h.title
          (has_key-optional "narrative" "title" cited refl h.narrative)

  read_narrative : text_at (asked h) "narrative" ≡ some h.narrative
  unfolding has_key
  read_narrative =
      text_at-optional "category" "narrative" headed refl h.category
      ∙ text_at-optional "title" "narrative" told refl h.title
      ∙ text_at-here "narrative" cited h.narrative refl

  -- the texts come before the citations
  cited-citations_at :
      (key : String)
      → ("category" == key) ≡ false
      → ("title" == key) ≡ false
      → ("narrative" == key) ≡ false
      → citations_at (asked h) key ≡ citations_at cited key
  cited-citations_at key c t n =
      citations_at-optional "category" key headed c h.category
      ∙ citations_at-optional "title" key told t h.title
      ∙ citations_at-optional "narrative" key cited n h.narrative

  read_supporting :
      citations_at (asked h) "supporting_evidence_ids" ≡ some (h.supporting_evidence_ids, [])
  unfolding citations_at get_or get has_key
  read_supporting =
      cited-citations_at "supporting_evidence_ids" refl refl refl
      ∙ citations_of-str_list h.supporting_evidence_ids

  read_weakening :
      citations_at (asked h) "weakening_evidence_ids" ≡ some (h.weakening_evidence_ids, [])
  unfolding citations_at get_or get has_key
  read_weakening =
      cited-citations_at "weakening_evidence_ids" refl refl refl
      ∙ citations_of-str_list h.weakening_evidence_ids

  asked-spec_of : (s : Db) → spec_of (asked h) s ≡ ok (by_model h, s)
  unfolding spec_of
  asked-spec_of s =
      rw (read_category, read_title, read_narrative, read_supporting, read_weakening) refl

asked_all-specs_of : (hs : List Spec) (s : Db) → specs_of (asked_all hs) s ≡ ok (map by_model hs, s)
unfolding specs_of fields_of
asked_all-specs_of [] s = refl
asked_all-specs_of (h ∷ hs) s =
    >>=-ok (spec_of (asked h)) (λ spec. specs_of (asked_all hs) >>= λ specs. pure (spec ∷ specs)) s
      (asked-spec_of h s)
      (>>=-ok (specs_of (asked_all hs)) (λ specs. pure (by_model h ∷ specs)) s
        (asked_all-specs_of hs s) refl)

-- An answer of the shape that the model is asked for, of any hypotheses whose category, title and
-- narrative may each be left out and whose citations are texts, is read as these hypotheses, in their
-- order and each marked as the model's, and the session is left as it was.
pub answer_of-proposed_in :
    (hs : List Spec) (s : Db) → proposed_in (answer_of hs) s ≡ ok (map by_model hs, s)
unfolding proposed_in fields_of looped get_or get has_key
answer_of-proposed_in hs s = asked_all-specs_of hs s
