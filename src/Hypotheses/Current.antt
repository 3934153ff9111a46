-- ===== src/Hypotheses/Current.antt =====
-- `_current_evidence` of backend/app/engine/hypothesis_engine.py: what a link to it tells.
use occj.Prelude.{
  String, ◌≡◌, Bool, true, not, ◌&&◌, List, [], ◌∷◌, any, select, is_some, ◌==◌, eq_string, arith,
}
use occj.Models.Enums.{EvidenceRelation, eq_evidence_relation}
use occj.Models.Rows.{EvidenceRecord, EvidenceLink}
use occj.Session.{Db}
use occj.Reconciliation.Timeline.{is_current, current_evidence}

-- a link of a hypothesis that supports it with a record of the evidence
abbrev pub backs : List EvidenceRecord → String → EvidenceLink → Bool
backs evidence key l =
    l.hypothesis_id == key
    && l.relation == EvidenceRelation.supports
    && any (λ (e : EvidenceRecord). e.id == l.evidence_record_id) evidence

abbrev pub Backed : List EvidenceRecord → String → Db → Type 0
Backed evidence key s = any (backs evidence key) s.links ≡ true

-- a link supports a hypothesis with a record that a session has of a customer, and that is neither
-- superseded nor a duplicate
abbrev pub supports_with : String → Db → String → EvidenceLink → Bool
supports_with customer_id s key l =
    l.hypothesis_id == key
    && l.relation == EvidenceRelation.supports
    && any
        (λ (e : EvidenceRecord).
          e.id == l.evidence_record_id
          && e.customer_id == customer_id
          && not e.is_superseded
          && not (is_some e.is_duplicate_of))
        s.evidence

abbrev pub Supported : String → Db → String → Db → Type 0
Supported customer_id s key t = any (supports_with customer_id s key) t.links ≡ true

any-monotone :
    {A : Type 0} (p q : A → Bool) (xs : List A)
    → ((x : A) → p x ≡ true → q x ≡ true)
    → any p xs ≡ true
    → any q xs ≡ true
any-monotone p q [] h k = k
any-monotone p q (x ∷ xs) h k = ground (arith, h x, any-monotone p q xs h)

current-any :
    (customer_id key : String) (xs : List EvidenceRecord)
    → any (λ (e : EvidenceRecord). e.id == key) (select (is_current customer_id) xs) ≡ true
    → any
        (λ (e : EvidenceRecord).
          e.id == key
          && e.customer_id == customer_id
          && not e.is_superseded
          && not (is_some e.is_duplicate_of))
        xs
      ≡ true
current-any customer_id key [] h = h
current-any customer_id key (x ∷ xs) h = ground (arith, current-any customer_id key xs)

pub Backed-Supported :
    (customer_id : String) (s : Db) (key : String) (t : Db)
    → Backed (current_evidence customer_id s) key t
    → Supported customer_id s key t
unfolding current_evidence
Backed-Supported customer_id s key t =
    any-monotone _ _ t.links
      λ l h. ground (arith, h, current-any customer_id l.evidence_record_id s.evidence)
