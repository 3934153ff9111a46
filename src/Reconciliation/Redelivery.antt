-- ===== src/Reconciliation/Redelivery.antt =====
-- `ingest_evidence` of backend/app/reconciliation/reconciler.py: a fact that is delivered again.
use occj.Prelude.{
  ◌≡◌, refl, sym, ap, ◌∙◌, Bool, true, not, ◌&&◌, none, some, List, [], ◌∷◌, ◌++◌, first,
  first-append, ◌+◌, eq_string, arith,
}
use occj.Models.Enums.{eq_source_type, source_type_value, ActorType}
use occj.Models.Json.{str, field, end, eq_fields}
use occj.Models.Rows.{EvidenceRecord}
use occj.Session.{Db, ok, new_id, utcnow}
use occj.Session.Tables.{insert_evidence_row}
use occj.Env.{Env}
use occj.Audit.{record_audit, add_entry}
use mathlib.Core.Path.{subst}
use occj.Session.Steps.{ok-state}
use occj.Audit.Runs.{audited}
use occj.Session.Runs.{on_option-none, on_option-some, if-true}
use occj.Reconciliation.Ingest.{
  Delivery, same_triple, delivered, find_existing, ingest_new, ingest_duplicate, ingest_evidence,
}

first-append-none :
    {A : Type 0} (p : A → Bool) (xs ys : List A)
    → first p xs ≡ none
    → first p (xs ++ ys) ≡ first p ys
first-append-none p [] ys h = refl
first-append-none p (x ∷ xs) ys h = ground (arith, h, first-append-none p xs ys)

module _ (env : Env) (d : Delivery) (s : Db) where
  abbrev kept_row : EvidenceRecord
  kept_row = delivered d (env.supply.key s.ids) (env.supply.clock s.reads) none none

  -- the session after a new fact
  abbrev told : Db
  told =
      audited env.supply
        (record {
          case_id = none;
          entity_type = "evidence_record";
          entity_id = env.supply.key s.ids;
          event = "ingested";
          actor_type = d.actor_type;
          actor_id = some d.provenance_source;
          payload =
              field "source_type" (str (source_type_value d.source_type))
                (field "external_ref" (str d.external_ref) end);
        })
        (record s { evidence = s.evidence ++ kept_row ∷ []; reads = s.reads + 1; ids = s.ids + 1 })

  ingest_evidence-told : find_existing d s ≡ none → ingest_evidence env d s ≡ ok (kept_row, told)
  unfolding ingest_evidence utcnow ingest_new new_id insert_evidence_row record_audit add_entry
  ingest_evidence-told h = on_option-none _ _ (record s { reads = s.reads + 1 }) h ∙ refl

  find_existing-told : find_existing d s ≡ none → find_existing d told ≡ some kept_row
  unfolding find_existing
  find_existing-told h =
      first-append-none (λ r. same_triple d r && not r.is_superseded) s.evidence (kept_row ∷ []) h
      ∙ ground (
        arith,
        (eq_source_type.beq_iff d.source_type d.source_type).1 refl,
        (eq_string.beq_iff d.external_ref d.external_ref).1 refl,
        (eq_string.beq_iff d.provenance_source d.provenance_source).1 refl,
      )

  -- the session after a repeat of `r`
  abbrev repeated : EvidenceRecord → Db
  repeated r =
      audited env.supply
        (record {
          case_id = none;
          entity_type = "evidence_record";
          entity_id = env.supply.key s.ids;
          event = "duplicate_delivery_ingested";
          actor_type = ActorType.system;
          actor_id = some d.provenance_source;
          payload = field "duplicate_of" (str r.id) (field "external_ref" (str d.external_ref) end);
        })
        (record s {
          evidence =
              s.evidence
              ++ delivered d (env.supply.key s.ids) (env.supply.clock s.reads) none (some r.id)
                ∷ [];
          reads = s.reads + 1;
          ids = s.ids + 1;
        })

  ingest_evidence-repeated :
      (r : EvidenceRecord)
      → find_existing d s ≡ some r
      → eq_fields env.arith r.payload d.payload ≡ true
      → ingest_evidence env d s ≡ ok (r, repeated r)
  unfolding ingest_evidence utcnow ingest_duplicate new_id insert_evidence_row record_audit
      add_entry
  ingest_evidence-repeated r h k =
      on_option-some _ _ (record s { reads = s.reads + 1 }) h
      ∙ if-true _ _ (record s { reads = s.reads + 1 }) k
      ∙ refl

  find_existing-repeated :
      (r : EvidenceRecord) → find_existing d s ≡ some r → find_existing d (repeated r) ≡ some r
  unfolding find_existing
  find_existing-repeated r =
      first-append (λ x. same_triple d x && not x.is_superseded) s.evidence _ r

-- A fact that no record had, delivered twice with a payload that equals itself: the second delivery
-- returns the record of the first, which is still the one that is found, and adds a row that is marked
-- as its duplicate.
pub ingest_evidence-again :
    (env : Env) (d : Delivery) (s t : Db) (r : EvidenceRecord)
    → find_existing d s ≡ none
    → eq_fields env.arith d.payload d.payload ≡ true
    → ingest_evidence env d s ≡ ok (r, t)
    → (u : Db) × (x : EvidenceRecord) × (ingest_evidence env d t ≡ ok (r, u))
      × (find_existing d u ≡ some r)
      × (u.evidence ≡ t.evidence ++ x ∷ [])
      × (x.is_duplicate_of ≡ some r.id)
ingest_evidence-again env d s t r h k e =
    let run = sym (ingest_evidence-told env d s h) ∙ e in
    let same : kept_row env d s ≡ r = cc in
    let found =
      subst (λ v. find_existing d v ≡ some r) (ok-state run)
        (find_existing-told env d s h ∙ ap some same) in
    let equal = subst (λ x. eq_fields env.arith x.payload d.payload ≡ true) same k in
    (
      repeated env d t r,
      delivered d (env.supply.key t.ids) (env.supply.clock t.reads) none (some r.id),
      ingest_evidence-repeated env d t r found equal,
      find_existing-repeated env d t r found,
      refl,
      refl,
    )
