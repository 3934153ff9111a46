-- ===== src/Models/Enums/Evidence.antt =====
-- backend/app/models/enums.py: the kinds of actors, sources, uncertainty and evidence. Each enumeration stands with the text
-- that it is stored as (`.value`), and with its equality, by the position of the member.
use occj.Prelude.{ℕ, String, ◌≡◌, ◌↔◌, Bool, arith, nat_eq, Eq}

pub data ActorType : Type 0 where
  system ai_inference human_input automated_action human_decision : ActorType

pub data SourceType : Type 0 where
  web_app_event store_transaction order fulfillment_update payment contact_center_record return_
        itsm_incident :
      SourceType

pub data UncertaintyFlagType : Type 0 where
  missing stale duplicate contradictory : UncertaintyFlagType

pub data EvidenceRelation : Type 0 where
  supports weakens : EvidenceRelation

abbrev pub actor_type_value : ActorType → String
actor_type_value ActorType.system = "system"
actor_type_value ActorType.ai_inference = "ai_inference"
actor_type_value ActorType.human_input = "human_input"
actor_type_value ActorType.automated_action = "automated_action"
actor_type_value ActorType.human_decision = "human_decision"

abbrev pub actor_type_index : ActorType → ℕ
actor_type_index ActorType.system = 0
actor_type_index ActorType.ai_inference = 1
actor_type_index ActorType.human_input = 2
actor_type_index ActorType.automated_action = 3
actor_type_index ActorType.human_decision = 4

pub actor_type_eq_iff :
    (a b : ActorType) → (nat_eq (actor_type_index a) (actor_type_index b) ≡ Bool.true) ↔ (a ≡ b)
actor_type_eq_iff a b = ground arith

instance abbrev pub eq_actor_type : Eq ActorType
eq_actor_type = record {
  beq = λ a b. nat_eq (actor_type_index a) (actor_type_index b);
  beq_iff = actor_type_eq_iff;
}

abbrev pub source_type_value : SourceType → String
source_type_value SourceType.web_app_event = "web_app_event"
source_type_value SourceType.store_transaction = "store_transaction"
source_type_value SourceType.order = "order"
source_type_value SourceType.fulfillment_update = "fulfillment_update"
source_type_value SourceType.payment = "payment"
source_type_value SourceType.contact_center_record = "contact_center_record"
source_type_value SourceType.return_ = "return"
source_type_value SourceType.itsm_incident = "itsm_incident"

abbrev pub source_type_index : SourceType → ℕ
source_type_index SourceType.web_app_event = 0
source_type_index SourceType.store_transaction = 1
source_type_index SourceType.order = 2
source_type_index SourceType.fulfillment_update = 3
source_type_index SourceType.payment = 4
source_type_index SourceType.contact_center_record = 5
source_type_index SourceType.return_ = 6
source_type_index SourceType.itsm_incident = 7

pub source_type_eq_iff :
    (a b : SourceType) → (nat_eq (source_type_index a) (source_type_index b) ≡ Bool.true) ↔ (a ≡ b)
source_type_eq_iff a b = ground arith

instance abbrev pub eq_source_type : Eq SourceType
eq_source_type = record {
  beq = λ a b. nat_eq (source_type_index a) (source_type_index b);
  beq_iff = source_type_eq_iff;
}

abbrev pub uncertainty_flag_type_value : UncertaintyFlagType → String
uncertainty_flag_type_value UncertaintyFlagType.missing = "missing"
uncertainty_flag_type_value UncertaintyFlagType.stale = "stale"
uncertainty_flag_type_value UncertaintyFlagType.duplicate = "duplicate"
uncertainty_flag_type_value UncertaintyFlagType.contradictory = "contradictory"

abbrev pub uncertainty_flag_type_index : UncertaintyFlagType → ℕ
uncertainty_flag_type_index UncertaintyFlagType.missing = 0
uncertainty_flag_type_index UncertaintyFlagType.stale = 1
uncertainty_flag_type_index UncertaintyFlagType.duplicate = 2
uncertainty_flag_type_index UncertaintyFlagType.contradictory = 3

pub uncertainty_flag_type_eq_iff :
    (a b : UncertaintyFlagType)
    → (nat_eq (uncertainty_flag_type_index a) (uncertainty_flag_type_index b) ≡ Bool.true) ↔ (a ≡ b)
uncertainty_flag_type_eq_iff a b = ground arith

instance abbrev pub eq_uncertainty_flag_type : Eq UncertaintyFlagType
eq_uncertainty_flag_type = record {
  beq = λ a b. nat_eq (uncertainty_flag_type_index a) (uncertainty_flag_type_index b);
  beq_iff = uncertainty_flag_type_eq_iff;
}

abbrev pub evidence_relation_value : EvidenceRelation → String
evidence_relation_value EvidenceRelation.supports = "supports"
evidence_relation_value EvidenceRelation.weakens = "weakens"

abbrev pub evidence_relation_index : EvidenceRelation → ℕ
evidence_relation_index EvidenceRelation.supports = 0
evidence_relation_index EvidenceRelation.weakens = 1

pub evidence_relation_eq_iff :
    (a b : EvidenceRelation)
    → (nat_eq (evidence_relation_index a) (evidence_relation_index b) ≡ Bool.true) ↔ (a ≡ b)
evidence_relation_eq_iff a b = ground arith

instance abbrev pub eq_evidence_relation : Eq EvidenceRelation
eq_evidence_relation = record {
  beq = λ a b. nat_eq (evidence_relation_index a) (evidence_relation_index b);
  beq_iff = evidence_relation_eq_iff;
}
