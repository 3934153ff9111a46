-- ===== src/Api/Sources.antt =====
-- `SourceType(body.source_type)` of backend/app/api/routers/ingestion.py.
use mathlib.Core.Path.{subst}
use occj.Prelude.{String, ◌≡◌, refl, ◌↔◌, some, first_sound, ◌==◌, eq_string}
use occj.Models.Enums.{SourceType, source_type_value}
use occj.Api.Evidence.{source_type_named, source_types}

source_type_named-source_type_value :
    (t : SourceType) → source_type_named (source_type_value t) ≡ some t
unfolding source_type_named
source_type_named-source_type_value SourceType.web_app_event = refl
source_type_named-source_type_value SourceType.store_transaction = refl
source_type_named-source_type_value SourceType.order = refl
source_type_named-source_type_value SourceType.fulfillment_update = refl
source_type_named-source_type_value SourceType.payment = refl
source_type_named-source_type_value SourceType.contact_center_record = refl
source_type_named-source_type_value SourceType.return_ = refl
source_type_named-source_type_value SourceType.itsm_incident = refl

-- A text names a source type exactly if it is the text that is stored for it, so every stored source
-- type is read back, and no other text is accepted.
pub source_type_named_iff :
    (text : String) (t : SourceType)
    → (source_type_named text ≡ some t) ↔ (source_type_value t ≡ text)
unfolding source_type_named
source_type_named_iff text t = (
  λ h.
      (eq_string.beq_iff (source_type_value t) text).0
        (first_sound (λ s. source_type_value s == text) source_types t h),
  λ h. subst (λ x. source_type_named x ≡ some t) h (source_type_named-source_type_value t),
)
