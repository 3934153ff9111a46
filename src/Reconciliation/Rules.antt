-- ===== src/Reconciliation/Rules.antt =====
-- backend/app/reconciliation/rules.py
use occj.Prelude.{ℕ, ◌*◌, String, Option, none, some, List, [], ◌∷◌}
use occj.Models.Enums.{SourceType}

-- `timedelta(hours=n)`, in microseconds
abbrev pub hours : ℕ → ℕ
hours n = n * 3_600_000_000

-- `EXPECTED_FOLLOWUPS.get(source_type)`: the source that should follow, the window, and the
-- window as `f"{window}"` writes it
unfoldable pub expected_followup : SourceType → Option (SourceType × ℕ × String)
expected_followup SourceType.order = some (SourceType.payment, hours 1, "1:00:00")
expected_followup SourceType.payment =
    some (SourceType.fulfillment_update, hours 48, "2 days, 0:00:00")
expected_followup SourceType.return_ = some (SourceType.payment, hours 72, "3 days, 0:00:00")
expected_followup _ = none

-- `FULFILLMENT_TERMINAL_STATUSES`, in the order that `sorted` gives
abbrev pub terminal_statuses : List String
terminal_statuses = "delivered" ∷ "delivery_failed" ∷ "lost_in_transit" ∷ "returned_to_sender" ∷ []

abbrev pub dispute_dispositions : List String
dispute_dispositions =
    "item_not_received" ∷ "wrong_item" ∷ "disputes_delivery" ∷ "unauthorized_charge" ∷ []
