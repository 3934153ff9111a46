-- ===== src/Seed/Early.antt =====
-- `seed_all` of backend/app/seed/synthetic_data.py: the first four journeys.
use occj.Prelude.{String, none}
use occj.Models.Enums.{SourceType, CaseTriggerType}
use occj.Models.Json.{int, num, str, field, end}
use occj.Models.Rows.{Customer}
use occj.Session.{M, pure, ◌>>=◌, ◌>>◌}
use occj.Env.{Env}
use occj.Reconciliation.Ingest.{ingest_evidence}
use occj.CaseService.{get_or_create_customer, create_case, run_case_cycle}
use occj.Seed.Closure.{max_rounds, auto_approve_to_closure}
use occj.Seed.Facts.{
  first_newcomer, newcomer, story, fact, ago, usd189_99, usd64_50, usd142, usd310,
}

module _ (env : Env) where
  -- the first journey, of the customer that is found or created
  unfoldable pub duplicate_charge_of : Customer → M String
  duplicate_charge_of customer = do
    case ← create_case env (story customer.id CaseTriggerType.customer_contact "ord-1001" none)
    ingest_evidence env (
        fact customer.id SourceType.order "mock:oms" "ord-1001" (ago env 0 30 0 0) "ord-1001" (
          field "status" (str "confirmed")
            (field "amount" (num usd189_99) (field "channel" (str "online") end))))
    ingest_evidence env (
        fact customer.id SourceType.payment "mock:payments" "pay-1001a" (ago env 0 30 0 2)
          "ord-1001"
          (field "status" (str "captured")
            (field "amount" (num usd189_99) (field "method" (str "card") end))))
    ingest_evidence env (
        fact customer.id SourceType.payment "mock:payments" "pay-1001b" (ago env 0 30 0 3)
          "ord-1001"
          (field "status" (str "captured")
            (field "amount" (num usd189_99) (field "method" (str "card") end))))
    ingest_evidence env (
        fact customer.id SourceType.contact_center_record "freshdesk" "fd-9001" (ago env 0 20 0 0)
          "ord-1001"
          (field "channel" (str "ticket") (
            field "ticket_id" (int 9001) (
              field "subject" (str "Charged twice for my order") (
                field "body" (str "I see two charges of $189.99 on my card for the same order.") (
                  field "disposition" (str "unauthorized_charge")
                    (field "status" (str "open") end)))))))
    run_case_cycle env case.id
    auto_approve_to_closure env max_rounds case.id
    pure case.id

  unfoldable pub seed_duplicate_charge : M String
  unfolding duplicate_charge_of
  seed_duplicate_charge = get_or_create_customer env first_newcomer >>= duplicate_charge_of

  unfoldable pub seed_never_fulfilled : M String
  seed_never_fulfilled = do
    customer ← get_or_create_customer env (newcomer "cust-1002" "Marcus Webb" "standard" none)
    case ← create_case env (story customer.id CaseTriggerType.system_detected "ord-1002" none)
    ingest_evidence env (
        fact customer.id SourceType.order "mock:oms" "ord-1002" (ago env 4 0 0 0) "ord-1002" (
          field "status" (str "confirmed")
            (field "amount" (num usd64_50) (field "channel" (str "online") end))))
    ingest_evidence env (
        fact customer.id SourceType.payment "mock:payments" "pay-1002" (ago env 4 0 0 5) "ord-1002"
          (field "status" (str "captured")
            (field "amount" (num usd64_50) (field "method" (str "card") end))))
    run_case_cycle env case.id
    auto_approve_to_closure env max_rounds case.id
    pure case.id

  unfoldable pub seed_never_shipped : M String
  seed_never_shipped = do
    customer ← get_or_create_customer env (newcomer "cust-1003" "Elena Kova" "silver" none)
    case ← create_case env (story customer.id CaseTriggerType.customer_contact "ord-1003" none)
    ingest_evidence env (
        fact customer.id SourceType.order "mock:oms" "ord-1003" (ago env 3 0 0 0) "ord-1003" (
          field "status" (str "confirmed")
            (field "amount" (num usd142) (field "channel" (str "app") end))))
    ingest_evidence env (
        fact customer.id SourceType.payment "mock:payments" "pay-1003" (ago env 3 0 0 5) "ord-1003"
          (field "status" (str "captured")
            (field "amount" (num usd142) (field "method" (str "wallet") end))))
    ingest_evidence env (
        fact customer.id SourceType.contact_center_record "freshdesk" "fd-9003" (ago env 0 6 0 0)
          "ord-1003"
          (field "channel" (str "chat") (
            field "ticket_id" (int 9003) (
              field "subject" (str "Order never shipped") (
                field "body" (str "It has been 3 days and tracking hasn't updated at all.")
                  (field "disposition" (str "open") (field "status" (str "open") end)))))))
    run_case_cycle env case.id
    pure case.id

  unfoldable pub seed_disputed_delivery : M String
  seed_disputed_delivery = do
    customer ← get_or_create_customer env (newcomer "cust-1004" "Diego Fuentes" "platinum" none)
    case ← create_case env (story customer.id CaseTriggerType.customer_contact "ord-1004" none)
    ingest_evidence env (
        fact customer.id SourceType.order "mock:oms" "ord-1004" (ago env 2 0 0 0) "ord-1004" (
          field "status" (str "confirmed")
            (field "amount" (num usd310) (field "channel" (str "online") end))))
    ingest_evidence env (
        fact customer.id SourceType.payment "mock:payments" "pay-1004" (ago env 2 0 0 5) "ord-1004"
          (field "status" (str "captured")
            (field "amount" (num usd310) (field "method" (str "card") end))))
    ingest_evidence env (
        fact customer.id SourceType.fulfillment_update "mock:fulfillment" "ship-1004"
          (ago env 1 0 0 0) "ord-1004"
          (field "status" (str "delivered") (
            field "carrier" (str "MockCarrier Express")
              (field "tracking_number" (str "MCE123") end))))
    ingest_evidence env (
        fact customer.id SourceType.contact_center_record "freshdesk" "fd-9004" (ago env 0 10 0 0)
          "ord-1004"
          (field "channel" (str "call") (
            field "ticket_id" (int 9004) (
              field "subject" (str "Package marked delivered but not received") (
                field "body"
                  (str
                    "Tracking says delivered yesterday but nothing is here and no one saw a delivery.")
                  (field "disposition" (str "item_not_received")
                    (field "status" (str "open") end)))))))
    run_case_cycle env case.id
    pure case.id
