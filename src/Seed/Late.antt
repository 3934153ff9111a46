-- ===== src/Seed/Late.antt =====
-- `seed_all` of backend/app/seed/synthetic_data.py: the last four journeys.
use occj.Prelude.{String, none, some}
use occj.Models.Enums.{SourceType, CaseTriggerType}
use occj.Models.Json.{num, str, field, end}
use occj.Session.{M, pure, ◌>>=◌, ◌>>◌}
use occj.Env.{Env}
use occj.Reconciliation.Ingest.{ingest_evidence}
use occj.CaseService.{get_or_create_customer, create_case, run_case_cycle}
use occj.Seed.Closure.{max_rounds, auto_approve_to_closure}
use occj.Seed.Facts.{newcomer, story, fact, ago, usd88, usd76_20, usd54, usd220}

module _ (env : Env) where
  unfoldable pub seed_unrefunded_return : M String
  seed_unrefunded_return = do
    customer ← get_or_create_customer env (newcomer "cust-1005" "Aisha Bello" "standard" none)
    case ← create_case env (story customer.id CaseTriggerType.customer_contact "ord-1005" none)
    ingest_evidence env (
        fact customer.id SourceType.order "mock:oms" "ord-1005" (ago env 10 0 0 0) "ord-1005" (
          field "status" (str "confirmed")
            (field "amount" (num usd88) (field "channel" (str "in_store") end))))
    ingest_evidence env (
        fact customer.id SourceType.payment "mock:payments" "pay-1005" (ago env 10 0 0 5) "ord-1005"
          (field "status" (str "captured")
            (field "amount" (num usd88) (field "method" (str "card") end))))
    ingest_evidence env (
        fact customer.id SourceType.return_ "mock:returns" "ret-1005" (ago env 5 0 0 0) "ord-1005" (
          field "status" (str "received")
            (field "amount" (num usd88) (field "reason" (str "wrong_size") end))))
    run_case_cycle env case.id
    auto_approve_to_closure env max_rounds case.id
    pure case.id

  unfoldable pub seed_conflicting_outcomes : M String
  seed_conflicting_outcomes = do
    customer ← get_or_create_customer env (newcomer "cust-1006" "Tomas Lindqvist" "silver" none)
    case ← create_case env (story customer.id CaseTriggerType.system_detected "ord-1006" none)
    ingest_evidence env (
        fact customer.id SourceType.order "mock:oms" "ord-1006" (ago env 3 0 0 0) "ord-1006" (
          field "status" (str "confirmed")
            (field "amount" (num usd76_20) (field "channel" (str "online") end))))
    ingest_evidence env (
        fact customer.id SourceType.payment "mock:payments" "pay-1006" (ago env 3 0 0 5) "ord-1006"
          (field "status" (str "captured")
            (field "amount" (num usd76_20) (field "method" (str "card") end))))
    ingest_evidence env (
        fact customer.id SourceType.fulfillment_update "mock:fulfillment" "ship-1006a"
          (ago env 2 0 0 0) "ord-1006"
          (field "status" (str "out_for_delivery") (
            field "carrier" (str "MockCarrier Express")
              (field "tracking_number" (str "MCE456") end))))
    ingest_evidence env (
        fact customer.id SourceType.fulfillment_update "mock:fulfillment" "ship-1006b"
          (ago env 1 12 0 0) "ord-1006"
          (field "status" (str "lost_in_transit") (
            field "carrier" (str "MockCarrier Express")
              (field "tracking_number" (str "MCE456") end))))
    ingest_evidence env (
        fact customer.id SourceType.fulfillment_update "mock:fulfillment" "ship-1006c"
          (ago env 0 6 0 0) "ord-1006"
          (field "status" (str "delivered") (
            field "carrier" (str "MockCarrier Express")
              (field "tracking_number" (str "MCE456") end))))
    run_case_cycle env case.id
    pure case.id

  unfoldable pub seed_corrected_address : M String
  seed_corrected_address = do
    customer ← get_or_create_customer env (newcomer "cust-1007" "Noah Kim" "standard" none)
    case ← create_case env (
        story customer.id CaseTriggerType.manual "ord-1007"
          (some "Customer called to correct their shipping address before dispatch"))
    ingest_evidence env (
        fact customer.id SourceType.order "mock:oms" "ord-1007" (ago env 0 5 0 0) "ord-1007" (
          field "status" (str "confirmed") (
            field "amount" (num usd54) (
              field "channel" (str "online")
                (field "shipping_address" (str "12 Old St, Springfield") end)))))
    ingest_evidence env (
        fact customer.id SourceType.order "mock:oms" "ord-1007" (ago env 0 4 0 0) "ord-1007" (
          field "status" (str "confirmed") (
            field "amount" (num usd54) (
              field "channel" (str "online")
                (field "shipping_address" (str "88 New Ave, Springfield") end)))))
    run_case_cycle env case.id
    pure case.id

  unfoldable pub seed_detected_duplicate_charge : M String
  seed_detected_duplicate_charge = do
    customer ← get_or_create_customer env (newcomer "cust-1008" "Rina Chatterjee" "gold" none)
    case ← create_case env (story customer.id CaseTriggerType.system_detected "ord-1008" none)
    ingest_evidence env (
        fact customer.id SourceType.order "mock:oms" "ord-1008" (ago env 0 8 0 0) "ord-1008" (
          field "status" (str "confirmed")
            (field "amount" (num usd220) (field "channel" (str "online") end))))
    ingest_evidence env (
        fact customer.id SourceType.payment "mock:payments" "pay-1008a" (ago env 0 8 0 1) "ord-1008"
          (field "status" (str "captured")
            (field "amount" (num usd220) (field "method" (str "card") end))))
    ingest_evidence env (
        fact customer.id SourceType.payment "mock:payments" "pay-1008b" (ago env 0 7 59 0)
          "ord-1008"
          (field "status" (str "captured")
            (field "amount" (num usd220) (field "method" (str "card") end))))
    run_case_cycle env case.id
    pure case.id
