-- ===== src/Seed/Facts.antt =====
-- The keyword arguments that backend/app/seed/synthetic_data.py passes, with the defaults of what it
-- calls, and its amounts.
use occj.Prelude.{ℕ, ◌+◌, ◌-◌, ◌*◌, String, Option, none, some}
use occj.Models.Enums.{SourceType, ActorType, CaseTriggerType}
use occj.Models.Float.{Float}
use occj.Models.Json.{Fields}
use occj.Env.{Env}
use occj.Reconciliation.Ingest.{Delivery}
use occj.CaseService.{NewCustomer, NewCase}

abbrev pub newcomer : String → String → String → Option String → NewCustomer
newcomer external_customer_id display_name tier email = record {
  external_customer_id = external_customer_id;
  display_name = display_name;
  tier = tier;
  email = email;
  phone = none;
}

abbrev pub first_newcomer : NewCustomer
first_newcomer = newcomer "cust-1001" "Priya Nair" "gold" (some "priya@example.com")

abbrev pub story : String → CaseTriggerType → String → Option String → NewCase
story customer_id trigger_type order_id summary = record {
  customer_id = customer_id;
  trigger_type = trigger_type;
  opened_by_user_id = none;
  order_id = some order_id;
  summary = summary;
}

abbrev pub fact : String → SourceType → String → String → ℕ → String → Fields → Delivery
fact customer_id source_type provenance_source external_ref occurred_at order_id payload = record {
  customer_id = customer_id;
  source_type = source_type;
  provenance_source = provenance_source;
  external_ref = external_ref;
  occurred_at = occurred_at;
  payload = payload;
  order_id = some order_id;
  recorded_at_source = none;
  actor_type = ActorType.system;
}

-- `_ago(days=d, hours=h, minutes=back - on)`, in microseconds
unfoldable pub ago : Env → ℕ → ℕ → ℕ → ℕ → ℕ
ago env days hours back on =
    env.loaded_at + on * 60_000_000 - ((days * 24 + hours) * 60 + back) * 60_000_000

abbrev pub usd189_99 : Float
usd189_99 = 0x4067bfae147ae148

abbrev pub usd64_50 : Float
usd64_50 = 0x4050200000000000

abbrev pub usd142 : Float
usd142 = 0x4061c00000000000

abbrev pub usd310 : Float
usd310 = 0x4073600000000000

abbrev pub usd88 : Float
usd88 = 0x4056000000000000

abbrev pub usd76_20 : Float
usd76_20 = 0x40530ccccccccccd

abbrev pub usd54 : Float
usd54 = 0x404b000000000000

abbrev pub usd220 : Float
usd220 = 0x406b800000000000
