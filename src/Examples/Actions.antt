-- ===== src/Examples/Actions.antt =====
-- Actions that are in flight, carried out and counted.
use occj.Prelude.{
  ◌+◌, ◌++◌, ◌∷◌, [], ◌≡◌, refl, ◌⊎◌, true, false, none, some, leb, length, if◌then◌else◌,
}
use occj.Models.Enums.{SourceType, ActorType}
use occj.Models.Json.{end, get, is_str, eq_fields, eq_json, sub_fields, size_fields}
use occj.Models.Rows.{ActionRequest, EvidenceRecord}
use occj.Session.{Db, ok, new_id, utcnow, for_each}
use occj.Session.Tables.{
  assign_case, find_case, find_customer, insert_case, insert_execution, assign_execution,
  assign_action, insert_evidence_row,
}
use occj.Session.History.{Kept}
use occj.Audit.{record_audit}
use occj.Tools.Executor.{has_succeeded, execute_action}
use occj.Tools.Executor.Settled.{Concluded, execute_action-is_final}
use occj.Stage.{advance_stage}
use occj.Tools.Registry.{resolve, execute_connector}
use occj.Tools.Mock.{execute_mock}
use occj.Reconciliation.Ingest.{Delivery, find_existing, ingest_new, ingest_evidence}
use occj.Nba.Propose.{live_action}
use occj.Reconciliation.Redelivery.{ingest_evidence-again}
use occj.Nba.Decide.{decide_next_action}
use occj.Nba.InFlight.{decide_next_action-in_flight}
use occj.CaseService.{max_auto_steps, create_case}
use occj.CaseService.Rounds.{goes_on, run_case_cycle-stalls}
use occj.Frame.Trail.{execute_action-Kept, ingest_evidence-Kept}
use occj.Examples.{env, refund}
use occj.Examples.Cases.{state_of, value_of, opened, cycled, taken, cycle}

executed : Db
executed = state_of opened (execute_action env refund opened)

done : ActionRequest
done = value_of refund (execute_action env refund opened)

execution : execute_action env refund opened ≡ ok (done, executed)
unfolding execute_action executed done create_case has_succeeded resolve execute_connector
    execute_mock new_id utcnow record_audit find_case find_customer insert_case insert_execution
    assign_execution assign_action is_str get for_each advance_stage assign_case
execution = refl

abbrev call : Delivery
call = record {
  customer_id = "c1";
  source_type = SourceType.payment;
  provenance_source = "psp";
  external_ref = "r1";
  occurred_at = 1;
  payload = end;
  order_id = none;
  recorded_at_source = none;
  actor_type = ActorType.system;
}

told : Db
told = state_of opened (ingest_evidence env call opened)

-- the record of the call
abbrev told_record : EvidenceRecord
told_record = record {
  id = "kkk";
  customer_id = "c1";
  order_id = none;
  source_type = SourceType.payment;
  external_ref = "r1";
  provenance_source = "psp";
  occurred_at = 1;
  recorded_at_source = none;
  ingested_at = 3;
  payload = end;
  actor_type = ActorType.system;
  supersedes_id = none;
  is_superseded = false;
  is_duplicate_of = none;
}

telling : ingest_evidence env call opened ≡ ok (told_record, told)
unfolding ingest_evidence told create_case new_id utcnow record_audit insert_case
    insert_evidence_row find_existing ingest_new
telling = refl

ingest_evidence-Kept_example : Kept opened told
ingest_evidence-Kept_example = ingest_evidence-Kept env opened told call told_record telling

run_case_cycle-stalls_example : (leb (length taken) max_auto_steps ≡ true) × (goes_on taken ≡ true)
run_case_cycle-stalls_example = run_case_cycle-stalls env "k" opened cycled taken cycle

execute_action-is_final_example :
    ((has_succeeded env refund.id opened ≡ true) × (done ≡ refund) × (executed ≡ opened))
    ⊎ ((has_succeeded env refund.id opened ≡ false) × Concluded env refund done executed)
execute_action-is_final_example = execute_action-is_final env refund done opened executed execution

execute_action-Kept_example : Kept opened executed
execute_action-Kept_example = execute_action-Kept env opened executed refund done execution

decide_next_action-in_flight_example :
    (t : Db) × (decide_next_action env "k" opened ≡ ok (some refund, t))
    × (t.actions ≡ opened.actions)
    × (t.approvals ≡ opened.approvals)
    × (t.cases ≡ opened.cases)
    × (length t.audit ≡ length opened.audit + (if false then 1 else 0))
unfolding find_case live_action create_case insert_case new_id utcnow record_audit
decide_next_action-in_flight_example =
    decide_next_action-in_flight env "k" opened _ refund refl refl

ingest_evidence-again_example :
    (u : Db) × (x : EvidenceRecord) × (ingest_evidence env call told ≡ ok (told_record, u))
    × (find_existing call u ≡ some told_record)
    × (u.evidence ≡ told.evidence ++ x ∷ [])
    × (x.is_duplicate_of ≡ some told_record.id)
unfolding find_existing create_case new_id utcnow record_audit insert_case eq_fields eq_json
    sub_fields size_fields
ingest_evidence-again_example =
    ingest_evidence-again env call opened told told_record refl refl telling
