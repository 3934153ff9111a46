-- ===== src/Lib.antt =====
-- The backend of the order-complaint investigator (backend/app): how evidence about an order is
-- reconciled, how hypotheses about what went wrong are formed, which action comes next, who must
-- approve it, how it is carried out, and what the audit trail says of all that.
--
-- How the parts interact. A request opens a session on the database (backend/app/db.py). The case
-- service (engine/case_service.py) reconciles the evidence of a case, renews its hypotheses and then
-- drives it: the next best action (engine/nba_engine.py) is proposed, carried out by the executor
-- (tools/executor.py) through a connector, or left waiting for an approval (approvals/service.py).
-- Every part writes the audit trail (audit/service.py), from which audit/replay.py folds the state of
-- a case again.
--
-- Which file models which part, paths under backend/app:
--   Models         models/*.py: rows, enumerations, JSON values, and doubles by their bits
--   Session        db.py: the tables that one request sees, and operations that return or raise;
--                  Session/Tables the reads and writes, Session/Steps and Session/History what every
--                  run of an operation respects, Session/Runs runs from the runs of their parts
--   Env            config.py, and what comes from outside
--   Connect        db.py (connect_args_for)
--   Audit, Replay  audit/service.py, audit/replay.py (get_case_audit_trail, replay_case_state)
--   Stage          engine/stage.py (advance_stage)
--   Approvals      approvals/service.py (decide_approval)
--   Reconciliation reconciliation/reconciler.py and rules.py (ingest_evidence, assemble_timeline,
--                  detect_uncertainty, reconcile_case)
--   Hypotheses     engine/hypothesis_engine.py (compute_confidence, generate_or_update_hypotheses)
--   Recovery       engine/recovery_catalog.py (rank_recovery_options)
--   Impact         engine/impact_engine.py (assess_impact)
--   Llm            llm/client.py (chat_json)
--   Messaging      engine/customer_messaging.py (draft_customer_message)
--   Nba            engine/nba_engine.py (_propose as propose, decide_next_action)
--   Tools          tools/*.py and tools/connectors/*.py (execute_action, resolve, the connectors,
--                  fetch_recent_tickets and ticket_to_evidence_kwargs)
--   CaseService    engine/case_service.py and orchestrator.py (run_case_cycle, advance_case)
--   Frame          one pass over all operations, for every relation that the single writes respect:
--                  the history of the rows, the trail of a case, the approvals, the keys of the
--                  requests, the licences of Gate
--   Gate           which actions may be executed: an action needs no approval, or has an approved one
--   Api            auth/deps.py and api/routers/*.py: the callers, the handlers with their commits, and
--                  Api/Serve the requests of any callers, one after another
--   Seed           seed/synthetic_data.py: the journeys (seed_all) and the approvals that stand in for
--                  a human's (_auto_approve_to_closure); api/routers/demo.py is Api/Demo
--   Startup        main.py (lifespan): the demonstration users
--   Examples       a small environment and the theorems applied in it
--
-- State and objects. A session is a record of tables; an object that the source holds is the key of
-- its row, so what one part assigns another part reads. An operation maps a session to a result: a
-- value with the next session, or the exception. A request that raises is rolled back, so no session
-- follows an exception. A handler of Api maps the database to the response and the database as
-- committed: `decide` commits the decision before it drives the case on, so an error after that keeps
-- the decision.
--
-- Bounds. The cycle of a case, the request that approves an action, and the approvals of the seeding
-- drive a case at most twelve rounds each, and an action has at most three attempts, as in the source
-- (MAX_AUTO_STEPS, `range(12)`, max_rounds, MAX_ATTEMPTS); these loops are recursion on the rounds or attempts that are left, so there is no
-- other fuel. Numbers are natural numbers, times microseconds.
--
-- Parameters. Keys, the clock, arithmetic on doubles, formats of numbers and times, lower and upper
-- case, splitting of words, the hash, `json.loads`, the completions of the language model, and the
-- answers of the services behind the connectors are functions in Env, of which nothing is assumed but
-- what a theorem names. A service's failure is its answer of an HTTP error or of none in time, the
-- language model's an API error, an empty content or one that is no JSON. A citation of a completion that
-- is a number, a truth value or null is of no record and is dropped, one that is a list or a dictionary
-- has no hash and raises, and a text or a dictionary in place of a list is read as its characters or its
-- keys, as in Python. A category, title or narrative that is no text raises in the model when it is
-- read. Python raises where it uses or stores the value, so it goes on past a title or a narrative of
-- another kind where the proposal has no valid citation and is not stored, and storing a number or a
-- truth value is left to the database.
--
-- Ties. Rows that a query orders, and that have equal times, stand in the order of their insertion in
-- the model (in_order, sort_by), which SQL leaves open.
--
-- Not modelled: the parsing and printing of bodies, the hashing of passwords and the signing of
-- tokens, routing, the printing of the seeding's command line, migrations and the user interface; requests that run
-- at the same time, since sessions follow one another.
pub mod Prelude
pub mod Models
pub mod Session
pub mod Stage
pub mod Env
pub mod Connect
pub mod Approvals
pub mod Reconciliation
pub mod Hypotheses
pub mod Recovery
pub mod Impact
pub mod Llm
pub mod Messaging
pub mod Nba
pub mod Tools
pub mod CaseService
pub mod Replay
pub mod Startup
pub mod Seed
pub mod Api
pub mod Gate
pub mod Frame
pub mod Audit
pub mod Examples
