-- ===== src/Examples/Outside.antt =====
-- What the program says to the services that it stands on.
use occj.Prelude.{◌≡◌, refl, false, none, some}
use occj.Models.Json.{int, str, field, end, has_key}
use occj.Session.{empty_db, err, value_error, not_configured}
use occj.Connect.{sqlite, asyncpg, no_args, statement_name, connect_args_for}
use occj.Tools.Tickets.{slice, fetch_recent_tickets, ticket_to_evidence_kwargs}
use occj.Examples.{env}

local_database : connect_args_for "sqlite+aiosqlite:///./occj.db" ≡ sqlite false
unfolding connect_args_for
local_database = refl

pooled_database :
    connect_args_for "postgresql+asyncpg://u:p@host:6543/postgres" ≡ asyncpg 0 statement_name
unfolding connect_args_for
pooled_database = refl

unknown_database : connect_args_for "mysql://host" ≡ no_args
unfolding connect_args_for
unknown_database = refl

cut_short : slice 5 (str "too long a text") ≡ some (str "too l")
unfolding slice
cut_short = refl

cut_number : slice 5 (int 7) ≡ none
unfolding slice
cut_number = refl

no_service : fetch_recent_tickets env "a@b" none empty_db ≡ err not_configured
unfolding fetch_recent_tickets
no_service = refl

ticket_without_key :
    ticket_to_evidence_kwargs env (field "status" (int 4) end) none empty_db ≡ err value_error
unfolding ticket_to_evidence_kwargs has_key
ticket_without_key = refl
