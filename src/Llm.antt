-- ===== src/Llm.antt =====
-- `chat_json` of backend/app/llm/client.py. The provider's API and `json.loads` are parameters.
use occj.Prelude.{String, Option, none, some, ◌==◌, eq_string, if◌then◌else◌}
use occj.Models.Json.{Json, Fields, obj}
use occj.Session.{Db, M, gets}
use occj.Env.{Env, Completion, refused, completed, llm_configured}

-- a value that is a dictionary
unfoldable pub fields_of : Json → Option Fields
fields_of (obj fields) = some fields
fields_of _ = none

module _ (env : Env) where
  -- what is made of the provider's answer
  unfoldable pub read_completion : Completion → Option Json
  read_completion (refused e) = none
  read_completion (completed none) = none
  read_completion (completed (some content)) =
      if content == "" then none else env.parse_json content

  -- `none` where it raises `LLMUnavailable`, whose text is only logged
  unfoldable pub chat_json : String → String → M (Option Json)
  unfolding read_completion llm_configured
  chat_json system user = gets (λ (s : Db).
      if llm_configured env.settings
      then read_completion (env.complete s.reads env.settings.llm_model system user)
      else none)
