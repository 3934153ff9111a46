-- ===== src/Env.antt =====
-- backend/app/config.py, and what the program takes from outside: the clock and the keys, the
-- interpreter's arithmetic and formats, the hash, the language model and the connectors' services.
use occj.Prelude.{
  ℕ, String, Bool, true, false, not, ◌&&◌, Option, none, some, List, ◌==◌, eq_string,
}
use occj.Models.Float.{Float, Arith, f0_15, f75}
use occj.Models.Json.{Json, Fields, bool, int, num, str}
use occj.Session.{Supply}

-- The settings that the modelled code reads, environment-driven as in `Settings`.
pub record Settings : Type 0 where
  pub llm_api_key : Option String
  pub llm_model : String
  pub freshdesk_domain : Option String
  pub freshdesk_api_key : Option String
  pub freshservice_domain : Option String
  pub freshservice_api_key : Option String
  pub high_value_approval_threshold_usd : Float
  pub stale_evidence_hours : ℕ
  pub reevaluation_confidence_delta : Float

abbrev pub default_settings : Settings
default_settings = record {
  llm_api_key = none;
  llm_model = "openai/gpt-oss-120b";
  freshdesk_domain = none;
  freshdesk_api_key = none;
  freshservice_domain = none;
  freshservice_api_key = none;
  high_value_approval_threshold_usd = f75;
  stale_evidence_hours = 48;
  reevaluation_confidence_delta = f0_15;
}

-- `bool(text)` where the text may be `None`
abbrev filled : Option String → Bool
filled none = false
filled (some s) = not (s == "")

unfoldable pub freshdesk_configured : Settings → Bool
freshdesk_configured c = filled c.freshdesk_domain && filled c.freshdesk_api_key

unfoldable pub freshservice_configured : Settings → Bool
freshservice_configured c = filled c.freshservice_domain && filled c.freshservice_api_key

unfoldable pub llm_configured : Settings → Bool
llm_configured c = filled c.llm_api_key

-- One hypothesis as the model or a template proposes it; a key that is missing is `none`, and a
-- missing list of citations is empty.
pub record Spec : Type 0 where
  pub category : Option String
  pub title : Option String
  pub narrative : Option String
  pub supporting_evidence_ids : List String
  pub weakening_evidence_ids : List String
  -- what both lists have that is not a text, and so is of no record
  pub other_citations : List Json
  pub source : String

-- How a call of an outside service ends: an answer, an `httpx.HTTPError` with its text, or no answer
-- before the attempt's time is up.
pub data Http (A : Type 0) : Type 0 where
  answered : A → Http A
  http_error : String → Http A
  hangs : Http A

-- How a call of the language model ends: an `APIError` with its text, or the content of the first
-- choice, if there is one.
pub data Completion : Type 0 where
  refused : String → Completion
  completed : Option String → Completion

-- The services that the real connectors call.
pub record Services : Type 0 where
  -- Freshservice: the incidents updated since a time, and a new incident with its subject and
  -- description, at an attempt
  pub list_incidents : ℕ → Http (List Fields)
  pub create_incident : ℕ → String → String → Http Fields
  -- Freshdesk: the tickets of an address, updated since a time if one is given
  pub list_tickets : String → Option String → Http (List Fields)
  -- Freshdesk: a reply to a ticket, at an attempt
  pub reply_ticket : ℕ → Json → Json → Http Fields

pub record Env : Type 0 where
  pub services : Services
  pub supply : Supply
  pub arith : Arith
  pub settings : Settings
  -- when the module of the demonstration data was loaded
  pub loaded_at : ℕ
  -- `str(v)` of `None`, a list or a dictionary
  pub repr : Json → String
  -- `text.lower()`, and `category.replace("_", " ").capitalize()`
  pub lower : String → String
  pub upper : String → String
  -- `text.replace("_", " ").split()`
  pub words : String → List String
  -- `datetime.fromisoformat(text.replace("Z", "+00:00"))`, which may raise
  pub parse_time : String → Option ℕ
  pub titled : String → String
  -- `moment.isoformat()`, of the time in microseconds
  pub isoformat : ℕ → String
  -- `delta.total_seconds()`, of a span in microseconds
  pub total_seconds : ℕ → Float
  -- `hashlib.sha256(raw.encode()).hexdigest()[:48]`
  pub digest : String → String
  -- the language model's answer at a time, of a model, to a system's and a user's message
  pub complete : ℕ → String → String → String → Completion
  -- `json.loads(text)`, `none` where it raises `JSONDecodeError`
  pub parse_json : String → Option Json

-- `str(v)`, as a format field writes it
unfoldable pub show_json : Env → Json → String
show_json env (bool true) = "True"
show_json env (bool false) = "False"
show_json env (int n) = env.arith.show_nat n
show_json env (num x) = env.arith.show_float x
show_json env (str s) = s
show_json env v = env.repr v

abbrev pub show_option : Option String → String
show_option none = "None"
show_option (some s) = s
