-- ===== src/Messaging.antt =====
-- backend/app/engine/customer_messaging.py: the update that a customer is sent, from an executed
-- action alone.
use Prim.Native.Char.{code}
use occj.Prelude.{String, Option, [], ◌∷◌, nat_eq, ◌==◌, eq_string, fstring, if◌then◌else◌}
use occj.Models.Float.{Float, eq_float, f0}
use occj.Models.Json.{Json, int, str, get, get_or, truthy, or_json, to_float}
use occj.Models.Rows.{Customer, ActionRequest}
use occj.Session.{M, pure, or_raise, on_option, attribute_error, value_error, ◌>>=◌}
use occj.Env.{Env, show_json}
use occj.Llm.{fields_of, chat_json}

-- `text.split(" ")[0]`
unfoldable pub first_word : String → String
first_word String.[] = ""
first_word (String.◌∷◌ c s) =
    let rest = String.◌∷◌ c (first_word s) in if nat_eq (code c) 32 then "" else rest

-- `(customer.display_name or "there").split(" ")[0]`
unfoldable pub first_name : Customer → String
unfolding first_word
first_name c = if c.display_name == "" then "there" else first_word c.display_name

abbrev pub message_request : String
message_request = fstring (
    "You write short, warm customer-service messages for a retail brand. "
    ∷ "You will be given exactly one action that was already completed for this "
    ∷ "customer. Confirm only that action, in 2-4 sentences. Never mention internal "
    ∷ "process, other options considered, or anything not explicitly given to you. "
    ∷ "Respond as JSON: {\"message\": str}" ∷ [])

module _ (env : Env) where
  template_message : String → String → Float → String
  unfolding eq_float
  template_message name label cost =
      let clause =
        if eq_float cost f0 then "" else fstring (" ($" ∷ env.arith.fixed2 cost ∷ ")" ∷ []) in
      fstring (
        "Hi " ∷ name ∷ ", thanks for your patience while we looked into this. "
        ∷ "We've completed the following on your order: " ∷ label ∷ clause ∷ ". "
        ∷ "If anything still looks off, just reply and we'll take another look." ∷ [])

  -- the "message" of the answer, unless there is no answer or the message is not true
  unfoldable pub message_for : String → String → Float → M Json
  unfolding template_message fields_of chat_json get truthy
  message_for name label cost = do
    answer ← chat_json env message_request (
        fstring (
          "Customer first name: "
          ∷ name
          ∷ "\nCompleted action: "
          ∷ label
          ∷ "\nValue: $"
          ∷ env.arith.fixed2 cost
          ∷ []))
    let fallback = str (template_message name label cost)
    on_option answer (pure fallback) (λ found. do
      fields ← or_raise (fields_of found) attribute_error
      pure (or_json (get fields "message") fallback))

  unfoldable pub draft_customer_message : Option Customer → ActionRequest → M Json
  unfolding first_name message_for get_or or_json to_float
  draft_customer_message customer action = do
    let label = show_json env (get_or action.target "label" (str "a resolution"))
    cost ←
        or_raise
          (to_float env.arith (or_json (get_or action.target "estimated_cost_usd" (int 0)) (int 0)))
          value_error
    c ← or_raise customer attribute_error
    message_for (first_name c) label cost
