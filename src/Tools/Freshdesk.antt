-- ===== src/Tools/Freshdesk.antt =====
-- backend/app/tools/connectors/freshdesk.py: a reply on the customer's ticket.
use occj.Prelude.{ℕ, not, fstring, [], ◌∷◌, if◌then◌else◌}
use occj.Models.Json.{str, field, end, get, get_or, truthy}
use occj.Models.Rows.{ActionRequest}
use occj.Session.{M, pure}
use occj.Env.{Env}
use occj.Tools.Base.{succeeds, fails, Outcome, returned, timed_out, on_http, Context}

module _ (env : Env) where
  -- `FreshdeskConnector.execute`
  unfoldable pub execute_freshdesk : ActionRequest → Context → ℕ → M Outcome
  unfolding truthy
  execute_freshdesk action context attempt =
      if not (truthy context.ticket_id)
      then pure (returned (fails "No Freshdesk ticket associated with this case"))
      else on_http
          (env.services.reply_ticket attempt context.ticket_id
            (get_or action.target "message" (str "")))
          (pure timed_out)
          (λ e. pure (returned (fails (fstring ("Freshdesk reply failed: " ∷ e ∷ [])))))
          (λ reply. pure (
            returned (
              succeeds
                (field "freshdesk_reply_id" (get reply "id")
                  (field "ticket_id" context.ticket_id end))
                [])))
