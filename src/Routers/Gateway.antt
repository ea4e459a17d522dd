-- ===== src/Routers/Gateway.antt =====
-- app/routers/gateway.py
use api_gateway_with_abuse_d.Prelude.{[], ◌∷◌}
use api_gateway_with_abuse_d.Platform.{Platform}
use api_gateway_with_abuse_d.World.{Exec}
use api_gateway_with_abuse_d.World.Http.{Request, Response, text, or_else}
use api_gateway_with_abuse_d.World.Exec.{pure}
use api_gateway_with_abuse_d.Routers.Admin.{json_response}

unfoldable pub proxy : (p : Platform) → Request → Exec p Response
proxy p request = pure (
    json_response (
      ("message", text "Request reached upstream service")
      ∷ ("client_id", text (or_else request.state.client_id "anonymous"))
      ∷ ("request_id", text (or_else request.state.request_id "unknown"))
      ∷ []))
