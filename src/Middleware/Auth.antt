-- ===== src/Middleware/Auth.antt =====
-- app/middleware/auth.py
pub mod Admits
use api_gateway_with_abuse_d.Prelude.{String, Option, none, some, List, [], ◌∷◌, if◌then◌else◌}
use api_gateway_with_abuse_d.Platform.{Platform, Claims}
use api_gateway_with_abuse_d.Text.{is_one_of, has_prefix, split_by, is_blank}
use api_gateway_with_abuse_d.World.{Exec}
use api_gateway_with_abuse_d.World.Http.{Request, Response, or_else, error_response}
use api_gateway_with_abuse_d.World.Exec.{pure, ◌>>=◌}
use api_gateway_with_abuse_d.Core.Security.{decode_access_token}

abbrev pub public_paths : List String
public_paths =
    "/health" ∷ "/metrics" ∷ "/auth/login" ∷ "/auth/register" ∷ "/docs" ∷ "/openapi.json" ∷ []

abbrev pub with_client_id : String → Request → Request
with_client_id client_id request = record request {
  state = record request.state { client_id = some client_id };
}

abbrev pub bearer : List (String × String)
bearer = ("WWW-Authenticate", "Bearer") ∷ []

-- `auth_header.split(" ")[1]`; the header that reaches it has a space.
abbrev pub second : List String → String
second (x ∷ y ∷ rest) = y
second _ = ""

abbrev pub authenticated :
    {p : Platform} → (Request → Exec p Response) → Request → Option Claims → Exec p Response
authenticated call_next request none = pure (error_response 401 "Invalid or expired token" bearer)
authenticated call_next request (some payload) =
    call_next (with_client_id (or_else payload.sub "unknown") request)

-- AuthMiddleware.dispatch
unfoldable pub auth_dispatch :
    (p : Platform) → (Request → Exec p Response) → Request → Exec p Response
unfolding decode_access_token
auth_dispatch p call_next request =
    let auth_header = or_else request.authorization "" in
    if is_one_of request.path public_paths
    then call_next (with_client_id "anonymous" request)
    else if has_prefix auth_header "Bearer "
    then (do
      payload ← decode_access_token p (second (split_by is_blank auth_header))
      authenticated call_next request payload)
    else pure (error_response 401 "Not authenticated" bearer)
