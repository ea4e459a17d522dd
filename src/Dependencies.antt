-- ===== src/Dependencies.antt =====
-- app/dependencies.py: the check of the admin role.
use api_gateway_with_abuse_d.Prelude.{String, Option, none, some, List, ◌==◌, if◌then◌else◌}
use api_gateway_with_abuse_d.Platform.{Platform, Claims}
use api_gateway_with_abuse_d.Text.{is_lowered, split_words}
use api_gateway_with_abuse_d.World.{Exec, http_error}
use api_gateway_with_abuse_d.World.Http.{Request, or_else}
use api_gateway_with_abuse_d.World.Exec.{pure, raise, ◌>>=◌}
use api_gateway_with_abuse_d.Core.Security.{decode_access_token}
use api_gateway_with_abuse_d.Middleware.Auth.{bearer}

-- UserRole of app/models/user.py
abbrev pub role_user : String
role_user = "user"

abbrev pub role_admin : String
role_admin = "admin"

-- The token of a header of exactly two words, the first of which is "bearer" in any case.
abbrev pub bearer_token : List String → Option String
bearer_token (List.◌∷◌ scheme (List.◌∷◌ token List.[])) =
    if is_lowered scheme "bearer" then some token else none
bearer_token _ = none

abbrev pub require_role : {p : Platform} → Option Claims → Exec p String
require_role none = raise (http_error 401 "Invalid or expired token" bearer)
require_role (some payload) =
    if or_else payload.role role_user == role_admin
    then pure (or_else payload.sub "")
    else raise (http_error 403 "Admin access required" List.[])

abbrev pub require_token : (p : Platform) → Option String → Exec p String
require_token p none = raise (http_error 401 "Not authenticated" bearer)
require_token p (some token) = do payload ← decode_access_token p token; require_role payload

-- require_admin
unfoldable pub require_admin : (p : Platform) → Request → Exec p String
unfolding decode_access_token
require_admin p request =
    require_token p (bearer_token (split_words (or_else request.authorization "")))
