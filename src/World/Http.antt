-- ===== src/World/Http.antt =====
-- Requests and responses of Starlette, as far as the gateway reads and writes them.
use api_gateway_with_abuse_d.Prelude.{
  ℕ, String, ◌≡◌, Bool, Option, none, some, List, [], ◌∷◌, ◌==◌, arith, eq_iff, if◌then◌else◌,
}
use api_gateway_with_abuse_d.Prelude.Int.{ℤ}

-- request.state: an attribute that no middleware has set is `none`.
pub record State : Type 0 where
  pub request_id : Option String
  pub client_id : Option String
  pub client_ip : Option String
  pub user_agent : Option String
  pub shadow_rule : Option String
  pub shadow_reason : Option String

pub record Request : Type 0 where
  -- request.url.path
  pub path : String
  -- request.client.host, `none` where the server knows no client
  pub host : Option String
  -- the headers Authorization and User-Agent
  pub authorization : Option String
  pub user_agent : Option String
  pub state : State

abbrev pub no_state : State
no_state = record {
  request_id = none;
  client_id = none;
  client_ip = none;
  user_agent = none;
  shadow_rule = none;
  shadow_reason = none;
}

-- `getattr(request.state, name, default)`, `request.headers.get(name, default)`.
abbrev pub or_else {ℓ} : {A : Type ℓ} → Option A → A → A
or_else none d = d
or_else (some a) d = a

pub data Scalar : Type 0 where
  text : String → Scalar
  flag : Bool → Scalar
  number : ℕ → Scalar
  table : List (String × ℕ) → Scalar
  integers : List (String × ℤ) → Scalar

pub record Response : Type 0 where
  pub status : ℕ
  pub body : List (String × Scalar)
  pub headers : List (String × String)

pub header : String → List (String × String) → Option String
header k [] = none
header k ((j, v) ∷ rest) = if j == k then some v else header k rest

-- `response.headers[k] = v`.
pub set_header : String → String → List (String × String) → List (String × String)
set_header k v [] = (k, v) ∷ []
set_header k v ((j, w) ∷ rest) = if j == k then (k, v) ∷ rest else (j, w) ∷ set_header k v rest

pub header-set_header :
    (k j v : String) (hs : List (String × String))
    → header j (set_header k v hs) ≡ (if k == j then some v else header j hs)
unfolding header set_header
header-set_header k j v [] = ground arith
header-set_header k j v ((i, w) ∷ hs) =
    ground (arith, eq_iff i k, eq_iff i j, eq_iff k j, header-set_header k j v hs)

abbrev pub with_header : String → String → Response → Response
with_header k v r = record r { headers = set_header k v r.headers }

-- The body that FastAPI and the middleware give an error.
abbrev pub error_response : ℕ → String → List (String × String) → Response
error_response status detail headers = record {
  status = status;
  body = ("detail", text detail) ∷ [];
  headers = headers;
}
