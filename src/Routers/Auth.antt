-- ===== src/Routers/Auth.antt =====
-- app/routers/auth.py
pub mod Login
pub mod Token
pub mod Failed
pub mod Locked
pub mod Register
use api_gateway_with_abuse_d.Prelude.{
  ℕ, String, Bool, true, false, Option, none, some, List, [], ◌∷◌, if◌then◌else◌,
}
use api_gateway_with_abuse_d.Platform.{Platform, User, DatabaseError}
use api_gateway_with_abuse_d.Config.{Settings}
use api_gateway_with_abuse_d.World.{World, Exec, http_error, database_error}
use api_gateway_with_abuse_d.World.Http.{Request, Response, text, flag, or_else}
use api_gateway_with_abuse_d.World.Exec.{pure, raise, gets, modify, draw, now_ms, ◌>>=◌, ◌>>◌}
use api_gateway_with_abuse_d.Core.Security.{verify_password, hash_password, create_access_token}
use api_gateway_with_abuse_d.Dependencies.{role_user}
use api_gateway_with_abuse_d.Services.AbuseDetector.{is_credential_stuffing, record_auth_failure}

-- The fields of UserResponse.
abbrev pub user_response : User → Response
user_response u = record {
  status = 201;
  body =
      ("id", text u.id)
      ∷ ("username", text u.username)
      ∷ ("email", text u.email)
      ∷ ("is_active", flag u.is_active)
      ∷ ("role", text u.role)
      ∷ [];
  headers = [];
}

module _ (p : Platform) where
  -- `select(User).where(User.username == ...)`, with what it raises.
  abbrev pub selected : Option DatabaseError → String → Exec p (Option User)
  selected none username = gets (λ w. p.users.select username w.users)
  selected (some e) username = raise (database_error e)

  abbrev pub find_user : String → Exec p (Option User)
  find_user username = do
    error ← gets (λ w. p.users.select_error w.now username)
    selected error username

  -- The commit of a new row, with what it raises.
  abbrev pub commit : Option DatabaseError → User → Exec p (Unit {0})
  commit none user = modify p (λ w. record w { users = p.users.insert user w.users })
  commit (some e) user = raise (database_error e)

  abbrev pub insert_new : String → String → String → Exec p Response
  insert_new username email hashed_pw = do
    n ← draw p
    now ← now_ms p
    let user : User = record {
      id = p.uuid4 n;
      username = username;
      email = email;
      hashed_password = hashed_pw;
      is_active = true;
      role = role_user;
      created_at = now;
    }
    error ← gets (λ w. p.users.insert_error w.now user w.users)
    commit error user
    pure (user_response user)

  abbrev pub register_if_new : String → String → String → Option User → Exec p Response
  register_if_new username email hashed_pw none = insert_new username email hashed_pw
  register_if_new username email hashed_pw (some u) =
      raise (http_error 409 "Username already exists" [])

  -- register
  unfoldable pub register : String → String → String → Request → Exec p Response
  unfolding hash_password
  register username email password request = do
    hashed_pw ← hash_password p password
    found ← find_user username
    register_if_new username email hashed_pw found

  abbrev pub token_response : String → Response
  token_response token = record {
    status = 200;
    body = ("access_token", text token) ∷ ("token_type", text "bearer") ∷ [];
    headers = [];
  }

  -- `user and await verify_password(...)`
  abbrev pub verified : String → Option User → Exec p (Option User)
  verified password none = pure none
  verified password (some u) = do
    good ← verify_password p password u.hashed_password
    pure (if good then some u else none)

  abbrev pub refuse_login : Settings → String → String → Exec p Response
  refuse_login settings client_ip username = do
    record_auth_failure p client_ip username settings.auth_failure_window_seconds
    raise (http_error 401 "Invalid credentials" [])

  abbrev pub accept_login : User → Exec p Response
  accept_login u = do token ← create_access_token p u.username u.role; pure (token_response token)

  abbrev pub answer_login : Settings → String → String → Option User → Exec p Response
  answer_login settings client_ip username none = refuse_login settings client_ip username
  answer_login settings client_ip username (some u) = accept_login u

  abbrev pub attempt_login : Settings → String → String → String → Exec p Response
  attempt_login settings client_ip username password = do
    found ← find_user username
    user ← verified password found
    answer_login settings client_ip username user

  -- login
  unfoldable pub login : Settings → String → String → Request → Exec p Response
  unfolding verify_password create_access_token
  login settings username password request = do
    let client_ip = or_else request.host "unknown"
    verdict ←
        is_credential_stuffing p client_ip username settings.auth_failure_ip_threshold
          settings.auth_failure_user_threshold
    if verdict.0
        then raise (http_error 403 "Too many failed attempts" [])
        else attempt_login settings client_ip username password
