-- ===== src/Routers/Auth/Token.antt =====
-- app/routers/auth.py: the token that a login returns.
use api_gateway_with_abuse_d.Prelude.{
  none, String, ◌≡◌, ◌≢◌, [], Bool, true, false, some, Option-cases, inl, inr, sym, subst,
  if◌then◌else◌,
}
use api_gateway_with_abuse_d.Platform.{Platform, User}
use api_gateway_with_abuse_d.Config.{Settings}
use api_gateway_with_abuse_d.World.{World, ok, http_error}
use api_gateway_with_abuse_d.World.Exec.{raise}
use api_gateway_with_abuse_d.World.Http.{Request, Response, or_else}
use api_gateway_with_abuse_d.World.Inversion.{err≢ok, ok_injective, continue-returned}
use api_gateway_with_abuse_d.Core.Security.{claims_of, verify_password, create_access_token}
use api_gateway_with_abuse_d.Services.AbuseDetector.{is_credential_stuffing, record_auth_failure}
use api_gateway_with_abuse_d.Routers.Auth.{
  login, attempt_login, refuse_login, answer_login, token_response,
}
use api_gateway_with_abuse_d.Routers.Auth.Login.{is_credential_stuffing-keeps}

module _ (p : Platform) (settings : Settings) (ip username password : String) where
  -- The user whose token the response is.
  abbrev pub IsTokenOf : World p → Response → Type 0
  IsTokenOf w response =
      (u : User) × (p.users.select username w.users ≡ some u)
      × (response ≡ token_response p (p.jwt.encode (claims_of u.username u.role w.now)))

  refuse_login-raises :
      (response : Response) (w : World p) → (refuse_login p settings ip username w).0 ≢ ok response
  refuse_login-raises response w h =
      let (done, _, step) =
        continue-returned (record_auth_failure p ip username settings.auth_failure_window_seconds w)
          _ h in
      err≢ok (rw step at h)

  checked_token :
      (u : User) (good : Bool) (response : Response) (w : World p)
      → (answer_login p settings ip username (if good then some u else none) w).0 ≡ ok response
      → response ≡ token_response p (p.jwt.encode (claims_of u.username u.role w.now))
  unfolding create_access_token
  checked_token u false response w h = absurd (refuse_login-raises response w h)
  checked_token u true response w h = sym (ok_injective h)

  attempt_login-IsTokenOf :
      (response : Response) (w : World p)
      → (attempt_login p settings ip username password w).0 ≡ ok response
      → IsTokenOf w response
  unfolding verify_password create_access_token
  attempt_login-IsTokenOf response w h = elim (Option-cases (p.users.select_error w.now username)) [
    | inr (e, lost) ↦ absurd (err≢ok (rw lost at h))
    | inl asked ↦ elim (Option-cases (p.users.select username w.users)) [
      | inl missing ↦ absurd (refuse_login-raises response w (rw (asked, missing) at h))
      | inr (u, there) ↦ elim (Option-cases (p.bcrypt.checkpw password u.hashed_password)) [
        | inl long ↦ absurd (err≢ok (rw (asked, there, long) at h))
        | inr (good, checked) ↦
            (u, there, checked_token u good response w (rw (asked, there, checked) at h))
      ]
    ]
  ]

  verdict-IsTokenOf :
      (verdict : Bool) (response : Response) (w : World p)
      → ((if verdict
            then raise (http_error 403 "Too many failed attempts" [])
            else attempt_login p settings ip username password)
          w).0
        ≡ ok response
      → IsTokenOf w response
  verdict-IsTokenOf true response w h = absurd (err≢ok h)
  verdict-IsTokenOf false response w h = attempt_login-IsTokenOf response w h

-- A login that returns has found the user, and its response is a token for the user's name and role.
pub login-IsTokenOf :
    (p : Platform) (settings : Settings) (username password : String) (request : Request)
    (response : Response) (w : World p)
    → (login p settings username password request w).0 ≡ ok response
    → IsTokenOf p settings (or_else request.host "unknown") username password w response
unfolding login
login-IsTokenOf p settings username password request response w h =
    let ip = or_else request.host "unknown" in
    let checked =
      is_credential_stuffing p ip username settings.auth_failure_ip_threshold
        settings.auth_failure_user_threshold w in
    let (verdict, _, step) = continue-returned checked _ h in
    verdict-IsTokenOf p settings ip username password verdict.0 response w (
      subst
        (λ v.
          ((if verdict.0
              then raise (http_error 403 "Too many failed attempts" [])
              else attempt_login p settings ip username password)
            v).0
          ≡ ok response)
        (is_credential_stuffing-keeps p ip username settings.auth_failure_ip_threshold
          settings.auth_failure_user_threshold w)
        (rw step at h))
