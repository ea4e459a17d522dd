-- ===== src/Routers/Auth/Register.antt =====
-- app/routers/auth.py: an account that is registered, and its first login.
use api_gateway_with_abuse_d.Prelude.{
  none, ◌+◌, String, ◌≡◌, refl, sym, ◌∙◌, ap, true, false, some, eq_refl, Option-cases, inl, inr,
}
use api_gateway_with_abuse_d.Platform.{Platform, User}
use api_gateway_with_abuse_d.Config.{Settings}
use api_gateway_with_abuse_d.World.{World, ok}
use api_gateway_with_abuse_d.World.Inversion.{err≢ok, continue-ok, ok_injective}
use api_gateway_with_abuse_d.World.Http.{Request, Response, or_else}
use api_gateway_with_abuse_d.Core.Security.{
  verify_password, hash_password, create_access_token, claims_of,
}
use api_gateway_with_abuse_d.Services.AbuseDetector.{is_credential_stuffing}
use api_gateway_with_abuse_d.Dependencies.{role_user}
use api_gateway_with_abuse_d.Routers.Auth.Login.{is_credential_stuffing-keeps}
use api_gateway_with_abuse_d.Routers.Auth.{
  login, register, attempt_login, token_response, user_response,
}

module _ (p : Platform) (username email password : String) (request : Request) (w : World p) where
  -- The account that a registration makes of the next two random values.
  abbrev pub new_user : String → User
  new_user hashed = record {
    id = p.uuid4 (w.draws + 1);
    username = username;
    email = email;
    hashed_password = hashed;
    is_active = true;
    role = role_user;
    created_at = w.now;
  }

  -- What a registration that returned has gone through.
  abbrev IsStored : Response → Type 0
  IsStored response =
      (hashed : String) × (p.bcrypt.hashpw w.draws password ≡ some hashed)
      × (p.users.select_error w.now username ≡ none)
      × (p.users.insert_error w.now (new_user hashed) w.users ≡ none)
      × (response ≡ user_response (new_user hashed))
      × ((register p username email password request w).1
          ≡ record w { draws = w.draws + 1 + 1; users = p.users.insert (new_user hashed) w.users })

  register-IsStored :
      (response : Response)
      → (register p username email password request w).0 ≡ ok response
      → IsStored response
  unfolding register hash_password
  register-IsStored response h = elim (Option-cases (p.bcrypt.hashpw w.draws password)) [
    | inl long ↦ absurd (err≢ok (rw long at h))
    | inr (hashed, hash) ↦ elim (Option-cases (p.users.select_error w.now username)) [
      | inr (e, lost) ↦ absurd (err≢ok (rw (hash, lost) at h))
      | inl asked ↦ elim (Option-cases (p.users.select username w.users)) [
        | inr (u, there) ↦ absurd (err≢ok (rw (hash, asked, there) at h))
        | inl free ↦ elim (Option-cases (p.users.insert_error w.now (new_user hashed) w.users)) [
          | inr (e, clash) ↦ absurd (err≢ok (rw (hash, asked, free, clash) at h))
          | inl fits ↦ (
            hashed,
            hash,
            asked,
            fits,
            sym (ok_injective (rw (hash, asked, free, fits) at h)),
            rw (hash, asked, free, fits) refl,
          )
        ]
      ]
    ]
  ]

  attempt_login-accepted :
      (settings : Settings) (ip hashed : String) (v : World p)
      → p.users.select_error v.now username ≡ none
      → p.users.select username v.users ≡ some (new_user hashed)
      → p.bcrypt.hashpw w.draws password ≡ some hashed
      → attempt_login p settings ip username password v
        ≡ (ok (token_response p (p.jwt.encode (claims_of username role_user v.now))), v)
  unfolding verify_password create_access_token
  attempt_login-accepted settings ip hashed v asked stored hash =
      simp (asked, stored, p.bcrypt.checkpw-hashpw w.draws password hash)

  -- After a registration that returned, a login with its name and password returns a token for that
  -- name with the role of a user and writes nothing, unless the counters of failed logins refuse the
  -- address or the name.
  pub register-login :
      (settings : Settings) (response : Response) (later : Request) (reason : String)
      → (register p username email password request w).0 ≡ ok response
      → (is_credential_stuffing p
          (or_else later.host "unknown")
          username
          settings.auth_failure_ip_threshold
          settings.auth_failure_user_threshold
          (register p username email password request w).1).0
        ≡ ok (false, reason)
      → login p settings username password later (register p username email password request w).1
        ≡ (
          ok (token_response p (p.jwt.encode (claims_of username role_user w.now))),
          (register p username email password request w).1,
        )
  unfolding login
  register-login settings response later reason h free =
      let (hashed, hash, asked, fits, _, step) = register-IsStored response h in
      let stored = p.users.select-insert w.now (new_user hashed) w.users username fits in
      let v = (register p username email password request w).1 in
      let ip = or_else later.host "unknown" in
      continue-ok
        (is_credential_stuffing p ip username settings.auth_failure_ip_threshold
          settings.auth_failure_user_threshold v)
        _ free
      ∙ ap (attempt_login p settings ip username password) (
          is_credential_stuffing-keeps p ip username settings.auth_failure_ip_threshold
            settings.auth_failure_user_threshold v)
      ∙ rw step (
          attempt_login-accepted settings ip hashed
            (record w { draws = w.draws + 1 + 1; users = p.users.insert (new_user hashed) w.users })
            asked (stored ∙ rw (eq_refl username) refl) hash)
