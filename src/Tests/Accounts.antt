-- ===== src/Tests/Accounts.antt =====
-- Examples for registrations and logins.
use api_gateway_with_abuse_d.Prelude.{String}
use api_gateway_with_abuse_d.World.{World, err, http_error}
use api_gateway_with_abuse_d.Prelude.{arith, int, str}
use api_gateway_with_abuse_d.Config.{Settings}
use api_gateway_with_abuse_d.Core.Security.{verify_password}
use api_gateway_with_abuse_d.Services.AbuseDetector.{record_auth_failure}
use api_gateway_with_abuse_d.Services.AbuseDetector.Failures.{waited}
use api_gateway_with_abuse_d.Routers.Auth.Failed.{login-counts, count_for}
use api_gateway_with_abuse_d.Routers.Auth.Locked.{
  Attempt, login_request, run_logins, AllInvalid, run_logins-locked,
}
use api_gateway_with_abuse_d.Prelude.{◌≡◌, refl, [], ◌∷◌}
use api_gateway_with_abuse_d.Platform.Reference.{reference, select_user, taken}
use api_gateway_with_abuse_d.World.{ok, http_error}
use api_gateway_with_abuse_d.Core.Security.{claims_of, hash_password}
use api_gateway_with_abuse_d.Dependencies.{role_user}
use api_gateway_with_abuse_d.Services.AbuseDetector.{is_credential_stuffing}
use api_gateway_with_abuse_d.Routers.Auth.{login, register, token_response, user_response}
use api_gateway_with_abuse_d.Routers.Auth.Login.{login-hides_users, with_users}
use api_gateway_with_abuse_d.Routers.Auth.Register.{new_user, register-login}
use api_gateway_with_abuse_d.Tests.{test_settings, quiet, request_of, alice}

login-hides_users_example :
    ((login reference test_settings "alice" "wrong"
        (request_of "/auth/login" "")
        (with_users (alice ∷ []) quiet)).0
      ≡ (login reference test_settings "alice" "wrong" (request_of "/auth/login" "") quiet).0)
    × ((login reference test_settings "alice" "wrong"
          (request_of "/auth/login" "")
          (with_users (alice ∷ []) quiet)).1.db
        ≡ (login reference test_settings "alice" "wrong" (request_of "/auth/login" "") quiet).1.db)
unfolding select_user
login-hides_users_example =
    login-hides_users reference test_settings "alice" "wrong" (request_of "/auth/login" "") alice
      (alice ∷ []) quiet refl refl refl

register-login_example :
    login reference test_settings "bob" "pw"
      (request_of "/auth/login" "")
      (register reference "bob" "bob@example.org" "pw" (request_of "/auth/register" "") quiet).1
    ≡ (
      ok (token_response reference (reference.jwt.encode (claims_of "bob" role_user quiet.now))),
      (register reference "bob" "bob@example.org" "pw" (request_of "/auth/register" "") quiet).1,
    )
unfolding register select_user taken hash_password is_credential_stuffing
register-login_example =
    register-login reference "bob" "bob@example.org" "pw" (request_of "/auth/register" "") quiet
      test_settings
      (user_response (
        new_user reference "bob" "bob@example.org" "pw" (request_of "/auth/register" "") quiet
          "pw"))
      (request_of "/auth/login" "") "" refl refl

abbrev after_wrong : World reference
after_wrong = (login reference test_settings "alice" "wrong" (request_of "/auth/login" "") quiet).1

login-counts_example :
    (after_wrong ≡ record quiet { db = after_wrong.db })
    × ((j : String)
        → reference.redis.cell j after_wrong.db
          ≡ count_for 100000 300 "alice"
              (count_for 100000 300 "10.0.0.1" (λ k. reference.redis.cell k quiet.db))
              j)
unfolding login is_credential_stuffing select_user record_auth_failure verify_password
login-counts_example =
    login-counts reference test_settings "alice" "wrong" (request_of "/auth/login" "") quiet refl

-- Two wrong logins from one address, with a threshold of two, and then the right password.
abbrev strict : Settings
strict = record test_settings { auth_failure_ip_threshold = 2 }

abbrev wrong_try : String → Attempt
wrong_try name = record { wait = 1000; ip = "10.0.0.1"; username = name; password = "wrong" }

abbrev tried : World reference
unfolding run_logins
tried =
    run_logins reference strict (wrong_try "alice" ∷ wrong_try "bob" ∷ [])
      (with_users (alice ∷ []) quiet)

run_logins-locked_example :
    login reference strict "alice" "secret" (login_request "10.0.0.1") (waited 5 tried)
    ≡ (err (http_error 403 "Too many failed attempts" []), waited 5 tried)
unfolding tried run_logins AllInvalid login is_credential_stuffing select_user record_auth_failure
    verify_password int str
run_logins-locked_example =
    run_logins-locked reference strict "10.0.0.1" (wrong_try "alice") (wrong_try "bob" ∷ []) 5 1
      "alice" "secret" (with_users (alice ∷ []) quiet) refl refl refl ((omega arith, refl), tt)
      (omega arith) (omega arith) (refl, (refl, tt)) refl
