-- ===== src/Routers/Auth/Locked.antt =====
-- app/routers/auth.py: a run of failed logins locks the address out.
use api_gateway_with_abuse_d.Prelude.{
  ℕ, suc, ◌+◌, ◌*◌, ◌<◌, ◌≤◌, String, append, ◌≡◌, refl, sym, ◌∙◌, ap, true, none, some, List, [],
  ◌∷◌, map, length, str, subst,
}
use api_gateway_with_abuse_d.Redis.{get, live}
use api_gateway_with_abuse_d.Redis.Keys.{failed_auth}
use api_gateway_with_abuse_d.Platform.{Platform}
use api_gateway_with_abuse_d.Config.{Settings}
use api_gateway_with_abuse_d.World.{World, Exec, err, ok, http_error}
use api_gateway_with_abuse_d.World.Http.{Request, Response, no_state}
use api_gateway_with_abuse_d.Services.AbuseDetector.{int_or_zero}
use api_gateway_with_abuse_d.Services.AbuseDetector.Failures.{
  Failure, record_failures, IsHit, IsBurst, waited,
}
use api_gateway_with_abuse_d.Services.AbuseDetector.Lockout.{record_failures-refused}
use api_gateway_with_abuse_d.Routers.Auth.{login}
use api_gateway_with_abuse_d.Routers.Auth.Failed.{invalid, login-record_auth_failure, login-refused}

-- A login: the time since the one before, the address it comes from, and what is tried.
pub record Attempt : Type 0 where
  pub wait : ℕ
  pub ip : String
  pub username : String
  pub password : String

abbrev pub login_request : String → Request
login_request ip = record {
  path = "/auth/login";
  host = some ip;
  authorization = none;
  user_agent = none;
  state = no_state;
}

abbrev pub failure_of : Attempt → Failure
failure_of a = record { wait = a.wait; ip = a.ip; username = a.username }

module _ (p : Platform) (settings : Settings) where
  abbrev pub attempted : Attempt → Exec p Response
  attempted a w = login p settings a.username a.password (login_request a.ip) (waited a.wait w)

  unfoldable pub run_logins : List Attempt → World p → World p
  run_logins [] w = w
  run_logins (a ∷ rest) w = run_logins rest (attempted a w).1

  -- Each is answered 401.
  unfoldable pub AllInvalid : List Attempt → World p → Type 0
  AllInvalid [] w = Unit {0}
  AllInvalid (a ∷ rest) w = ((attempted a w).0 ≡ invalid) × AllInvalid rest (attempted a w).1

  run_logins-record_failures :
      (tries : List Attempt) (w : World p)
      → AllInvalid tries w
      → run_logins tries w
        ≡ record_failures p settings.auth_failure_window_seconds (map failure_of tries) w
  unfolding run_logins AllInvalid record_failures
  run_logins-record_failures [] w all = refl
  run_logins-record_failures (a ∷ rest) w (wrong, all) =
      run_logins-record_failures rest (attempted a w).1 all
      ∙ ap (record_failures p settings.auth_failure_window_seconds (map failure_of rest)) (
          login-record_auth_failure p settings a.username a.password (login_request a.ip)
            (waited a.wait w) wrong)

length-map : (tries : List Attempt) → length (map failure_of tries) ≡ length tries
length-map [] = refl
length-map (a ∷ rest) = ap (λ n. suc n) (length-map rest)

-- A run of logins that are all answered 401, with whatever passwords, in each of which an address
-- occurs once, each before the window of failures has ended since the one before: when they are as
-- many as the threshold for addresses, every further login from that address is answered 403 for a
-- window, the right password included, and writes nothing. At the start Redis is up and no counter
-- of the address is alive; the counter of the name that is tried then is readable.
pub run_logins-locked :
    (p : Platform) (settings : Settings) (who : String) (a : Attempt) (tries : List Attempt)
    (wait m : ℕ) (username password : String) (w : World p)
    → w.redis_up ≡ true
    → live (w.now + a.wait) (p.redis.cell (failed_auth who) w.db) ≡ none
    → IsHit who (failure_of a)
    → IsBurst p settings.auth_failure_window_seconds who (map failure_of tries)
    → wait < settings.auth_failure_window_seconds * 1000
    → settings.auth_failure_ip_threshold ≤ 1 + length tries
    → AllInvalid p settings (a ∷ tries) w
    → (int_or_zero
        (get p.redis
          (waited wait (run_logins p settings (a ∷ tries) w)).now
          (failed_auth username)
          (run_logins p settings (a ∷ tries) w).db)
        (waited wait (run_logins p settings (a ∷ tries) w))).0
      ≡ ok m
    → login p settings username password
        (login_request who)
        (waited wait (run_logins p settings (a ∷ tries) w))
      ≡ (
        err (http_error 403 "Too many failed attempts" []),
        waited wait (run_logins p settings (a ∷ tries) w),
      )
run_logins-locked p settings who a tries wait m username password w up free hit burst soon reached
      wrong readable =
    let same = run_logins-record_failures p settings (a ∷ tries) w wrong in
    let threshold = settings.auth_failure_ip_threshold in
    let refused =
      record_failures-refused p settings.auth_failure_window_seconds who (failure_of a)
        (map failure_of tries) wait m threshold settings.auth_failure_user_threshold w up free hit
        burst soon username (subst (λ n. threshold ≤ 1 + n) (sym (length-map tries)) reached)
        (rw same at readable) in
    rw same (
      login-refused p settings username password
        (append "ip_threshold_exceeded:" (str (1 + length (map failure_of tries))))
        (login_request who)
        (waited wait
          (record_failures p settings.auth_failure_window_seconds (map failure_of (a ∷ tries)) w))
        refused)
