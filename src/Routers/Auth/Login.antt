-- ===== src/Routers/Auth/Login.antt =====
-- app/routers/auth.py: what a failed login gives away.
use api_gateway_with_abuse_d.Prelude.{
  ap, ℕ, String, ◌≡◌, refl, Bool, true, false, Option, none, some, [], ◌==◌, int, Bool-cases,
  Option-cases, inl, inr, if◌then◌else◌,
}
use api_gateway_with_abuse_d.Redis.{get}
use api_gateway_with_abuse_d.Redis.Keys.{failed_auth}
use api_gateway_with_abuse_d.Platform.{Platform, User}
use api_gateway_with_abuse_d.Config.{Settings}
use api_gateway_with_abuse_d.World.{
  World, Exec, Result, ok, err, value_error, connection_error, http_error,
}
use api_gateway_with_abuse_d.World.Exec.{continue, pure, raise}
use api_gateway_with_abuse_d.World.Http.{Request, or_else}
use api_gateway_with_abuse_d.Core.Security.{verify_password}
use api_gateway_with_abuse_d.Services.AbuseDetector.{
  int_or_zero, is_credential_stuffing, record_auth_failure, stuffing_verdict,
}
use api_gateway_with_abuse_d.Routers.Auth.{login, attempt_login}

-- What a counter reads as, without a world.
abbrev pub parsed_counter : Option ℕ → Result ℕ
parsed_counter none = err value_error
parsed_counter (some n) = ok n

abbrev pub counter : Option String → Result ℕ
counter none = ok 0
counter (some s) = if s == "" then ok 0 else parsed_counter (int s)

int_or_zero-counter :
    {p : Platform} (raw : Option String) (w : World p) → int_or_zero raw w ≡ (counter raw, w)
int_or_zero-counter none w = refl
int_or_zero-counter (some s) w = elim (Bool-cases (s == "")) [
  | inl empty ↦ rw empty refl
  | inr digits ↦ elim (Option-cases (int s)) [
    | inl bad ↦ rw (digits, bad) refl
    | inr (m, good) ↦ rw (digits, good) refl
  ]
]

-- The verdict on two counters.
abbrev pub both : ℕ → ℕ → Result ℕ → Result ℕ → Result (Bool × String)
both a b (err e) n = err e
both a b (ok m) (err e) = err e
both a b (ok m) (ok n) = ok (stuffing_verdict m n a b)

one_counter :
    {p : Platform} (a b m : ℕ) (n : Result ℕ) (w : World p)
    → continue (n, w) (λ j. pure (stuffing_verdict m j a b)) ≡ (both a b (ok m) n, w)
one_counter a b m (err e) w = refl
one_counter a b m (ok n) w = refl

two_counters :
    {p : Platform} (a b : ℕ) (m : Result ℕ) (raw : Option String) (w : World p)
    → continue (m, w) (λ i v. continue (int_or_zero raw v) (λ j. pure (stuffing_verdict i j a b)))
      ≡ (both a b m (counter raw), w)
two_counters a b (err e) raw w = refl
two_counters a b (ok m) raw w = rw (int_or_zero-counter raw w) (one_counter a b m (counter raw) w)

-- The check reads only the store and the clock.
pub is_credential_stuffing-reads :
    (p : Platform) (ip username : String) (a b : ℕ) (w : World p)
    → w.redis_up ≡ true
    → is_credential_stuffing p ip username a b w ≡ (
      both a b
          (counter (get p.redis w.now (failed_auth ip) w.db))
          (counter (get p.redis w.now (failed_auth username) w.db)),
      w,
    )
unfolding is_credential_stuffing
is_credential_stuffing-reads p ip username a b w up =
    simp (up, int_or_zero-counter (get p.redis w.now (failed_auth ip) w.db) w)
      (two_counters a b (counter (get p.redis w.now (failed_auth ip) w.db))
        (get p.redis w.now (failed_auth username) w.db) w)

pub is_credential_stuffing-down :
    (p : Platform) (ip username : String) (a b : ℕ) (w : World p)
    → w.redis_up ≡ false
    → is_credential_stuffing p ip username a b w ≡ (err connection_error, w)
unfolding is_credential_stuffing
is_credential_stuffing-down p ip username a b w down = rw down refl

pub is_credential_stuffing-keeps :
    (p : Platform) (ip username : String) (a b : ℕ) (w : World p)
    → (is_credential_stuffing p ip username a b w).1 ≡ w
is_credential_stuffing-keeps p ip username a b w = elim (Bool-cases w.redis_up) [
  | inl up ↦ rw (is_credential_stuffing-reads p ip username a b w up) refl
  | inr down ↦ rw (is_credential_stuffing-down p ip username a b w down) refl
]

abbrev pub with_users : {p : Platform} → p.users.Table → World p → World p
with_users users w = record w { users = users }

module _ (p : Platform) (settings : Settings) (ip username password : String) (u : User)
    (other : p.users.Table) where
  abbrev IsHidden : {A : Type 0} → Exec p A → World p → Type 0
  IsHidden m w = m (with_users other w) ≡ ((m w).0, with_users other (m w).1)

  attempt_login-hides :
      (w : World p)
      → p.users.select username w.users ≡ none
      → p.users.select username other ≡ some u
      → p.bcrypt.checkpw password u.hashed_password ≡ some false
      → IsHidden (attempt_login p settings ip username password) w
  unfolding verify_password record_auth_failure
  attempt_login-hides w unknown known wrong =
      elim (Option-cases (p.users.select_error w.now username)) [
        | inr (e, lost) ↦ simp lost
        | inl asked ↦ elim (Bool-cases w.redis_up) [
          | inl up ↦ simp (asked, unknown, known, wrong, up)
          | inr down ↦ simp (asked, unknown, known, wrong, down)
        ]
      ]

  verdict-hides :
      (r : Result (Bool × String)) (w : World p)
      → p.users.select username w.users ≡ none
      → p.users.select username other ≡ some u
      → p.bcrypt.checkpw password u.hashed_password ≡ some false
      → IsHidden
          (λ v.
            continue
              (r, v)
              (λ verdict.
                if verdict.0
                then raise (http_error 403 "Too many failed attempts" [])
                else attempt_login p settings ip username password))
          w
  verdict-hides (err e) w unknown known wrong = refl
  verdict-hides (ok (true, reason)) w unknown known wrong = refl
  verdict-hides (ok (false, reason)) w unknown known wrong =
      attempt_login-hides w unknown known wrong

-- The two logins, step by step.
login-with_users :
    (p : Platform) (settings : Settings) (username password : String) (request : Request) (u : User)
    (other : p.users.Table) (w : World p)
    → p.users.select username w.users ≡ none
    → p.users.select username other ≡ some u
    → p.bcrypt.checkpw password u.hashed_password ≡ some false
    → login p settings username password request (with_users other w) ≡ (
      (login p settings username password request w).0,
      with_users other (login p settings username password request w).1,
    )
unfolding login
login-with_users p settings username password request u other w unknown known wrong =
    let ip = or_else request.host "unknown" in
    let a = settings.auth_failure_ip_threshold in
    let b = settings.auth_failure_user_threshold in
    elim (Bool-cases w.redis_up) [
      | inl up ↦
          rw
            (
              is_credential_stuffing-reads p ip username a b w up,
              is_credential_stuffing-reads p ip username a b (with_users other w) up,
            )
            (verdict-hides p settings ip username password u other
              (both a b (counter (get p.redis w.now (failed_auth ip) w.db))
                (counter (get p.redis w.now (failed_auth username) w.db)))
              w unknown known wrong)
      | inr down ↦
          rw
            (
              is_credential_stuffing-down p ip username a b w down,
              is_credential_stuffing-down p ip username a b (with_users other w) down,
            )
            refl
    ]

-- A login for a user of the table, with a wrong password that bcrypt can check (of at most 72 bytes),
-- has the same answer as when the table has no such user, and leaves the same counters in Redis.
-- Redis or the database may be down. The time that bcrypt takes, which is spent only for a user that
-- is there, is left out.
pub login-hides_users :
    (p : Platform) (settings : Settings) (username password : String) (request : Request) (u : User)
    (other : p.users.Table) (w : World p)
    → p.users.select username w.users ≡ none
    → p.users.select username other ≡ some u
    → p.bcrypt.checkpw password u.hashed_password ≡ some false
    → ((login p settings username password request (with_users other w)).0
        ≡ (login p settings username password request w).0)
      × ((login p settings username password request (with_users other w)).1.db
          ≡ (login p settings username password request w).1.db)
login-hides_users p settings username password request u other w unknown known wrong =
    let same =
      login-with_users p settings username password request u other w unknown known wrong in
    (ap (λ r. r.0) same, ap (λ r. r.1.db) same)
