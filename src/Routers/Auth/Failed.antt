-- ===== src/Routers/Auth/Failed.antt =====
-- app/routers/auth.py: a login that fails is counted, and a login that is counted out is refused.
use api_gateway_with_abuse_d.Redis.{Cell, live, incr_cell, expire_cell}
use api_gateway_with_abuse_d.Prelude.{
  eq_refl, ℕ, String, ◌≡◌, refl, sym, ◌∙◌, ap, Bool, true, false, Option, none, some, [], ◌==◌, int,
  Bool-cases, Option-cases, inl, inr, if◌then◌else◌, ◌≢◌,
}
use api_gateway_with_abuse_d.Redis.{get}
use api_gateway_with_abuse_d.Redis.Keys.{failed_auth}
use api_gateway_with_abuse_d.Platform.{Platform}
use api_gateway_with_abuse_d.Config.{Settings}
use api_gateway_with_abuse_d.World.{
  World, Exn, Result, ok, err, value_error, connection_error, password_error, database_error,
  http_error,
}
use api_gateway_with_abuse_d.World.Exec.{continue, raise}
use api_gateway_with_abuse_d.World.Http.{Request, Response, or_else}
use api_gateway_with_abuse_d.World.Inversion.{err≢ok, err_injective, continue-ok}
use api_gateway_with_abuse_d.Core.Security.{verify_password, create_access_token}
use api_gateway_with_abuse_d.Services.AbuseDetector.{is_credential_stuffing, record_auth_failure}
use api_gateway_with_abuse_d.Routers.Auth.{login, attempt_login}
use api_gateway_with_abuse_d.Routers.Auth.Login.{
  counter, both, is_credential_stuffing-reads, is_credential_stuffing-down,
  is_credential_stuffing-keeps,
}

-- A login that the counters refuse writes nothing, and asks neither the table nor the password.
pub login-refused :
    (p : Platform) (settings : Settings) (username password reason : String) (request : Request)
    (w : World p)
    → (is_credential_stuffing p
        (or_else request.host "unknown")
        username
        settings.auth_failure_ip_threshold
        settings.auth_failure_user_threshold
        w).0
      ≡ ok (true, reason)
    → login p settings username password request w
      ≡ (err (http_error 403 "Too many failed attempts" []), w)
unfolding login
login-refused p settings username password reason request w counted =
    continue-ok
      (is_credential_stuffing p (or_else request.host "unknown") username
        settings.auth_failure_ip_threshold settings.auth_failure_user_threshold w)
      _ counted
    ∙ ap (λ v. (err (http_error 403 "Too many failed attempts" []), v))
        (is_credential_stuffing-keeps p (or_else request.host "unknown") username
          settings.auth_failure_ip_threshold settings.auth_failure_user_threshold w)

-- The answer to a wrong name or password.
abbrev pub invalid : {A : Type 0} → Result A
invalid = err (http_error 401 "Invalid credentials" [])

counter-other : (raw : Option String) → counter raw ≢ invalid
counter-other none h = absurd (err≢ok (sym h))
counter-other (some s) h = elim (Bool-cases (s == "")) [
  | inl empty ↦ absurd (err≢ok (sym (rw empty at h)))
  | inr digits ↦ elim (Option-cases (int s)) [
    | inl bad ↦ (let other : err value_error ≡ invalid {A = ℕ} = rw (digits, bad) at h in cc)
    | inr (m, good) ↦ absurd (err≢ok (sym (rw (digits, good) at h)))
  ]
]

both-other : (a b : ℕ) (m n : Result ℕ) → m ≢ invalid → n ≢ invalid → both a b m n ≢ invalid
both-other a b (err e) n hm hn h = hm (ap err (err_injective (err e) refl h))
both-other a b (ok m) (err e) hm hn h = hn (ap err (err_injective (err e) refl h))
both-other a b (ok m) (ok n) hm hn h = err≢ok (sym h)

-- A bind that ends in a raise ends in the world of its first part.
raised_after :
    {p : Platform} {A : Type 0} (B : Type 0) (r : Result A × World p) (e : Exn)
    → (continue {B = B} r (λ _. raise e)).1 ≡ r.1
raised_after B (ok a, v) e = refl
raised_after B (err d, v) e = refl

module _ (p : Platform) (settings : Settings) (ip username password : String) where
  attempt_login-counts :
      (w : World p)
      → (attempt_login p settings ip username password w).0 ≡ invalid
      → (attempt_login p settings ip username password w).1
        ≡ (record_auth_failure p ip username settings.auth_failure_window_seconds w).1
  unfolding verify_password create_access_token
  attempt_login-counts w h = elim (Option-cases (p.users.select_error w.now username)) [
    | inr (e, lost) ↦
        (let other : err (database_error e) ≡ invalid {A = Response} = rw lost at h in cc)
    | inl asked ↦ elim (Option-cases (p.users.select username w.users)) [
      | inl unknown ↦
          simp (asked, unknown)
            (raised_after Response
              (record_auth_failure p ip username settings.auth_failure_window_seconds w) _)
      | inr (u, known) ↦ elim (Option-cases (p.bcrypt.checkpw password u.hashed_password)) [
        | inl long ↦
            (let other : err password_error ≡ invalid {A = Response} =
                rw (asked, known, long) at h in
              cc)
        | inr (good, checked) ↦ elim (Bool-cases good) [
          | inl right ↦ absurd (err≢ok (sym (simp (asked, known, checked, right) at h)))
          | inr wrong ↦
              simp (asked, known, checked, wrong)
                (raised_after Response
                  (record_auth_failure p ip username settings.auth_failure_window_seconds w) _)
        ]
      ]
    ]
  ]

  verdict-counts :
      (r : Result (Bool × String)) (w : World p)
      → r ≢ invalid
      → (continue
          (r, w)
          (λ verdict.
            if verdict.0
            then raise (http_error 403 "Too many failed attempts" [])
            else attempt_login p settings ip username password)).0
        ≡ invalid
      → (continue
          (r, w)
          (λ verdict.
            if verdict.0
            then raise (http_error 403 "Too many failed attempts" [])
            else attempt_login p settings ip username password)).1
        ≡ (record_auth_failure p ip username settings.auth_failure_window_seconds w).1
  verdict-counts (err e) w other h = absurd (other (ap err (err_injective (err e) refl h)))
  verdict-counts (ok (true, reason)) w other h = cc
  verdict-counts (ok (false, reason)) w other h = attempt_login-counts w h

-- What a login that is answered 401 leaves behind.
pub login-record_auth_failure :
    (p : Platform) (settings : Settings) (username password : String) (request : Request)
    (w : World p)
    → (login p settings username password request w).0 ≡ invalid
    → (login p settings username password request w).1
      ≡ (record_auth_failure p
          (or_else request.host "unknown")
          username
          settings.auth_failure_window_seconds
          w).1
unfolding login
login-record_auth_failure p settings username password request w h =
    let ip = or_else request.host "unknown" in
    let a = settings.auth_failure_ip_threshold in
    let b = settings.auth_failure_user_threshold in
    elim (Bool-cases w.redis_up) [
      | inl up ↦
          let reads = is_credential_stuffing-reads p ip username a b w up in
          let first = get p.redis w.now (failed_auth ip) w.db in
          let next = get p.redis w.now (failed_auth username) w.db in
          rw reads (
            verdict-counts p settings ip username password (both a b (counter first) (counter next))
              w
              (both-other a b (counter first) (counter next) (counter-other first)
                (counter-other next))
              (rw reads at h))
      | inr down ↦
          let refused = is_credential_stuffing-down p ip username a b w down in
          let other : err connection_error ≡ invalid {A = Response} = rw refused at h in cc
    ]

invalid-up :
    (p : Platform) (settings : Settings) (username password : String) (request : Request)
    (w : World p)
    → (login p settings username password request w).0 ≡ invalid
    → w.redis_up ≡ true
unfolding login
invalid-up p settings username password request w h = elim (Bool-cases w.redis_up) [
  | inl up ↦ up
  | inr down ↦
      let refused =
        is_credential_stuffing-down p (or_else request.host "unknown") username
          settings.auth_failure_ip_threshold settings.auth_failure_user_threshold w down in
      let other : err connection_error ≡ invalid {A = Response} = rw refused at h in cc
]

-- A counter after a failed login: one more than it was while it was alive, and alive for the whole
-- window from now on.
abbrev pub counted : ℕ → ℕ → Option Cell → Option Cell
counted t window cell = expire_cell t window (live t (incr_cell (live t cell)))

-- The keys of the store after one more failure on an axis.
abbrev pub count_for : ℕ → ℕ → String → (String → Option Cell) → String → Option Cell
count_for t window who cells j =
    if failed_auth who == j then counted t window (cells (failed_auth who)) else cells j

cell-counted :
    (p : Platform) (t window : ℕ) (k j : String) (db : p.redis.Db)
    → p.redis.cell j (p.redis.expire t k window (p.redis.incr t k db))
      ≡ (if k == j then counted t window (p.redis.cell k db) else p.redis.cell j db)
cell-counted p t window k j db = elim (Bool-cases (k == j)) [
  | inl own ↦ rw (p.redis.cell-expire, own, p.redis.cell-incr, eq_refl) refl
  | inr other ↦ rw (p.redis.cell-expire, other, p.redis.cell-incr, other) refl
]

-- A login that is answered 401 has been counted for the address and then for the name: each of the
-- two counters is one more than it was, or 1 if it was missing or past its expiry, and expires a
-- window from now. Every other key is as it was, and so is everything besides the store.
pub login-counts :
    (p : Platform) (settings : Settings) (username password : String) (request : Request)
    (w : World p)
    → (login p settings username password request w).0 ≡ invalid
    → ((login p settings username password request w).1
        ≡ record w { db = (login p settings username password request w).1.db })
      × ((j : String)
          → p.redis.cell j (login p settings username password request w).1.db
            ≡ count_for w.now settings.auth_failure_window_seconds username
                (count_for w.now settings.auth_failure_window_seconds
                  (or_else request.host "unknown")
                  (λ k. p.redis.cell k w.db))
                j)
unfolding record_auth_failure
login-counts p settings username password request w h =
    let ip = or_else request.host "unknown" in
    let window = settings.auth_failure_window_seconds in
    let step = login-record_auth_failure p settings username password request w h in
    let up = invalid-up p settings username password request w h in
    let once =
      p.redis.expire w.now (failed_auth ip) window (p.redis.incr w.now (failed_auth ip) w.db) in
    (
      rw step (rw up refl),
      λ j. rw step (
          rw up (
            cell-counted p w.now window (failed_auth username) j once
            ∙ rw
                (
                  cell-counted p w.now window (failed_auth ip) (failed_auth username) w.db,
                  cell-counted p w.now window (failed_auth ip) j w.db,
                )
                refl)),
    )
