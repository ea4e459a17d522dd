-- ===== src/Services/RateLimiter/Window.antt =====
-- Runs of `check_rate_limit` from any clients at any times, against the log of one client.
use api_gateway_with_abuse_d.Prelude.{
  ℕ, ◌-◌, ◌≤◌, ◌<◌, String, ◌≡◌, refl, subst, ◌∙◌, Bool, true, false, ◌&&◌, none, List, [], ◌∷◌,
  arith, ltb, ◌==◌, eq_iff, if◌then◌else◌, count, Bool-cases, inl, inr, append-==,
}
use api_gateway_with_abuse_d.Redis.{Redis}
use api_gateway_with_abuse_d.Redis.Keys.{rate_limit}
use api_gateway_with_abuse_d.Platform.{Platform}
use api_gateway_with_abuse_d.World.{World, Result, ok}
use api_gateway_with_abuse_d.World.Exec.{at_time}
use api_gateway_with_abuse_d.Services.RateLimiter.{check_rate_limit}
use api_gateway_with_abuse_d.Services.RateLimiter.Frame.{
  cell-check_rate_limit, check_rate_limit-keeps, Agrees-of_cell,
}
use api_gateway_with_abuse_d.Services.RateLimiter.Step.{
  in_window, Agrees, length-pruned, pruned-Agrees, added-Agrees,
}

-- The limiter that the design promises: an exact log of the admitted times, newest first.
unfoldable pub log_check : ℕ → ℕ → ℕ → List ℕ → (Bool × ℕ) × List ℕ
log_check window limit t admitted =
    let n = count (in_window window t) admitted in
    if ltb n limit then ((true, limit - n - 1), t ∷ admitted) else ((false, 0), admitted)

-- While Redis is up, a call that comes after the last admission of its client, on a store that agrees
-- with a log of the client, answers as the log does: whether it is admitted, and how many are left;
-- and it leaves a store that agrees with the new log.
pub check_rate_limit-log :
    (p : Platform) (client_id : String) (limit window last : ℕ) (admitted : List ℕ) (w : World p)
    → w.redis_up ≡ true
    → last < w.now
    → Agrees p.redis client_id window last admitted w.db
    → ((check_rate_limit p client_id limit window w).0
        ≡ ok (log_check window limit w.now admitted).0)
      × Agrees p.redis client_id window w.now
          (log_check window limit w.now admitted).1
          (check_rate_limit p client_id limit window w).1.db
unfolding check_rate_limit log_check
check_rate_limit-log p client_id limit window last admitted w up lt agrees =
    elim (Bool-cases (ltb (count (in_window window w.now) admitted) limit)) [
      | inl room ↦
          rw (up, length-pruned p.redis client_id window agrees w.now (omega arith), room)
            (refl, added-Agrees p.redis client_id window agrees w.now lt)
      | inr full ↦
          rw (up, length-pruned p.redis client_id window agrees w.now (omega arith), full)
            (refl, pruned-Agrees p.redis client_id window agrees w.now (omega arith))
    ]

-- A call at a time of the clock, with its client and its answer.
pub record Call (p : Platform) : Type 0 where
  pub client_id : String
  pub time : ℕ
  pub answer : Result (Bool × ℕ)

-- Calls one after another, the clock set by the environment.
pub run_checks : (p : Platform) → ℕ → ℕ → List (String × ℕ) → World p → List (Call p)
run_checks p limit window [] w = []
run_checks p limit window ((client_id, t) ∷ calls) w =
    let (answer, w') = check_rate_limit p client_id limit window (at_time t w) in
    record { client_id = client_id; time = t; answer = answer } ∷ run_checks p limit window calls w'

abbrev pub was_admitted : Result (Bool × ℕ) → Bool
was_admitted (ok (allowed, remaining)) = allowed
was_admitted _ = false

-- The times at which a client was admitted, newest first, on top of the earlier ones.
pub admitted_of : {p : Platform} → String → List (Call p) → List ℕ → List ℕ
admitted_of c [] admitted = admitted
admitted_of c (x ∷ xs) admitted =
    admitted_of c xs
      (if x.client_id == c && was_admitted x.answer then x.time ∷ admitted else admitted)

-- The clock moves on between two calls of the client; others may call at any time.
abbrev pub Advances : String → ℕ → List (String × ℕ) → Type 0
Advances c last [] = Unit
Advances c last ((d, t) ∷ calls) =
    (if d == c then last < t else Unit) × Advances c (if d == c then t else last) calls

-- Every admission sees at most `limit` of them, itself included, in the window that it ends.
abbrev pub IsWithin : ℕ → ℕ → List ℕ → Type 0
IsWithin window limit [] = Unit
IsWithin window limit (t ∷ admitted) =
    (count (in_window window t) (t ∷ admitted) ≤ limit) × IsWithin window limit admitted

log_check-IsWithin :
    (window limit t : ℕ) (admitted : List ℕ)
    → IsWithin window limit admitted
    → IsWithin window limit (log_check window limit t admitted).1
unfolding log_check
log_check-IsWithin window limit t admitted h =
    elim (Bool-cases (ltb (count (in_window window t) admitted) limit)) [
      | inl room ↦ rw room (ground arith, h)
      | inr full ↦ rw full h
    ]

log_check-admits :
    (window limit t : ℕ) (admitted : List ℕ)
    → (log_check window limit t admitted).1
      ≡ (if (log_check window limit t admitted).0.0 then t ∷ admitted else admitted)
unfolding log_check
log_check-admits window limit t admitted = ground arith

pub Agrees-init :
    (redis : Redis) (client_id : String) (window last : ℕ) (db : redis.Db)
    → redis.cell (rate_limit client_id) db ≡ none
    → Agrees redis client_id window last [] db
Agrees-init redis client_id window last db e = record {
  typed = rw e tt;
  bounded = tt;
  counts = λ t x h k. rw e;
  owned = λ t h. rw e tt;
}

run_checks-step :
    (p : Platform) (c : String) (limit window : ℕ) (d : String) (t : ℕ) (calls : List (String × ℕ))
    (admitted : List ℕ) (w : World p)
    → admitted_of c (run_checks p limit window ((d, t) ∷ calls) w) admitted
      ≡ admitted_of c
          (run_checks p limit window calls (check_rate_limit p d limit window (at_time t w)).1)
          (if d == c && was_admitted (check_rate_limit p d limit window (at_time t w)).0
            then t ∷ admitted
            else admitted)
unfolding run_checks admitted_of
run_checks-step p c limit window d t calls admitted w = refl

run_checks-IsWithin :
    (p : Platform) (c : String) (limit window last : ℕ) (calls : List (String × ℕ))
    (admitted : List ℕ) (w : World p)
    → w.redis_up ≡ true
    → Advances c last calls
    → Agrees p.redis c window last admitted w.db
    → IsWithin window limit admitted
    → IsWithin window limit (admitted_of c (run_checks p limit window calls w) admitted)
run_checks-IsWithin p c limit window last [] admitted w up adv agrees h =
    unfold run_checks admitted_of in h
run_checks-IsWithin p c limit window last ((d, t) ∷ calls) admitted w up (lt, adv) agrees h =
    let next = (check_rate_limit p d limit window (at_time t w)).1 in
    let kept = check_rate_limit-keeps p d limit window (at_time t w) in
    elim (Bool-cases (d == c)) [
      | inl own ↦
          let same = (eq_iff d c).0 own in
          let (answer, agrees') =
            check_rate_limit-log p d limit window last admitted (at_time t w) up (rw own at lt)
              (rw same agrees) in
          rw (run_checks-step, own, answer, ← log_check-admits window limit t admitted)
            (run_checks-IsWithin p c limit window t calls (log_check window limit t admitted).1 next
              (kept.0 ∙ up) (rw own at adv)
              (subst (λ x. Agrees p.redis x window t (log_check window limit t admitted).1 next.db)
                same agrees')
              (log_check-IsWithin window limit t admitted h))
      | inr other ↦
          rw (run_checks-step, other)
            (run_checks-IsWithin p c limit window last calls admitted next (kept.0 ∙ up)
              (rw other at adv)
              (Agrees-of_cell p.redis c window last admitted w.db next.db
                (cell-check_rate_limit p d limit window (at_time t w) (rate_limit c)
                  (append-== "rate_limit:" d c ∙ other))
                agrees)
              h)
    ]

-- Whatever clients call `check_rate_limit` with one limit and one window, in whatever order and at
-- whatever times, as long as Redis is up and the clock moves on between two calls of one client:
-- each admission of a client whose key did not exist before sees at most `limit` admissions of
-- that client, itself included, in the `window` seconds that end with it.
pub run_checks-never-exceeds :
    (p : Platform) (c : String) (limit window start : ℕ) (calls : List (String × ℕ)) (w : World p)
    → w.redis_up ≡ true
    → p.redis.cell (rate_limit c) w.db ≡ none
    → Advances c start calls
    → IsWithin window limit (admitted_of c (run_checks p limit window calls w) [])
run_checks-never-exceeds p c limit window start calls w up missing adv =
    run_checks-IsWithin p c limit window start calls [] w up adv
      (Agrees-init p.redis c window start w.db missing) tt
