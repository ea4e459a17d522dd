-- ===== src/Services/AbuseDetector/Failures.antt =====
-- app/services/abuse_detector.py: runs of failed logins, and the counter that they leave.
use api_gateway_with_abuse_d.Prelude.{
  ℕ, suc, ◌+◌, ◌*◌, ◌<◌, String, ◌≡◌, refl, sym, ◌∙◌, true, false, not, Option, none, some, List,
  [], ◌∷◌, arith, ◌==◌, eq_refl, eq_iff, append-==, All, Bool-cases, Option-cases, inl, inr, length,
  str, int, int-str, str-one, str-ne_empty, subst, ltb, lt→ltb,
}
use api_gateway_with_abuse_d.Redis.{Cell, text, get, live, incr_cell, expire_cell}
use api_gateway_with_abuse_d.Redis.Keys.{failed_auth}
use api_gateway_with_abuse_d.Platform.{Platform}
use api_gateway_with_abuse_d.World.{World, ok}
use api_gateway_with_abuse_d.World.Inversion.{err≢ok}
use api_gateway_with_abuse_d.World.Exec.{at_time}
use api_gateway_with_abuse_d.Services.AbuseDetector.{record_auth_failure, int_or_zero}

-- A counter that can be read is read without an effect.
pub int_or_zero-read :
    {p : Platform} (raw : Option String) (v w : World p) (n : ℕ)
    → (int_or_zero raw v).0 ≡ ok n
    → int_or_zero raw w ≡ (ok n, w)
int_or_zero-read none v w n h = rw h refl
int_or_zero-read (some s) v w n h = elim (Bool-cases (s == "")) [
  | inl empty ↦ rw (empty, rw empty at h) refl
  | inr digits ↦ elim (Option-cases (int s)) [
    | inl bad ↦ absurd (err≢ok (rw (digits, bad) at h))
    | inr (m, good) ↦ rw (digits, good, rw (digits, good) at h) refl
  ]
]

no_more : (n : ℕ) → n ≡ n + 0
no_more n = omega arith

one_more : (n m : ℕ) → n + 1 + m ≡ n + suc m
one_more n m = omega arith

-- A failed login: the time since the one before in milliseconds, its address, and the name that was
-- tried.
pub record Failure : Type 0 where
  pub wait : ℕ
  pub ip : String
  pub username : String

abbrev pub waited : {p : Platform} → ℕ → World p → World p
waited t w = at_time (w.now + t) w

module _ (p : Platform) (window : ℕ) where
  abbrev pub after_failure : Failure → World p → World p
  after_failure f w = (record_auth_failure p f.ip f.username window (waited f.wait w)).1

  unfoldable pub record_failures : List Failure → World p → World p
  record_failures [] w = w
  record_failures (f ∷ rest) w = record_failures rest (after_failure f w)

-- A failure in which an address or a name occurs once: as the address, or as the name.
abbrev pub IsHit : String → Failure → Type 0
IsHit who f = (f.ip == who) ≡ not (f.username == who)

module _ (p : Platform) (window : ℕ) (who : String) where
  -- Each hits `who`, and comes before the window of the one before has ended.
  abbrev pub IsBurst : List Failure → Type 0
  IsBurst = All (λ f. (f.wait < window * 1000) × IsHit who f)

  -- The counter of `who` holds a number, and lives for a window.
  pub Counts : ℕ → World p → Type 0
  Counts n w =
      (p.redis.cell (failed_auth who) w.db
        ≡ some (record { value = text (str n); deadline = some (w.now + window * 1000) }))
      × (w.redis_up ≡ true)

  -- What one failure makes of the counter.
  counted_cell : World p → Option Cell
  counted_cell v =
      expire_cell v.now window
        (live v.now (incr_cell (live v.now (p.redis.cell (failed_auth who) v.db))))

  cell-as_address :
      (username : String) (v : World p)
      → v.redis_up ≡ true
      → (username == who) ≡ false
      → p.redis.cell (failed_auth who) (record_auth_failure p who username window v).1.db
        ≡ counted_cell v
  unfolding record_auth_failure counted_cell
  cell-as_address username v up other =
      simp (up, p.redis.cell-expire, p.redis.cell-incr, append-==, other, eq_refl)

  cell-as_name :
      (ip : String) (v : World p)
      → v.redis_up ≡ true
      → (ip == who) ≡ false
      → p.redis.cell (failed_auth who) (record_auth_failure p ip who window v).1.db ≡ counted_cell v
  unfolding record_auth_failure counted_cell
  cell-as_name ip v up other =
      simp (up, p.redis.cell-expire, p.redis.cell-incr, append-==, other, eq_refl)

  cell-record_auth_failure :
      (ip username : String) (v : World p)
      → v.redis_up ≡ true
      → (ip == who) ≡ not (username == who)
      → p.redis.cell (failed_auth who) (record_auth_failure p ip username window v).1.db
        ≡ counted_cell v
  cell-record_auth_failure ip username v up hit = elim (Bool-cases (username == who)) [
    | inl named ↦
        subst
          (λ u.
            p.redis.cell (failed_auth who) (record_auth_failure p ip u window v).1.db
            ≡ counted_cell v)
          (sym ((eq_iff username who).0 named)) (cell-as_name ip v up (rw named at hit))
    | inr other ↦
        subst
          (λ a.
            p.redis.cell (failed_auth who) (record_auth_failure p a username window v).1.db
            ≡ counted_cell v)
          (sym ((eq_iff ip who).0 (rw other at hit))) (cell-as_address username v up other)
  ]

  keeps-record_auth_failure :
      (ip username : String) (v : World p)
      → ((record_auth_failure p ip username window v).1.redis_up ≡ v.redis_up)
        × ((record_auth_failure p ip username window v).1.now ≡ v.now)
  unfolding record_auth_failure
  keeps-record_auth_failure ip username v = ground arith

  first-Counts :
      (f : Failure) (w : World p)
      → w.redis_up ≡ true
      → IsHit who f
      → live (w.now + f.wait) (p.redis.cell (failed_auth who) w.db) ≡ none
      → Counts 1 (after_failure p window f w)
  unfolding Counts counted_cell
  first-Counts f w up hit free =
      let v = at_time (w.now + f.wait) w in
      let (same_up, same_now) = keeps-record_auth_failure f.ip f.username v in
      (
        cell-record_auth_failure f.ip f.username v up hit ∙ rw (free, same_now, str-one) refl,
        same_up ∙ up,
      )

  next-Counts :
      (n : ℕ) (f : Failure) (w : World p)
      → f.wait < window * 1000
      → IsHit who f
      → Counts n w
      → Counts (n + 1) (after_failure p window f w)
  unfolding Counts counted_cell
  next-Counts n f w soon hit (cell, up) =
      let v = at_time (w.now + f.wait) w in
      let (same_up, same_now) = keeps-record_auth_failure f.ip f.username v in
      let alive : ltb (w.now + f.wait) (w.now + window * 1000) ≡ true =
        lt→ltb (w.now + f.wait) (w.now + window * 1000) (omega arith) in
      (
        cell-record_auth_failure f.ip f.username v up hit
            ∙ rw (cell, same_now, alive, alive, int-str n) refl,
        same_up ∙ up,
      )

  record_failures-Counts :
      (n : ℕ) (fs : List Failure) (w : World p)
      → IsBurst fs
      → Counts n w
      → Counts (n + length fs) (record_failures p window fs w)
  unfolding record_failures
  record_failures-Counts n [] w burst c = subst (λ m. Counts m w) (no_more n) c
  record_failures-Counts n (f ∷ fs) w ((soon, hit), burst) c =
      subst (λ m. Counts m (record_failures p window fs (after_failure p window f w)))
        (one_more n (length fs))
        (record_failures-Counts (n + 1) fs (after_failure p window f w) burst
          (next-Counts n f w soon hit c))

  -- What the check of a login reads in the meantime.
  get-counted :
      (n wait : ℕ) (w : World p)
      → Counts n w
      → wait < window * 1000
      → get p.redis (w.now + wait) (failed_auth who) w.db ≡ some (str n)
  unfolding Counts
  get-counted n wait w (cell, up) soon =
      let alive : ltb (w.now + wait) (w.now + window * 1000) ≡ true =
        lt→ltb (w.now + wait) (w.now + window * 1000) (omega arith) in
      rw (cell, alive) refl

  pub counter-counted :
      (n wait : ℕ) (w : World p)
      → Counts n w
      → wait < window * 1000
      → (int_or_zero (get p.redis (w.now + wait) (failed_auth who) w.db) (waited wait w)).0 ≡ ok n
  counter-counted n wait w c soon = rw (get-counted n wait w c soon, str-ne_empty n, int-str n) refl

  pub up-counted : (n : ℕ) (w : World p) → Counts n w → w.redis_up ≡ true
  unfolding Counts
  up-counted n w (cell, up) = up

  pub burst-Counts :
      (f : Failure) (fs : List Failure) (w : World p)
      → w.redis_up ≡ true
      → live (w.now + f.wait) (p.redis.cell (failed_auth who) w.db) ≡ none
      → IsHit who f
      → IsBurst fs
      → Counts (1 + length fs) (record_failures p window (f ∷ fs) w)
  unfolding record_failures
  burst-Counts f fs w up free hit burst =
      record_failures-Counts 1 fs (after_failure p window f w) burst (first-Counts f w up hit free)
