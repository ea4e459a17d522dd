-- ===== src/Services/RateLimiter/Burst.antt =====
-- app/services/rate_limiter.py: calls of one client within one millisecond.
use api_gateway_with_abuse_d.Prelude.{
  ℕ, zero, suc, ◌+◌, ◌*◌, ◌≤◌, ◌<◌, String, ◌≡◌, refl, ◌∙◌, ◌⊎◌, inl, inr, Bool, true, none, List,
  [], ◌∷◌, arith, eq_refl, length, keep, All, lt→ltb,
}
use api_gateway_with_abuse_d.Prelude.Int.{sub_ℕ}
use api_gateway_with_abuse_d.Redis.{Redis, zrange, Scored, outside, insert_scored, insert_sorted}
use api_gateway_with_abuse_d.Redis.SortedSet.{IsSortedSet}
use api_gateway_with_abuse_d.Redis.Keys.{rate_limit}
use api_gateway_with_abuse_d.Platform.{Platform}
use api_gateway_with_abuse_d.World.{World, Result}
use api_gateway_with_abuse_d.Services.RateLimiter.Window.{was_admitted}
use api_gateway_with_abuse_d.Services.RateLimiter.Frame.{check_rate_limit-keeps}
use api_gateway_with_abuse_d.Services.RateLimiter.{check_rate_limit, request_id_of}
use api_gateway_with_abuse_d.Services.RateLimiter.Effects.{
  pruned, added, zrange-pruned, pruned-IsSortedSet, zrange-added_typed, added_key-IsSortedSet,
}

abbrev pub entry : ℕ → String → Scored
entry t client_id = record { member = request_id_of t client_id; score = t }

-- All that the key can hold when every call so far came at the time `t`.
record IsBurst (redis : Redis) (client_id : String) (t : ℕ) (db : redis.Db) : Type 0 where
  typed : IsSortedSet (redis.cell (rate_limit client_id) db)
  held :
      (zrange redis t (rate_limit client_id) db ≡ [])
      ⊎ (zrange redis t (rate_limit client_id) db ≡ entry t client_id ∷ [])

inserted_once :
    (t : ℕ) (client_id : String) (xs : List Scored)
    → (xs ≡ []) ⊎ (xs ≡ entry t client_id ∷ [])
    → insert_scored (entry t client_id) xs ≡ entry t client_id ∷ []
unfolding insert_sorted
inserted_once t client_id xs (inl e) = rw e
inserted_once t client_id xs (inr e) = rw e (rw eq_refl)

entry-kept :
    (t w : ℕ) (client_id : String) → 0 < w → outside 0 (sub_ℕ t w) (entry t client_id) ≡ true
entry-kept t w client_id h = ground arith

kept_burst :
    (t w : ℕ) (client_id : String) (xs : List Scored)
    → 0 < w
    → (xs ≡ []) ⊎ (xs ≡ entry t client_id ∷ [])
    → (keep (outside 0 (sub_ℕ t w)) xs ≡ [])
      ⊎ (keep (outside 0 (sub_ℕ t w)) xs ≡ entry t client_id ∷ [])
kept_burst t w client_id xs h (inl e) = inl (rw e)
kept_burst t w client_id xs h (inr e) = inr (rw (e, entry-kept t w client_id h))

length_burst :
    (t : ℕ) (client_id : String) (xs : List Scored)
    → (xs ≡ []) ⊎ (xs ≡ entry t client_id ∷ [])
    → length xs ≤ 1
length_burst t client_id xs (inl e) = rw e (omega arith)
length_burst t client_id xs (inr e) = rw e (omega arith)

-- `n` calls of the client with the clock standing still.
pub burst : (p : Platform) → String → ℕ → ℕ → ℕ → World p → List (Result (Bool × ℕ))
burst p client_id limit window zero w = []
burst p client_id limit window (suc n) w =
    let (answer, w') = check_rate_limit p client_id limit window w in
    answer ∷ burst p client_id limit window n w'

module _ (p : Platform) (client_id : String) (limit window : ℕ) (enough : 2 ≤ limit)
    (some_window : 0 < window) where
  pruned-IsBurst :
      (t : ℕ) (db : p.redis.Db)
      → IsBurst p.redis client_id t db
      → IsBurst p.redis client_id t (pruned p.redis client_id window t db)
  pruned-IsBurst t db b = record {
    typed = pruned-IsSortedSet p.redis client_id window db b.typed t;
    held =
        rw (zrange-pruned p.redis client_id window db b.typed t t (omega arith))
          (kept_burst t (window * 1000) client_id _ (omega arith) b.held);
  }

  added-IsBurst :
      (t : ℕ) (db : p.redis.Db)
      → IsBurst p.redis client_id t db
      → IsBurst p.redis client_id t (added p.redis client_id window t db)
  added-IsBurst t db b = record {
    typed = added_key-IsSortedSet p.redis client_id window db b.typed t;
    held = inr (
        zrange-added_typed p.redis client_id window db b.typed t t
        ∙ rw (lt→ltb t (t + (window + 1) * 1000) (omega arith))
            (inserted_once t client_id _ b.held));
  }

  check_rate_limit-IsBurst :
      (w : World p)
      → w.redis_up ≡ true
      → IsBurst p.redis client_id w.now w.db
      → (was_admitted (check_rate_limit p client_id limit window w).0 ≡ true)
        × IsBurst p.redis client_id w.now (check_rate_limit p client_id limit window w).1.db
  unfolding check_rate_limit
  check_rate_limit-IsBurst w up b =
      let b' = pruned-IsBurst w.now w.db b in
      rw
        (
          up,
          lt→ltb
              (length (
                zrange p.redis w.now (rate_limit client_id)
                  (pruned p.redis client_id window w.now w.db)))
              limit (omega (arith, length_burst w.now client_id _ b'.held)),
        )
        (refl, added-IsBurst w.now _ b')

  burst-IsBurst :
      (n : ℕ) (w : World p)
      → w.redis_up ≡ true
      → IsBurst p.redis client_id w.now w.db
      → All (λ answer. was_admitted answer ≡ true) (burst p client_id limit window n w)
  unfolding burst
  burst-IsBurst zero w up b = tt
  burst-IsBurst (suc n) w up b =
      let (admitted, b') = check_rate_limit-IsBurst w up b in
      let kept = check_rate_limit-keeps p client_id limit window w in
      (admitted, burst-IsBurst n _ (kept.0 ∙ up) (rw kept.1 b'))

-- The members of the sorted set are `<ms>-<client>`, so that calls of one client in one millisecond
-- count as one: with a limit of two or more, a window that is not empty, and Redis up, a client
-- whose key did not exist before is admitted at every one of `n` such calls, whatever `n` is.
pub burst-admitted :
    (p : Platform) (client_id : String) (limit window n : ℕ) (w : World p)
    → 2 ≤ limit
    → 0 < window
    → w.redis_up ≡ true
    → p.redis.cell (rate_limit client_id) w.db ≡ none
    → All (λ answer. was_admitted answer ≡ true) (burst p client_id limit window n w)
burst-admitted p client_id limit window n w enough some_window up missing =
    burst-IsBurst p client_id limit window enough some_window n w up
      (record { typed = rw missing tt; held = inl (rw missing) })
