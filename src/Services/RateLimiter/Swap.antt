-- ===== src/Services/RateLimiter/Swap.antt =====
-- app/services/rate_limiter.py: the script is a function of the one key that it is given, so that
-- the order of two requests of different clients does not matter.
use api_gateway_with_abuse_d.Prelude.{
  ℕ, ◌+◌, ◌-◌, ◌*◌, String, ◌≡◌, refl, sym, ap, ◌∙◌, true, false, not, Bool, Option, ltb, eqb,
  length, ◌==◌, ==_comm, eq_refl, eq_iff, arith, append-==, if◌then◌else◌, Bool-cases, inl, inr,
}
use api_gateway_with_abuse_d.Prelude.Int.{sub_ℕ}
use api_gateway_with_abuse_d.Redis.{
  Redis, Cell, live, scored_of, filter_cell, outside, zadd_cell, expire_cell,
}
use api_gateway_with_abuse_d.Redis.Keys.{rate_limit}
use api_gateway_with_abuse_d.Platform.{Platform}
use api_gateway_with_abuse_d.World.{World, ok}
use api_gateway_with_abuse_d.Services.RateLimiter.{
  sliding_window_script, check_rate_limit, request_id_of,
}

-- What is left of a cell, and how much it holds.
abbrev kept : ℕ → ℕ → ℕ → Option Cell → Option Cell
kept now window t cell = filter_cell (outside 0 (sub_ℕ now (window * 1000))) (live t cell)

abbrev used : ℕ → ℕ → ℕ → Option Cell → ℕ
used now window t cell = length (scored_of (live t (kept now window t cell)))

-- What the script does to a cell, and what it answers.
unfoldable pub script_cell : ℕ → ℕ → ℕ → String → ℕ → Option Cell → Option Cell
script_cell now window limit request_id t cell =
    if ltb (used now window t cell) limit
    then expire_cell t (window + 1)
        (live t (zadd_cell now request_id (live t (kept now window t cell))))
    else kept now window t cell

unfoldable pub script_answer : ℕ → ℕ → ℕ → ℕ → Option Cell → ℕ × ℕ
script_answer now window limit t cell =
    if ltb (used now window t cell) limit then (1, limit - used now window t cell - 1) else (0, 0)

module _ (redis : Redis) (key : String) (now window limit : ℕ) (request_id : String) (t : ℕ)
    (db : redis.Db) where
  abbrev pruned : redis.Db
  pruned = redis.zremrangebyscore t key 0 (sub_ℕ now (window * 1000)) db

  abbrev added : redis.Db
  added = redis.zadd t key now request_id pruned

  cell-pruned :
      (j : String)
      → redis.cell j pruned
        ≡ (if key == j then kept now window t (redis.cell key db) else redis.cell j db)
  cell-pruned j = redis.cell-zremrangebyscore t key 0 (sub_ℕ now (window * 1000)) db j

  own-pruned : redis.cell key pruned ≡ kept now window t (redis.cell key db)
  own-pruned = cell-pruned key ∙ rw eq_refl refl

  own-added :
      redis.cell key added
      ≡ zadd_cell now request_id (live t (kept now window t (redis.cell key db)))
  own-added = redis.cell-zadd t key now request_id pruned key ∙ rw (eq_refl, own-pruned) refl

  cell-answered :
      (j : String)
      → redis.cell j (redis.expire t key (window + 1) added) ≡ (
          if key == j
          then expire_cell t
              (window + 1)
              (live t (zadd_cell now request_id (live t (kept now window t (redis.cell key db)))))
          else redis.cell j db)
  cell-answered j = elim (Bool-cases (key == j)) [
    | inl own ↦ rw (redis.cell-expire, own, own-added) refl
    | inr other ↦ rw (redis.cell-expire, other, redis.cell-zadd, other, cell-pruned j, other) refl
  ]

  -- The answer of the script and what it leaves at its key depend on what the key held and on nothing
  -- else in the store; and it leaves every other key as it was.
  pub sliding_window_script-local :
      ((sliding_window_script redis key now window limit request_id t db).0
        ≡ script_answer now window limit t (redis.cell key db))
      × ((j : String)
          → redis.cell j (sliding_window_script redis key now window limit request_id t db).1 ≡ (
              if key == j
              then script_cell now window limit request_id t (redis.cell key db)
              else redis.cell j db))
  unfolding sliding_window_script script_cell script_answer
  sliding_window_script-local =
      elim (Bool-cases (ltb (used now window t (redis.cell key db)) limit)) [
        | inl room ↦ (simp (own-pruned, room), λ j. simp (own-pruned, room) (cell-answered j))
        | inr full ↦ (simp (own-pruned, full), λ j. simp (own-pruned, full) (cell-pruned j))
      ]

module _ (p : Platform) where
  abbrev verdict : ℕ × ℕ → Bool × ℕ
  verdict answer = (not (eqb answer.0 0), answer.1)

  module _ (c : String) (limit window : ℕ) (w : World p) (up : w.redis_up ≡ true) where
    abbrev after : World p
    after = (check_rate_limit p c limit window w).1

    check_rate_limit-answer :
        (check_rate_limit p c limit window w).0
        ≡ ok (verdict (script_answer w.now window limit w.now (p.redis.cell (rate_limit c) w.db)))
    unfolding check_rate_limit
    check_rate_limit-answer = simp (
      up,
      (sliding_window_script-local p.redis (rate_limit c) w.now window limit (request_id_of w.now c)
          w.now w.db).0,
    )

    check_rate_limit-after : after ≡ record w {
      db =
          (sliding_window_script p.redis
            (rate_limit c)
            w.now
            window
            limit
            (request_id_of w.now c)
            w.now
            w.db).1;
    }
    unfolding check_rate_limit
    check_rate_limit-after = simp up

    cell-after :
        (j : String)
        → p.redis.cell j after.db ≡ (
            if rate_limit c == j
            then script_cell w.now window limit
                (request_id_of w.now c)
                w.now
                (p.redis.cell (rate_limit c) w.db)
            else p.redis.cell j w.db)
    cell-after j = rw check_rate_limit-after (
        (sliding_window_script-local p.redis (rate_limit c) w.now window limit
            (request_id_of w.now c) w.now w.db).1
          j)

    up-after : after.redis_up ≡ true
    up-after = ap (λ (v : World p). v.redis_up) check_rate_limit-after ∙ up

    now-after : after.now ≡ w.now
    now-after = ap (λ (v : World p). v.now) check_rate_limit-after

  -- Another client's key is as it was.
  cell-other :
      (c d : String) (limit window : ℕ) (w : World p) (up : w.redis_up ≡ true)
      → (c == d) ≡ false
      → p.redis.cell (rate_limit d) (after c limit window w up).db
        ≡ p.redis.cell (rate_limit d) w.db
  cell-other c d limit window w up ne =
      cell-after c limit window w up (rate_limit d) ∙ rw (append-==, ne) refl

  answer-other :
      (c d : String) (limit limit' window window' : ℕ) (w : World p) (up : w.redis_up ≡ true)
      → (c == d) ≡ false
      → (check_rate_limit p d limit' window' (after c limit window w up)).0
        ≡ (check_rate_limit p d limit' window' w).0
  answer-other c d limit limit' window window' w up ne =
      check_rate_limit-answer d limit' window' (after c limit window w up)
        (up-after c limit window w up)
      ∙ rw (now-after c limit window w up, cell-other c d limit window w up ne)
          (sym (check_rate_limit-answer d limit' window' w up))

  -- What one call makes of what its key held at first.
  abbrev result : String → ℕ → ℕ → World p → Option Cell
  result c limit window w =
      script_cell w.now window limit (request_id_of w.now c) w.now
        (p.redis.cell (rate_limit c) w.db)

  cell-second :
      (c d : String) (limit limit' window window' : ℕ) (w : World p) (up : w.redis_up ≡ true)
      (j : String)
      → (c == d) ≡ false
      → p.redis.cell j (check_rate_limit p d limit' window' (after c limit window w up)).1.db ≡ (
          if rate_limit d == j
          then result d limit' window' w
          else if rate_limit c == j
          then result c limit window w
          else p.redis.cell j w.db)
  cell-second c d limit limit' window window' w up j ne =
      cell-after d limit' window' (after c limit window w up) (up-after c limit window w up) j
      ∙ rw
          (
            now-after c limit window w up,
            cell-other c d limit window w up ne,
            cell-after c limit window w up j,
          )
          refl

-- Tests for two different keys can be made in either order.
apart :
    (k l j : String) (x y z : Option Cell)
    → (k == l) ≡ false
    → (if l == j then y else if k == j then x else z)
      ≡ (if k == j then x else if l == j then y else z)
apart k l j x y z ne = ground (arith, eq_iff k l, eq_iff k j, eq_iff l j)

-- While Redis is up, the order in which the requests of two different clients come in one
-- millisecond does not matter: each is answered as if the other had not come, and the store holds
-- the same at every key in the end.
pub check_rate_limit-swap :
    (p : Platform) (a b : String) (limit limit' window window' : ℕ) (w : World p)
    → w.redis_up ≡ true
    → (a == b) ≡ false
    → let first_a = check_rate_limit p a limit window w in
      let first_b = check_rate_limit p b limit' window' w in
      let then_a = check_rate_limit p a limit window first_b.1 in
      let then_b = check_rate_limit p b limit' window' first_a.1 in
      (then_a.0 ≡ first_a.0)
      × (then_b.0 ≡ first_b.0)
      × ((j : String) → p.redis.cell j then_b.1.db ≡ p.redis.cell j then_a.1.db)
check_rate_limit-swap p a b limit limit' window window' w up ne =
    let ne' : (b == a) ≡ false = ==_comm b a ∙ ne in
    (
      answer-other p b a limit' limit window' window w up ne',
      answer-other p a b limit limit' window window' w up ne,
      λ j.
          cell-second p a b limit limit' window window' w up j ne
          ∙ apart (rate_limit a) (rate_limit b) j (result p a limit window w)
              (result p b limit' window' w) (p.redis.cell j w.db) (append-== "rate_limit:" a b ∙ ne)
          ∙ sym (cell-second p b a limit' limit window' window w up j ne'),
    )
