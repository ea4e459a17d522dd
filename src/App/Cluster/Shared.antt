-- ===== src/App/Cluster/Shared.antt =====
-- What lasts in the store that several processes share.
use api_gateway_with_abuse_d.Prelude.{
  ℕ, String, ◌≡◌, ◌+◌, ◌-◌, ◌*◌, ◌<◌, ◌≤◌, true, none, List, [], ◌∷◌, arith,
}
use api_gateway_with_abuse_d.Redis.Keys.{rate_limit}
use api_gateway_with_abuse_d.Platform.{Platform}
use api_gateway_with_abuse_d.Config.{Settings}
use api_gateway_with_abuse_d.World.{World, ok}
use api_gateway_with_abuse_d.World.Http.{Request}
use api_gateway_with_abuse_d.App.{Endpoint, Event, handle, serve, elapse}
use api_gateway_with_abuse_d.App.Typed.{IsWellTyped}
use api_gateway_with_abuse_d.App.Answers.{IsAnswered, serve-IsAnswered, handle-IsWellTyped}
use api_gateway_with_abuse_d.App.Limits.{IsWithinLimit, handle-IsWithinLimit}
use api_gateway_with_abuse_d.Services.RateLimiter.{check_rate_limit}
use api_gateway_with_abuse_d.App.Readmit.{
  ArePast, ArePast-later, handle-ArePast, check_rate_limit-readmits,
}
use api_gateway_with_abuse_d.App.Cluster.Start.{startup-Reads}
use api_gateway_with_abuse_d.App.Cluster.{
  Cluster, Move, happening, restart, view, fresh, move, run_moves,
}

module _ (p : Platform) where
  -- What every event in one process keeps of the shared parts, and the passing of time too, a cluster
  -- keeps.
  pub run_moves-kept_at :
      (P : ℕ → p.redis.Db → p.users.Table → Type 0) (settings : Settings) (moves : List Move)
      (c : Cluster p)
      → ((e : Event) (w : World p)
          → P w.now w.db w.users
          → P (handle p settings e w).now (handle p settings e w).db (handle p settings e w).users)
      → ((t ms : ℕ) (db : p.redis.Db) (users : p.users.Table) → P t db users → P (t + ms) db users)
      → P c.now c.db c.users
      → P
          (run_moves p settings moves c).now
          (run_moves p settings moves c).db
          (run_moves p settings moves c).users
  unfolding run_moves
  run_moves-kept_at P settings [] c kept later h = h
  run_moves-kept_at P settings (happening i e ∷ moves) c kept later h =
      run_moves-kept_at P settings moves (move p settings (happening i e) c) kept later
        (kept e (view p i c) h)
  run_moves-kept_at P settings (restart i answers ∷ moves) c kept later h =
      let (same, same_users, ms, waited) = startup-Reads p answers (fresh p (view p i c)) in
      run_moves-kept_at P settings moves (move p settings (restart i answers) c) kept later
        (rw (same, same_users, waited) (later c.now ms c.db c.users h))

  pub run_moves-kept :
      (P : p.redis.Db → Type 0) (settings : Settings) (moves : List Move) (c : Cluster p)
      → ((e : Event) (w : World p) → P w.db → P (handle p settings e w).db)
      → P c.db
      → P (run_moves p settings moves c).db
  run_moves-kept P settings moves c kept h =
      run_moves-kept_at (λ t db users. P db) settings moves c kept (λ t ms db users g. g) h

-- Several processes share one Redis that has no request logs at first. Whatever happens to them,
-- starts of processes included, at no time does the sorted set of a client hold more entries than
-- the configured number of requests: the limit holds for all processes together.
pub run_moves-IsWithinLimit :
    (p : Platform) (settings : Settings) (moves : List Move) (c : Cluster p)
    → ((client_id : String) → p.redis.cell (rate_limit client_id) c.db ≡ none)
    → IsWithinLimit p settings.rate_limit_requests (run_moves p settings moves c).db
unfolding IsWithinLimit
run_moves-IsWithinLimit p settings moves c empty =
    run_moves-kept p (IsWithinLimit p settings.rate_limit_requests) settings moves c
      (λ e w h. handle-IsWithinLimit p settings e w h)
      (λ client_id. rw (empty client_id) (omega arith))

-- Several processes share one Redis that is empty at first. Whatever happens to them, starts of
-- processes included, every key holds what its first letter says: f (as in failed_auth:) a number in
-- decimal, r (rate_limit: and request_times:) a sorted set, k and a (known_bad_ips and
-- abusive_agents) a set with no expiry, and any other first letter a text.
pub run_moves-IsWellTyped :
    (p : Platform) (settings : Settings) (moves : List Move) (c : Cluster p)
    → ((k : String) → p.redis.cell k c.db ≡ none)
    → IsWellTyped p (run_moves p settings moves c).db
unfolding IsWellTyped
run_moves-IsWellTyped p settings moves c empty =
    run_moves-kept p (IsWellTyped p) settings moves c (λ e w h. handle-IsWellTyped p settings e w h)
      (λ k. rw (empty k) tt)

-- Several processes share one Redis that is empty at first. Whatever happens to them, starts of
-- processes included: a process to which Redis answers gives every request to every endpoint a
-- response; the only exceptions that leave it are the IndexError of a full Bloom filter, the
-- ValueError of bcrypt for a password that it refuses, and what SQLAlchemy and its driver raise at a
-- query or at a commit (IntegrityError, DataError, OperationalError or another one). No error of
-- Redis, none of `int` and no HTTPException leaves it.
pub serve-answers :
    (p : Platform) (settings : Settings) (moves : List Move) (i : ℕ) (endpoint : Endpoint)
    (request : Request) (c : Cluster p)
    → ((k : String) → p.redis.cell k c.db ≡ none)
    → (view p i (run_moves p settings moves c)).redis_up ≡ true
    → IsAnswered (serve p settings endpoint request (view p i (run_moves p settings moves c))).0
serve-answers p settings moves i endpoint request c empty up =
    serve-IsAnswered p settings endpoint request (view p i (run_moves p settings moves c))
      (run_moves-IsWellTyped p settings moves c empty) up

-- Several processes share one Redis that has no request logs at first. Whatever has happened to them,
-- starts of processes included: if a window or more passes in which nothing happens, then a process
-- to which Redis answers admits any client, refused as it may have been before, with all but one of a
-- positive limit left.
pub run_moves-readmits :
    (p : Platform) (settings : Settings) (moves : List Move) (i : ℕ) (client_id : String)
    (limit window ms : ℕ) (c : Cluster p)
    → ((k : String) → p.redis.cell (rate_limit k) c.db ≡ none)
    → 0 < limit
    → window * 1000 ≤ ms
    → (view p i (run_moves p settings moves c)).redis_up ≡ true
    → (check_rate_limit p client_id limit window
        (handle p settings (elapse ms) (view p i (run_moves p settings moves c)))).0
      ≡ ok (true, limit - 1)
run_moves-readmits p settings moves i client_id limit window ms c empty some_limit quiet up =
    check_rate_limit-readmits p settings client_id limit window ms
      (view p i (run_moves p settings moves c))
      (run_moves-kept_at p (λ t db users. ArePast p t db) settings moves c
        (λ e w h. handle-ArePast p settings e w h) (λ t s db users h. ArePast-later p t s db h)
        (λ k. rw (empty k) tt))
      some_limit quiet up
