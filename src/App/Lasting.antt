-- ===== src/App/Lasting.antt =====
-- What lasts over every event in the life of a process.
use api_gateway_with_abuse_d.Prelude.{
  ℕ, ◌+◌, String, ltb, length, ◌≡◌, true, Bool, some, Option-cases, Bool-cases, inl, inr, sym,
  subst,
}
use api_gateway_with_abuse_d.Platform.{Platform}
use api_gateway_with_abuse_d.Config.{Settings}
use api_gateway_with_abuse_d.World.{World, Result, ok}
use api_gateway_with_abuse_d.World.Http.{Request, Response}
use api_gateway_with_abuse_d.World.Inversion.{err≢ok}
use api_gateway_with_abuse_d.Redis.{zrange}
use api_gateway_with_abuse_d.Redis.Keys.{rate_limit}
use api_gateway_with_abuse_d.Services.RateLimiter.{sliding_window_script}
use api_gateway_with_abuse_d.Services.BloomFilter.{app_state, add_ip_to_redis, might_contain_ip}
use api_gateway_with_abuse_d.Routers.Admin
use api_gateway_with_abuse_d.Routers.Admin.Access.{admitted}
use api_gateway_with_abuse_d.Middleware.Chain.BadIp.{IsRefused, gateway-bad_ip}
use api_gateway_with_abuse_d.Workers.BloomSync.{sync_round}
use api_gateway_with_abuse_d.Workers.BloomSync.Rounds.{sync_round-frame}
use api_gateway_with_abuse_d.App.{
  Endpoint, Event, handle, serve, arrival, sync_due, elapse, redis_switch, pool_change, path_of,
  route_of,
}
use api_gateway_with_abuse_d.App.Commands.{Command, issue, prune_log, log_request, expire_log}
use api_gateway_with_abuse_d.App.Outcome.{Contract, Outcome, returned, raised}
use api_gateway_with_abuse_d.App.Stack.{serve-Runs}

module _ {p : Platform} (c : Contract p) where
  pub Outcome-Good :
      {A : Type 0} {Q : A → Type 0} {r : Result A × World p} → Outcome c Q r → c.Good r.1
  Outcome-Good (returned q good) = good
  Outcome-Good (raised h good) = good

  -- What a single step keeps, and Redis cannot change by going down or coming back.
  abbrev pub Switches : Type 0
  Switches = (up : Bool) (w : World p) → c.Good w → c.Good (record w { redis_up = up })

  pub handle-Good :
      (settings : Settings) (e : Event) (w : World p)
      → Switches
      → c.Allows settings.rate_limit_requests
      → c.Good w
      → c.Good (handle p settings e w)
  unfolding handle
  handle-Good settings (arrival endpoint request) w switches allows good =
      Outcome-Good (serve-Runs c settings endpoint request allows w good)
  handle-Good settings sync_due w switches allows good =
      subst c.Good (sym (sync_round-frame p w))
        (c.later _ _ (c.synced (sync_round p w).worker_bloom w good))
  handle-Good settings (elapse ms) w switches allows good = c.later ms w good
  handle-Good settings (pool_change pool) w switches allows good = c.pooled pool w good
  handle-Good settings (redis_switch up) w switches allows good = switches up w good

-- What every command keeps, the script of the rate limiter keeps.
pub script-kept :
    (p : Platform) (P : p.redis.Db → Type 0)
    → ((c : Command) (t : ℕ) (db : p.redis.Db) → P db → P (issue p c t db))
    → (client_id request_id : String) (now window limit t : ℕ) (db : p.redis.Db) → P db
    → P (sliding_window_script p.redis (rate_limit client_id) now window limit request_id t db).1
unfolding sliding_window_script
script-kept p P kept client_id request_id now window limit t db h =
    let prune = prune_log client_id now window in
    let pruned = kept prune t db h in
    let add = log_request client_id now request_id in
    let added = kept add t (issue p prune t db) pruned in
    let expired =
      kept (expire_log client_id (window + 1)) t (issue p add t (issue p prune t db)) added in
    elim (Bool-cases
      (ltb (length (zrange p.redis t (rate_limit client_id) (issue p prune t db))) limit)) [
        | inl room ↦ simp room expired
        | inr full ↦ simp full pruned
      ]

-- What every command keeps of the store is kept by everything.
abbrev pub over_store :
    (p : Platform) (P : p.redis.Db → Type 0)
    → ((c : Command) (t : ℕ) (db : p.redis.Db) → P db → P (issue p c t db))
    → Contract p
over_store p P kept = record {
  Good = λ w. P w.db;
  Raises = λ e. Unit {0};
  Allows = λ limit. Unit {0};
  later = λ ms w h. h;
  counted = λ m w h. h;
  measured = λ g w h. h;
  pooled = λ pool w h. h;
  drawn = λ w h. h;
  joined = λ u w registered missing added h. h;
  ip_added = λ ip f w added h. h;
  agent_added = λ agent f w added h. h;
  synced = λ b w h. h;
  issued = λ c w single h. kept c w.now w.db h;
  checked = λ client_id request_id limit window w allows h.
      script-kept p P kept client_id request_id w.now window limit w.now w.db h;
  full = tt;
  long = tt;
  lost = λ e. tt;
  down = λ w h off. tt;
  garbled = λ who s w h held none. tt;
}

-- The application's filter never forgets an address.
abbrev pub flagged : (p : Platform) → String → Contract p
flagged p ip = record {
  Good = λ w. might_contain_ip p app_state ip w ≡ true;
  Raises = λ e. Unit {0};
  Allows = λ limit. Unit {0};
  later = λ ms w h. h;
  counted = λ m w h. h;
  measured = λ g w h. h;
  pooled = λ pool w h. h;
  drawn = λ w h. h;
  joined = λ u w registered missing added h. h;
  ip_added = λ other f w added h. p.bloom.has-add_other ip other w.bloom.ip_filter added h;
  agent_added = λ agent f w added h. h;
  synced = λ b w h. h;
  issued = λ c w single h. h;
  checked = λ client_id request_id limit window w allows h. h;
  full = tt;
  long = tt;
  lost = λ e. tt;
  down = λ w h off. tt;
  garbled = λ who s w h held none. tt;
}

pub block_ip-flagged :
    (p : Platform) (ip : String) (by : Request) (response : Response) (w : World p)
    → (Admin.block_ip p ip by w).0 ≡ ok response
    → might_contain_ip p app_state ip (Admin.block_ip p ip by w).1 ≡ true
unfolding Admin.block_ip add_ip_to_redis
block_ip-flagged p ip by response w h =
    let (who, step) = admitted p by _ response w h in
    elim (Bool-cases w.redis_up) [
      | inl up ↦ elim (Option-cases (p.bloom.add ip w.bloom.ip_filter)) [
        | inl full ↦ absurd (err≢ok (rw (up, full) at (rw step at h)))
        | inr (f, room) ↦ rw step (rw (up, room) (p.bloom.has-add ip w.bloom.ip_filter room))
      ]
      | inr down ↦ absurd (err≢ok (rw down at (rw step at h)))
    ]

-- Where the filter has an address, its requests are refused.
pub flagged-IsRefused :
    (p : Platform) (settings : Settings) (ip : String) (later : Request) (endpoint : Endpoint)
    (w : World p)
    → later.host ≡ some ip
    → might_contain_ip p app_state ip w ≡ true
    → IsRefused p (serve p settings endpoint later w) w
unfolding serve
flagged-IsRefused p settings ip later endpoint w from has =
    (gateway-bad_ip p settings settings (route_of p settings endpoint)
      (route_of p settings endpoint) (record later { path = path_of endpoint }) ip w from has).1
