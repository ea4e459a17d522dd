-- ===== src/Routers/Admin/Effects.antt =====
-- app/routers/admin.py: what a call of an administrator brings about in the rest of the gateway.
use api_gateway_with_abuse_d.Prelude.{
  ℕ, String, ◌≡◌, refl, ap, Bool, true, false, some, [], ◌∷◌, Option-cases, Bool-cases, inl, inr,
}
use api_gateway_with_abuse_d.Redis.{live}
use api_gateway_with_abuse_d.Redis.Members.{IsMembers, members_of-sadd}
use api_gateway_with_abuse_d.Platform.{Platform}
use api_gateway_with_abuse_d.World.{World, Exec, ok, bloom_filter_hit}
use api_gateway_with_abuse_d.World.Http.{Request, Response, error_response}
use api_gateway_with_abuse_d.World.Inversion.{err≢ok}
use api_gateway_with_abuse_d.Core.RedisClient.{is_shadow_mode_enabled, is_true_text}
use api_gateway_with_abuse_d.Text.{is_lowered}
use api_gateway_with_abuse_d.Services.BloomFilter.{
  Instance, add_ip_to_redis, sync_from_redis, might_contain_ip,
}
use api_gateway_with_abuse_d.Services.BloomFilter.Complete.{sync_from_redis-has_ip}
use api_gateway_with_abuse_d.Middleware.BloomFilter.{bloom_filter_dispatch}
use api_gateway_with_abuse_d.World.Exec.{at_time}
use api_gateway_with_abuse_d.Routers.Admin.Access.{admitted}
use api_gateway_with_abuse_d.Routers.Admin.{block_ip, set_shadow_mode, bool_text}

lowered_text :
    (enabled fallback : Bool) → is_true_text fallback (some (bool_text enabled)) ≡ enabled
unfolding is_lowered
lowered_text true fallback = refl
lowered_text false fallback = refl

-- When an administrator's switch of the shadow mode has returned, the flag that the middleware
-- reads is the one that was set, at any later time and whatever the settings say.
pub set_shadow_mode-read :
    (p : Platform) (enabled fallback : Bool) (request : Request) (response : Response) (t : ℕ)
    (w : World p)
    → (set_shadow_mode p enabled request w).0 ≡ ok response
    → (is_shadow_mode_enabled p fallback (at_time t (set_shadow_mode p enabled request w).1)).0
      ≡ ok enabled
unfolding set_shadow_mode is_shadow_mode_enabled
set_shadow_mode-read p enabled fallback request response t w h =
    let (who, step) = admitted p request _ response w h in
    elim (Bool-cases w.redis_up) [
      | inl up ↦ rw step (rw (up, p.redis.cell-set) (ap ok (lowered_text enabled fallback)))
      | inr down ↦ absurd (err≢ok (rw down at (rw step at h)))
    ]

-- When an administrator's block of an address has returned, every later request of the address is
-- answered 403 at the Bloom filter: nothing behind it runs, Redis and the table of users stay as
-- they are, and the hit is counted.
pub block_ip-enforced :
    (p : Platform) (ip : String) (request later : Request) (response : Response)
    (call_next : Request → Exec p Response) (w : World p)
    → (block_ip p ip request w).0 ≡ ok response
    → later.host ≡ some ip
    → bloom_filter_dispatch p call_next later (block_ip p ip request w).1 ≡ (
      ok (error_response 403 "Access denied — known bad IP" []),
      record (block_ip p ip request w).1 {
        metrics = bloom_filter_hit "ip" ∷ (block_ip p ip request w).1.metrics;
      },
    )
unfolding block_ip bloom_filter_dispatch add_ip_to_redis
block_ip-enforced p ip request later response call_next w h from =
    let (who, step) = admitted p request _ response w h in
    elim (Bool-cases w.redis_up) [
      | inl up ↦ elim (Option-cases (p.bloom.add ip w.bloom.ip_filter)) [
        | inl full ↦ absurd (err≢ok (rw (up, full) at (rw step at h)))
        | inr (f, room) ↦
            rw step (rw (up, room, from, p.bloom.has-add ip w.bloom.ip_filter room) refl)
      ]
      | inr down ↦ absurd (err≢ok (rw down at (rw step at h)))
    ]

-- When an administrator's block of an address has returned, the next reload that returns, of any
-- service, has the address in its filter: the block outlives a restart of the process. The key of
-- the addresses is supposed to hold a set, if it holds anything.
pub block_ip-reloaded :
    (p : Platform) (i : Instance) (ip : String) (request : Request) (response : Response) (n : ℕ)
    (w : World p)
    → IsMembers (live w.now (p.redis.cell "known_bad_ips" w.db))
    → (block_ip p ip request w).0 ≡ ok response
    → (sync_from_redis p i (block_ip p ip request w).1).0 ≡ ok n
    → might_contain_ip p i ip (sync_from_redis p i (block_ip p ip request w).1).1 ≡ true
unfolding block_ip add_ip_to_redis
block_ip-reloaded p i ip request response n w set h done =
    sync_from_redis-has_ip p i (block_ip p ip request w).1 n ip done (
      let (who, step) = admitted p request _ response w h in
      elim (Bool-cases w.redis_up) [
        | inl up ↦ elim (Option-cases (p.bloom.add ip w.bloom.ip_filter)) [
          | inl full ↦ absurd (err≢ok (rw (up, full) at (rw step at h)))
          | inr (f, room) ↦ rw step (
              rw (up, room, p.redis.cell-sadd)
                (members_of-sadd ip w.now (p.redis.cell "known_bad_ips" w.db) set))
        ]
        | inr down ↦ absurd (err≢ok (rw down at (rw step at h)))
      ])
