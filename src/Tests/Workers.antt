-- ===== src/Tests/Workers.antt =====
-- Examples for the connection, the reload of the filters, the worker and the statistics.
use api_gateway_with_abuse_d.Redis.{smembers}
use api_gateway_with_abuse_d.Prelude.{All, length, ◌+◌, false}
use api_gateway_with_abuse_d.Prelude.{◌⊎◌, String, List, starts_with, ◌&&◌}
use api_gateway_with_abuse_d.World.{connection_error, index_error}
use api_gateway_with_abuse_d.Services.BloomFilter.Failed.{sync_from_redis-failed}
use api_gateway_with_abuse_d.Prelude.{ℕ, ◌+◌, ◌≡◌, refl, Bool, true, some, [], ◌∷◌, map, leb}
use api_gateway_with_abuse_d.Redis.{get, exists, contains, insert_member}
use api_gateway_with_abuse_d.Platform.Reference.{reference}
use api_gateway_with_abuse_d.World.{World, ok}
use api_gateway_with_abuse_d.Core.RedisClient.{create_redis_client}
use api_gateway_with_abuse_d.Core.RedisClient.Connect.{create_redis_client-attempts}
use api_gateway_with_abuse_d.Services.BloomFilter.{
  app_state, sync_from_redis, add_ips, add_agents, might_contain_ip, might_contain_agent,
}
use api_gateway_with_abuse_d.Services.BloomFilter.Complete.{sync_from_redis_complete}
use api_gateway_with_abuse_d.Services.ShadowLogger.{get_shadow_stats, tally, bump, rule_of}
use api_gateway_with_abuse_d.Services.ShadowLogger.Distinct.{IsDistinct}
use api_gateway_with_abuse_d.Services.ShadowLogger.Totals.{
  count_of, total_of, events, get_shadow_stats-counts,
}
use api_gateway_with_abuse_d.Workers.BloomSync.{bloom_sync_worker}
use api_gateway_with_abuse_d.Workers.BloomSync.Rounds.{bloom_sync_worker-frame}
use api_gateway_with_abuse_d.Tests.{quiet}

-- Two addresses and one agent are listed in Redis.
abbrev listed : World reference
listed = record quiet {
  db = reference.redis.sadd 0 "abusive_agents" "bot" (
      reference.redis.sadd 0 "known_bad_ips" "10.0.0.2"
        (reference.redis.sadd 0 "known_bad_ips" "10.0.0.1" quiet.db));
}

-- The server answers from two seconds after the start on.
abbrev slow : ℕ → Bool
slow t = leb 102000 t

create_redis_client-attempts_example :
    create_redis_client reference slow quiet ≡ (ok tt, record quiet { now = 103000 })
create_redis_client-attempts_example = create_redis_client-attempts reference slow quiet

abbrev reloaded : World reference
reloaded = (sync_from_redis reference app_state listed).1

sync_from_redis_complete_example :
    All
      (λ ip. might_contain_ip reference app_state ip reloaded ≡ true)
      (smembers reference.redis 100000 "known_bad_ips" listed.db)
    × All
        (λ agent. might_contain_agent reference app_state agent reloaded ≡ true)
        (smembers reference.redis 100000 "abusive_agents" listed.db)
    × (3
        ≡ length (smembers reference.redis 100000 "known_bad_ips" listed.db)
          + length (smembers reference.redis 100000 "abusive_agents" listed.db))
unfolding sync_from_redis add_ips add_agents contains insert_member
sync_from_redis_complete_example = sync_from_redis_complete reference app_state listed 3 refl

bloom_sync_worker-frame_example : bloom_sync_worker reference 2 listed ≡ record listed {
  now = 220000;
  worker_bloom = (bloom_sync_worker reference 2 listed).worker_bloom;
}
bloom_sync_worker-frame_example = bloom_sync_worker-frame reference 2 listed

abbrev logged : World reference
logged = record quiet {
  db =
      reference.redis.set 100000 "shadow_log:2" "{rate" (some 86400)
        (reference.redis.set 100000 "shadow_log:1" "{rate" (some 86400) quiet.db);
}

abbrev logged_keys : List String
logged_keys = "shadow_log:2" ∷ "shadow_log:1" ∷ []

logged_keys-stored :
    (k : String)
    → contains k logged_keys
      ≡ (starts_with k "shadow_log:" && exists reference.redis logged.now k logged.db)
unfolding contains insert_member
logged_keys-stored k = reference.redis.contains-scan logged.now "shadow_log:" logged.db k

get_shadow_stats-counts_example :
    (2
      ≡ events reference "rate" (map (λ k. get reference.redis logged.now k logged.db) logged_keys))
    × (◌≡◌ {A = ℕ} 2 2)
unfolding get_shadow_stats tally bump rule_of count_of total_of IsDistinct contains insert_member
get_shadow_stats-counts_example =
    get_shadow_stats-counts reference "rate" (record { total = 2; by_rule = ("rate", 2) ∷ [] })
      logged logged_keys (refl, (refl, tt)) logged_keys-stored (refl, (refl, tt)) refl

sync_from_redis-failed_example :
    ((connection_error ≡ connection_error)
      × (false ≡ false)
      × ((sync_from_redis reference app_state (record listed { redis_up = false })).1
          ≡ record listed { redis_up = false }))
    ⊎ ((connection_error ≡ index_error) × (false ≡ true))
unfolding sync_from_redis
sync_from_redis-failed_example =
    sync_from_redis-failed reference app_state (record listed { redis_up = false }) connection_error
      refl
