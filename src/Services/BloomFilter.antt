-- ===== src/Services/BloomFilter.antt =====
-- app/services/bloom_filter.py: two Bloom filters in memory, filled from two sets in Redis. A
-- process holds two services: the one of the application, and the one that the worker makes.
mod Sync
pub mod Complete
pub mod Failed
use api_gateway_with_abuse_d.Prelude.{
  ℕ, ◌+◌, String, Bool, Option, none, some, List, [], ◌∷◌, length,
}
use api_gateway_with_abuse_d.Redis.{smembers}
use api_gateway_with_abuse_d.Platform.{Platform}
use api_gateway_with_abuse_d.World.{Exec, World, BloomService, index_error}
use api_gateway_with_abuse_d.World.Exec.{pure, raise, gets, query, execute, modify, ◌>>=◌, ◌>>◌}

pub data Instance : Type 0 where
  app_state worker : Instance

module _ (p : Platform) where
  abbrev pub service : Instance → World p → BloomService p
  service app_state w = w.bloom
  service worker w = w.worker_bloom

  abbrev pub with_service : Instance → BloomService p → World p → World p
  with_service app_state b w = record w { bloom = b }
  with_service worker b w = record w { worker_bloom = b }

  -- BloomFilterService.__init__
  abbrev pub new_service : BloomService p
  new_service = record {
    ip_filter = p.bloom.new;
    agent_filter = p.bloom.new;
    loaded_ip_count = 0;
    loaded_agent_count = 0;
  }

  abbrev set_ip_filter : Instance → Option p.bloom.Filter → Exec p (Unit {0})
  set_ip_filter i none = raise index_error
  set_ip_filter i (some f) =
      modify p (λ w. with_service i (record (service i w) { ip_filter = f }) w)

  abbrev set_agent_filter : Instance → Option p.bloom.Filter → Exec p (Unit {0})
  set_agent_filter i none = raise index_error
  set_agent_filter i (some f) =
      modify p (λ w. with_service i (record (service i w) { agent_filter = f }) w)

  -- BloomFilterService.add_ip and add_agent
  abbrev pub add_ip : Instance → String → Exec p (Unit {0})
  add_ip i ip = do s ← gets (service i); set_ip_filter i (p.bloom.add ip s.ip_filter)

  abbrev pub add_agent : Instance → String → Exec p (Unit {0})
  add_agent i user_agent = do
    s ← gets (service i)
    set_agent_filter i (p.bloom.add user_agent s.agent_filter)

  -- BloomFilterService.might_contain_ip and might_contain_agent
  abbrev pub might_contain_ip : Instance → String → World p → Bool
  might_contain_ip i ip w = p.bloom.has ip (service i w).ip_filter

  abbrev pub might_contain_agent : Instance → String → World p → Bool
  might_contain_agent i user_agent w = p.bloom.has user_agent (service i w).agent_filter

  -- BloomFilterService.add_ip_to_redis and add_agent_to_redis
  unfoldable pub add_ip_to_redis : Instance → String → Exec p (Unit {0})
  add_ip_to_redis i ip = do execute p (λ t db. p.redis.sadd t "known_bad_ips" ip db); add_ip i ip

  unfoldable pub add_agent_to_redis : Instance → String → Exec p (Unit {0})
  add_agent_to_redis i user_agent = do
    execute p (λ t db. p.redis.sadd t "abusive_agents" user_agent db)
    add_agent i user_agent

  unfoldable pub add_ips : Instance → List String → Exec p (Unit {0})
  add_ips i [] = pure tt
  add_ips i (ip ∷ ips) = do add_ip i ip; add_ips i ips

  unfoldable pub add_agents : Instance → List String → Exec p (Unit {0})
  add_agents i [] = pure tt
  add_agents i (agent ∷ agents) = do add_agent i agent; add_agents i agents

  -- BloomFilterService.sync_from_redis
  unfoldable pub sync_from_redis : Instance → Exec p ℕ
  sync_from_redis i = do
    bad_ips ← query p (λ t db. smembers p.redis t "known_bad_ips" db)
    bad_agents ← query p (λ t db. smembers p.redis t "abusive_agents" db)
    modify p (λ w.
        with_service i
          (record (service i w) { ip_filter = p.bloom.new; agent_filter = p.bloom.new }) w)
    add_ips i bad_ips
    add_agents i bad_agents
    modify p (λ w.
        with_service i
          (record (service i w) {
            loaded_ip_count = length bad_ips;
            loaded_agent_count = length bad_agents;
          })
          w)
    pure (length bad_ips + length bad_agents)
