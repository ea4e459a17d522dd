-- ===== src/Workers/BloomSync.antt =====
-- app/workers/bloom_sync.py, and the startup of app/main.py.
pub mod Rounds
use api_gateway_with_abuse_d.Prelude.{ℕ, zero, suc, Bool}
use api_gateway_with_abuse_d.Platform.{Platform}
use api_gateway_with_abuse_d.World.{World, Exec, Result, ok, err}
use api_gateway_with_abuse_d.World.Exec.{pure, modify, sleep, ◌>>=◌, ◌>>◌}
use api_gateway_with_abuse_d.Core.RedisClient.{create_redis_client}
use api_gateway_with_abuse_d.Services.BloomFilter.{
  Instance, app_state, worker, with_service, new_service, sync_from_redis,
}

abbrev pub sync_interval_seconds : ℕ
sync_interval_seconds = 60

-- `try: ... except Exception`: what was written before the exception stays.
abbrev attempt : (p : Platform) {A : Type 0} → Exec p A → World p → World p
attempt p m w = (m w).1

module _ (p : Platform) where
  -- One round of the `while True` loop.
  unfoldable pub sync_round : World p → World p
  sync_round w = (sleep p sync_interval_seconds (attempt p (sync_from_redis p worker) w)).1

  unfoldable pub sync_rounds : ℕ → World p → World p
  unfolding sync_round
  sync_rounds zero w = w
  sync_rounds (suc n) w = sync_rounds n (sync_round w)

  -- bloom_sync_worker up to a number of rounds: the worker makes a service of its own.
  unfoldable pub bloom_sync_worker : ℕ → World p → World p
  unfolding sync_rounds
  bloom_sync_worker n w = sync_rounds n (with_service p worker (new_service p) w)

  -- lifespan up to its `yield`: the connection, the service of the application with its first load,
  -- and the task of the worker, whose rounds come later.
  unfoldable pub startup : (ℕ → Bool) → Exec p ℕ
  startup answers = do
    create_redis_client p answers
    modify p (with_service p app_state (new_service p))
    sync_from_redis p app_state
