-- ===== src/Workers/BloomSync/Rounds.antt =====
-- app/workers/bloom_sync.py: what the rounds of the worker do to the clock and to the two services.
use api_gateway_with_abuse_d.Prelude.{
  ℕ, zero, suc, ◌+◌, ◌*◌, String, ◌≡◌, refl, ◌∙◌, ap, List, [], ◌∷◌, arith, length, Bool-cases,
  Option-cases, inl, inr,
}
use api_gateway_with_abuse_d.Platform.{Platform}
use api_gateway_with_abuse_d.World.{World, BloomService, Exec, Result, ok, err}
use api_gateway_with_abuse_d.Services.BloomFilter.{
  worker, add_ips, add_agents, sync_from_redis, with_service, new_service,
}
use api_gateway_with_abuse_d.Redis.{smembers}
use api_gateway_with_abuse_d.World.Exec.{continue, at_time}
use api_gateway_with_abuse_d.Services.BloomFilter.Complete.{
  sync_from_redis-load, sync_from_redis-down, load_agents, cleared, counted,
}
use api_gateway_with_abuse_d.Workers.BloomSync.{
  sync_round, sync_rounds, bloom_sync_worker, sync_interval_seconds,
}

no_minutes : (t : ℕ) → t ≡ t + 0 * (sync_interval_seconds * 1000)
no_minutes t = omega arith

more_minutes :
    (t n : ℕ)
    → t + sync_interval_seconds * 1000 + n * (sync_interval_seconds * 1000)
      ≡ t + suc n * (sync_interval_seconds * 1000)
more_minutes t n = omega arith

module _ (p : Platform) where
  add_ips-frame :
      (ips : List String) (w : World p)
      → (add_ips p worker ips w).1
        ≡ record w { worker_bloom = (add_ips p worker ips w).1.worker_bloom }
  unfolding add_ips
  add_ips-frame [] w = refl
  add_ips-frame (ip ∷ ips) w = elim (Option-cases (p.bloom.add ip w.worker_bloom.ip_filter)) [
    | inl full ↦ rw full refl
    | inr (f, room) ↦
        rw room
          (add_ips-frame ips (record w { worker_bloom = record w.worker_bloom { ip_filter = f } }))
  ]

  add_agents-frame :
      (agents : List String) (w : World p)
      → (add_agents p worker agents w).1
        ≡ record w { worker_bloom = (add_agents p worker agents w).1.worker_bloom }
  unfolding add_agents
  add_agents-frame [] w = refl
  add_agents-frame (agent ∷ agents) w =
      elim (Option-cases (p.bloom.add agent w.worker_bloom.agent_filter)) [
        | inl full ↦ rw full refl
        | inr (f, room) ↦ rw room (
            add_agents-frame agents
              (record w { worker_bloom = record w.worker_bloom { agent_filter = f } }))
      ]

  -- What a bind keeps: a first part that keeps all but the service, then one that does.
  continue-frame :
      {A B : Type 0} (r : Result A × World p) (f : A → Exec p B) (w : World p)
      → r.1 ≡ with_service p worker r.1.worker_bloom w
      → ((a : A) (v : World p) → (f a v).1 ≡ with_service p worker (f a v).1.worker_bloom v)
      → (continue r f).1 ≡ with_service p worker (continue r f).1.worker_bloom w
  continue-frame (err e, v) f w first next = first
  continue-frame (ok a, v) f w first next =
      next a v ∙ ap (with_service p worker (f a v).1.worker_bloom) first

  sync_from_redis-frame :
      (w : World p)
      → (sync_from_redis p worker w).1
        ≡ with_service p worker (sync_from_redis p worker w).1.worker_bloom w
  sync_from_redis-frame w =
      let ips = smembers p.redis w.now "known_bad_ips" w.db in
      let agents = smembers p.redis w.now "abusive_agents" w.db in
      elim (Bool-cases w.redis_up) [
        | inr down ↦ rw (sync_from_redis-down p worker w down) refl
        | inl up ↦ rw (sync_from_redis-load p worker w up) (
            continue-frame (add_ips p worker ips (cleared p worker w))
              (λ _ v. load_agents p worker ips agents v) w (add_ips-frame ips (cleared p worker w))
              (λ _ v.
                continue-frame (add_agents p worker agents v)
                  (λ _ u. (
                    ok (length ips + length agents),
                    counted p worker (length ips) (length agents) u,
                  ))
                  v (add_agents-frame agents v) (λ _ u. refl)))
      ]

  abbrev pub later : ℕ → BloomService p → World p → World p
  later t b w = record w { now = w.now + t; worker_bloom = b }

  -- The reload fills one service, whatever its outcome, and then a minute passes.
  pub sync_round-frame :
      (w : World p)
      → sync_round p w ≡ later (sync_interval_seconds * 1000) (sync_round p w).worker_bloom w
  unfolding sync_round
  sync_round-frame w =
      ap (later (sync_interval_seconds * 1000) (sync_from_redis p worker w).1.worker_bloom)
        (sync_from_redis-frame w)

  sync_rounds-frame :
      (n : ℕ) (w : World p)
      → sync_rounds p n w
        ≡ later (n * (sync_interval_seconds * 1000)) (sync_rounds p n w).worker_bloom w
  unfolding sync_rounds
  sync_rounds-frame zero w = ap (λ t. at_time t w) (no_minutes w.now)
  sync_rounds-frame (suc n) w =
      let done = (sync_rounds p n (sync_round p w)).worker_bloom in
      let minute = sync_interval_seconds * 1000 in
      sync_rounds-frame n (sync_round p w)
      ∙ ap (later (n * minute) done) (sync_round-frame w)
      ∙ ap (λ t. at_time t (with_service p worker done w)) (more_minutes w.now n)

-- The worker never ends, whatever its reloads raise: after n rounds exactly n minutes have passed.
-- All that it has changed besides is its own service; that of the application, which the
-- middleware asks, is as it was.
pub bloom_sync_worker-frame :
    (p : Platform) (n : ℕ) (w : World p)
    → bloom_sync_worker p n w ≡ record w {
      now = w.now + n * (sync_interval_seconds * 1000);
      worker_bloom = (bloom_sync_worker p n w).worker_bloom;
    }
unfolding bloom_sync_worker
bloom_sync_worker-frame p n w = sync_rounds-frame p n (with_service p worker (new_service p) w)
