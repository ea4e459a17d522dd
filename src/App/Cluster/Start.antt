-- ===== src/App/Cluster/Start.antt =====
-- What a start of a process leaves as it was: it waits, it reads, and it fills the filters.
use api_gateway_with_abuse_d.Prelude.{
  ℕ, ◌+◌, String, ◌≡◌, refl, ◌∙◌, Bool, zero, suc, ◌-◌, ◌^◌, eqb, ◌*◌, List, [], ◌∷◌, length,
  Bool-cases, Option-cases, inl, inr, arith,
}
use api_gateway_with_abuse_d.Redis.{smembers}
use api_gateway_with_abuse_d.Platform.{Platform}
use api_gateway_with_abuse_d.World.{World, Exec, Result, ok, err}
use api_gateway_with_abuse_d.World.Exec.{continue}
use api_gateway_with_abuse_d.Core.RedisClient.{connect, max_retries, create_redis_client}
use api_gateway_with_abuse_d.Services.BloomFilter.{
  app_state, with_service, new_service, add_ips, add_agents, sync_from_redis,
}
use api_gateway_with_abuse_d.Services.BloomFilter.Complete.{
  sync_from_redis-load, sync_from_redis-down, load_agents, cleared, counted,
}
use api_gateway_with_abuse_d.Workers.BloomSync.{startup}

module _ (p : Platform) where
  -- From the one world to the other, the store and the users are the same and the clock has not gone
  -- back.
  abbrev pub Reads : World p → World p → Type 0
  Reads w v = (v.db ≡ w.db) × (v.users ≡ w.users) × (ms : ℕ) × (v.now ≡ w.now + ms)

  Reads-refl : (w : World p) → Reads w w
  Reads-refl w = (refl, refl, 0, omega arith)

  Reads-trans : (u v w : World p) → Reads u v → Reads v w → Reads u w
  Reads-trans u v w (same, users, ms, first) (same', users', ms', next) =
      (same' ∙ same, users' ∙ users, ms + ms', omega arith)

  continue-Reads :
      {A B : Type 0} (r : Result A × World p) (f : A → Exec p B) (w : World p)
      → Reads w r.1
      → ((a : A) (v : World p) → Reads v (f a v).1)
      → Reads w (continue r f).1
  continue-Reads (err e, v) f w first next = first
  continue-Reads (ok a, v) f w first next = Reads-trans w v (f a v).1 first (next a v)

  connect-Reads :
      (answers : ℕ → Bool) (rounds attempt : ℕ) (w : World p)
      → Reads w (connect p answers rounds attempt w).1
  unfolding connect
  connect-Reads answers zero attempt w = Reads-refl w
  connect-Reads answers (suc rounds) attempt w =
      let ms = 2 ^ (attempt - 1) * 1000 in
      let v = record w { now = w.now + ms } in
      let later = connect-Reads answers rounds (attempt + 1) v in
      elim (Bool-cases (answers w.now)) [
        | inl up ↦ rw up (Reads-refl w)
        | inr down ↦ elim (Bool-cases (eqb attempt max_retries)) [
          | inl last ↦ rw (down, last) (Reads-refl w)
          | inr more ↦
              rw (down, more)
                (Reads-trans w v (connect p answers rounds (attempt + 1) v).1 (refl, refl, ms, refl)
                  later)
        ]
      ]

  add_ips-Reads : (ips : List String) (w : World p) → Reads w (add_ips p app_state ips w).1
  unfolding add_ips
  add_ips-Reads [] w = Reads-refl w
  add_ips-Reads (ip ∷ ips) w = elim (Option-cases (p.bloom.add ip w.bloom.ip_filter)) [
    | inl full ↦ rw full (Reads-refl w)
    | inr (f, room) ↦
        rw room (add_ips-Reads ips (record w { bloom = record w.bloom { ip_filter = f } }))
  ]

  add_agents-Reads :
      (agents : List String) (w : World p) → Reads w (add_agents p app_state agents w).1
  unfolding add_agents
  add_agents-Reads [] w = Reads-refl w
  add_agents-Reads (agent ∷ agents) w =
      elim (Option-cases (p.bloom.add agent w.bloom.agent_filter)) [
        | inl full ↦ rw full (Reads-refl w)
        | inr (f, room) ↦
            rw room
              (add_agents-Reads agents (record w { bloom = record w.bloom { agent_filter = f } }))
      ]

  sync_from_redis-Reads : (w : World p) → Reads w (sync_from_redis p app_state w).1
  sync_from_redis-Reads w =
      let ips = smembers p.redis w.now "known_bad_ips" w.db in
      let agents = smembers p.redis w.now "abusive_agents" w.db in
      elim (Bool-cases w.redis_up) [
        | inr down ↦ rw (sync_from_redis-down p app_state w down) (Reads-refl w)
        | inl up ↦ rw (sync_from_redis-load p app_state w up) (
            continue-Reads (add_ips p app_state ips (cleared p app_state w))
              (λ _ v. load_agents p app_state ips agents v) w
              (add_ips-Reads ips (cleared p app_state w))
              (λ _ v.
                continue-Reads (add_agents p app_state agents v)
                  (λ _ u. (
                    ok (length ips + length agents),
                    counted p app_state (length ips) (length agents) u,
                  ))
                  v (add_agents-Reads agents v) (λ _ u. Reads-refl u)))
      ]

  pub startup-Reads : (answers : ℕ → Bool) (w : World p) → Reads w (startup p answers w).1
  unfolding startup create_redis_client
  startup-Reads answers w =
      continue-Reads (create_redis_client p answers w) _ w (connect-Reads answers max_retries 1 w)
        (λ _ v. sync_from_redis-Reads (with_service p app_state (new_service p) v))
