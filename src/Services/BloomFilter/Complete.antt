-- ===== src/Services/BloomFilter/Complete.antt =====
-- app/services/bloom_filter.py: what both filters hold after a reload that returned.
use api_gateway_with_abuse_d.Prelude.{
  All, eq_refl, arith, [], ◌∷◌, ℕ, ◌+◌, String, ◌≡◌, refl, sym, inl, inr, true, false, Bool-cases,
  length, List,
}
use api_gateway_with_abuse_d.Redis.{smembers, contains}
use api_gateway_with_abuse_d.Platform.{Platform}
use api_gateway_with_abuse_d.World.{World, Result, ok, err, connection_error}
use api_gateway_with_abuse_d.World.Exec.{continue}
use api_gateway_with_abuse_d.World.Inversion.{continue-returned, ok_injective, err≢ok}
use api_gateway_with_abuse_d.Services.BloomFilter.{
  Instance, service, add_ips, add_agents, sync_from_redis, might_contain_ip, might_contain_agent,
  with_service,
}
use api_gateway_with_abuse_d.Services.BloomFilter.Sync.{
  add_ips-has, add_agents-has, add_agents-keeps, service-with_service,
}

-- The two empty filters, and the counters as they were.
All-contained :
    (P : String → Type 0) (xs : List String)
    → ((x : String) → contains x xs ≡ true → P x)
    → All P xs
unfolding contains
All-contained P [] h = tt
All-contained P (x ∷ xs) h =
    (h x (rw (eq_refl x) refl), All-contained P xs (λ y there. h y (ground (arith, there))))

abbrev pub cleared : (p : Platform) → Instance → World p → World p
cleared p i w =
    with_service p i
      (record (service p i w) { ip_filter = p.bloom.new; agent_filter = p.bloom.new }) w

abbrev pub counted : (p : Platform) → Instance → ℕ → ℕ → World p → World p
counted p i m n w =
    with_service p i (record (service p i w) { loaded_ip_count = m; loaded_agent_count = n }) w

module _ (p : Platform) (i : Instance) (ips agents : List String) where
  -- The part of the reload behind the two reads.
  abbrev pub load_agents : World p → Result ℕ × World p
  load_agents v =
      continue (add_agents p i agents v)
        (λ _ u. (ok (length ips + length agents), counted p i (length ips) (length agents) u))

  abbrev pub load : World p → Result ℕ × World p
  load w = continue (add_ips p i ips (cleared p i w)) (λ _ v. load_agents v)

  filters-counted :
      (m n : ℕ) (w : World p)
      → ((service p i (counted p i m n w)).ip_filter ≡ (service p i w).ip_filter)
        × ((service p i (counted p i m n w)).agent_filter ≡ (service p i w).agent_filter)
  filters-counted m n w =
      rw
        (service-with_service p i
          (record (service p i w) { loaded_ip_count = m; loaded_agent_count = n }) w)
        (refl, refl)

  load_agents-loaded :
      (v : World p) (n : ℕ)
      → (load_agents v).0 ≡ ok n
      → All (λ y. might_contain_agent p i y (load_agents v).1 ≡ true) agents
        × (n ≡ length ips + length agents)
  load_agents-loaded v n returned =
      let (a, done, step) = continue-returned (add_agents p i agents v) _ returned in
      let (_, same_agent) =
        filters-counted (length ips) (length agents) (add_agents p i agents v).1 in
      (
        All-contained _ agents (λ y here.
            rw (step, might_contain_agent, same_agent)
              (add_agents-has p y i agents v done (inl here))),
        sym (ok_injective (rw step at returned)),
      )

  load_agents-has_ip :
      (v : World p) (n : ℕ) (x : String)
      → (load_agents v).0 ≡ ok n
      → might_contain_ip p i x v ≡ true
      → might_contain_ip p i x (load_agents v).1 ≡ true
  load_agents-has_ip v n x returned hx =
      let (a, done, step) = continue-returned (add_agents p i agents v) _ returned in
      let (same_ip, same_agent) =
        filters-counted (length ips) (length agents) (add_agents p i agents v).1 in
      rw (step, might_contain_ip, same_ip, (add_agents-keeps p i agents v).1) hx

  load-has_ip :
      (w : World p) (n : ℕ) (x : String)
      → (load w).0 ≡ ok n
      → contains x ips ≡ true
      → might_contain_ip p i x (load w).1 ≡ true
  load-has_ip w n x returned hx =
      let (a, done, step) = continue-returned (add_ips p i ips (cleared p i w)) _ returned in
      rw step (
        load_agents-has_ip (add_ips p i ips (cleared p i w)).1 n x (rw step at returned)
          (add_ips-has p x i ips (cleared p i w) done (inl hx)))

  pub load-loaded :
      (w : World p) (n : ℕ)
      → (load w).0 ≡ ok n
      → All (λ x. might_contain_ip p i x (load w).1 ≡ true) ips
        × All (λ y. might_contain_agent p i y (load w).1 ≡ true) agents
        × (n ≡ length ips + length agents)
  load-loaded w n returned =
      let (a, done, step) = continue-returned (add_ips p i ips (cleared p i w)) _ returned in
      let v = (add_ips p i ips (cleared p i w)).1 in
      let (has_agents, number) = load_agents-loaded v n (rw step at returned) in
      (All-contained _ ips (λ x here. load-has_ip w n x returned here), rw step has_agents, number)

pub sync_from_redis-load :
    (p : Platform) (i : Instance) (w : World p)
    → w.redis_up ≡ true
    → sync_from_redis p i w
      ≡ load p i
          (smembers p.redis w.now "known_bad_ips" w.db)
          (smembers p.redis w.now "abusive_agents" w.db)
          w
unfolding sync_from_redis
sync_from_redis-load p i w up = simp up

pub sync_from_redis-down :
    (p : Platform) (i : Instance) (w : World p)
    → w.redis_up ≡ false
    → sync_from_redis p i w ≡ (err connection_error, w)
unfolding sync_from_redis
sync_from_redis-down p i w down = simp down

-- When a reload returns, every member of each of the two Redis sets is in its filter, whatever the
-- other set holds, and the answer is the number of members of both.
pub sync_from_redis_complete :
    (p : Platform) (i : Instance) (w : World p) (n : ℕ)
    → (sync_from_redis p i w).0 ≡ ok n
    → All
        (λ ip. might_contain_ip p i ip (sync_from_redis p i w).1 ≡ true)
        (smembers p.redis w.now "known_bad_ips" w.db)
      × All
          (λ agent. might_contain_agent p i agent (sync_from_redis p i w).1 ≡ true)
          (smembers p.redis w.now "abusive_agents" w.db)
      × (n
          ≡ length (smembers p.redis w.now "known_bad_ips" w.db)
            + length (smembers p.redis w.now "abusive_agents" w.db))
sync_from_redis_complete p i w n returned = elim (Bool-cases w.redis_up) [
  | inl up ↦ rw (sync_from_redis-load p i w up) (
      load-loaded p i (smembers p.redis w.now "known_bad_ips" w.db)
        (smembers p.redis w.now "abusive_agents" w.db) w n
        (rw (sync_from_redis-load p i w up) at returned))
  | inr down ↦ absurd (err≢ok (rw (sync_from_redis-down p i w down) at returned))
]

-- The filter of addresses alone, whatever the set of agents holds.
pub sync_from_redis-has_ip :
    (p : Platform) (i : Instance) (w : World p) (n : ℕ) (ip : String)
    → (sync_from_redis p i w).0 ≡ ok n
    → contains ip (smembers p.redis w.now "known_bad_ips" w.db) ≡ true
    → might_contain_ip p i ip (sync_from_redis p i w).1 ≡ true
sync_from_redis-has_ip p i w n ip returned h = elim (Bool-cases w.redis_up) [
  | inl up ↦ rw (sync_from_redis-load p i w up) (
      load-has_ip p i (smembers p.redis w.now "known_bad_ips" w.db)
        (smembers p.redis w.now "abusive_agents" w.db) w n ip
        (rw (sync_from_redis-load p i w up) at returned) h)
  | inr down ↦ absurd (err≢ok (rw (sync_from_redis-down p i w down) at returned))
]
