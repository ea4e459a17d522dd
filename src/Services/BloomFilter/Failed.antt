-- ===== src/Services/BloomFilter/Failed.antt =====
-- app/services/bloom_filter.py: what a reload that raises leaves behind.
use api_gateway_with_abuse_d.Prelude.{
  ◌+◌, String, ◌≡◌, refl, sym, ◌∙◌, ◌⊎◌, true, false, List, [], ◌∷◌, Bool-cases, Option-cases, inl,
  inr, length,
}
use api_gateway_with_abuse_d.Redis.{smembers}
use api_gateway_with_abuse_d.Platform.{Platform}
use api_gateway_with_abuse_d.World.{
  World, Exec, Exn, Result, ok, err, connection_error, index_error,
}
use api_gateway_with_abuse_d.World.Exec.{continue}
use api_gateway_with_abuse_d.World.Inversion.{err≢ok, err_injective}
use api_gateway_with_abuse_d.Services.BloomFilter.{
  Instance, service, add_ips, add_agents, sync_from_redis,
}
use api_gateway_with_abuse_d.Services.BloomFilter.Complete.{
  cleared, counted, load, load_agents, sync_from_redis-load, sync_from_redis-down,
}

-- An answer that is an error only as IndexError.
OnlyIndex : {A : Type 0} → Result A → Type 0
OnlyIndex (ok a) = Unit {0}
OnlyIndex (err e) = e ≡ index_error

continue-OnlyIndex :
    {p : Platform} {A B : Type 0} (r : Result A × World p) (f : A → Exec p B)
    → OnlyIndex r.0
    → ((a : A) (v : World p) → OnlyIndex (f a v).0)
    → OnlyIndex (continue r f).0
unfolding OnlyIndex
continue-OnlyIndex (ok a, v) f first next = next a v
continue-OnlyIndex (err e, v) f first next = first

module _ (p : Platform) (i : Instance) where
  add_ips-OnlyIndex : (ips : List String) (w : World p) → OnlyIndex (add_ips p i ips w).0
  unfolding add_ips OnlyIndex
  add_ips-OnlyIndex [] w = tt
  add_ips-OnlyIndex (ip ∷ ips) w = elim (Option-cases (p.bloom.add ip (service p i w).ip_filter)) [
    | inl full ↦ rw full refl
    | inr (f, room) ↦ rw room (add_ips-OnlyIndex ips _)
  ]

  add_agents-OnlyIndex :
      (agents : List String) (w : World p) → OnlyIndex (add_agents p i agents w).0
  unfolding add_agents OnlyIndex
  add_agents-OnlyIndex [] w = tt
  add_agents-OnlyIndex (agent ∷ agents) w =
      elim (Option-cases (p.bloom.add agent (service p i w).agent_filter)) [
        | inl full ↦ rw full refl
        | inr (f, room) ↦ rw room (add_agents-OnlyIndex agents _)
      ]

  load-OnlyIndex : (ips agents : List String) (w : World p) → OnlyIndex (load p i ips agents w).0
  unfolding OnlyIndex
  load-OnlyIndex ips agents w =
      continue-OnlyIndex (add_ips p i ips (cleared p i w)) (λ _ v. load_agents p i ips agents v)
        (add_ips-OnlyIndex ips (cleared p i w))
        (λ _ v.
          continue-OnlyIndex (add_agents p i agents v)
            (λ _ u. (ok (length ips + length agents), counted p i (length ips) (length agents) u))
            (add_agents-OnlyIndex agents v) (λ _ u. tt))

index_of : {A : Type 0} (r : Result A) {e : Exn} → OnlyIndex r → r ≡ err e → e ≡ index_error
unfolding OnlyIndex
index_of (ok a) only h = absurd (err≢ok (sym h))
index_of (err d) only h = err_injective (err d) h refl ∙ only

-- A reload raises one of two errors: ConnectionError, while Redis is down, and then nothing has
-- changed, so that the filters keep their last state; or IndexError of a full filter, while Redis
-- is up.
pub sync_from_redis-failed :
    (p : Platform) (i : Instance) (w : World p) (e : Exn)
    → (sync_from_redis p i w).0 ≡ err e
    → ((e ≡ connection_error) × (w.redis_up ≡ false) × ((sync_from_redis p i w).1 ≡ w))
      ⊎ ((e ≡ index_error) × (w.redis_up ≡ true))
sync_from_redis-failed p i w e h = elim (Bool-cases w.redis_up) [
  | inl up ↦
      let ips = smembers p.redis w.now "known_bad_ips" w.db in
      let agents = smembers p.redis w.now "abusive_agents" w.db in
      inr (
        index_of (load p i ips agents w).0 (load-OnlyIndex p i ips agents w)
            (rw (sync_from_redis-load p i w up) at h),
        up,
      )
  | inr down ↦ inl (
    err_injective (err e) refl (sym h ∙ rw (sync_from_redis-down p i w down) refl),
    down,
    rw (sync_from_redis-down p i w down) refl,
  )
]
