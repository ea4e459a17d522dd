-- ===== src/Services/BloomFilter/Sync.antt =====
-- app/services/bloom_filter.py: the two loops of a reload.
use mathlib.Core.Bool.{false≢true}
use api_gateway_with_abuse_d.Prelude.{
  String, ◌≡◌, refl, subst, ◌⊎◌, inl, inr, Bool, true, false, ◌||◌, some, List, [], ◌∷◌, ◌==◌,
  eq_iff, Option-cases,
}
use api_gateway_with_abuse_d.Redis.{contains}
use api_gateway_with_abuse_d.Platform.{Platform}
use api_gateway_with_abuse_d.World.{World, ok, BloomService}
use api_gateway_with_abuse_d.World.Inversion.{err≢ok}
use api_gateway_with_abuse_d.Services.BloomFilter.{
  Instance, app_state, worker, service, add_ips, add_agents, might_contain_ip, might_contain_agent,
  with_service,
}

or_later :
    (same rest had has : Bool)
    → ((same || rest) ≡ true) ⊎ (had ≡ true)
    → ((same ≡ true) ⊎ (had ≡ true) → has ≡ true)
    → (rest ≡ true) ⊎ (has ≡ true)
or_later true rest had has h f = inr (f (inl refl))
or_later false rest had has (inl h) f = inl h
or_later false rest had has (inr h) f = inr (f (inr h))

pub service-with_service :
    (p : Platform) (i : Instance) (b : BloomService p) (w : World p)
    → service p i (with_service p i b w) ≡ b
service-with_service p app_state b w = refl
service-with_service p worker b w = refl

module _ (p : Platform) (x : String) where
  -- A filter that has taken `y` in has `y`, and all that it had before.
  has-taken :
      (y : String) (f g : p.bloom.Filter)
      → p.bloom.add y f ≡ some g
      → ((y == x) ≡ true) ⊎ (p.bloom.has x f ≡ true)
      → p.bloom.has x g ≡ true
  has-taken y f g e (inl same) =
      subst (λ z. p.bloom.has z g ≡ true) ((eq_iff y x).0 same) (p.bloom.has-add y f e)
  has-taken y f g e (inr had) = p.bloom.has-add_other x y f e had

  pub add_ips-has :
      (i : Instance) (ips : List String) (w : World p)
      → (add_ips p i ips w).0 ≡ ok tt
      → (contains x ips ≡ true) ⊎ (might_contain_ip p i x w ≡ true)
      → might_contain_ip p i x (add_ips p i ips w).1 ≡ true
  unfolding add_ips contains
  add_ips-has i [] w done (inl h) = absurd (false≢true h)
  add_ips-has i [] w done (inr h) = h
  add_ips-has i (ip ∷ ips) w done h =
      elim (Option-cases (p.bloom.add ip (service p i w).ip_filter)) [
        | inl full ↦ absurd (err≢ok (rw full at done))
        | inr (f, room) ↦
            let w' = with_service p i (record (service p i w) { ip_filter = f }) w in
            let same = service-with_service p i (record (service p i w) { ip_filter = f }) w in
            rw room (
              add_ips-has i ips w' (rw room at done) (
                rw (same, might_contain_ip)
                  (or_later (ip == x) (contains x ips) (p.bloom.has x (service p i w).ip_filter)
                    (p.bloom.has x f) h (has-taken ip (service p i w).ip_filter f room))))
      ]

  pub add_agents-has :
      (i : Instance) (agents : List String) (w : World p)
      → (add_agents p i agents w).0 ≡ ok tt
      → (contains x agents ≡ true) ⊎ (might_contain_agent p i x w ≡ true)
      → might_contain_agent p i x (add_agents p i agents w).1 ≡ true
  unfolding add_agents contains
  add_agents-has i [] w done (inl h) = absurd (false≢true h)
  add_agents-has i [] w done (inr h) = h
  add_agents-has i (agent ∷ agents) w done h =
      elim (Option-cases (p.bloom.add agent (service p i w).agent_filter)) [
        | inl full ↦ absurd (err≢ok (rw full at done))
        | inr (f, room) ↦
            let w' = with_service p i (record (service p i w) { agent_filter = f }) w in
            let same = service-with_service p i (record (service p i w) { agent_filter = f }) w in
            rw room (
              add_agents-has i agents w' (rw room at done) (
                rw (same, might_contain_agent)
                  (or_later (agent == x) (contains x agents)
                    (p.bloom.has x (service p i w).agent_filter) (p.bloom.has x f) h
                    (has-taken agent (service p i w).agent_filter f room))))
      ]

-- What loading one filter leaves alone.
module _ (p : Platform) where
  pub add_ips-keeps :
      (i : Instance) (ips : List String) (w : World p)
      → ((add_ips p i ips w).1.db ≡ w.db)
        × ((service p i (add_ips p i ips w).1).agent_filter ≡ (service p i w).agent_filter)
  unfolding add_ips
  add_ips-keeps i [] w = (refl, refl)
  add_ips-keeps app_state (ip ∷ ips) w = elim (Option-cases (p.bloom.add ip w.bloom.ip_filter)) [
    | inl full ↦ rw full (refl, refl)
    | inr (f, room) ↦
        rw room
          (add_ips-keeps app_state ips (record w { bloom = record w.bloom { ip_filter = f } }))
  ]
  add_ips-keeps worker (ip ∷ ips) w =
      elim (Option-cases (p.bloom.add ip w.worker_bloom.ip_filter)) [
        | inl full ↦ rw full (refl, refl)
        | inr (f, room) ↦ rw room (
            add_ips-keeps worker ips
              (record w { worker_bloom = record w.worker_bloom { ip_filter = f } }))
      ]

  pub add_agents-keeps :
      (i : Instance) (agents : List String) (w : World p)
      → ((add_agents p i agents w).1.db ≡ w.db)
        × ((service p i (add_agents p i agents w).1).ip_filter ≡ (service p i w).ip_filter)
  unfolding add_agents
  add_agents-keeps i [] w = (refl, refl)
  add_agents-keeps app_state (agent ∷ agents) w =
      elim (Option-cases (p.bloom.add agent w.bloom.agent_filter)) [
        | inl full ↦ rw full (refl, refl)
        | inr (f, room) ↦ rw room (
            add_agents-keeps app_state agents
              (record w { bloom = record w.bloom { agent_filter = f } }))
      ]
  add_agents-keeps worker (agent ∷ agents) w =
      elim (Option-cases (p.bloom.add agent w.worker_bloom.agent_filter)) [
        | inl full ↦ rw full (refl, refl)
        | inr (f, room) ↦ rw room (
            add_agents-keeps worker agents
              (record w { worker_bloom = record w.worker_bloom { agent_filter = f } }))
      ]
