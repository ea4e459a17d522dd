-- ===== src/App/Signals.antt =====
-- The signals of the abuse detector, and the writes of the Bloom filter service, under a contract.
use api_gateway_with_abuse_d.Prelude.{
  ℕ, String, ◌≡◌, refl, ◌==◌, Option, none, some, int, Bool-cases, Option-cases, inl, inr, [], ◌∷◌,
}
use api_gateway_with_abuse_d.Redis.{get}
use api_gateway_with_abuse_d.Redis.Keys.{failed_auth}
use api_gateway_with_abuse_d.Platform.{Platform}
use api_gateway_with_abuse_d.Config.{Settings}
use api_gateway_with_abuse_d.World.{World, value_error}
use api_gateway_with_abuse_d.World.Exec.{execute}
use api_gateway_with_abuse_d.World.Http.{Request}
use api_gateway_with_abuse_d.Services.AbuseDetector.{int_or_zero, mget, is_credential_stuffing}
use api_gateway_with_abuse_d.Services.BloomFilter.{app_state, add_ip_to_redis, add_agent_to_redis}
use api_gateway_with_abuse_d.Middleware.AbuseDetector.{
  gather_and_score, detected_ip, detected_client,
}
use api_gateway_with_abuse_d.App.Outcome.{
  Contract, returned, raised, Runs, continue-Settles, query-continue, execute-Settles,
}
use api_gateway_with_abuse_d.App.Commands.{issue_all, store_ip, store_agent}
use api_gateway_with_abuse_d.App.Services.{
  record_request_timing-Runs, compute_timing_entropy-Runs, compute_abuse_score-Runs,
}

module _ {p : Platform} (c : Contract p) where
  -- A text that is no number can be read only where the contract allows for it.
  abbrev IsFair : Option String → Type 0
  IsFair raw = (s : String) → raw ≡ some s → int s ≡ none → c.Raises value_error

  int_or_zero-Runs : (raw : Option String) → IsFair raw → Runs c (int_or_zero raw)
  int_or_zero-Runs none fair w good = returned tt good
  int_or_zero-Runs (some s) fair w good = elim (Bool-cases (s == "")) [
    | inl empty ↦ simp empty (returned tt good)
    | inr there ↦ elim (Option-cases (int s)) [
      | inl garbled ↦ simp (there, garbled) (raised (fair s refl garbled) good)
      | inr (n, number) ↦ simp (there, number) (returned tt good)
    ]
  ]

  count-IsFair :
      (who : String) (w : World p) → c.Good w → IsFair (get p.redis w.now (failed_auth who) w.db)
  count-IsFair who w good s = c.garbled who s w good

  pub is_credential_stuffing-Runs :
      (ip username : String) (ip_threshold user_threshold : ℕ)
      → Runs c (is_credential_stuffing p ip username ip_threshold user_threshold)
  unfolding is_credential_stuffing
  is_credential_stuffing-Runs ip username ip_threshold user_threshold w good =
      query-continue c (mget p (failed_auth ip) (failed_auth username)) _ w good (
        continue-Settles c _ (int_or_zero-Runs _ (count-IsFair ip w good) w good) (λ a v good'.
          continue-Settles c _ (int_or_zero-Runs _ (count-IsFair username w good) v good')
            (λ b u good''. returned tt good'')))

  pub gather_and_score-Runs :
      (settings : Settings) (request : Request) → Runs c (gather_and_score p settings request)
  unfolding gather_and_score
  gather_and_score-Runs settings request w good =
      let ip = detected_ip request in
      let client = detected_client request in
      query-continue c (mget p (failed_auth ip) (failed_auth client)) _ w good (
        continue-Settles c _ (int_or_zero-Runs _ (count-IsFair ip w good) w good) (λ a v1 g1.
          continue-Settles c _ (int_or_zero-Runs _ (count-IsFair client w good) v1 g1) (λ b v2 g2.
            continue-Settles c _
              (record_request_timing-Runs c client settings.scraping_sample_size v2 g2)
              (λ done v3 g3.
                continue-Settles c _ (compute_timing_entropy-Runs c client v3 g3) (λ e v4 g4.
                  compute_abuse_score-Runs c ip a b e settings.auth_failure_ip_threshold
                    settings.auth_failure_user_threshold settings.scraping_entropy_threshold v4
                    g4)))))

  pub add_ip_to_redis-Runs : (ip : String) → Runs c (add_ip_to_redis p app_state ip)
  unfolding add_ip_to_redis
  add_ip_to_redis-Runs ip w good =
      continue-Settles c {r = execute p (issue_all p (store_ip ip ∷ [])) w} _
        (execute-Settles c (store_ip ip ∷ []) w (refl, tt) good)
        (λ done v good'. elim (Option-cases (p.bloom.add ip v.bloom.ip_filter)) [
          | inl full ↦ simp full (raised c.full good')
          | inr (f, room) ↦ simp room (returned tt (c.ip_added ip f v room good'))
        ])

  pub add_agent_to_redis-Runs : (agent : String) → Runs c (add_agent_to_redis p app_state agent)
  unfolding add_agent_to_redis
  add_agent_to_redis-Runs agent w good =
      continue-Settles c {r = execute p (issue_all p (store_agent agent ∷ [])) w} _
        (execute-Settles c (store_agent agent ∷ []) w (refl, tt) good)
        (λ done v good'. elim (Option-cases (p.bloom.add agent v.bloom.agent_filter)) [
          | inl full ↦ simp full (raised c.full good')
          | inr (f, room) ↦ simp room (returned tt (c.agent_added agent f v room good'))
        ])
