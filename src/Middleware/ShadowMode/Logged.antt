-- ===== src/Middleware/ShadowMode/Logged.antt =====
-- app/middleware/shadow_mode.py: what becomes of a request that was flagged.
use api_gateway_with_abuse_d.Prelude.{
  ℕ, ◌+◌, ◌*◌, String, ◌≡◌, refl, arith, Bool, true, false, none, some, ltb, ◌==◌, eq_refl,
  if◌then◌else◌, Bool-cases, inl, inr,
}
use api_gateway_with_abuse_d.Redis.{get}
use api_gateway_with_abuse_d.Redis.Keys.{shadow_log}
use api_gateway_with_abuse_d.Platform.{Platform}
use api_gateway_with_abuse_d.Config.{Settings}
use api_gateway_with_abuse_d.World.{World, Exec, ok}
use api_gateway_with_abuse_d.World.Http.{Request, Response, or_else}
use api_gateway_with_abuse_d.World.Inversion.{continue-ok, err≢ok}
use api_gateway_with_abuse_d.Core.RedisClient.{is_shadow_mode_enabled}
use api_gateway_with_abuse_d.Services.ShadowLogger.{log_shadow_event, rule_of}
use api_gateway_with_abuse_d.Middleware.ShadowMode.{shadow_mode_dispatch, log_rule}

module _ (p : Platform) (settings : Settings) (request : Request) (rule : String)
    (some_rule : (rule == "") ≡ false) where
  flag-keeps : (fallback : Bool) (v : World p) → (is_shadow_mode_enabled p fallback v).1 ≡ v
  unfolding is_shadow_mode_enabled
  flag-keeps fallback v = ground arith

  flag-up :
      (fallback : Bool) (v : World p)
      → (is_shadow_mode_enabled p fallback v).0 ≡ ok true
      → v.redis_up ≡ true
  unfolding is_shadow_mode_enabled
  flag-up fallback v on = elim (Bool-cases v.redis_up) [
    | inl up ↦ up
    | inr down ↦ absurd (err≢ok (rw down at on))
  ]

  log_rule-stored :
      (t : ℕ) (v : World p)
      → v.redis_up ≡ true
      → ((log_rule p request rule v).0 ≡ ok tt)
        × (rule_of p (
              get p.redis t
                (shadow_log (or_else request.state.request_id "unknown"))
                (log_rule p request rule v).1.db)
            ≡ (if ltb t (v.now + 86400 * 1000) then some rule else none))
  unfolding log_shadow_event rule_of
  log_rule-stored t v up =
      let id = or_else request.state.request_id "unknown" in
      simp (up, p.redis.cell-set, eq_refl)
        (
          refl,
          elim (Bool-cases (ltb t (v.now + 86400 * 1000))) [
            | inl fresh ↦ simp (fresh, p.json.dumps-ne_empty, p.json.loads-dumps)
            | inr stale ↦ simp stale
          ],
        )

  -- When what is behind returned a response and the shadow mode is on then, a request that was flagged
  -- with a rule gets this response, and for a day from then on the log of the request has the rule.
  pub shadow_mode_dispatch-logs :
      (call_next : Request → Exec p Response) (response : Response) (t : ℕ) (w : World p)
      → request.state.shadow_rule ≡ some rule
      → (call_next request w).0 ≡ ok response
      → (is_shadow_mode_enabled p settings.shadow_mode_enabled (call_next request w).1).0 ≡ ok true
      → ((shadow_mode_dispatch p settings call_next request w).0 ≡ ok response)
        × (rule_of p (
              get p.redis t
                (shadow_log (or_else request.state.request_id "unknown"))
                (shadow_mode_dispatch p settings call_next request w).1.db)
            ≡ (if ltb t ((call_next request w).1.now + 86400 * 1000) then some rule else none))
  unfolding shadow_mode_dispatch
  shadow_mode_dispatch-logs call_next response t w flagged returned on =
      let v = (call_next request w).1 in
      let (done, stored) = log_rule-stored t v (flag-up settings.shadow_mode_enabled v on) in
      simp
        (
          continue-ok (call_next request w) _ returned,
          continue-ok (is_shadow_mode_enabled p settings.shadow_mode_enabled v) _ on,
          flag-keeps settings.shadow_mode_enabled v,
          flagged,
          some_rule,
          continue-ok (log_rule p request rule v) _ done,
        )
        (refl, stored)
