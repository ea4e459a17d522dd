-- ===== src/Services/ShadowLogger.antt =====
-- app/services/shadow_logger.py: the log of would-be blocks, and its count by rule.
pub mod Distinct
pub mod Totals
use api_gateway_with_abuse_d.Prelude.{
  ℕ, ◌+◌, ◌/◌, String, Bool, Option, none, some, List, [], ◌∷◌, map, ◌==◌, if◌then◌else◌,
}
use api_gateway_with_abuse_d.Redis.{get}
use api_gateway_with_abuse_d.Redis.Keys.{shadow_log}
use api_gateway_with_abuse_d.Platform.{Platform, ShadowEvent}
use api_gateway_with_abuse_d.World.{Exec}
use api_gateway_with_abuse_d.World.Exec.{pure, now_ms, query, execute, ◌>>=◌, ◌>>◌}

abbrev pub shadow_log_ttl : ℕ
shadow_log_ttl = 86400

-- ShadowLogger.log_shadow_event
unfoldable pub log_shadow_event :
    (p : Platform) → String → String → String → String → String → Exec p (Unit {0})
log_shadow_event p request_id rule_triggered client_id path reason = do
  now ← now_ms p
  let event : ShadowEvent = record {
    request_id = request_id;
    rule_triggered = rule_triggered;
    client_id = client_id;
    path = path;
    reason = reason;
    timestamp = now / 1000;
  }
  execute p
      (λ t db. p.redis.set t (shadow_log request_id) (p.json.dumps event) (some shadow_log_ttl) db)

-- `stats[rule] = stats.get(rule, 0) + 1`
unfoldable pub bump : String → List (String × ℕ) → List (String × ℕ)
bump rule [] = (rule, 1) ∷ []
bump rule ((r, n) ∷ stats) = if r == rule then (r, n + 1) ∷ stats else (r, n) ∷ bump rule stats

-- The rule of a stored value; an empty or missing value, or one that is no JSON, has none.
unfoldable pub rule_of : Platform → Option String → Option String
rule_of p none = none
rule_of p (some raw) = if raw == "" then none else p.json.loads_rule raw

pub record Stats : Type 0 where
  pub total : ℕ
  pub by_rule : List (String × ℕ)

abbrev pub count_rule : Option String → Stats → Stats
count_rule none s = s
count_rule (some rule) s = record { total = s.total + 1; by_rule = bump rule s.by_rule }

-- The loop over the values.
unfoldable pub tally : Platform → List (Option String) → Stats → Stats
unfolding bump rule_of
tally p [] s = s
tally p (raw ∷ values) s = tally p values (count_rule (rule_of p raw) s)

abbrev pub no_stats : Stats
no_stats = record { total = 0; by_rule = [] }

abbrev pub stats_of : (p : Platform) → List String → Exec p Stats
unfolding tally
stats_of p [] = pure no_stats
stats_of p (key ∷ keys) = do
  values ← query p (λ t db. map (λ k. get p.redis t k db) (key ∷ keys))
  pure (tally p values no_stats)

-- ShadowLogger.get_shadow_stats
unfoldable pub get_shadow_stats : (p : Platform) → Exec p Stats
unfolding tally
get_shadow_stats p = do keys ← query p (λ t db. p.redis.scan t "shadow_log:" db); stats_of p keys
