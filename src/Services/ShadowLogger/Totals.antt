-- ===== src/Services/ShadowLogger/Totals.antt =====
-- app/services/shadow_logger.py: the counts of get_shadow_stats.
use api_gateway_with_abuse_d.Prelude.{
  ℕ, ◌+◌, String, ◌≡◌, refl, sym, ◌∙◌, ap, Option, none, some, List, [], ◌∷◌, arith, ◌==◌, eq_iff,
  Bool-cases, inl, inr, if◌then◌else◌, map, ◌&&◌, starts_with,
}
use api_gateway_with_abuse_d.Redis.{get, exists, contains}
use api_gateway_with_abuse_d.Services.ShadowLogger.Distinct.{IsDistinct, weigh, weigh-same}
use api_gateway_with_abuse_d.Platform.{Platform}
use api_gateway_with_abuse_d.World.{World, ok}
use api_gateway_with_abuse_d.World.Inversion.{err≢ok, ok_injective}
use api_gateway_with_abuse_d.Services.ShadowLogger.{
  Stats, bump, rule_of, tally, get_shadow_stats, count_rule, no_stats, stats_of,
}

-- `stats.get(rule, 0)`
unfoldable pub count_of : String → List (String × ℕ) → ℕ
count_of rule [] = 0
count_of rule ((r, n) ∷ stats) = if r == rule then n else count_of rule stats

unfoldable pub total_of : List (String × ℕ) → ℕ
total_of [] = 0
total_of ((r, n) ∷ stats) = n + total_of stats

abbrev is_rule : String → Option String → ℕ
is_rule rule none = 0
is_rule rule (some r) = if r == rule then 1 else 0

-- How many of the stored values are an event of a rule.
unfoldable pub events : Platform → String → List (Option String) → ℕ
events p rule [] = 0
events p rule (raw ∷ values) = is_rule rule (rule_of p raw) + events p rule values

plus_assoc : (a b c : ℕ) → a + b + c ≡ a + (b + c)
plus_assoc a b c = omega arith

count_of-bump :
    (rule r : String) (stats : List (String × ℕ))
    → count_of rule (bump r stats) ≡ count_of rule stats + (if r == rule then 1 else 0)
unfolding count_of bump
count_of-bump rule r [] = ground arith
count_of-bump rule r ((s, n) ∷ stats) =
    ground (arith, eq_iff s r, eq_iff s rule, eq_iff r rule, count_of-bump rule r stats)

total_of-bump :
    (r : String) (stats : List (String × ℕ)) → total_of (bump r stats) ≡ total_of stats + 1
unfolding total_of bump
total_of-bump r [] = refl
total_of-bump r ((s, n) ∷ stats) = ground (arith, total_of-bump r stats)

count_rule-counts :
    (rule : String) (o : Option String) (s : Stats)
    → s.total ≡ total_of s.by_rule
    → (count_of rule (count_rule o s).by_rule ≡ count_of rule s.by_rule + is_rule rule o)
      × ((count_rule o s).total ≡ total_of (count_rule o s).by_rule)
count_rule-counts rule none s balanced = (omega arith, balanced)
count_rule-counts rule (some r) s balanced =
    (count_of-bump rule r s.by_rule, ap (λ n. n + 1) balanced ∙ sym (total_of-bump r s.by_rule))

tally-counts :
    (p : Platform) (rule : String) (values : List (Option String)) (s : Stats)
    → s.total ≡ total_of s.by_rule
    → (count_of rule (tally p values s).by_rule ≡ count_of rule s.by_rule + events p rule values)
      × ((tally p values s).total ≡ total_of (tally p values s).by_rule)
unfolding tally events
tally-counts p rule [] s balanced = (omega arith, balanced)
tally-counts p rule (raw ∷ values) s balanced =
    let (here, still) = count_rule-counts rule (rule_of p raw) s balanced in
    let (there, total) = tally-counts p rule values (count_rule (rule_of p raw) s) still in
    (
      there
          ∙ ap (λ n. n + events p rule values) here
          ∙ plus_assoc (count_of rule s.by_rule) (is_rule rule (rule_of p raw))
              (events p rule values),
      total,
    )

none_before : (n : ℕ) → 0 + n ≡ n
none_before n = omega arith

stats_of-counts :
    (p : Platform) (rule : String) (keys : List String) (stats : Stats) (w : World p)
    → (stats_of p keys w).0 ≡ ok stats
    → (count_of rule stats.by_rule ≡ events p rule (map (λ k. get p.redis w.now k w.db) keys))
      × (stats.total ≡ total_of stats.by_rule)
unfolding stats_of count_of total_of events
stats_of-counts p rule [] stats w h = rw (sym (ok_injective h)) (refl, refl)
stats_of-counts p rule (key ∷ keys) stats w h = elim (Bool-cases w.redis_up) [
  | inl up ↦ rw (sym (ok_injective (rw up at h))) (
      let (c, t) =
        tally-counts p rule (map (λ k. get p.redis w.now k w.db) (key ∷ keys)) no_stats refl in
      (c ∙ none_before _, t))
  | inr down ↦ absurd (err≢ok (rw down at h))
]

get_shadow_stats-visited :
    (p : Platform) (rule : String) (stats : Stats) (w : World p)
    → (get_shadow_stats p w).0 ≡ ok stats
    → (count_of rule stats.by_rule
        ≡ events p rule
            (map (λ k. get p.redis w.now k w.db) (p.redis.scan w.now "shadow_log:" w.db)))
      × (stats.total ≡ total_of stats.by_rule)
unfolding get_shadow_stats
get_shadow_stats-visited p rule stats w h = elim (Bool-cases w.redis_up) [
  | inl up ↦ stats_of-counts p rule (p.redis.scan w.now "shadow_log:" w.db) stats w (simp up at h)
  | inr down ↦ absurd (err≢ok (rw down at h))
]

events-map :
    (p : Platform) (rule : String) (read : String → Option String) (keys : List String)
    → events p rule (map read keys) ≡ weigh (λ k. is_rule rule (rule_of p (read k))) keys
unfolding events weigh
events-map p rule read [] = refl
events-map p rule read (k ∷ keys) =
    ap (λ n. is_rule rule (rule_of p (read k)) + n) (events-map p rule read keys)

-- Suppose that SCAN repeats no key. When the statistics are returned, each rule has as many events
-- as there are values of it in the store: as many as the values of the living keys that start with
-- shadow_log:, each counted once, whatever list of these keys is taken. The total is the sum over
-- the rules.
pub get_shadow_stats-counts :
    (p : Platform) (rule : String) (stats : Stats) (w : World p) (keys : List String)
    → IsDistinct keys
    → ((k : String)
        → contains k keys ≡ (starts_with k "shadow_log:" && exists p.redis w.now k w.db))
    → IsDistinct (p.redis.scan w.now "shadow_log:" w.db)
    → (get_shadow_stats p w).0 ≡ ok stats
    → (count_of rule stats.by_rule ≡ events p rule (map (λ k. get p.redis w.now k w.db) keys))
      × (stats.total ≡ total_of stats.by_rule)
get_shadow_stats-counts p rule stats w keys distinct stored once h =
    let visited = p.redis.scan w.now "shadow_log:" w.db in
    let read : String → Option String = λ k. get p.redis w.now k w.db in
    let same =
      weigh-same (λ k. is_rule rule (rule_of p (read k))) visited keys once distinct
        (λ k. p.redis.contains-scan w.now "shadow_log:" w.db k ∙ sym (stored k)) in
    let (counted, total) = get_shadow_stats-visited p rule stats w h in
    (counted ∙ events-map p rule read visited ∙ same ∙ sym (events-map p rule read keys), total)
