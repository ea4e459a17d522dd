-- ===== src/App/Log.antt =====
-- The commands that write the request log of a client: those of the rate limiter's script, and no
-- other.
use api_gateway_with_abuse_d.Prelude.{
  ℕ, ◌+◌, String, ◌≡◌, refl, sym, ap, ◌∙◌, false, ◌==◌, eq_refl, arith, append-ne_of_second,
  ==-eq_false,
}
use api_gateway_with_abuse_d.Redis.Keys.{rate_limit}
use api_gateway_with_abuse_d.Platform.{Platform}
use api_gateway_with_abuse_d.App.Commands.{
  Command, prune_log, log_request, expire_log, log_time, trim_times, expire_times, issue, key_of,
  effect, cell-issue, in_script, initial, initial_of, initial-key_of, initial-append,
}

module _ (p : Platform) where
  abbrev pub KeepsLog : Command → String → Type 0
  KeepsLog c client_id = (key_of c == rate_limit client_id) ≡ false

  other_initial :
      (c : Command) (client_id : String) → (initial_of c ≡ b'r' → ⊥) → KeepsLog c client_id
  unfolding initial
  other_initial c client_id ne =
      ==-eq_false _ _ (λ e.
        ne (sym (initial-key_of c) ∙ ap initial e ∙ initial-append "r" "ate_limit:" client_id))

  -- Only the script writes a log.
  pub single-KeepsLog :
      (c : Command) (client_id : String) → in_script c ≡ false → KeepsLog c client_id
  single-KeepsLog (log_time x now) client_id single =
      append-ne_of_second "r" "e" "a" "quest_times:" "te_limit:" x client_id refl
  single-KeepsLog (trim_times x n) client_id single =
      append-ne_of_second "r" "e" "a" "quest_times:" "te_limit:" x client_id refl
  single-KeepsLog (expire_times x) client_id single =
      append-ne_of_second "r" "e" "a" "quest_times:" "te_limit:" x client_id refl
  single-KeepsLog (prune_log x now window) client_id single = cc
  single-KeepsLog (log_request x now rid) client_id single = cc
  single-KeepsLog (expire_log x secs) client_id single = cc
  single-KeepsLog c client_id single = other_initial c client_id (λ e. omega arith)

  pub cell-issue-own :
      (c : Command) (t : ℕ) (db : p.redis.Db)
      → p.redis.cell (key_of c) (issue p c t db) ≡ effect p c t (p.redis.cell (key_of c) db)
  cell-issue-own c t db = cell-issue p c t db (key_of c) ∙ rw eq_refl refl

  module _ (x request_id : String) (now window t : ℕ) (db : p.redis.Db) where
    abbrev pub pruned : p.redis.Db
    pruned = issue p (prune_log x now window) t db

    abbrev pub added : p.redis.Db
    added = issue p (log_request x now request_id) t pruned

    abbrev pub answered : p.redis.Db
    answered = issue p (expire_log x (window + 1)) t added

    pub other-answered :
        (client_id : String)
        → (rate_limit x == rate_limit client_id) ≡ false
        → (p.redis.cell (rate_limit client_id) pruned ≡ p.redis.cell (rate_limit client_id) db)
          × (p.redis.cell (rate_limit client_id) answered ≡ p.redis.cell (rate_limit client_id) db)
    other-answered client_id ne =
        let first : p.redis.cell (rate_limit client_id) pruned
            ≡ p.redis.cell (rate_limit client_id) db =
          cell-issue p (prune_log x now window) t db (rate_limit client_id) ∙ rw ne refl in
        (
          first,
          cell-issue p (expire_log x (window + 1)) t added (rate_limit client_id)
              ∙ rw ne (
                  cell-issue p (log_request x now request_id) t pruned (rate_limit client_id)
                  ∙ rw ne first),
        )
