-- ===== src/App/Limits.antt =====
-- The size of the request log of each client in Redis.
use api_gateway_with_abuse_d.Prelude.{
  ℕ, suc, ◌+◌, ◌*◌, ◌≤◌, String, ◌≡◌, refl, sym, subst, false, ◌==◌, eq_iff, ltb, arith, Bool-cases,
  inl, inr,
}
use api_gateway_with_abuse_d.Prelude.Int.{sub_ℕ}
use api_gateway_with_abuse_d.Redis.{live, outside}
use api_gateway_with_abuse_d.Redis.Keys.{rate_limit}
use api_gateway_with_abuse_d.Platform.{Platform}
use api_gateway_with_abuse_d.Config.{Settings}
use api_gateway_with_abuse_d.World.{World}
use api_gateway_with_abuse_d.Services.RateLimiter.{sliding_window_script}
use api_gateway_with_abuse_d.App.{Event, handle}
use api_gateway_with_abuse_d.App.Commands.{
  Command, prune_log, log_request, expire_log, issue, cell-issue, in_script,
}
use api_gateway_with_abuse_d.App.Outcome.{Contract}
use api_gateway_with_abuse_d.App.Lasting.{handle-Good}
use api_gateway_with_abuse_d.App.Log.{
  pruned, added, answered, single-KeepsLog, cell-issue-own, other-answered,
}
use api_gateway_with_abuse_d.App.Size.{
  size, size-live, size-filter_cell, size-zadd_cell, size-expire_cell,
}

module _ (p : Platform) (limit : ℕ) where
  -- No client's log has more entries than the limit.
  unfoldable pub IsWithinLimit : p.redis.Db → Type 0
  IsWithinLimit db = (client_id : String) → size (p.redis.cell (rate_limit client_id) db) ≤ limit

  single-IsWithinLimit :
      (c : Command) (t : ℕ) (db : p.redis.Db)
      → in_script c ≡ false
      → IsWithinLimit db
      → IsWithinLimit (issue p c t db)
  unfolding IsWithinLimit
  single-IsWithinLimit c t db single h client_id =
      rw (cell-issue p c t db (rate_limit client_id), single-KeepsLog p c client_id single)
        (h client_id)

  module _ (x request_id : String) (now window t : ℕ) (db : p.redis.Db) where
    size-pruned :
        size (p.redis.cell (rate_limit x) (pruned p x request_id now window t db))
        ≤ size (p.redis.cell (rate_limit x) db)
    size-pruned = rw (cell-issue-own p (prune_log x now window) t db) (
        omega (
          arith,
          size-live t (p.redis.cell (rate_limit x) db),
          size-filter_cell (outside 0 (sub_ℕ now (window * 1000)))
              (live t (p.redis.cell (rate_limit x) db)),
        ))

    size-answered :
        size (p.redis.cell (rate_limit x) (answered p x request_id now window t db))
        ≤ suc (size (live t (p.redis.cell (rate_limit x) (pruned p x request_id now window t db))))
    size-answered =
        rw
          (
            cell-issue-own p (expire_log x (window + 1)) t (added p x request_id now window t db),
            size-expire_cell,
          )
          (let a =
              size-live t (p.redis.cell (rate_limit x) (added p x request_id now window t db)) in
            let b : size (p.redis.cell (rate_limit x) (added p x request_id now window t db))
                ≤ suc (
                    size (
                      live t
                        (p.redis.cell (rate_limit x) (pruned p x request_id now window t db)))) =
              rw
                (cell-issue-own p (log_request x now request_id) t
                  (pruned p x request_id now window t db))
                (size-zadd_cell now request_id
                  (live t (p.redis.cell (rate_limit x) (pruned p x request_id now window t db)))) in
            omega arith)

    script-IsWithinLimit :
        IsWithinLimit db
        → IsWithinLimit
            (sliding_window_script p.redis (rate_limit x) now window limit request_id t db).1
    unfolding sliding_window_script IsWithinLimit
    script-IsWithinLimit h client_id =
        elim (Bool-cases (
          ltb (size (live t (p.redis.cell (rate_limit x) (pruned p x request_id now window t db))))
            limit)) [
              | inl room ↦ simp room (elim (Bool-cases (rate_limit x == rate_limit client_id)) [
                | inr ne ↦
                    rw (other-answered p x request_id now window t db client_id ne).1 (h client_id)
                | inl own ↦
                    subst
                      (λ k. size (p.redis.cell k (answered p x request_id now window t db)) ≤ limit)
                      ((eq_iff _ _).0 own) (ground (arith, size-answered))
              ])
              | inr full ↦ simp full (elim (Bool-cases (rate_limit x == rate_limit client_id)) [
                | inr ne ↦
                    rw (other-answered p x request_id now window t db client_id ne).0 (h client_id)
                | inl own ↦
                    subst
                      (λ k. size (p.redis.cell k (pruned p x request_id now window t db)) ≤ limit)
                      ((eq_iff _ _).0 own) (omega (arith, size-pruned, h x))
              ])
            ]

-- The contract that no log outgrows the limit with which the rate limiter is called.
abbrev limited : (p : Platform) → ℕ → Contract p
limited p limit = record {
  Good = λ w. IsWithinLimit p limit w.db;
  Raises = λ e. Unit {0};
  Allows = λ n. n ≡ limit;
  later = λ ms w h. h;
  counted = λ m w h. h;
  measured = λ g w h. h;
  pooled = λ pool w h. h;
  drawn = λ w h. h;
  joined = λ u w registered missing added h. h;
  ip_added = λ ip f w added h. h;
  agent_added = λ agent f w added h. h;
  synced = λ b w h. h;
  issued = λ c w single h. single-IsWithinLimit p limit c w.now w.db single h;
  checked = λ client_id request_id n window w allows h.
      subst
        (λ l.
          IsWithinLimit p limit
            (sliding_window_script p.redis (rate_limit client_id) w.now window l request_id w.now
              w.db).1)
        (sym allows) (script-IsWithinLimit p limit client_id request_id w.now window w.now w.db h);
  full = tt;
  long = tt;
  lost = λ e. tt;
  down = λ w h off. tt;
  garbled = λ who s w h held none. tt;
}

pub handle-IsWithinLimit :
    (p : Platform) (settings : Settings) (e : Event) (w : World p)
    → IsWithinLimit p settings.rate_limit_requests w.db
    → IsWithinLimit p settings.rate_limit_requests (handle p settings e w).db
handle-IsWithinLimit p settings e w h =
    handle-Good (limited p settings.rate_limit_requests) settings e w (λ up v good. good) refl h
