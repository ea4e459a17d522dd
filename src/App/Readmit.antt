-- ===== src/App/Readmit.antt =====
-- The rate limiter after a window without requests.
use api_gateway_with_abuse_d.Prelude.{
  ℕ, ◌+◌, ◌-◌, ◌*◌, ◌≤◌, ◌<◌, String, ◌≡◌, refl, ap, subst, true, Option, none, some, List, [], ◌∷◌,
  ◌==◌, eq_iff, All, keep, length, ltb, arith, Bool-cases, inl, inr,
}
use api_gateway_with_abuse_d.Prelude.Int.{sub_ℕ}
use api_gateway_with_abuse_d.Redis.{
  Cell, Value, Scored, text, members, scored, live, scored_of, zrange, zadd_cell, cut_value,
  filter_cell, outside,
}
use api_gateway_with_abuse_d.Redis.Keys.{rate_limit}
use api_gateway_with_abuse_d.Platform.{Platform}
use api_gateway_with_abuse_d.Config.{Settings}
use api_gateway_with_abuse_d.World.{World, ok}
use api_gateway_with_abuse_d.Services.RateLimiter.{check_rate_limit, sliding_window_script}
use api_gateway_with_abuse_d.App.{Event, elapse, handle}
use api_gateway_with_abuse_d.App.Commands.{prune_log, log_request, expire_log, issue, cell-issue}
use api_gateway_with_abuse_d.App.Outcome.{Contract}
use api_gateway_with_abuse_d.App.Lasting.{handle-Good}
use api_gateway_with_abuse_d.App.Past.{
  IsPast, live-IsPast, All-later, filter_cell-IsPast, zadd_cell-IsPast, expire_cell-IsPast,
}
use api_gateway_with_abuse_d.App.Log.{
  pruned, added, answered, single-KeepsLog, cell-issue-own, other-answered,
}

module _ (p : Platform) where
  -- No log has an entry from the future.
  abbrev pub ArePast : ℕ → p.redis.Db → Type 0
  ArePast now db = (client_id : String) → IsPast now (p.redis.cell (rate_limit client_id) db)

  module _ (x request_id : String) (now window t : ℕ) (db : p.redis.Db) where
    pruned-IsPast :
        IsPast now (p.redis.cell (rate_limit x) db)
        → IsPast now (p.redis.cell (rate_limit x) (pruned p x request_id now window t db))
    pruned-IsPast h = rw (cell-issue-own p (prune_log x now window) t db) (
        filter_cell-IsPast now (outside 0 (sub_ℕ now (window * 1000)))
          (live t (p.redis.cell (rate_limit x) db))
          (live-IsPast now t (p.redis.cell (rate_limit x) db) h))

    answered-IsPast :
        IsPast now (p.redis.cell (rate_limit x) db)
        → IsPast now (p.redis.cell (rate_limit x) (answered p x request_id now window t db))
    answered-IsPast h =
        let kept = live t (p.redis.cell (rate_limit x) (pruned p x request_id now window t db)) in
        let logged = zadd_cell now request_id kept in
        rw
          (
            cell-issue-own p (expire_log x (window + 1)) t (added p x request_id now window t db),
            cell-issue-own p (log_request x now request_id) t
                (pruned p x request_id now window t db),
          )
          (expire_cell-IsPast now t (window + 1) (live t logged) (
            live-IsPast now t logged (
              zadd_cell-IsPast now now request_id kept (omega arith) (
                live-IsPast now t
                  (p.redis.cell (rate_limit x) (pruned p x request_id now window t db))
                  (pruned-IsPast h)))))

    -- The script leaves the pruned log, or the one with the new entry.
    chosen :
        (limit : ℕ) (client_id : String)
        → IsPast now (p.redis.cell (rate_limit client_id) (pruned p x request_id now window t db))
        → IsPast now (p.redis.cell (rate_limit client_id) (answered p x request_id now window t db))
        → IsPast now (
            p.redis.cell
              (rate_limit client_id)
              (sliding_window_script p.redis (rate_limit x) now window limit request_id t db).1)
    unfolding sliding_window_script
    chosen limit client_id refused admitted =
        elim (Bool-cases (
          ltb (length (zrange p.redis t (rate_limit x) (pruned p x request_id now window t db)))
            limit)) [ inl room ↦ simp room admitted | inr full ↦ simp full refused ]

    script-ArePast :
        (limit : ℕ)
        → ArePast now db
        → ArePast now
            (sliding_window_script p.redis (rate_limit x) now window limit request_id t db).1
    unfolding sliding_window_script
    script-ArePast limit h client_id =
        let before = pruned p x request_id now window t db in
        let after = answered p x request_id now window t db in
        let others = other-answered p x request_id now window t db client_id in
        elim (Bool-cases (rate_limit x == rate_limit client_id)) [
          | inl own ↦
              let same = (eq_iff _ _).0 own in
              chosen limit client_id
                (subst (λ k. IsPast now (p.redis.cell k before)) same (pruned-IsPast (h x)))
                (subst (λ k. IsPast now (p.redis.cell k after)) same (answered-IsPast (h x)))
          | inr ne ↦
              chosen limit client_id (rw (others ne).0 (h client_id))
                (rw (others ne).1 (h client_id))
        ]

pub ArePast-later :
    (p : Platform) (t ms : ℕ) (db : p.redis.Db) → ArePast p t db → ArePast p (t + ms) db
ArePast-later p t ms db h client_id =
    All-later t (t + ms) (scored_of (p.redis.cell (rate_limit client_id) db)) (omega arith)
      (h client_id)

-- The contract that the logs are of the past: the clock never goes back.
abbrev past : (p : Platform) → Contract p
past p = record {
  Good = λ w. ArePast p w.now w.db;
  Raises = λ e. Unit {0};
  Allows = λ limit. Unit {0};
  later = λ ms w h. ArePast-later p w.now ms w.db h;
  counted = λ m w h. h;
  measured = λ g w h. h;
  pooled = λ pool w h. h;
  drawn = λ w h. h;
  joined = λ u w registered missing added h. h;
  ip_added = λ ip f w added h. h;
  agent_added = λ agent f w added h. h;
  synced = λ b w h. h;
  issued = λ c w single h client_id.
      rw (cell-issue p c w.now w.db (rate_limit client_id), single-KeepsLog p c client_id single)
        (h client_id);
  checked = λ client_id request_id limit window w allows h.
      script-ArePast p client_id request_id w.now window w.now w.db limit h;
  full = tt;
  long = tt;
  lost = λ e. tt;
  down = λ w h off. tt;
  garbled = λ who s w h held none. tt;
}

keep-expired :
    (s t window : ℕ) (xs : List Scored)
    → s + window * 1000 ≤ t
    → All (λ e. e.score ≤ s) xs
    → keep (outside 0 (sub_ℕ t (window * 1000))) xs ≡ []
keep-expired s t window [] le h = refl
keep-expired s t window (x ∷ xs) le (h, hs) = ground (arith, keep-expired s t window xs le hs)

cut_value-expired :
    (s t window : ℕ) (v : Value) (d : Option ℕ)
    → s + window * 1000 ≤ t
    → IsPast s (some (record { value = v; deadline = d }))
    → scored_of (live t (cut_value (keep (outside 0 (sub_ℕ t (window * 1000)))) d v)) ≡ []
cut_value-expired s t window (scored xs) d le h = rw (keep-expired s t window xs le h) refl
cut_value-expired s t window (text x) d le h = ground arith
cut_value-expired s t window (members ms) d le h = ground arith

filter_cell-expired :
    (s t window : ℕ) (cell : Option Cell)
    → s + window * 1000 ≤ t
    → IsPast s cell
    → scored_of (live t (filter_cell (outside 0 (sub_ℕ t (window * 1000))) cell)) ≡ []
filter_cell-expired s t window none le h = refl
filter_cell-expired s t window (some c) le h = cut_value-expired s t window c.value c.deadline le h

zrange-expired :
    (p : Platform) (client_id : String) (s t window : ℕ) (db : p.redis.Db)
    → s + window * 1000 ≤ t
    → IsPast s (p.redis.cell (rate_limit client_id) db)
    → zrange p.redis t (rate_limit client_id) (issue p (prune_log client_id t window) t db) ≡ []
zrange-expired p client_id s t window db le h =
    rw (cell-issue-own p (prune_log client_id t window) t db) (
      filter_cell-expired s t window (live t (p.redis.cell (rate_limit client_id) db)) le
        (live-IsPast s t (p.redis.cell (rate_limit client_id) db) h))

nothing_used : (limit : ℕ) → limit - 0 ≡ limit
nothing_used limit = omega arith

pub handle-ArePast :
    (p : Platform) (settings : Settings) (e : Event) (w : World p)
    → ArePast p w.now w.db
    → ArePast p (handle p settings e w).now (handle p settings e w).db
handle-ArePast p settings e w h = handle-Good (past p) settings e w (λ up v good. good) tt h

pub check_rate_limit-readmits :
    (p : Platform) (settings : Settings) (client_id : String) (limit window ms : ℕ) (w : World p)
    → ArePast p w.now w.db
    → 0 < limit
    → window * 1000 ≤ ms
    → w.redis_up ≡ true
    → (check_rate_limit p client_id limit window (handle p settings (elapse ms) w)).0
      ≡ ok (true, limit - 1)
unfolding check_rate_limit sliding_window_script handle
check_rate_limit-readmits p settings client_id limit window ms w held some_limit quiet up =
    let room : ltb 0 limit ≡ true = ground arith in
    simp
      (
        up,
        zrange-expired p client_id w.now (w.now + ms) window w.db (omega arith) (held client_id),
        room,
      )
      (ap (λ n. ok (true, n - 1)) (nothing_used limit))
