-- ===== src/App/Commands.antt =====
-- The writes to Redis that the services issue, and what each does to the key that it names.
use Prim.Native.Char.{Char, code}
use Prim.Native.String.{[], ◌∷◌}
use text.Mathlib.TextLemmas.{cons-append}
use api_gateway_with_abuse_d.Prelude.{
  ℕ, ◌*◌, String, append, ◌≡◌, refl, Bool, true, false, Option, none, some, List, ◌==◌,
  if◌then◌else◌, str,
}
use api_gateway_with_abuse_d.Prelude.Int.{sub_ℕ, negsuc}
use api_gateway_with_abuse_d.Redis.{
  Cell, live, set_cell, incr_cell, expire_cell, sadd_cell, zadd_cell, filter_cell, outside,
  cut_cell, remove_ranks,
}
use api_gateway_with_abuse_d.Redis.Keys.{
  failed_auth, blocked_ip, rate_limit, request_times, shadow_log,
}
use api_gateway_with_abuse_d.Platform.{Platform, ShadowEvent}
use api_gateway_with_abuse_d.Routers.Admin.{bool_text}

-- The writes to Redis that the services issue, one constructor for each call in the source.
pub data Command : Type 0 where
  count_failure : (who : String) → Command
  expire_failures : (who : String) (seconds : ℕ) → Command
  block : (ip : String) (ttl : ℕ) → Command
  unblock : (ip : String) → Command
  prune_log : (client_id : String) (now window : ℕ) → Command
  log_request : (client_id : String) (now : ℕ) (request_id : String) → Command
  expire_log : (client_id : String) (seconds : ℕ) → Command
  log_time : (client_id : String) (now : ℕ) → Command
  trim_times : (client_id : String) (max_samples : ℕ) → Command
  expire_times : (client_id : String) → Command
  log_event : (request_id : String) (event : ShadowEvent) (ttl : ℕ) → Command
  switch_shadow : (enabled : Bool) → Command
  store_ip : (ip : String) → Command
  store_agent : (user_agent : String) → Command

abbrev pub issue : (p : Platform) → Command → ℕ → p.redis.Db → p.redis.Db
issue p (count_failure who) t = p.redis.incr t (failed_auth who)
issue p (expire_failures who seconds) t = p.redis.expire t (failed_auth who) seconds
issue p (block ip ttl) t = p.redis.set t (blocked_ip ip) "1" (some ttl)
issue p (unblock ip) t = p.redis.delete (blocked_ip ip)
issue p (prune_log client_id now window) t =
    p.redis.zremrangebyscore t (rate_limit client_id) 0 (sub_ℕ now (window * 1000))
issue p (log_request client_id now request_id) t =
    p.redis.zadd t (rate_limit client_id) now request_id
issue p (expire_log client_id seconds) t = p.redis.expire t (rate_limit client_id) seconds
issue p (log_time client_id now) t = p.redis.zadd t (request_times client_id) now (str now)
issue p (trim_times client_id max_samples) t =
    p.redis.zremrangebyrank t (request_times client_id) 0 (negsuc max_samples)
issue p (expire_times client_id) t = p.redis.expire t (request_times client_id) 3600
issue p (log_event request_id event ttl) t =
    p.redis.set t (shadow_log request_id) (p.json.dumps event) (some ttl)
issue p (switch_shadow enabled) t =
    p.redis.set t "config:shadow_mode_enabled" (bool_text enabled) none
issue p (store_ip ip) t = p.redis.sadd t "known_bad_ips" ip
issue p (store_agent user_agent) t = p.redis.sadd t "abusive_agents" user_agent

-- The three commands that only the script of the rate limiter issues.
abbrev pub in_script : Command → Bool
in_script (prune_log client_id now window) = true
in_script (log_request client_id now request_id) = true
in_script (expire_log client_id seconds) = true
in_script _ = false

-- The commands of a pipeline, the first one first.
abbrev pub issue_all : (p : Platform) → List Command → ℕ → p.redis.Db → p.redis.Db
issue_all p List.[] t db = db
issue_all p (List.◌∷◌ c cs) t db = issue_all p cs t (issue p c t db)

-- The key that a command writes.
abbrev pub key_of : Command → String
key_of (count_failure who) = failed_auth who
key_of (expire_failures who seconds) = failed_auth who
key_of (block ip ttl) = blocked_ip ip
key_of (unblock ip) = blocked_ip ip
key_of (prune_log client_id now window) = rate_limit client_id
key_of (log_request client_id now request_id) = rate_limit client_id
key_of (expire_log client_id seconds) = rate_limit client_id
key_of (log_time client_id now) = request_times client_id
key_of (trim_times client_id max_samples) = request_times client_id
key_of (expire_times client_id) = request_times client_id
key_of (log_event request_id event ttl) = shadow_log request_id
key_of (switch_shadow enabled) = "config:shadow_mode_enabled"
key_of (store_ip ip) = "known_bad_ips"
key_of (store_agent user_agent) = "abusive_agents"

-- What a command makes of what its key holds.
abbrev pub effect : Platform → Command → ℕ → Option Cell → Option Cell
effect p (count_failure who) t cell = incr_cell (live t cell)
effect p (expire_failures who seconds) t cell = expire_cell t seconds (live t cell)
effect p (block ip ttl) t cell = set_cell t "1" (some ttl)
effect p (unblock ip) t cell = none
effect p (prune_log client_id now window) t cell =
    filter_cell (outside 0 (sub_ℕ now (window * 1000))) (live t cell)
effect p (log_request client_id now request_id) t cell = zadd_cell now request_id (live t cell)
effect p (expire_log client_id seconds) t cell = expire_cell t seconds (live t cell)
effect p (log_time client_id now) t cell = zadd_cell now (str now) (live t cell)
effect p (trim_times client_id max_samples) t cell =
    cut_cell (remove_ranks 0 (negsuc max_samples)) (live t cell)
effect p (expire_times client_id) t cell = expire_cell t 3600 (live t cell)
effect p (log_event request_id event ttl) t cell = set_cell t (p.json.dumps event) (some ttl)
effect p (switch_shadow enabled) t cell = set_cell t (bool_text enabled) none
effect p (store_ip ip) t cell = sadd_cell ip (live t cell)
effect p (store_agent user_agent) t cell = sadd_cell user_agent (live t cell)

pub cell-issue :
    (p : Platform) (c : Command) (t : ℕ) (db : p.redis.Db) (j : String)
    → p.redis.cell j (issue p c t db)
      ≡ (if key_of c == j then effect p c t (p.redis.cell (key_of c) db) else p.redis.cell j db)
cell-issue p (count_failure who) t db j = p.redis.cell-incr t _ db j
cell-issue p (expire_failures who seconds) t db j = p.redis.cell-expire t _ _ db j
cell-issue p (block ip ttl) t db j = p.redis.cell-set t _ _ _ db j
cell-issue p (unblock ip) t db j = p.redis.cell-delete _ db j
cell-issue p (prune_log client_id now window) t db j = p.redis.cell-zremrangebyscore t _ _ _ db j
cell-issue p (log_request client_id now request_id) t db j = p.redis.cell-zadd t _ _ _ db j
cell-issue p (expire_log client_id seconds) t db j = p.redis.cell-expire t _ _ db j
cell-issue p (log_time client_id now) t db j = p.redis.cell-zadd t _ _ _ db j
cell-issue p (trim_times client_id max_samples) t db j = p.redis.cell-zremrangebyrank t _ _ _ db j
cell-issue p (expire_times client_id) t db j = p.redis.cell-expire t _ _ db j
cell-issue p (log_event request_id event ttl) t db j = p.redis.cell-set t _ _ _ db j
cell-issue p (switch_shadow enabled) t db j = p.redis.cell-set t _ _ _ db j
cell-issue p (store_ip ip) t db j = p.redis.cell-sadd t _ _ db j
cell-issue p (store_agent user_agent) t db j = p.redis.cell-sadd t _ _ db j

-- The first letter tells the keys of different kinds apart.
unfoldable pub initial : String → ℕ
initial [] = 0
initial (c ∷ s) = code c

pub initial-append : (c : Char) (s t : String) → initial (append (c ∷ s) t) ≡ code c
unfolding initial
initial-append c s t = rw cons-append refl

abbrev pub initial_of : Command → ℕ
initial_of (count_failure who) = b'f'
initial_of (expire_failures who seconds) = b'f'
initial_of (block ip ttl) = b'b'
initial_of (unblock ip) = b'b'
initial_of (prune_log client_id now window) = b'r'
initial_of (log_request client_id now request_id) = b'r'
initial_of (expire_log client_id seconds) = b'r'
initial_of (log_time client_id now) = b'r'
initial_of (trim_times client_id max_samples) = b'r'
initial_of (expire_times client_id) = b'r'
initial_of (log_event request_id event ttl) = b's'
initial_of (switch_shadow enabled) = b'c'
initial_of (store_ip ip) = b'k'
initial_of (store_agent user_agent) = b'a'

pub initial-key_of : (c : Command) → initial (key_of c) ≡ initial_of c
unfolding initial
initial-key_of (count_failure who) = initial-append "f" "ailed_auth:" who
initial-key_of (expire_failures who seconds) = initial-append "f" "ailed_auth:" who
initial-key_of (block ip ttl) = initial-append "b" "locked_ip:" ip
initial-key_of (unblock ip) = initial-append "b" "locked_ip:" ip
initial-key_of (prune_log client_id now window) = initial-append "r" "ate_limit:" client_id
initial-key_of (log_request client_id now request_id) = initial-append "r" "ate_limit:" client_id
initial-key_of (expire_log client_id seconds) = initial-append "r" "ate_limit:" client_id
initial-key_of (log_time client_id now) = initial-append "r" "equest_times:" client_id
initial-key_of (trim_times client_id n) = initial-append "r" "equest_times:" client_id
initial-key_of (expire_times client_id) = initial-append "r" "equest_times:" client_id
initial-key_of (log_event request_id event ttl) = initial-append "s" "hadow_log:" request_id
initial-key_of (switch_shadow enabled) = refl
initial-key_of (store_ip ip) = refl
initial-key_of (store_agent user_agent) = refl
