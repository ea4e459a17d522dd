-- ===== src/App/Cluster.antt =====
-- Several processes of the gateway that share one Redis, one database and one clock: each event
-- happens to one of them, and a process can be started again.
pub mod Start
pub mod Shared
pub mod Blocked
pub mod Accounts
pub mod Roles
pub mod Stale
use api_gateway_with_abuse_d.Prelude.{ℕ, Bool, List, [], ◌∷◌, eqb, if◌then◌else◌}
use api_gateway_with_abuse_d.Platform.{Platform}
use api_gateway_with_abuse_d.Config.{Settings}
use api_gateway_with_abuse_d.World.{World}
use api_gateway_with_abuse_d.Services.BloomFilter.{worker, with_service, new_service}
use api_gateway_with_abuse_d.Workers.BloomSync.{startup}
use api_gateway_with_abuse_d.App.{Event, handle}

-- What the processes share, and the world of each, of which the shared parts are out of date.
pub record Cluster (p : Platform) : Type 0 where
  pub now : ℕ
  pub db : p.redis.Db
  pub users : p.users.Table
  pub local : ℕ → World p

-- An event, or the start of the process, with the answers to its pings of Redis.
pub data Move : Type 0 where
  happening : (i : ℕ) → Event → Move
  restart : (i : ℕ) → (answers : ℕ → Bool) → Move

module _ (p : Platform) where
  -- What a process has before it, and what it leaves behind.
  abbrev pub view : ℕ → Cluster p → World p
  view i c = record (c.local i) { now = c.now; db = c.db; users = c.users }

  abbrev pub leave : ℕ → World p → Cluster p → Cluster p
  leave i w c = record {
    now = w.now;
    db = w.db;
    users = w.users;
    local = λ j. if eqb i j then w else c.local j;
  }

  -- A new process has no counters, and the worker's service is new.
  abbrev pub fresh : World p → World p
  fresh w = with_service p worker (new_service p) (record w { metrics = [] })

  abbrev pub start : (ℕ → Bool) → World p → World p
  start answers w = (startup p answers (fresh w)).1

  unfoldable pub move : Settings → Move → Cluster p → Cluster p
  unfolding handle startup
  move settings (happening i e) c = leave i (handle p settings e (view i c)) c
  move settings (restart i answers) c = leave i (start answers (view i c)) c

  unfoldable pub run_moves : Settings → List Move → Cluster p → Cluster p
  unfolding move
  run_moves settings [] c = c
  run_moves settings (m ∷ moves) c = run_moves settings moves (move settings m c)
