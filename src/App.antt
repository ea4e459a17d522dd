-- ===== src/App.antt =====
-- app/main.py as a whole: the routes that it includes, behind the stack of middleware, and what
-- happens to a process. FastAPI's matching of a path and its parsing of parameters and bodies are
-- the library's: an endpoint stands for a route with its parsed arguments.
pub mod Commands
pub mod Outcome
pub mod Services
pub mod Signals
pub mod Handlers
pub mod Stack
pub mod Lasting
pub mod Typed
pub mod Answers
pub mod Restart
pub mod Size
pub mod Log
pub mod Limits
pub mod Past
pub mod Readmit
pub mod Cluster
use api_gateway_with_abuse_d.Prelude.{ℕ, ◌+◌, String, append, Bool, List, [], ◌∷◌}
use api_gateway_with_abuse_d.Platform.{Platform}
use api_gateway_with_abuse_d.Config.{Settings}
use api_gateway_with_abuse_d.World.{World, Pool, Exec}
use api_gateway_with_abuse_d.World.Http.{Request, Response}
use api_gateway_with_abuse_d.Middleware.Chain.{gateway}
use api_gateway_with_abuse_d.Routers.Admin
use api_gateway_with_abuse_d.Routers.Auth
use api_gateway_with_abuse_d.Routers.Gateway
use api_gateway_with_abuse_d.Routers.Main
use api_gateway_with_abuse_d.Workers.BloomSync.{sync_round}

pub data Endpoint : Type 0 where
  register : (username email password : String) → Endpoint
  login : (username password : String) → Endpoint
  proxy : Endpoint
  shadow_stats : Endpoint
  block_ip : (ip : String) → Endpoint
  block_agent : (user_agent : String) → Endpoint
  soft_block_ip : (ip : String) → Endpoint
  remove_soft_block : (ip : String) → Endpoint
  block_status : (ip : String) → Endpoint
  set_shadow_mode : (enabled : Bool) → Endpoint
  health : Endpoint
  debug_config : Endpoint

-- The paths of the routes, the prefixes of the routers included.
unfoldable pub path_of : Endpoint → String
path_of (register username email password) = "/auth/register"
path_of (login username password) = "/auth/login"
path_of proxy = "/gateway/proxy"
path_of shadow_stats = "/admin/shadow-stats"
path_of (block_ip ip) = append "/admin/block-ip/" ip
path_of (block_agent user_agent) = "/admin/block-agent"
path_of (soft_block_ip ip) = append "/admin/soft-block-ip/" ip
path_of (remove_soft_block ip) = append "/admin/soft-block-ip/" ip
path_of (block_status ip) = append "/admin/block-status/" ip
path_of (set_shadow_mode enabled) = "/admin/shadow-mode"
path_of health = "/health"
path_of debug_config = "/debug/config"

unfoldable pub route_of : (p : Platform) → Settings → Endpoint → Request → Exec p Response
route_of p settings (register username email password) = Auth.register p username email password
route_of p settings (login username password) = Auth.login p settings username password
route_of p settings proxy = Gateway.proxy p
route_of p settings shadow_stats = Admin.shadow_stats p
route_of p settings (block_ip ip) = Admin.block_ip p ip
route_of p settings (block_agent user_agent) = Admin.block_agent p user_agent
route_of p settings (soft_block_ip ip) = Admin.soft_block_ip p ip
route_of p settings (remove_soft_block ip) = Admin.unblock_ip p ip
route_of p settings (block_status ip) = Admin.block_status p ip
route_of p settings (set_shadow_mode enabled) = Admin.set_shadow_mode p enabled
route_of p settings health = Main.health p
route_of p settings debug_config = Main.debug_config p settings

-- A request as it arrives at the application.
unfoldable pub serve : (p : Platform) → Settings → Endpoint → Request → Exec p Response
unfolding path_of route_of
serve p settings endpoint request =
    gateway p settings (route_of p settings endpoint) (record request { path = path_of endpoint })

-- What happens to a process: a request, served to its end; a round of the sync worker; time that
-- passes; Redis that goes down or comes back; and what the pool of the database answers.
pub data Event : Type 0 where
  arrival : Endpoint → Request → Event
  sync_due : Event
  elapse : ℕ → Event
  redis_switch : Bool → Event
  pool_change : Pool → Event

unfoldable pub handle : (p : Platform) → Settings → Event → World p → World p
unfolding serve sync_round
handle p settings (arrival endpoint request) w = (serve p settings endpoint request w).1
handle p settings sync_due w = sync_round p w
handle p settings (elapse ms) w = record w { now = w.now + ms }
handle p settings (redis_switch up) w = record w { redis_up = up }
handle p settings (pool_change pool) w = record w { pool = pool }
