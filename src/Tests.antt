-- ===== src/Tests.antt =====
-- The worlds on which the tests and the examples run: the platform of Platform/Reference.antt.
mod Limits
mod Blocks
mod Access
mod Accounts
mod Workers
mod Shadow
mod Life
mod Roles
mod Schema
use api_gateway_with_abuse_d.Prelude.{true, none, some, [], ◌∷◌, String}
use api_gateway_with_abuse_d.Prelude.Int.{negsuc}
use api_gateway_with_abuse_d.Redis.Memory.{empty}
use api_gateway_with_abuse_d.Platform.{User}
use api_gateway_with_abuse_d.Platform.Reference.{reference}
use api_gateway_with_abuse_d.Config.{Settings, default_settings}
use api_gateway_with_abuse_d.World.{World, Exec}
use api_gateway_with_abuse_d.World.Exec.{pure}
use api_gateway_with_abuse_d.World.Http.{Request, Response, no_state}
use api_gateway_with_abuse_d.Services.BloomFilter.{new_service}

abbrev test_settings : Settings
test_settings = default_settings "redis://redis" "postgresql+asyncpg://db/gateway" "secret"

-- A gateway that has just started: nothing in Redis, no users, 100 seconds on the clock.
abbrev quiet : World reference
quiet = record {
  now = 100000;
  redis_up = true;
  db = empty;
  bloom = new_service reference;
  worker_bloom = new_service reference;
  users = [];
  metrics = [];
  gauges = record { checkedout = 0; overflow = negsuc 9 };
  pool = record { checked_out = 0; checked_in = 0; overflow = negsuc 9; size = 10 };
  draws = 0;
}

abbrev request_of : String → String → Request
request_of path authorization = record {
  path = path;
  host = some "10.0.0.1";
  authorization = some authorization;
  user_agent = some "curl/8";
  state = no_state;
}

-- A request that the Bloom filter has let through.
abbrev screened_request : Request
screened_request = record (request_of "/health" "") {
  state = record no_state { client_ip = some "10.0.0.1"; client_id = some "alice" };
}

abbrev admin_request : Request
admin_request = request_of "/admin/block/ip/10.0.0.1" "Bearer admin"

abbrev alice : User
alice = record {
  id = "7";
  username = "alice";
  email = "alice@example.org";
  hashed_password = "secret";
  is_active = true;
  role = "user";
  created_at = 0;
}

abbrev fine : Response
fine = record { status = 200; body = []; headers = [] }

abbrev upstream : Request → Exec reference Response
upstream request = pure fine
