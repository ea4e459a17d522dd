-- ===== src/Config.antt =====
-- app/config.py: the settings. The libraries of Platform.antt stand at the URLs, the secret key and
-- the size of the Bloom filters that are configured; the code writes the key of the shadow mode out
-- and does not read shadow_mode_redis_key.
use api_gateway_with_abuse_d.Prelude.{ℕ, ◌*◌, Bool, true, String, ltb}
use api_gateway_with_abuse_d.Platform.{Deviation}

-- A float of the settings, as the fraction that it is.
pub record Fraction : Type 0 where
  pub num : ℕ
  pub den : ℕ

-- `x * 0.5`.
abbrev pub half_of : Fraction → Fraction
half_of r = record r { den = r.den * 2 }

-- `deviation < r`, by the squares: `sqrt(squares / over) < num / den`.
abbrev pub below : Deviation → Fraction → Bool
below d r = ltb (d.squares * (r.den * r.den)) (r.num * r.num * d.over)

pub record Settings : Type 0 where
  pub app_env : String
  pub app_host : String
  pub app_port : ℕ
  pub redis_url : String
  pub database_url : String
  pub secret_key : String
  pub rate_limit_requests : ℕ
  pub rate_limit_window_seconds : ℕ
  pub bloom_filter_capacity : ℕ
  pub bloom_filter_error_rate : Fraction
  pub auth_failure_ip_threshold : ℕ
  pub auth_failure_user_threshold : ℕ
  pub auth_failure_window_seconds : ℕ
  pub scraping_entropy_threshold : Fraction
  pub scraping_sample_size : ℕ
  pub shadow_mode_enabled : Bool
  pub shadow_mode_redis_key : String

-- The defaults of class Settings, for the three values that the environment has to give.
abbrev pub default_settings : (redis_url database_url secret_key : String) → Settings
default_settings redis_url database_url secret_key = record {
  app_env = "development";
  app_host = "0.0.0.0";
  app_port = 8000;
  redis_url = redis_url;
  database_url = database_url;
  secret_key = secret_key;
  rate_limit_requests = 100;
  rate_limit_window_seconds = 60;
  bloom_filter_capacity = 1000000;
  bloom_filter_error_rate = record { num = 1; den = 1000 };
  auth_failure_ip_threshold = 10;
  auth_failure_user_threshold = 20;
  auth_failure_window_seconds = 300;
  scraping_entropy_threshold = record { num = 1; den = 2 };
  scraping_sample_size = 20;
  shadow_mode_enabled = true;
  shadow_mode_redis_key = "config:shadow_mode_enabled";
}
