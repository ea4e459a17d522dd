-- ===== src/Redis/Keys.antt =====
-- The keys that the services write.
use api_gateway_with_abuse_d.Prelude.{String, append}

abbrev pub failed_auth : String → String
failed_auth who = append "failed_auth:" who

abbrev pub blocked_ip : String → String
blocked_ip ip = append "blocked_ip:" ip

abbrev pub rate_limit : String → String
rate_limit client_id = append "rate_limit:" client_id

abbrev pub request_times : String → String
request_times client_id = append "request_times:" client_id

abbrev pub shadow_log : String → String
shadow_log request_id = append "shadow_log:" request_id
