-- ===== src/Core/Security.antt =====
-- app/core/security.py
use api_gateway_with_abuse_d.Prelude.{ℕ, ◌+◌, ◌*◌, ◌/◌, String, Bool, Option, none, some}
use api_gateway_with_abuse_d.Platform.{Platform, Claims}
use api_gateway_with_abuse_d.World.{Exec, password_error}
use api_gateway_with_abuse_d.World.Exec.{pure, raise, now_ms, draw, ◌>>=◌}

abbrev pub access_token_expire_minutes : ℕ
access_token_expire_minutes = 30

-- What bcrypt answers, or its ValueError.
abbrev pub answered_by_bcrypt : {p : Platform} {A : Type 0} → Option A → Exec p A
answered_by_bcrypt none = raise password_error
answered_by_bcrypt (some a) = pure a

unfoldable pub verify_password : (p : Platform) → String → String → Exec p Bool
verify_password p plain_password hashed_password =
    answered_by_bcrypt (p.bcrypt.checkpw plain_password hashed_password)

unfoldable pub hash_password : (p : Platform) → String → Exec p String
hash_password p password = do salt ← draw p; answered_by_bcrypt (p.bcrypt.hashpw salt password)

abbrev pub seconds_of : ℕ → ℕ
seconds_of ms = ms / 1000

-- The claims of a token for `{"sub": ..., "role": ...}` made at a time in milliseconds.
abbrev pub claims_of : String → String → ℕ → Claims
claims_of sub role now = record {
  sub = some sub;
  role = some role;
  exp = some (seconds_of now + access_token_expire_minutes * 60);
}

unfoldable pub create_access_token : (p : Platform) → String → String → Exec p String
create_access_token p sub role = do now ← now_ms p; pure (p.jwt.encode (claims_of sub role now))

unfoldable pub decode_access_token : (p : Platform) → String → Exec p (Option Claims)
decode_access_token p token = do now ← now_ms p; pure (p.jwt.decode (seconds_of now) token)
