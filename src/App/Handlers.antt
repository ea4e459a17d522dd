-- ===== src/App/Handlers.antt =====
-- app/routers and app/dependencies.py under a contract.
use api_gateway_with_abuse_d.Prelude.{
  ℕ, true, Option-cases, inl, inr, ◌≡◌, String, refl, Option, none, some, [], ◌∷◌, ◌==◌, not,
}
use api_gateway_with_abuse_d.Platform.{Platform, Claims, User}
use api_gateway_with_abuse_d.Config.{Settings}
use api_gateway_with_abuse_d.Text.{split_words}
use api_gateway_with_abuse_d.World.{World, Exec}
use api_gateway_with_abuse_d.World.Exec.{continue, execute}
use api_gateway_with_abuse_d.World.Http.{Request, Response, or_else}
use api_gateway_with_abuse_d.Core.Security.{seconds_of}
use api_gateway_with_abuse_d.Dependencies.{
  require_admin, require_role, require_token, bearer_token, role_user, role_admin,
}
use api_gateway_with_abuse_d.Services.GraduatedResponse.{soft_block_ttl}
use api_gateway_with_abuse_d.Routers.Admin
use api_gateway_with_abuse_d.Routers.Auth
use api_gateway_with_abuse_d.Routers.Auth.{
  insert_new, find_user, register_if_new, verified, attempt_login, accept_login, answer_login,
}
use api_gateway_with_abuse_d.Routers.Gateway
use api_gateway_with_abuse_d.Routers.Main
use api_gateway_with_abuse_d.App.{
  Endpoint, register, login, proxy, shadow_stats, block_ip, block_agent, soft_block_ip,
  remove_soft_block, block_status, set_shadow_mode, health, debug_config, route_of,
}
use api_gateway_with_abuse_d.App.Outcome.{
  Contract, returned, raised, Settles, Runs, Refuses, continue-Settles, execute-Settles,
  refuse-Settles, if-Settles,
}
use api_gateway_with_abuse_d.App.Commands.{issue_all, switch_shadow}
use api_gateway_with_abuse_d.App.Services.{
  get_shadow_stats-Runs, apply_soft_block-Runs, remove_soft_block-Runs, get_client_state-Runs,
  record_auth_failure-Runs,
}
use api_gateway_with_abuse_d.App.Signals.{
  is_credential_stuffing-Runs, add_ip_to_redis-Runs, add_agent_to_redis-Runs,
}

module _ {p : Platform} (c : Contract p) (refuses : Refuses c) where
  require_role-Runs : (claims : Option Claims) → Runs c (require_role claims)
  require_role-Runs none w good = refuse-Settles c refuses 401 _ _ w good
  require_role-Runs (some payload) w good =
      if-Settles c (or_else payload.role role_user == role_admin) _ _ w (returned tt good)
        (refuse-Settles c refuses 403 _ _ w good)

  require_token-Runs : (token : Option String) → Runs c (require_token p token)
  unfolding require_admin
  require_token-Runs none w good = refuse-Settles c refuses 401 _ _ w good
  require_token-Runs (some token) w good =
      require_role-Runs (p.jwt.decode (seconds_of w.now) token) w good

  require_admin-Runs : (request : Request) → Runs c (require_admin p request)
  unfolding require_admin
  require_admin-Runs request w good =
      require_token-Runs (bearer_token (split_words (or_else request.authorization ""))) w good

  -- A route behind the check of the role.
  admin-Settles :
      (request : Request) (route : String → Exec p Response) (w : World p)
      → c.Good w
      → ((who : String) → Runs c (route who))
      → Settles c (continue (require_admin p request w) route)
  admin-Settles request route w good runs =
      continue-Settles c route (require_admin-Runs request w good) runs

  insert_new-Settles :
      (username email password hashed : String) (salt : ℕ) (w : World p)
      → c.Good w
      → p.bcrypt.hashpw salt password ≡ some hashed
      → p.users.select username w.users ≡ none
      → Settles c (insert_new p username email hashed w)
  insert_new-Settles username email password hashed salt w good hash missing =
      let user : User = record {
        id = p.uuid4 w.draws;
        username = username;
        email = email;
        hashed_password = hashed;
        is_active = true;
        role = role_user;
        created_at = w.now;
      } in
      let drawn = c.drawn w good in
      elim (Option-cases (p.users.insert_error w.now user w.users)) [
        | inr (e, clash) ↦ rw clash (raised (c.lost e) drawn)
        | inl fits ↦
            rw fits (returned tt (c.joined user _ (refl, salt, password, hash) missing fits drawn))
      ]

  register_if_new-Settles :
      (username email password hashed : String) (salt : ℕ) (found : Option User) (w : World p)
      → c.Good w
      → p.bcrypt.hashpw salt password ≡ some hashed
      → p.users.select username w.users ≡ found
      → Settles c (register_if_new p username email hashed found w)
  register_if_new-Settles username email password hashed salt none w good hash missing =
      insert_new-Settles username email password hashed salt w good hash missing
  register_if_new-Settles username email password hashed salt (some u) w good hash there =
      refuse-Settles c refuses 409 _ _ w good

  register-Runs :
      (username email password : String) (request : Request)
      → Runs c (Auth.register p username email password request)
  unfolding Auth.register
  register-Runs username email password request w good =
      let drawn = c.drawn w good in
      elim (Option-cases (p.bcrypt.hashpw w.draws password)) [
        | inl long ↦ rw long (raised c.long drawn)
        | inr (hashed, hash) ↦ elim (Option-cases (p.users.select_error w.now username)) [
          | inr (e, lost) ↦ rw (hash, lost) (raised (c.lost e) drawn)
          | inl asked ↦
              rw (hash, asked)
                (register_if_new-Settles username email password hashed w.draws _ _ drawn hash refl)
        ]
      ]

  verified-Runs : (password : String) (found : Option User) → Runs c (verified p password found)
  unfolding Auth.login
  verified-Runs password none w good = returned tt good
  verified-Runs password (some u) w good =
      elim (Option-cases (p.bcrypt.checkpw password u.hashed_password)) [
        | inl long ↦ rw long (raised c.long good)
        | inr (good_password, checked) ↦ rw checked (returned tt good)
      ]

  find_user-Runs : (username : String) → Runs c (find_user p username)
  find_user-Runs username w good = elim (Option-cases (p.users.select_error w.now username)) [
    | inr (e, lost) ↦ rw lost (raised (c.lost e) good)
    | inl asked ↦ rw asked (returned tt good)
  ]

  answer_login-Runs :
      (settings : Settings) (client_ip username : String) (user : Option User)
      → Runs c (answer_login p settings client_ip username user)
  unfolding Auth.login
  answer_login-Runs settings client_ip username none w good =
      continue-Settles c _
        (record_auth_failure-Runs c client_ip username settings.auth_failure_window_seconds w good)
        (λ done v good'. refuse-Settles c refuses 401 _ _ v good')
  answer_login-Runs settings client_ip username (some u) w good = returned tt good

  attempt_login-Runs :
      (settings : Settings) (client_ip username password : String)
      → Runs c (attempt_login p settings client_ip username password)
  attempt_login-Runs settings client_ip username password w good =
      continue-Settles c _ (find_user-Runs username w good) (λ found v good'.
        continue-Settles c _ (verified-Runs password found v good')
          (answer_login-Runs settings client_ip username))

  pub route_of-Runs :
      (settings : Settings) (endpoint : Endpoint) (request : Request)
      → Runs c (route_of p settings endpoint request)
  unfolding route_of Auth.register Auth.login Gateway.proxy Admin.shadow_stats Admin.block_ip
      Admin.block_agent Admin.soft_block_ip Admin.unblock_ip Admin.block_status
      Admin.set_shadow_mode Main.health Main.debug_config
  route_of-Runs settings (register username email password) request w good =
      register-Runs username email password request w good
  route_of-Runs settings (login username password) request w good =
      continue-Settles c _
        (is_credential_stuffing-Runs c (or_else request.host "unknown") username
          settings.auth_failure_ip_threshold settings.auth_failure_user_threshold w good)
        (λ verdict v good'.
          if-Settles c verdict.0 _ _ v (refuse-Settles c refuses 403 _ _ v good') (
            attempt_login-Runs settings (or_else request.host "unknown") username password v good'))
  route_of-Runs settings proxy request w good = returned tt good
  route_of-Runs settings shadow_stats request w good =
      admin-Settles request _ w good (λ who v good'.
        continue-Settles c _ (get_shadow_stats-Runs c v good')
          (λ stats u good''. returned tt good''))
  route_of-Runs settings (block_ip ip) request w good =
      admin-Settles request _ w good (λ who v good'.
        continue-Settles c _ (add_ip_to_redis-Runs c ip v good')
          (λ done u good''. returned tt good''))
  route_of-Runs settings (block_agent agent) request w good =
      admin-Settles request _ w good (λ who v good'.
        continue-Settles c _ (add_agent_to_redis-Runs c agent v good')
          (λ done u good''. returned tt good''))
  route_of-Runs settings (soft_block_ip ip) request w good =
      admin-Settles request _ w good (λ who v good'.
        continue-Settles c _ (apply_soft_block-Runs c ip soft_block_ttl v good')
          (λ done u good''. returned tt good''))
  route_of-Runs settings (remove_soft_block ip) request w good =
      admin-Settles request _ w good (λ who v good'.
        continue-Settles c _ (remove_soft_block-Runs c ip v good')
          (λ done u good''. returned tt good''))
  route_of-Runs settings (block_status ip) request w good =
      admin-Settles request _ w good (λ who v good'.
        continue-Settles c _ (get_client_state-Runs c ip v good')
          (λ state u good''. returned tt good''))
  route_of-Runs settings (set_shadow_mode enabled) request w good =
      admin-Settles request _ w good (λ who v good'.
        continue-Settles c {r = execute p (issue_all p (switch_shadow enabled ∷ [])) v} _
          (execute-Settles c (switch_shadow enabled ∷ []) v (refl, tt) good')
          (λ done u good''. returned tt good''))
  route_of-Runs settings health request w good = returned tt (c.measured _ w good)
  route_of-Runs settings debug_config request w good =
      if-Settles c (not (settings.app_env == "development")) _ _ w (returned tt good)
        (returned tt good)
