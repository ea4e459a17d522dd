-- ===== src/Middleware/Chain/BadIp.antt =====
-- app/main.py: the gateway in front of an address that its Bloom filter has.
use api_gateway_with_abuse_d.Prelude.{
  ℕ, ◌+◌, ◌-◌, String, ◌≡◌, refl, ◌⊎◌, inl, inr, true, some, [], ◌∷◌, str, Bool-cases, Option-cases,
}
use api_gateway_with_abuse_d.Platform.{Platform}
use api_gateway_with_abuse_d.Config.{Settings}
use api_gateway_with_abuse_d.Text.{is_one_of, has_prefix, split_by, is_blank}
use api_gateway_with_abuse_d.World.{
  World, Exec, Result, ok, err, bloom_filter_hit, request_total, request_duration,
}
use api_gateway_with_abuse_d.World.Exec.{continue, inc, now_ms, pure, ◌>>◌, ◌>>=◌}
use api_gateway_with_abuse_d.World.Inversion.{err≢ok, ok_injective}
use api_gateway_with_abuse_d.World.Http.{Request, Response, error_response, with_header, or_else}
use api_gateway_with_abuse_d.Core.Security.{decode_access_token, seconds_of}
use api_gateway_with_abuse_d.Services.BloomFilter.{app_state, might_contain_ip}
use api_gateway_with_abuse_d.Middleware.RequestId.{request_id_dispatch}
use api_gateway_with_abuse_d.Middleware.Auth.{auth_dispatch, public_paths, second, with_client_id}
use api_gateway_with_abuse_d.Middleware.BloomFilter.{bloom_filter_dispatch}
use api_gateway_with_abuse_d.Middleware.Chain.{gateway, behind_bloom}

module _ (p : Platform) where
  abbrev forbidden : Request → Exec p Response
  forbidden request w = (
    ok (error_response 403 "Access denied — known bad IP" []),
    record w { metrics = bloom_filter_hit "ip" ∷ w.metrics },
  )

  bloom_filter_dispatch-bad_ip :
      (ip : String) (call_next : Request → Exec p Response) (request : Request) (w : World p)
      → request.host ≡ some ip
      → might_contain_ip p app_state ip w ≡ true
      → bloom_filter_dispatch p call_next request w ≡ forbidden request w
  unfolding bloom_filter_dispatch
  bloom_filter_dispatch-bad_ip ip call_next request w from bad = rw (from, bad) refl

  auth_dispatch-bad_ip :
      (ip : String) (call_next : Request → Exec p Response) (request : Request) (w : World p)
      → request.host ≡ some ip
      → might_contain_ip p app_state ip w ≡ true
      → auth_dispatch p (bloom_filter_dispatch p call_next) request w
        ≡ auth_dispatch p forbidden request w
  unfolding auth_dispatch decode_access_token
  auth_dispatch-bad_ip ip call_next request w from bad =
      elim (Bool-cases (is_one_of request.path public_paths)) [
        | inl public ↦ simp public (
            bloom_filter_dispatch-bad_ip ip call_next (with_client_id "anonymous" request) w from
              bad)
        | inr private ↦
            elim (Bool-cases (has_prefix (or_else request.authorization "") "Bearer ")) [
              | inr bare ↦ simp (private, bare)
              | inl token ↦
                  elim (Option-cases (
                    p.jwt.decode (seconds_of w.now)
                      (second (split_by is_blank (or_else request.authorization ""))))) [
                        | inl bad_token ↦ simp (private, token, bad_token)
                        | inr (c, good) ↦
                            simp (private, token, good)
                              (bloom_filter_dispatch-bad_ip ip call_next
                                (with_client_id (or_else c.sub "unknown") request) w from bad)
                      ]
            ]
      ]

  -- A response 401 or 403, and the store and the users as they were.
  pub IsRefused : Result Response × World p → World p → Type 0
  IsRefused r w =
      ((response : Response) × (r.0 ≡ ok response)
        × ((response.status ≡ 401) ⊎ (response.status ≡ 403)))
      × (r.1.db ≡ w.db)
      × (r.1.users ≡ w.users)

  auth_dispatch-IsRefused :
      (request : Request) (w : World p) → IsRefused (auth_dispatch p forbidden request w) w
  unfolding auth_dispatch decode_access_token IsRefused
  auth_dispatch-IsRefused request w = elim (Bool-cases (is_one_of request.path public_paths)) [
    | inl public ↦ simp public ((_, refl, inr refl), refl, refl)
    | inr private ↦ elim (Bool-cases (has_prefix (or_else request.authorization "") "Bearer ")) [
      | inr bare ↦ simp (private, bare) ((_, refl, inl refl), refl, refl)
      | inl token ↦
          elim (Option-cases (
            p.jwt.decode (seconds_of w.now)
              (second (split_by is_blank (or_else request.authorization ""))))) [
                | inl bad_token ↦ simp (private, token, bad_token) ((_, refl, inl refl), refl, refl)
                | inr (c, good) ↦ simp (private, token, good) ((_, refl, inr refl), refl, refl)
              ]
    ]
  ]

  tagged-IsRefused :
      (request : Request) (request_id : String) (start : ℕ) (r : Result Response × World p)
      (w : World p)
      → IsRefused r w
      → IsRefused
          (continue r (λ response. do
            stop ← now_ms p
            inc p (request_duration (stop - start))
            inc p (request_total (str response.status) request.path)
            pure (with_header "X-Request-ID" request_id response)))
          w
  unfolding IsRefused
  tagged-IsRefused request request_id start (err e, v) w ((response, done, status), db, users) =
      absurd (err≢ok done)
  tagged-IsRefused request request_id start (ok inner, v) w ((response, done, status), db, users) =
      (
        (with_header "X-Request-ID" request_id inner, refl, rw (ok_injective done) status),
        db,
        users,
      )

-- A request from an address that the application's filter has is answered 401 or 403, whatever
-- application is behind the gateway and whatever its settings are: these have no influence on the
-- response and on the world after it; and the store and the table of users stay as they are.
pub gateway-bad_ip :
    (p : Platform) (settings settings' : Settings) (route route' : Request → Exec p Response)
    (request : Request) (ip : String) (w : World p)
    → request.host ≡ some ip
    → might_contain_ip p app_state ip w ≡ true
    → (gateway p settings route request w ≡ gateway p settings' route' request w)
      × IsRefused p (gateway p settings route request w) w
unfolding gateway request_id_dispatch IsRefused
gateway-bad_ip p settings settings' route route' request ip w from bad =
    let marked = record request {
      state = record request.state { request_id = some (p.uuid4 w.draws) };
    } in
    let v = record w { draws = w.draws + 1 } in
    rw
      (
        auth_dispatch-bad_ip p ip (behind_bloom p settings route) marked v from bad,
        auth_dispatch-bad_ip p ip (behind_bloom p settings' route') marked v from bad,
      )
      (
        refl,
        tagged-IsRefused p request (p.uuid4 w.draws) w.now (auth_dispatch p (forbidden p) marked v)
            w (auth_dispatch-IsRefused p marked v),
      )
