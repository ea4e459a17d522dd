-- ===== src/Middleware/Auth/Admits.antt =====
-- app/middleware/auth.py: which requests get past it, and as which client.
use api_gateway_with_abuse_d.Prelude.{
  String, ◌≡◌, refl, ◌⊎◌, inl, inr, true, some, Bool-cases, Option-cases,
}
use api_gateway_with_abuse_d.Platform.{Platform, Claims}
use api_gateway_with_abuse_d.Text.{is_one_of, has_prefix, split_by, is_blank}
use api_gateway_with_abuse_d.World.{World, Exec, ok}
use api_gateway_with_abuse_d.World.Http.{Request, Response, or_else}
use api_gateway_with_abuse_d.Core.Security.{decode_access_token, seconds_of}
use api_gateway_with_abuse_d.Middleware.Auth.{auth_dispatch, public_paths, second, with_client_id}

module _ (p : Platform) (request : Request) (w : World p) where
  -- The token behind the first space of the header.
  abbrev pub token_of : String
  token_of = second (split_by is_blank (or_else request.authorization ""))

  -- A client that the request may run as: "anonymous" on a public path, and else the subject of a
  -- token that is valid now.
  pub IsClient : String → Type 0
  IsClient c =
      ((is_one_of request.path public_paths ≡ true) × (c ≡ "anonymous"))
      ⊎ ((claims : Claims) × (p.jwt.decode (seconds_of w.now) token_of ≡ some claims)
          × (c ≡ or_else claims.sub "unknown"))

  -- A request is either answered 401, without any effect, or what is behind runs at once, as a
  -- client that the request may run as: "anonymous" on a public path, and else the subject of its
  -- token, which is valid now.
  pub auth_dispatch-admits :
      (call_next : Request → Exec p Response)
      → ((response : Response) × (auth_dispatch p call_next request w ≡ (ok response, w))
          × (response.status ≡ 401))
        ⊎ ((c : String) × (auth_dispatch p call_next request w
              ≡ call_next (with_client_id c request) w)
            × IsClient c)
  unfolding auth_dispatch decode_access_token IsClient
  auth_dispatch-admits call_next = elim (Bool-cases (is_one_of request.path public_paths)) [
    | inl public ↦ simp public (inr ("anonymous", refl, inl (refl, refl)))
    | inr private ↦ elim (Bool-cases (has_prefix (or_else request.authorization "") "Bearer ")) [
      | inr bare ↦ simp (private, bare) (inl (_, refl, refl))
      | inl token ↦ elim (Option-cases (p.jwt.decode (seconds_of w.now) token_of)) [
        | inl bad ↦ simp (private, token, bad) (inl (_, refl, refl))
        | inr (claims, good) ↦
            simp (private, token, good)
              (inr (or_else claims.sub "unknown", refl, inr (claims, refl, refl)))
      ]
    ]
  ]
