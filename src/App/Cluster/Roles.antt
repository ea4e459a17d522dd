-- ===== src/App/Cluster/Roles.antt =====
-- What an account that was registered through the gateway can do under /admin.
use api_gateway_with_abuse_d.Prelude.{
  ℕ, String, ◌≡◌, refl, ◌∙◌, ap, none, some, List, ◌⊎◌, inl, inr,
}
use api_gateway_with_abuse_d.Platform.{Platform, Claims, User}
use api_gateway_with_abuse_d.Config.{Settings}
use api_gateway_with_abuse_d.Text.{split_words}
use api_gateway_with_abuse_d.World.{World, Exn, Result, ok, err}
use api_gateway_with_abuse_d.World.Http.{Request, or_else}
use api_gateway_with_abuse_d.Core.Security.{claims_of, seconds_of}
use api_gateway_with_abuse_d.Dependencies.{bearer_token, require_admin, role_user}
use api_gateway_with_abuse_d.Routers.Auth.{login, token_response}
use api_gateway_with_abuse_d.Routers.Auth.Token.{login-IsTokenOf}
use api_gateway_with_abuse_d.Routers.Admin.Access.{
  AdminRoute, admin_route, IsAdmin, require_admin-IsAdmin, admin_route-refuses,
}
use api_gateway_with_abuse_d.App.Cluster.{Cluster, Move, view, run_moves}
use api_gateway_with_abuse_d.App.Cluster.Accounts.{run_moves-HasGrown}

-- jose reads the role of a token that it has made as it was, or it does not accept the token.
abbrev pub ReadsRole : Platform → Type 0
ReadsRole p =
    (claims : Claims) (t : ℕ)
    → (p.jwt.decode t (p.jwt.encode claims) ≡ none)
      ⊎ ((read : Claims) × (p.jwt.decode t (p.jwt.encode claims) ≡ some read)
          × (read.role ≡ claims.role))

token_response_injective :
    (p : Platform) (s t : String) → token_response p s ≡ token_response p t → s ≡ t
token_response_injective p s t h = cc

Result-cases : {A : Type 0} (r : Result A) → ((a : A) × (r ≡ ok a)) ⊎ ((e : Exn) × (r ≡ err e))
Result-cases (ok a) = inl (a, refl)
Result-cases (err e) = inr (e, refl)

not_admin :
    (p : Platform) (name : String) (issued : ℕ) (later : Request) (u : World p)
    → ReadsRole p
    → bearer_token (split_words (or_else later.authorization ""))
      ≡ some (p.jwt.encode (claims_of name role_user issued))
    → IsAdmin p later u
    → ⊥
unfolding IsAdmin
not_admin p name issued later u reads sent (token, claims, sent', decoded, admin) =
    elim (reads (claims_of name role_user issued) (seconds_of u.now)) [
      | inl lost ↦ cc
      | inr (read, kept, same) ↦ cc
    ]

registered-role :
    (p : Platform) (settings : Settings) (moves : List Move) (c : Cluster p) (name : String)
    (u : User)
    → p.users.select name c.users ≡ none
    → p.users.select name (run_moves p settings moves c).users ≡ some u
    → u.role ≡ role_user
registered-role p settings moves c name u new there =
    elim (run_moves-HasGrown p settings moves c name) [
      | inl same ↦ cc
      | inr (missing, v, found, registered) ↦ cc registered.0
    ]

-- An account is not in the table at first. Whatever happens to the processes that share the database:
-- when a login with its name then returns a token, no route under /admin returns for a request that
-- bears this token, at any later time and in any state; the route raises and writes nothing. The role
-- of a token that is accepted is supposed to be the one with which it was made.
pub registered-never_admin :
    (p : Platform) (settings : Settings) (moves : List Move) (c : Cluster p) (i : ℕ)
    (name password token : String) (request later : Request) (route : AdminRoute) (u : World p)
    → ReadsRole p
    → p.users.select name c.users ≡ none
    → (login p settings name password request (view p i (run_moves p settings moves c))).0
      ≡ ok (token_response p token)
    → bearer_token (split_words (or_else later.authorization "")) ≡ some token
    → (e : Exn) × (admin_route p route later u ≡ (err e, u))
registered-never_admin p settings moves c i name password token request later route u reads new
      returned sent =
    let v = view p i (run_moves p settings moves c) in
    let (found, there, answer) =
      login-IsTokenOf p settings name password request (token_response p token) v returned in
    let made = token_response_injective p _ _ answer in
    elim (Result-cases (require_admin p later u).0) [
      | inr (e, raised) ↦ (e, admin_route-refuses p route later e u raised)
      | inl (who, passed) ↦ absurd (
          not_admin p found.username v.now later u reads
            (sent
              ∙ ap some made
              ∙ ap (λ role. some (p.jwt.encode (claims_of found.username role v.now)))
                  (registered-role p settings moves c name found new there))
            (require_admin-IsAdmin p later u who passed))
    ]
