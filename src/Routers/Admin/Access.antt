-- ===== src/Routers/Admin/Access.antt =====
-- app/routers/admin.py: who gets past the check of the role.
use mathlib.Core.Bool.{false≢true}
use api_gateway_with_abuse_d.Prelude.{
  String, ◌≡◌, refl, ap, ◌∙◌, Bool, true, Option, none, some, Bool-cases, inl, inr, eq_iff, ◌==◌,
  arith,
}
use api_gateway_with_abuse_d.Platform.{Platform, Claims}
use api_gateway_with_abuse_d.Text.{split_words}
use api_gateway_with_abuse_d.World.{World, Exec, Exn, ok, err}
use api_gateway_with_abuse_d.World.Http.{Request, Response, or_else}
use api_gateway_with_abuse_d.World.Exec.{continue}
use api_gateway_with_abuse_d.World.Inversion.{err≢ok, continue-returned, continue-raised}
use api_gateway_with_abuse_d.Core.Security.{seconds_of, decode_access_token}
use api_gateway_with_abuse_d.Dependencies.{
  require_admin, require_token, require_role, bearer_token, role_admin, role_user,
}
use api_gateway_with_abuse_d.Routers.Admin.{
  shadow_stats, block_ip, block_agent, soft_block_ip, unblock_ip, block_status, set_shadow_mode,
}

-- The routes under /admin, with what they take from the URL or the query.
pub data AdminRoute : Type 0 where
  get_stats : AdminRoute
  post_block_ip post_soft_block delete_block get_status : (ip : String) → AdminRoute
  post_block_agent : (user_agent : String) → AdminRoute
  post_shadow_mode : (enabled : Bool) → AdminRoute

unfoldable pub admin_route : (p : Platform) → AdminRoute → Request → Exec p Response
admin_route p get_stats request = shadow_stats p request
admin_route p (post_block_ip ip) request = block_ip p ip request
admin_route p (post_soft_block ip) request = soft_block_ip p ip request
admin_route p (delete_block ip) request = unblock_ip p ip request
admin_route p (get_status ip) request = block_status p ip request
admin_route p (post_block_agent user_agent) request = block_agent p user_agent request
admin_route p (post_shadow_mode enabled) request = set_shadow_mode p enabled request

-- A token of the request whose claims name the administrator's role, and are valid now.
unfoldable pub IsAdmin : (p : Platform) → Request → World p → Type 0
IsAdmin p request w =
    (token : String) × (claims : Claims) × (bearer_token
        (split_words (or_else request.authorization ""))
      ≡ some token)
    × (p.jwt.decode (seconds_of w.now) token ≡ some claims)
    × (claims.role ≡ some role_admin)

role_of_admin :
    (role : Option String) → (or_else role role_user == role_admin) ≡ true → role ≡ some role_admin
role_of_admin none h = absurd (false≢true h)
role_of_admin (some role) h = ap some ((eq_iff role role_admin).0 h)

module _ (p : Platform) (w : World p) where
  pub require_role-returned :
      (claims : Option Claims) (who : String)
      → (require_role {p = p} claims w).0 ≡ ok who
      → (c : Claims) × (claims ≡ some c) × (c.role ≡ some role_admin)
  require_role-returned none who h = absurd (err≢ok h)
  require_role-returned (some c) who h =
      elim (Bool-cases (or_else c.role role_user == role_admin)) [
        | inl admin ↦ (c, refl, role_of_admin c.role admin)
        | inr other ↦ absurd (err≢ok (rw other at h))
      ]

  pub require_token-returned :
      (found : Option String) (who : String)
      → (require_token p found w).0 ≡ ok who
      → (token : String) × (c : Claims) × (found ≡ some token)
        × (p.jwt.decode (seconds_of w.now) token ≡ some c)
        × (c.role ≡ some role_admin)
  unfolding decode_access_token
  require_token-returned none who h = absurd (err≢ok h)
  require_token-returned (some token) who h =
      let (c, valid, admin) = require_role-returned (p.jwt.decode (seconds_of w.now) token) who h in
      (token, c, refl, valid, admin)

  require_role-keeps : (claims : Option Claims) → (require_role {p = p} claims w).1 ≡ w
  require_role-keeps none = refl
  require_role-keeps (some c) = ground arith

  require_token-keeps : (found : Option String) → (require_token p found w).1 ≡ w
  unfolding decode_access_token
  require_token-keeps none = refl
  require_token-keeps (some token) = require_role-keeps (p.jwt.decode (seconds_of w.now) token)

pub require_admin-IsAdmin :
    (p : Platform) (request : Request) (w : World p) (who : String)
    → (require_admin p request w).0 ≡ ok who
    → IsAdmin p request w
unfolding require_admin IsAdmin
require_admin-IsAdmin p request w who h =
    require_token-returned p w (bearer_token (split_words (or_else request.authorization ""))) who h

pub require_admin-keeps :
    (p : Platform) (request : Request) (w : World p) → (require_admin p request w).1 ≡ w
unfolding require_admin
require_admin-keeps p request w =
    require_token-keeps p w (bearer_token (split_words (or_else request.authorization "")))

-- A bind of the check and a body: an error of the check is the answer, and nothing is written.
refused :
    (p : Platform) (request : Request) (body : String → Exec p Response) (e : Exn) (w : World p)
    → (require_admin p request w).0 ≡ err e
    → continue (require_admin p request w) body ≡ (err e, w)
refused p request body e w h =
    continue-raised (require_admin p request w) body h
    ∙ ap (λ v. (err e, v)) (require_admin-keeps p request w)

passed :
    (p : Platform) (request : Request) (body : String → Exec p Response) (response : Response)
    (w : World p)
    → (continue (require_admin p request w) body).0 ≡ ok response
    → IsAdmin p request w
passed p request body response w h =
    let (who, done, _) = continue-returned (require_admin p request w) body h in
    require_admin-IsAdmin p request w who done

-- A body that returned has run in the world of the call.
pub admitted :
    (p : Platform) (request : Request) (body : String → Exec p Response) (response : Response)
    (w : World p)
    → (continue (require_admin p request w) body).0 ≡ ok response
    → (who : String) × (continue (require_admin p request w) body ≡ body who w)
admitted p request body response w h =
    let (who, done, step) = continue-returned (require_admin p request w) body h in
    (who, step ∙ ap (body who) (require_admin-keeps p request w))

-- A route under /admin that returns a response has been called with a valid token of the
-- administrator's role.
pub admin_route-guarded :
    (p : Platform) (route : AdminRoute) (request : Request) (response : Response) (w : World p)
    → (admin_route p route request w).0 ≡ ok response
    → IsAdmin p request w
unfolding admin_route shadow_stats block_ip soft_block_ip unblock_ip block_status block_agent
    set_shadow_mode
admin_route-guarded p get_stats request response w h = passed p request _ response w h
admin_route-guarded p (post_block_ip ip) request response w h = passed p request _ response w h
admin_route-guarded p (post_soft_block ip) request response w h = passed p request _ response w h
admin_route-guarded p (delete_block ip) request response w h = passed p request _ response w h
admin_route-guarded p (get_status ip) request response w h = passed p request _ response w h
admin_route-guarded p (post_block_agent user_agent) request response w h =
    passed p request _ response w h
admin_route-guarded p (post_shadow_mode enabled) request response w h =
    passed p request _ response w h

-- A route under /admin to which the check of the role raises an error raises the same, and writes
-- nothing.
pub admin_route-refuses :
    (p : Platform) (route : AdminRoute) (request : Request) (e : Exn) (w : World p)
    → (require_admin p request w).0 ≡ err e
    → admin_route p route request w ≡ (err e, w)
unfolding admin_route shadow_stats block_ip soft_block_ip unblock_ip block_status block_agent
    set_shadow_mode
admin_route-refuses p get_stats request e w h = refused p request _ e w h
admin_route-refuses p (post_block_ip ip) request e w h = refused p request _ e w h
admin_route-refuses p (post_soft_block ip) request e w h = refused p request _ e w h
admin_route-refuses p (delete_block ip) request e w h = refused p request _ e w h
admin_route-refuses p (get_status ip) request e w h = refused p request _ e w h
admin_route-refuses p (post_block_agent user_agent) request e w h = refused p request _ e w h
admin_route-refuses p (post_shadow_mode enabled) request e w h = refused p request _ e w h
