-- ===== src/Security/Middleware.antt =====
-- security/middleware.py: `JWTAuthMiddleware.dispatch`, and the dependencies of a route. The rest of the
-- application is `call_next`, on a state `W`; Casbin's `enforce` is a parameter, which may raise.
use preceptual_ai_5g_dynamic.Prelude.{
  Bool, List, Option, String, [], false, has, if◌then◌else◌, none, not, some, str_eq, true, ℕ, ◌&&◌,
  ◌||◌, ◌∷◌,
}
use preceptual_ai_5g_dynamic.Prelude.Outcome.{Exn, Outcome, ok, raised}
use preceptual_ai_5g_dynamic.Security.Jwt.{
  Claims, Decoder, JwtManager, failed, jwt_error, valid, verify_token,
}
use preceptual_ai_5g_dynamic.Security.Request.{
  Request, bearer_token, http_method_to_action, is_public, strip_slashes,
}

pub record Principal : Type 0 where
  pub subject : String
  pub tenant : String
  pub roles : List String
  pub jti : Option String

-- an error response of the middleware, the application's answer, or an exception
pub data Reply (R : Type 0) : Type 0 where
  json_error : (status : ℕ) (detail : String) → Reply R
  answered : R → Reply R
  failed_with : Exn → Reply R

pub data AuthEvent : Type 0 where
  token_invalid denied granted : AuthEvent

-- how a dispatch ends: the reply, the line of the audit log, the keys, and the application
pub record Dispatched (R W : Type 0) : Type 0 where
  pub reply : Reply R
  pub event : Option AuthEvent
  pub manager : JwtManager
  pub world : W

unfoldable pub or_text : Option String → String
or_text none = ""
or_text (some s) = s

unfoldable pub or_nil : Option (List String) → List String
or_nil none = []
or_nil (some xs) = xs

unfoldable pub principal_of : Claims → Principal
unfolding or_text or_nil
principal_of c = record {
  subject = or_text c.sub;
  tenant = or_text c.tenant;
  roles = or_nil c.roles;
  jti = c.jti;
}

-- `resource_tenant and resource_tenant != tok_tenant`
unfoldable pub is_mismatch : Option String → String → Bool
is_mismatch none tok_tenant = false
is_mismatch (some t) tok_tenant = not (str_eq t "") && not (str_eq t tok_tenant)

module _ {R W : Type 0} (enforce : (sub dom obj act : String) → Outcome Bool)
    (call_next : Option Principal → W → R × W) where
  unfoldable pub stopped : ℕ → String → AuthEvent → JwtManager → W → Dispatched R W
  stopped status detail event m w = record {
    reply = json_error status detail;
    event = some event;
    manager = m;
    world = w;
  }

  unfoldable pub handled : Option Principal → Option AuthEvent → JwtManager → W → Dispatched R W
  handled principal event m w =
      let (response, w') = call_next principal w in
      record { reply = answered response; event = event; manager = m; world = w' }

  -- the part of `dispatch` after the token is verified
  unfoldable pub authorise : Request → Claims → JwtManager → W → Dispatched R W
  unfolding principal_of is_mismatch stopped handled http_method_to_action strip_slashes
  authorise request c m w =
      let p = principal_of c in
      if is_mismatch request.x_tenant p.tenant
      then stopped 403 "tenant mismatch" denied m w
      else elim (enforce p.subject p.tenant (strip_slashes request.path)
          (http_method_to_action request.method)) [
            | raised e ↦ record { reply = failed_with e; event = none; manager = m; world = w }
            | ok false ↦ stopped 403 "forbidden" denied m w
            | ok true ↦ handled (some p) (some granted) m w
          ]

  unfoldable pub authenticate :
      Decoder → Request → (prune_at now : ℕ) → (token : String) → JwtManager → W → Dispatched R W
  unfolding verify_token authorise
  authenticate decode request prune_at now token m w =
      let (verified, n) = verify_token decode token prune_at now m in
      elim verified [
        | jwt_error ↦ stopped 401 "invalid token" token_invalid n w
        | failed e ↦ record { reply = failed_with e; event = none; manager = n; world = w }
        | valid c ↦ authorise request c n w
      ]

  unfoldable pub dispatch :
      Decoder
      → (public : List String) (request : Request) (prune_at now : ℕ) → JwtManager
      → W
      → Dispatched R W
  unfolding authenticate is_public bearer_token or_text
  dispatch decode public request prune_at now m w =
      if is_public public request.path
      then handled none none m w
      else if str_eq (or_text request.authorization) ""
      then stopped 401 "missing Authorization header" token_invalid m w
      else elim (bearer_token (or_text request.authorization)) [
        | none ↦ stopped 401 "malformed Authorization header" token_invalid m w
        | some token ↦ authenticate decode request prune_at now token m w
      ]

-- a dependency raises HTTPException, or gives the principal
pub data Required : Type 0 where
  http_exception : ℕ → Required
  admitted : Principal → Required

-- `any(r in principal.roles for r in allowed_roles)`
unfoldable pub holds_any : List String → List String → Bool
holds_any [] roles = false
holds_any (r ∷ rs) roles = has r roles || holds_any rs roles

unfoldable pub require_role : List String → Option Principal → Required
unfolding holds_any
require_role allowed none = http_exception 401
require_role allowed (some p) = if holds_any allowed p.roles then admitted p else http_exception 403

unfoldable pub require_tenant : String → Option Principal → Required
require_tenant tenant_id none = http_exception 401
require_tenant tenant_id (some p) =
    if str_eq p.tenant tenant_id then admitted p else http_exception 403
