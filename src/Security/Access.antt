-- ===== src/Security/Access.antt =====
-- security/middleware.py: which requests reach the application.
use preceptual_ai_5g_dynamic.Prelude.{
  Bool, Bool-cases, List, Option, Option-cases, String, arith, eq_iff, false, inl, inr, none, refl,
  some, str_eq, sym, subst, true, ℕ, ◌≡◌, ◌≢◌, ◌⊎◌,
}
use preceptual_ai_5g_dynamic.Prelude.Outcome.{Exn, Outcome, Outcome-cases, ok}
use preceptual_ai_5g_dynamic.Security.Jwt.{
  Claims, Decoder, JwtManager, Verified, failed, jwt_error, valid, verify_token,
}
use preceptual_ai_5g_dynamic.Security.Request.{
  Request, bearer_token, http_method_to_action, is_public, strip_slashes, skip_spaces, after_prefix,
}
use preceptual_ai_5g_dynamic.Security.Middleware.{
  Dispatched, Principal, answered, authenticate, authorise, dispatch, failed_with, granted, handled,
  is_mismatch, denied, AuthEvent, or_text, principal_of, stopped, token_invalid,
}

-- To split on what became of a token.
Verified-cases :
    (v : Verified)
    → ((c : Claims) × (v ≡ valid c)) ⊎ ((v ≡ jwt_error) ⊎ ((e : Exn) × (v ≡ failed e)))
Verified-cases (valid c) = inl (c, refl)
Verified-cases jwt_error = inr (inl refl)
Verified-cases (failed e) = inr (inr (e, refl))

mismatch-differs :
    (x : Option String) (t s : String) → is_mismatch x t ≡ true → x ≡ some s → (s ≢ "") × (t ≢ s)
unfolding is_mismatch
mismatch-differs none t s h e = cc
mismatch-differs (some u) t s h e = ground (arith, eq_iff u "", eq_iff u t)

match-agrees :
    (x : Option String) (t s : String) → is_mismatch x t ≡ false → x ≡ some s → s ≢ "" → t ≡ s
unfolding is_mismatch
match-agrees none t s h e n = cc
match-agrees (some u) t s h e n = ground (arith, eq_iff u "", eq_iff u t)

module _ {R W : Type 0} (enforce : (sub dom obj act : String) → Outcome Bool)
    (call_next : Option Principal → W → R × W) where
  -- What the claims must allow: a tenant that the request names is the claims' tenant, and Casbin
  -- permits the action on the path to the claims' subject in that tenant.
  pub record Allows (request : Request) (c : Claims) : Type 0 where
    pub own_tenant : (s : String) → request.x_tenant ≡ some s → s ≢ "" → or_text c.tenant ≡ s
    pub permitted :
        enforce
          (or_text c.sub)
          (or_text c.tenant)
          (strip_slashes request.path)
          (http_method_to_action request.method)
        ≡ ok true

  -- What a protected request must bring: a bearer token that verifies, with claims that allow it.
  pub record Grants (decode : Decoder) (request : Request) (prune_at now : ℕ) (m : JwtManager)
      (token : String) (c : Claims) : Type 0 where
    pub bears : bearer_token (or_text request.authorization) ≡ some token
    pub verifies : (verify_token decode token prune_at now m).0 ≡ valid c
    pub allows : Allows request c

  -- the application has not run
  abbrev pub Refused : W → Dispatched R W → Type 0
  Refused w d = (d.world ≡ w) × ((r : R) → d.reply ≢ answered r)

  -- it ran once, with the principal of the claims
  abbrev pub RanAs : Claims → W → Dispatched R W → Type 0
  RanAs c w d =
      (d.reply ≡ answered (call_next (some (principal_of c)) w).0)
      × (d.world ≡ (call_next (some (principal_of c)) w).1)
      × (d.event ≡ some granted)

  by_stop :
      (status : ℕ) (detail : String) (event : AuthEvent) (m : JwtManager) (w : W)
      (d : Dispatched R W)
      → d ≡ stopped enforce call_next status detail event m w
      → Refused w d
  unfolding stopped
  by_stop status detail event m w d e = (rw e refl, λ r h. let f = rw e at h in cc)

  by_failure :
      (exn : Exn) (m : JwtManager) (w : W) (d : Dispatched R W)
      → d ≡ record { reply = failed_with exn; event = none; manager = m; world = w }
      → Refused w d
  by_failure exn m w d e = (rw e refl, λ r h. let f = rw e at h in cc)

  by_run :
      (c : Claims) (m : JwtManager) (w : W) (d : Dispatched R W)
      → d ≡ handled enforce call_next (some (principal_of c)) (some granted) m w
      → RanAs c w d
  unfolding handled
  by_run c m w d e = (rw e refl, rw e refl, rw e refl)

  own-tenant :
      (request : Request) (c : Claims)
      → is_mismatch request.x_tenant (or_text c.tenant) ≡ true
      → Allows request c
      → ⊥
  unfolding is_mismatch
  own-tenant request c other allows = elim (Option-cases request.x_tenant) [
    | inl unset ↦ let f = rw (is_mismatch, unset) at other in cc
    | inr (s, set) ↦
        let (given, apart) = mismatch-differs request.x_tenant (or_text c.tenant) s other set in
        apart (allows.own_tenant s set given)
  ]

  authorise-Allows :
      (request : Request) (c : Claims) (m : JwtManager) (w : W)
      → (Allows request c × RanAs c w (authorise enforce call_next request c m w))
        ⊎ (Refused w (authorise enforce call_next request c m w) × (Allows request c → ⊥))
  unfolding authorise principal_of
  authorise-Allows request c m w =
      let t = or_text c.tenant in
      let d = authorise enforce call_next request c m w in
      elim (Bool-cases (is_mismatch request.x_tenant t)) [
        | inl other ↦ inr (
          by_stop 403 "tenant mismatch" denied m w d (rw (authorise, other) refl),
          own-tenant request c other,
        )
        | inr own ↦
            elim (Outcome-cases (
              enforce (or_text c.sub) t (strip_slashes request.path)
                (http_method_to_action request.method))) [
                  | inr (e, raises) ↦ inr (
                    by_failure e m w d (rw (authorise, own, raises) refl),
                    λ allows. let p = allows.permitted in cc,
                  )
                  | inl (false, forbids) ↦ inr (
                    by_stop 403 "forbidden" denied m w d (rw (authorise, own, forbids) refl),
                    λ allows. let p = allows.permitted in cc,
                  )
                  | inl (true, permits) ↦ inl (
                    record {
                      own_tenant = λ s. match-agrees request.x_tenant t s own;
                      permitted = permits;
                    },
                    by_run c m w d (rw (authorise, own, permits) refl),
                  )
                ]
      ]

  -- the two ways that a protected request may end
  abbrev Decided : Decoder → Request → (prune_at now : ℕ) → JwtManager → W → Dispatched R W → Type 0
  Decided decode request prune_at now m w d =
      ((token : String) × (c : Claims) × Grants decode request prune_at now m token c × RanAs c w d)
      ⊎ (Refused w d
          × ((token : String) (c : Claims) → Grants decode request prune_at now m token c → ⊥))

  authenticate-Decided :
      (decode : Decoder) (request : Request) (prune_at now : ℕ) (token : String) (m : JwtManager)
      (w : W)
      → bearer_token (or_text request.authorization) ≡ some token
      → Decided decode request prune_at now m w
          (authenticate enforce call_next decode request prune_at now token m w)
  unfolding authenticate
  authenticate-Decided decode request prune_at now token m w bears =
      let (v, n) = verify_token decode token prune_at now m in
      let d = authenticate enforce call_next decode request prune_at now token m w in
      let same : (other : String) (c : Claims)
          → Grants decode request prune_at now m other c
          → v ≡ valid c =
        λ other c g.
          let e : other ≡ token = (let b = g.bears in cc) in
          subst (λ (x : String). (verify_token decode x prune_at now m).0 ≡ valid c) e g.verifies in
      elim (Verified-cases v) [
        | inr (inl bad) ↦ inr (
          by_stop 401 "invalid token" token_invalid n w d (rw (authenticate, bad) refl),
          λ other c g. let e = same other c g in cc,
        )
        | inr (inr (exn, fails)) ↦ inr (
          by_failure exn n w d (rw (authenticate, fails) refl),
          λ other c g. let e = same other c g in cc,
        )
        | inl (c, good) ↦
            let on : d ≡ authorise enforce call_next request c n w = rw (authenticate, good) refl in
            elim (authorise-Allows request c n w) [
              | inl (allows, ran) ↦ inl (
                token,
                c,
                record { bears = bears; verifies = good; allows = allows },
                subst (RanAs c w) (sym on) ran,
              )
              | inr (refused, forbids) ↦ inr (
                subst (Refused w) (sym on) refused,
                λ other k g.
                    let e = same other k g in
                    let f : k ≡ c = cc in forbids (subst (Allows request) f g.allows),
              )
            ]
      ]

  pub dispatched :
      (decode : Decoder) (public : List String) (request : Request) (prune_at now : ℕ)
      (token : String) (m : JwtManager) (w : W)
      → is_public public request.path ≡ false
      → str_eq (or_text request.authorization) "" ≡ false
      → bearer_token (or_text request.authorization) ≡ some token
      → dispatch enforce call_next decode public request prune_at now m w
        ≡ authenticate enforce call_next decode request prune_at now token m w
  unfolding dispatch
  dispatched decode public request prune_at now token m w guarded given bears =
      rw (dispatch, guarded, given, bears) refl

  -- A request to a path that is not public. Either it brings a bearer token that verifies, with claims
  -- that name the tenant of the request, if it names one, and that Casbin permits: then the application
  -- runs once, as the principal of these claims. Or it brings no such token: then the application is
  -- left as it is, and the reply is none of its answers.
  pub dispatch-Grants :
      (decode : Decoder) (public : List String) (request : Request) (prune_at now : ℕ)
      (m : JwtManager) (w : W)
      → is_public public request.path ≡ false
      → ((token : String) × (c : Claims) × Grants decode request prune_at now m token c
          × RanAs c w (dispatch enforce call_next decode public request prune_at now m w))
        ⊎ (Refused w (dispatch enforce call_next decode public request prune_at now m w)
            × ((token : String) (c : Claims) → Grants decode request prune_at now m token c → ⊥))
  unfolding dispatch authenticate bearer_token skip_spaces after_prefix
  dispatch-Grants decode public request prune_at now m w guarded =
      let header = or_text request.authorization in
      let d = dispatch enforce call_next decode public request prune_at now m w in
      elim (Bool-cases (str_eq header "")) [
        | inl missing ↦ inr (
          by_stop 401 "missing Authorization header" token_invalid m w d
              (rw (dispatch, guarded, missing) refl),
          λ token c g. let e = rw ((eq_iff header "").0 missing) at g.bears in cc,
        )
        | inr given ↦ elim (Option-cases (bearer_token header)) [
          | inl malformed ↦ inr (
            by_stop 401 "malformed Authorization header" token_invalid m w d
                (rw (dispatch, guarded, given, malformed) refl),
            λ token c g. let e = g.bears in cc,
          )
          | inr (token, bears) ↦
              subst (Decided decode request prune_at now m w)
                (sym (dispatched decode public request prune_at now token m w guarded given bears))
                (authenticate-Decided decode request prune_at now token m w bears)
        ]
      ]
