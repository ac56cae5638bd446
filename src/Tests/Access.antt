-- ===== src/Tests/Access.antt =====
-- security/ at concrete inputs: a key that is rotated out, and requests with its tokens.
use preceptual_ai_5g_dynamic.Prelude.{
  Bool, List, Option, String, [], arith, false, if◌then◌else◌, none, refl, some, str_eq, ℕ, ◌+◌,
  ◌∷◌, ◌≡◌, ◌⊎◌,
}
use preceptual_ai_5g_dynamic.Prelude.Outcome.{Outcome, ok, os_error, raised}
use preceptual_ai_5g_dynamic.Security.Jwt.{
  ActiveKey, Claims, Decoder, JwtManager, jwt_error, try_keys, valid, verify_token,
}
use preceptual_ai_5g_dynamic.Security.Reference.{Event, open_keys, rotates, run, run_kept, verifies}
use preceptual_ai_5g_dynamic.Security.Rotation.{verify_token-kept}
use preceptual_ai_5g_dynamic.Security.Request.{Request, is_public, public_paths}
use preceptual_ai_5g_dynamic.Security.Middleware.{Principal, dispatch}
use preceptual_ai_5g_dynamic.Security.Access.{Grants, RanAs, Refused, dispatch-Grants}
use preceptual_ai_5g_dynamic.Security.Tenant.{
  Code, follows, lexically, looks, raises, run_code, run_code-lexically, within,
}

abbrev old_key : ActiveKey
old_key = record { private_pem = "s1"; public_pem = "p1"; retire_at = none }

abbrev manager : JwtManager
manager = record {
  issuer = "horizon";
  audience = "smo";
  overlap_window = 100;
  active = old_key;
  retired = [];
}

abbrev claims : Claims
claims = record {
  sub = some "alice";
  tenant = some "op_a";
  roles = some ("operator" ∷ []);
  iss = some "horizon";
  aud = some "smo";
  iat = some 900;
  exp = some 4500;
  jti = some "j1";
}

-- tokens of the first key
abbrev decode_first : Decoder
decode_first token pem audience issuer = if str_eq pem "p1" then valid claims else jwt_error

-- an earlier look at the keys, a load that fails, a further rotation
abbrev later : List Event
later =
    verifies 1010 ∷ rotates (raised os_error) 1020 1020 ∷ rotates (ok ("s3", "p3")) 1030 1035 ∷ []

abbrev all_events : List Event
all_events = rotates (ok ("s2", "p2")) 1000 1001 ∷ later

verify_token-kept_example :
    (verify_token decode_first "tok.1" 1090 1095 (run all_events manager)).0
    ≡ try_keys decode_first "tok.1"
        (run_kept all_events manager).audience
        (run_kept all_events manager).issuer
        (open_keys 1095 (run_kept all_events manager))
verify_token-kept_example =
    verify_token-kept decode_first "tok.1" all_events manager 1090 1095
      (omega arith, (omega arith, (omega arith, (omega arith, tt)))) (omega arith)

abbrev get_policies : Request
get_policies = record {
  path = "/policies/7";
  method = "get";
  authorization = some " Bearer tok.1";
  x_tenant = some "op_a";
}

abbrev only_alice : (sub dom obj act : String) → Outcome Bool
only_alice sub dom obj act = ok (str_eq sub "alice")

abbrev count_runs : Option Principal → ℕ → String × ℕ
count_runs p n = ("done", n + 1)

get_policies_guarded : is_public public_paths get_policies.path ≡ false
unfolding is_public
get_policies_guarded = refl

dispatch-Grants_example :
    ((token : String) × (c : Claims) × Grants only_alice count_runs decode_first get_policies 1098
        1099 manager token c
      × RanAs only_alice count_runs c 4 (
          dispatch only_alice count_runs decode_first public_paths get_policies 1098 1099 manager
            4))
    ⊎ (Refused only_alice count_runs 4 (
          dispatch only_alice count_runs decode_first public_paths get_policies 1098 1099 manager 4)
        × ((token : String) (c : Claims)
            → Grants only_alice count_runs decode_first get_policies 1098 1099 manager token c
            → ⊥))
dispatch-Grants_example =
    dispatch-Grants only_alice count_runs decode_first public_paths get_policies 1098 1099 manager 4
      get_policies_guarded

-- two tenants, one inside the other, and an exception in the inner scope
abbrev nested : Code
nested =
    follows (within "op_a" (follows looks (within "op_b" (follows looks (raises os_error))))) looks

run_code-lexically_example : run_code nested none ≡ lexically nested none
run_code-lexically_example = run_code-lexically nested none
