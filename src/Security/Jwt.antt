-- ===== src/Security/Jwt.antt =====
-- security/jwt.py: `JWTManager`. Times are whole units of the clock; each reading of it is an argument.
-- The library `jose` and the loader of PEM files are parameters. Claims have the types that
-- `mint_token` gives them.
use preceptual_ai_5g_dynamic.Prelude.{
  Bool, List, Option, String, [], if◌then◌else◌, length, ltb, none, some, str_eq, true, ℕ, ◌++◌,
  ◌+◌, ◌||◌, ◌∷◌,
}
use preceptual_ai_5g_dynamic.Prelude.Outcome.{Exn, Outcome, ok, raised, value_error}

pub record Claims : Type 0 where
  pub sub : Option String
  pub tenant : Option String
  pub roles : Option (List String)
  pub iss : Option String
  pub aud : Option String
  pub iat : Option ℕ
  pub exp : Option ℕ
  pub jti : Option String

-- how `jwt.decode` and `verify_token` end: with claims, a JWTError, or another exception
pub data Verified : Type 0 where
  valid : Claims → Verified
  jwt_error : Verified
  failed : Exn → Verified

-- `jwt.decode` of a token with a public key, an audience and an issuer
abbrev pub Decoder : Type 0
Decoder = (token public_pem audience issuer : String) → Verified

pub record ActiveKey : Type 0 where
  pub private_pem : String
  pub public_pem : String
  pub retire_at : Option ℕ

pub record JwtManager : Type 0 where
  pub issuer : String
  pub audience : String
  pub overlap_window : ℕ
  pub active : ActiveKey
  pub retired : List ActiveKey

-- `MAX_CLOCK_SKEW_SECONDS`, in the units of the clock
abbrev pub max_clock_skew : ℕ
max_clock_skew = 60

-- what `_load_active_key` makes of the two PEM texts
unfoldable pub loaded_key : String × String → ActiveKey
loaded_key (private_pem, public_pem) = record {
  private_pem = private_pem;
  public_pem = public_pem;
  retire_at = none;
}

-- `JWTManager.__init__`
unfoldable pub new_manager :
    Outcome (String × String) → (issuer audience : String) (overlap : ℕ) → Outcome JwtManager
unfolding loaded_key
new_manager (raised e) issuer audience overlap = raised e
new_manager (ok pems) issuer audience overlap = ok (record {
  issuer = issuer;
  audience = audience;
  overlap_window = overlap;
  active = loaded_key pems;
  retired = [];
})

-- `k.retire_at is None or k.retire_at > limit - slack`
unfoldable pub outlives : (slack limit : ℕ) → ActiveKey → Bool
outlives slack limit k = elim k.retire_at [
  | none ↦ true
  | some at_time ↦ ltb limit (at_time + slack)
]

unfoldable pub outliving : (slack limit : ℕ) → List ActiveKey → List ActiveKey
unfolding outlives
outliving slack limit [] = []
outliving slack limit (k ∷ ks) =
    let rest = outliving slack limit ks in if outlives slack limit k then k ∷ rest else rest

-- `_prune_retired_keys`, at a time
unfoldable pub prune_retired_keys : ℕ → JwtManager → JwtManager
unfolding outliving
prune_retired_keys now m = record m { retired = outliving max_clock_skew now m.retired }

-- `required not in claims`, for the three that the application needs
unfoldable pub with_required : Claims → Verified
with_required c = elim c.sub [
  | none ↦ jwt_error
  | some s ↦ elim c.tenant [
    | none ↦ jwt_error
    | some t ↦ elim c.roles [ none ↦ jwt_error | some r ↦ valid c ]
  ]
]

module _ (decode : Decoder) where
  -- the loop over the keys to try: the last error is raised when none decodes the token
  unfoldable pub try_keys : (token audience issuer : String) → List ActiveKey → Verified
  unfolding with_required
  try_keys token audience issuer [] = jwt_error
  try_keys token audience issuer (k ∷ ks) =
      let rest = try_keys token audience issuer ks in
      elim (decode token k.public_pem audience issuer) [
        | valid c ↦ with_required c
        | jwt_error ↦ rest
        | failed e ↦ failed e
      ]

  -- `verify_token`: the clock is read for the pruning and again for the keys to try
  unfoldable pub verify_token :
      (token : String) (prune_at now : ℕ) → JwtManager → Verified × JwtManager
  unfolding try_keys prune_retired_keys outliving
  verify_token token prune_at now m =
      let n = prune_retired_keys prune_at m in
      (try_keys token n.audience n.issuer (n.active ∷ outliving 0 now n.retired), n)

-- `rotate_signing_key`, from what the loader made of the new key's file
unfoldable pub rotate_signing_key :
    Outcome (String × String) → (now prune_at : ℕ) → JwtManager → Outcome JwtManager
unfolding loaded_key prune_retired_keys
rotate_signing_key (raised e) now prune_at m = raised e
rotate_signing_key (ok pems) now prune_at m = ok (
    prune_retired_keys prune_at (record m {
      active = loaded_key pems;
      retired = m.retired ++ record m.active { retire_at = some (now + m.overlap_window) } ∷ [];
    }))

-- `mint_token`: the claims and the key for `jwt.encode`
unfoldable pub claims_of :
    JwtManager
    → (subject tenant : String) (roles : List String) (ttl now : ℕ) (jti : String) → Claims
claims_of m subject tenant roles ttl now jti = record {
  sub = some subject;
  tenant = some tenant;
  roles = some roles;
  iss = some m.issuer;
  aud = some m.audience;
  iat = some now;
  exp = some (now + ttl);
  jti = some jti;
}

unfoldable pub mint_token :
    (encode : Claims → (private_pem : String) → Outcome String) (subject tenant : String)
    (roles : Option (List String)) (ttl now : ℕ) (jti : String) (m : JwtManager)
    → Outcome String
unfolding claims_of
mint_token encode subject tenant none ttl now jti m = raised value_error
mint_token encode subject tenant (some roles) ttl now jti m =
    if str_eq subject "" || str_eq tenant ""
    then raised value_error
    else encode (claims_of m subject tenant roles ttl now jti) m.active.private_pem

unfoldable pub retired_key_count : JwtManager → ℕ
retired_key_count m = length m.retired
