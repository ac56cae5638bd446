-- ===== src/Security/Request.antt =====
-- security/middleware.py: what is read of a request. Headers are latin-1 texts and methods are ASCII.
use Prim.Native.Char.{Char, code}
use Prim.Native.String.{String, [] as nil, ◌∷◌ as ◌+:◌, ◌++◌ as ◌<>◌}
use text.Mathlib.Text.{starts_with}
use preceptual_ai_5g_dynamic.Prelude.{
  Bool, List, Option, [], false, has, if◌then◌else◌, leb, none, some, str_eq, ℕ, ◌&&◌, ◌==◌, ◌||◌,
  ◌∷◌,
}

pub record Request : Type 0 where
  pub path : String
  pub method : String
  pub authorization : Option String
  pub x_tenant : Option String

-- `_PUBLIC_PATHS`
abbrev pub public_paths : List String
public_paths = "/healthz" ∷ "/livez" ∷ "/readyz" ∷ "/openapi.json" ∷ "/docs" ∷ "/redoc" ∷ []

-- `any(path == p or path.startswith(p + "/") for p in self._public)`
unfoldable pub is_public : List String → String → Bool
is_public [] path = false
is_public (p ∷ ps) path = str_eq path p || starts_with path (p <> "/") || is_public ps path

-- `\s`, in latin-1
unfoldable pub is_space : ℕ → Bool
is_space c = leb 9 c && leb c 13 || leb 28 c && leb c 32 || c == 133 || c == 160

-- `[A-Za-z0-9._\-]`
unfoldable pub is_token_char : ℕ → Bool
is_token_char c =
    leb 65 c && leb c 90
    || leb 97 c && leb c 122
    || leb 48 c && leb c 57
    || c == 46
    || c == 95
    || c == 45

-- `\s*` at the start
unfoldable pub skip_spaces : String → String
unfolding is_space
skip_spaces String.[] = nil
skip_spaces (String.◌∷◌ c s) =
    let rest = skip_spaces s in if is_space (code c) then rest else c +: s

-- the longest start of token characters, and what is left
unfoldable pub take_token : String → String × String
unfolding is_token_char
take_token String.[] = (nil, nil)
take_token (String.◌∷◌ c s) =
    let (token, rest) = take_token s in
    if is_token_char (code c) then (c +: token, rest) else (nil, c +: s)

-- what follows a prefix
unfoldable pub after_prefix : String → String → Option String
after_prefix String.[] s = some s
after_prefix (String.◌∷◌ a p) String.[] = none
after_prefix (String.◌∷◌ a p) (String.◌∷◌ c s) =
    let rest = after_prefix p s in if code a == code c then rest else none

-- `_BEARER_RE.match`, and its group. Spaces are no token characters, so no choice is ever taken back.
unfoldable pub bearer_token : String → Option String
unfolding skip_spaces take_token after_prefix
bearer_token header = elim (after_prefix "Bearer" (skip_spaces header)) [
  | none ↦ none
  | some s ↦
      let (token, rest) = take_token (skip_spaces s) in
      if str_eq s (skip_spaces s) || str_eq token ""
      then none
      else if str_eq (skip_spaces rest) ""
      then some token
      else none
]

-- the ASCII letter that stands at the same place in another alphabet
unfoldable pub translated : Char → (given wanted : String) → Char
translated c String.[] wanted = c
translated c (String.◌∷◌ a given) String.[] = c
translated c (String.◌∷◌ a given) (String.◌∷◌ b bs) =
    let rest = translated c given bs in if code c == code a then b else rest

unfoldable pub translate : (given wanted : String) → String → String
unfolding translated
translate given wanted String.[] = nil
translate given wanted (String.◌∷◌ c s) = translated c given wanted +: translate given wanted s

abbrev pub upper_letters : String
upper_letters = "ABCDEFGHIJKLMNOPQRSTUVWXYZ"

abbrev pub lower_letters : String
lower_letters = "abcdefghijklmnopqrstuvwxyz"

-- `_http_method_to_action`
unfoldable pub http_method_to_action : String → String
unfolding translate
http_method_to_action method =
    let m = translate lower_letters upper_letters method in
    if has m ("GET" ∷ "HEAD" ∷ "OPTIONS" ∷ [])
    then "read"
    else if has m ("POST" ∷ "PUT" ∷ "PATCH" ∷ [])
    then "emit"
    else if str_eq m "DELETE"
    then "rollback"
    else translate upper_letters lower_letters m

-- `path.lstrip("/")`
unfoldable pub strip_slashes : String → String
strip_slashes String.[] = nil
strip_slashes (String.◌∷◌ c s) = let rest = strip_slashes s in if code c == 47 then rest else c +: s
