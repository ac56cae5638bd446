-- ===== src/Security/Tenant.antt =====
-- security/tenant.py: `TenantScope`, and code in nested scopes. The context variable is the active tenant;
-- a token of it is what it held before it was set.
use preceptual_ai_5g_dynamic.Prelude.{
  Bool-cases, inl, inr, List, Option, String, [], if◌then◌else◌, none, refl, some, str_eq, ◌++◌,
  ◌∷◌, ◌≡◌,
}
use preceptual_ai_5g_dynamic.Prelude.Outcome.{
  Exn, Outcome, Outcome-cases, ok, raised, runtime_error, value_error,
}

pub record TenantScope : Type 0 where
  pub tenant_id : String
  pub token : Option (Option String)

-- `__init__`
unfoldable pub new_scope : String → Outcome TenantScope
new_scope tenant_id =
    if str_eq tenant_id ""
    then raised value_error
    else ok (record { tenant_id = tenant_id; token = none })

-- `__enter__`
unfoldable pub enter : TenantScope → Option String → TenantScope × Option String
enter s active = (record s { token = some active }, some s.tenant_id)

-- `__exit__`
unfoldable pub exit : TenantScope → Option String → TenantScope × Option String
exit s active = elim s.token [
  | none ↦ (s, active)
  | some before ↦ (record s { token = none }, before)
]

unfoldable pub require_current_tenant : Option String → Outcome String
require_current_tenant none = raised runtime_error
require_current_tenant (some t) = ok t

-- Code that looks at the active tenant, runs code in a new scope, and may raise. What follows code that
-- raised is not run; the scope is left all the same.
pub data Code : Type 0 where
  skip looks : Code
  raises : Exn → Code
  follows : Code → Code → Code
  within : (tenant_id : String) → Code → Code

-- what a run ends with, what it saw, and the active tenant after it
pub record Ran : Type 0 where
  pub result : Outcome (Unit {0})
  pub seen : List (Option String)
  pub active : Option String

abbrev pub and_then : Ran → (Option String → Ran) → Ran
and_then r next = elim r.result [
  | raised e ↦ r
  | ok _ ↦ let s = next r.active in record s { seen = r.seen ++ s.seen }
]

abbrev pub run_code : Code → Option String → Ran
unfolding new_scope enter exit
run_code skip active = record { result = ok tt; seen = []; active = active }
run_code looks active = record { result = ok tt; seen = active ∷ []; active = active }
run_code (raises e) active = record { result = raised e; seen = []; active = active }
run_code (follows c d) active = and_then (run_code c active) (run_code d)
run_code (within tenant_id c) active = elim (new_scope tenant_id) [
  | raised e ↦ record { result = raised e; seen = []; active = active }
  | ok s ↦
      let (entered, inside) = enter s active in
      let r = run_code c inside in
      let (left, outside) = exit entered r.active in record r { active = outside }
]

-- The same code read lexically: what it sees is the tenant of the innermost scope around it, and no
-- state is kept. A scope without a name raises.
abbrev pub lexical : Code → Option String → Outcome (Unit {0}) × List (Option String)
lexical skip active = (ok tt, [])
lexical looks active = (ok tt, active ∷ [])
lexical (raises e) active = (raised e, [])
lexical (follows c d) active =
    let (result, seen) = lexical c active in
    elim result [
      | raised e ↦ (raised e, seen)
      | ok _ ↦ let (result', seen') = lexical d active in (result', seen ++ seen')
    ]
lexical (within tenant_id c) active =
    if str_eq tenant_id "" then (raised value_error, []) else lexical c (some tenant_id)

-- a run that ends as the lexical reading says
abbrev pub lexically : Code → Option String → Ran
lexically c active = record {
  result = (lexical c active).0;
  seen = (lexical c active).1;
  active = active;
}

-- Code in nested tenant scopes, each a new `TenantScope`, that may raise anywhere: the run sees at every
-- place the tenant of the innermost scope around it, ends as the lexical reading says, and leaves the
-- active tenant as it was before.
pub run_code-lexically :
    (c : Code) (active : Option String) → run_code c active ≡ lexically c active
unfolding new_scope enter exit
run_code-lexically skip active = refl
run_code-lexically looks active = refl
run_code-lexically (raises e) active = refl
run_code-lexically (follows c d) active = elim (Outcome-cases (lexical c active).0) [
  | inr (e, fails) ↦ rw (run_code-lexically c active, lexical, fails) refl
  | inl (u, fine) ↦
      rw (run_code-lexically c active, lexical, fine, run_code-lexically d active) refl
]
run_code-lexically (within tenant_id c) active = elim (Bool-cases (str_eq tenant_id "")) [
  | inl nameless ↦ rw (run_code, new_scope, nameless) refl
  | inr named ↦ rw (run_code, new_scope, named, run_code-lexically c (some tenant_id)) refl
]

-- A scope that is entered again inside itself: after both exits it is still active.
pub reentered :
    (s : TenantScope) (active : Option String)
    → (exit
        (exit (enter (enter s active).0 (enter s active).1).0 (some s.tenant_id)).0
        (exit (enter (enter s active).0 (enter s active).1).0 (some s.tenant_id)).1).1
      ≡ some s.tenant_id
unfolding enter exit
reentered s active = refl
