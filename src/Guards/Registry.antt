-- ===== src/Guards/Registry.antt =====
-- policy/guard_registry.py: the pluggable chain. A guard is a function with an identity, since
-- `register` compares functions by `is`. What the installed packages declare as entry points is
-- an argument: the names, and for each the guard that loading it gives, or nothing.
use Prim.Native.String.{◌++◌ as ◌<>◌}
use preceptual_ai_5g_dynamic.Prelude.{
  Bool, List, Option, String, [], false, has, if◌then◌else◌, none, not, some, str_eq, true, ℕ, ◌==◌,
  ◌∷◌,
}
use preceptual_ai_5g_dynamic.Prelude.Flt.{Flt}
use preceptual_ai_5g_dynamic.Prelude.Outcome.{Outcome, ok, raised, value_error}
use preceptual_ai_5g_dynamic.Shield.Certificate.{SafetyCertificate}
use preceptual_ai_5g_dynamic.Guards.{
  GuardFailure, certificate_corrections, guard_corrections_recorded,
  guard_decision_within_a1_budget, guard_predicted_outcome_pretrained,
  guard_shield_certificate_safe, no_detail,
}

-- An entry of the audit field is what the parameter `B` says it is; `extras` is left out, since no
-- guard of the program reads it.
pub record GuardContext {ℓ κ} (A : Type ℓ) (B : Type κ) : Type (ℓ ⊔ κ) where
  pub certificate : Option (SafetyCertificate A)
  pub head_is_pretrained : Bool
  pub elapsed_ms : Flt
  pub policy_period_ms : Flt
  pub audit_corrections_field : Option (List B)

module _ {ℓ κ} {A : Type ℓ} {B : Type κ} where
  unfoldable pub g_shield_certificate_safe : GuardContext A B → Outcome (Option GuardFailure)
  g_shield_certificate_safe ctx = ok (guard_shield_certificate_safe ctx.certificate)

  unfoldable pub g_head_pretrained : GuardContext A B → Outcome (Option GuardFailure)
  g_head_pretrained ctx = ok (guard_predicted_outcome_pretrained ctx.head_is_pretrained)

  unfoldable pub g_decision_within_a1_budget : GuardContext A B → Outcome (Option GuardFailure)
  g_decision_within_a1_budget ctx =
      ok (guard_decision_within_a1_budget ctx.elapsed_ms ctx.policy_period_ms)

  unfoldable pub g_corrections_recorded : GuardContext A B → Outcome (Option GuardFailure)
  unfolding certificate_corrections
  g_corrections_recorded ctx = ok (
      guard_corrections_recorded (certificate_corrections ctx.certificate)
        ctx.audit_corrections_field)

-- `only is not None and name not in only`
unfoldable pub skipped : Option (List String) → String → Bool
skipped none name = false
skipped (some names) name = not (has name names)

-- a callable: its identity and what it does
pub record GuardFn {ℓ κ} (A : Type ℓ) (B : Type κ) : Type (ℓ ⊔ κ) where
  pub identity : ℕ
  pub run : GuardContext A B → Outcome (Option GuardFailure)

pub record GuardEntry {ℓ κ} (A : Type ℓ) (B : Type κ) : Type (ℓ ⊔ κ) where
  pub name : String
  pub fn : GuardFn A B

pub record GuardRegistry {ℓ κ} (A : Type ℓ) (B : Type κ) : Type (ℓ ⊔ κ) where
  pub entries : List (GuardEntry A B)
  pub loaded_entry_points : Bool

-- what `ep.load()` gives: it raised, a value that cannot be called, or a guard
pub data Loaded {ℓ κ} (A : Type ℓ) (B : Type κ) : Type (ℓ ⊔ κ) where
  load_failed not_callable : Loaded A B
  guard_fn : GuardFn A B → Loaded A B

module _ {ℓ κ} {A : Type ℓ} {B : Type κ} where
  abbrev pub new_registry : GuardRegistry A B
  new_registry = record { entries = []; loaded_entry_points = false }

  -- `self._entries.get(name)`
  unfoldable pub find_entry : String → List (GuardEntry A B) → Option (GuardEntry A B)
  find_entry name [] = none
  find_entry name (e ∷ es) = if str_eq e.name name then some e else find_entry name es

  -- `self._entries[name] = entry`: a key that is there keeps its place
  unfoldable pub put_entry : GuardEntry A B → List (GuardEntry A B) → List (GuardEntry A B)
  put_entry x [] = x ∷ []
  put_entry x (e ∷ es) =
      let rest = put_entry x es in if str_eq e.name x.name then x ∷ es else e ∷ rest

  -- `name in self._entries and self._entries[name].fn is not fn`
  unfoldable pub taken : GuardFn A B → Option (GuardEntry A B) → Bool
  taken fn none = false
  taken fn (some e) = not (e.fn.identity == fn.identity)

  unfoldable pub register :
      String → GuardFn A B → GuardRegistry A B → Outcome (Unit {0}) × GuardRegistry A B
  unfolding taken
  register name fn r =
      if taken fn (find_entry name r.entries)
      then (raised value_error, r)
      else (ok tt, record r { entries = put_entry (record { name = name; fn = fn }) r.entries })

  -- the loop of `_maybe_load_entry_points`: a registration that raises ends it
  unfoldable pub load_all :
      List (String × Loaded A B) → GuardRegistry A B → Outcome (Unit {0}) × GuardRegistry A B
  load_all [] r = (ok tt, r)
  load_all ((name, load_failed) ∷ eps) r = load_all eps r
  load_all ((name, not_callable) ∷ eps) r = load_all eps r
  load_all ((name, guard_fn fn) ∷ eps) r = elim (register name fn r).0 [
    | ok _ ↦ load_all eps (register name fn r).1
    | raised e ↦ (raised e, (register name fn r).1)
  ]

  -- `none` stands for a lookup of the entry points that raised
  unfoldable pub maybe_load_entry_points :
      Option (List (String × Loaded A B))
      → GuardRegistry A B
      → Outcome (Unit {0}) × GuardRegistry A B
  unfolding load_all
  maybe_load_entry_points eps r = if r.loaded_entry_points then (ok tt, r) else elim eps [
    | none ↦ (ok tt, record r { loaded_entry_points = true })
    | some found ↦ load_all found (record r { loaded_entry_points = true })
  ]

  -- one guard of the chain: an exception counts as a failure of its own
  unfoldable pub run_guard : GuardContext A B → GuardEntry A B → Option GuardFailure
  run_guard ctx e = elim (e.fn.run ctx) [
    | ok f ↦ f
    | raised x ↦
        some (record { guard_id = ◌<>◌ "_guard_internal_error::" e.name; detail = no_detail })
  ]

  unfoldable pub run_entries :
      GuardContext A B → Option (List String) → List (GuardEntry A B) → List GuardFailure
  unfolding run_guard skipped
  run_entries ctx only [] = []
  run_entries ctx only (e ∷ es) =
      let rest = run_entries ctx only es in
      if skipped only e.name
      then rest
      else elim (run_guard ctx e) [ none ↦ rest | some f ↦ f ∷ rest ]

  -- `run_guard_chain` of the registry: `get_guards` first loads the entry points
  unfoldable pub run_registry :
      Option (List (String × Loaded A B))
      → GuardContext A B
      → Option (List String)
      → GuardRegistry A B
      → Outcome (List GuardFailure) × GuardRegistry A B
  unfolding run_entries
  run_registry eps ctx only r =
      let (loaded, r') = maybe_load_entry_points eps r in
      (elim loaded [ ok _ ↦ ok (run_entries ctx only r'.entries) | raised e ↦ raised e ], r')

  -- the registrations that the module makes when it is imported, in its order
  abbrev pub builtins : List (GuardEntry A B)
  builtins =
      record {
        name = "shield_certificate_safe";
        fn = record { identity = 0; run = g_shield_certificate_safe };
      }
      ∷ record { name = "head_pretrained"; fn = record { identity = 1; run = g_head_pretrained } }
      ∷ record {
        name = "decision_within_a1_budget";
        fn = record { identity = 2; run = g_decision_within_a1_budget };
      }
      ∷ record {
        name = "corrections_recorded";
        fn = record { identity = 3; run = g_corrections_recorded };
      }
      ∷ []

  unfoldable pub register_all : List (GuardEntry A B) → GuardRegistry A B → GuardRegistry A B
  register_all [] r = r
  register_all (e ∷ es) r = register_all es (register e.name e.fn r).1

  unfoldable pub builtin_registry : GuardRegistry A B
  unfolding register_all
  builtin_registry = register_all builtins new_registry
