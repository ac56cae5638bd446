-- ===== src/Guards/Plugins.antt =====
-- policy/guard_registry.py: what plug-ins can and cannot do to the chain.
use preceptual_ai_5g_dynamic.Prelude.Outcome.{Outcome, ok, raised}
use preceptual_ai_5g_dynamic.Prelude.{
  Bool, Bool-cases, List, Option, String, [], arith, eq_iff, false, if◌then◌else◌, inl, inr, none,
  refl, some, str_eq, true, ◌∙◌, ◌∷◌, ◌≡◌,
}
use preceptual_ai_5g_dynamic.Guards.{run_guard_chain}
use preceptual_ai_5g_dynamic.Guards.Registry.{
  GuardContext, GuardEntry, GuardFn, GuardRegistry, Loaded, builtin_registry, builtins, find_entry,
  g_corrections_recorded, g_decision_within_a1_budget, g_head_pretrained, g_shield_certificate_safe,
  guard_fn, load_all, load_failed, maybe_load_entry_points, not_callable, put_entry, register,
  run_entries, run_guard, skipped, taken,
}

module _ {ℓ κ} {A : Type ℓ} {B : Type κ} where
  builtin_entries : (builtin_registry {A = A} {B = B}).entries ≡ builtins
  unfolding builtin_registry register find_entry put_entry
  builtin_entries = refl

  -- The chain of the module's own four registrations returns what `emit_guards.run_guard_chain`
  -- returns, for every context.
  pub builtin-run_guard_chain :
      (ctx : GuardContext A B)
      → run_entries ctx none (builtin_registry {A = A} {B = B}).entries
        ≡ run_guard_chain ctx.certificate ctx.head_is_pretrained ctx.elapsed_ms
            ctx.audit_corrections_field ctx.policy_period_ms
  unfolding run_entries g_shield_certificate_safe g_head_pretrained g_decision_within_a1_budget
      g_corrections_recorded run_guard_chain
  builtin-run_guard_chain ctx = rw builtin_entries (ground arith)

  -- Every guard under its name, in a registry that grew from another one.
  abbrev pub Keeps : GuardRegistry A B → GuardRegistry A B → Type (ℓ ⊔ κ)
  Keeps r r' =
      (n : String) (e : GuardEntry A B)
      → find_entry n r.entries ≡ some e
      → (e' : GuardEntry A B) × (find_entry n r'.entries ≡ some e')
        × (e'.fn.identity ≡ e.fn.identity)

  find_entry-put_entry :
      (x : GuardEntry A B) (n : String) (es : List (GuardEntry A B))
      → find_entry n (put_entry x es) ≡ (if str_eq x.name n then some x else find_entry n es)
  unfolding find_entry put_entry
  find_entry-put_entry x n [] = refl
  find_entry-put_entry x n (e ∷ es) =
      ground
        (arith, eq_iff e.name x.name, eq_iff x.name n, eq_iff e.name n, find_entry-put_entry x n es)

  register-Keeps :
      (name : String) (fn : GuardFn A B) (r : GuardRegistry A B) → Keeps r (register name fn r).1
  unfolding register
  register-Keeps name fn r n e h = elim (Bool-cases (taken fn (find_entry name r.entries))) [
    | inl refused ↦ rw refused (e, h, refl)
    | inr free ↦ rw (free, find_entry-put_entry) (kept name fn r n e h free (str_eq name n) refl)
  ]
    where
      kept :
          (name : String) (fn : GuardFn A B) (r : GuardRegistry A B) (n : String)
          (e : GuardEntry A B)
          → find_entry n r.entries ≡ some e
          → taken fn (find_entry name r.entries) ≡ false
          → (same : Bool) → str_eq name n ≡ same
          → (e' : GuardEntry A B) × ((if same
                then some (record { name = name; fn = fn })
                else find_entry n r.entries)
              ≡ some e')
            × (e'.fn.identity ≡ e.fn.identity)
      kept name fn r n e h free true q =
          (record { name = name; fn = fn }, refl, ground (arith, eq_iff name n))
      kept name fn r n e h free false q = (e, h, refl)

  Keeps-trans : (r s t : GuardRegistry A B) → Keeps r s → Keeps s t → Keeps r t
  Keeps-trans r s t p q n e h =
      let (e', h', i) = p n e h in let (e'', h'', j) = q n e' h' in (e'', h'', j ∙ i)

  load_all-Keeps :
      (eps : List (String × Loaded A B)) (r : GuardRegistry A B) → Keeps r (load_all eps r).1
  unfolding load_all
  load_all-Keeps [] r = λ n e h. (e, h, refl)
  load_all-Keeps ((name, load_failed) ∷ eps) r = load_all-Keeps eps r
  load_all-Keeps ((name, not_callable) ∷ eps) r = load_all-Keeps eps r
  load_all-Keeps ((name, guard_fn fn) ∷ eps) r =
      ended (register name fn r).0 (register name fn r).1 (load_all eps (register name fn r).1)
        (register-Keeps name fn r)
        (Keeps-trans r (register name fn r).1 (load_all eps (register name fn r).1).1
          (register-Keeps name fn r) (load_all-Keeps eps (register name fn r).1))
    where
      ended :
          (o : Outcome (Unit {0})) (s : GuardRegistry A B)
          (all : Outcome (Unit {0}) × GuardRegistry A B)
          → Keeps r s
          → Keeps r all.1
          → Keeps r
              (elim o as (λ _. Outcome (Unit {0}) × GuardRegistry A B) [
                | ok _ ↦ all
                | raised e ↦ (raised e, s)
              ]).1
      ended (ok _) s all p q = q
      ended (raised _) s all p q = p

  -- Whatever entry points are installed, and also when loading them raises, every guard that was
  -- registered before is still registered afterwards, under its name and as the same function.
  pub maybe_load-Keeps :
      (eps : Option (List (String × Loaded A B))) (r : GuardRegistry A B)
      → Keeps r (maybe_load_entry_points eps r).1
  unfolding maybe_load_entry_points
  maybe_load-Keeps eps r = elim (Bool-cases r.loaded_entry_points) [
    | inl done ↦ rw done (λ n e h. (e, h, refl))
    | inr first ↦ rw first (fresh eps)
  ]
    where
      fresh :
          (eps : Option (List (String × Loaded A B)))
          → Keeps r
              (elim eps as (λ _. Outcome (Unit {0}) × GuardRegistry A B) [
                | none ↦ (ok tt, record r { loaded_entry_points = true })
                | some found ↦ load_all found (record r { loaded_entry_points = true })
              ]).1
      fresh none = λ n e h. (e, h, refl)
      fresh (some found) = load_all-Keeps found (record r { loaded_entry_points = true })

  abbrev pub AllPass : GuardContext A B → Option (List String) → List (GuardEntry A B) → Type 0
  AllPass ctx only [] = Unit
  AllPass ctx only (e ∷ es) =
      (skipped only e.name ≡ false → e.fn.run ctx ≡ ok none) × AllPass ctx only es

  run_guard-none :
      (ctx : GuardContext A B) (e : GuardEntry A B)
      → run_guard ctx e ≡ none
      → e.fn.run ctx ≡ ok none
  unfolding run_guard
  run_guard-none ctx e h = ground arith

  -- The chain of any registry reports no failure only if every guard that was not filtered out
  -- returned, without an exception, that there is nothing to report.
  pub run_entries-AllPass :
      (ctx : GuardContext A B) (only : Option (List String)) (es : List (GuardEntry A B))
      → run_entries ctx only es ≡ []
      → AllPass ctx only es
  unfolding run_entries
  run_entries-AllPass ctx only [] h = tt
  run_entries-AllPass ctx only (e ∷ es) h =
      ground (arith, run_guard-none ctx e, run_entries-AllPass ctx only es)
