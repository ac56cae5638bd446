-- ===== src/Pipeline/Gate.antt =====
-- rapp/pipeline.py: when the last gate before the A1 wire is open.
use preceptual_ai_5g_dynamic.Prelude.{
  Bool, List, Option, [], arith, false, if◌then◌else◌, nonempty, refl, some, true, ◌++◌, ◌||◌, ◌↔◌,
  ◌∷◌, ◌≡◌,
}
use preceptual_ai_5g_dynamic.Prelude.Flt.{Flt}
use preceptual_ai_5g_dynamic.Guards.{GuardFailure, run_guard_chain}
use preceptual_ai_5g_dynamic.Guards.Chain.{MayEmit, run_guard_chain-MayEmit, run_guard_chain_iff}
use preceptual_ai_5g_dynamic.Shield.Certificate.{SafetyCertificate}
use preceptual_ai_5g_dynamic.Shield.Action.{Action}
use preceptual_ai_5g_dynamic.Pipeline.Decide.{
  PipelineConfig, below_floor, failures_of, floor_failure, or_none,
}
use preceptual_ai_5g_dynamic.Pipeline.Records.{Verdict, is_blocked}

or_false : (a b : Bool) → ((a || b) ≡ false) ↔ ((a ≡ false) × (b ≡ false))
or_false a b = (λ h. ground arith, λ h. ground arith)

empty_iff : (xs : List GuardFailure) → (nonempty xs ≡ false) ↔ (xs ≡ [])
empty_iff [] = (λ _. refl, λ _. refl)
empty_iff (x ∷ xs) = (λ h. cc, λ h. cc)

pub is_blocked_iff :
    (v : Verdict)
    → (is_blocked v ≡ false)
      ↔ ((v.failures ≡ []) × (v.disposition.certificate.emit_blocked ≡ false))
unfolding is_blocked
is_blocked_iff v = (
  λ h.
      let both = (or_false (nonempty v.failures) v.disposition.certificate.emit_blocked).0 h in
      ((empty_iff v.failures).0 both.0, both.1),
  λ h.
      (or_false (nonempty v.failures) v.disposition.certificate.emit_blocked).1
        ((empty_iff v.failures).1 h.0, h.1),
)

append_empty : (xs ys : List GuardFailure) → (xs ++ ys ≡ []) ↔ ((xs ≡ []) × (ys ≡ []))
append_empty [] ys = (λ h. (refl, h), λ h. h.1)
append_empty (x ∷ xs) ys = (λ h. cc, λ h. cc h.0)

one_if : (f : GuardFailure) (b : Bool) → ((if b then f ∷ [] else []) ≡ []) ↔ (b ≡ false)
one_if f true = (λ h. cc, λ h. cc)
one_if f false = (λ h. refl, λ h. refl)

floor_failure_iff : (tx : Option Flt) → (floor_failure tx ≡ []) ↔ (below_floor tx ≡ false)
unfolding floor_failure
floor_failure_iff tx = one_if _ (below_floor tx)

-- The list of failures is empty exactly when the guards pass and the power is not below the floor.
pub failures_of_iff :
    (cfg : PipelineConfig) (elapsed : Flt) (c : SafetyCertificate Action) (tx : Option Flt)
    → (failures_of cfg elapsed c tx ≡ []) ↔ (
        MayEmit c true elapsed cfg.decision_budget_ms (or_none c.corrections)
        × (below_floor tx ≡ false))
unfolding failures_of
failures_of_iff cfg elapsed c tx =
    let audit = or_none c.corrections in
    let guards = run_guard_chain (some c) true elapsed audit cfg.decision_budget_ms in
    (
      λ h.
          let both = (append_empty guards (floor_failure tx)).0 h in
          (
            run_guard_chain-MayEmit c true elapsed cfg.decision_budget_ms audit both.0,
            (floor_failure_iff tx).0 both.1,
          ),
      λ h. (append_empty guards (floor_failure tx)).1 (
        (run_guard_chain_iff (some c) true elapsed cfg.decision_budget_ms audit).1 (c, refl, h.0),
        (floor_failure_iff tx).1 h.1,
      ),
    )
