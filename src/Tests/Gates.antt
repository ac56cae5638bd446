-- ===== src/Tests/Gates.antt =====
-- policy/: the emit guards and the lawful-intercept constraint at concrete inputs.

use preceptual_ai_5g_dynamic.Prelude.{
  List, Option, String, [], false, has, none, not, refl, some, true, ℕ, ◌&&◌, ◌++◌, ◌∷◌, ◌≡◌,
}
use preceptual_ai_5g_dynamic.Prelude.Flt.{lit}
use preceptual_ai_5g_dynamic.Prelude.Outcome.{ok}
use preceptual_ai_5g_dynamic.Shield.Certificate.{ConstraintViolation, SafetyCertificate}
use preceptual_ai_5g_dynamic.Guards.Registry.{
  GuardContext, GuardEntry, GuardFn, run_entries, run_guard, skipped,
}
use preceptual_ai_5g_dynamic.LawfulIntercept.{
  LiAction, LiConstraint, LiJurisdictionRule, allows, as_str_set, check_feasibility, check_rules,
  gate_shut, ids, is_text, new_constraint, project, protected_union, single, slice_violations,
  ue_violations,
}
use preceptual_ai_5g_dynamic.LawfulIntercept.Projection.{project_lem}

abbrev clean_certificate : SafetyCertificate ℕ
clean_certificate = record {
  decision_id = "d-1";
  loop_tier = "non_rt";
  block = "classical_qam";
  action_proposed = 1;
  action_safe = 1;
  invariants = [];
  corrections = [];
  violated_ids = [];
  projected = false;
  fallback_used = false;
  fallback_to = none;
  safe = true;
  emit_blocked = false;
  rng_seed = none;
}

abbrev no_audit : Option (List ℕ)
no_audit = none

abbrev in_time : GuardContext ℕ ℕ
in_time = record {
  certificate = some clean_certificate;
  head_is_pretrained = true;
  elapsed_ms = lit 40;
  policy_period_ms = lit 100;
  audit_corrections_field = none;
}

abbrev silent : GuardFn ℕ ℕ
silent = record { identity = 77; run = λ ctx. ok none }

abbrev silent_entries : List (GuardEntry ℕ ℕ)
silent_entries = record { name = "silent"; fn = silent } ∷ []

silent_run : run_entries in_time none silent_entries ≡ []
unfolding run_entries run_guard skipped
silent_run = refl

abbrev warrant_rule : LiJurisdictionRule
warrant_rule = record {
  rule_id = "warrant-1";
  protected_ue_ids = "ue-9" ∷ [];
  protected_slice_ids = "slice-1" ∷ [];
  allowed_jurisdictions = "DE" ∷ [];
}

abbrev one_warrant : LiConstraint
one_warrant = record {
  rules = warrant_rule ∷ [];
  fail_closed = true;
  deployment_audit_record = none;
}

abbrev abroad : LiAction ℕ
abroad = record {
  affected_ue_ids = ids ("ue-9" ∷ "ue-1" ∷ []);
  affected_slice_ids = single "slice-1";
  target_jurisdiction = some "FR";
  others = 0;
}

abbrev at_home : LiAction ℕ
at_home = record {
  affected_ue_ids = ids ("ue-1" ∷ []);
  affected_slice_ids = single "slice-1";
  target_jurisdiction = some "DE";
  others = 0;
}

open_gate : gate_shut one_warrant ≡ false
unfolding gate_shut
open_gate = refl

project_lem_example :
    let (feasible, corrections) = project one_warrant abroad in
    ((u : String)
      → has u (as_str_set feasible.affected_ue_ids) ≡ (
          has u (as_str_set abroad.affected_ue_ids)
          && not (has u (protected_union one_warrant.rules))))
    × (feasible.affected_slice_ids ≡ abroad.affected_slice_ids)
    × (feasible.target_jurisdiction ≡ abroad.target_jurisdiction)
    × (feasible.others ≡ abroad.others)
    × ((first : List ConstraintViolation) × (corrections
          ≡ first ++ check_feasibility one_warrant feasible))
project_lem_example = project_lem one_warrant abroad open_gate

at_home_feasible : check_feasibility one_warrant at_home ≡ []
unfolding check_feasibility gate_shut check_rules ue_violations slice_violations allows as_str_set
at_home_feasible = refl

constructed : new_constraint (warrant_rule ∷ []) true none ≡ ok one_warrant
unfolding new_constraint is_text
constructed = refl
