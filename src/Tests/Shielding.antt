-- ===== src/Tests/Shielding.antt =====
-- shield/: a carrier whose EIRP is above the ceiling, shielded.

use preceptual_ai_5g_dynamic.Shield.Soundness.{AllSatisfied, dispose-safe, dispose_fails_closed}
use preceptual_ai_5g_dynamic.Shield.Total.{AllContained}
use preceptual_ai_5g_dynamic.Shield.Contained.{terrestrial_chain-AllContained, terrestrial_total}
use preceptual_ai_5g_dynamic.Shield.Feasible.{dispose-is_feasible}
use preceptual_ai_5g_dynamic.Prelude.{
  List, [], false, length, none, not, refl, some, true, ◌∷◌, ◌≡◌, ◌≢◌,
}
use preceptual_ai_5g_dynamic.Prelude.Sorted.{sorted}
use preceptual_ai_5g_dynamic.Prelude.Int.{pos, ◌+ℤ◌, ◌-ℤ◌}
use preceptual_ai_5g_dynamic.Prelude.Flt.{
  add_flt, double_flt, eq_flt, is_finite, le_flt, lit, lt_flt, max_flt, min_flt, neg_flt, sub_flt,
}
use preceptual_ai_5g_dynamic.Prelude.Outcome.{Outcome, ok, raised}
use preceptual_ai_5g_dynamic.LawfulIntercept.{
  LiConstraint, absent, allows, as_str_set, check_feasibility, check_rules, gate_shut, ids, keep_jx,
  project, protected_union, slice_violations, strip_ues, ue_violations,
}
use preceptual_ai_5g_dynamic.Shield.Certificate.{ShieldDisposition}
use preceptual_ai_5g_dynamic.Shield.Action.{Action, Context, float_or, number, to_float, whole}
use preceptual_ai_5g_dynamic.Shield.Constellation.{
  Constellation, applies, clip_papr, constellation_legality, evaluate_constellation, is_allowed,
  legal_le, legal_qam_orders, max_of, order_of, project_constellation, snap, snap_from, snap_order,
}
use preceptual_ai_5g_dynamic.Shield.Dispose.{
  Invariant, Labels, block_name, caught, certify, changed_to_classical, check, default_max_passes,
  dispose, feasible_step, is_feasible, is_some, or_rejected, passes, project_or_block, project_pass,
  unsatisfied,
}
use preceptual_ai_5g_dynamic.Shield.Numeric.{
  bad_order, bad_papr, bad_ratio, evaluate_sanity, is_missing, is_negative, not_positive, number_of,
  numeric_sanity, outside_unit, present_and_bad, problems, project_sanity,
}
use preceptual_ai_5g_dynamic.Shield.Spectrum.{
  clip, edges, eirp_of, evaluate_eirp, evaluate_mask, mask_margin, max_eirp_invariant, project_eirp,
  project_mask, spectral_mask, usable_hi, usable_lo, usable_w,
}
use preceptual_ai_5g_dynamic.Shield.Phy.{
  NeuralRx, block_text, evaluate_neural, grade, graded, is_neural_rx, measured_value,
  neural_rx_envelope, project_neural,
}
use preceptual_ai_5g_dynamic.Shield.Chain.{
  evaluate_intercept, from_li, intercept_chain, lawful_intercept, project_intercept,
  terrestrial_chain, to_li,
}
use preceptual_ai_5g_dynamic.Shield.Terrestrial.{IsCompliant, mask_of, terrestrial_safe}

abbrev pub hot_action : Action
hot_action = record {
  block = some "classical_qam";
  emit_blocked = false;
  shield_fallback_to = none;
  frequency_hz = some (number (lit 100));
  bandwidth_hz = some (number (lit 20));
  tx_power_dbm = some (number (lit 40));
  antenna_gain_dbi = some (number (lit 3));
  sat_antenna_gain_dbi = none;
  predicted_tbler = none;
  baseline_tbler = none;
  demap_confidence = none;
  papr_db = some (number (lit 6));
  constellation_order = some (whole (pos 16));
  ntn = false;
  slant_range_m = none;
  affected_ue_ids = ids ("ue-7" ∷ []);
  affected_slice_ids = absent;
  target_jurisdiction = none;
}

abbrev pub no_telemetry : Context
no_telemetry = record { measured_tbler = none }

abbrev pub warrant : LiConstraint
warrant = record {
  rules =
      record {
        rule_id = "warrant-1";
        protected_ue_ids = "ue-9" ∷ [];
        protected_slice_ids = [];
        allowed_jurisdictions = [];
      }
      ∷ [];
  fail_closed = true;
  deployment_audit_record = none;
}

abbrev pub receiver : NeuralRx
receiver = record {
  tolerance_db = lit 1;
  min_confidence = lit 0;
  require_measurement = true;
  fallback_block = "classical_lmmse";
  ratio_db = λ base measured. ok (lit 0);
}

abbrev shapes : Constellation
shapes = record {
  max_papr_db = lit 8;
  allowed_orders = legal_qam_orders;
  fallback_block = "classical_qam";
}

abbrev pub labels : Labels
labels = record { decision_id = "d-1"; rng_seed = none; loop_tier = "non_rt" }

abbrev shield_chain : List Invariant
shield_chain =
    terrestrial_chain (some warrant) (mask_of (pos 0) (pos 200) (pos 5)) (lit 33) receiver shapes

abbrev pub get_ok : {A : Type 0} → A → Outcome A → A
get_ok other (ok a) = a
get_ok other (raised e) = other

abbrev disposed : ShieldDisposition Action
disposed =
    get_ok
      (certify labels hot_action (record { safe = hot_action; corrections = []; projected = false })
        [])
      (dispose default_max_passes shield_chain labels hot_action no_telemetry)

-- the EIRP of 43 is brought down to the ceiling of 33
disposed_runs :
    (dispose default_max_passes shield_chain labels hot_action no_telemetry ≡ ok disposed)
    × (disposed.certificate.safe ≡ true)
    × (disposed.safe_action.tx_power_dbm ≡ some (number (lit 30)))
    × (is_feasible shield_chain hot_action no_telemetry ≡ ok false)
unfolding dispose is_feasible feasible_step passes check or_rejected unsatisfied project_pass
    project_or_block certify terrestrial_chain intercept_chain numeric_sanity lawful_intercept
    spectral_mask max_eirp_invariant neural_rx_envelope constellation_legality evaluate_sanity
    problems evaluate_intercept evaluate_mask evaluate_eirp evaluate_neural evaluate_constellation
    edges float_or eirp_of is_neural_rx applies order_of check_feasibility check_rules as_str_set
    mask_margin min_flt sub_flt add_flt ◌-ℤ◌ ◌+ℤ◌ project_intercept project_sanity allows gate_shut
    keep_jx protected_union slice_violations strip_ues ue_violations double_flt eq_flt is_finite
    le_flt lt_flt max_flt neg_flt sorted to_float from_li to_li block_name caught
    changed_to_classical is_some bad_order bad_papr bad_ratio is_missing is_negative not_positive
    number_of outside_unit present_and_bad block_text clip_papr grade graded is_allowed legal_le
    max_of measured_value project_constellation project_neural snap snap_from snap_order clip
    project_eirp project_mask usable_hi usable_lo usable_w project
disposed_runs = (refl, refl, refl, refl)

contained : AllContained shield_chain
contained =
    terrestrial_chain-AllContained (some warrant) (mask_of (pos 0) (pos 200) (pos 5)) (lit 33)
      receiver shapes (λ base measured. tt) refl

terrestrial_safe_example :
    IsCompliant
      (some warrant)
      (pos 0)
      (pos 200)
      (pos 5)
      (pos 33)
      receiver
      disposed.safe_action
      no_telemetry
terrestrial_safe_example =
    terrestrial_safe (some warrant) (pos 0) (pos 200) (pos 5) (pos 33) receiver shapes 8 labels
      hot_action no_telemetry disposed disposed_runs.0 disposed_runs.1

dispose-safe_example :
    AllSatisfied shield_chain disposed.safe_action no_telemetry
    × (disposed.safe_action.emit_blocked ≡ false)
    × (disposed.certificate.emit_blocked ≡ false)
    × (disposed.certificate.violated_ids ≡ [])
dispose-safe_example =
    dispose-safe 8 shield_chain labels hot_action no_telemetry disposed disposed_runs.0
      disposed_runs.1

dispose_fails_closed_example :
    (disposed.certificate.emit_blocked ≡ not disposed.certificate.safe)
    × (disposed.safe_action.emit_blocked ≡ disposed.certificate.emit_blocked)
    × (disposed.certificate.violated_ids ≢ [] → disposed.certificate.emit_blocked ≡ true)
    × (disposed.certificate.action_safe ≡ disposed.safe_action)
    × (disposed.certificate.action_proposed ≡ hot_action)
dispose_fails_closed_example =
    dispose_fails_closed 8 shield_chain labels hot_action no_telemetry disposed disposed_runs.0

dispose-is_feasible_example :
    (disposed.certificate.projected ≡ true)
    × (false ≡ true → (disposed.safe_action ≡ hot_action) × (disposed.certificate.corrections ≡ []))
dispose-is_feasible_example =
    dispose-is_feasible 7 shield_chain labels hot_action no_telemetry disposed false contained
      disposed_runs.3 disposed_runs.0

terrestrial_total_example :
    (d : ShieldDisposition Action) × (dispose 8 shield_chain labels hot_action no_telemetry ≡ ok d)
    × (length d.certificate.invariants ≡ length shield_chain)
terrestrial_total_example =
    terrestrial_total (some warrant) (mask_of (pos 0) (pos 200) (pos 5)) (lit 33) receiver shapes 8
      labels hot_action no_telemetry (λ base measured. tt) refl
