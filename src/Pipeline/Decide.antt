-- ===== src/Pipeline/Decide.antt =====
-- rapp/pipeline.py: the part of `process_event` that acts on nothing: plan, Shield, guards and the
-- record. Frequencies are counted in steps of 1 Hz and enter the Shield's half steps doubled; powers
-- and gains in steps of 0.01 dB; `decision_budget_ms` and the elapsed time in one unit. Hashes,
-- time stamps, version texts and the signature of a certificate are left out.

use preceptual_ai_5g_dynamic.Prelude.{
  Bool, List, Option, String, [], false, if◌then◌else◌, leb, ltb, none, some, str_eq, true, ℕ, ◌*◌,
  ◌++◌, ◌-◌, ◌∷◌,
}
use preceptual_ai_5g_dynamic.Prelude.Int.{ltb_ℤ, negsuc, pos, sub_ℕ, ℤ, ◌+ℤ◌, ◌-ℤ◌}
use preceptual_ai_5g_dynamic.Prelude.Flt.{Flt, fin, lit, lt_flt}
use preceptual_ai_5g_dynamic.Prelude.Dict.{Dict}
use preceptual_ai_5g_dynamic.Prelude.Outcome.{Outcome, ok, overflow_error, raised}
use preceptual_ai_5g_dynamic.LawfulIntercept.{absent}
use preceptual_ai_5g_dynamic.Guards.{GuardFailure, hardware_floor, run_guard_chain}
use preceptual_ai_5g_dynamic.Shield.Certificate.{ConstraintViolation, SafetyCertificate}
use preceptual_ai_5g_dynamic.Shield.Action.{
  Action, Value, number, too_large, wrong_type, wrong_value,
}
use preceptual_ai_5g_dynamic.Shield.Phy.{NeuralRx}
use preceptual_ai_5g_dynamic.Shield.Constellation.{Constellation, legal_qam_orders}
use preceptual_ai_5g_dynamic.Shield.Chain.{terrestrial_chain}
use preceptual_ai_5g_dynamic.Shield.Terrestrial.{mask_of}
use preceptual_ai_5g_dynamic.Shield.Dispose.{Invariant}
use preceptual_ai_5g_dynamic.Counterfactual.{
  AlternativeCandidate, PredictedOutcome, breach_threshold, in_30s,
}
use preceptual_ai_5g_dynamic.A1.Json.{Json}

pub record PipelineConfig : Type 0 where
  pub band_lo : ℤ
  pub band_hi : ℤ
  pub max_eirp : ℤ
  pub decision_budget_ms : Flt
  pub status_poll_attempts : ℤ

pub record TelemetryEvent : Type 0 where
  pub event_id : String
  pub source_id : String
  pub sla_risk_30s : Option Value

-- `MIN_VIABLE_TX_POWER_DBM`
abbrev pub min_viable_tx_power : ℤ
min_viable_tx_power = negsuc 999

-- `_BAND_CENTRES`, in steps of 10^-10
abbrev pub band_centre : String → ℕ
band_centre name =
    if str_eq name "horizon.qos.priority"
    then 1500000000
    else if str_eq name "horizon.traffic.steering"
    then 4500000000
    else 8000000000

-- `1.0 - abs(risk - centre)`, in steps of 10^-10
unfoldable pub score : ℕ → String → ℤ
score risk name =
    let r = 10 * risk in
    let c = band_centre name in sub_ℕ 10000000000 (if leb c r then r - c else c - r)

-- `min(risk * x, 1.0)` for x in tenths
abbrev pub scaled : (tenths_of_x risk : ℕ) → ℤ
scaled x risk = pos (if ltb 10000000000 (x * risk) then 10000000000 else x * risk)

-- `_predicted_outcome`
unfoldable pub predicted_outcome_of : ℕ → PredictedOutcome
predicted_outcome_of risk = record {
  sla_risk_30s = scaled 10 risk;
  sla_risk_1min = scaled 11 risk;
  sla_risk_5min = scaled 15 risk;
}

-- the candidate that is not chosen, as it is given to the counterfactual builder
unfoldable pub alternative :
    (risk : ℕ) (chosen : String) → String × Json → AlternativeCandidate (String × Json)
unfolding score
alternative risk chosen (name, body) =
    let risky = ltb 200000000 risk in
    record {
      action = (name, body);
      reward_sum = score risk name;
      constraint_violation_sum = pos 0;
      outcome = record {
        sla_risk_30s = pos (10 * risk);
        sla_risk_1min = scaled 11 risk;
        sla_risk_5min = scaled 15 risk;
      };
      primary_metric = if risky then "sla_risk_30s" else "planner_score";
      primary_value = some (if risky then pos (10 * risk) else score risk name);
      threshold = if risky then breach_threshold else score risk chosen;
      horizon = in_30s;
    }

unfoldable pub alternatives :
    (risk : ℕ) (chosen : String) → Dict Json → List (AlternativeCandidate (String × Json))
unfolding alternative
alternatives risk chosen [] = []
alternatives risk chosen ((name, body) ∷ d) =
    let rest = alternatives risk chosen d in
    if str_eq name chosen then rest else alternative risk chosen (name, body) ∷ rest

abbrev pub min_ℤ : ℤ → ℤ → ℤ
min_ℤ a b = if ltb_ℤ b a then b else a

-- `_shield_action`; the keys that no invariant reads are left out
unfoldable pub shield_action : PipelineConfig → Action
shield_action cfg = record {
  block = some "policy_emit";
  emit_blocked = false;
  shield_fallback_to = none;
  frequency_hz = some (number (fin (cfg.band_lo +ℤ cfg.band_hi)));
  bandwidth_hz = some (number (fin (min_ℤ (pos 20000000) (cfg.band_hi -ℤ cfg.band_lo))));
  tx_power_dbm = some (number (fin (min_ℤ (pos 2400) (cfg.max_eirp -ℤ pos 900))));
  antenna_gain_dbi = some (number (lit 500));
  sat_antenna_gain_dbi = none;
  predicted_tbler = none;
  baseline_tbler = none;
  demap_confidence = none;
  papr_db = none;
  constellation_order = none;
  ntn = false;
  slant_range_m = none;
  affected_ue_ids = absent;
  affected_slice_ids = absent;
  target_jurisdiction = none;
}

-- the defaults of `NeuralRxEnvelopeInvariant` and `ConstellationLegalityInvariant`
abbrev pub receiver_of : (ratio_db : Flt → Flt → Outcome Flt) → NeuralRx
receiver_of ratio_db = record {
  tolerance_db = lit 100;
  min_confidence = lit 200000000;
  require_measurement = true;
  fallback_block = "classical_lmmse";
  ratio_db = ratio_db;
}

abbrev pub default_constellation : Constellation
default_constellation = record {
  max_papr_db = lit 850;
  allowed_orders = legal_qam_orders;
  fallback_block = "classical_qam";
}

-- `self._shield`
unfoldable pub pipeline_chain :
    (ratio_db : Flt → Flt → Outcome Flt) → PipelineConfig → List Invariant
pipeline_chain ratio_db cfg =
    terrestrial_chain none
      (mask_of (cfg.band_lo +ℤ cfg.band_lo) (cfg.band_hi +ℤ cfg.band_hi) (pos 0)) (fin cfg.max_eirp)
      (receiver_of ratio_db) default_constellation

-- the `try` around `float(safe_tx)`; an `OverflowError` is not caught
unfoldable pub safe_tx_val : Option Value → Outcome (Option Flt)
safe_tx_val none = ok none
safe_tx_val (some (number x)) = ok (some x)
safe_tx_val (some wrong_type) = ok none
safe_tx_val (some wrong_value) = ok none
safe_tx_val (some too_large) = raised overflow_error

unfoldable pub below_floor : Option Flt → Bool
below_floor none = true
below_floor (some x) = lt_flt x (fin min_viable_tx_power)

-- the failure that the pipeline adds to the guards' own
unfoldable pub floor_failure : Option Flt → List GuardFailure
unfolding below_floor
floor_failure tx =
    if below_floor tx
    then record { guard_id = "tx_power_below_hw_floor"; detail = hardware_floor tx } ∷ []
    else []

-- `[...] or None`
abbrev pub or_none : List ConstraintViolation → Option (List ConstraintViolation)
or_none [] = none
or_none (c ∷ cs) = some (c ∷ cs)

unfoldable pub failures_of :
    PipelineConfig → (elapsed : Flt) → SafetyCertificate Action → Option Flt → List GuardFailure
unfolding run_guard_chain floor_failure
failures_of cfg elapsed c tx =
    run_guard_chain (some c) true elapsed (or_none c.corrections) cfg.decision_budget_ms
    ++ floor_failure tx
