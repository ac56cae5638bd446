-- ===== src/Pipeline/Records.antt =====
-- rapp/pipeline.py: the decision record of `process_event`, and the stage that makes it.
use preceptual_ai_5g_dynamic.Prelude.{
  Bool, List, Option, String, [], false, none, nonempty, some, ℕ, ◌||◌,
}
use preceptual_ai_5g_dynamic.Prelude.Dict.{Dict, lookup}
use preceptual_ai_5g_dynamic.Prelude.Flt.{Flt}
use preceptual_ai_5g_dynamic.Prelude.Outcome.{Outcome, key_error, ok, raised, ◌>>=◌}
use preceptual_ai_5g_dynamic.Guards.{GuardFailure}
use preceptual_ai_5g_dynamic.Shield.Certificate.{ConstraintViolation, ShieldDisposition}
use preceptual_ai_5g_dynamic.Shield.Action.{Action, Value}
use preceptual_ai_5g_dynamic.Shield.Dispose.{default_max_passes, dispose}
use preceptual_ai_5g_dynamic.Counterfactual.{
  PredictedOutcome, RejectedAlternative, build_rejected_alternatives, default_soft_threshold,
}
use preceptual_ai_5g_dynamic.A1.Json.{Json}
use preceptual_ai_5g_dynamic.Pipeline.Planner.{candidates, choose, risk_of}
use preceptual_ai_5g_dynamic.Pipeline.Decide.{
  PipelineConfig, TelemetryEvent, alternatives, failures_of, pipeline_chain, predicted_outcome_of,
  safe_tx_val, score, shield_action,
}

-- the `physics_keys` of the safe action
pub record SafeKeys : Type 0 where
  pub safe_frequency_hz : Option Value
  pub safe_bandwidth_hz : Option Value
  pub safe_tx_power_dbm : Option Value
  pub safe_antenna_gain_dbi : Option Value

-- A flag that the source adds to the dictionary later is `false` before, and `block_reasons` empty.
pub record ChosenAction : Type 0 where
  pub policy_type : String
  pub policy_payload : Json
  pub safe_action : SafeKeys
  pub source_event : String
  pub safe : Bool
  pub projected : Bool
  pub violated_ids : List String
  pub emit_blocked : Bool
  pub block_reasons : List String
  pub dry_run : Bool
  pub emit_failed : Bool
  pub evidence_persist_failed : Bool

pub record Decision : Type 0 where
  pub decision_id : String
  pub chosen_action : ChosenAction
  pub predicted_outcome_chosen : PredictedOutcome
  pub rejected_alternatives : List (RejectedAlternative (String × Json))
  pub constraint_corrections : List ConstraintViolation
  pub random_seed : ℕ

-- what the steps that follow read
pub record Verdict : Type 0 where
  pub policy_type : String
  pub payload : Json
  pub disposition : ShieldDisposition Action
  pub failures : List GuardFailure
  pub decision : Decision

unfoldable pub chosen_action_of :
    (policy_type : String) (payload : Json) (event_id : String)
    → ShieldDisposition Action
    → ChosenAction
chosen_action_of policy_type payload event_id d = record {
  policy_type = policy_type;
  policy_payload = payload;
  safe_action = record {
    safe_frequency_hz = d.safe_action.frequency_hz;
    safe_bandwidth_hz = d.safe_action.bandwidth_hz;
    safe_tx_power_dbm = d.safe_action.tx_power_dbm;
    safe_antenna_gain_dbi = d.safe_action.antenna_gain_dbi;
  };
  source_event = event_id;
  safe = d.certificate.safe;
  projected = d.certificate.projected;
  violated_ids = d.certificate.violated_ids;
  emit_blocked = false;
  block_reasons = [];
  dry_run = false;
  emit_failed = false;
  evidence_persist_failed = false;
}

unfoldable pub decision_of :
    (risk : ℕ) (decision_id : String) (seed : ℕ) (candidates : Dict Json)
    → ChosenAction
    → List ConstraintViolation
    → Decision
unfolding predicted_outcome_of alternatives build_rejected_alternatives
decision_of risk decision_id seed candidates chosen corrections = record {
  decision_id = decision_id;
  chosen_action = chosen;
  predicted_outcome_chosen = predicted_outcome_of risk;
  rejected_alternatives =
      build_rejected_alternatives (alternatives risk chosen.policy_type candidates)
        (score risk chosen.policy_type) default_soft_threshold seed;
  constraint_corrections = corrections;
  random_seed = seed;
}

-- `candidates[policy_type]`
unfoldable pub payload_at : String → Dict Json → Outcome Json
payload_at policy_type d = elim (lookup policy_type d) [ none ↦ raised key_error | some p ↦ ok p ]

module _ (ratio_db : Flt → Flt → Outcome Flt) (cfg : PipelineConfig) where
  unfoldable pub verdict_of :
      TelemetryEvent
      → (decision_id : String) (seed : ℕ) (elapsed : Flt) (risk : ℕ) → Json
      → ShieldDisposition Action
      → Option Flt
      → Verdict
  unfolding chosen_action_of decision_of failures_of
  verdict_of event decision_id seed elapsed risk payload d tx = record {
    policy_type = choose risk;
    payload = payload;
    disposition = d;
    failures = failures_of cfg elapsed d.certificate tx;
    decision =
        decision_of risk decision_id seed (candidates event.source_id risk decision_id)
          (chosen_action_of (choose risk) payload event.event_id d) d.certificate.corrections;
  }

  -- the steps 1 to 4 of `process_event`
  unfoldable pub decide :
      TelemetryEvent → (decision_id : String) (seed : ℕ) (elapsed : Flt) → Outcome Verdict
  unfolding verdict_of safe_tx_val payload_at pipeline_chain shield_action
  decide event decision_id seed elapsed = do
    risk ← risk_of event.sla_risk_30s
    payload ← payload_at (choose risk) (candidates event.source_id risk decision_id)
    d ←
        dispose default_max_passes (pipeline_chain ratio_db cfg)
          (record { decision_id = decision_id; rng_seed = none; loop_tier = "non_rt" })
          (shield_action cfg) (record { measured_tbler = none })
    tx ← safe_tx_val d.safe_action.tx_power_dbm
    ok (verdict_of event decision_id seed elapsed risk payload d tx)

-- `failures or certificate.emit_blocked`
unfoldable pub is_blocked : Verdict → Bool
is_blocked v = nonempty v.failures || v.disposition.certificate.emit_blocked
