-- ===== src/Shield/Phy.antt =====
-- shield/invariants.py: `NeuralRxEnvelopeInvariant`. The dB
-- ratio `10 * log10((base + eps) / (measured + eps))` rests on the floating-point library: it is
-- an argument, and may raise.
use text.Mathlib.Text.{starts_with}
use preceptual_ai_5g_dynamic.Prelude.{
  Bool, List, Option, String, [], false, if◌then◌else◌, none, some, true, ◌&&◌, ◌∷◌,
}
use preceptual_ai_5g_dynamic.Prelude.Flt.{Flt, add_flt, le_flt, lit}
use preceptual_ai_5g_dynamic.Prelude.Outcome.{Outcome, ok, ◌>>=◌}
use preceptual_ai_5g_dynamic.Shield.Certificate.{
  ConstraintViolation, InvariantCheck, hard, unit_db, unit_na,
}
use preceptual_ai_5g_dynamic.Shield.Action.{Action, Context, Value, float_or, number, to_float}
use preceptual_ai_5g_dynamic.Shield.Dispose.{Invariant}
use preceptual_ai_5g_dynamic.Shield.Numeric.{one_ratio}

pub record NeuralRx : Type 0 where
  pub tolerance_db : Flt
  pub min_confidence : Flt
  pub require_measurement : Bool
  pub fallback_block : String
  pub ratio_db : Flt → Flt → Outcome Flt

abbrev pub neural_id : String
neural_id = "neural_rx_envelope"

-- `str(action.get("block", ""))`
unfoldable pub block_text : Action → String
block_text a = elim a.block [ none ↦ "" | some b ↦ b ]

unfoldable pub is_neural_rx : Action → Bool
unfolding block_text
is_neural_rx a = starts_with (block_text a) "neural_rx"

-- the measurement that is trusted: the context's, or the model's own report where the
-- configuration asks for none; `none` if a measurement is required and missing
unfoldable pub measured_value : NeuralRx → Option Value → Flt → Outcome (Option Flt)
measured_value r (some v) self_reported = do x ← to_float v; ok (some x)
measured_value r none self_reported =
    ok (if r.require_measurement then none else some self_reported)

-- the verdict on a measured error rate
unfoldable pub graded : NeuralRx → Action → Flt → Option Flt → Outcome InvariantCheck
graded r a base none =
    ok
      (record { invariant_id = neural_id; satisfied = false; margin = none; margin_unit = unit_db })
graded r a base (some measured) = do
  ratio ← r.ratio_db base measured
  conf ← float_or a.demap_confidence one_ratio
  ok (record {
    invariant_id = neural_id;
    satisfied = le_flt (lit 0) (add_flt ratio r.tolerance_db) && le_flt r.min_confidence conf;
    margin = some (add_flt ratio r.tolerance_db);
    margin_unit = unit_db;
  })

-- the evaluation of a neural-RX decision
unfoldable pub grade : NeuralRx → Action → Context → Outcome InvariantCheck
unfolding graded measured_value
grade r a context = do
  base ← float_or a.baseline_tbler (lit 0)
  self_reported ← float_or a.predicted_tbler (lit 0)
  measured ← measured_value r context.measured_tbler self_reported
  graded r a base measured

unfoldable pub evaluate_neural : NeuralRx → Action → Context → Outcome InvariantCheck
evaluate_neural r a context =
    if is_neural_rx a
    then grade r a context
    else ok (record {
      invariant_id = neural_id;
      satisfied = true;
      margin = none;
      margin_unit = unit_na;
    })

-- `action.get("baseline_tbler", action.get("predicted_tbler", 0.0))`
unfoldable pub baseline_or_predicted : Action → Option Value
baseline_or_predicted a = elim a.baseline_tbler [ none ↦ a.predicted_tbler | some v ↦ some v ]

unfoldable pub project_neural :
    NeuralRx → Action → Context → Outcome (Action × List ConstraintViolation)
project_neural r a context = do
  c ← evaluate_neural r a context
  elim c.satisfied [
    | true ↦ ok (a, [])
    | false ↦ (do
      operative ← float_or (baseline_or_predicted a) (lit 0)
      ok (
        record a {
          block = some r.fallback_block;
          shield_fallback_to = some r.fallback_block;
          predicted_tbler = some (number operative);
        },
        record { constraint_id = neural_id; severity = hard; margin_db = c.margin } ∷ [],
      ))
  ]

unfoldable pub neural_rx_envelope : NeuralRx → Invariant
neural_rx_envelope r = record {
  id = neural_id;
  evaluate = evaluate_neural r;
  project = project_neural r;
}
