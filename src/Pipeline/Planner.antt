-- ===== src/Pipeline/Planner.antt =====
-- rapp/pipeline.py: the risk-band planner. A risk is counted in steps of 10^-9, so 1.0 is
-- `one_risk`; `round` is exact, to the nearest, ties to the even neighbour.
use Prim.Native.String.{◌++◌ as ◌<>◌}
use preceptual_ai_5g_dynamic.Prelude.{
  Option, String, [], if◌then◌else◌, ltb, none, some, suc, ℕ, ◌%◌, ◌*◌, ◌+◌, ◌/◌, ◌==◌, ◌∷◌,
}
use preceptual_ai_5g_dynamic.Prelude.Int.{pos_part}
use preceptual_ai_5g_dynamic.Prelude.Flt.{Flt, fin}
use preceptual_ai_5g_dynamic.Prelude.Dict.{Dict}
use preceptual_ai_5g_dynamic.Prelude.Outcome.{Outcome, ok, overflow_error, raised}
use preceptual_ai_5g_dynamic.Shield.Action.{Value, number, too_large, wrong_type, wrong_value}
use preceptual_ai_5g_dynamic.A1.Json.{Fields, Json, end, field, int, object, tenths, text}

abbrev pub one_risk : ℕ
one_risk = 1000000000

abbrev pub default_risk : ℕ
default_risk = 50000000

-- `min(max(risk, 0.0), 1.0)`, or the default where the number is not finite
unfoldable pub clamp_risk : Flt → ℕ
clamp_risk (fin z) = if ltb one_risk (pos_part z) then one_risk else pos_part z
clamp_risk _ = default_risk

-- `_risk`, of the event's `sla_risk_30s`; `float()` may raise an exception that is not caught
unfoldable pub risk_of : Option Value → Outcome ℕ
unfolding clamp_risk
risk_of none = ok default_risk
risk_of (some (number x)) = ok (clamp_risk x)
risk_of (some wrong_type) = ok default_risk
risk_of (some wrong_value) = ok default_risk
risk_of (some too_large) = raised overflow_error

-- `round(n / d)`
unfoldable pub round_half_even : ℕ → ℕ → ℕ
round_half_even n d =
    let q = n / d in
    let twice = 2 * (n % d) in
    if ltb twice d then q else if ltb d twice then suc q else if q % 2 == 0 then q else suc q

-- `max(1, min(15, 1 + round(risk * 14)))`
unfoldable pub priority_of : ℕ → ℕ
unfolding round_half_even
priority_of risk =
    let p = suc (round_half_even (risk * 14) one_risk) in
    let q = if ltb p 15 then p else 15 in if ltb 1 q then q else 1

unfoldable pub preferred_path : ℕ → String
preferred_path risk =
    if ltb risk 300000000 then "terrestrial" else if ltb risk 600000000 then "hybrid" else "ntn"

-- `round(min(risk * 100.0, 100.0), 1)`, in tenths
unfoldable pub ntn_share : ℕ → ℕ
unfolding round_half_even
ntn_share risk =
    round_half_even (if ltb (risk * 1000) (one_risk * 1000) then risk * 1000 else one_risk * 1000)
      one_risk

-- `round(30.0 + 270.0 * risk, 1)`, in tenths
unfoldable pub defer_seconds : ℕ → ℕ
unfolding round_half_even
defer_seconds risk = round_half_even (300 * one_risk + 2700 * risk) one_risk

unfoldable pub admission : ℕ → Fields
unfolding defer_seconds
admission risk =
    if ltb risk 300000000
    then field "decision" (text "accept") end
    else if ltb risk 600000000
    then field "decision" (text "defer")
        (field "defer_until_seconds" (tenths (defer_seconds risk)) end)
    else field "decision" (text "reject") end

-- `meta`
abbrev pub metadata : String → Fields
metadata decision_id =
    field "rapp_metadata" (object (field "decision_id" (text decision_id) end)) end

unfoldable pub qos_payload : String → ℕ → String → Json
unfolding priority_of
qos_payload source_id risk decision_id = object (
    field "scope" (object (field "slice_id" (text ("slice-" <> source_id)) end)) (
      field "qos_objectives" (object (field "priority" (int (priority_of risk)) end))
        (metadata decision_id)))

unfoldable pub steering_payload : ℕ → String → Json
unfolding preferred_path ntn_share
steering_payload risk decision_id = object (
    field "scope" (object (field "ue_group" (text "default") end)) (
      field "steering_objectives"
        (object (
          field "preferred_path" (text (preferred_path risk))
            (field "ntn_share_pct" (tenths (ntn_share risk)) end)))
        (metadata decision_id)))

unfoldable pub admission_payload : ℕ → String → Json
unfolding admission
admission_payload risk decision_id = object (
    field "scope" (object (field "workload_class" (text "ai_inference") end))
      (field "admission" (object (admission risk)) (metadata decision_id)))

-- `_candidates`
unfoldable pub candidates : (source_id : String) (risk : ℕ) (decision_id : String) → Dict Json
candidates source_id risk decision_id =
    ("horizon.qos.priority", qos_payload source_id risk decision_id)
    ∷ ("horizon.traffic.steering", steering_payload risk decision_id)
    ∷ ("horizon.admission.control", admission_payload risk decision_id)
    ∷ []

-- `_choose`
unfoldable pub choose : ℕ → String
choose risk =
    if ltb risk 300000000
    then "horizon.qos.priority"
    else if ltb risk 600000000
    then "horizon.traffic.steering"
    else "horizon.admission.control"
