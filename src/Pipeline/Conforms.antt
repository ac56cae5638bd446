-- ===== src/Pipeline/Conforms.antt =====
-- rapp/pipeline.py: the planner's payloads against the schemas of rapp/a1_adapter.py.

use preceptual_ai_5g_dynamic.Prelude.Dict.{Dict, lookup}
use preceptual_ai_5g_dynamic.Prelude.Outcome.{ok, raised}
use preceptual_ai_5g_dynamic.Prelude.{
  Bool, Bool-cases, Option, String, [], arith, false, inl, inr, leb, ltb, none, refl, some, true, ℕ,
  ◌&&◌, ◌∷◌, ◌≡◌, ◌≤◌,
}
use preceptual_ai_5g_dynamic.Pipeline.Planner.{
  admission, admission_payload, candidates, choose, clamp_risk, default_risk, ntn_share, one_risk,
  preferred_path, priority_of, qos_payload, risk_of, round_half_even, steering_payload,
}
use preceptual_ai_5g_dynamic.Prelude.Flt.{Flt, fin, inf, nan, ninf}
use preceptual_ai_5g_dynamic.Shield.Action.{Value, number, too_large, wrong_type, wrong_value}
use preceptual_ai_5g_dynamic.A1.Json.{Json, all_fields, has_field, has_fields, validate}
use preceptual_ai_5g_dynamic.A1.Schema.{
  admission_schema, common_meta, policy_create_schema, qos_schema, steering_schema,
}

-- the schema that the adapter registers for the policy's type accepts its payload
unfoldable pub conforms : String → Json → Bool
unfolding policy_create_schema validate has_fields has_field all_fields
conforms t payload = elim (policy_create_schema t) [ ok s ↦ validate s payload | raised e ↦ false ]

unfoldable pub all_conform : Dict Json → Bool
unfolding conforms
all_conform [] = true
all_conform ((t, payload) ∷ d) = conforms t payload && all_conform d

priority_bounds :
    (risk : ℕ) → (leb 1 (priority_of risk) ≡ true) × (leb (priority_of risk) 15 ≡ true)
unfolding priority_of
priority_bounds risk = ground arith

zero_least : (n : ℕ) → leb 0 n ≡ true
zero_least n = ground arith

share_bound : (risk : ℕ) → leb (ntn_share risk) 1000 ≡ true
unfolding ntn_share round_half_even
share_bound risk = ground arith

qos_conforms :
    (source_id : String) (risk : ℕ) (decision_id : String)
    → conforms "horizon.qos.priority" (qos_payload source_id risk decision_id) ≡ true
unfolding conforms policy_create_schema qos_schema common_meta qos_payload validate has_fields
    has_field all_fields
qos_conforms source_id risk decision_id =
    rw ((priority_bounds risk).0, (priority_bounds risk).1) refl

steering_conforms :
    (risk : ℕ) (decision_id : String)
    → conforms "horizon.traffic.steering" (steering_payload risk decision_id) ≡ true
unfolding conforms policy_create_schema steering_schema common_meta steering_payload validate
    has_fields has_field all_fields preferred_path
steering_conforms risk decision_id =
    rw (zero_least, share_bound)
      (elim (Bool-cases (ltb risk 300000000)) [
        | inl low ↦ rw low refl
        | inr high ↦ rw high (elim (Bool-cases (ltb risk 600000000)) [
          | inl mid ↦ rw mid refl
          | inr top ↦ rw top refl
        ])
      ])

admission_conforms :
    (risk : ℕ) (decision_id : String)
    → conforms "horizon.admission.control" (admission_payload risk decision_id) ≡ true
unfolding conforms policy_create_schema admission_schema common_meta admission_payload validate
    has_fields has_field all_fields admission
admission_conforms risk decision_id = ground arith

pub candidates_conform :
    (source_id : String) (risk : ℕ) (decision_id : String)
    → all_conform (candidates source_id risk decision_id) ≡ true
unfolding all_conform candidates
candidates_conform source_id risk decision_id = rw (
  qos_conforms source_id risk decision_id,
  steering_conforms risk decision_id,
  admission_conforms risk decision_id,
)

clamp_bound : (x : Flt) → clamp_risk x ≤ one_risk
unfolding clamp_risk
clamp_bound (fin z) = ground arith
clamp_bound nan = omega arith
clamp_bound inf = omega arith
clamp_bound ninf = omega arith

-- The risk that the planner works with is between 0 and 1.
risk_bound : (v : Option Value) (risk : ℕ) → risk_of v ≡ ok risk → risk ≤ one_risk
unfolding risk_of
risk_bound none risk h = let e : default_risk ≡ risk = cc in omega arith
risk_bound (some (number x)) risk h = let e : clamp_risk x ≡ risk = cc in rw (← e) (clamp_bound x)
risk_bound (some wrong_type) risk h = let e : default_risk ≡ risk = cc in omega arith
risk_bound (some wrong_value) risk h = let e : default_risk ≡ risk = cc in omega arith
risk_bound (some too_large) risk h = cc

-- The payload that the planner chooses.
unfoldable pub planned : (source_id : String) (risk : ℕ) (decision_id : String) → Option Json
planned source_id risk decision_id = lookup (choose risk) (candidates source_id risk decision_id)

pub planned-Conforms :
    (source_id : String) (risk : ℕ) (decision_id : String)
    → (payload : Json) × (planned source_id risk decision_id ≡ some payload)
      × (conforms (choose risk) payload ≡ true)
unfolding planned choose candidates lookup
planned-Conforms source_id risk decision_id = elim (Bool-cases (ltb risk 300000000)) [
  | inl low ↦ rw low (_, refl, qos_conforms source_id risk decision_id)
  | inr high ↦ rw high (elim (Bool-cases (ltb risk 600000000)) [
    | inl mid ↦ rw mid (_, refl, steering_conforms risk decision_id)
    | inr top ↦ rw top (_, refl, admission_conforms risk decision_id)
  ])
]

-- Whatever an event reports as its risk, if that is read without an exception, then the risk that
-- the planner works with is at most 1; the payload of every candidate is valid under the schema that
-- the adapter registers for its type; and the chosen type has one of these payloads.
pub planner_types :
    (source_id decision_id : String) (v : Option Value) (risk : ℕ)
    → risk_of v ≡ ok risk
    → (risk ≤ one_risk)
      × (all_conform (candidates source_id risk decision_id) ≡ true)
      × ((payload : Json) × (planned source_id risk decision_id ≡ some payload)
          × (conforms (choose risk) payload ≡ true))
planner_types source_id decision_id v risk h = (
  risk_bound v risk h,
  candidates_conform source_id risk decision_id,
  planned-Conforms source_id risk decision_id,
)
