-- ===== src/A1/Schema.antt =====
-- rapp/a1_adapter.py: `A1Adapter._policy_create_schema`.
use preceptual_ai_5g_dynamic.Prelude.{String, [], if◌then◌else◌, str_eq, ◌∷◌}
use preceptual_ai_5g_dynamic.Prelude.Outcome.{Outcome, ok, raised, value_error}
use preceptual_ai_5g_dynamic.A1.Json.{
  Properties, Schema, any_object, any_text, at_least, integer_in, last, number_in, object_of,
  one_of, property,
}

-- `common_meta`
unfoldable pub common_meta : Properties
common_meta =
    property "rapp_metadata"
      (object_of
        (property "decision_id" any_text
          (property "rapp_version" any_text (property "model_versions" any_object last)))
        ("decision_id" ∷ []))
      last

unfoldable pub qos_schema : Schema
unfolding common_meta
qos_schema =
    object_of
      (property "scope"
        (object_of (property "slice_id" any_text (property "ue_id" any_text last))
          ("slice_id" ∷ []))
        (property "qos_objectives"
          (object_of
            (property "priority" (integer_in 1 15) (
              property "guaranteed_bit_rate_kbps" (at_least 0)
                (property "max_bit_rate_kbps" (at_least 0) last)))
            ("priority" ∷ []))
          common_meta))
      ("scope" ∷ "qos_objectives" ∷ [])

unfoldable pub steering_schema : Schema
unfolding common_meta
steering_schema =
    object_of
      (property "scope"
        (object_of (property "ue_group" any_text (property "cell_id" any_text last))
          ("ue_group" ∷ []))
        (property "steering_objectives"
          (object_of
            (property "preferred_path" (one_of ("terrestrial" ∷ "ntn" ∷ "hybrid" ∷ []))
              (property "ntn_share_pct" (number_in 0 1000) last))
            ("preferred_path" ∷ []))
          common_meta))
      ("scope" ∷ "steering_objectives" ∷ [])

unfoldable pub admission_schema : Schema
unfolding common_meta
admission_schema =
    object_of
      (property "scope"
        (object_of (property "workload_class" any_text (property "edge_node_id" any_text last))
          ("workload_class" ∷ []))
        (property "admission"
          (object_of
            (property "decision" (one_of ("accept" ∷ "defer" ∷ "reject" ∷ []))
              (property "defer_until_seconds" (at_least 0) last))
            ("decision" ∷ []))
          common_meta))
      ("scope" ∷ "admission" ∷ [])

unfoldable pub reservation_schema : Schema
unfolding common_meta
reservation_schema =
    object_of
      (property "scope"
        (object_of (property "band_id" any_text (property "cell_id" any_text last))
          ("band_id" ∷ []))
        (property "reservation"
          (object_of
            (property "freq_low_hz" (at_least 0)
              (property "freq_high_hz" (at_least 0) (property "traffic_class" any_text last)))
            ("freq_low_hz" ∷ "freq_high_hz" ∷ "traffic_class" ∷ []))
          common_meta))
      ("scope" ∷ "reservation" ∷ [])

-- an unknown type has no schema
unfoldable pub policy_create_schema : String → Outcome Schema
unfolding qos_schema steering_schema admission_schema reservation_schema
policy_create_schema t =
    if str_eq t "horizon.qos.priority"
    then ok qos_schema
    else if str_eq t "horizon.traffic.steering"
    then ok steering_schema
    else if str_eq t "horizon.admission.control"
    then ok admission_schema
    else if str_eq t "horizon.spectrum.reservation"
    then ok reservation_schema
    else raised value_error
