-- ===== src/A1/Calls.antt =====
-- rapp/a1_adapter.py: the calls of the RIC besides emissions: policy types, lists, rollbacks and
-- enrichment-information jobs. None of them goes through the circuit breaker. `put`, `get_list` and
-- `delete` are the HTTP client with its check of the status, on the channel `W`.
use Prim.Native.String.{◌++◌ as ◌<>◌}
use preceptual_ai_5g_dynamic.Prelude.{
  Bool, List, String, [], false, if◌then◌else◌, none, some, true, ℕ, ◌∷◌,
}
use preceptual_ai_5g_dynamic.Prelude.Dict.{Dict, lookup}
use preceptual_ai_5g_dynamic.Prelude.Outcome.{Outcome, ok, other_error, raised}
use preceptual_ai_5g_dynamic.Breaker.{
  CallError, connect_error, network_error, not_http, other_http_error, remote_protocol_error,
  status_error, timeout,
}
use preceptual_ai_5g_dynamic.Breaker.Call.{Reply, answered, failed}
use preceptual_ai_5g_dynamic.A1.Emit.{A1Adapter}
use preceptual_ai_5g_dynamic.A1.Json.{Json, Schema, end, field, object, text}
use preceptual_ai_5g_dynamic.A1.Schema.{policy_create_schema}
use preceptual_ai_5g_dynamic.A1.Urls.{
  Dialect, policy_instance_url, policy_list_url, policy_type_url,
}

-- how a call ends: a result, an error of httpx that is raised again, or another exception
pub data Answer (A : Type 0) : Type 0 where
  done : A → Answer A
  http_failed : CallError → Answer A
  refused_key refused_value : Answer A

unfoldable pub answer_of : {A : Type 0} → Reply A → Answer A
answer_of (answered a) = done a
answer_of (failed e) = http_failed e

-- `except httpx.HTTPError`
unfoldable pub is_http : CallError → Bool
is_http not_http = false
is_http (status_error code) = true
is_http timeout = true
is_http connect_error = true
is_http network_error = true
is_http remote_protocol_error = true
is_http other_http_error = true

-- the number of the type that an answer registers goes in front of those that follow
unfoldable pub with_accepted {κ} : {W : Type κ} → ℕ → Outcome (List ℕ) × W → Outcome (List ℕ) × W
with_accepted type_id (ok accepted, w) = (ok (type_id ∷ accepted), w)
with_accepted type_id (raised e, w) = (raised e, w)

module _ {W : Type 0} (text_of : ℕ → String) (dialect : Dialect) where
  -- `register_policy_types`: an error of httpx is logged and the loop goes on
  unfoldable pub register_policy_types :
      (put : (url name : String) → Schema → W → Reply ℕ × W) → Dict ℕ → W → Outcome (List ℕ) × W
  unfolding policy_create_schema policy_type_url with_accepted is_http
  register_policy_types put [] w = (ok [], w)
  register_policy_types put ((name, type_id) ∷ types) w = elim (policy_create_schema name) [
    | raised e ↦ (raised e, w)
    | ok schema ↦
        let (reply, w') = put (policy_type_url dialect (text_of type_id)) name schema w in
        let rest = register_policy_types put types w' in
        elim reply [
          | answered status ↦ with_accepted type_id rest
          | failed e ↦ if is_http e then rest else (raised other_error, w')
        ]
  ]

  -- `list_policies`
  unfoldable pub list_policies :
      (get_list : String → W → Reply (List String) × W)
      → Dict ℕ
      → (policy_type : String) → W
      → Answer (List String) × W
  unfolding policy_list_url answer_of
  list_policies get_list types policy_type w = elim (lookup policy_type types) [
    | none ↦ (refused_value, w)
    | some type_id ↦
        let (reply, w') = get_list (policy_list_url dialect (text_of type_id)) w in
        (answer_of reply, w')
  ]

  -- `rollback_policy`
  unfoldable pub rollback_policy :
      (delete : String → W → Reply ℕ × W)
      → Dict ℕ
      → (policy_type policy_id : String) → W
      → Answer ℕ × W
  unfolding policy_instance_url answer_of
  rollback_policy delete types policy_type policy_id w = elim (lookup policy_type types) [
    | none ↦ (refused_key, w)
    | some type_id ↦
        let (reply, w') = delete (policy_instance_url dialect (text_of type_id) policy_id) w in
        (answer_of reply, w')
  ]

-- the body of `create_ei_job`
unfoldable pub ei_job_payload : (rapp_id ei_type_id : String) → Json → (target_uri : String) → Json
ei_job_payload rapp_id ei_type_id job_data target_uri = object (
    field "ei_type_id" (text ei_type_id) (
      field "ei_job_data" job_data
        (field "target_uri" (text target_uri) (field "rapp_id" (text rapp_id) end))))

module _ {W : Type 0} where
  unfoldable pub create_ei_job :
      (put : String → Json → W → Reply ℕ × W)
      → (rapp_id ei_type_id ei_job_id : String) → Json
      → (target_uri : String) → W
      → Answer ℕ × W
  unfolding ei_job_payload answer_of
  create_ei_job put rapp_id ei_type_id ei_job_id job_data target_uri w =
      let (reply, w') =
        put ("/A1-EI/v1/eijobs/" <> ei_job_id)
          (ei_job_payload rapp_id ei_type_id job_data target_uri) w in
      (answer_of reply, w')

  unfoldable pub delete_ei_job :
      (delete : String → W → Reply ℕ × W) → (ei_job_id : String) → W → Answer ℕ × W
  unfolding answer_of
  delete_ei_job delete ei_job_id w =
      let (reply, w') = delete ("/A1-EI/v1/eijobs/" <> ei_job_id) w in (answer_of reply, w')

module _ {P W S : Type 0} where
  unfoldable pub attach_evidence_store : S → A1Adapter P W S → A1Adapter P W S
  attach_evidence_store store a = record a { store = store; attached = true }

  unfoldable pub policies_emitted_count : A1Adapter P W S → ℕ
  policies_emitted_count a = a.policies_emitted
