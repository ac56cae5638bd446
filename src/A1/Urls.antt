-- ===== src/A1/Urls.antt =====
-- rapp/a1_adapter.py: the URL builders and the request of `_do_put`, in the dialects of the SMOs.
-- The decimal text of a type's number is an argument.
use Prim.Native.String.{◌++◌ as ◌<>◌}
use preceptual_ai_5g_dynamic.Prelude.{String, false}
use preceptual_ai_5g_dynamic.A1.Json.{Json, end, field, flag, object, text}

pub data Dialect : Type 0 where
  legacy osc osc_a1 eiap mantaray : Dialect

-- the fields of `A1AdapterConfig` that a request reads
pub record A1AdapterConfig : Type 0 where
  pub dialect : Dialect
  pub rapp_id : String
  pub osc_ric_id : String
  pub osc_service_id : String
  pub eiap_ric_id : String
  pub mantaray_ric_id : String

pub record Request : Type 0 where
  pub url : String
  pub body : Json

-- of the dialect, and the text of the type's number
unfoldable pub policy_type_url : Dialect → String → String
policy_type_url osc_a1 n = "/a1-p/policytypes/" <> n
policy_type_url osc n = "/a1-policy/v2/policy-types/" <> n
policy_type_url eiap n = "/A1-PolicyManagement/v2/policy-types/" <> n
policy_type_url mantaray n = "/sdn-r/api/v1/policy-types/" <> n
policy_type_url legacy n = "/A1-P/v2/policytypes/" <> n

unfoldable pub policy_instance_url : Dialect → String → (policy_id : String) → String
policy_instance_url osc_a1 n policy_id = "/a1-p/policytypes/" <> (n <> ("/policies/" <> policy_id))
policy_instance_url osc n policy_id = "/a1-policy/v2/policies/" <> policy_id
policy_instance_url eiap n policy_id = "/A1-PolicyManagement/v2/policies/" <> policy_id
policy_instance_url mantaray n policy_id = "/sdn-r/api/v1/policies/" <> policy_id
policy_instance_url legacy n policy_id =
    "/A1-P/v2/policytypes/" <> (n <> ("/policies/" <> policy_id))

unfoldable pub policy_create_url : Dialect → String → String
policy_create_url osc_a1 n = "/a1-p/policytypes/" <> (n <> "/policies")
policy_create_url osc n = "/a1-policy/v2/policies"
policy_create_url eiap n = "/A1-PolicyManagement/v2/policies"
policy_create_url mantaray n = "/sdn-r/api/v1/policies"
policy_create_url legacy n = "/A1-P/v2/policytypes/" <> (n <> "/policies")

unfoldable pub policy_status_url : Dialect → String → (policy_id : String) → String
policy_status_url osc_a1 n policy_id =
    "/a1-p/policytypes/" <> (n <> ("/policies/" <> (policy_id <> "/status")))
policy_status_url osc n policy_id = "/a1-policy/v2/policies/" <> (policy_id <> "/status")
policy_status_url eiap n policy_id = "/A1-PolicyManagement/v2/policies/" <> (policy_id <> "/status")
policy_status_url mantaray n policy_id = "/sdn-r/api/v1/policies/" <> (policy_id <> "/status")
policy_status_url legacy n policy_id =
    "/A1-P/v2/policytypes/" <> (n <> ("/policies/" <> (policy_id <> "/status")))

unfoldable pub policy_list_url : Dialect → String → String
policy_list_url osc_a1 n = "/a1-p/policytypes/" <> (n <> "/policies")
policy_list_url osc n = "/a1-policy/v2/policies?policytype_id=" <> n
policy_list_url eiap n = "/A1-PolicyManagement/v2/policies?policyTypeId=" <> n
policy_list_url mantaray n = "/sdn-r/api/v1/policies?policyTypeId=" <> n
policy_list_url legacy n = "/A1-P/v2/policytypes/" <> (n <> "/policies")

-- what `_do_put` sends
unfoldable pub put_request : A1AdapterConfig → String → (policy_id : String) → Json → Request
unfolding policy_instance_url policy_create_url
put_request cfg n policy_id payload = elim cfg.dialect [
  | osc ↦ record {
    url = policy_create_url osc n;
    body = object (
        field "policy_id" (text policy_id) (
          field "policytype_id" (text n) (
            field "ric_id" (text cfg.osc_ric_id) (
              field "service_id" (text cfg.osc_service_id)
                (field "transient" (flag false) (field "policy_data" payload end))))));
  }
  | eiap ↦ record {
    url = policy_create_url eiap n;
    body = object (
        field "policyId" (text policy_id) (
          field "policyTypeId" (text n)
            (field "ricId" (text cfg.eiap_ric_id) (field "policyData" payload end))));
  }
  | mantaray ↦ record {
    url = policy_create_url mantaray n;
    body = object (
        field "policyId" (text policy_id) (
          field "policyTypeId" (text n) (
            field "ricId" (text cfg.mantaray_ric_id)
              (field "rappId" (text cfg.rapp_id) (field "policyData" payload end)))));
  }
  | legacy ↦ record { url = policy_instance_url legacy n policy_id; body = payload }
  | osc_a1 ↦ record { url = policy_instance_url osc_a1 n policy_id; body = payload }
]
