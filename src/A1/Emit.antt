-- ===== src/A1/Emit.antt =====
-- rapp/a1_adapter.py: `emit_policy`, through the adapter's circuit breaker. The channel to the RIC
-- and the evidence store are states that a parameter acts on: `send` puts a request and checks the
-- status of the response, and `store_append` files a record. The metrics that summarise a record, and the
-- lock around the counter, are left out: an emission is one step.
use preceptual_ai_5g_dynamic.Prelude.{
  Bool, Option, String, [], false, has, if◌then◌else◌, none, not, some, suc, true, ℕ, ◌&&◌, ◌||◌,
  ◌∷◌,
}
use preceptual_ai_5g_dynamic.Prelude.Dict.{Dict, lookup}
use preceptual_ai_5g_dynamic.Prelude.Outcome.{Outcome, ok, raised}
use preceptual_ai_5g_dynamic.Evidence.{or_else}
use preceptual_ai_5g_dynamic.Shield.Certificate.{SafetyCertificate}
use preceptual_ai_5g_dynamic.Breaker.{CallError}
use preceptual_ai_5g_dynamic.Breaker.Call.{
  Called, CircuitLib, Reply, call, call_failed, circuit_open, returned,
}
use preceptual_ai_5g_dynamic.A1.Json.{Json}
use preceptual_ai_5g_dynamic.A1.Urls.{A1AdapterConfig, Request, put_request}

-- httpx, pybreaker, the store, `str` of a number, and `strip` with `lower` of a text
pub record A1Lib (P W S R : Type 0) : Type 0 where
  pub circuit : CircuitLib P
  pub send : Request → W → Reply ℕ × W
  pub store_append : R → S → Outcome (Unit {0}) × S
  pub text_of : ℕ → String
  pub normal : String → String

-- The adapter, with what it acts on. `store` is the store of the rApp, which the adapter appends to
-- if it is attached; `records_persisted` is a metric that its callers also count.
pub record A1Adapter (P W S : Type 0) : Type 0 where
  pub breaker : P
  pub channel : W
  pub store : S
  pub attached : Bool
  pub policies_emitted : ℕ
  pub records_persisted : ℕ

-- what one emission reads besides: the times at which the PUT starts and ends, a new UUID, and the
-- variable HORIZON_A1_REQUIRE_CERT
pub record Surroundings : Type 0 where
  pub start : ℕ
  pub finish : ℕ
  pub uuid : String
  pub require_cert : Option String

pub data EmitError : Type 0 where
  refused : EmitError
  http : CallError → EmitError
  breaker_open : EmitError
  persist_failed : (policy_id : String) (http_status : ℕ) → EmitError

pub data Emission : Type 0 where
  emitted : (policy_id : String) (http_status : ℕ) → Emission
  not_emitted : EmitError → Emission

-- `DEFAULT_POLICY_TYPES`, as the numbers of the types
unfoldable pub default_policy_types : Dict ℕ
default_policy_types =
    ("horizon.qos.priority", 20001)
    ∷ ("horizon.traffic.steering", 20002)
    ∷ ("horizon.admission.control", 20003)
    ∷ ("horizon.spectrum.reservation", 20004)
    ∷ []

-- `_env_truthy`, of the value of the variable
unfoldable pub env_truthy : (normal : String → String) → Option String → Bool
env_truthy normal none = false
env_truthy normal (some raw) = not (has (normal raw) ("" ∷ "0" ∷ "false" ∷ "no" ∷ []))

-- whether the certificate is missing or not clean
unfoldable pub unclean {ℓ} : {A : Type ℓ} → Option (SafetyCertificate A) → Bool
unclean none = true
unclean (some c) = not c.safe || c.emit_blocked

module _ {P W S : Type 0} where
  unfoldable pub filed :
      (policy_id : String) (http_status : ℕ)
      → Outcome (Unit {0}) × S
      → A1Adapter P W S
      → Emission × A1Adapter P W S
  filed policy_id http_status (ok _, s) a = (
    emitted policy_id http_status,
    record a { store = s; records_persisted = suc a.records_persisted },
  )
  filed policy_id http_status (raised _, s) a =
      (not_emitted (persist_failed policy_id http_status), record a { store = s })

module _ {P W S R : Type 0} (lib : A1Lib P W S R) where
  -- what follows an accepted PUT
  unfoldable pub persist :
      (policy_id : String) (http_status : ℕ)
      → Option R
      → A1Adapter P W S
      → Emission × A1Adapter P W S
  unfolding filed
  persist policy_id http_status none a = (emitted policy_id http_status, a)
  persist policy_id http_status (some r) a =
      if a.attached
      then filed policy_id http_status (lib.store_append r a.store) a
      else (emitted policy_id http_status, a)

  unfoldable pub after_put :
      (policy_id : String) → Option R → Called ℕ → A1Adapter P W S → Emission × A1Adapter P W S
  unfolding persist
  after_put policy_id r (returned http_status) a =
      persist policy_id http_status r (record a { policies_emitted = suc a.policies_emitted })
  after_put policy_id r (call_failed e) a = (not_emitted (http e), a)
  after_put policy_id r circuit_open a = (not_emitted breaker_open, a)

module _ {P W S R : Type 0} (lib : A1Lib P W S R) (cfg : A1AdapterConfig) where
  -- `self._cb.call(_do_put)`, and what follows it
  unfoldable pub put_policy :
      (type_id : ℕ) (policy_id : String)
      → Json
      → Option R
      → Surroundings
      → A1Adapter P W S
      → Emission × A1Adapter P W S
  unfolding put_request call after_put
  put_policy type_id policy_id payload r env a =
      let request = put_request cfg (lib.text_of type_id) policy_id payload in
      let (called, p, w) =
        call lib.circuit env.start env.finish (lib.send request) a.breaker a.channel in
      after_put lib policy_id r called (record a { breaker = p; channel = w })

  module _ {ℓ} {A : Type ℓ} (policy_types : Dict ℕ) where
    unfoldable pub emit_policy :
        (policy_type : String)
        → Json
        → (policy_id : Option String) → Option R
        → Option (SafetyCertificate A)
        → Surroundings
        → A1Adapter P W S
        → Emission × A1Adapter P W S
    unfolding put_policy env_truthy unclean or_else
    emit_policy policy_type payload policy_id r certificate env a =
        elim (lookup policy_type policy_types) [
          | none ↦ (not_emitted refused, a)
          | some type_id ↦
              if env_truthy lib.normal env.require_cert && unclean certificate
              then (not_emitted refused, a)
              else put_policy type_id (or_else policy_id env.uuid) payload r env a
        ]
