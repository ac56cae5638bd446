-- ===== src/Pipeline/State.antt =====
-- rapp/pipeline.py: what the pipeline keeps and counts, what one run reads and returns, and a direct
-- append to the evidence store.
use preceptual_ai_5g_dynamic.Prelude.{
  Bool, List, Option, String, [], false, none, some, suc, ℕ, ◌∷◌,
}
use preceptual_ai_5g_dynamic.Prelude.Dict.{Dict, insert, lookup}
use preceptual_ai_5g_dynamic.Prelude.Flt.{Flt}
use preceptual_ai_5g_dynamic.Prelude.Outcome.{Outcome, ok, raised}
use preceptual_ai_5g_dynamic.Guards.{GuardFailure}
use preceptual_ai_5g_dynamic.Breaker.{
  CallError, connect_error, network_error, not_http, other_http_error, remote_protocol_error,
  status_error, timeout,
}
use preceptual_ai_5g_dynamic.A1.Urls.{A1AdapterConfig}
use preceptual_ai_5g_dynamic.A1.Emit.{A1Adapter, A1Lib, Surroundings}
use preceptual_ai_5g_dynamic.Pipeline.Decide.{PipelineConfig, TelemetryEvent}
use preceptual_ai_5g_dynamic.Pipeline.Records.{Decision, Verdict}
use preceptual_ai_5g_dynamic.Pipeline.Poll.{StatusReply}

-- The pipeline with its adapter and its metrics: HORIZON_DECISIONS_BLOCKED by reason,
-- HORIZON_A1_EMIT_FAILURES, HORIZON_DRY_RUN_DECISIONS and HORIZON_POLICY_ENFORCED by policy type.
pub record Loop (P W S : Type 0) : Type 0 where
  pub a1 : A1Adapter P W S
  pub decisions_blocked : Dict ℕ
  pub a1_emit_failures : ℕ
  pub dry_run_decisions : ℕ
  pub policy_enforced : Dict Bool

pub record PipelineResult : Type 0 where
  pub decision_id : String
  pub event_id : String
  pub policy_type : String
  pub policy_id : Option String
  pub accepted : Bool
  pub http_status : Option ℕ
  pub enforcement_status : Option String
  pub enforced : Option Bool
  pub blocked : Bool
  pub block_reasons : List String
  pub emit_failed : Bool
  pub evidence_persist_failed : Bool
  pub dry_run : Bool

-- what one run reads besides the event: a new UUID, the seed made of the event's id, the time that
-- planning and the Shield took, the variable HORIZON_A1_DRY_RUN, and what the emission reads
pub record RunInput : Type 0 where
  pub decision_id : String
  pub seed : ℕ
  pub elapsed_ms : Flt
  pub dry_run : Option String
  pub surroundings : Surroundings

-- the parts that are not under src/ and the configuration
pub record Parts (P W S : Type 0) : Type 0 where
  pub lib : A1Lib P W S Decision
  pub get_status : String → W → StatusReply × W
  pub ratio_db : Flt → Flt → Outcome Flt
  pub a1_cfg : A1AdapterConfig
  pub cfg : PipelineConfig

-- a counter of a label
unfoldable pub bump : String → Dict ℕ → Dict ℕ
bump k d = insert k (elim (lookup k d) [ none ↦ 1 | some n ↦ suc n ]) d

unfoldable pub guard_ids : List GuardFailure → List String
guard_ids [] = []
guard_ids (f ∷ fs) = f.guard_id ∷ guard_ids fs

-- `[f.guard_id for f in failures] or ["shield_blocked"]`
unfoldable pub block_reasons_of : List GuardFailure → List String
unfolding guard_ids
block_reasons_of [] = "shield_blocked" ∷ []
block_reasons_of (f ∷ fs) = f.guard_id ∷ guard_ids fs

abbrev pub first_reason : List String → String
first_reason [] = "shield_blocked"
first_reason (r ∷ rs) = r

-- a result with nothing accepted
unfoldable pub idle_result : RunInput → TelemetryEvent → Verdict → PipelineResult
idle_result input event v = record {
  decision_id = input.decision_id;
  event_id = event.event_id;
  policy_type = v.policy_type;
  policy_id = none;
  accepted = false;
  http_status = none;
  enforcement_status = none;
  enforced = none;
  blocked = false;
  block_reasons = [];
  emit_failed = false;
  evidence_persist_failed = false;
  dry_run = false;
}

-- `response.status_code` of the exception, if it has a response
unfoldable pub response_status : CallError → Option ℕ
response_status (status_error code) = some code
response_status timeout = none
response_status connect_error = none
response_status network_error = none
response_status remote_protocol_error = none
response_status other_http_error = none
response_status not_http = none

module _ {P W S : Type 0} where
  -- the store after `append`, and the metric when it returned
  unfoldable pub with_store : S → Loop P W S → Loop P W S
  with_store s l = record l { a1 = record (l.a1) { store = s } }

  unfoldable pub counted_store : S → Loop P W S → Loop P W S
  counted_store s l = record l {
    a1 = record (l.a1) { store = s; records_persisted = suc l.a1.records_persisted };
  }

  -- what follows a direct append: its exception ends the run
  unfoldable pub appended :
      Outcome (Unit {0}) × S
      → PipelineResult
      → (Loop P W S → Loop P W S)
      → Loop P W S
      → Outcome PipelineResult × Loop P W S
  unfolding with_store counted_store
  appended (ok _, s) result metric l = (ok result, metric (counted_store s l))
  appended (raised e, s) result metric l = (raised e, with_store s l)
