-- ===== src/Pipeline/Process.antt =====
-- rapp/pipeline.py: `process_event`, with all that it changes: the RIC, the breaker, the evidence
-- store and the metrics. Latencies are left out.

use preceptual_ai_5g_dynamic.Prelude.{
  Bool, Option, String, false, if◌then◌else◌, none, some, suc, true, ℕ,
}
use preceptual_ai_5g_dynamic.Prelude.Dict.{insert}
use preceptual_ai_5g_dynamic.Prelude.Outcome.{Exn, Outcome, ok, other_error, raised, value_error}
use preceptual_ai_5g_dynamic.Breaker.{not_http}
use preceptual_ai_5g_dynamic.A1.Emit.{
  Emission, breaker_open, default_policy_types, emit_policy, emitted, env_truthy, http, not_emitted,
  persist_failed, refused,
}
use preceptual_ai_5g_dynamic.Pipeline.Decide.{TelemetryEvent}
use preceptual_ai_5g_dynamic.Pipeline.Records.{Decision, Verdict, decide, is_blocked}
use preceptual_ai_5g_dynamic.Pipeline.Poll.{PollState, get_policy_status, poll_enforcement}
use preceptual_ai_5g_dynamic.Pipeline.State.{
  Loop, Parts, PipelineResult, RunInput, appended, block_reasons_of, bump, first_reason,
  idle_result, response_status, with_store,
}

module _ {P W S : Type 0} (parts : Parts P W S) where
  -- step 5
  unfoldable pub block :
      RunInput → TelemetryEvent → Verdict → Loop P W S → Outcome PipelineResult × Loop P W S
  unfolding appended block_reasons_of bump idle_result
  block input event v l =
      let reasons = block_reasons_of v.failures in
      let marked = record (v.decision) {
        chosen_action = record (v.decision.chosen_action) {
          emit_blocked = true;
          block_reasons = reasons;
        };
      } in
      appended (parts.lib.store_append marked l.a1.store)
        (record (idle_result input event v) { blocked = true; block_reasons = reasons })
        (λ m. record m { decisions_blocked = bump (first_reason reasons) m.decisions_blocked }) l

  -- step 6
  unfoldable pub suppress :
      RunInput → TelemetryEvent → Verdict → Loop P W S → Outcome PipelineResult × Loop P W S
  unfolding appended idle_result
  suppress input event v l =
      let marked = record (v.decision) {
        chosen_action = record (v.decision.chosen_action) { dry_run = true };
      } in
      appended (parts.lib.store_append marked l.a1.store)
        (record (idle_result input event v) { dry_run = true })
        (λ m. record m { dry_run_decisions = suc m.dry_run_decisions }) l

  abbrev pub failed_decision : Verdict → Decision
  failed_decision v = record (v.decision) {
    chosen_action = record (v.decision.chosen_action) { emit_failed = true };
  }

  -- the emit failed at the HTTP layer, or the breaker was open; the failure is counted first
  unfoldable pub emit_failure :
      Option ℕ
      → RunInput
      → TelemetryEvent
      → Verdict
      → Loop P W S
      → Outcome PipelineResult × Loop P W S
  unfolding appended idle_result
  emit_failure http_status input event v l =
      appended (parts.lib.store_append (failed_decision v) l.a1.store)
        (record (idle_result input event v) { http_status = http_status; emit_failed = true })
        (λ m. m) (record l { a1_emit_failures = suc l.a1_emit_failures })

  -- any other exception: a row is filed if that works, and the exception goes on
  unfoldable pub unexpected : Exn → Verdict → Loop P W S → Outcome PipelineResult × Loop P W S
  unfolding with_store
  unexpected e v l =
      (raised e, with_store (parts.lib.store_append (failed_decision v) l.a1.store).1 l)

  -- the row that is filed, if that works, when the adapter could not file one
  unfoldable pub retried : Verdict → Loop P W S → Loop P W S
  unfolding with_store
  retried v l =
      let marked = record (v.decision) {
        chosen_action = record (v.decision.chosen_action) { evidence_persist_failed = true };
      } in
      with_store (parts.lib.store_append marked l.a1.store).1 l

  unfoldable pub polled :
      RunInput
      → TelemetryEvent
      → Verdict
      → (policy_id : String) (http_status : ℕ) (unaudited : Bool) → Outcome PollState
      → Loop P W S
      → Outcome PipelineResult × Loop P W S
  unfolding idle_result
  polled input event v policy_id http_status unaudited (raised e) l = (raised e, l)
  polled input event v policy_id http_status unaudited (ok p) l = (
    ok (record (idle_result input event v) {
      policy_id = some policy_id;
      accepted = true;
      http_status = some http_status;
      enforcement_status = p.0;
      enforced = p.1;
      evidence_persist_failed = unaudited;
    }),
    record l {
      policy_enforced =
          insert v.policy_type (elim p.1 [ none ↦ false | some b ↦ b ]) l.policy_enforced;
    },
  )

  -- step 8
  unfoldable pub accept :
      RunInput
      → TelemetryEvent
      → Verdict
      → (policy_id : String) (http_status : ℕ) (unaudited : Bool) → Loop P W S
      → Outcome PipelineResult × Loop P W S
  unfolding polled poll_enforcement get_policy_status
  accept input event v policy_id http_status unaudited l =
      let ask =
        get_policy_status parts.get_status parts.a1_cfg.dialect parts.lib.text_of
          default_policy_types v.policy_type policy_id in
      let (p, w) = poll_enforcement ask parts.cfg.status_poll_attempts l.a1.channel in
      polled input event v policy_id http_status unaudited p
        (record l { a1 = record (l.a1) { channel = w } })

  -- what follows `emit_policy`
  unfoldable pub after_emit :
      RunInput
      → TelemetryEvent
      → Verdict
      → Emission
      → Loop P W S
      → Outcome PipelineResult × Loop P W S
  unfolding accept retried emit_failure unexpected response_status
  after_emit input event v (emitted policy_id http_status) l =
      accept input event v policy_id http_status false l
  after_emit input event v (not_emitted (persist_failed policy_id http_status)) l =
      accept input event v policy_id http_status true (retried v l)
  after_emit input event v (not_emitted refused) l = unexpected value_error v l
  after_emit input event v (not_emitted breaker_open) l = emit_failure none input event v l
  after_emit input event v (not_emitted (http not_http)) l = unexpected other_error v l
  after_emit input event v (not_emitted (http e)) l =
      emit_failure (response_status e) input event v l

  -- step 7
  unfoldable pub emit_and_poll :
      RunInput → TelemetryEvent → Verdict → Loop P W S → Outcome PipelineResult × Loop P W S
  unfolding emit_policy after_emit
  emit_and_poll input event v l =
      let (emission, a) =
        emit_policy parts.lib parts.a1_cfg default_policy_types v.policy_type v.payload none
          (some v.decision) (some v.disposition.certificate) input.surroundings l.a1 in
      after_emit input event v emission (record l { a1 = a })

  unfoldable pub act :
      RunInput → TelemetryEvent → Verdict → Loop P W S → Outcome PipelineResult × Loop P W S
  unfolding is_blocked block suppress emit_and_poll env_truthy
  act input event v l =
      if is_blocked v
      then block input event v l
      else if env_truthy parts.lib.normal input.dry_run
      then suppress input event v l
      else emit_and_poll input event v l

  unfoldable pub process_event :
      RunInput → TelemetryEvent → Loop P W S → Outcome PipelineResult × Loop P W S
  unfolding decide act
  process_event input event l =
      elim (decide parts.ratio_db parts.cfg event input.decision_id input.seed input.elapsed_ms) [
        | raised e ↦ (raised e, l)
        | ok v ↦ act input event v l
      ]
