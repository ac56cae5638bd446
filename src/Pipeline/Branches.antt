-- ===== src/Pipeline/Branches.antt =====
-- rapp/pipeline.py: the steps of `process_event`, one at a time, and which of them accept.

use preceptual_ai_5g_dynamic.Prelude.Dict.{lookup}
use preceptual_ai_5g_dynamic.Breaker.{
  CallError, connect_error, network_error, not_http, other_http_error, remote_protocol_error,
  status_error, timeout,
}
use preceptual_ai_5g_dynamic.Breaker.Call.{answered}
use preceptual_ai_5g_dynamic.A1.Urls.{put_request}
use preceptual_ai_5g_dynamic.Evidence.{or_else}
use preceptual_ai_5g_dynamic.A1.Emit.{
  A1Adapter, Emission, breaker_open, default_policy_types, emit_policy, emitted, env_truthy, http,
  not_emitted, persist_failed, refused,
}
use preceptual_ai_5g_dynamic.A1.Meaning.{Meaning, emit_policy-Meaning}
use preceptual_ai_5g_dynamic.Pipeline.State.{
  Loop, Parts, PipelineResult, RunInput, appended, idle_result,
}
use preceptual_ai_5g_dynamic.Pipeline.Process.{
  act, after_emit, block, emit_and_poll, emit_failure, suppress, unexpected,
}
use preceptual_ai_5g_dynamic.Prelude.{
  Bool, Option, String, ap, false, if◌then◌else◌, inl, inr, none, refl, some, subst, true, ℕ, ◌≡◌,
}
use preceptual_ai_5g_dynamic.Prelude.Flt.{Flt}
use preceptual_ai_5g_dynamic.Prelude.Outcome.{>>=-eq-ok, Outcome, ok, raised}
use preceptual_ai_5g_dynamic.Shield.Dispose.{default_max_passes, dispose}
use preceptual_ai_5g_dynamic.Pipeline.Planner.{candidates, choose, risk_of}
use preceptual_ai_5g_dynamic.Pipeline.Decide.{
  PipelineConfig, TelemetryEvent, failures_of, pipeline_chain, safe_tx_val, shield_action,
}
use preceptual_ai_5g_dynamic.Pipeline.Records.{
  Verdict, chosen_action_of, decide, decision_of, is_blocked, payload_at, verdict_of,
}

module _ (ratio_db : Flt → Flt → Outcome Flt) (cfg : PipelineConfig) where
  -- What the steps 1 to 4 have made of an event.
  pub record IsDecided (event : TelemetryEvent) (decision_id : String) (seed : ℕ) (elapsed : Flt)
      (v : Verdict) : Type 0 where
    pub risk : ℕ
    pub tx : Option Flt
    pub read : risk_of event.sla_risk_30s ≡ ok risk
    pub chosen : v.policy_type ≡ choose risk
    pub disposed :
        dispose default_max_passes
          (pipeline_chain ratio_db cfg)
          (record { decision_id = decision_id; rng_seed = none; loop_tier = "non_rt" })
          (shield_action cfg)
          (record { measured_tbler = none })
        ≡ ok v.disposition
    pub tx_is : safe_tx_val v.disposition.safe_action.tx_power_dbm ≡ ok tx
    pub failures_are : v.failures ≡ failures_of cfg elapsed v.disposition.certificate tx
    pub named : v.decision.decision_id ≡ decision_id
    pub unflagged :
        (v.decision.chosen_action.emit_blocked ≡ false)
        × (v.decision.chosen_action.dry_run ≡ false)
        × (v.decision.chosen_action.emit_failed ≡ false)

  pub decide-IsDecided :
      (event : TelemetryEvent) (decision_id : String) (seed : ℕ) (elapsed : Flt) (v : Verdict)
      → decide ratio_db cfg event decision_id seed elapsed ≡ ok v
      → IsDecided event decision_id seed elapsed v
  unfolding decide verdict_of decision_of chosen_action_of
  decide-IsDecided event decision_id seed elapsed v h =
      let (risk, e1, h1) = >>=-eq-ok (risk_of event.sla_risk_30s) _ h in
      let (payload, e2, h2) =
        >>=-eq-ok (payload_at (choose risk) (candidates event.source_id risk decision_id)) _ h1 in
      let (d, e3, h3) =
        >>=-eq-ok
          (dispose default_max_passes (pipeline_chain ratio_db cfg)
            (record { decision_id = decision_id; rng_seed = none; loop_tier = "non_rt" })
            (shield_action cfg) (record { measured_tbler = none }))
          _ h2 in
      let (tx, e4, h4) = >>=-eq-ok (safe_tx_val d.safe_action.tx_power_dbm) _ h3 in
      let same : verdict_of ratio_db cfg event decision_id seed elapsed risk payload d tx ≡ v =
        cc in
      rw (← same) (record {
        risk = risk;
        tx = tx;
        read = e1;
        chosen = refl;
        disposed = e3;
        tx_is = e4;
        failures_are = refl;
        named = refl;
        unflagged = (refl, refl, refl);
      })

module _ {P W S : Type 0} (parts : Parts P W S) where
  -- a result that is not the exception it started from
  appended-ok :
      (o : Outcome (Unit {0}) × S) (result r : PipelineResult) (metric : Loop P W S → Loop P W S)
      (l l' : Loop P W S)
      → appended o result metric l ≡ (ok r, l')
      → result ≡ r
  unfolding appended
  appended-ok (ok _, s) result r metric l l' h = cc
  appended-ok (raised e, s) result r metric l l' h = cc

  block-accepted :
      (input : RunInput) (event : TelemetryEvent) (v : Verdict) (l l' : Loop P W S)
      (r : PipelineResult)
      → block parts input event v l ≡ (ok r, l')
      → r.accepted ≡ false
  unfolding block idle_result
  block-accepted input event v l l' r h = rw (← appended-ok _ _ r _ l l' h) refl

  suppress-accepted :
      (input : RunInput) (event : TelemetryEvent) (v : Verdict) (l l' : Loop P W S)
      (r : PipelineResult)
      → suppress parts input event v l ≡ (ok r, l')
      → r.accepted ≡ false
  unfolding suppress idle_result
  suppress-accepted input event v l l' r h = rw (← appended-ok _ _ r _ l l' h) refl

  emit_failure-accepted :
      (status : Option ℕ) (input : RunInput) (event : TelemetryEvent) (v : Verdict)
      (l l' : Loop P W S) (r : PipelineResult)
      → emit_failure parts status input event v l ≡ (ok r, l')
      → r.accepted ≡ false
  unfolding emit_failure idle_result
  emit_failure-accepted status input event v l l' r h = rw (← appended-ok _ _ r _ _ l' h) refl

  http-accepted :
      (e : CallError) (input : RunInput) (event : TelemetryEvent) (v : Verdict) (l l' : Loop P W S)
      (r : PipelineResult)
      → after_emit parts input event v (not_emitted (http e)) l ≡ (ok r, l')
      → r.accepted ≡ false
  unfolding after_emit unexpected
  http-accepted (status_error code) input event v l l' r h =
      emit_failure-accepted _ input event v l l' r h
  http-accepted timeout input event v l l' r h = emit_failure-accepted _ input event v l l' r h
  http-accepted connect_error input event v l l' r h =
      emit_failure-accepted _ input event v l l' r h
  http-accepted network_error input event v l l' r h =
      emit_failure-accepted _ input event v l l' r h
  http-accepted remote_protocol_error input event v l l' r h =
      emit_failure-accepted _ input event v l l' r h
  http-accepted other_http_error input event v l l' r h =
      emit_failure-accepted _ input event v l l' r h
  http-accepted not_http input event v l l' r h = cc

  -- One PUT of the verdict's payload, which the RIC answered.
  abbrev pub WasPut : Verdict → Loop P W S → Type 0
  WasPut v l =
      (type_id : ℕ) × (policy_id : String) × (http_status : ℕ) × (lookup v.policy_type
          default_policy_types
        ≡ some type_id)
      × ((parts.lib.send (put_request parts.a1_cfg (parts.lib.text_of type_id) policy_id v.payload)
            l.a1.channel).0
          ≡ answered http_status)

  after_emit-WasPut :
      (input : RunInput) (event : TelemetryEvent) (v : Verdict) (l m l' : Loop P W S)
      (r : PipelineResult) (em : Emission) (a : A1Adapter P W S) (type_id : ℕ) (policy_id : String)
      → lookup v.policy_type default_policy_types ≡ some type_id
      → Meaning parts.lib
          (put_request parts.a1_cfg (parts.lib.text_of type_id) policy_id v.payload)
          policy_id
          (some v.decision)
          em
          l.a1
          a
      → after_emit parts input event v em m ≡ (ok r, l')
      → r.accepted ≡ true
      → WasPut v l
  unfolding after_emit unexpected
  after_emit-WasPut input event v l m l' r (emitted id status) a n policy_id known meant h acc =
      (n, policy_id, status, known, ap (λ x. x.0) meant.1)
  after_emit-WasPut input event v l m l' r (not_emitted (persist_failed id status)) a n policy_id
        known meant h acc =
      (n, policy_id, status, known, ap (λ x. x.0) meant.1)
  after_emit-WasPut input event v l m l' r (not_emitted refused) a n policy_id known meant h acc =
      cc
  after_emit-WasPut input event v l m l' r (not_emitted breaker_open) a n policy_id known meant h
        acc =
      cc (emit_failure-accepted none input event v m l' r h)
  after_emit-WasPut input event v l m l' r (not_emitted (http e)) a n policy_id known meant h acc =
      cc (http-accepted e input event v m l' r h)

  refused_out :
      (input : RunInput) (event : TelemetryEvent) (v : Verdict) (l l' m : Loop P W S)
      (r : PipelineResult) (em : Emission)
      → em ≡ not_emitted refused
      → after_emit parts input event v em m ≡ (ok r, l')
      → WasPut v l
  unfolding after_emit unexpected
  refused_out input event v l l' m r em e h =
      cc (subst (λ x. after_emit parts input event v x m ≡ (ok r, l')) e h)

  emit_and_poll-WasPut :
      (input : RunInput) (event : TelemetryEvent) (v : Verdict) (l l' : Loop P W S)
      (r : PipelineResult)
      → emit_and_poll parts input event v l ≡ (ok r, l')
      → r.accepted ≡ true
      → WasPut v l
  unfolding emit_and_poll
  emit_and_poll-WasPut input event v l l' r h acc =
      let done =
        emit_policy parts.lib parts.a1_cfg default_policy_types v.policy_type v.payload none
          (some v.decision) (some v.disposition.certificate) input.surroundings l.a1 in
      let (_, _, meant) =
        emit_policy-Meaning parts.lib parts.a1_cfg default_policy_types v.policy_type v.payload none
          (some v.decision) (some v.disposition.certificate) input.surroundings l.a1 in
      elim meant [
        | inl same ↦
            refused_out input event v l l' (record l { a1 = done.1 }) r done.0 (ap (λ x. x.0) same)
              h
        | inr (type_id, known, meaning) ↦
            after_emit-WasPut input event v l (record l { a1 = done.1 }) l' r done.0 done.1 type_id
              (or_else none input.surroundings.uuid) known meaning h acc
      ]

  pub act-accepted :
      (input : RunInput) (event : TelemetryEvent) (v : Verdict) (l l' : Loop P W S)
      (r : PipelineResult)
      → act parts input event v l ≡ (ok r, l')
      → r.accepted ≡ true
      → (is_blocked v ≡ false) × (env_truthy parts.lib.normal input.dry_run ≡ false) × WasPut v l
  act-accepted input event v l l' r h acc =
      blocked (is_blocked v) (env_truthy parts.lib.normal input.dry_run) refl refl (unfold act in h)
    where
      blocked :
          (b dry : Bool)
          → is_blocked v ≡ b
          → env_truthy parts.lib.normal input.dry_run ≡ dry
          → (if b
              then block parts input event v l
              else if dry
              then suppress parts input event v l
              else emit_and_poll parts input event v l)
            ≡ (ok r, l')
          → (is_blocked v ≡ false)
            × (env_truthy parts.lib.normal input.dry_run ≡ false)
            × WasPut v l
      blocked true dry p q k = cc (block-accepted input event v l l' r k)
      blocked false true p q k = cc (suppress-accepted input event v l l' r k)
      blocked false false p q k = (p, q, emit_and_poll-WasPut input event v l l' r k acc)
