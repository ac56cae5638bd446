-- ===== src/Pipeline/Audited.antt =====
-- rapp/pipeline.py: the audit record of every event.

use preceptual_ai_5g_dynamic.Evidence.{or_else}
use preceptual_ai_5g_dynamic.Pipeline.Branches.{decide-IsDecided}
use preceptual_ai_5g_dynamic.Breaker.{
  CallError, connect_error, network_error, not_http, other_http_error, remote_protocol_error,
  status_error, timeout,
}
use preceptual_ai_5g_dynamic.A1.Urls.{Request, put_request}
use preceptual_ai_5g_dynamic.A1.Emit.{
  A1Adapter, Emission, breaker_open, default_policy_types, emit_policy, emitted, env_truthy, http,
  not_emitted, persist_failed, refused,
}
use preceptual_ai_5g_dynamic.A1.Meaning.{Meaning, emit_policy-Meaning}
use preceptual_ai_5g_dynamic.Pipeline.Poll.{PollState}
use preceptual_ai_5g_dynamic.Prelude.{
  Bool, Bool-cases, List, Option, String, [], ap, false, if◌then◌else◌, inl, inr, none, refl, some,
  subst, suc, sym, true, ℕ, ◌++◌, ◌∙◌, ◌∷◌, ◌≡◌,
}
use preceptual_ai_5g_dynamic.Prelude.Outcome.{Exn, Outcome, ok, other_error, raised, value_error}
use preceptual_ai_5g_dynamic.Pipeline.Decide.{TelemetryEvent}
use preceptual_ai_5g_dynamic.Pipeline.Records.{Decision, Verdict, decide, is_blocked}
use preceptual_ai_5g_dynamic.Pipeline.State.{
  Loop, Parts, PipelineResult, RunInput, appended, counted_store, idle_result, with_store,
}
use preceptual_ai_5g_dynamic.Pipeline.Process.{
  accept, act, after_emit, block, emit_and_poll, emit_failure, failed_decision, polled,
  process_event, suppress, unexpected,
}

module _ {P W : Type 0} (parts : Parts P W (List Decision)) where
  -- a store that files every record at its end
  abbrev pub IsLog : Type 0
  IsLog = (d : Decision) (s : List Decision) → parts.lib.store_append d s ≡ (ok tt, s ++ d ∷ [])

  -- what the record says agrees with what the caller is told
  abbrev pub Agrees : Decision → Outcome PipelineResult → Type 0
  Agrees d (raised e) = Unit
  Agrees d (ok r) =
      (d.chosen_action.emit_blocked ≡ r.blocked)
      × (d.chosen_action.dry_run ≡ r.dry_run)
      × (d.chosen_action.emit_failed ≡ r.emit_failed)

  -- one record of this decision has been filed
  abbrev pub Filed :
      (decision_id : String)
      → List Decision
      → Outcome PipelineResult × Loop P W (List Decision)
      → Type 0
  Filed decision_id s done =
      (d : Decision) × (done.1.a1.store ≡ s ++ d ∷ [])
      × (d.decision_id ≡ decision_id)
      × Agrees d done.0

  appended-Filed :
      (d : Decision) (result : PipelineResult)
      (metric : Loop P W (List Decision) → Loop P W (List Decision)) (l : Loop P W (List Decision))
      → IsLog
      → ((m : Loop P W (List Decision)) → (metric m).a1.store ≡ m.a1.store)
      → Agrees d (ok result)
      → Filed d.decision_id l.a1.store
          (appended (parts.lib.store_append d l.a1.store) result metric l)
  unfolding appended counted_store
  appended-Filed d result metric l log keeps agrees = rw log (d, keeps _, refl, agrees)

  unexpected-Filed :
      (e : Exn) (v : Verdict) (l : Loop P W (List Decision))
      → IsLog
      → Filed v.decision.decision_id l.a1.store (unexpected parts e v l)
  unfolding unexpected with_store
  unexpected-Filed e v l log = rw log (failed_decision parts v, refl, refl, tt)

  -- no flag says that the decision was not emitted
  abbrev pub Unflagged : Decision → Type 0
  Unflagged d =
      (d.chosen_action.emit_blocked ≡ false)
      × (d.chosen_action.dry_run ≡ false)
      × (d.chosen_action.emit_failed ≡ false)

  polled-Filed :
      (input : RunInput) (event : TelemetryEvent) (v : Verdict) (policy_id : String)
      (http_status : ℕ) (unaudited : Bool) (o : Outcome PollState) (l : Loop P W (List Decision))
      (s : List Decision)
      → l.a1.store ≡ s ++ v.decision ∷ []
      → Unflagged v.decision
      → Filed v.decision.decision_id s
          (polled parts input event v policy_id http_status unaudited o l)
  unfolding polled idle_result
  polled-Filed input event v policy_id http_status unaudited (raised e) l s same u =
      (v.decision, same, refl, tt)
  polled-Filed input event v policy_id http_status unaudited (ok p) l s same u =
      (v.decision, same, refl, u)

  failure-Filed :
      (http_status : Option ℕ) (input : RunInput) (event : TelemetryEvent) (v : Verdict)
      (l : Loop P W (List Decision))
      → IsLog
      → Unflagged v.decision
      → Filed v.decision.decision_id l.a1.store (emit_failure parts http_status input event v l)
  unfolding emit_failure idle_result
  failure-Filed http_status input event v l log u =
      appended-Filed (failed_decision parts v) _ (λ m. m)
        (record l { a1_emit_failures = suc l.a1_emit_failures }) log (λ m. refl) (u.0, u.1, refl)

  http-Filed :
      (e : CallError) (input : RunInput) (event : TelemetryEvent) (v : Verdict)
      (l : Loop P W (List Decision))
      → IsLog
      → Unflagged v.decision
      → Filed v.decision.decision_id l.a1.store
          (after_emit parts input event v (not_emitted (http e)) l)
  unfolding after_emit
  http-Filed (status_error code) input event v l log u = failure-Filed _ input event v l log u
  http-Filed timeout input event v l log u = failure-Filed _ input event v l log u
  http-Filed connect_error input event v l log u = failure-Filed _ input event v l log u
  http-Filed network_error input event v l log u = failure-Filed _ input event v l log u
  http-Filed remote_protocol_error input event v l log u = failure-Filed _ input event v l log u
  http-Filed other_http_error input event v l log u = failure-Filed _ input event v l log u
  http-Filed not_http input event v l log u = unexpected-Filed other_error v l log

  Filed-from :
      (decision_id : String) (s t : List Decision)
      (done : Outcome PipelineResult × Loop P W (List Decision))
      → t ≡ s
      → Filed decision_id t done
      → Filed decision_id s done
  Filed-from decision_id s t done e f = subst (λ x. Filed decision_id x done) e f

  after_emit-Filed :
      (input : RunInput) (event : TelemetryEvent) (v : Verdict) (l : Loop P W (List Decision))
      (em : Emission) (a : A1Adapter P W (List Decision)) (request : Request) (policy_id : String)
      → IsLog
      → l.a1.attached ≡ true
      → Unflagged v.decision
      → Meaning parts.lib request policy_id (some v.decision) em l.a1 a
      → Filed v.decision.decision_id l.a1.store
          (after_emit parts input event v em (record l { a1 = a }))
  unfolding after_emit accept
  after_emit-Filed input event v l (emitted id status) a request policy_id log att u meant =
      polled-Filed input event v id status false _ _ l.a1.store
        (stored_by (l.a1.attached) att meant.3) u
    where
      stored_by :
          (on : Bool)
          → on ≡ true
          → (if on
              then (parts.lib.store_append v.decision l.a1.store ≡ (ok tt, a.store))
              else (a.store ≡ l.a1.store))
          → a.store ≡ l.a1.store ++ v.decision ∷ []
      stored_by true e h = ap (λ x. x.1) (sym h ∙ log v.decision l.a1.store)
      stored_by false e h = cc
  after_emit-Filed input event v l (not_emitted refused) a request policy_id log att u meant =
      let m : Loop P W (List Decision) = record l { a1 = a } in
      Filed-from _ l.a1.store a.store (unexpected parts value_error v m) (ap (λ x. x.store) meant)
        (unexpected-Filed value_error v m log)
  after_emit-Filed input event v l (not_emitted breaker_open) a request policy_id log att u meant =
      let m : Loop P W (List Decision) = record l { a1 = a } in
      Filed-from _ l.a1.store a.store (emit_failure parts none input event v m) meant.2
        (failure-Filed none input event v m log u)
  after_emit-Filed input event v l (not_emitted (http e)) a request policy_id log att u meant =
      let m : Loop P W (List Decision) = record l { a1 = a } in
      Filed-from _ l.a1.store a.store (after_emit parts input event v (not_emitted (http e)) m)
        meant.2 (http-Filed e input event v m log u)
  after_emit-Filed input event v l (not_emitted (persist_failed id status)) a request policy_id log
        att u meant =
      let (_, _, _, (q, e, same, ran)) = meant in cc (log q l.a1.store)

  emit_and_poll-Filed :
      (input : RunInput) (event : TelemetryEvent) (v : Verdict) (l : Loop P W (List Decision))
      → IsLog
      → l.a1.attached ≡ true
      → Unflagged v.decision
      → Filed v.decision.decision_id l.a1.store (emit_and_poll parts input event v l)
  unfolding emit_and_poll
  emit_and_poll-Filed input event v l log att u =
      let done =
        emit_policy parts.lib parts.a1_cfg default_policy_types v.policy_type v.payload none
          (some v.decision) (some v.disposition.certificate) input.surroundings l.a1 in
      let (_, _, meant) =
        emit_policy-Meaning parts.lib parts.a1_cfg default_policy_types v.policy_type v.payload none
          (some v.decision) (some v.disposition.certificate) input.surroundings l.a1 in
      elim meant [
        | inl same ↦ refused_Filed done same
        | inr (type_id, known, meaning) ↦
            after_emit-Filed input event v l done.0 done.1
              (put_request parts.a1_cfg (parts.lib.text_of type_id)
                (or_else none input.surroundings.uuid) v.payload)
              (or_else none input.surroundings.uuid) log att u meaning
      ]
    where
      refused_Filed :
          (done : Emission × A1Adapter P W (List Decision))
          → done ≡ (not_emitted refused, l.a1)
          → Filed v.decision.decision_id l.a1.store
              (after_emit parts input event v done.0 (record l { a1 = done.1 }))
      refused_Filed done same =
          subst
            (λ (x : Emission × A1Adapter P W (List Decision)).
              Filed v.decision.decision_id l.a1.store
                (after_emit parts input event v x.0 (record l { a1 = x.1 })))
            (sym same)
            (after_emit-Filed input event v l (not_emitted refused) l.a1
              (record { url = ""; body = v.payload }) "" log att u refl)

  act-Filed :
      (input : RunInput) (event : TelemetryEvent) (v : Verdict) (l : Loop P W (List Decision))
      → IsLog
      → l.a1.attached ≡ true
      → Unflagged v.decision
      → Filed v.decision.decision_id l.a1.store (act parts input event v l)
  unfolding act block suppress idle_result
  act-Filed input event v l log att u = elim (Bool-cases (is_blocked v)) [
    | inl blocked ↦ rw (act, blocked) (appended-Filed _ _ _ l log (λ m. refl) (refl, u.1, u.2))
    | inr goes ↦
        rw (act, goes)
          (elim (Bool-cases (env_truthy parts.lib.normal input.dry_run)) [
            | inl dry ↦ rw dry (appended-Filed _ _ _ l log (λ m. refl) (u.0, refl, u.2))
            | inr wet ↦ rw wet (emit_and_poll-Filed input event v l log att u)
          ])
  ]

  -- The audit is complete and tells the truth: with a log for a store, which is attached to the
  -- adapter, every event for which planning and the Shield return adds exactly one record to the
  -- end of the log, of this decision, whatever the guards, the kill switch, the breaker and the RIC
  -- do, and also if the run then ends with an exception. The record says that the decision was
  -- blocked, suppressed or not delivered exactly when the result says so.
  pub process_event-Filed :
      (input : RunInput) (event : TelemetryEvent) (v : Verdict) (l : Loop P W (List Decision))
      → IsLog
      → l.a1.attached ≡ true
      → decide parts.ratio_db parts.cfg event input.decision_id input.seed input.elapsed_ms ≡ ok v
      → Filed input.decision_id l.a1.store (process_event parts input event l)
  unfolding process_event
  process_event-Filed input event v l log att e =
      let d =
        decide-IsDecided parts.ratio_db parts.cfg event input.decision_id input.seed
          input.elapsed_ms v e in
      rw (process_event, e)
        (subst (λ id. Filed id l.a1.store (act parts input event v l)) d.named
          (act-Filed input event v l log att d.unflagged))
