-- ===== src/Pipeline/Files.antt =====
-- rapp/pipeline.py over evidence/store.py: what any run of events leaves of the evidence store.
use preceptual_ai_5g_dynamic.Prelude.Int.{negsuc}
use preceptual_ai_5g_dynamic.Evidence.Append.{IsHex, IsWhole, append-IsWhole}
use preceptual_ai_5g_dynamic.Evidence.Chains.{of_tenant, verify_iff}
use preceptual_ai_5g_dynamic.Prelude.{
  Bool, Bool-cases, List, Option, String, [], ap, false, if◌then◌else◌, inl, inr, none, refl, some,
  subst, suc, sym, true, ℕ, ◌≡◌,
}
use preceptual_ai_5g_dynamic.Prelude.Outcome.{Outcome, Outcome-cases, ok, raised}
use preceptual_ai_5g_dynamic.Alarms.{Stamp, X733AlarmBus}
use preceptual_ai_5g_dynamic.Evidence.{Codec, Entry, append, or_else, verify}
use preceptual_ai_5g_dynamic.Breaker.{
  CallError, connect_error, network_error, not_http, other_http_error, remote_protocol_error,
  status_error, timeout,
}
use preceptual_ai_5g_dynamic.A1.Urls.{Request, put_request}
use preceptual_ai_5g_dynamic.A1.Emit.{
  A1Adapter, Emission, breaker_open, default_policy_types, emit_policy, emitted, env_truthy, http,
  not_emitted, persist_failed, refused,
}
use preceptual_ai_5g_dynamic.A1.Meaning.{Meaning, emit_policy-Meaning}
use preceptual_ai_5g_dynamic.Pipeline.Decide.{TelemetryEvent}
use preceptual_ai_5g_dynamic.Pipeline.Records.{Decision, Verdict, decide, is_blocked}
use preceptual_ai_5g_dynamic.Pipeline.Poll.{PollState}
use preceptual_ai_5g_dynamic.Pipeline.State.{
  Loop, Parts, PipelineResult, RunInput, appended, counted_store, with_store,
}
use preceptual_ai_5g_dynamic.Pipeline.Process.{
  accept, act, after_emit, block, emit_and_poll, emit_failure, polled, process_event, retried,
  suppress, unexpected,
}

-- a pipeline after some events, in any order and with any inputs
pub data Reaches {P W S : Type 0} (parts : Parts P W S) (l : Loop P W S) : Loop P W S → Type 0 where
  at_start : Reaches parts l l
  after_event :
      (input : RunInput) (event : TelemetryEvent) (m : Loop P W S)
      → Reaches parts l m
      → Reaches parts l (process_event parts input event m).1

module _ {P W S : Type 0} (parts : Parts P W S) (I : S → Type 0) where
  -- every append, whether it returns or raises, keeps the property of the store
  abbrev pub AppendKeeps : Type 0
  AppendKeeps = (d : Decision) (s : S) → I s → I (parts.lib.store_append d s).1

  appended-keeps :
      (o : Outcome (Unit {0}) × S) (result : PipelineResult) (metric : Loop P W S → Loop P W S)
      (l : Loop P W S)
      → ((m : Loop P W S) → (metric m).a1.store ≡ m.a1.store)
      → I o.1
      → I (appended o result metric l).1.a1.store
  unfolding appended counted_store with_store
  appended-keeps (ok _, s) result metric l same h = subst I (sym (same _)) h
  appended-keeps (raised e, s) result metric l same h = h

  failure-keeps :
      (http_status : Option ℕ) (input : RunInput) (event : TelemetryEvent) (v : Verdict)
      (l : Loop P W S)
      → AppendKeeps
      → I l.a1.store
      → I (emit_failure parts http_status input event v l).1.a1.store
  unfolding emit_failure
  failure-keeps http_status input event v l keeps h =
      appended-keeps _ _ _ (record l { a1_emit_failures = suc l.a1_emit_failures }) (λ m. refl)
        (keeps _ _ h)

  polled-keeps :
      (input : RunInput) (event : TelemetryEvent) (v : Verdict) (policy_id : String)
      (http_status : ℕ) (unaudited : Bool) (o : Outcome PollState) (l : Loop P W S)
      → I l.a1.store
      → I (polled parts input event v policy_id http_status unaudited o l).1.a1.store
  unfolding polled
  polled-keeps input event v policy_id http_status unaudited (raised e) l h = h
  polled-keeps input event v policy_id http_status unaudited (ok p) l h = h

  http-keeps :
      (e : CallError) (input : RunInput) (event : TelemetryEvent) (v : Verdict) (l : Loop P W S)
      → AppendKeeps
      → I l.a1.store
      → I (after_emit parts input event v (not_emitted (http e)) l).1.a1.store
  unfolding after_emit unexpected with_store
  http-keeps (status_error code) input event v l keeps h = failure-keeps _ input event v l keeps h
  http-keeps timeout input event v l keeps h = failure-keeps _ input event v l keeps h
  http-keeps connect_error input event v l keeps h = failure-keeps _ input event v l keeps h
  http-keeps network_error input event v l keeps h = failure-keeps _ input event v l keeps h
  http-keeps remote_protocol_error input event v l keeps h = failure-keeps _ input event v l keeps h
  http-keeps other_http_error input event v l keeps h = failure-keeps _ input event v l keeps h
  http-keeps not_http input event v l keeps h = keeps _ _ h

  after_emit-keeps :
      (input : RunInput) (event : TelemetryEvent) (v : Verdict) (em : Emission) (l : Loop P W S)
      → AppendKeeps
      → I l.a1.store
      → I (after_emit parts input event v em l).1.a1.store
  unfolding after_emit accept unexpected retried with_store
  after_emit-keeps input event v (emitted id status) l keeps h =
      polled-keeps input event v id status false _ _ h
  after_emit-keeps input event v (not_emitted refused) l keeps h = keeps _ _ h
  after_emit-keeps input event v (not_emitted breaker_open) l keeps h =
      failure-keeps none input event v l keeps h
  after_emit-keeps input event v (not_emitted (http e)) l keeps h =
      http-keeps e input event v l keeps h
  after_emit-keeps input event v (not_emitted (persist_failed id status)) l keeps h =
      polled-keeps input event v id status true _ _ (keeps _ _ h)

  meaning-keeps :
      (request : Request) (policy_id : String) (d : Decision) (em : Emission)
      (a b : A1Adapter P W S)
      → AppendKeeps
      → I a.store
      → Meaning parts.lib request policy_id (some d) em a b
      → I b.store
  meaning-keeps request policy_id d (emitted id status) a b keeps h meant =
      filed_or_not a.attached meant.3
    where
      filed_or_not :
          (on : Bool)
          → (if on
              then (parts.lib.store_append d a.store ≡ (ok tt, b.store))
              else (b.store ≡ a.store))
          → I b.store
      filed_or_not true ran = subst I (ap (λ x. x.1) ran) (keeps d a.store h)
      filed_or_not false same = subst I (sym same) h
  meaning-keeps request policy_id d (not_emitted refused) a b keeps h meant =
      subst I (ap (λ x. x.store) (sym meant)) h
  meaning-keeps request policy_id d (not_emitted breaker_open) a b keeps h meant =
      subst I (sym meant.2) h
  meaning-keeps request policy_id d (not_emitted (http e)) a b keeps h meant =
      subst I (sym meant.2) h
  meaning-keeps request policy_id d (not_emitted (persist_failed id status)) a b keeps h meant =
      let (_, _, _, (q, e, same, ran)) = meant in subst I (ap (λ x. x.1) ran) (keeps q a.store h)

  emit_and_poll-keeps :
      (input : RunInput) (event : TelemetryEvent) (v : Verdict) (l : Loop P W S)
      → AppendKeeps
      → I l.a1.store
      → I (emit_and_poll parts input event v l).1.a1.store
  unfolding emit_and_poll
  emit_and_poll-keeps input event v l keeps h =
      let done =
        emit_policy parts.lib parts.a1_cfg default_policy_types v.policy_type v.payload none
          (some v.decision) (some v.disposition.certificate) input.surroundings l.a1 in
      let (_, _, meant) =
        emit_policy-Meaning parts.lib parts.a1_cfg default_policy_types v.policy_type v.payload none
          (some v.decision) (some v.disposition.certificate) input.surroundings l.a1 in
      after_emit-keeps input event v done.0 (record l { a1 = done.1 }) keeps
        (elim meant [
          | inl same ↦ subst I (ap (λ x. x.1.store) (sym same)) h
          | inr (type_id, known, meaning) ↦
              meaning-keeps
                (put_request parts.a1_cfg (parts.lib.text_of type_id)
                  (or_else none input.surroundings.uuid) v.payload)
                (or_else none input.surroundings.uuid) v.decision done.0 l.a1 done.1 keeps h meaning
        ])

  process_event-keeps :
      (input : RunInput) (event : TelemetryEvent) (l : Loop P W S)
      → AppendKeeps
      → I l.a1.store
      → I (process_event parts input event l).1.a1.store
  unfolding process_event act block suppress
  process_event-keeps input event l keeps h =
      elim (Outcome-cases
        (decide parts.ratio_db parts.cfg event input.decision_id input.seed input.elapsed_ms)) [
          | inr (e, is) ↦ rw (process_event, is) h
          | inl (v, is) ↦
              rw (process_event, is)
                (elim (Bool-cases (is_blocked v)) [
                  | inl blocked ↦
                      rw (act, blocked) (appended-keeps _ _ _ l (λ m. refl) (keeps _ _ h))
                  | inr goes ↦
                      rw (act, goes)
                        (elim (Bool-cases (env_truthy parts.lib.normal input.dry_run)) [
                          | inl dry ↦ rw dry (appended-keeps _ _ _ l (λ m. refl) (keeps _ _ h))
                          | inr wet ↦ rw wet (emit_and_poll-keeps input event v l keeps h)
                        ])
                ])
        ]

  pub reaches-keeps :
      (l m : Loop P W S) → AppendKeeps → I l.a1.store → Reaches parts l m → I m.a1.store
  reaches-keeps l _ keeps h at_start = h
  reaches-keeps l _ keeps h (after_event input event m r) =
      process_event-keeps input event m keeps (reaches-keeps l m keeps h r)

-- `JsonlEvidenceStore.append` as the store of a pipeline: the tenant that is active is the same for
-- all of its calls
unfoldable pub jsonl_append :
    Codec Decision
    → Option String
    → Decision
    → List (Entry Decision)
    → Outcome (Unit {0}) × List (Entry Decision)
unfolding append
jsonl_append codec active d es =
    elim (append codec active (record { tenant_id = none; content = d }) es) [
      | ok (_, fs) ↦ (ok tt, fs)
      | raised e ↦ (raised e, es)
    ]

jsonl_append-IsWhole :
    (codec : Codec Decision) (active : Option String) (d : Decision) (es : List (Entry Decision))
    → IsHex codec
    → IsWhole codec es
    → IsWhole codec (jsonl_append codec active d es).1
unfolding jsonl_append
jsonl_append-IsWhole codec active d es x whole =
    let (h, e, ran, _, next) =
      append-IsWhole codec active (record { tenant_id = none; content = d }) es x whole in
    rw (jsonl_append, ran) next

-- A pipeline whose store is a new JSONL file, when `bytes.fromhex` reads the zero hash and every
-- hexdigest: after any events, with any inputs and answers of the RIC, whether or not the runs ended
-- with exceptions, `verify` finds no broken line in the file.
pub events-verify {ℓ} :
    {P W : Type 0} {Bus : Type ℓ} (parts : Parts P W (List (Entry Decision)))
    (codec : Codec Decision) (active : Option String) (l m : Loop P W (List (Entry Decision)))
    (stamp : Stamp) (bus : X733AlarmBus Bus) (w : Bus)
    → IsHex codec
    → ((d : Decision) (es : List (Entry Decision))
        → parts.lib.store_append d es ≡ jsonl_append codec active d es)
    → l.a1.store ≡ []
    → Reaches parts l m
    → (verify codec none m.a1.store stamp bus w).0 ≡ ok (negsuc 0)
unfolding of_tenant
events-verify parts codec active l m stamp bus w x is empty r =
    let whole =
      reaches-keeps parts (IsWhole codec) l m
        (λ d es h.
          subst (λ (s : Outcome (Unit {0}) × List (Entry Decision)). IsWhole codec s.1)
            (sym (is d es)) (jsonl_append-IsWhole codec active d es x h))
        (subst (IsWhole codec) (sym empty) (record { filed = tt; linked = λ t. tt })) r in
    (verify_iff codec m.a1.store stamp bus w).1 whole.linked
