-- ===== src/Tests/Loop.antt =====
-- rapp/: the closed loop of the pipeline at concrete inputs.

use preceptual_ai_5g_dynamic.Prelude.{
  List, Option, String, [], arith, false, if◌then◌else◌, leb, none, refl, some, suc, true, zero, ℕ,
  ◌++◌, ◌∷◌, ◌≡◌, ◌≤◌, ◌<◌, ◌↔◌, ◌⊎◌,
}
use preceptual_ai_5g_dynamic.Prelude.Int.{negsuc, pos, ◌≤ℤ◌}
use preceptual_ai_5g_dynamic.Prelude.Flt.{lit}
use preceptual_ai_5g_dynamic.Prelude.Outcome.{Outcome, ok, raised}
use preceptual_ai_5g_dynamic.Shield.Action.{number}
use preceptual_ai_5g_dynamic.Guards.{
  guard_shield_certificate_safe, guard_predicted_outcome_pretrained,
  guard_decision_within_a1_budget, guard_corrections_recorded,
}
use preceptual_ai_5g_dynamic.Breaker.{is_failure, timeout}
use preceptual_ai_5g_dynamic.Breaker.Call.{CircuitLib, Reply, answered, call_each, failed}
use preceptual_ai_5g_dynamic.Breaker.Trips.{CountsFailures, Fails, trips_and_shields}
use preceptual_ai_5g_dynamic.A1.Urls.{A1AdapterConfig, osc, put_request}
use preceptual_ai_5g_dynamic.A1.Emit.{
  A1Adapter, A1Lib, emit_policy, env_truthy, not_emitted, refused, unclean,
}
use preceptual_ai_5g_dynamic.A1.Json.{Json, text}
use preceptual_ai_5g_dynamic.A1.Meaning.{Meaning, emit_policy-Meaning}
use preceptual_ai_5g_dynamic.Evidence.{Codec, Entry, or_else, verify}
use preceptual_ai_5g_dynamic.Alarms.{X733AlarmBus, new_bus}
use preceptual_ai_5g_dynamic.Pipeline.Files.{
  Reaches, after_event, at_start, events-verify, jsonl_append,
}
use preceptual_ai_5g_dynamic.Shield.Certificate.{SafetyCertificate}
use preceptual_ai_5g_dynamic.Pipeline.Decide.{PipelineConfig, TelemetryEvent, shield_action}
use preceptual_ai_5g_dynamic.Pipeline.Records.{Decision, Verdict, decide, is_blocked}
use preceptual_ai_5g_dynamic.Pipeline.Poll.{
  PollState, StatusReply, attempts_of, get_failed, null, poll_enforcement, status_object, truthy,
}
use preceptual_ai_5g_dynamic.Pipeline.Polls.{Honest, counting, poll_bounds}
use preceptual_ai_5g_dynamic.Pipeline.Conforms.{all_conform, conforms, planned, planner_types}
use preceptual_ai_5g_dynamic.Pipeline.Nominal.{IsBand, decide_nominal, least_ceiling}
use preceptual_ai_5g_dynamic.Pipeline.State.{Loop, Parts, PipelineResult, RunInput}
use preceptual_ai_5g_dynamic.Pipeline.Process.{process_event}
use preceptual_ai_5g_dynamic.Pipeline.Accepted.{IsClean, process_event-accepted}
use preceptual_ai_5g_dynamic.Pipeline.Audited.{Filed, process_event-Filed}
use preceptual_ai_5g_dynamic.Pipeline.Planner.{clamp_risk, risk_of, candidates, choose, one_risk}
use preceptual_ai_5g_dynamic.Prelude.Dict.{lookup, insert}
use preceptual_ai_5g_dynamic.Pipeline.Records.{payload_at}
use preceptual_ai_5g_dynamic.Shield.Dispose.{
  block_name, caught, certify, changed_to_classical, check, dispose, is_some, or_rejected, passes,
  project_or_block, project_pass, unsatisfied, ids_of,
}
use preceptual_ai_5g_dynamic.Shield.Numeric.{
  bad_order, bad_papr, bad_ratio, evaluate_sanity, is_missing, is_negative, not_positive, number_of,
  numeric_sanity, outside_unit, present_and_bad, problems,
}
use preceptual_ai_5g_dynamic.Shield.Spectrum.{
  edges, eirp_of, evaluate_eirp, evaluate_mask, mask_margin, max_eirp_invariant, spectral_mask,
}
use preceptual_ai_5g_dynamic.Shield.Phy.{
  block_text, evaluate_neural, is_neural_rx, neural_rx_envelope,
}
use preceptual_ai_5g_dynamic.Shield.Chain.{intercept_chain, terrestrial_chain}
use preceptual_ai_5g_dynamic.Shield.Constellation.{
  applies, constellation_legality, evaluate_constellation,
}
use preceptual_ai_5g_dynamic.Prelude.Flt.{
  add_flt, double_flt, eq_flt, is_finite, le_flt, lt_flt, max_flt, min_flt, neg_flt, sub_flt,
}
use preceptual_ai_5g_dynamic.Shield.Action.{float_or, to_float}
use preceptual_ai_5g_dynamic.Prelude.Int.{◌+ℤ◌, ◌-ℤ◌}
use preceptual_ai_5g_dynamic.Prelude.Sorted.{sorted}
use preceptual_ai_5g_dynamic.A1.Emit.{default_policy_types}

-- a breaker that opens at the third failure in a row
record Fuse : Type 0 where
  state : String
  failures : ℕ
  since : Option ℕ

abbrev blow : ℕ → Fuse → Fuse
blow now f =
    if leb 3 (suc f.failures)
    then record { state = "open"; failures = suc f.failures; since = some now }
    else record f { failures = suc f.failures }

abbrev fuse : CircuitLib Fuse
fuse = record {
  current_state = λ f. f.state;
  opened_at = λ f. f.since;
  reset_timeout = λ f. 30;
  half_open = λ f. record f { state = "half-open"; failures = 2 };
  handle_error = λ now e f. blow now f;
  handle_success = λ f. record { state = "closed"; failures = 0; since = none };
}

abbrev new_fuse : Fuse
new_fuse = record { state = "closed"; failures = 0; since = none }

abbrev event : TelemetryEvent
event = record {
  event_id = "ev-1";
  source_id = "cell-7";
  sla_risk_30s = some (number (lit 450000000));
}

abbrev run_input : RunInput
run_input = record {
  decision_id = "d-1";
  seed = 7;
  elapsed_ms = lit 40;
  dry_run = none;
  surroundings = record { start = 100; finish = 101; uuid = "u-1"; require_cert = some "1" };
}

abbrev loop_config : PipelineConfig
loop_config = record {
  band_lo = pos 3400000000;
  band_hi = pos 3500000000;
  max_eirp = pos 3300;
  decision_budget_ms = lit 1000;
  status_poll_attempts = pos 3;
}

abbrev osc_config : A1AdapterConfig
osc_config = record {
  dialect = osc;
  rapp_id = "rapp";
  osc_ric_id = "ric";
  osc_service_id = "rapp";
  eiap_ric_id = "ric";
  mantaray_ric_id = "ric";
}

-- a RIC that counts the requests and accepts every one, and a log for a store
abbrev ric : A1Lib Fuse ℕ (List Decision) Decision
ric = record {
  circuit = fuse;
  send = λ request n. (answered 201, suc n);
  store_append = λ d s. (ok tt, s ++ d ∷ []);
  text_of = λ n. "20002";
  normal = λ t. t;
}

abbrev loop_parts : Parts Fuse ℕ (List Decision)
loop_parts = record {
  lib = ric;
  get_status = λ url n. (status_object (truthy "ENFORCED") null null, n);
  ratio_db = λ base measured. ok (lit 0);
  a1_cfg = osc_config;
  cfg = loop_config;
}

abbrev adapter : A1Adapter Fuse ℕ (List Decision)
adapter = record {
  breaker = new_fuse;
  channel = 0;
  store = [];
  attached = true;
  policies_emitted = 0;
  records_persisted = 0;
}

abbrev idle_loop : Loop Fuse ℕ (List Decision)
idle_loop = record {
  a1 = adapter;
  decisions_blocked = [];
  a1_emit_failures = 0;
  dry_run_decisions = 0;
  policy_enforced = [];
}

abbrev or_default {ℓ} : {A : Type ℓ} → A → Outcome A → A
or_default a (ok b) = b
or_default a (raised e) = a

abbrev no_result : PipelineResult
no_result = record {
  decision_id = "";
  event_id = "";
  policy_type = "";
  policy_id = none;
  accepted = false;
  http_status = none;
  enforcement_status = none;
  enforced = none;
  blocked = false;
  block_reasons = [];
  emit_failed = false;
  evidence_persist_failed = false;
  dry_run = false;
}

loop_done : Outcome PipelineResult × Loop Fuse ℕ (List Decision)
unfolding process_event guard_shield_certificate_safe guard_predicted_outcome_pretrained
    guard_decision_within_a1_budget guard_corrections_recorded risk_of candidates choose lookup
    insert payload_at block_name caught certify changed_to_classical check dispose is_some
    or_rejected passes project_or_block project_pass unsatisfied ids_of bad_order bad_papr bad_ratio
    evaluate_sanity is_missing is_negative not_positive number_of numeric_sanity outside_unit
    present_and_bad problems edges eirp_of evaluate_eirp evaluate_mask mask_margin
    max_eirp_invariant spectral_mask block_text evaluate_neural is_neural_rx neural_rx_envelope
    intercept_chain terrestrial_chain applies constellation_legality evaluate_constellation add_flt
    double_flt eq_flt is_finite le_flt lt_flt max_flt min_flt neg_flt sub_flt float_or to_float ◌+ℤ◌
    ◌-ℤ◌ sorted default_policy_types
loop_done = process_event loop_parts run_input event idle_loop

abbrev no_certificate : Option (SafetyCertificate ℕ)
no_certificate = none

abbrev result : PipelineResult
result = or_default no_result (process_event loop_parts run_input event idle_loop).0

loop_runs :
    process_event loop_parts run_input event idle_loop
    ≡ (ok result, (process_event loop_parts run_input event idle_loop).1)
unfolding loop_done
loop_runs = refl

loop_accepts : result.accepted ≡ true
unfolding loop_done
loop_accepts = refl

process_event-accepted_example :
    (v : Verdict) × (decide loop_parts.ratio_db loop_config event "d-1" 7 (lit 40) ≡ ok v)
    × IsClean loop_parts run_input event idle_loop v
process_event-accepted_example =
    process_event-accepted loop_parts run_input event idle_loop
      (process_event loop_parts run_input event idle_loop).1 result loop_runs loop_accepts

band : IsBand loop_config
unfolding ◌+ℤ◌
band = (omega arith, omega arith)

reads : risk_of event.sla_risk_30s ≡ ok 450000000
unfolding risk_of clamp_risk
reads = refl

decide_nominal_example :
    (v : Verdict) × (decide loop_parts.ratio_db loop_config event "d-1" 7 (lit 40) ≡ ok v)
    × (v.policy_type ≡ choose 450000000)
    × (v.disposition.safe_action ≡ shield_action loop_config)
    × (v.disposition.certificate.safe ≡ true)
    × (v.disposition.certificate.projected ≡ false)
    × ((is_blocked v ≡ false) ↔ ((le_flt (lit 40) (lit 1000) ≡ true) × (least_ceiling ≤ℤ pos 3300)))
decide_nominal_example =
    decide_nominal loop_parts.ratio_db loop_config event "d-1" 7 (lit 40) 450000000 band reads

verdict : (v : Verdict) × (decide loop_parts.ratio_db loop_config event "d-1" 7 (lit 40) ≡ ok v)
verdict = (decide_nominal_example.0, decide_nominal_example.1)

process_event-Filed_example :
    Filed loop_parts "d-1" [] (process_event loop_parts run_input event idle_loop)
process_event-Filed_example =
    process_event-Filed loop_parts run_input event verdict.0 idle_loop (λ d s. refl) refl verdict.1

planner_types_example :
    (450000000 ≤ one_risk)
    × (all_conform (candidates "cell-7" 450000000 "d-1") ≡ true)
    × ((payload : Json) × (planned "cell-7" 450000000 "d-1" ≡ some payload)
        × (conforms (choose 450000000) payload ≡ true))
planner_types_example = planner_types "cell-7" "d-1" event.sla_risk_30s 450000000 reads

-- a RIC that enforces a policy at the second request
abbrev slow : ℕ → StatusReply × ℕ
slow zero = (get_failed timeout, 1)
slow (suc n) = (status_object null (truthy "IN EFFECT") null, suc n)

poll_bounds_example :
    (1 ≤ (poll_enforcement (counting slow) (pos 3) (0, 0)).1.1)
    × ((poll_enforcement (counting slow) (pos 3) (0, 0)).1.1 ≤ attempts_of (pos 3))
    × ((q : PollState) (w' : ℕ) → poll_enforcement slow (pos 3) 0 ≡ (ok q, w') → Honest q)
poll_bounds_example = poll_bounds slow (pos 3) 0

emit_policy-Meaning_example :
    let done =
      emit_policy ric osc_config default_policy_types "horizon.qos.priority"
        (text "p")
        none
        none
        no_certificate
        run_input.surroundings
        adapter in
    (lookup "horizon.qos.priority" default_policy_types ≡ none
      → done ≡ (not_emitted refused, adapter))
    × (env_truthy ric.normal (some "1") ≡ true
        → unclean no_certificate ≡ true
        → done ≡ (not_emitted refused, adapter))
    × ((done ≡ (not_emitted refused, adapter))
        ⊎ ((type_id : ℕ) × (lookup "horizon.qos.priority" default_policy_types ≡ some type_id)
            × Meaning ric
                (put_request osc_config (ric.text_of type_id) (or_else none "u-1") (text "p"))
                (or_else none "u-1")
                none
                done.0
                adapter
                done.1))
emit_policy-Meaning_example =
    emit_policy-Meaning ric osc_config default_policy_types "horizon.qos.priority" (text "p") none
      none no_certificate run_input.surroundings adapter

fuse_counts_one :
    (f : Fuse) (now : ℕ)
    → f.state ≡ "closed"
    → suc f.failures < 3
    → ((blow now f).state ≡ "closed") × ((blow now f).failures ≡ suc f.failures)
fuse_counts_one f now h room = ground arith

fuse_blows :
    (f : Fuse) (now : ℕ)
    → 3 ≤ suc f.failures
    → ((blow now f).state ≡ "open") × ((blow now f).since ≡ some now)
fuse_blows f now full = ground arith

abbrev fuse_counts : CountsFailures fuse
fuse_counts = record {
  fail_counter = λ f. f.failures;
  fail_max = λ f. 3;
  error_counts = λ f now e h room. let (s, n) = fuse_counts_one f now h room in (s, n, refl, refl);
  error_opens = λ f now e h full. let (s, t) = fuse_blows f now full in (s, t, refl);
  success_clears = λ f h. (refl, refl, refl);
}

dead_link : ℕ → Reply ℕ × ℕ
dead_link n = (failed timeout, suc n)

dead_link-Fails : Fails fuse dead_link
unfolding dead_link is_failure
dead_link-Fails n = (timeout, refl, refl)

abbrev three : List (ℕ × ℕ)
three = (2, 3) ∷ (4, 5) ∷ []

trips_and_shields_example :
    (fuse.current_state (call_each fuse dead_link ((0, 1) ∷ three) new_fuse 0).0 ≡ "open")
    × (call_each fuse dead_link ((0, 1) ∷ three ++ (20, 21) ∷ []) new_fuse 0
        ≡ call_each fuse dead_link ((0, 1) ∷ three) new_fuse 0)
trips_and_shields_example =
    trips_and_shields fuse dead_link fuse_counts (0, 1) three ((20, 21) ∷ []) new_fuse 0
      dead_link-Fails refl refl (omega arith)

abbrev file_codec : Codec Decision
file_codec = record {
  fromhex = λ h. some [];
  encode = λ p. [];
  hexdigest = λ bs. "0";
  canonical_json = λ r. "{}";
  text_of = λ n. "n";
}

-- the store of the loop is a file of entries
abbrev file_parts : Parts Fuse ℕ (List (Entry Decision))
file_parts = record {
  lib = record {
    circuit = fuse;
    send = λ request n. (answered 201, suc n);
    store_append = jsonl_append file_codec none;
    text_of = λ n. "20002";
    normal = λ t. t;
  };
  get_status = λ url n. (status_object (truthy "ENFORCED") null null, n);
  ratio_db = λ base measured. ok (lit 0);
  a1_cfg = osc_config;
  cfg = loop_config;
}

abbrev file_loop : Loop Fuse ℕ (List (Entry Decision))
file_loop = record {
  a1 = record {
    breaker = new_fuse;
    channel = 0;
    store = [];
    attached = true;
    policies_emitted = 0;
    records_persisted = 0;
  };
  decisions_blocked = [];
  a1_emit_failures = 0;
  dry_run_decisions = 0;
  policy_enforced = [];
}

abbrev quiet_bus : X733AlarmBus ℕ
quiet_bus = new_bus

events-verify_example :
    let m = process_event file_parts run_input event file_loop in
    let n = process_event file_parts run_input event m.1 in
    (verify file_codec none n.1.a1.store (record { alarm_id = "a"; event_time = 0 }) quiet_bus 0).0
    ≡ ok (negsuc 0)
events-verify_example =
    let first : Reaches file_parts file_loop
        (process_event file_parts run_input event file_loop).1 =
      after_event run_input event file_loop at_start in
    events-verify file_parts file_codec none file_loop _ (record { alarm_id = "a"; event_time = 0 })
      quiet_bus 0 (record { zero_reads = ([], refl); digest_reads = λ xs. ([], refl) })
      (λ d es. refl) refl (after_event run_input event _ first)
