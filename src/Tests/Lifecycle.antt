-- ===== src/Tests/Lifecycle.antt =====
-- runtime/ and observability/: the lifecycle machine, the alarm bus and the degraded modes at
-- concrete inputs.
use preceptual_ai_5g_dynamic.Prelude.{List, Option, String, [], none, refl, some, suc, ℕ, ◌∷◌, ◌≡◌}
use preceptual_ai_5g_dynamic.Prelude.Dict.{Dict}
use preceptual_ai_5g_dynamic.Prelude.Outcome.{ok}
use preceptual_ai_5g_dynamic.LoopState.{
  LoopState, Machine, Request, SinkFn, StateTransition, emit_to, idle, monitor, new_machine,
  promote, retrain, run, validate,
}
use preceptual_ai_5g_dynamic.LoopState.Transition.{start, ◌⟶◌}
use preceptual_ai_5g_dynamic.LoopState.History.{IsChain, IsGated, run-IsGated}
use preceptual_ai_5g_dynamic.Alarms.{Stamp, X733AlarmBus, X733Severity, find_active, new_bus}
use preceptual_ai_5g_dynamic.Alarms.Registry.{
  IsConsistent, emit_all, emit_all-IsConsistent, standing,
}
use preceptual_ai_5g_dynamic.Degradation.{Controller, evidence_store_down, new_controller}
use preceptual_ai_5g_dynamic.Degradation.Modes.{
  Call, buffer_call, drain_buffer_call, enter_call, hold_call, recover_call,
}

abbrev to_state : LoopState → Request
to_state s = record { new_state = s; reason = "drift"; actor = none; model_sha = none; now = 5 }

-- the third is illegal
abbrev requests : List Request
requests = to_state retrain ∷ to_state validate ∷ to_state monitor ∷ to_state promote ∷ []

abbrev counting : Option (SinkFn ℕ)
counting = some (λ t n. (ok tt, suc n))

abbrev fresh : Machine
fresh = new_machine idle "system"

fresh-IsChain : IsChain idle fresh.entries fresh.state
unfolding new_machine
fresh-IsChain = refl

run-IsGated_example : IsGated (run counting requests fresh 0).0.entries
run-IsGated_example = run-IsGated counting requests idle "system" 0

fresh_start : fresh.state ⟶ retrain
unfolding new_machine
fresh_start = start

accepts : (t : StateTransition) → (emit_to counting t 0).0 ≡ ok tt
unfolding emit_to
accepts t = refl

abbrev noon : Stamp
noon = record { alarm_id = "alarm-1"; event_time = 12 }

abbrev empty_bus : X733AlarmBus ℕ
empty_bus = new_bus

abbrev events : List (String × Dict String × Option X733Severity × Stamp)
events =
    ("horizon.degraded.entered", [], none, noon)
    ∷ ("horizon.unknown", [], none, noon)
    ∷ ("horizon.degraded.recovered", [], none, noon)
    ∷ []

new_bus-IsConsistent : IsConsistent empty_bus
unfolding new_bus find_active standing
new_bus-IsConsistent k = refl

emit_all-IsConsistent_example : IsConsistent (emit_all events empty_bus 0).0
emit_all-IsConsistent_example = emit_all-IsConsistent events empty_bus 0 new_bus-IsConsistent

abbrev outage : List (Call ℕ ℕ)
outage =
    enter_call evidence_store_down "disk full" 3 noon
    ∷ buffer_call 41
    ∷ hold_call 7
    ∷ drain_buffer_call
    ∷ buffer_call 42
    ∷ recover_call "disk back" noon
    ∷ []

abbrev serving : Controller ℕ ℕ
serving = new_controller []
