-- ===== src/Degradation/Modes.antt =====
-- runtime/graceful_degradation.py: the modes and their alarm.

use preceptual_ai_5g_dynamic.Prelude.{
  List, Option, String, [], false, none, refl, some, true, ℕ, ◌∷◌, ◌≡◌,
}
use preceptual_ai_5g_dynamic.Alarms.{
  AlarmKey, AlarmSpec, Stamp, X733Alarm, X733AlarmBus, cleared, find_active, major, new_bus, qos,
  spec,
}
use preceptual_ai_5g_dynamic.Degradation.{
  Controller, DegradedState, FailureMode, buffer_evidence, drain_buffered_evidence,
  drain_held_decisions, enter, failure_to_state, hold_decision, is_serving, new_controller, normal,
  record_last_good_policy, recover,
}

-- The methods of the controller, with what a call passes to each.
pub data Call (P R : Type 0) : Type 0 where
  enter_call : FailureMode → String → ℕ → Stamp → Call P R
  recover_call : String → Stamp → Call P R
  last_good_call : String → String → P → ℕ → Call P R
  buffer_call : R → Call P R
  hold_call : R → Call P R
  drain_buffer_call : Call P R
  drain_held_call : Call P R

module _ {ℓ} {P R : Type 0} {W : Type ℓ} where
  unfoldable pub perform :
      Call P R → Controller P R → X733AlarmBus W → W → Controller P R × X733AlarmBus W × W
  perform (enter_call mode reason now stamp) c bus w =
      let (_, c', bus', w') = enter mode reason now stamp c bus w in (c', bus', w')
  perform (recover_call reason stamp) c bus w =
      let (_, c', bus', w') = recover reason stamp c bus w in (c', bus', w')
  perform (last_good_call t i p now) c bus w = (record_last_good_policy t i p now c, bus, w)
  perform (buffer_call r) c bus w = (buffer_evidence r c, bus, w)
  perform (hold_call r) c bus w = (hold_decision r c, bus, w)
  perform drain_buffer_call c bus w = ((drain_buffered_evidence c).1, bus, w)
  perform drain_held_call c bus w = ((drain_held_decisions c).1, bus, w)

  unfoldable pub perform_all :
      List (Call P R) → Controller P R → X733AlarmBus W → W → Controller P R × X733AlarmBus W × W
  perform_all [] c bus w = (c, bus, w)
  perform_all (k ∷ ks) c bus w = let (c', bus', w') = perform k c bus w in perform_all ks c' bus' w'

abbrev pub degraded_key : AlarmKey
degraded_key = record { key_instance = "rApp/horizon_ric"; key_type = qos; key_cause = "qosAlarm" }

abbrev pub Standing : Option X733Alarm → Type 0
Standing none = ⊥
Standing (some _) = Unit

-- State, mode and time of entry agree: none of the latter in NORMAL, and otherwise the mode whose
-- state the table names.
abbrev pub Agree : DegradedState → Option FailureMode → Option ℕ → Type 0
Agree s none none = s ≡ normal
Agree s (some m) (some _) = s ≡ failure_to_state m
Agree s none (some _) = ⊥
Agree s (some _) none = ⊥

-- What coherence asks: state, failure mode and time of entry agree, and the degradation alarm stands on
-- the bus exactly while the rApp does not serve.
pub record IsCoherent {ℓ} {P R : Type 0} {W : Type ℓ} (c : Controller P R) (bus : X733AlarmBus W)
    : Type 0 where
  pub agree : Agree c.state c.failure_mode c.entered_at
  pub alarmed : is_serving c ≡ false → Standing (find_active degraded_key bus.active)
  pub quiet : is_serving c ≡ true → find_active degraded_key bus.active ≡ none

abbrev entered_spec : AlarmSpec
entered_spec = spec qos "qosAlarm" major "rApp entered graceful-degradation mode"

abbrev recovered_spec : AlarmSpec
recovered_spec = spec qos "qosAlarm" cleared "rApp recovered from graceful-degradation mode"

module _ {ℓ} {P R : Type 0} {W : Type ℓ} where
  -- A new controller and a new bus are coherent.
  pub new-IsCoherent : (file : List R) → IsCoherent (new_controller {P = P} file) (new_bus {W = W})
  unfolding new_controller new_bus find_active is_serving
  new-IsCoherent file = record { agree = refl; alarmed = λ e. cc; quiet = λ _. refl }
