-- ===== src/Degradation.antt =====
-- runtime/graceful_degradation.py: the controller of the degraded modes. `P` is what a policy
-- payload is, `R` an evidence record or a decision. Clock readings are arguments; the lines that
-- `buffer_evidence` adds to its file are the records themselves. The lock makes each method one
-- step.
pub mod Modes
pub mod Buffers
use preceptual_ai_5g_dynamic.Prelude.{
  Bool, List, Option, String, [], false, if◌then◌else◌, length, none, some, ℕ, ◌&&◌, ◌++◌, ◌==◌,
  ◌∷◌,
}
use preceptual_ai_5g_dynamic.Prelude.Dict.{Dict, insert, lookup}
use preceptual_ai_5g_dynamic.Alarms.{Stamp, X733AlarmBus, emit_event}

pub data DegradedState : Type 0 where
  normal keep_last_good buffer_to_tmp hold_output : DegradedState

pub data FailureMode : Type 0 where
  smo_unreachable evidence_store_down telemetry_dropped : FailureMode

-- `_FAILURE_TO_STATE`
unfoldable pub failure_to_state : FailureMode → DegradedState
failure_to_state smo_unreachable = keep_last_good
failure_to_state evidence_store_down = buffer_to_tmp
failure_to_state telemetry_dropped = hold_output

unfoldable pub state_tag : DegradedState → ℕ
state_tag normal = 0
state_tag keep_last_good = 1
state_tag buffer_to_tmp = 2
state_tag hold_output = 3

unfoldable pub mode_tag : FailureMode → ℕ
mode_tag smo_unreachable = 0
mode_tag evidence_store_down = 1
mode_tag telemetry_dropped = 2

-- the `.value` of each
unfoldable pub state_value : DegradedState → String
state_value normal = "normal"
state_value keep_last_good = "keep_last_good"
state_value buffer_to_tmp = "buffer_to_tmp"
state_value hold_output = "hold_output"

unfoldable pub mode_value : FailureMode → String
mode_value smo_unreachable = "smo_unreachable"
mode_value evidence_store_down = "evidence_store_down"
mode_value telemetry_dropped = "telemetry_dropped"

pub record LastGood (P : Type 0) : Type 0 where
  pub policy_id : String
  pub payload : P
  pub ts : ℕ

pub record Controller (P R : Type 0) : Type 0 where
  pub state : DegradedState
  pub failure_mode : Option FailureMode
  pub entered_at : Option ℕ
  pub last_good_policies : Dict (LastGood P)
  pub held_decisions : List R
  pub buffered_evidence : List R
  pub tmp_buffer : List R

pub record DegradationSnapshot : Type 0 where
  pub snap_state : String
  pub snap_failure_mode : Option String
  pub snap_entered_at : Option ℕ
  pub last_good_count : ℕ
  pub buffered_evidence_count : ℕ
  pub held_count : ℕ

abbrev mode_text : Option FailureMode → Option String
mode_text none = none
mode_text (some m) = some (mode_value m)

-- `prev_mode.value if prev_mode else None`, as a text of the alarm
abbrev mode_info : Option FailureMode → String
mode_info none = "None"
mode_info (some m) = mode_value m

-- `self._failure_mode == mode`
unfoldable pub same_mode : Option FailureMode → FailureMode → Bool
unfolding mode_tag
same_mode none m = false
same_mode (some n) m = mode_tag n == mode_tag m

module _ {P R : Type 0} where
  unfoldable pub new_controller : List R → Controller P R
  new_controller file = record {
    state = normal;
    failure_mode = none;
    entered_at = none;
    last_good_policies = [];
    held_decisions = [];
    buffered_evidence = [];
    tmp_buffer = file;
  }

  unfoldable pub is_serving : Controller P R → Bool
  unfolding state_tag
  is_serving c = state_tag c.state == 0

  unfoldable pub snapshot : Controller P R → DegradationSnapshot
  unfolding state_value mode_value
  snapshot c = record {
    snap_state = state_value c.state;
    snap_failure_mode = mode_text c.failure_mode;
    snap_entered_at = c.entered_at;
    last_good_count = length c.last_good_policies;
    buffered_evidence_count = length c.buffered_evidence;
    held_count = length c.held_decisions;
  }

  -- the test of `enter` that makes it idempotent
  unfoldable pub already_in : FailureMode → Controller P R → Bool
  unfolding state_tag failure_to_state same_mode
  already_in mode c =
      state_tag c.state == state_tag (failure_to_state mode) && same_mode c.failure_mode mode

  unfoldable pub entered : FailureMode → ℕ → Controller P R → Controller P R
  unfolding failure_to_state
  entered mode now c = record c {
    state = failure_to_state mode;
    failure_mode = some mode;
    entered_at = some now;
  }

  unfoldable pub recovered : Controller P R → Controller P R
  recovered c = record c { state = normal; failure_mode = none; entered_at = none }

  unfoldable pub record_last_good_policy : String → String → P → ℕ → Controller P R → Controller P R
  record_last_good_policy policy_type policy_id payload now c = record c {
    last_good_policies =
        insert policy_type (record { policy_id = policy_id; payload = payload; ts = now })
          c.last_good_policies;
  }

  unfoldable pub get_last_good_policy : String → Controller P R → Option (LastGood P)
  get_last_good_policy policy_type c = lookup policy_type c.last_good_policies

  unfoldable pub buffer_evidence : R → Controller P R → Controller P R
  buffer_evidence r c = record c {
    buffered_evidence = c.buffered_evidence ++ r ∷ [];
    tmp_buffer = c.tmp_buffer ++ r ∷ [];
  }

  unfoldable pub hold_decision : R → Controller P R → Controller P R
  hold_decision r c = record c { held_decisions = c.held_decisions ++ r ∷ [] }

  unfoldable pub drain_buffered_evidence : Controller P R → List R × Controller P R
  drain_buffered_evidence c = (c.buffered_evidence, record c { buffered_evidence = [] })

  unfoldable pub drain_held_decisions : Controller P R → List R × Controller P R
  drain_held_decisions c = (c.held_decisions, record c { held_decisions = [] })

module _ {ℓ} {P R : Type 0} {W : Type ℓ} where
  -- `enter` and `recover` also emit an alarm on the bus
  unfoldable pub enter :
      FailureMode
      → String
      → ℕ
      → Stamp
      → Controller P R
      → X733AlarmBus W
      → W
      → DegradedState × Controller P R × X733AlarmBus W × W
  unfolding already_in entered state_value mode_value
  enter mode reason now stamp c bus w =
      if already_in mode c
      then (failure_to_state mode, c, bus, w)
      else let info : Dict String =
          ("from_state", state_value c.state)
          ∷ ("to_state", state_value (failure_to_state mode))
          ∷ ("failure_mode", mode_value mode)
          ∷ ("reason", reason)
          ∷ [] in
        let (_, bus', w') = emit_event "horizon.degraded.entered" info none stamp bus w in
        (failure_to_state mode, entered mode now c, bus', w')

  unfoldable pub recover :
      String
      → Stamp
      → Controller P R
      → X733AlarmBus W
      → W
      → DegradedState × Controller P R × X733AlarmBus W × W
  unfolding is_serving recovered state_value mode_value
  recover reason stamp c bus w =
      if is_serving c
      then (c.state, c, bus, w)
      else let info : Dict String =
          ("from_state", state_value c.state)
          ∷ ("failure_mode", mode_info c.failure_mode)
          ∷ ("reason", reason)
          ∷ [] in
        let (_, bus', w') = emit_event "horizon.degraded.recovered" info none stamp bus w in
        (normal, recovered c, bus', w')
