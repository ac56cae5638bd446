-- ===== src/Breaker.antt =====
-- runtime/circuit_breaker.py: the listener that turns the state changes of a breaker into alarms,
-- and the test of which exceptions count. The breaker itself is pybreaker's; the count of failures
-- that its events carry is given as a text.
pub mod Alerts
pub mod Call
pub mod Trips
use preceptual_ai_5g_dynamic.Prelude.{
  Bool, Option, String, [], false, if◌then◌else◌, leb, ltb, none, some, str_eq, true, ℕ, ◌&&◌, ◌++◌,
  ◌∷◌,
}
use preceptual_ai_5g_dynamic.Prelude.Dict.{Dict}
use preceptual_ai_5g_dynamic.Alarms.{Stamp, X733AlarmBus, emit_event}

-- the `name` of a breaker's state
unfoldable pub old_name : Option String → String
old_name none = "init"
old_name (some s) = s

-- the exceptions that `_is_failure` tells apart: a status error with its code, the classes it names,
-- any other error of httpx, and everything else
pub data CallError : Type 0 where
  status_error : ℕ → CallError
  timeout connect_error network_error remote_protocol_error : CallError
  other_http_error not_http : CallError

unfoldable pub is_failure : CallError → Bool
is_failure (status_error code) = leb 500 code && ltb code 600
is_failure timeout = true
is_failure connect_error = true
is_failure network_error = true
is_failure remote_protocol_error = true
is_failure other_http_error = true
is_failure not_http = false

module _ {ℓ} {W : Type ℓ} where
  unfoldable pub raise_event :
      String → Dict String → Stamp → X733AlarmBus W → W → X733AlarmBus W × W
  raise_event name info stamp bus w =
      let (_, bus', w') = emit_event name info none stamp bus w in (bus', w')

  -- `_BreakerLogger.state_change`, of the breaker called `breaker`
  unfoldable pub state_change :
      (breaker : String) (old : Option String) (new fail_counter : String)
      → Stamp
      → X733AlarmBus W
      → W
      → X733AlarmBus W × W
  unfolding old_name raise_event
  state_change breaker old new fail_counter stamp bus w =
      let info : Dict String = ("breaker", breaker) ∷ ("from_state", old_name old) ∷ [] in
      let counted : Dict String = info ++ ("fail_counter", fail_counter) ∷ [] in
      if str_eq new "open"
      then raise_event "horizon.cb.opened" counted stamp bus w
      else if str_eq new "half-open"
      then raise_event "horizon.cb.half_open" info stamp bus w
      else if str_eq new "closed"
      then raise_event "horizon.cb.closed" info stamp bus w
      else (bus, w)
