-- ===== src/Alarms.antt =====
-- observability/x733_alarms.py: alarms, the table of events, and the bus with its registry of
-- active alarms. A subscriber reads and writes a state `W` of its own and may raise. The fresh
-- alarm id and the clock reading are arguments.
pub mod Registry
use preceptual_ai_5g_dynamic.Prelude.{
  Bool, List, Option, String, [], false, if◌then◌else◌, none, some, str_eq, true, ℕ, ◌&&◌, ◌++◌,
  ◌==◌, ◌∷◌,
}
use preceptual_ai_5g_dynamic.Prelude.Outcome.{Outcome, key_error, ok, raised}
use preceptual_ai_5g_dynamic.Prelude.Dict.{Dict, lookup}

pub data X733AlarmType : Type 0 where
  communications qos processing_error equipment environmental : X733AlarmType

pub data X733Severity : Type 0 where
  cleared indeterminate critical major minor warning : X733Severity

-- the two fields that `X733Alarm` gives a fresh value
pub record Stamp : Type 0 where
  pub alarm_id : String
  pub event_time : ℕ

pub record X733Alarm : Type 0 where
  pub stamp : Stamp
  pub managed_object_instance : String
  pub alarm_type : X733AlarmType
  pub probable_cause : String
  pub perceived_severity : X733Severity
  pub specific_problem : String
  pub additional_text : String
  pub additional_information : Dict String

unfoldable pub is_clearing : X733Alarm → Bool
is_clearing a = elim a.perceived_severity [ cleared ↦ true | _ ↦ false ]

-- an entry of `_FAILURE_MAP`
pub record AlarmSpec : Type 0 where
  pub spec_type : X733AlarmType
  pub spec_cause : String
  pub spec_severity : X733Severity
  pub spec_problem : String

abbrev pub spec : X733AlarmType → String → X733Severity → String → AlarmSpec
spec t c s p = record { spec_type = t; spec_cause = c; spec_severity = s; spec_problem = p }

unfoldable pub failure_map : Dict AlarmSpec
failure_map =
    (
      "horizon.cb.opened",
      spec processing_error "internalServiceFailure" major
          "Circuit breaker opened on dependency call",
    )
    ∷ (
      "horizon.cb.half_open",
      spec processing_error "internalServiceFailure" warning
          "Circuit breaker entered HALF_OPEN probe state",
    )
    ∷ (
      "horizon.cb.closed",
      spec processing_error "internalServiceFailure" cleared "Circuit breaker recovered to CLOSED",
    )
    ∷ (
      "horizon.degraded.entered",
      spec qos "qosAlarm" major "rApp entered graceful-degradation mode",
    )
    ∷ (
      "horizon.degraded.recovered",
      spec qos "qosAlarm" cleared "rApp recovered from graceful-degradation mode",
    )
    ∷ (
      "horizon.evidence.tamper_detected",
      spec processing_error "softwareError" critical "Audit chain SHA-256 verification failed",
    )
    ∷ (
      "horizon.evidence.append_failed",
      spec processing_error "storageError" major "Append to evidence store failed",
    )
    ∷ (
      "horizon.watchdog.failed",
      spec equipment "equipmentFailure" critical "Liveness watchdog timeout",
    )
    ∷ ("horizon.sla.breach", spec qos "thresholdCrossed" major "SLA breach predicted")
    ∷ (
      "horizon.auth.denied",
      spec processing_error "authenticationFailure" minor
          "Authentication denied at security middleware",
    )
    ∷ (
      "horizon.a1.emit_refused",
      spec communications "callEstablishmentError" major "A1 policy emit refused by guard chain",
    )
    ∷ []

-- `severity_override or spec["perceived_severity"]`
unfoldable pub or_severity : Option X733Severity → X733Severity → X733Severity
or_severity none s = s
or_severity (some o) s = o

unfoldable pub alarm_of :
    String → Dict String → Option X733Severity → Stamp → Option AlarmSpec → Outcome X733Alarm
unfolding or_severity
alarm_of name info override stamp none = raised key_error
alarm_of name info override stamp (some s) = ok (record {
  stamp = stamp;
  managed_object_instance = "rApp/horizon_ric";
  alarm_type = s.spec_type;
  probable_cause = s.spec_cause;
  perceived_severity = or_severity override s.spec_severity;
  specific_problem = s.spec_problem;
  additional_text = name;
  additional_information = info;
})

unfoldable pub map_event_to_alarm :
    String → Dict String → Option X733Severity → Stamp → Outcome X733Alarm
unfolding alarm_of
map_event_to_alarm name info override stamp =
    alarm_of name info override stamp (lookup name failure_map)

-- the key of the registry of active alarms
pub record AlarmKey : Type 0 where
  pub key_instance : String
  pub key_type : X733AlarmType
  pub key_cause : String

unfoldable pub key_of : X733Alarm → AlarmKey
key_of a = record {
  key_instance = a.managed_object_instance;
  key_type = a.alarm_type;
  key_cause = a.probable_cause;
}

unfoldable pub type_tag : X733AlarmType → ℕ
type_tag communications = 0
type_tag qos = 1
type_tag processing_error = 2
type_tag equipment = 3
type_tag environmental = 4

unfoldable pub key_eq : AlarmKey → AlarmKey → Bool
unfolding type_tag
key_eq a b =
    str_eq a.key_instance b.key_instance
    && type_tag a.key_type == type_tag b.key_type
    && str_eq a.key_cause b.key_cause

abbrev pub Active : Type 0
Active = List (AlarmKey × X733Alarm)

-- `self._active.get(key)`, `self._active[key] = alarm`, `self._active.pop(key, None)`
unfoldable pub find_active : AlarmKey → Active → Option X733Alarm
find_active k [] = none
find_active k ((j, a) ∷ act) = if key_eq j k then some a else find_active k act

unfoldable pub put_active : AlarmKey → X733Alarm → Active → Active
put_active k a [] = (k, a) ∷ []
put_active k a ((j, b) ∷ act) =
    let rest = put_active k a act in if key_eq j k then (j, a) ∷ act else (j, b) ∷ rest

unfoldable pub pop_active : AlarmKey → Active → Active
pop_active k [] = []
pop_active k ((j, b) ∷ act) =
    let rest = pop_active k act in if key_eq j k then rest else (j, b) ∷ rest

abbrev pub Subscriber {ℓ} : Type ℓ → Type ℓ
Subscriber W = X733Alarm → W → Outcome (Unit {0}) × W

pub record X733AlarmBus {ℓ} (W : Type ℓ) : Type ℓ where
  pub subscribers : List (Subscriber W)
  pub active : Active
  pub emitted : List X733Alarm

module _ {ℓ} {W : Type ℓ} where
  unfoldable pub new_bus : X733AlarmBus W
  new_bus = record { subscribers = []; active = []; emitted = [] }

  unfoldable pub subscribe : Subscriber W → X733AlarmBus W → X733AlarmBus W
  subscribe fn bus = record bus { subscribers = bus.subscribers ++ fn ∷ [] }

  -- each subscriber is called, and what it raises is dropped
  unfoldable pub notify : List (Subscriber W) → X733Alarm → W → W
  notify [] a w = w
  notify (fn ∷ fns) a w = notify fns a (fn a w).1

  unfoldable pub emit : X733Alarm → X733AlarmBus W → W → X733AlarmBus W × W
  unfolding is_clearing notify key_of
  emit a bus w = (
    record bus {
      active =
          if is_clearing a
          then pop_active (key_of a) bus.active
          else put_active (key_of a) a bus.active;
      emitted = bus.emitted ++ a ∷ [];
    },
    notify bus.subscribers a w,
  )

  -- what `emit_event` does with the mapped alarm
  unfoldable pub emit_mapped :
      Outcome X733Alarm → X733AlarmBus W → W → Outcome X733Alarm × X733AlarmBus W × W
  unfolding emit
  emit_mapped (raised e) bus w = (raised e, bus, w)
  emit_mapped (ok a) bus w = let (bus', w') = emit a bus w in (ok a, bus', w')

  unfoldable pub emit_event :
      String
      → Dict String
      → Option X733Severity
      → Stamp
      → X733AlarmBus W
      → W
      → Outcome X733Alarm × X733AlarmBus W × W
  unfolding map_event_to_alarm emit_mapped
  emit_event name info override stamp bus w =
      emit_mapped (map_event_to_alarm name info override stamp) bus w

-- `active_alarms`
unfoldable pub active_alarms : Active → List X733Alarm
active_alarms [] = []
active_alarms ((_, a) ∷ act) = a ∷ active_alarms act
