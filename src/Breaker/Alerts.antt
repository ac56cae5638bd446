-- ===== src/Breaker/Alerts.antt =====
-- runtime/circuit_breaker.py: the alarms of several breakers on one bus.
use preceptual_ai_5g_dynamic.Prelude.{Option, String, none, refl, some, ◌≡◌}
use preceptual_ai_5g_dynamic.Prelude.Dict.{lookup}
use preceptual_ai_5g_dynamic.Alarms.{
  AlarmKey, AlarmSpec, Stamp, X733AlarmBus, cleared, failure_map, find_active, major,
  processing_error, spec, warning,
}
use preceptual_ai_5g_dynamic.Alarms.Registry.{Stands, emit_event-Stands, emit_event_clears}
use preceptual_ai_5g_dynamic.Breaker.{state_change}

abbrev pub breaker_key : AlarmKey
breaker_key = record {
  key_instance = "rApp/horizon_ric";
  key_type = processing_error;
  key_cause = "internalServiceFailure";
}

abbrev opened_spec : AlarmSpec
opened_spec =
    spec processing_error "internalServiceFailure" major "Circuit breaker opened on dependency call"

abbrev half_open_spec : AlarmSpec
half_open_spec =
    spec processing_error "internalServiceFailure" warning
      "Circuit breaker entered HALF_OPEN probe state"

abbrev closed_spec : AlarmSpec
closed_spec =
    spec processing_error "internalServiceFailure" cleared "Circuit breaker recovered to CLOSED"

lookup-opened : lookup "horizon.cb.opened" failure_map ≡ some opened_spec
unfolding lookup failure_map
lookup-opened = refl

lookup-half_open : lookup "horizon.cb.half_open" failure_map ≡ some half_open_spec
unfolding lookup failure_map
lookup-half_open = refl

lookup-closed : lookup "horizon.cb.closed" failure_map ≡ some closed_spec
unfolding lookup failure_map
lookup-closed = refl

module _ {ℓ} {W : Type ℓ} where
  -- A breaker's alarm follows its state, on any bus: when it opens, or becomes half-open, an alarm
  -- of that event stands under the key of the breakers, and when it closes nothing stands there.
  pub state_change_alarms :
      (breaker : String) (old : Option String) (count : String) (stamp : Stamp)
      (bus : X733AlarmBus W) (w : W)
      → Stands
          (find_active breaker_key (state_change breaker old "open" count stamp bus w).0.active)
          "horizon.cb.opened"
        × Stands
            (find_active breaker_key
              (state_change breaker old "half-open" count stamp bus w).0.active)
            "horizon.cb.half_open"
        × (find_active breaker_key (state_change breaker old "closed" count stamp bus w).0.active
            ≡ none)
  unfolding state_change
  state_change_alarms breaker old count stamp bus w = (
    emit_event-Stands _ _ stamp bus w opened_spec lookup-opened refl,
    emit_event-Stands _ _ stamp bus w half_open_spec lookup-half_open refl,
    emit_event_clears _ _ stamp bus w closed_spec lookup-closed refl,
  )

  -- Two breakers share one alarm: after the one called `a` has opened, which leaves its alarm
  -- standing, the closing of the one called `b` leaves no breaker alarm on the bus.
  pub closing_clears_others :
      (a b : String) (old_a old_b : Option String) (count_a count_b : String) (s t : Stamp)
      (bus : X733AlarmBus W) (w : W)
      → let (opened, w') = state_change a old_a "open" count_a s bus w in
        let (closed_bus, _) = state_change b old_b "closed" count_b t opened w' in
        Stands (find_active breaker_key opened.active) "horizon.cb.opened"
        × (find_active breaker_key closed_bus.active ≡ none)
  closing_clears_others a b old_a old_b count_a count_b s t bus w =
      let (opened, w') = state_change a old_a "open" count_a s bus w in
      (
        (state_change_alarms a old_a count_a s bus w).0,
        (state_change_alarms b old_b count_b t opened w').2,
      )
