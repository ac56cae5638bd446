-- ===== src/Liveness.antt =====
-- runtime/liveness.py: the signals behind /healthz and /readyz. Readings of the clock and of the
-- asyncio loop are arguments, and so is what the three readiness providers return or raise when
-- they are called. The product `planner_sla_s * planner_max_missed` is given as it is stored. The
-- details of a report, which repeat the readings rounded, are not modelled.
pub mod Verdict
use preceptual_ai_5g_dynamic.Prelude.{
  Bool, List, Option, String, [], false, if◌then◌else◌, none, nonempty, not, some, str_eq, true,
  ◌&&◌, ◌++◌, ◌∷◌,
}
use preceptual_ai_5g_dynamic.Prelude.Flt.{Flt, lit, lt_flt, max_flt, sub_flt}
use preceptual_ai_5g_dynamic.Prelude.Outcome.{Outcome, ok, raised}

-- `LivenessReport` and `ReadinessReport`
pub record Report : Type 0 where
  pub is_ok : Bool
  pub failures : List String

-- what `LivenessRegistry` is configured with
pub record Limits : Type 0 where
  pub watchdog_max_age : Flt
  pub loop_lag_max : Flt
  pub loop_probe_period : Flt
  pub planner_max_silence : Flt

pub record LivenessRegistry : Type 0 where
  pub limits : Limits
  pub last_watchdog_tick : Flt
  pub last_planner_heartbeat : Flt
  pub loop_lag : Flt
  pub planner_seen_heartbeat : Bool

-- the optional providers, as what calling them gives
pub record Providers : Type 0 where
  pub connector_state : Option (Outcome String)
  pub evidence_writable : Option (Outcome Bool)
  pub r1_registered : Option (Outcome Bool)

unfoldable pub new_liveness : Limits → (now : Flt) → LivenessRegistry
new_liveness limits now = record {
  limits = limits;
  last_watchdog_tick = now;
  last_planner_heartbeat = now;
  loop_lag = lit 0;
  planner_seen_heartbeat = false;
}

unfoldable pub mark_watchdog_tick : Flt → LivenessRegistry → LivenessRegistry
mark_watchdog_tick now r = record r { last_watchdog_tick = now }

unfoldable pub mark_planner_heartbeat : Flt → LivenessRegistry → LivenessRegistry
mark_planner_heartbeat now r = record r {
  last_planner_heartbeat = now;
  planner_seen_heartbeat = true;
}

-- `max(0.0, lag_s)`
unfoldable pub record_loop_lag : Flt → LivenessRegistry → LivenessRegistry
record_loop_lag lag r = record r { loop_lag = max_flt (lit 0) lag }

-- one round of `loop_lag_probe_task`: the clock before and after the sleep
unfoldable pub probe_round : (before after : Flt) → LivenessRegistry → LivenessRegistry
unfolding record_loop_lag
probe_round before after r =
    record_loop_lag (max_flt (lit 0) (sub_flt (sub_flt after before) r.limits.loop_probe_period)) r

-- `[name]` if the test fails
abbrev pub failed_if : Bool → String → List String
failed_if bad name = if bad then name ∷ [] else []

unfoldable pub stale : Flt → LivenessRegistry → Bool
stale now r = lt_flt r.limits.watchdog_max_age (sub_flt now r.last_watchdog_tick)

unfoldable pub lagging : LivenessRegistry → Bool
lagging r = lt_flt r.limits.loop_lag_max r.loop_lag

unfoldable pub stalled : Flt → LivenessRegistry → Bool
stalled now r =
    r.planner_seen_heartbeat
    && lt_flt r.limits.planner_max_silence (sub_flt now r.last_planner_heartbeat)

unfoldable pub report_of : List String → Report
report_of failures = record { is_ok = not (nonempty failures); failures = failures }

unfoldable pub live_failures : Flt → LivenessRegistry → List String
unfolding stale lagging stalled
live_failures now r =
    failed_if (stale now r) "watchdog_stale"
    ++ (failed_if (lagging r) "loop_lag_high" ++ failed_if (stalled now r) "planner_stalled")

unfoldable pub evaluate : Flt → LivenessRegistry → Report
unfolding live_failures report_of
evaluate now r = report_of (live_failures now r)

-- a connector that raises is in the state `error:<class>`, which is not RUNNING
unfoldable pub connector_down : Option (Outcome String) → Bool
connector_down none = false
connector_down (some (ok s)) = not (str_eq s "RUNNING")
connector_down (some (raised e)) = true

-- a probe that raises counts as false
unfoldable pub probe_down : Option (Outcome Bool) → Bool
probe_down none = false
probe_down (some (ok b)) = not b
probe_down (some (raised e)) = true

unfoldable pub evaluate_readiness : Flt → Providers → LivenessRegistry → Report
unfolding evaluate report_of connector_down probe_down
evaluate_readiness now p r = report_of (
    (evaluate now r).failures
    ++ (failed_if (connector_down p.connector_state) "connector_not_running"
        ++ (failed_if (probe_down p.evidence_writable) "evidence_not_writable"
            ++ failed_if (probe_down p.r1_registered) "r1_not_registered")))
