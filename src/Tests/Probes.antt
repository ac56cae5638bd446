-- ===== src/Tests/Probes.antt =====
-- runtime/liveness.py: the probes at concrete inputs.
use preceptual_ai_5g_dynamic.Prelude.{List, [], false, none, some, true, ◌↔◌, ◌∷◌, ◌≡◌}
use preceptual_ai_5g_dynamic.Prelude.Flt.{lit, lt_flt, max_flt, sub_flt}
use preceptual_ai_5g_dynamic.Prelude.Outcome.{ok, os_error, raised}
use preceptual_ai_5g_dynamic.Liveness.{Limits, Providers, evaluate, new_liveness}
use preceptual_ai_5g_dynamic.Liveness.Verdict.{
  Signal, evaluate-receive_all, heartbeat, lag_reading, receive_all, tick,
}

abbrev limits : Limits
limits = record {
  watchdog_max_age = lit 300;
  loop_lag_max = lit 1;
  loop_probe_period = lit 10;
  planner_max_silence = lit 150;
}

abbrev signals : List Signal
signals = tick (lit 40) ∷ heartbeat (lit 50) ∷ lag_reading (lit 0) ∷ tick (lit 190) ∷ []

-- the planner was last heard 170 ago
evaluate-receive_all_example :
    ((evaluate (lit 220) (receive_all signals (new_liveness limits (lit 5)))).is_ok ≡ true) ↔ (
      (lt_flt (lit 300) (sub_flt (lit 220) (lit 190)) ≡ false)
      × (lt_flt (lit 1) (max_flt (lit 0) (lit 0)) ≡ false)
      × (lt_flt (lit 150) (sub_flt (lit 220) (lit 50)) ≡ false))
evaluate-receive_all_example = evaluate-receive_all signals limits (lit 5) (lit 220)

abbrev providers : Providers
providers = record {
  connector_state = some (ok "RUNNING");
  evidence_writable = some (raised os_error);
  r1_registered = none;
}
